-- ===== src/Probe/Fill.antt =====
-- Writing a node to the vacant slot where the probe for it ended, and over a node of its own key.
use fapolicyd_analyzer.Base.{
  ℕ, suc, ◌+◌, ◌%◌, ◌^◌, ◌<◌, ◌≡◌, sym, ◌∙◌, inl, inr, true, false, none, some, CString, get_elem?,
  get_elem?-lt, get_elem?-set_ne, get_elem?-set_self, set, length-set, ok, success, arith, ◌==◌,
  ◌||◌, Bool-cases,
}
use fapolicyd_analyzer.Probe.{
  Entry, Slots, Alloc, is_at, get_index, over_load, assign_node, grow, insert,
}
use fapolicyd_analyzer.Probe.Walk.{probe-set_vacant, probe-set_end}
use fapolicyd_analyzer.Probe.Content.{occupied-fill, has, is_at_self, has-fill}
use fapolicyd_analyzer.Probe.Valid.{IsValid, get_index-false}

module _ {N : Type 0} ⦃entry : Entry N⦄ where
  -- `t` with `node` in slot `i` and the count `used`
  abbrev pub filled : Slots N → ℕ → N → ℕ → Slots N
  filled t i node used = record t { nodes = set t.nodes i (some node); used_nodes = used }

  module _ (t : Slots N) (key : CString) (hash : ℕ) (v : ℕ) (x : N) (used : ℕ) where
    pub get_index-fill_other :
        (j : ℕ)
        → get_elem? t.nodes v ≡ some none
        → get_index t key hash ≡ ok (true, j)
        → get_index (filled t v x used) key hash ≡ ok (true, j)
    unfolding get_index
    get_index-fill_other j free h = ground (
      arith,
      probe-set_vacant key hash t.number_nodes (hash % t.number_nodes) t.nodes v (some x)
          t.number_nodes (hash % t.number_nodes) j,
    )

    pub get_index-fill_self :
        is_at key hash x ≡ true
        → get_index t key hash ≡ ok (false, v)
        → get_index (filled t v x used) key hash ≡ ok (true, v)
    unfolding get_index
    get_index-fill_self at h = ground (
      arith,
      probe-set_end key hash t.number_nodes (hash % t.number_nodes) t.nodes x t.number_nodes
          (hash % t.number_nodes) v,
    )

  module _ {t : Slots N} (valid : IsValid t) (node : N) (v : ℕ)
      (vacant : get_index t (entry.key node) (entry.hash node) ≡ ok (false, v)) where
    free : get_elem? t.nodes v ≡ some none
    free = get_index-false t (entry.key node) (entry.hash node) v vacant

    pub fill-IsValid :
        suc t.used_nodes < t.number_nodes → IsValid (filled t v node (suc t.used_nodes))
    fill-IsValid room = record {
      width = length-set t.nodes v (some node) ∙ valid.width;
      counted = omega (arith, valid.counted, occupied-fill t.nodes v node free);
      roomy = room;
      fits = valid.fits;
      reach = λ i x e. elim (Bool-cases (v == i)) [
        | inl same ↦ ground (
          arith,
          get_index-fill_self t (entry.key node) (entry.hash node) v node (suc t.used_nodes),
          is_at_self node,
          get_elem?-set_self t.nodes v (some node),
          get_elem?-lt t.nodes v free,
        )
        | inr other ↦
            get_index-fill_other t (entry.key x) (entry.hash x) v node (suc t.used_nodes) i free
              (valid.reach i x (sym (get_elem?-set_ne t.nodes v i (some node) (ground arith)) ∙ e))
      ];
    }

    -- Exactly the new key is added.
    pub fill-has :
        (key : CString) (hash : ℕ)
        → has key hash (set t.nodes v (some node)) ≡ (is_at key hash node || has key hash t.nodes)
    fill-has key hash = has-fill key hash t.nodes v node free

  -- Below the load nothing is doubled, and the node goes to the index.
  pub insert-fill :
      (alloc : Alloc) (t : Slots N) (node : N) (index : ℕ)
      → over_load t.used_nodes t.number_nodes ≡ false
      → alloc.node ≡ true
      → suc t.used_nodes < 2 ^ 64
      → insert alloc t node index ≡ ok (success, filled t index node (suc t.used_nodes))
  unfolding insert grow assign_node
  insert-fill alloc t node index light allocated small =
      let count : (t.used_nodes + 1) % 2 ^ 64 ≡ suc t.used_nodes = omega arith in
      rw (light, allocated, count)

  -- If the node cannot be allocated, the call counts it and reports success all the same.
  pub insert-unallocated :
      (alloc : Alloc) (t : Slots N) (node : N) (index : ℕ)
      → over_load t.used_nodes t.number_nodes ≡ false
      → alloc.node ≡ false
      → suc t.used_nodes < 2 ^ 64
      → insert alloc t node index ≡ ok (success, record t { used_nodes = suc t.used_nodes })
  unfolding insert grow assign_node
  insert-unallocated alloc t node index light failed small =
      let count : (t.used_nodes + 1) % 2 ^ 64 ≡ suc t.used_nodes = omega arith in
      rw (light, failed, count)
