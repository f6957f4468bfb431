-- ===== src/HashSet/Add.antt =====
-- `hash_set_add` on a well-formed set.
use fapolicyd_analyzer.Base.{
  ℕ, suc, ◌+◌, ◌*◌, ◌^◌, ◌≤◌, ◌<◌, ◌≡◌, refl, sym, ◌∙◌, true, false, ◌||◌, ◌==◌, some, CString,
  str_eq, str_eq→eq, get_elem?, get_elem?-set_self, get_elem?-set_ne, get_elem?-lt, ok, success,
  arith, Bool-cases, inl, inr, if◌then◌else◌,
}
use fapolicyd_analyzer.Fnv.{hash}
use fapolicyd_analyzer.Probe.{Alloc, is_at, get_index, over_load}
use fapolicyd_analyzer.Probe.Fill.{filled, fill-IsValid, fill-has, insert-fill}
use fapolicyd_analyzer.Probe.Valid.{get_index-has, get_index-false}
use fapolicyd_analyzer.HashSet.{Node, node_entry, new_node, HashSet, add, holds}
use fapolicyd_analyzer.HashSet.Valid.{IsValid, has-holds}

is_at-new_node : (k key : CString) → is_at k (hash k) (new_node key) ≡ str_eq k key
unfolding is_at
is_at-new_node k key = ground (arith, str_eq→eq k key)

-- The set after an addition of `key`: well formed, with exactly the old keys and the new one, and
-- with one more on the count if the key is new.
pub record IsAdded (set : HashSet) (key : CString) (set' : HashSet) : Type 0 where
  pub valid : IsValid set'
  pub keys : (k : CString) → holds k set'.nodes ≡ (str_eq k key || holds k set.nodes)
  pub counted : set'.used_nodes ≡ set.used_nodes + (if holds key set.nodes then 0 else 1)
  pub size : set'.number_nodes ≡ set.number_nodes

module _ {set : HashSet} (valid : IsValid set) (key : CString) where
  -- The probe for the key says whether the set holds it.
  pub get_index-holds : (i : ℕ) × (get_index set key (hash key) ≡ ok (holds key set.nodes, i))
  get_index-holds =
      let (i, run) = get_index-has valid.table key (hash key) in
      (i, rw (has-holds key set.nodes valid.hashed) at run)

  light-roomy :
      over_load set.used_nodes set.number_nodes ≡ false
      → (suc set.used_nodes < set.number_nodes)
        × (2 ^ 25 * suc set.used_nodes ≤ 21810381 * set.number_nodes + 2 ^ 25)
  unfolding over_load
  light-roomy light = ground (arith, valid.wide)

  module _ (index : ℕ) (run : get_index set key (hash key) ≡ ok (false, index))
      (light : over_load set.used_nodes set.number_nodes ≡ false) where
    abbrev set_with : HashSet
    set_with = filled set index (new_node key) (suc set.used_nodes)

    set_with-hashed :
        (i : ℕ) (node : Node)
        → get_elem? set_with.nodes i ≡ some (some node)
        → node.hash ≡ hash node.key
    set_with-hashed i node e =
        let free = get_index-false set key (hash key) index run in
        elim (Bool-cases (index == i)) [
          | inl same ↦ ground (
            arith,
            get_elem?-set_self set.nodes index (some (new_node key)),
            get_elem?-lt set.nodes index free,
          )
          | inr other ↦
              valid.hashed i node
                (sym (get_elem?-set_ne set.nodes index i (some (new_node key)) (ground arith)) ∙ e)
        ]

    set_with-IsAdded : holds key set.nodes ≡ false → IsAdded set key set_with
    set_with-IsAdded absent =
        let (room, load) = light-roomy light in
        record {
          valid = record {
            table = fill-IsValid valid.table (new_node key) index run room;
            hashed = set_with-hashed;
            load = load;
            wide = valid.wide;
          };
          keys = λ k. ground (
            arith,
            has-holds k set_with.nodes set_with-hashed,
            has-holds k set.nodes valid.hashed,
            fill-has valid.table (new_node key) index run k (hash k),
            is_at-new_node k key,
          );
          counted = rw absent (omega arith);
          size = refl;
        }

  -- `hash_set_add` of a key that a well-formed set holds returns OK and changes nothing, at any
  -- load and whatever can be allocated.
  pub add-present :
      (alloc : Alloc) → holds key set.nodes ≡ true → add alloc set key ≡ ok (success, set)
  unfolding add
  add-present alloc present = let (i, run) = get_index-holds in rw (run, present)

  -- On a well-formed set whose load is not over 0.65, with memory for the node, `hash_set_add`
  -- returns OK and leaves a well-formed set of the same size that holds the old keys and the new
  -- one and no others, and counts one more if the key is new.
  pub add-IsAdded :
      (alloc : Alloc)
      → over_load set.used_nodes set.number_nodes ≡ false
      → alloc.node ≡ true
      → (set' : HashSet) × (add alloc set key ≡ ok (success, set')) × IsAdded set key set'
  unfolding add
  add-IsAdded alloc light allocated =
      let (i, run) = get_index-holds in
      elim (Bool-cases (holds key set.nodes)) [
        | inl present ↦ (
          set,
          add-present alloc present,
          record {
            valid = valid;
            keys = λ k. ground (arith, str_eq→eq k key);
            counted = rw present (omega arith);
            size = refl;
          },
        )
        | inr absent ↦
            let vacant = rw absent at run in
            let (room, load) = light-roomy light in
            (
              set_with i vacant light,
              rw (
                vacant,
                insert-fill alloc set (new_node key) i light allocated
                    (omega (arith, valid.table.fits)),
              ),
              set_with-IsAdded i vacant light absent,
            )
      ]
