-- ===== src/Probe/Valid.antt =====
-- The invariant of an open-addressed table, and what `_get_index` returns under it.
use fapolicyd_analyzer.Base.{
  ℕ, ◌%◌, ◌^◌, ◌<◌, ◌≡◌, inl, inr, Bool, true, false, none, some, CString, get_elem?, get_elem?-lt,
  length, ok, arith, ◌==◌, Bool-cases,
}
use fapolicyd_analyzer.Probe.{Entry, Slots, is_at, get_index, contains}
use fapolicyd_analyzer.Probe.Walk.{
  meets-hit, meets-vacant, probe-true-meets, probe-false-meets, probe-vacant, probe_total,
}
use fapolicyd_analyzer.Probe.Content.{occupied, vacancy, has, is_at→eq, has→slot, slot→has}

module _ {N : Type 0} ⦃entry : Entry N⦄ where
  -- The counters are right, a slot is vacant, and every node is found where it stands.
  pub record IsValid (t : Slots N) : Type 0 where
    pub width : length t.nodes ≡ t.number_nodes
    pub counted : t.used_nodes ≡ occupied t.nodes
    pub roomy : t.used_nodes < t.number_nodes
    pub fits : t.number_nodes < 2 ^ 64
    pub reach :
        (i : ℕ) (node : N)
        → get_elem? t.nodes i ≡ some (some node)
        → get_index t (entry.key node) (entry.hash node) ≡ ok (true, i)

  module _ (t : Slots N) (key : CString) (hash : ℕ) where
    pub get_index-true :
        (i : ℕ)
        → get_index t key hash ≡ ok (true, i)
        → (node : N) × (get_elem? t.nodes i ≡ some (some node)) × (is_at key hash node ≡ true)
    unfolding get_index
    get_index-true i h = meets-hit key hash t.nodes i (
        ground (
          arith,
          probe-true-meets key hash t.number_nodes (hash % t.number_nodes) t.nodes t.number_nodes
              (hash % t.number_nodes) i,
        ))

    pub get_index-false :
        (i : ℕ) → get_index t key hash ≡ ok (false, i) → get_elem? t.nodes i ≡ some none
    unfolding get_index
    get_index-false i h = meets-vacant key hash t.nodes i (
        ground (
          arith,
          probe-false-meets key hash t.number_nodes (hash % t.number_nodes) t.nodes t.number_nodes
              (hash % t.number_nodes) i,
        ))

    -- A vacant home slot ends the probe.
    pub get_index-vacant :
        0 < t.number_nodes
        → get_elem? t.nodes (hash % t.number_nodes) ≡ some none
        → get_index t key hash ≡ ok (false, hash % t.number_nodes)
    unfolding get_index
    get_index-vacant h free = ground (
      arith,
      probe-vacant key hash t.number_nodes (hash % t.number_nodes) t.nodes t.number_nodes
          (hash % t.number_nodes),
    )

    -- With a vacant slot the probe ends.
    pub get_index_total :
        length t.nodes ≡ t.number_nodes
        → occupied t.nodes < length t.nodes
        → (r : Bool × ℕ) × (get_index t key hash ≡ ok r)
    unfolding get_index
    get_index_total width room =
        let (v, free) = vacancy t.nodes room in
        let below = get_elem?-lt t.nodes v free in
        let home : hash % t.number_nodes < t.number_nodes = ground arith in
        let some_nodes : (t.number_nodes == 0) ≡ false = ground arith in
        let (r, run) =
          probe_total key hash t.number_nodes (hash % t.number_nodes) t.nodes v free width home
            t.number_nodes (hash % t.number_nodes) home (omega arith) in
        (r, rw some_nodes run)

  module _ {t : Slots N} (valid : IsValid t) (key : CString) (hash : ℕ) where
    -- `_get_index` says whether some slot holds the key, and where it ends.
    pub get_index-has : (i : ℕ) × (get_index t key hash ≡ ok (has key hash t.nodes, i))
    get_index-has = go (
        get_index_total t key hash valid.width
          (omega (arith, valid.roomy, valid.counted, valid.width)))
      where
        go :
            (r : Bool × ℕ) × (get_index t key hash ≡ ok r)
            → (i : ℕ) × (get_index t key hash ≡ ok (has key hash t.nodes, i))
        go ((true, i), run) =
            let (node, e, at) = get_index-true t key hash i run in
            (i, rw (slot→has key hash t.nodes i node e at) run)
        go ((false, i), run) = elim (Bool-cases (has key hash t.nodes)) [
          | inr absent ↦ (i, rw absent run)
          | inl present ↦
              let (j, node, e, at) = has→slot key hash t.nodes present in
              let (k, h) = is_at→eq key hash node at in
              let found = valid.reach j node e in absurd (ground arith)
        ]

    -- `contains` agrees with a search of all slots.
    pub contains-has : contains t key hash ≡ ok (has key hash t.nodes)
    unfolding contains
    contains-has = let (i, run) = get_index-has in rw run
