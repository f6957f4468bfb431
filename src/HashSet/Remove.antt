-- ===== src/HashSet/Remove.antt =====
-- `hash_set_remove` on a well-formed set: which keys the array holds afterwards, and which of them
-- `hash_set_contains` still finds.
use fapolicyd_analyzer.Base.{
  ℕ, ◌+◌, ◌%◌, ◌≡◌, refl, sym, ◌∙◌, inl, inr, true, false, none, some, CString, str_eq, str_eq→eq,
  get_elem?, get_elem?-set_ne, get_elem?-set_self, get_elem?-lt, ok, arith, ◌==◌, Bool-cases,
  if◌then◌else◌, ◌≢◌,
}
use fapolicyd_analyzer.Fnv.{hash}
use fapolicyd_analyzer.Probe.{is_at, get_index}
use fapolicyd_analyzer.Probe.Content.{is_at→eq}
use fapolicyd_analyzer.Probe.Free.{
  freed, freed-counted, freed-has, freed-lost, remove-absent, remove-present,
}
use fapolicyd_analyzer.Probe.Valid.{get_index-true}
use fapolicyd_analyzer.HashSet.{Node, node_entry, HashSet, remove, contains, holds}
use fapolicyd_analyzer.HashSet.Valid.{IsValid, has-holds}
use fapolicyd_analyzer.HashSet.Add.{get_index-holds}

-- The array after a removal of `key` holds exactly the other keys, and the count follows.
pub record IsRemoved (set : HashSet) (key : CString) (set' : HashSet) : Type 0 where
  pub keys :
      (k : CString) → holds k set'.nodes ≡ (if str_eq k key then false else holds k set.nodes)
  pub counted : set'.used_nodes + (if holds key set.nodes then 1 else 0) ≡ set.used_nodes
  pub size : set'.number_nodes ≡ set.number_nodes

module _ {set : HashSet} (valid : IsValid set) (key : CString) where
  module _ (i : ℕ) (run : get_index set key (hash key) ≡ ok (true, i)) where
    freed-hashed :
        (j : ℕ) (node : Node)
        → get_elem? (freed valid.table key (hash key) i).nodes j ≡ some (some node)
        → node.hash ≡ hash node.key
    freed-hashed j node e =
        let (x, ex, at) = get_index-true set key (hash key) i run in
        elim (Bool-cases (i == j)) [
          | inl same ↦
              ground (arith, get_elem?-set_self set.nodes i none (get_elem?-lt set.nodes i ex))
          | inr other ↦
              valid.hashed j node (sym (get_elem?-set_ne set.nodes i j none (ground arith)) ∙ e)
        ]

    freed-holds :
        (k : CString)
        → holds k (freed valid.table key (hash key) i).nodes
          ≡ (if str_eq k key then false else holds k set.nodes)
    freed-holds k =
        let (x, ex, at) = get_index-true set key (hash key) i run in
        let (p, q) = is_at→eq key (hash key) x at in
        let same : is_at k (hash k) x ≡ str_eq k key =
          unfold is_at in ground (arith, str_eq→eq k key) in
        ground (
          arith,
          has-holds k (freed valid.table key (hash key) i).nodes freed-hashed,
          has-holds k set.nodes valid.hashed,
          freed-has valid.table key (hash key) i run k (hash k),
        )

  -- On a well-formed set `hash_set_remove` returns whether some slot holds the key; afterwards the
  -- array holds exactly the other keys, the size is the same, and the count is one less if the key
  -- was there.
  pub remove-IsRemoved :
      (set' : HashSet) × (remove set key ≡ ok (holds key set.nodes, set')) × IsRemoved set key set'
  unfolding remove
  remove-IsRemoved =
      let (i, run) = get_index-holds valid key in
      elim (Bool-cases (holds key set.nodes)) [
        | inl present ↦
            let found = rw present at run in
            (
              freed valid.table key (hash key) i,
              rw present (remove-present valid.table key (hash key) i found),
              record {
                keys = freed-holds i found;
                counted =
                    rw present (omega (arith, freed-counted valid.table key (hash key) i found));
                size = refl;
              },
            )
        | inr absent ↦ (
          set,
          rw absent (
              remove-absent valid.table key (hash key)
                (rw (has-holds key set.nodes valid.hashed) absent)),
          record {
            keys = λ k. ground (arith, str_eq→eq k key);
            counted = rw absent (omega arith);
            size = refl;
          },
        )
      ]

  -- On a well-formed set in which a key stands in its home slot, if another key with the same home
  -- slot is in the set, then `hash_set_remove` of the first returns true, and afterwards the other
  -- key is still in the array but `hash_set_contains` does not find it.
  pub remove-loses :
      (other : CString)
      → get_index set key (hash key) ≡ ok (true, hash key % set.number_nodes)
      → hash other % set.number_nodes ≡ hash key % set.number_nodes
      → holds other set.nodes ≡ true
      → other ≢ key
      → (set' : HashSet) × (remove set key ≡ ok (true, set'))
        × (holds other set'.nodes ≡ true)
        × (contains set' other ≡ ok false)
  unfolding remove contains
  remove-loses other run home present ne =
      let i = hash key % set.number_nodes in
      (
        freed valid.table key (hash key) i,
        remove-present valid.table key (hash key) i run,
        ground (arith, freed-holds i run other, str_eq→eq other key),
        freed-lost valid.table key (hash key) i (hash other) other run home,
      )
