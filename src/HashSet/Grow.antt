-- ===== src/HashSet/Grow.antt =====
-- `hash_set_add` when it doubles the array. `_rehash_set` looks each node up in the doubled array
-- before it moves anything, so it meets a null pointer where a node ought to go; and the index of
-- the new node was found in the old array.
use fapolicyd_analyzer.Base.{
  ℕ, ◌*◌, ◌%◌, ◌^◌, ◌≤◌, ◌<◌, ◌≡◌, Bool, true, false, some, none, CString, get_elem?, get_elem?-lt,
  get_elem?-set_ne, set, ok, aborted, success, arith, Bool-cases, inl, inr,
}
use fapolicyd_analyzer.Fnv.{hash}
use fapolicyd_analyzer.Probe
use fapolicyd_analyzer.Probe.{Slots, Alloc, get_index, over_load, insert, grow, expand, assign_node}
use fapolicyd_analyzer.Probe.Grow.{
  grow_aborts, grow-expand, expand-number, expand-upper, insert-grown,
}
use fapolicyd_analyzer.Probe.Valid.{get_index-false, get_index-vacant}
use fapolicyd_analyzer.HashSet.{Node, node_entry, new_node, HashSet, add, contains, holds}
use fapolicyd_analyzer.HashSet.Valid.{IsValid}
use fapolicyd_analyzer.HashSet.Add.{get_index-holds}

-- the key belongs to the new half of an array that is doubled
abbrev pub MovesUp : CString → HashSet → Type 0
MovesUp key set = set.number_nodes ≤ hash key % (set.number_nodes * 2)

module _ {set : HashSet} (valid : IsValid set) (small : set.number_nodes * 2 < 2 ^ 64)
    (full : over_load set.used_nodes set.number_nodes ≡ true) (key : CString)
    (absent : holds key set.nodes ≡ false) (alloc : Alloc) where
  -- On a well-formed set whose load is over 0.65 and whose size can be doubled, with the memory for
  -- the doubled array, `hash_set_add` of a key that is not in the set aborts the program if some
  -- stored key belongs to the new half, that is, if its hash modulo the doubled size is at least
  -- the old size.
  pub add-aborts :
      (i : ℕ) (node : Node)
      → alloc.realloc ≡ true
      → get_elem? set.nodes i ≡ some (some node)
      → MovesUp node.key set
      → add alloc set key ≡ aborted
  unfolding add insert
  add-aborts i node reallocated e up =
      let (index, run) = get_index-holds valid key in
      let up' : set.number_nodes ≤ node.hash % (set.number_nodes * 2) =
        ground (arith, valid.hashed i node) in
      rw (run, absent, grow_aborts valid.table small alloc i node full reallocated e up')

  not_found_at_home :
      (u : HashSet)
      → u.number_nodes ≡ set.number_nodes * 2
      → get_elem? u.nodes (hash key % (set.number_nodes * 2)) ≡ some none
      → contains u key ≡ ok false
  unfolding contains Probe.contains
  not_found_at_home u size free =
      let wide = valid.wide in ground (arith, get_index-vacant u key (hash key))

  -- Nothing stands at the home of the new key in the new half, wherever below it was written.
  vacant_home :
      (written : Bool) (index used : ℕ) {t : HashSet}
      → t ≡ expand set
      → index < set.number_nodes
      → MovesUp key set
      → contains (record (assign_node written t (new_node key) index) { used_nodes = used }) key
        ≡ ok false
  unfolding assign_node
  vacant_home written index used {t} e below up =
      let in_range : hash key % (set.number_nodes * 2) < set.number_nodes * 2 =
        ground (arith, valid.wide) in
      let upper = expand-upper valid.table small (hash key % (set.number_nodes * 2)) up in_range in
      let size = expand-number valid.table small in
      elim (Bool-cases written) [
        | inl yes_written ↦ not_found_at_home _ (ground arith) (
            ground (
              arith,
              get_elem?-set_ne (expand set).nodes index (hash key % (set.number_nodes * 2))
                  (some (new_node key)),
            ))
        | inr not_written ↦ not_found_at_home _ (ground arith) (ground arith)
      ]

  -- On a well-formed set whose load is over 0.65 and whose size can be doubled, if `hash_set_add`
  -- of a key that is not in the set returns OK, and that key belongs to the new half of the doubled
  -- array, then `hash_set_contains` does not find the key afterwards.
  pub add-lost :
      (set' : HashSet)
      → add alloc set key ≡ ok (success, set')
      → MovesUp key set
      → contains set' key ≡ ok false
  unfolding add
  add-lost set' h up =
      let (index, run) = get_index-holds valid key in
      let vacant = rw absent at run in
      let (t, grown, e) =
        insert-grown alloc set (new_node key) index {t'' = set'} (rw (run, absent) at h) in
      let below : index < set.number_nodes =
        rw valid.table.width at
          (get_elem?-lt set.nodes index (get_index-false set key (hash key) index vacant)) in
      rw e
        (vacant_home alloc.node index _ (grow-expand valid.table small alloc t full grown) below up)
