-- ===== src/HashTable/Grow.antt =====
-- `hash_table_add` when it doubles the array. `_rehash_table` looks each node up in the doubled array
-- before it moves anything, so it meets a null pointer where a node ought to go; and the index of
-- the new node was found in the old array.
use fapolicyd_analyzer.Base.{
  ℕ, ◌*◌, ◌%◌, ◌^◌, ◌≤◌, ◌<◌, ◌≡◌, Bool, true, false, some, none, CString, get_elem?, get_elem?-lt,
  get_elem?-set_ne, ok, aborted, success, arith, Bool-cases, inl, inr,
}
use fapolicyd_analyzer.Fnv.{hash}
use fapolicyd_analyzer.Probe
use fapolicyd_analyzer.Probe.{Slots, Alloc, get_index, over_load, insert, grow, expand, assign_node}
use fapolicyd_analyzer.Probe.Grow.{
  grow_aborts, grow-expand, expand-number, expand-upper, insert-grown,
}
use fapolicyd_analyzer.Probe.Valid.{get_index-false, get_index-vacant}
use fapolicyd_analyzer.HashTable.{Node, node_entry, new_node, HashTable, add, contains, holds}
use fapolicyd_analyzer.HashTable.Valid.{IsValid, get_index-holds}

-- the key belongs to the new half of an array that is doubled
abbrev pub MovesUp : CString → HashTable → Type 0
MovesUp key table = table.number_nodes ≤ hash key % (table.number_nodes * 2)

module _ {table : HashTable} (valid : IsValid table) (small : table.number_nodes * 2 < 2 ^ 64)
    (full : over_load table.used_nodes table.number_nodes ≡ true) (key : CString) (value : ℕ)
    (absent : holds key table.nodes ≡ false) (alloc : Alloc) where
  -- On a well-formed table whose load is over 0.65 and whose size can be doubled, with the memory
  -- for the doubled array, `hash_table_add` of a key that is not in the table aborts the program if
  -- some stored key belongs to the new half, that is, if its hash modulo the doubled size is at
  -- least the old size.
  pub add-aborted :
      (i : ℕ) (node : Node)
      → alloc.realloc ≡ true
      → get_elem? table.nodes i ≡ some (some node)
      → MovesUp node.key table
      → add alloc table key value ≡ aborted
  unfolding add insert
  add-aborted i node reallocated e up =
      let (index, run) = get_index-holds valid key in
      let up' : table.number_nodes ≤ node.hash % (table.number_nodes * 2) =
        ground (arith, valid.hashed i node) in
      rw (run, absent, grow_aborts valid.slots small alloc i node full reallocated e up')

  not_found_at_home :
      (u : HashTable)
      → u.number_nodes ≡ table.number_nodes * 2
      → get_elem? u.nodes (hash key % (table.number_nodes * 2)) ≡ some none
      → contains u key ≡ ok false
  unfolding contains Probe.contains
  not_found_at_home u size free =
      let wide = valid.wide in ground (arith, get_index-vacant u key (hash key))

  -- Nothing stands at the home of the new key in the new half, wherever below it was written.
  vacant_home :
      (written : Bool) (index used : ℕ) {t : HashTable}
      → t ≡ expand table
      → index < table.number_nodes
      → MovesUp key table
      → contains
          (record (assign_node written t (new_node key value) index) { used_nodes = used })
          key
        ≡ ok false
  unfolding assign_node
  vacant_home written index used {t} e below up =
      let in_range : hash key % (table.number_nodes * 2) < table.number_nodes * 2 =
        ground (arith, valid.wide) in
      let upper =
        expand-upper valid.slots small (hash key % (table.number_nodes * 2)) up in_range in
      let size = expand-number valid.slots small in
      elim (Bool-cases written) [
        | inl yes_written ↦ not_found_at_home _ (ground arith) (
            ground (
              arith,
              get_elem?-set_ne (expand table).nodes index (hash key % (table.number_nodes * 2))
                  (some (new_node key value)),
            ))
        | inr not_written ↦ not_found_at_home _ (ground arith) (ground arith)
      ]

  -- On a well-formed table whose load is over 0.65 and whose size can be doubled, if
  -- `hash_table_add` of a key that is not in the table returns OK, and that key belongs to the new
  -- half of the doubled array, then `hash_table_contains` does not find the key afterwards.
  pub add-forgets :
      (table' : HashTable)
      → add alloc table key value ≡ ok (success, table')
      → MovesUp key table
      → contains table' key ≡ ok false
  unfolding add
  add-forgets table' h up =
      let (index, run) = get_index-holds valid key in
      let vacant = rw absent at run in
      let (t, grown, e) =
        insert-grown alloc table (new_node key value) index {t'' = table'}
          (rw (run, absent) at h) in
      let below : index < table.number_nodes =
        rw valid.slots.width at
          (get_elem?-lt table.nodes index (get_index-false table key (hash key) index vacant)) in
      rw e
        (vacant_home alloc.node index _ (grow-expand valid.slots small alloc t full grown) below up)
