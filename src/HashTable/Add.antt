-- ===== src/HashTable/Add.antt =====
-- `hash_table_add` on a well-formed table, below its load.
use fapolicyd_analyzer.Base.{
  ℕ, suc, ◌+◌, ◌-◌, ◌*◌, ◌%◌, ◌^◌, ◌≤◌, ◌<◌, ◌≡◌, ◌≢◌, refl, sym, ◌∙◌, Bool, true, false, ◌==◌,
  Option, none, some, [], ◌∷◌, CString, str_eq, str_eq→eq, get_elem?, get_elem?-set_self,
  get_elem?-set_ne, get_elem?-lt, set, ok, success, if◌then◌else◌, arith, Bool-cases, inl, inr,
}
use fapolicyd_analyzer.Fnv.{hash}
use fapolicyd_analyzer.Probe.{Alloc, get_index, free_index, over_load}
use fapolicyd_analyzer.Probe.Content.{is_at→eq, occupied-free}
use fapolicyd_analyzer.Probe.Fill.{filled, fill-IsValid, insert-fill}
use fapolicyd_analyzer.Probe.Replace.{set-set, replace-IsValid}
use fapolicyd_analyzer.Probe.Valid.{get_index_total, get_index-true, get_index-false}
use fapolicyd_analyzer.HashTable.{Node, node_entry, new_node, HashTable, add, values_of, holds}
use fapolicyd_analyzer.HashTable.Valid.{
  IsValid, values_of-set_other, values_of-slot, get_index-holds,
}

-- After storing `value` under `key`: a well-formed table of the same size in which the key has just
-- this value, and every other key the values that it had.
pub record IsPut (table : HashTable) (key : CString) (value : ℕ) (table' : HashTable) : Type 0 where
  pub valid : IsValid table'
  pub here : values_of key table'.nodes ≡ value ∷ []
  pub others : (k : CString) → k ≢ key → values_of k table'.nodes ≡ values_of k table.nodes
  pub counted : table'.used_nodes ≡ table.used_nodes + (if holds key table.nodes then 0 else 1)
  pub size : table'.number_nodes ≡ table.number_nodes

module _ {table : HashTable} (valid : IsValid table) (key : CString) (value : ℕ) (index : ℕ) where
  abbrev node : Node
  node = new_node key value

  written-hashed :
      (used : ℕ)
      → index < table.number_nodes
      → (i : ℕ) (x : Node) → get_elem? (filled table index node used).nodes i ≡ some (some x)
      → x.hash ≡ hash x.key
  written-hashed used below i x e = elim (Bool-cases (index == i)) [
    | inl same ↦ ground (arith, valid.slots.width, get_elem?-set_self table.nodes index (some node))
    | inr ne ↦
        valid.hashed i x (sym (get_elem?-set_ne table.nodes index i (some node) (ground arith)) ∙ e)
  ]

  -- Whatever of the key's own stood in the slot, a valid result is the table with the value put.
  written-IsPut :
      (used : ℕ) (old : Option Node)
      → get_elem? table.nodes index ≡ some old
      → ((x : Node) → old ≡ some x → x.key ≡ key)
      → used ≡ table.used_nodes + (if holds key table.nodes then 0 else 1)
      → IsValid (filled table index node used)
      → IsPut table key value (filled table index node used)
  written-IsPut used old e own counted valid' = record {
    valid = valid';
    here =
        values_of-slot valid' index node
          (get_elem?-set_self table.nodes index (some node) (get_elem?-lt table.nodes index e));
    others = λ k ne.
        let differs : str_eq k key ≡ false = elim (Bool-cases (str_eq k key)) [
          | inl same ↦ absurd (ne (str_eq→eq k key same))
          | inr other ↦ other
        ] in
        values_of-set_other k table.nodes index old node e (λ x ex. rw (own x ex) differs) differs;
    counted = counted;
    size = refl;
  }

module _ {table : HashTable} (valid : IsValid table) (key : CString) (value : ℕ) (alloc : Alloc)
    (light : over_load table.used_nodes table.number_nodes ≡ false)
    (allocated : alloc.node ≡ true) where
  -- a key that was not there
  add-new :
      (index : ℕ)
      → get_index table key (hash key) ≡ ok (false, index)
      → (table' : HashTable) × (add alloc table key value ≡ ok (success, table'))
        × IsPut table key value table'
  unfolding add over_load
  add-new index run =
      let free = get_index-false table key (hash key) index run in
      let (_, known) = get_index-holds valid key in
      let absent : holds key table.nodes ≡ false = ground arith in
      let room : suc table.used_nodes < table.number_nodes = ground (arith, valid.wide) in
      let load : 2 ^ 25 * suc table.used_nodes ≤ 21810381 * table.number_nodes + 2 ^ 25 =
        ground arith in
      let below = get_elem?-lt table.nodes index free in
      (
        filled table index (new_node key value) (suc table.used_nodes),
        rw (
          run,
          insert-fill alloc table (new_node key value) index light allocated
              (omega (arith, valid.slots.fits)),
        ),
        written-IsPut valid key value index (suc table.used_nodes) none free
            (λ x e. absurd (ground arith)) (rw absent (omega arith))
            (record {
              slots = fill-IsValid valid.slots (new_node key value) index run room;
              hashed =
                  written-hashed valid key value index (suc table.used_nodes)
                    (omega (arith, valid.slots.width));
              load = load;
              wide = valid.wide;
            }),
      )

  -- a key that was there
  add-again :
      (index : ℕ)
      → get_index table key (hash key) ≡ ok (true, index)
      → (table' : HashTable) × (add alloc table key value ≡ ok (success, table'))
        × IsPut table key value table'
  add-again index run =
      let (x, e, at) = get_index-true table key (hash key) index run in
      let (_, known) = get_index-holds valid key in
      let present : holds key table.nodes ≡ true = ground arith in
      let (same_key, same_hash) = is_at→eq key (hash key) x at in
      let counted = occupied-free table.nodes index x e in
      let some_used : 0 < table.used_nodes = omega (arith, valid.slots.counted) in
      let down : (table.used_nodes + 2 ^ 64 - 1) % 2 ^ 64 ≡ table.used_nodes - 1 =
        omega (arith, valid.slots.roomy, valid.slots.fits) in
      let up : suc (table.used_nodes - 1) ≡ table.used_nodes = omega arith in
      let lighter : over_load (table.used_nodes - 1) table.number_nodes ≡ false =
        unfold over_load in ground arith in
      let below = get_elem?-lt table.nodes index e in
      let cleared : HashTable = record table {
        nodes = set table.nodes index none;
        used_nodes = table.used_nodes - 1;
      } in
      let done =
        rw (set-set table.nodes index none (some (new_node key value)), up) at
          (insert-fill alloc cleared (new_node key value) index lighter allocated
            (omega (arith, valid.slots.roomy, valid.slots.fits))) in
      (
        filled table index (new_node key value) table.used_nodes,
        unfold add free_index in rw (run, down, done),
        written-IsPut valid key value index table.used_nodes (some x) e (λ y ey. ground arith)
            (rw present (omega arith))
            (record {
              slots =
                  replace-IsValid x (new_node key value) (sym same_key) (sym same_hash) valid.slots
                    index e;
              hashed =
                  written-hashed valid key value index table.used_nodes
                    (omega (arith, valid.slots.width));
              load = valid.load;
              wide = valid.wide;
            }),
      )

  -- On a well-formed table whose load is not over 0.65, with memory for the node, `hash_table_add`
  -- returns OK and leaves a well-formed table of the same size in which the key has just the new
  -- value and every other key the values that it had; the count grows by one exactly if the key is
  -- new.
  pub add-IsPut :
      (table' : HashTable) × (add alloc table key value ≡ ok (success, table'))
      × IsPut table key value table'
  add-IsPut = go (
      get_index_total table key (hash key) valid.slots.width
        (omega (arith, valid.slots.roomy, valid.slots.counted, valid.slots.width)))
    where
      go :
          (r : Bool × ℕ) × (get_index table key (hash key) ≡ ok r)
          → (table' : HashTable) × (add alloc table key value ≡ ok (success, table'))
            × IsPut table key value table'
      go ((true, index), run) = add-again index run
      go ((false, index), run) = add-new index run
