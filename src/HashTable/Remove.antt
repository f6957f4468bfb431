-- ===== src/HashTable/Remove.antt =====
-- `hash_table_remove` on a well-formed table: which values the array holds afterwards.
use fapolicyd_analyzer.Base.{
  ℕ, zero, suc, ◌+◌, ◌≡◌, refl, sym, ◌∙◌, inl, inr, true, false, Option, none, some, List, [], ◌∷◌,
  CString, str_eq, str_eq→eq, get_elem?, get_elem?-set_ne, get_elem?-set_self, get_elem?-lt, set,
  ok, arith, ◌==◌, Bool-cases, if◌then◌else◌,
}
use fapolicyd_analyzer.Fnv.{hash}
use fapolicyd_analyzer.Probe.{get_index}
use fapolicyd_analyzer.Probe.Content.{is_at→eq}
use fapolicyd_analyzer.Probe.Free.{freed, freed-counted, freed-has, remove-absent, remove-present}
use fapolicyd_analyzer.Probe.Valid.{get_index-true}
use fapolicyd_analyzer.HashTable.{Node, node_entry, HashTable, remove, holds, values_of}
use fapolicyd_analyzer.HashTable.Valid.{IsValid, has-holds, get_index-holds}

-- The array after a removal of `key` holds no value of it and the same values of the other keys.
pub record IsTaken (table : HashTable) (key : CString) (table' : HashTable) : Type 0 where
  pub values :
      (k : CString)
      → values_of k table'.nodes ≡ (if str_eq k key then [] else values_of k table.nodes)
  pub counted : table'.used_nodes + (if holds key table.nodes then 1 else 0) ≡ table.used_nodes
  pub size : table'.number_nodes ≡ table.number_nodes

no_value :
    (key : CString) (nodes : List (Option Node))
    → holds key nodes ≡ false
    → values_of key nodes ≡ []
unfolding holds
no_value key nodes h = go (values_of key nodes) refl
  where
    go : (values : List ℕ) → values_of key nodes ≡ values → values_of key nodes ≡ []
    go [] e = e
    go (v ∷ values) e = absurd (ground arith)

-- A slot of another key can be emptied without notice.
values_of-emptied :
    (k : CString) (nodes : List (Option Node)) (i : ℕ) (x : Node)
    → get_elem? nodes i ≡ some (some x)
    → str_eq k x.key ≡ false
    → values_of k (set nodes i none) ≡ values_of k nodes
unfolding values_of
values_of-emptied k [] i x e other = refl
values_of-emptied k (none ∷ nodes) zero x e other = refl
values_of-emptied k (some y ∷ nodes) zero x e other = ground arith
values_of-emptied k (none ∷ nodes) (suc i) x e other = values_of-emptied k nodes i x e other
values_of-emptied k (some y ∷ nodes) (suc i) x e other =
    ground (arith, values_of-emptied k nodes i x e other)

module _ {table : HashTable} (valid : IsValid table) (key : CString) where
  module _ (i : ℕ) (run : get_index table key (hash key) ≡ ok (true, i)) where
    freed-hashed :
        (j : ℕ) (node : Node)
        → get_elem? (freed valid.slots key (hash key) i).nodes j ≡ some (some node)
        → node.hash ≡ hash node.key
    freed-hashed j node e =
        let (x, ex, at) = get_index-true table key (hash key) i run in
        elim (Bool-cases (i == j)) [
          | inl same ↦
              ground (arith, get_elem?-set_self table.nodes i none (get_elem?-lt table.nodes i ex))
          | inr other ↦
              valid.hashed j node (sym (get_elem?-set_ne table.nodes i j none (ground arith)) ∙ e)
        ]

    freed-values :
        (k : CString)
        → values_of k (freed valid.slots key (hash key) i).nodes
          ≡ (if str_eq k key then [] else values_of k table.nodes)
    freed-values k =
        let (x, ex, at) = get_index-true table key (hash key) i run in
        let (p, q) = is_at→eq key (hash key) x at in
        elim (Bool-cases (str_eq k key)) [
          | inl same ↦
              let gone = freed-has valid.slots key (hash key) i run key (hash key) in
              let none_left =
                has-holds key (freed valid.slots key (hash key) i).nodes freed-hashed in
              rw (same, str_eq→eq k key same)
                (no_value key (freed valid.slots key (hash key) i).nodes
                  (sym none_left ∙ gone ∙ rw at refl))
          | inr other ↦ rw other (values_of-emptied k table.nodes i x ex (rw p at other))
        ]

  -- On a well-formed table `hash_table_remove` returns whether some slot holds a node of the key;
  -- afterwards the array holds no value of that key and the same values of every other key, the
  -- size is the same, and the count is one less if the key was there.
  pub remove-IsTaken :
      (table' : HashTable) × (remove table key ≡ ok (holds key table.nodes, table'))
      × IsTaken table key table'
  unfolding remove
  remove-IsTaken =
      let (i, run) = get_index-holds valid key in
      elim (Bool-cases (holds key table.nodes)) [
        | inl present ↦
            let found = rw present at run in
            (
              freed valid.slots key (hash key) i,
              rw present (remove-present valid.slots key (hash key) i found),
              record {
                values = freed-values i found;
                counted =
                    rw present (omega (arith, freed-counted valid.slots key (hash key) i found));
                size = refl;
              },
            )
        | inr absent ↦ (
          table,
          rw absent (
              remove-absent valid.slots key (hash key)
                (rw (has-holds key table.nodes valid.hashed) absent)),
          record {
            values = λ k. ground (arith, str_eq→eq k key, no_value key table.nodes absent);
            counted = rw absent (omega arith);
            size = refl;
          },
        )
      ]
