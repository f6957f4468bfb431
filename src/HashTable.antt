-- ===== src/HashTable.antt =====
-- util/hash_table.c: a map from C strings to pointers. The shared part of its functions is in
-- Probe.antt.
pub mod Valid
pub mod Add
pub mod Run
pub mod Remove
pub mod Grow
use fapolicyd_analyzer.Base.{
  ℕ, ◌+◌, ◌-◌, ◌%◌, ◌^◌, Bool, true, false, if◌then◌else◌, Option, none, some, List, [], ◌∷◌,
  CString, str_eq, Outcome, ok, aborted, fault, out_of_fuel, ◌>>=◌, ErrorCode,
}
use fapolicyd_analyzer.Fnv.{hash}
use fapolicyd_analyzer.Probe
use fapolicyd_analyzer.Probe.{Entry, Slots, Alloc, get_index, free_index, insert}

-- `hash_table_node_t`; the value is a pointer
pub record Node : Type 0 where
  pub key : CString
  pub value : ℕ
  pub hash : ℕ

instance abbrev pub node_entry : Entry Node
node_entry = record { key = λ n. n.key; hash = λ n. n.hash }

-- `hash_table_t`
abbrev pub HashTable : Type 0
HashTable = Slots Node

abbrev pub new_node : CString → ℕ → Node
new_node key value = record { key = key; value = value; hash = hash key }

-- `hash_table_add`, through `_table_add`: an existing node of the key is freed first
unfoldable pub add : Alloc → HashTable → CString → ℕ → Outcome (ErrorCode × HashTable)
add alloc table key value = do
  (found, index) ← get_index table key (hash key)
  let cleared : HashTable =
      if found
      then record (free_index table index) { used_nodes = (table.used_nodes + 2 ^ 64 - 1) % 2 ^ 64 }
      else table
  insert alloc cleared (new_node key value) index

-- `hash_table_contains`
unfoldable pub contains : HashTable → CString → Outcome Bool
contains table key = Probe.contains table key (hash key)

-- `hash_table_remove`
unfoldable pub remove : HashTable → CString → Outcome (Bool × HashTable)
remove table key = Probe.remove table key (hash key)

-- `hash_table_initialize`
unfoldable pub initialize : Bool → ℕ → Option HashTable
initialize allocated num_nodes = Probe.initialize allocated num_nodes

-- `hash_table_clear`
unfoldable pub clear : HashTable → HashTable
clear table = Probe.clear table

-- `hash_table_count`
unfoldable pub count : HashTable → ℕ
count table = table.used_nodes

-- `hash_table_next`: the key and the value
unfoldable pub next : HashTable → ℕ → Outcome (Option (CString × ℕ) × ℕ)
next table index = do
  (node, index') ← Probe.next table index
  ok (elim node [ none ↦ none | some n ↦ some (n.key, n.value) ], index')

-- Specification: the values under a key, slot by slot.
unfoldable pub values_of : CString → List (Option Node) → List ℕ
values_of key [] = []
values_of key (none ∷ nodes) = values_of key nodes
values_of key (some node ∷ nodes) =
    let rest = values_of key nodes in if str_eq key node.key then node.value ∷ rest else rest

-- Specification: some slot holds a node with this key.
unfoldable pub holds : CString → List (Option Node) → Bool
holds key nodes = elim (values_of key nodes) [ [] ↦ false | value ∷ rest ↦ true ]
