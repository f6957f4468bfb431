-- ===== src/HashSet.antt =====
-- util/hash_set.c: a set of C strings. The shared part of its functions is in Probe.antt.
pub mod Valid
pub mod Add
pub mod Grow
pub mod Remove
pub mod Run
use fapolicyd_analyzer.Base.{
  ℕ, Bool, true, false, ◌||◌, if◌then◌else◌, Option, none, some, List, [], ◌∷◌, CString, str_eq,
  Outcome, ok, aborted, fault, out_of_fuel, ◌>>=◌, ErrorCode, success,
}
use fapolicyd_analyzer.Fnv.{hash}
use fapolicyd_analyzer.Probe
use fapolicyd_analyzer.Probe.{Entry, Slots, Alloc, get_index, insert}

-- `hash_set_node_t`
pub record Node : Type 0 where
  pub key : CString
  pub hash : ℕ

instance abbrev pub node_entry : Entry Node
node_entry = record { key = λ n. n.key; hash = λ n. n.hash }

-- `hash_set_t`
abbrev pub HashSet : Type 0
HashSet = Slots Node

-- the node that `_assign_node` fills in
abbrev pub new_node : CString → Node
new_node key = record { key = key; hash = hash key }

-- `hash_set_add`, through `_set_add`
unfoldable pub add : Alloc → HashSet → CString → Outcome (ErrorCode × HashSet)
add alloc set key = do
  (found, index) ← get_index set key (hash key)
  if found then ok (success, set) else insert alloc set (new_node key) index

-- `hash_set_contains`
unfoldable pub contains : HashSet → CString → Outcome Bool
contains set key = Probe.contains set key (hash key)

-- `hash_set_remove`
unfoldable pub remove : HashSet → CString → Outcome (Bool × HashSet)
remove set key = Probe.remove set key (hash key)

-- `hash_set_initialize`
unfoldable pub initialize : Bool → ℕ → Option HashSet
initialize allocated num_nodes = Probe.initialize allocated num_nodes

-- `hash_set_clear`
unfoldable pub clear : HashSet → HashSet
clear set = Probe.clear set

-- `hash_set_count`
unfoldable pub count : HashSet → ℕ
count set = set.used_nodes

-- `hash_set_next`
unfoldable pub next : HashSet → ℕ → Outcome (Option CString × ℕ)
next set index = do
  (node, index') ← Probe.next set index
  ok (elim node [ none ↦ none | some n ↦ some n.key ], index')

-- Specification: some slot holds a node with this key.
unfoldable pub holds : CString → List (Option Node) → Bool
holds key [] = false
holds key (none ∷ nodes) = holds key nodes
holds key (some node ∷ nodes) = str_eq key node.key || holds key nodes
