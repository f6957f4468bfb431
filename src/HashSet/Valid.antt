-- ===== src/HashSet/Valid.antt =====
-- The invariant of a hash set, and membership under it.
use fapolicyd_analyzer.Base.{
  ℕ, suc, ◌+◌, ◌*◌, ◌^◌, ◌≤◌, ◌≡◌, refl, Option, none, some, List, [], ◌∷◌, CString, str_eq→eq,
  get_elem?, ok, arith,
}
use fapolicyd_analyzer.Fnv.{hash}
use fapolicyd_analyzer.Probe.{is_at}
use fapolicyd_analyzer.Probe.Content.{has}
use fapolicyd_analyzer.Probe.Valid
use fapolicyd_analyzer.HashSet.{Node, node_entry, HashSet, contains, holds}

-- A table is well formed, stores the hash of each key, and is at most one node over its load.
pub record IsValid (set : HashSet) : Type 0 where
  pub table : Valid.IsValid set
  pub hashed :
      (i : ℕ) (node : Node) → get_elem? set.nodes i ≡ some (some node) → node.hash ≡ hash node.key
  pub load : 2 ^ 25 * set.used_nodes ≤ 21810381 * set.number_nodes + 2 ^ 25
  pub wide : 3 ≤ set.number_nodes

abbrev Hashed : List (Option Node) → Type 0
Hashed nodes =
    (i : ℕ) (node : Node) → get_elem? nodes i ≡ some (some node) → node.hash ≡ hash node.key

pub has-holds :
    (key : CString) (nodes : List (Option Node))
    → ((i : ℕ) (node : Node) → get_elem? nodes i ≡ some (some node) → node.hash ≡ hash node.key)
    → has key (hash key) nodes ≡ holds key nodes
unfolding has holds is_at
has-holds key [] hashed = refl
has-holds key (none ∷ nodes) hashed = has-holds key nodes (λ i. hashed (suc i))
has-holds key (some node ∷ nodes) hashed =
    let ih = has-holds key nodes (λ i. hashed (suc i)) in
    let here = hashed 0 node refl in ground (arith, str_eq→eq key node.key)

-- On a well-formed set `hash_set_contains` returns, and says exactly whether some slot of the array
-- holds the key.
pub contains-holds :
    {set : HashSet} → IsValid set → (key : CString) → contains set key ≡ ok (holds key set.nodes)
unfolding contains
contains-holds {set} valid key =
    rw (Valid.contains-has valid.table key (hash key), has-holds key set.nodes valid.hashed)
