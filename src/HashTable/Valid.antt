-- ===== src/HashTable/Valid.antt =====
-- The invariant of a hash table, and what it holds under a key.
use fapolicyd_analyzer.Base.{
  ℕ, zero, suc, ◌+◌, ◌*◌, ◌^◌, ◌≤◌, ◌≡◌, ◌≢◌, refl, true, false, Option, none, some, List, [], ◌∷◌,
  CString, str_eq, str_eq→eq, str_eq_refl, get_elem?, set, ok, arith, Bool-cases, inl, inr,
}
use fapolicyd_analyzer.Fnv.{hash}
use fapolicyd_analyzer.Probe.{is_at, get_index}
use fapolicyd_analyzer.Probe.Content.{has}
use fapolicyd_analyzer.Probe.Grow.{IsValid-IsDistinct}
use fapolicyd_analyzer.Probe.Valid
use fapolicyd_analyzer.Probe.Valid.{get_index-has, contains-has}
use fapolicyd_analyzer.HashTable.{Node, node_entry, HashTable, values_of, holds, contains}

pub record IsValid (table : HashTable) : Type 0 where
  pub slots : Valid.IsValid table
  pub hashed :
      (i : ℕ) (node : Node) → get_elem? table.nodes i ≡ some (some node) → node.hash ≡ hash node.key
  pub load : 2 ^ 25 * table.used_nodes ≤ 21810381 * table.number_nodes + 2 ^ 25
  pub wide : 3 ≤ table.number_nodes

module _ (key : CString) where
  pub values_of-nowhere :
      (nodes : List (Option Node))
      → ((i : ℕ) (x : Node) → get_elem? nodes i ≡ some (some x) → str_eq key x.key ≡ false)
      → values_of key nodes ≡ []
  unfolding values_of
  values_of-nowhere [] h = refl
  values_of-nowhere (none ∷ nodes) h = values_of-nowhere nodes (λ i. h (suc i))
  values_of-nowhere (some x ∷ nodes) h = rw (h 0 x refl) (values_of-nowhere nodes (λ i. h (suc i)))

  pub values_of-only :
      (nodes : List (Option Node)) (i : ℕ) (node : Node)
      → get_elem? nodes i ≡ some (some node)
      → str_eq key node.key ≡ true
      → ((j : ℕ) (x : Node) → get_elem? nodes j ≡ some (some x) → j ≢ i → str_eq key x.key ≡ false)
      → values_of key nodes ≡ node.value ∷ []
  unfolding values_of
  values_of-only [] i node e at h = ground arith
  values_of-only (none ∷ nodes) zero node e at h = ground arith
  values_of-only (none ∷ nodes) (suc i) node e at h =
      values_of-only nodes i node e at (λ j x ex ne. h (suc j) x ex (omega arith))
  values_of-only (some x ∷ nodes) zero node e at h =
      ground (arith, values_of-nowhere nodes (λ j y ey. h (suc j) y ey (omega arith)))
  values_of-only (some x ∷ nodes) (suc i) node e at h =
      rw (h 0 x refl (omega arith))
        (values_of-only nodes i node e at (λ j y ey ne. h (suc j) y ey (omega arith)))

  -- A write to a slot that held another key, or none, is not noticed under this one.
  pub values_of-set_other :
      (nodes : List (Option Node)) (i : ℕ) (old : Option Node) (node : Node)
      → get_elem? nodes i ≡ some old
      → ((x : Node) → old ≡ some x → str_eq key x.key ≡ false)
      → str_eq key node.key ≡ false
      → values_of key (set nodes i (some node)) ≡ values_of key nodes
  unfolding values_of
  values_of-set_other [] i old node e h ne = refl
  values_of-set_other (none ∷ nodes) zero old node e h ne = rw ne
  values_of-set_other (some x ∷ nodes) zero old node e h ne = ground (arith, h x)
  values_of-set_other (none ∷ nodes) (suc i) old node e h ne =
      values_of-set_other nodes i old node e h ne
  values_of-set_other (some x ∷ nodes) (suc i) old node e h ne =
      ground (arith, values_of-set_other nodes i old node e h ne)

-- In a well-formed table a key has the one value of the slot where its node stands.
pub values_of-slot :
    {table : HashTable}
    → IsValid table
    → (i : ℕ) (node : Node) → get_elem? table.nodes i ≡ some (some node)
    → values_of node.key table.nodes ≡ node.value ∷ []
values_of-slot {table} valid i node e =
    values_of-only node.key table.nodes i node e (str_eq_refl node.key) (λ j x ex ne.
      elim (Bool-cases (str_eq node.key x.key)) [
        | inr other ↦ other
        | inl same ↦ absurd (
            ne (
              let key_eq = str_eq→eq node.key x.key same in
              let hx = valid.hashed j x ex in
              let hn = valid.hashed i node e in
              IsValid-IsDistinct valid.slots j i x node ex e
                (unfold is_at in ground (arith, str_eq_refl node.key))))
      ])

pub has-holds :
    (key : CString) (nodes : List (Option Node))
    → ((i : ℕ) (node : Node) → get_elem? nodes i ≡ some (some node) → node.hash ≡ hash node.key)
    → has key (hash key) nodes ≡ holds key nodes
unfolding has holds values_of is_at
has-holds key [] hashed = refl
has-holds key (none ∷ nodes) hashed = has-holds key nodes (λ i. hashed (suc i))
has-holds key (some node ∷ nodes) hashed =
    let ih = has-holds key nodes (λ i. hashed (suc i)) in
    let here = hashed 0 node refl in ground (arith, str_eq→eq key node.key)

module _ {table : HashTable} (valid : IsValid table) (key : CString) where
  -- The probe for the key says whether the table holds it.
  pub get_index-holds : (i : ℕ) × (get_index table key (hash key) ≡ ok (holds key table.nodes, i))
  get_index-holds =
      let (i, run) = get_index-has valid.slots key (hash key) in
      (i, rw (has-holds key table.nodes valid.hashed) at run)

  -- On a well-formed table `hash_table_contains` returns, and says exactly whether some slot holds
  -- a node of the key.
  pub contains-values_of : contains table key ≡ ok (holds key table.nodes)
  unfolding contains
  contains-values_of =
      rw (contains-has valid.slots key (hash key), has-holds key table.nodes valid.hashed)
