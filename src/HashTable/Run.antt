-- ===== src/HashTable/Run.antt =====
-- Whole runs: a fresh table takes as many pairs as its load allows.
use mathlib.Core.Path.{subst}
use fapolicyd_analyzer.Base.{
  ℕ, zero, suc, ◌+◌, ◌*◌, ◌^◌, ◌≤◌, ◌<◌, ◌≡◌, refl, ap, ◌∙◌, true, false, none, some, List, [], ◌∷◌,
  CString, str_eq, str_eq→eq, str_eq_refl, length, replicate, Bool-cases, inl, inr, Outcome, ok,
  arith, if◌then◌else◌, ◌>>=◌,
}
use fapolicyd_analyzer.Probe
use fapolicyd_analyzer.Probe.{Slots, Alloc, over_load}
use fapolicyd_analyzer.Probe.Fresh.{vacant, no_node, vacant-IsValid, clear-vacant}
use fapolicyd_analyzer.HashTable.{
  node_entry, HashTable, add, contains, clear, count, values_of, holds, initialize,
}
use fapolicyd_analyzer.HashTable.Valid.{IsValid, contains-values_of}
use fapolicyd_analyzer.HashTable.Add.{add-IsPut}

values_of-replicate : (key : CString) (n : ℕ) → values_of key (replicate n none) ≡ []
unfolding values_of
values_of-replicate key zero = refl
values_of-replicate key (suc n) = values_of-replicate key n

pub vacant_table-IsValid : (n : ℕ) → 3 ≤ n → n < 2 ^ 64 → IsValid (vacant n)
vacant_table-IsValid n wide fits = record {
  slots = vacant-IsValid n (omega arith) fits;
  hashed = λ i node e. absurd (no_node n i node e);
  load = omega arith;
  wide = wide;
}

-- `hash_table_clear` on a well-formed table leaves a well-formed table of the same size, in which
-- no key has a value and whose count is 0.
pub clear-IsEmpty :
    {table : HashTable}
    → IsValid table
    → IsValid (clear table)
      × ((key : CString) → values_of key (clear table).nodes ≡ [])
      × (count (clear table) ≡ 0)
      × ((clear table).number_nodes ≡ table.number_nodes)
unfolding clear count
clear-IsEmpty {table} valid = rw (clear-vacant table valid.slots.width) (
  vacant_table-IsValid table.number_nodes valid.wide valid.slots.fits,
  λ key. values_of-replicate key table.number_nodes,
  refl,
  refl,
)

-- The pairs are added one after the other.
unfoldable pub add_all : Alloc → HashTable → List (CString × ℕ) → Outcome HashTable
add_all alloc table [] = ok table
add_all alloc table ((key, value) ∷ pairs) = do
  (code, table') ← add alloc table key value
  add_all alloc table' pairs

-- Specification: the values of `key` after the pairs, where it had `old` before them.
unfoldable pub last_value : CString → List ℕ → List (CString × ℕ) → List ℕ
last_value k old [] = old
last_value k old ((key, value) ∷ pairs) =
    last_value k (if str_eq k key then value ∷ [] else old) pairs

light_enough : (used n : ℕ) → 2 ^ 25 * used ≤ 21810381 * n → over_load used n ≡ false
unfolding over_load
light_enough used n h = ground arith

add_all-values_of :
    (alloc : Alloc)
    → alloc.node ≡ true
    → (pairs : List (CString × ℕ)) (table : HashTable) → IsValid table
    → 2 ^ 25 * (table.used_nodes + length pairs) ≤ 21810381 * table.number_nodes + 2 ^ 25
    → (table' : HashTable) × (add_all alloc table pairs ≡ ok table')
      × IsValid table'
      × ((k : CString) → values_of k table'.nodes ≡ last_value k (values_of k table.nodes) pairs)
unfolding add_all last_value
add_all-values_of alloc allocated [] table valid room = (table, refl, valid, λ k. refl)
add_all-values_of alloc allocated ((key, value) ∷ pairs) table valid room =
    let light = light_enough table.used_nodes table.number_nodes (omega arith) in
    let (table', run, put) = add-IsPut valid key value alloc light allocated in
    let (table'', run', valid', values) =
      add_all-values_of alloc allocated pairs table' put.valid
        (ground (arith, put.counted, put.size)) in
    let step : (k : CString)
        → values_of k table'.nodes
          ≡ (if str_eq k key then value ∷ [] else values_of k table.nodes) =
      λ k. elim (Bool-cases (str_eq k key)) [
        | inl same ↦ ground (arith, put.here, str_eq→eq k key same)
        | inr other ↦ rw other (put.others k (λ e. absurd (ground (arith, str_eq_refl key))))
      ] in
    (
      table'',
      rw run run',
      valid',
      λ k. values k ∙ ap (λ (old : List ℕ). last_value k old pairs) (step k),
    )

-- A table that `hash_table_initialize` returned for at least three nodes takes any list of pairs
-- whose length is at most one over 0.65 of its nodes (as the float comparison decides), when the
-- memory for the nodes suffices; afterwards every key has the value of its last pair and no other
-- value, and `hash_table_contains` returns exactly whether a key has a value.
pub values_of-add_all :
    (n : ℕ) (alloc : Alloc) (pairs : List (CString × ℕ)) (fresh : HashTable)
    → initialize true n ≡ some fresh
    → 3 ≤ n
    → n < 2 ^ 64
    → alloc.node ≡ true
    → 2 ^ 25 * length pairs ≤ 21810381 * n + 2 ^ 25
    → (table : HashTable) × (add_all alloc fresh pairs ≡ ok table)
      × ((k : CString) → values_of k table.nodes ≡ last_value k [] pairs)
      × ((k : CString) → contains table k ≡ ok (holds k table.nodes))
unfolding initialize Probe.initialize
values_of-add_all n alloc pairs fresh made wide fits allocated few =
    let same : vacant n ≡ fresh = ground arith in
    let (table, run, valid, values) =
      add_all-values_of alloc allocated pairs (vacant n) (vacant_table-IsValid n wide fits)
        (omega arith) in
    (
      table,
      subst (λ t. add_all alloc t pairs ≡ ok table) same run,
      λ k. values k ∙ ap (λ (old : List ℕ). last_value k old pairs) (values_of-replicate k n),
      λ k. contains-values_of valid k,
    )
