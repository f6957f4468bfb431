-- ===== src/HashSet/Run.antt =====
-- Whole runs: a fresh set takes as many keys as its load allows.
use fapolicyd_analyzer.Base.{
  ℕ, zero, suc, ◌+◌, ◌*◌, ◌^◌, ◌≤◌, ◌<◌, ◌≡◌, refl, ap, ◌∙◌, ◌⊎◌, Bool, true, false, ◌||◌, none,
  some, List, [], ◌∷◌, CString, str_eq, length, replicate, Outcome, ok, arith, ltb, if◌then◌else◌,
  ◌>>=◌,
}
use mathlib.Core.Path.{subst}
use fapolicyd_analyzer.Probe
use fapolicyd_analyzer.Probe.{Slots, Alloc, get_index, over_load}
use fapolicyd_analyzer.Probe.Fresh.{vacant, no_node, vacant-IsValid, clear-vacant}
use fapolicyd_analyzer.HashSet.{node_entry, HashSet, add, contains, clear, count, holds, initialize}
use fapolicyd_analyzer.HashSet.Valid.{IsValid, contains-holds}
use fapolicyd_analyzer.HashSet.Add.{add-IsAdded}

holds-replicate : (key : CString) (n : ℕ) → holds key (replicate n none) ≡ false
unfolding holds
holds-replicate key zero = refl
holds-replicate key (suc n) = holds-replicate key n

pub vacant_set-IsValid : (n : ℕ) → 3 ≤ n → n < 2 ^ 64 → IsValid (vacant n)
vacant_set-IsValid n wide fits = record {
  table = vacant-IsValid n (omega arith) fits;
  hashed = λ i node e. absurd (no_node n i node e);
  load = omega arith;
  wide = wide;
}

-- `hash_set_clear` on a well-formed set leaves a well-formed set of the same size, in which
-- `hash_set_contains` finds no key and whose count is 0.
pub clear-IsValid :
    {set : HashSet}
    → IsValid set
    → IsValid (clear set)
      × ((key : CString) → contains (clear set) key ≡ ok false)
      × (count (clear set) ≡ 0)
      × ((clear set).number_nodes ≡ set.number_nodes)
unfolding clear count
clear-IsValid {set} valid =
    let cleared = clear-vacant set valid.table.width in
    let fresh = vacant_set-IsValid set.number_nodes valid.wide valid.table.fits in
    rw cleared (
      fresh,
      λ key. contains-holds fresh key ∙ ap ok (holds-replicate key set.number_nodes),
      refl,
      refl,
    )

capacity : ℕ → ℕ
capacity n = if ltb 0 n then n else 1024

-- `hash_set_initialize` for at least three nodes, or with 0 for the default of 1024, gives a well-
-- formed set of that size that holds no key and counts 0; if the memory is refused it gives none.
pub initialize-IsValid :
    (n : ℕ)
    → (n ≡ 0) ⊎ (3 ≤ n)
    → n < 2 ^ 64
    → (initialize false n ≡ none)
      × (set : HashSet) × (initialize true n ≡ some set)
      × IsValid set
      × (set.number_nodes ≡ (if ltb 0 n then n else 1024))
      × (set.used_nodes ≡ 0)
      × ((key : CString) → holds key set.nodes ≡ false)
unfolding initialize Probe.initialize capacity
initialize-IsValid n h fits = (
  refl,
  vacant (capacity n),
  refl,
  vacant_set-IsValid (capacity n) (ground arith) (ground arith),
  refl,
  refl,
  λ key. holds-replicate key (capacity n),
)

fresh-IsValid :
    (n : ℕ) (fresh : HashSet)
    → initialize true n ≡ some fresh
    → (n ≡ 0) ⊎ (3 ≤ n)
    → n < 2 ^ 64
    → IsValid fresh × (fresh.used_nodes ≡ 0) × ((key : CString) → holds key fresh.nodes ≡ false)
fresh-IsValid n fresh h size fits =
    let (refused, s, made, valid, number, used, empty) = initialize-IsValid n size fits in
    let same : s ≡ fresh = ground arith in
    subst (λ r. IsValid r × (r.used_nodes ≡ 0) × ((key : CString) → holds key r.nodes ≡ false)) same
      (valid, used, empty)

-- The keys are added one after the other; the memory suffices.
unfoldable pub add_all : Alloc → HashSet → List CString → Outcome HashSet
add_all alloc set [] = ok set
add_all alloc set (key ∷ keys) = do (code, set') ← add alloc set key; add_all alloc set' keys

unfoldable pub elem : CString → List CString → Bool
elem k [] = false
elem k (key ∷ keys) = str_eq k key || elem k keys

pub light_enough : (used n : ℕ) → 2 ^ 25 * used ≤ 21810381 * n → over_load used n ≡ false
unfolding over_load
light_enough used n h = ground arith

add_all-holds :
    (alloc : Alloc)
    → alloc.node ≡ true
    → (keys : List CString) (set : HashSet) → IsValid set
    → 2 ^ 25 * (set.used_nodes + length keys) ≤ 21810381 * set.number_nodes + 2 ^ 25
    → (set' : HashSet) × (add_all alloc set keys ≡ ok set')
      × IsValid set'
      × ((k : CString) → holds k set'.nodes ≡ (elem k keys || holds k set.nodes))
unfolding add_all elem
add_all-holds alloc allocated [] set valid room = (set, refl, valid, λ k. refl)
add_all-holds alloc allocated (key ∷ keys) set valid room =
    let (set', run, added) =
      add-IsAdded valid key alloc (light_enough set.used_nodes set.number_nodes (omega arith))
        allocated in
    let (set'', run', valid', holds') =
      add_all-holds alloc allocated keys set' added.valid
        (ground (arith, added.counted, added.size)) in
    (set'', rw run run', valid', λ k. ground (arith, holds' k, added.keys k))

-- A set that `hash_set_initialize` returned for 0 or for at least three nodes takes any list of
-- keys, repeated ones counted each time, whose length is at most one over 0.65 of its nodes (as the
-- float comparison decides), without aborting or faulting, when the memory for the nodes suffices;
-- afterwards `hash_set_contains` returns exactly whether a key is in that list.
pub contains-add_all :
    (n : ℕ) (alloc : Alloc) (keys : List CString) (fresh : HashSet)
    → initialize true n ≡ some fresh
    → (n ≡ 0) ⊎ (3 ≤ n)
    → n < 2 ^ 64
    → alloc.node ≡ true
    → 2 ^ 25 * length keys ≤ 21810381 * fresh.number_nodes + 2 ^ 25
    → (set : HashSet) × (add_all alloc fresh keys ≡ ok set)
      × ((k : CString) → contains set k ≡ ok (elem k keys))
contains-add_all n alloc keys fresh h size fits allocated few =
    let (valid, used, empty) = fresh-IsValid n fresh h size fits in
    let (set, run, valid', held) = add_all-holds alloc allocated keys fresh valid (ground arith) in
    (set, run, λ k. contains-holds valid' k ∙ ground (arith, held k, empty k))
