-- ===== src/Examples/Arrays.antt =====
-- Small lists of util/array_list.c.
use fapolicyd_analyzer.Base.{
  ℕ, zero, suc, ◌≡◌, ◌≤◌, ◌<◌, refl, true, false, some, [], ◌∷◌, get_elem?, ok, fault, success,
  allocation_error, arith,
}
use fapolicyd_analyzer.ArrayList.{ArrayList, double_until, get, push, pop}
use fapolicyd_analyzer.ArrayList.Refines.{Holds, double_until_total, push-append}
use fapolicyd_analyzer.ArrayList.Ends.{pop-append, push-refused}

-- two items, and no room for a third
abbrev two : ArrayList
two = record { size = 2; capacity = 2; values = some (some 5 ∷ some 6 ∷ []) }

two-items :
    (i x : ℕ)
    → get_elem? (5 ∷ 6 ∷ []) i ≡ some x
    → get_elem? (some 5 ∷ some 6 ∷ []) i ≡ some (some x)
two-items zero x e = ground arith
two-items (suc zero) x e = ground arith
two-items (suc (suc i)) x e = absurd (ground arith)

two-Holds : Holds two (5 ∷ 6 ∷ [])
two-Holds = record { count = refl; room = omega arith; width = refl; items = two-items }

push-append_example :
    (l' : ArrayList) × (push true two 7 ≡ ok (success, l')) × Holds l' (5 ∷ 6 ∷ 7 ∷ [])
push-append_example = push-append two-Holds 7 (omega arith)

pop-append_example : (l' : ArrayList) × (pop two ≡ ok (some 6, l')) × Holds l' (5 ∷ [])
pop-append_example = pop-append (5 ∷ []) 6 two-Holds

push-refused_example :
    (l' : ArrayList) × (push false two 7 ≡ ok (allocation_error, l'))
    × (l'.size ≡ 2)
    × ((i : ℕ) → i < 2 → get l' i ≡ fault)
push-refused_example = push-refused two-Holds refl (omega arith) 7

double_until_total_example : (c : ℕ) × (double_until 65 1024 5000 ≡ ok c) × (5000 ≤ c) × (1024 ≤ c)
double_until_total_example =
    double_until_total 64 1024 5000 (omega arith) (omega arith) (omega arith)
