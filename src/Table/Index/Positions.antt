-- ===== src/Table/Index/Positions.antt =====
-- Where the values of a column stand, and how many are different.
use mathlib.Core.List.{append_assoc, append-nil}
use fapolicyd_analyzer.Base.{
  ℕ, suc, ◌+◌, ◌≤◌, ◌≡◌, ◌≢◌, refl, ap, if◌then◌else◌, Option, none, some, List, [], ◌∷◌, ◌++◌,
  CString, str_eq, length, arith,
}

-- Specification: the positions of a value in a list, counted from `i`.
unfoldable pub positions : CString → ℕ → List CString → List ℕ
positions key i [] = []
positions key i (value ∷ values) =
    let rest = positions key (i + 1) values in if str_eq key value then i ∷ rest else rest

-- Specification: the number of different values, each counted where it stands first, behind `done`.
abbrev pub one_if_none : List ℕ → ℕ
one_if_none [] = 1
one_if_none (i ∷ rows) = 0

unfoldable pub new_values : (done values : List CString) → ℕ
new_values done [] = 0
new_values done (value ∷ values) =
    one_if_none (positions value 0 done) + new_values (done ++ value ∷ []) values

pub new_values-append :
    (done values : List CString) (value : CString)
    → new_values done (values ++ value ∷ [])
      ≡ new_values done values + one_if_none (positions value 0 (done ++ values))
unfolding new_values
new_values-append done [] value =
    let same : positions value 0 (done ++ []) ≡ positions value 0 done =
      ap (positions value 0) (append-nil done) in
    omega (arith, ap one_if_none same)
new_values-append done (x ∷ values) value =
    let same : positions value 0 ((done ++ x ∷ []) ++ values)
        ≡ positions value 0 (done ++ x ∷ values) =
      ap (positions value 0) (append_assoc done (x ∷ []) values) in
    omega (arith, ap one_if_none same, new_values-append (done ++ x ∷ []) values value)

pub one_if_none-some : (xs : List ℕ) → xs ≢ [] → one_if_none xs ≡ 0
one_if_none-some [] ne = absurd (ne refl)
one_if_none-some (x ∷ xs) ne = refl

-- null for no rows at all
abbrev pub rows_or_null : List ℕ → Option (List ℕ)
rows_or_null [] = none
rows_or_null (i ∷ rows) = some (i ∷ rows)

pub rows_or_null-some : (xs : List ℕ) → xs ≢ [] → some xs ≡ rows_or_null xs
rows_or_null-some [] ne = absurd (ne refl)
rows_or_null-some (x ∷ xs) ne = refl

pub positions-append :
    (key : CString) (i : ℕ) (done : List CString) (value : CString)
    → positions key i (done ++ value ∷ [])
      ≡ positions key i done ++ (if str_eq key value then (i + length done) ∷ [] else [])
unfolding positions
positions-append key i [] value = let e : i + 0 ≡ i = omega arith in ground arith
positions-append key i (x ∷ done) value =
    let e : i + 1 + length done ≡ i + suc (length done) = omega arith in
    ground (arith, positions-append key (i + 1) done value)

pub length-positions :
    (key : CString) (i : ℕ) (values : List CString)
    → length (positions key i values) ≤ length values
unfolding positions
length-positions key i [] = omega arith
length-positions key i (x ∷ values) = ground (arith, length-positions key (i + 1) values)
