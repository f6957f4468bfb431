-- ===== src/Parse/Format.antt =====
-- Records as text: the specification that `parse` is read against.
use fapolicyd_analyzer.Base.{
  ℕ, suc, ◌+◌, ◌≡◌, refl, Bool, true, false, not, ◌&&◌, ◌==◌, List, [], ◌∷◌, ◌++◌, CString, length,
  drop, Option, some, set, ok, arith,
}
use fapolicyd_analyzer.Parse.Cursor.{until_nul, cstring_at}

-- a byte that neither ends a string nor separates fields, keys or values
unfoldable pub plain_byte : ℕ → Bool
plain_byte c = not (c == 0) && not (c == b'=') && not (c == b' ')

unfoldable pub plain : CString → Bool
plain [] = true
plain (c ∷ s) = plain_byte c && plain s

pub record Pair : Type 0 where
  pub key : CString
  pub value : CString

-- a key starts, and not with a colon
unfoldable pub starts : CString → Bool
starts [] = false
starts (c ∷ s) = not (c == b':')

pub record IsPair (p : Pair) : Type 0 where
  pub plain_key : plain p.key ≡ true
  pub plain_value : plain p.value ≡ true
  pub starting : starts p.key ≡ true

abbrev pub All : List Pair → Type 0
All [] = Unit
All (p ∷ ps) = IsPair p × All ps

-- `key=value key=value …`
unfoldable pub render : List Pair → CString
render [] = []
render (p ∷ []) = p.key ++ b'=' ∷ p.value
render (p ∷ q ∷ ps) = p.key ++ b'=' ∷ (p.value ++ b' ' ∷ render (q ∷ ps))

-- the same with each separator made a terminator
unfoldable pub torn : List Pair → List ℕ
torn [] = []
torn (p ∷ []) = p.key ++ 0 ∷ p.value
torn (p ∷ q ∷ ps) = p.key ++ 0 ∷ (p.value ++ 0 ∷ torn (q ∷ ps))

-- the pointers to the values of `ps`, rendered from offset `base` on, written from index `i` on
unfoldable pub put_values : (base i : ℕ) → List Pair → List (Option ℕ) → List (Option ℕ)
put_values base i [] values = values
put_values base i (p ∷ ps) values =
    put_values (base + length p.key + 1 + length p.value + 1) (suc i) ps
      (set values i (some (base + length p.key + 1)))

drop-append : (xs ys : List ℕ) → drop (length xs) (xs ++ ys) ≡ ys
drop-append [] ys = refl
drop-append (x ∷ xs) ys = drop-append xs ys

until_nul-append :
    (s : CString) (after : List ℕ) → plain s ≡ true → until_nul (s ++ 0 ∷ after) ≡ ok s
unfolding until_nul plain plain_byte
until_nul-append [] after h = refl
until_nul-append (c ∷ s) after h = ground (arith, until_nul-append s after)

-- A string without a terminator inside reads back from where it stands.
pub cstring_at-append :
    (before s : List ℕ) (after : List ℕ)
    → plain s ≡ true
    → cstring_at (before ++ (s ++ 0 ∷ after)) (length before) ≡ ok s
unfolding cstring_at
cstring_at-append before s after h =
    rw (drop-append before (s ++ 0 ∷ after)) (until_nul-append s after h)
