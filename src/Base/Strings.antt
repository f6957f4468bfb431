-- ===== src/Base/Strings.antt =====
-- C strings: the bytes before the terminator. `strcmp` is used for equality only.
use Prim.Native.Nat.{ℕ, zero, suc, ◌+◌, ◌/◌, ◌%◌}
use Prim.Native.Char.{code}
use Prim.Native.String.{String}
use mathlib.Core.Path.{◌≡◌, refl}
use mathlib.Core.Bool.{Bool, true, false, not, ◌&&◌}
use mathlib.Core.List.{List, [], ◌∷◌}
use native.Mathlib.Omega.{arith}
use fapolicyd_analyzer.Base.Tests.{◌==◌}

abbrev pub CString : Type 0
CString = List ℕ

-- The bytes of an ASCII literal.
abbrev pub codes : String → CString
codes String.[] = []
codes (String.◌∷◌ c s) = code c ∷ codes s

-- `0 == strcmp(s, t)`
unfoldable pub str_eq : CString → CString → Bool
str_eq [] [] = true
str_eq [] (d ∷ t) = false
str_eq (c ∷ s) [] = false
str_eq (c ∷ s) (d ∷ t) = c == d && str_eq s t

pub str_eq_refl : (s : CString) → str_eq s s ≡ true
unfolding str_eq
str_eq_refl [] = refl
str_eq_refl (c ∷ s) = ground (arith, str_eq_refl s)

pub str_eq→eq : (s t : CString) → str_eq s t ≡ true → s ≡ t
unfolding str_eq
str_eq→eq [] [] h = refl
str_eq→eq [] (d ∷ t) h = ground arith
str_eq→eq (c ∷ s) [] h = ground arith
str_eq→eq (c ∷ s) (d ∷ t) h = ground (arith, str_eq→eq s t)

-- no such byte in the text
unfoldable pub lacks : ℕ → CString → Bool
lacks c [] = true
lacks c (d ∷ text) = not (d == c) && lacks c text

-- the digits of `n`, of which there are at most `fuel`
digits : (fuel n : ℕ) → CString → CString
digits zero n rest = rest
digits (suc fuel) n rest =
    let more = digits fuel (n / 10) ((b'0' + n % 10) ∷ rest) in
    elim (n / 10 == 0) [ true ↦ (b'0' + n % 10) ∷ rest | false ↦ more ]

-- `%u` and `%lld` of a number below 2 ^ 64
unfoldable pub decimal : ℕ → CString
unfolding digits
decimal n = digits 20 n []
