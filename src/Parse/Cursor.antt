-- ===== src/Parse/Cursor.antt =====
-- `char *probe`: a buffer with a position in it, as the bytes before and from the position on. The
-- buffer is all the memory that may be read: the string, its terminator and what lies behind.
use fapolicyd_analyzer.Base.{
  ℕ, zero, suc, ◌≡◌, refl, true, false, Bool-cases, inl, inr, arith, replicate, ◌==◌, List, [], ◌∷◌,
  ◌++◌, CString, length, drop, Outcome, ok, fault, ◌>>=◌,
}
use mathlib.Core.List.{append_assoc, append-nil}

pub record Cursor : Type 0 where
  pub before : List ℕ
  pub after : List ℕ

abbrev pub buffer : Cursor → List ℕ
buffer probe = probe.before ++ probe.after

-- the offset that the pointer stands for
abbrev pub offset : Cursor → ℕ
offset probe = length probe.before

head : List ℕ → Outcome ℕ
head [] = fault
head (c ∷ after) = ok c

-- `*probe`
unfoldable pub read : Cursor → Outcome ℕ
unfolding head
read probe = head probe.after

advance_by : List ℕ → List ℕ → Outcome Cursor
advance_by before [] = fault
advance_by before (c ∷ after) = ok (record { before = before ++ c ∷ []; after = after })

-- `++probe`; a pointer past the end of the buffer may not be formed and read
unfoldable pub advance : Cursor → Outcome Cursor
unfolding advance_by
advance probe = advance_by probe.before probe.after

zero_head : List ℕ → List ℕ
zero_head [] = []
zero_head (c ∷ after) = 0 ∷ after

-- `*probe = '\0'`, where `*probe` was read before
unfoldable pub terminate : Cursor → Cursor
unfolding zero_head
terminate probe = record probe { after = zero_head probe.after }

skip_from : List ℕ → List ℕ → Outcome Cursor
skip_from before [] = fault
skip_from before (c ∷ after) = elim (c == b' ') [
  | true ↦ skip_from (before ++ c ∷ []) after
  | false ↦ ok (record { before = before; after = c ∷ after })
]

-- `while (*probe == ' ') ++probe;`
unfoldable pub skip_spaces : Cursor → Outcome Cursor
unfolding skip_from
skip_spaces probe = skip_from probe.before probe.after

-- Spaces in front of another byte are passed.
pub skip_spaces-replicate :
    (m c : ℕ) (before after : List ℕ)
    → (c == b' ') ≡ false
    → skip_spaces (record { before = before; after = replicate m b' ' ++ c ∷ after })
      ≡ ok (record { before = before ++ replicate m b' '; after = c ∷ after })
unfolding skip_spaces skip_from
skip_spaces-replicate zero c before after e = rw (append-nil before) (ground (arith, e))
skip_spaces-replicate (suc m) c before after e =
    rw (append_assoc before (b' ' ∷ []) (replicate m b' ')) at
      (skip_spaces-replicate m c (before ++ b' ' ∷ []) after e)

-- In front of a terminator the loop ends.
pub skip_spaces-terminated :
    (bytes stale before : List ℕ)
    → (probe : Cursor) × (skip_spaces (record { before = before; after = bytes ++ 0 ∷ stale })
        ≡ ok probe)
unfolding skip_spaces skip_from
skip_spaces-terminated [] stale before = (_, refl)
skip_spaces-terminated (c ∷ bytes) stale before = elim (Bool-cases (c == b' ')) [
  | inl space ↦
      let (probe, run) = skip_spaces-terminated bytes stale (before ++ c ∷ []) in
      (probe, ground (arith, space, run))
  | inr other ↦
      (record { before = before; after = c ∷ (bytes ++ 0 ∷ stale) }, ground (arith, other))
]

unfoldable pub until_nul : List ℕ → Outcome CString
until_nul [] = fault
until_nul (c ∷ bytes) =
    let rest = until_nul bytes in
    elim (c == 0) [ true ↦ ok [] | false ↦ rest >>= (λ s. ok (c ∷ s)) ]

-- the C string at an offset of a buffer
unfoldable pub cstring_at : List ℕ → ℕ → Outcome CString
unfolding until_nul
cstring_at bytes i = until_nul (drop i bytes)
