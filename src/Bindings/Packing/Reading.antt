-- ===== src/Bindings/Packing/Reading.antt =====
-- Packed bytes and pointers are read back, and they fit in their buffers.
use fapolicyd_analyzer.Base.{
  ℕ, zero, suc, ◌+◌, ◌*◌, ◌/◌, ◌%◌, ◌≤◌, ◌<◌, ◌≡◌, refl, sym, ap, ◌∙◌, none, some, List, [], ◌∷◌,
  ◌++◌, CString, length, length-append, get_elem?, arith,
}
use fapolicyd_analyzer.Bindings.Packing.{
  hex, hex_digit, nibble, pack_data, unpack_data, pack_void_ptr, unpack_void_ptr, pack_data_name,
  unpack_data_name, AllBytes,
}

-- These digits stand for successive values.
abbrev InOrder : List ℕ → ℕ → Type 0
InOrder [] k = Unit
InOrder (c ∷ cs) k = (nibble c ≡ some k) × InOrder cs (suc k)

abbrev digit_at : List ℕ → ℕ → ℕ
digit_at cs i = elim (get_elem? cs i) [ none ↦ 0 | some c ↦ c ]

nibble-digit_at :
    (cs : List ℕ) (k i : ℕ) → InOrder cs k → i < length cs → nibble (digit_at cs i) ≡ some (k + i)
nibble-digit_at [] k i ordered h = absurd (omega arith)
nibble-digit_at (c ∷ cs) k zero (same, ordered) h = same ∙ ap some (omega arith)
nibble-digit_at (c ∷ cs) k (suc i) (same, ordered) h =
    nibble-digit_at cs (suc k) i ordered (omega arith) ∙ ap some (omega arith)

hex-InOrder : InOrder hex 0
hex-InOrder = (
  refl,
  (
    refl,
    (
      refl,
      (
        refl,
        (
          refl,
          (
            refl,
            (refl, (refl, (refl, (refl, (refl, (refl, (refl, (refl, (refl, (refl, tt)))))))))),
          ),
        ),
      ),
    ),
  ),
)

nibble-hex_digit : (i : ℕ) → i < 16 → nibble (hex_digit i) ≡ some i
nibble-hex_digit i h =
    let same : 0 + i ≡ i = omega arith in nibble-digit_at hex 0 i hex-InOrder h ∙ ap some same

-- two digits are one byte
unpack_data-digits :
    (d d' size : ℕ) (text : CString) {high low : ℕ} {behind : CString} {us : List ℕ}
    → nibble d ≡ some high
    → nibble d' ≡ some low
    → unpack_data size text ≡ some (us, behind)
    → unpack_data (suc size) (d ∷ d' ∷ text) ≡ some ((high * 16 + low) ∷ us, behind)
unfolding unpack_data
unpack_data-digits d d' size text e e' rest = rw (e, e', rest, unpack_data) refl

-- `SWIG_UnpackData` reads back what `SWIG_PackData` wrote.
pub unpack_data-pack_data :
    (us : List ℕ) (rest : CString)
    → AllBytes us
    → unpack_data (length us) (pack_data us ++ rest) ≡ some (us, rest)
unfolding pack_data unpack_data
unpack_data-pack_data [] rest all = refl
unpack_data-pack_data (u ∷ us) rest (byte, all) =
    let whole : (u / 16) * 16 + u % 16 ≡ u = omega arith in
    unpack_data-digits (hex_digit (u / 16)) (hex_digit (u % 16)) (length us) (pack_data us ++ rest)
      (nibble-hex_digit (u / 16) (omega arith)) (nibble-hex_digit (u % 16) (omega arith))
      (unpack_data-pack_data us rest all)
    ∙ ap (λ (v : ℕ). some (v ∷ us, rest)) whole

length-pack_data : (us : List ℕ) → length (pack_data us) ≡ 2 * length us
unfolding pack_data
length-pack_data [] = refl
length-pack_data (u ∷ us) = omega (arith, length-pack_data us)

-- Of a pointer of eight bytes and a name with at most 18 bytes less than the buffer has,
-- `SWIG_PackVoidPtr` makes a text that leaves room for its terminator in the buffer, and
-- `SWIG_UnpackVoidPtr` reads from it the pointer, with the name behind.
pub pack_void_ptr-Fits :
    (us : List ℕ) (name : CString) (size : ℕ)
    → length us ≡ 8
    → AllBytes us
    → length name + 18 ≤ size
    → (text : CString) × (pack_void_ptr us name size ≡ some text)
      × (length text < size)
      × (unpack_void_ptr text name ≡ some (us, name))
unfolding pack_void_ptr unpack_void_ptr unpack_data_name
pack_void_ptr-Fits us name size eight all room =
    let measured = length-pack_data us in
    let joined = length-append (pack_data us) name in
    let back : unpack_data 8 (pack_data us ++ name) ≡ some (us, name) =
      ap (λ (n : ℕ). unpack_data n (pack_data us ++ name)) (sym eight)
      ∙ unpack_data-pack_data us name all in
    (b'_' ∷ pack_data us ++ name, ground arith, omega arith, back)

-- When `SWIG_PackDataName` makes a text of some bytes and a name, the text leaves room for its
-- terminator in the buffer.
pub pack_data_name-length :
    (us : List ℕ) (name text : CString) (size : ℕ)
    → pack_data_name us name size ≡ some text
    → length text < size
unfolding pack_data_name
pack_data_name-length us name text size h =
    let measured = length-pack_data us in
    let joined = length-append (pack_data us) name in ground arith
