-- ===== src/Bindings/Packing.antt =====
-- fapolicyanalyzer_wrap.c: bytes and pointers written as hexadecimal text, and read back.
pub mod Reading
use fapolicyd_analyzer.Base.{
  ℕ, zero, suc, ◌+◌, ◌-◌, ◌*◌, ◌/◌, ◌%◌, Bool, ltb, not, ◌==◌, ◌&&◌, if◌then◌else◌, Option, none,
  some, List, [], ◌∷◌, ◌++◌, CString, codes, length, replicate, get_elem?, ◌≡◌, true, ◌<◌,
}

-- The digits of `SWIG_PackData`.
abbrev pub hex : List ℕ
hex = codes "0123456789abcdef"

-- `hex[i]`, for an `i` of four bits
abbrev pub hex_digit : ℕ → ℕ
hex_digit i = elim (get_elem? hex i) [ none ↦ 0 | some c ↦ c ]

-- `SWIG_PackData`: the text that is written
unfoldable pub pack_data : List ℕ → CString
pack_data [] = []
pack_data (u ∷ us) = hex_digit (u / 16) ∷ hex_digit (u % 16) ∷ pack_data us

-- the value of a digit, as `SWIG_UnpackData` tests it
abbrev pub nibble : ℕ → Option ℕ
nibble d =
    if not (ltb d b'0') && not (ltb b'9' d)
    then some (d - b'0')
    else if not (ltb d b'a') && not (ltb b'f' d)
    then some (d - (b'a' - 10))
    else none

-- `SWIG_UnpackData`: this many bytes and the text behind them; the terminator is no digit
unfoldable pub unpack_data : (size : ℕ) → CString → Option (List ℕ × CString)
unpack_data zero text = some ([], text)
unpack_data (suc size) [] = none
unpack_data (suc size) (d ∷ []) = none
unpack_data (suc size) (d ∷ d' ∷ text) =
    let rest = unpack_data size text in
    elim (nibble d) [
      | none ↦ none
      | some high ↦ elim (nibble d') [
        | none ↦ none
        | some low ↦ elim rest [
          | none ↦ none
          | some (us, behind) ↦ some ((high * 16 + low) ∷ us, behind)
        ]
      ]
    ]

-- `SWIG_PackVoidPtr`: the text left in a buffer of this size
unfoldable pub pack_void_ptr : (pointer : List ℕ) → (name : CString) → (size : ℕ) → Option CString
pack_void_ptr pointer name size =
    if ltb size (2 * 8 + 2)
    then none
    else if ltb (size - (1 + length (pack_data pointer))) (length name + 1)
    then none
    else some (b'_' ∷ pack_data pointer ++ name)

-- `SWIG_PackDataName`; no name is the empty one
unfoldable pub pack_data_name : (bytes : List ℕ) → (name : CString) → (size : ℕ) → Option CString
pack_data_name bytes name size =
    if ltb size (2 * length bytes + 2 + length name)
    then none
    else some (b'_' ∷ pack_data bytes ++ name)

-- `strcmp(c, "NULL") == 0`
unfoldable pub is_null_text : CString → Bool
is_null_text text = elim text [
  | c₁ ∷ c₂ ∷ c₃ ∷ c₄ ∷ [] ↦ (c₁ == b'N') && (c₂ == b'U') && (c₃ == b'L') && (c₄ == b'L')
  | _ ↦ Bool.false
]

-- `SWIG_UnpackDataName`: the bytes, and the text that should name their type
unfoldable pub unpack_data_name : CString → (size : ℕ) → CString → Option (List ℕ × CString)
unpack_data_name [] size name = none
unpack_data_name (c ∷ text) size name =
    let bytes = unpack_data size text in
    if c == b'_'
    then bytes
    else if is_null_text (c ∷ text)
    then some (replicate size 0, name)
    else none

-- `SWIG_UnpackVoidPtr`, of a pointer of eight bytes
unfoldable pub unpack_void_ptr : CString → CString → Option (List ℕ × CString)
unpack_void_ptr text name = unpack_data_name text 8 name

-- every one is a byte
abbrev pub AllBytes : List ℕ → Type 0
AllBytes [] = Unit
AllBytes (u ∷ us) = (u < 256) × AllBytes us
