-- ===== src/Examples/Wrapped.antt =====
-- Calls from Python. Objects are numbers: 1 is a wrapped array, 2 the number 0, 3 the text "ru\0le", 4 a
-- wrapped field; from 10 on they are tuples.
use fapolicyd_analyzer.Base.{
  ℕ, ◌<◌, ◌≡◌, refl, arith, ◌==◌, if◌then◌else◌, Option, none, some, List, [], ◌∷◌, ◌++◌, CString,
  codes, length, ok, fault, true,
}
use fapolicyd_analyzer.FieldArray.{FieldArray, null, block}
use fapolicyd_analyzer.Bindings.{
  p_field, p_field_array, Python, py_none, py_text, returns, Heap, c_string,
}
use fapolicyd_analyzer.Bindings.Runtime.{convert_loop}
use fapolicyd_analyzer.Bindings.Arguments.{IsPointer, IsNumber, IsText}
use fapolicyd_analyzer.Bindings.FieldArrays.{wrap_set_key, wrap_get_key}
use fapolicyd_analyzer.Bindings.Fields.{wrap_key_set, wrap_key_get}
use fapolicyd_analyzer.Bindings.Ownership.{wrap_set_key-wrap_get_key}
use fapolicyd_analyzer.Bindings.Members.{wrap_key_set-wrap_key_get}
use fapolicyd_analyzer.Bindings.Packing.{AllBytes, pack_void_ptr, unpack_void_ptr}
use fapolicyd_analyzer.Bindings.Packing.Reading.{pack_void_ptr-Fits}

abbrev items_of : ℕ → Option (List ℕ)
items_of n =
    if n == 10
    then some (1 ∷ 2 ∷ 3 ∷ [])
    else if n == 11
    then some (1 ∷ 2 ∷ [])
    else if n == 12
    then some (4 ∷ 3 ∷ [])
    else none

abbrev objects : Python
objects = record {
  Object = ℕ;
  tuple = items_of;
  is_long = λ n. n == 2;
  as_unsigned_long = λ n. some 0;
  is_unicode = λ n. n == 3;
  as_utf8 = λ n. some (codes "ru" ++ 0 ∷ codes "le");
  is_none = λ n. n == 0;
  swig_this =
      λ n. if n == 1 then (p_field_array, 0) ∷ [] else if n == 4 then (p_field, 0) ∷ [] else [];
}

abbrev one_field : FieldArray
one_field = record { num_fields = 1; keys = block (none ∷ none ∷ []); values = null }

abbrev heap : Heap
heap = record {
  strings = [];
  arrays = some one_field ∷ [];
  fields = some (record { key = none; value = none }) ∷ [];
  contexts = [];
}

array-IsPointer : IsPointer objects p_field_array 1 0
unfolding convert_loop
array-IsPointer = record { not_none = refl; this = refl }

field-IsPointer : IsPointer objects p_field 4 0
unfolding convert_loop
field-IsPointer = record { not_none = refl; this = refl }

zero-IsNumber : IsNumber objects 2 0
zero-IsNumber = record { long = refl; value = refl }

rule-IsText : IsText objects 3 (codes "ru" ++ 0 ∷ codes "le")
rule-IsText = record { unicode = refl; utf8 = refl }

wrap_set_key-wrap_get_key_example :
    (heap' : Heap) × (wrap_set_key objects true (some 10) heap ≡ ok (returns py_none, heap'))
    × (wrap_get_key objects (some 11) heap' ≡ fault)
wrap_set_key-wrap_get_key_example =
    wrap_set_key-wrap_get_key objects 10 1 2 3 11 heap refl refl array-IsPointer zero-IsNumber
      rule-IsText refl refl (omega arith)

wrap_key_set-wrap_key_get_example :
    (heap' : Heap) × (wrap_key_set objects true true (some 12) heap ≡ ok (returns py_none, heap'))
    × (wrap_key_get objects (some 4) heap' ≡ ok (returns (py_text (codes "ru")), heap'))
unfolding c_string
wrap_key_set-wrap_key_get_example =
    wrap_key_set-wrap_key_get objects 12 4 3 heap refl field-IsPointer rule-IsText refl
      (omega arith)

abbrev eight_bytes : List ℕ
eight_bytes = 16 ∷ 32 ∷ 255 ∷ 0 ∷ 1 ∷ 2 ∷ 171 ∷ 9 ∷ []

eight_bytes-AllBytes : AllBytes eight_bytes
eight_bytes-AllBytes = (
  omega arith,
  (
    omega arith,
    (omega arith, (omega arith, (omega arith, (omega arith, (omega arith, (omega arith, tt)))))),
  ),
)

pack_void_ptr-Fits_example :
    (text : CString) × (pack_void_ptr eight_bytes (codes "_p_char") 1024 ≡ some text)
    × (length text < 1024)
    × (unpack_void_ptr text (codes "_p_char") ≡ some (eight_bytes, codes "_p_char"))
pack_void_ptr-Fits_example =
    pack_void_ptr-Fits eight_bytes (codes "_p_char") 1024 refl eight_bytes-AllBytes (omega arith)

abbrev packed_byte : CString
packed_byte = codes "_ff_p_char"
