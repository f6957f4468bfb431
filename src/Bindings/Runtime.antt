-- ===== src/Bindings/Runtime.antt =====
-- fapolicyanalyzer_wrap.c: `SWIG_Python_UnpackTuple`, and the conversions of arguments and results.
use fapolicyd_analyzer.Base.{
  ℕ, ◌-◌, ◌^◌, Bool, false, ◌&&◌, ◌==◌, ltb, not, if◌then◌else◌, Option, none, some, List, [], ◌∷◌,
  ◌++◌, map, length, replicate, get_elem?, Outcome, ok, fault, ◌>>=◌,
}
use fapolicyd_analyzer.Bindings.{
  SwigType, p_char, type_index, Python, SwigCode, swig_error, type_error, overflow_error,
  wrong_count, not_a_tuple, unset, argument, Parsed, raise, given, Value, py_none, py_int, py_text,
  py_pointer, Heap, text_of, release,
}

-- What a conversion gives: a value or a code
pub data Converted (A : Type 0) : Type 0 where
  failed : SwigCode → Converted A
  converted : A → Converted A

-- `SWIG_ArgError`
unfoldable pub arg_error : SwigCode → SwigCode
arg_error swig_error = type_error
arg_error type_error = type_error
arg_error overflow_error = overflow_error

-- `if (!SWIG_IsOK(res)) SWIG_exception_fail(SWIG_ArgError(res), …)` for this argument
unfoldable pub checked : {A B : Type 0} → ℕ → Converted A → (A → Parsed B) → Parsed B
checked i (failed code) next = raise (argument i (arg_error code))
checked i (converted a) next = next a

-- A string argument: a copy of its own, or a pointer that Python held.
pub data Text : Type 0 where
  fresh : List ℕ → Text
  old : Option ℕ → Text

-- `SWIG_FromCharPtr`: the text by its bytes, which Python decodes, or a wrapped pointer to a text of
-- more than INT_MAX bytes
unfoldable pub from_char_ptr : Option ℕ → Heap → Outcome Value
from_char_ptr none heap = ok py_none
from_char_ptr (some p) heap = do
  text ← text_of heap (some p)
  ok (if ltb (2 ^ 31 - 1) (length text) then py_pointer p_char p false else py_text text)

-- `SWIG_From_size_t`
unfoldable pub from_size_t : ℕ → Value
from_size_t n = py_int n

-- `SWIG_NewPointerObj`: the null pointer is `None`
unfoldable pub new_pointer : SwigType → Option ℕ → Bool → Value
new_pointer type none owned = py_none
new_pointer type (some p) owned = py_pointer type p owned

-- The pointer and the heap after the copy that a string argument takes; the first argument says
-- whether its allocation succeeds, which `memcpy` does not ask.
unfoldable pub take_text : Bool → Text → Heap → Outcome (Option ℕ × Heap)
take_text allocated (fresh text) heap =
    if allocated
    then ok (some (length heap.strings), record heap { strings = heap.strings ++ some text ∷ [] })
    else fault
take_text allocated (old p) heap = ok (p, heap)

-- `if (alloc == SWIG_NEWOBJ) free((char *)buf);`
unfoldable pub free_text : Text → Option ℕ → Heap → Outcome Heap
free_text (fresh text) p heap = do
  strings ← release heap.strings p
  ok (record heap { strings = strings })
free_text (old p') p heap = ok heap

module _ (python : Python) where
  -- `SWIG_Python_UnpackTuple`; a null object is `none`
  unfoldable pub unpack_tuple :
      (least most : ℕ) → Option python.Object → Parsed (List (Option python.Object))
  unpack_tuple least most none = if (least == 0) && (most == 0) then given [] else raise wrong_count
  unpack_tuple least most (some args) = elim (python.tuple args) [
    | none ↦
        if not (ltb 1 least) && not (ltb most 1)
        then given (some args ∷ replicate (most - 1) none)
        else raise not_a_tuple
    | some items ↦
        if ltb (length items) least
        then raise wrong_count
        else if ltb most (length items)
        then raise wrong_count
        else given (map some items ++ replicate (most - length items) none)
  ]

  -- `swig_obj[i]`
  unfoldable pub item : List (Option python.Object) → ℕ → Option python.Object
  item objects i = elim (get_elem? objects i) [ none ↦ none | some object ↦ object ]

  -- The loop over the chain of pointers. Every type of this module casts only to itself.
  unfoldable pub convert_loop : SwigType → List (SwigType × ℕ) → Converted (Option ℕ)
  convert_loop type [] = failed swig_error
  convert_loop type ((found, p) ∷ chain) =
      let onward = convert_loop type chain in
      if type_index found == type_index type then converted (some p) else onward

  -- `SWIG_ConvertPtr` without implicit conversion; `None` is the null pointer
  unfoldable pub convert_ptr : SwigType → Option python.Object → Converted (Option ℕ)
  convert_ptr type none = failed swig_error
  convert_ptr type (some object) =
      if python.is_none object then converted none else convert_loop type (python.swig_this object)

  -- `SWIG_AsVal_unsigned_SS_long`; a null object does not reach it
  unfoldable pub as_unsigned_long : Option python.Object → Converted ℕ
  as_unsigned_long none = failed type_error
  as_unsigned_long (some object) =
      if python.is_long object
      then elim (python.as_unsigned_long object) [
        | none ↦ failed overflow_error
        | some n ↦ converted n
      ]
      else failed type_error

  -- `SWIG_AsVal_size_t`, where `size_t` is an `unsigned long`
  unfoldable pub as_size_t : Option python.Object → Converted ℕ
  as_size_t object = as_unsigned_long object

  -- `SWIG_AsCharPtrAndSize` with `alloc`
  unfoldable pub as_char_ptr : Option python.Object → Converted Text
  as_char_ptr none = failed type_error
  as_char_ptr (some object) =
      if python.is_unicode object
      then elim (python.as_utf8 object) [
        | none ↦ failed type_error
        | some text ↦ converted (fresh text)
      ]
      else elim (convert_ptr p_char (some object)) [
        | failed code ↦ failed type_error
        | converted p ↦ converted (old p)
      ]

  -- The argument lists of the wrappers. A function of one argument gets it without a tuple.
  unfoldable pub no_arguments : Option python.Object → Parsed Unit
  no_arguments args = elim (unpack_tuple 0 0 args) [ raise e ↦ raise e | given objects ↦ given tt ]

  unfoldable pub pointer_argument : SwigType → Option python.Object → Parsed (Option ℕ)
  pointer_argument type none = raise unset
  pointer_argument type (some args) = checked 1 (convert_ptr type (some args)) given

  unfoldable pub text_argument : Option python.Object → Parsed Text
  text_argument none = raise unset
  text_argument (some args) = checked 1 (as_char_ptr (some args)) given

  unfoldable pub pointer_and_index : SwigType → Option python.Object → Parsed (Option ℕ × ℕ)
  pointer_and_index type args = elim (unpack_tuple 2 2 args) [
    | raise e ↦ raise e
    | given objects ↦
        checked 1 (convert_ptr type (item objects 0))
          λ p. checked 2 (as_size_t (item objects 1)) λ i. given (p, i)
  ]

  unfoldable pub pointer_and_text : SwigType → Option python.Object → Parsed (Option ℕ × Text)
  pointer_and_text type args = elim (unpack_tuple 2 2 args) [
    | raise e ↦ raise e
    | given objects ↦
        checked 1 (convert_ptr type (item objects 0))
          λ p. checked 2 (as_char_ptr (item objects 1)) λ text. given (p, text)
  ]

  unfoldable pub two_texts : Option python.Object → Parsed (Text × Text)
  two_texts args = elim (unpack_tuple 2 2 args) [
    | raise e ↦ raise e
    | given objects ↦
        checked 1 (as_char_ptr (item objects 0))
          λ first. checked 2 (as_char_ptr (item objects 1)) λ second. given (first, second)
  ]

  unfoldable pub pointer_index_text : SwigType → Option python.Object → Parsed (Option ℕ × ℕ × Text)
  pointer_index_text type args = elim (unpack_tuple 3 3 args) [
    | raise e ↦ raise e
    | given objects ↦ checked 1 (convert_ptr type (item objects 0)) λ p.
        checked 2 (as_size_t (item objects 1))
          λ i. checked 3 (as_char_ptr (item objects 2)) λ text. given (p, i, text)
  ]

  unfoldable pub pointers_and_index :
      SwigType → SwigType → Option python.Object → Parsed (Option ℕ × Option ℕ × ℕ)
  pointers_and_index type type' args = elim (unpack_tuple 3 3 args) [
    | raise e ↦ raise e
    | given objects ↦ checked 1 (convert_ptr type (item objects 0)) λ p.
        checked 2 (convert_ptr type' (item objects 1))
          λ q. checked 3 (as_size_t (item objects 2)) λ i. given (p, q, i)
  ]
