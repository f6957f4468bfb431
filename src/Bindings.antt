-- ===== src/Bindings.antt =====
-- src/bindings/python/fapolicyanalyzer_wrap.c: how a Python call reaches the library: arguments, results,
-- errors, and the memory that the wrapped objects and the copied strings take.
pub mod Runtime
pub mod FieldArrays
pub mod Fields
pub mod Contexts
pub mod Imbuing
pub mod Arguments
pub mod Ownership
pub mod Refusals
pub mod Members
pub mod Packing
use fapolicyd_analyzer.Base.{
  ℕ, Bool, ◌==◌, if◌then◌else◌, Option, none, some, List, [], ◌∷◌, ◌++◌, CString, length, get_elem?,
  set, Outcome, ok, fault, ◌>>=◌, ErrorCode,
}
use fapolicyd_analyzer.FieldArray.{FieldArray, Field}
use fapolicyd_analyzer.Parse.Context.{Context}

-- `SWIGTYPE_p_…`: the types of the pointers that Python objects hold, in the order of `swig_types`
pub data SwigType : Type 0 where
  p_char p_error_code p_callback p_field_array p_field p_p_char p_parse_context : SwigType
  p_row_index p_sha256_ctx p_size_t p_ssize_t p_table_index p_table p_unsigned_char : SwigType

-- the index in `swig_types`
abbrev pub type_index : SwigType → ℕ
type_index p_char = 0
type_index p_error_code = 1
type_index p_callback = 2
type_index p_field_array = 3
type_index p_field = 4
type_index p_p_char = 5
type_index p_parse_context = 6
type_index p_row_index = 7
type_index p_sha256_ctx = 8
type_index p_size_t = 9
type_index p_ssize_t = 10
type_index p_table_index = 11
type_index p_table = 12
type_index p_unsigned_char = 13

-- What CPython gives of an object: the items of a tuple; `PyLong_Check` and `PyLong_AsUnsignedLong`;
-- `PyUnicode_Check` and the encoded text, which may contain nulls; whether it is `None`; and the chain of
-- pointers with their types that `SWIG_Python_GetSwigThis` finds behind it.
pub record Python : Type 1 where
  pub Object : Type 0
  pub tuple : Object → Option (List Object)
  pub is_long : Object → Bool
  pub as_unsigned_long : Object → Option ℕ
  pub is_unicode : Object → Bool
  pub as_utf8 : Object → Option (List ℕ)
  pub is_none : Object → Bool
  pub swig_this : Object → List (SwigType × ℕ)

-- The codes of a conversion that fails.
pub data SwigCode : Type 0 where
  swig_error type_error overflow_error : SwigCode

-- The exception that a call leaves behind: an argument count, arguments that are no tuple, an
-- argument that cannot be converted, or none at all.
pub data SwigError : Type 0 where
  wrong_count not_a_tuple unset : SwigError
  argument : ℕ → SwigCode → SwigError

-- The converted arguments, or the exception
pub data Parsed (A : Type 0) : Type 0 where
  raise : SwigError → Parsed A
  given : A → Parsed A

-- The object that a call gives back.
pub data Value : Type 0 where
  py_none : Value
  py_code : ErrorCode → Value
  py_bool : Bool → Value
  py_int : ℕ → Value
  py_text : CString → Value
  py_pointer : SwigType → ℕ → (owned : Bool) → Value

-- What a call gives: an object, or null with an exception
pub data Reply : Type 0 where
  returns : Value → Reply
  raises : SwigError → Reply

-- The memory that Python reaches through pointers; `none` is memory that was freed. An address is a
-- place in the list of its kind. A string has its bytes, nulls among them included, and a terminator
-- behind them.
pub record Heap : Type 0 where
  pub strings : List (Option (List ℕ))
  pub arrays : List (Option FieldArray)
  pub fields : List (Option Field)
  pub contexts : List (Option Context)

-- what a pointer points to; the null pointer and freed memory are faults
unfoldable pub deref : {A : Type 0} → List (Option A) → Option ℕ → Outcome A
deref cells none = fault
deref cells (some p) = elim (get_elem? cells p) [
  | none ↦ fault
  | some cell ↦ elim cell [ none ↦ fault | some a ↦ ok a ]
]

-- what `strlen` and the functions of C see of a string: its bytes up to the first null
unfoldable pub c_string : List ℕ → CString
c_string [] = []
c_string (c ∷ bytes) = let rest = c_string bytes in if c == 0 then [] else c ∷ rest

-- the C string that a pointer points to
unfoldable pub text_of : Heap → Option ℕ → Outcome CString
text_of heap p = do bytes ← deref heap.strings p; ok (c_string bytes)

-- writing through a pointer that `deref` follows
unfoldable pub assign : {A : Type 0} → List (Option A) → Option ℕ → A → List (Option A)
assign cells none a = cells
assign cells (some p) a = set cells p (some a)

-- `free`; the null pointer is left alone
unfoldable pub release : {A : Type 0} → List (Option A) → Option ℕ → Outcome (List (Option A))
release cells none = ok cells
release cells (some p) = do a ← deref cells (some p); ok (set cells p none)

-- A call with its converted arguments; an exception leaves the memory as it is.
unfoldable pub with_arguments :
    {A : Type 0} → Parsed A → Heap → (A → Outcome (Reply × Heap)) → Outcome (Reply × Heap)
with_arguments (raise e) heap body = ok (raises e, heap)
with_arguments (given arguments) heap body = body arguments
