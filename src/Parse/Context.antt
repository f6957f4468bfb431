-- ===== src/Parse/Context.antt =====
-- `parse_context_t`, the tests of a line, and the accessors.
use fapolicyd_analyzer.Base.{
  ℕ, Bool, false, ◌&&◌, ◌==◌, if◌then◌else◌, Option, none, some, List, CString, get_elem?, Outcome,
  ErrorCode,
}
use fapolicyd_analyzer.FieldArray
use fapolicyd_analyzer.FieldArray.{FieldArray, Field, get_num_fields, get_field}

-- Key pointers are offsets into the exemplar, value pointers offsets into the line parsed last.
pub record Context : Type 0 where
  pub subject : FieldArray
  pub object : FieldArray
  pub exemplar : Option (List ℕ)

-- which of the two arrays `fields_ptr` points to
pub data Side : Type 0 where
  subject object : Side

abbrev pub fields : Side → Context → FieldArray
fields subject ctx = ctx.subject
fields object ctx = ctx.object

abbrev pub with_fields : Side → Context → FieldArray → Context
with_fields subject ctx fa = record ctx { subject = fa }
with_fields object ctx fa = record ctx { object = fa }

construct_object : Bool → FieldArray → Option Context
construct_object allocated s = elim (FieldArray.construct allocated) [
  | none ↦ none
  | some o ↦ some (record { subject = s; object = o; exemplar = none })
]

construct_subject : Bool → Bool → Option Context
unfolding construct_object
construct_subject subject_allocated object_allocated =
    elim (FieldArray.construct subject_allocated) [
      | none ↦ none
      | some s ↦ construct_object object_allocated s
    ]

-- `construct_parse_context`: whether the three allocations succeed
unfoldable pub construct_parse_context : Bool → Bool → Bool → Option Context
unfolding construct_subject
construct_parse_context allocated subject_allocated object_allocated =
    if allocated then construct_subject subject_allocated object_allocated else none

-- `line[i]` up to the terminator, which the tests below never pass
abbrev byte : CString → ℕ → ℕ
byte line i = elim (get_elem? line i) [ none ↦ 0 | some c ↦ c ]

-- `is_audit_record`
unfoldable pub is_audit_record : CString → Bool
is_audit_record line =
    byte line 0 == b'r'
    && byte line 1 == b'u'
    && byte line 2 == b'l'
    && byte line 3 == b'e'
    && byte line 4 == b'='

-- `is_rule`
unfoldable pub is_rule : CString → Bool
is_rule line =
    if byte line 0 == b'a'
    then byte line 1 == b'l' && byte line 2 == b'l' && byte line 3 == b'o' && byte line 4 == b'w'
    else if byte line 0 == b'd'
    then byte line 1 == b'e' && byte line 2 == b'n' && byte line 3 == b'y'
    else false

-- `get_number_of_subject_fields`
unfoldable pub get_number_of_subject_fields : Context → ℕ
get_number_of_subject_fields ctx = get_num_fields ctx.subject

-- `get_number_of_object_fields`
unfoldable pub get_number_of_object_fields : Context → ℕ
get_number_of_object_fields ctx = get_num_fields ctx.object

-- `get_subject_field`
unfoldable pub get_subject_field : Context → ℕ → Outcome (ErrorCode × Option Field)
get_subject_field ctx field_number = get_field ctx.subject field_number

-- `get_object_field`
unfoldable pub get_object_field : Context → ℕ → Outcome (ErrorCode × Option Field)
get_object_field ctx field_number = get_field ctx.object field_number
