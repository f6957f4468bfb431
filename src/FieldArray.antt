-- ===== src/FieldArray.antt =====
-- field_array.c: parallel arrays of key and value pointers. The strings that they point to belong to
-- the caller; a pointer is an offset into the buffer of the keys, or of the values.
use fapolicyd_analyzer.Base.{
  ℕ, ◌+◌, ◌-◌, ◌%◌, ◌^◌, Bool, ltb, if◌then◌else◌, Option, none, some, List, get_elem?, set, length,
  replicate, Outcome, ok, fault, ◌>>=◌, ErrorCode, success, allocation_error, range_error,
}

-- `const char **`: null, given back to `free`, or an array
pub data Block : Type 0 where
  null freed : Block
  block : List (Option ℕ) → Block

-- `field_array_t`; `num_fields` is the bit pattern of the `int`
pub record FieldArray : Type 0 where
  pub num_fields : ℕ
  pub keys : Block
  pub values : Block

-- `field_t`
pub record Field : Type 0 where
  pub key : Option ℕ
  pub value : Option ℕ

-- `field_array_construct`; `none` is the null pointer
unfoldable pub construct : Bool → Option FieldArray
construct allocated =
    if allocated then some (record { num_fields = 0; keys = null; values = null }) else none

-- `field_array_initialize`; the first two arguments say whether each `calloc` succeeds. When the
-- second fails, `keys` is left pointing at memory that was freed.
unfoldable pub initialize : Bool → Bool → FieldArray → ℕ → ErrorCode × FieldArray
initialize keys_allocated values_allocated fields num_fields =
    if keys_allocated
    then (if values_allocated
        then (
          success,
          record {
            num_fields = num_fields % 2 ^ 32;
            keys = block (replicate ((num_fields + 1) % 2 ^ 64) none);
            values = block (replicate ((num_fields + 1) % 2 ^ 64) none);
          },
        )
        else (allocation_error, record { num_fields = 0; keys = freed; values = null }))
    else (allocation_error, record fields { num_fields = 0; keys = null })

-- `array[i] = p` and `array[i]`
unfoldable pub store : Block → ℕ → ℕ → Outcome Block
store null i p = fault
store freed i p = fault
store (block pointers) i p =
    if ltb i (length pointers) then ok (block (set pointers i (some p))) else fault

unfoldable pub load : Block → ℕ → Outcome (Option ℕ)
load null i = fault
load freed i = fault
load (block pointers) i = elim (get_elem? pointers i) [ none ↦ fault | some p ↦ ok p ]

-- `field_array_set_key`
unfoldable pub set_key : FieldArray → ℕ → ℕ → Outcome FieldArray
set_key fields i key = do keys ← store fields.keys i key; ok (record fields { keys = keys })

-- `field_array_set_value`
unfoldable pub set_value : FieldArray → ℕ → ℕ → Outcome FieldArray
set_value fields i value = do
  values ← store fields.values i value
  ok (record fields { values = values })

-- `field_array_get_num_fields`: the `int` as a `size_t`
unfoldable pub get_num_fields : FieldArray → ℕ
get_num_fields fields =
    if ltb fields.num_fields (2 ^ 31)
    then fields.num_fields
    else fields.num_fields + (2 ^ 64 - 2 ^ 32)

-- `field_array_get_key`
unfoldable pub get_key : FieldArray → ℕ → Outcome (Option ℕ)
get_key fields i = load fields.keys i

-- `field_array_get_value`
unfoldable pub get_value : FieldArray → ℕ → Outcome (Option ℕ)
get_value fields i = load fields.values i

-- `field_array_get_field`; `none` leaves `*field_ptr` as it was
unfoldable pub get_field : FieldArray → ℕ → Outcome (ErrorCode × Option Field)
get_field fields i =
    if ltb i (get_num_fields fields)
    then (do
      key ← get_key fields i
      value ← get_value fields i
      ok (success, some (record { key = key; value = value })))
    else ok (range_error, none)
