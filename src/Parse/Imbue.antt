-- ===== src/Parse/Imbue.antt =====
-- `imbue_parser`: takes the keys, their order and their number from an exemplar line.
use fapolicyd_analyzer.Base.{
  ℕ, zero, suc, ◌+◌, Bool, true, false, ◌==◌, if◌then◌else◌, some, List, [], ◌∷◌, ◌++◌, CString,
  codes, length, Outcome, ok, out_of_fuel, ◌>>=◌, ErrorCode, success, parse_error, allocation_error,
}
use fapolicyd_analyzer.FieldArray
use fapolicyd_analyzer.FieldArray.{FieldArray, set_key}
use fapolicyd_analyzer.Parse.Context.{
  Context, Side, subject, object, fields, with_fields, is_rule, is_audit_record,
}
use fapolicyd_analyzer.Parse.Cursor.{Cursor, buffer, offset, read, advance, terminate, skip_spaces}

-- Which allocations succeed: the buffer, the two of the subject array for each colon (by its
-- position), and the two of the object array.
pub record ImbueAlloc : Type 0 where
  pub buffer : Bool
  pub subject : ℕ → Bool × Bool
  pub object : Bool × Bool

-- every byte but the last
drop_last : CString → CString
drop_last [] = []
drop_last (c ∷ []) = []
drop_last (c ∷ d ∷ line) = c ∷ drop_last (d ∷ line)

-- `field_array_initialize(...) != OK`
after_initialize : Context → Side → ErrorCode × FieldArray → ErrorCode × Context
after_initialize ctx side (success, fa) = (success, with_fields side ctx fa)
after_initialize ctx side (code, fa) = (allocation_error, with_fields side ctx fa)

unfoldable pub initialize_side : Bool × Bool → Side → Context → ℕ → ErrorCode × Context
unfolding after_initialize
initialize_side (keys, values) side ctx num_fields =
    after_initialize ctx side (FieldArray.initialize keys values (fields side ctx) num_fields)

-- The first loop: `=` counts a field, `:` gives the subject its array and starts again.
unfoldable pub count_fields :
    (ℕ → Bool × Bool) → (i num_fields : ℕ) → Context → CString → ErrorCode × ℕ × Context
count_fields alloc i num_fields ctx [] = (success, num_fields, ctx)
count_fields alloc i num_fields ctx (c ∷ rest) = elim (c == b'=') [
  | true ↦ count_fields alloc (i + 1) (num_fields + 1) ctx rest
  | false ↦ elim (c == b':') [
    | false ↦ count_fields alloc (i + 1) num_fields ctx rest
    | true ↦ elim (num_fields == 0) [
      | true ↦ (parse_error, num_fields, ctx)
      | false ↦
          let next = initialize_side (alloc i) subject ctx num_fields in
          elim next.0 [
            | success ↦ count_fields alloc (i + 1) 0 next.1 rest
            | code ↦ (code, num_fields, next.1)
          ]
    ]
  ]
]

-- The second loop: a key begins behind each run of spaces, a colon there goes over to the object,
-- and every `=` is made a terminator. It ends with the buffer as it left it.
unfoldable pub set_keys :
    (fuel : ℕ) → Side → (num_fields : ℕ) → Cursor → Context → Outcome (Context × List ℕ)
set_keys zero side num_fields probe ctx = out_of_fuel
set_keys (suc fuel) side num_fields probe ctx = do
  c ← read probe
  elim (c == 0) [
    | true ↦ ok (ctx, buffer probe)
    | false ↦ elim (c == b' ') [
      | true ↦ do
        probe' ← skip_spaces probe
        d ← read probe'
        elim (d == b':') [
          | true ↦ do
            behind ← advance probe'
            key ← skip_spaces behind
            fa ← set_key ctx.object 0 (offset key)
            set_keys fuel object 1 key (record ctx { object = fa })
          | false ↦ do
            fa ← set_key (fields side ctx) num_fields (offset probe')
            set_keys fuel side (num_fields + 1) probe' (with_fields side ctx fa)
        ]
      | false ↦ do
        probe' ← advance (if c == b'=' then terminate probe else probe)
        set_keys fuel side num_fields probe' ctx
    ]
  ]

-- From the filled buffer on; `string` is its content up to the terminator.
unfoldable pub imbue_buffer : ImbueAlloc → Context → CString → Outcome (ErrorCode × Context)
imbue_buffer alloc ctx string =
    let (code, num_fields, ctx₁) = count_fields alloc.subject 0 0 ctx string in
    elim code [
      | success ↦
          if num_fields == 0
          then ok (parse_error, ctx₁)
          else let (code', ctx₂) = initialize_side alloc.object object ctx₁ num_fields in
            elim code' [
              | success ↦ do
                fa ← set_key ctx₂.subject 0 0
                let start : Cursor = record { before = []; after = string ++ 0 ∷ [] }
                (ctx₃, exemplar) ←
                    set_keys (length string + 2) subject 1 start (record ctx₂ { subject = fa })
                ok (success, record ctx₃ { exemplar = some exemplar })
              | other_code ↦ ok (other_code, ctx₂)
            ]
      | other_code ↦ ok (other_code, ctx₁)
    ]

-- `imbue_parser`. For a rule the buffer has `strlen(line) + 4` bytes, and the terminator is written
-- over the last byte of the line.
unfoldable pub imbue_parser : ImbueAlloc → Context → CString → Outcome (ErrorCode × Context)
unfolding drop_last
imbue_parser alloc ctx line =
    if is_rule line
    then (if alloc.buffer
        then imbue_buffer alloc ctx (codes "dec=" ++ drop_last line)
        else ok (allocation_error, ctx))
    else if is_audit_record line
    then (if alloc.buffer then imbue_buffer alloc ctx line else ok (allocation_error, ctx))
    else ok (parse_error, ctx)
