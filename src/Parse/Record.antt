-- ===== src/Parse/Record.antt =====
-- `parse`: cuts a line in place into the values of the imbued fields.
use fapolicyd_analyzer.Base.{
  ℕ, zero, suc, ◌+◌, true, false, ◌==◌, if◌then◌else◌, Option, none, some, List, [], ◌∷◌, ◌++◌,
  CString, str_eq, length, Outcome, ok, fault, out_of_fuel, ◌>>=◌, ErrorCode, success, parse_error,
}
use fapolicyd_analyzer.FieldArray.{get_key, set_value}
use fapolicyd_analyzer.Parse.Context.{
  Context, Side, subject, object, fields, with_fields, get_number_of_subject_fields,
  get_number_of_object_fields,
}
use fapolicyd_analyzer.Parse.Cursor.{
  Cursor, buffer, offset, read, advance, terminate, skip_spaces, cstring_at,
}

-- A string behind a pointer that may be null, in a buffer that may not be there.
unfoldable pub string_at : Option (List ℕ) → Option ℕ → Outcome CString
string_at none p = fault
string_at (some bytes) none = fault
string_at (some bytes) (some i) = cstring_at bytes i

-- What the loop comes to: an early `return PARSE_ERROR`, or its end with the number of fields that
-- were parsed and where `probe` stands.
pub data Loop : Type 0 where
  rejected : Context → List ℕ → Loop
  finished : Context → (parsed_fields : ℕ) → Cursor → Loop

unfoldable pub parse_loop :
    (fuel : ℕ) → Side → (parsed_fields line : ℕ) → Cursor → Context → Outcome Loop
parse_loop zero side parsed_fields line probe ctx = out_of_fuel
parse_loop (suc fuel) side parsed_fields line probe ctx = do
  c ← read probe
  elim (c == 0) [
    | true ↦ ok (finished ctx parsed_fields probe)
    | false ↦ elim (c == b'=') [
      | true ↦ do
        let cut = terminate probe
        p ← get_key (fields side ctx) parsed_fields
        key ← string_at ctx.exemplar p
        name ← cstring_at (buffer cut) line
        elim (str_eq key name) [
          | false ↦ ok (rejected ctx (buffer cut))
          | true ↦ do
            value ← advance cut
            fa ← set_value (fields side ctx) parsed_fields (offset value)
            parse_loop fuel side (parsed_fields + 1) line value (with_fields side ctx fa)
        ]
      | false ↦ elim (c == b' ') [
        | false ↦ do probe' ← advance probe; parse_loop fuel side parsed_fields line probe' ctx
        | true ↦ do
          behind ← advance (terminate probe)
          field ← skip_spaces behind
          d ← read field
          elim (d == b':') [
            | true ↦ do
              behind' ← advance field
              field' ← skip_spaces behind'
              elim (parsed_fields == get_number_of_subject_fields ctx) [
                | false ↦ ok (rejected ctx (buffer field'))
                | true ↦ do
                  probe' ← advance field'
                  parse_loop fuel object 0 (offset field') probe' ctx
              ]
            | false ↦ do
              probe' ← advance field
              parse_loop fuel side parsed_fields (offset field) probe' ctx
          ]
      ]
    ]
  ]

-- `if (*(--probe) == '\n') *probe = '\0';` from the bytes before `probe`: there must be one.
unfoldable pub trim_newline : List ℕ → Outcome (List ℕ)
trim_newline [] = fault
trim_newline (c ∷ []) = ok ((if c == b'\n' then 0 else c) ∷ [])
trim_newline (c ∷ d ∷ bytes) = do trimmed ← trim_newline (d ∷ bytes); ok (c ∷ trimmed)

-- `parse` on a buffer: the code, the context, and the buffer as it left it
unfoldable pub parse : Context → List ℕ → Outcome (ErrorCode × Context × List ℕ)
unfolding trim_newline
parse ctx line = do
  let start : Cursor = record { before = []; after = line }
  loop ← parse_loop (length line + 1) subject 0 0 start ctx
  elim loop [
    | rejected ctx' bytes ↦ ok (parse_error, ctx', bytes)
    | finished ctx' parsed_fields probe ↦ do
      trimmed ← trim_newline probe.before
      ok (
        (if get_number_of_object_fields ctx' == parsed_fields then success else parse_error),
        ctx',
        trimmed ++ probe.after,
      )
  ]
