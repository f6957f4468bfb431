-- ===== src/Parse/Steps.antt =====
-- The loop of `parse`, one byte or one separator at a time, with fuel to spare.
use fapolicyd_analyzer.Base.{
  ℕ, zero, suc, ◌+◌, ◌<◌, ◌≡◌, refl, true, false, ◌==◌, List, [], ◌∷◌, ◌++◌, CString, length,
  str_eq_refl, Option, Outcome, ok, arith,
}
use fapolicyd_analyzer.FieldArray.{FieldArray, get_key, set_value}
use fapolicyd_analyzer.Parse.Context.{
  Context, Side, object, fields, with_fields, get_number_of_subject_fields,
}
use fapolicyd_analyzer.Parse.Cursor.{Cursor, read, advance, terminate, skip_spaces, cstring_at}
use fapolicyd_analyzer.Parse.Format.{plain_byte, plain}
use fapolicyd_analyzer.Parse.Record.{Loop, finished, string_at, parse_loop}
use mathlib.Core.List.{append_assoc, append-nil}

abbrev pub cursor : List ℕ → List ℕ → Cursor
cursor before after = record { before = before; after = after }

-- Whatever fuel covers the bytes ahead, the loop comes to `result`.
pub record Runs (side : Side) (parsed_fields line : ℕ) (probe : Cursor) (ctx : Context)
    (result : Outcome Loop) : Type 0 where
  pub run :
      (fuel : ℕ)
      → length probe.after < fuel
      → parse_loop fuel side parsed_fields line probe ctx ≡ result

-- the buffer up to the byte behind ` : `
abbrev pub behind_colon : List ℕ → List ℕ
behind_colon before = ((before ++ 0 ∷ []) ++ b':' ∷ []) ++ b' ' ∷ []

module _ (side : Side) (parsed_fields line : ℕ) (ctx : Context) (result : Outcome Loop)
    (before after : List ℕ) where
  step_plain_run :
      (c fuel : ℕ)
      → plain_byte c ≡ true
      → Runs side parsed_fields line (cursor (before ++ c ∷ []) after) ctx result
      → suc (length after) < fuel
      → parse_loop fuel side parsed_fields line (cursor before (c ∷ after)) ctx ≡ result
  unfolding parse_loop read advance plain_byte
  step_plain_run c zero e rest h = absurd (omega arith)
  step_plain_run c (suc fuel) e rest h = ground (arith, rest.run fuel)

  step_space_run :
      (d fuel : ℕ)
      → (d == b' ') ≡ false
      → (d == b':') ≡ false
      → Runs side parsed_fields
          (length (before ++ 0 ∷ []))
          (cursor ((before ++ 0 ∷ []) ++ d ∷ []) after)
          ctx
          result
      → suc (suc (length after)) < fuel
      → parse_loop fuel side parsed_fields line (cursor before (b' ' ∷ d ∷ after)) ctx ≡ result
  unfolding parse_loop read advance terminate skip_spaces
  step_space_run d zero e f rest h = absurd (omega arith)
  step_space_run d (suc fuel) e f rest h = ground (arith, rest.run fuel)

  step_colon_run :
      (d fuel : ℕ)
      → (d == b' ') ≡ false
      → (parsed_fields == get_number_of_subject_fields ctx) ≡ true
      → Runs object 0
          (length (behind_colon before))
          (cursor (behind_colon before ++ d ∷ []) after)
          ctx
          result
      → suc (suc (suc (suc (length after)))) < fuel
      → parse_loop fuel side parsed_fields line (cursor before (b' ' ∷ b':' ∷ b' ' ∷ d ∷ after)) ctx
        ≡ result
  unfolding parse_loop read advance terminate skip_spaces
  step_colon_run d zero e f rest h = absurd (omega arith)
  step_colon_run d (suc fuel) e f rest h = ground (arith, rest.run fuel)

  step_equals_run :
      (p : Option ℕ) (key : CString) (fa : FieldArray) (fuel : ℕ)
      → get_key (fields side ctx) parsed_fields ≡ ok p
      → string_at ctx.exemplar p ≡ ok key
      → cstring_at (before ++ 0 ∷ after) line ≡ ok key
      → set_value (fields side ctx) parsed_fields (length (before ++ 0 ∷ [])) ≡ ok fa
      → Runs side
          (parsed_fields + 1)
          line
          (cursor (before ++ 0 ∷ []) after)
          (with_fields side ctx fa)
          result
      → suc (length after) < fuel
      → parse_loop fuel side parsed_fields line (cursor before (b'=' ∷ after)) ctx ≡ result
  unfolding parse_loop read advance terminate
  step_equals_run p key fa zero a b c d rest h = absurd (omega arith)
  step_equals_run p key fa (suc fuel) a b c d rest h =
      ground (arith, str_eq_refl key, rest.run fuel)

module _ {side : Side} {parsed_fields line : ℕ} {ctx : Context} {result : Outcome Loop}
    (before after : List ℕ) where
  pub step_plain :
      (c : ℕ)
      → plain_byte c ≡ true
      → Runs side parsed_fields line (cursor (before ++ c ∷ []) after) ctx result
      → Runs side parsed_fields line (cursor before (c ∷ after)) ctx result
  step_plain c e rest = record {
    run = λ fuel h. step_plain_run side parsed_fields line ctx result before after c fuel e rest h;
  }

  pub step_space :
      (d : ℕ)
      → (d == b' ') ≡ false
      → (d == b':') ≡ false
      → Runs side parsed_fields
          (length (before ++ 0 ∷ []))
          (cursor ((before ++ 0 ∷ []) ++ d ∷ []) after)
          ctx
          result
      → Runs side parsed_fields line (cursor before (b' ' ∷ d ∷ after)) ctx result
  step_space d e f rest = record {
    run =
        λ fuel h. step_space_run side parsed_fields line ctx result before after d fuel e f rest h;
  }

  pub step_colon :
      (d : ℕ)
      → (d == b' ') ≡ false
      → (parsed_fields == get_number_of_subject_fields ctx) ≡ true
      → Runs object 0
          (length (behind_colon before))
          (cursor (behind_colon before ++ d ∷ []) after)
          ctx
          result
      → Runs side parsed_fields line (cursor before (b' ' ∷ b':' ∷ b' ' ∷ d ∷ after)) ctx result
  step_colon d e f rest = record {
    run =
        λ fuel h. step_colon_run side parsed_fields line ctx result before after d fuel e f rest h;
  }

  pub step_equals :
      (p : Option ℕ) (key : CString) (fa : FieldArray)
      → get_key (fields side ctx) parsed_fields ≡ ok p
      → string_at ctx.exemplar p ≡ ok key
      → cstring_at (before ++ 0 ∷ after) line ≡ ok key
      → set_value (fields side ctx) parsed_fields (length (before ++ 0 ∷ [])) ≡ ok fa
      → Runs side
          (parsed_fields + 1)
          line
          (cursor (before ++ 0 ∷ []) after)
          (with_fields side ctx fa)
          result
      → Runs side parsed_fields line (cursor before (b'=' ∷ after)) ctx result
  step_equals p key fa a b c d rest = record {
    run = λ fuel h.
        step_equals_run side parsed_fields line ctx result before after p key fa fuel a b c d rest
          h;
  }

module _ (side : Side) (parsed_fields line : ℕ) (ctx : Context) (before after : List ℕ) where
  abbrev at_end : Outcome Loop
  at_end = ok (finished ctx parsed_fields (cursor before (0 ∷ after)))

  step_end_run :
      (fuel : ℕ)
      → suc (length after) < fuel
      → parse_loop fuel side parsed_fields line (cursor before (0 ∷ after)) ctx ≡ at_end
  unfolding parse_loop read
  step_end_run zero h = absurd (omega arith)
  step_end_run (suc fuel) h = refl

  -- The terminator ends the loop.
  pub step_end : Runs side parsed_fields line (cursor before (0 ∷ after)) ctx at_end
  step_end = record { run = step_end_run }

-- A whole run of plain bytes is passed over.
pub steps_plain :
    {side : Side} {parsed_fields line : ℕ} {ctx : Context} {result : Outcome Loop}
    (before bytes after : List ℕ)
    → plain bytes ≡ true
    → Runs side parsed_fields line (cursor (before ++ bytes) after) ctx result
    → Runs side parsed_fields line (cursor before (bytes ++ after)) ctx result
unfolding plain
steps_plain before [] after h rest = rw append-nil at rest
steps_plain before (c ∷ bytes) after h rest = step_plain before (bytes ++ after) c (ground arith) (
    steps_plain (before ++ c ∷ []) bytes after (ground arith)
      (rw (append_assoc before (c ∷ []) bytes) rest))
