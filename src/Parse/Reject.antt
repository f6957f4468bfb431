-- ===== src/Parse/Reject.antt =====
-- The loop of `parse` where it refuses a line.
use mathlib.Core.List.{append_assoc, append-nil}
use fapolicyd_analyzer.Base.{
  ℕ, zero, suc, ◌+◌, ◌<◌, ◌≤◌, ◌≡◌, ◌∙◌, true, false, ◌==◌, List, [], ◌∷◌, ◌++◌, CString, str_eq,
  length, Option, some, Outcome, ok, arith,
}
use fapolicyd_analyzer.FieldArray.{Block, load, get_key}
use fapolicyd_analyzer.Parse.Context.{
  Context, Side, subject, object, fields, get_number_of_subject_fields,
}
use fapolicyd_analyzer.Parse.Cursor.{
  Cursor, buffer, read, advance, terminate, skip_spaces, cstring_at,
}
use fapolicyd_analyzer.Parse.Fields.{
  KeysMatch, names, Starts, reading, fields_run, render_head, space-Starts,
}
use fapolicyd_analyzer.Parse.Format.{
  Pair, IsPair, All, plain, starts, render, torn, put_values, cstring_at-append,
}
use fapolicyd_analyzer.Parse.Record.{Loop, rejected, string_at, parse_loop}
use fapolicyd_analyzer.Parse.Steps.{Runs, cursor, behind_colon, steps_plain}
use fapolicyd_analyzer.Parse.Whole.{begin_run, colon_run}

module _ (side : Side) (i line : ℕ) (ctx : Context) (before after : List ℕ) where
  reject_run :
      (p : Option ℕ) (key name : CString) (fuel : ℕ)
      → get_key (fields side ctx) i ≡ ok p
      → string_at ctx.exemplar p ≡ ok key
      → cstring_at (before ++ 0 ∷ after) line ≡ ok name
      → str_eq key name ≡ false
      → suc (length after) < fuel
      → parse_loop fuel side i line (cursor before (b'=' ∷ after)) ctx
        ≡ ok (rejected ctx (before ++ 0 ∷ after))
  unfolding parse_loop read terminate
  reject_run p key name zero a b c d h = absurd (omega arith)
  reject_run p key name (suc fuel) a b c d h = ground arith

  -- The colon that stands behind `after` comes too early.
  pub few_run :
      (b rest : List ℕ) (behind : Cursor) (fuel : ℕ)
      → skip_spaces (cursor (before ++ 0 ∷ []) after) ≡ ok (cursor b (b':' ∷ rest))
      → skip_spaces (cursor (b ++ b':' ∷ []) rest) ≡ ok behind
      → (i == get_number_of_subject_fields ctx) ≡ false
      → suc (length after) < fuel
      → parse_loop fuel side i line (cursor before (b' ' ∷ after)) ctx
        ≡ ok (rejected ctx (buffer behind))
  unfolding parse_loop read advance terminate
  few_run b rest behind zero e f g h = absurd (omega arith)
  few_run b rest behind (suc fuel) e f g h = ground arith

-- A field whose name is not the expected one ends the loop.
pub wrong_field-Starts :
    (side : Side) (i q : ℕ) (ctx : Context) (exemplar : List ℕ) (expected key : CString)
    (before after : List ℕ)
    → ctx.exemplar ≡ some exemplar
    → load (fields side ctx).keys i ≡ ok (some q)
    → cstring_at exemplar q ≡ ok expected
    → plain key ≡ true
    → starts key ≡ true
    → str_eq expected key ≡ false
    → Starts side i before
        (key ++ b'=' ∷ after)
        ctx
        (ok (rejected ctx ((before ++ key) ++ 0 ∷ after)))
unfolding get_key string_at plain starts
wrong_field-Starts side i q ctx exemplar expected [] before after has at_q named good starting
      differs =
    absurd (ground arith)
wrong_field-Starts side i q ctx exemplar expected (c ∷ key) before after has at_q named good
      starting differs =
    let same : (before ++ c ∷ []) ++ key ≡ before ++ c ∷ key = append_assoc before (c ∷ []) key in
    let text : cstring_at ((before ++ c ∷ key) ++ 0 ∷ after) (length before) ≡ ok (c ∷ key) =
      rw (append_assoc before (c ∷ key) (0 ∷ after))
        (cstring_at-append before (c ∷ key) after good) in
    let reads : string_at ctx.exemplar (some q) ≡ ok expected = rw has named in
    steps_plain (before ++ c ∷ []) key (b'=' ∷ after) (unfold plain in ground arith) (
      rw same (record {
        run = λ fuel enough.
            reject_run side i (length before) ctx (before ++ c ∷ key) after (some q) expected
              (c ∷ key) fuel at_q reads text differs enough;
      }))

-- the text of some fields with the space behind each, and as `parse` leaves it
unfoldable pub lead : List Pair → CString
lead [] = []
lead (p ∷ ps) = render (p ∷ ps) ++ b' ' ∷ []

unfoldable pub torn_lead : List Pair → List ℕ
torn_lead [] = []
torn_lead (p ∷ ps) = torn (p ∷ ps) ++ 0 ∷ []

-- Keys that match a list match its first part, and the name behind that.
pub KeysMatch-append :
    (exemplar : List ℕ) (keys : Block) (i : ℕ) (xs : List CString) (name : CString)
    (ys : List CString)
    → KeysMatch exemplar keys i (xs ++ name ∷ ys)
    → KeysMatch exemplar keys i xs
      × ((q : ℕ) × (load keys (i + length xs) ≡ ok (some q)) × (cstring_at exemplar q ≡ ok name))
KeysMatch-append exemplar keys i [] name ys (here, rest) =
    let same : i + 0 ≡ i = omega arith in (tt, rw same here)
KeysMatch-append exemplar keys i (x ∷ xs) name ys (here, rest) =
    let same : i + suc (length xs) ≡ i + 1 + length xs = omega arith in
    let (match, there) = KeysMatch-append exemplar keys (i + 1) xs name ys rest in
    ((here, match), rw same there)

module _ (side : Side) (ctx : Context) (exemplar : List ℕ)
    (has_exemplar : ctx.exemplar ≡ some exemplar) (n : ℕ) (keys : Block)
    (result : Outcome Loop) where
  -- The fields in front of another one are recorded.
  pub lead_run :
      (ps : List Pair) (w : Pair) (before text : List ℕ) (i : ℕ) (values : List (Option ℕ))
      → All ps
      → IsPair w
      → KeysMatch exemplar keys i (names ps)
      → i + length ps ≤ length values
      → Starts side
          (i + length ps)
          (before ++ torn_lead ps)
          (w.key ++ text)
          (reading side ctx n keys (put_values (length before) i ps values))
          result
      → Starts side i before (lead ps ++ (w.key ++ text)) (reading side ctx n keys values) result
  unfolding lead torn_lead put_values
  lead_run [] w before text i values good good_w match room rest =
      let same : i + 0 ≡ i = omega arith in rw (same, append-nil) at rest
  lead_run (p ∷ ps) w before text i values good good_w match room rest =
      let whole : before ++ (torn (p ∷ ps) ++ 0 ∷ []) ≡ (before ++ torn (p ∷ ps)) ++ 0 ∷ [] =
        simp append_assoc in
      rw (append_assoc (render (p ∷ ps)) (b' ' ∷ []) (w.key ++ text)) (
        fields_run side ctx exemplar has_exemplar n keys p ps before (b' ' ∷ (w.key ++ text)) i
          values good match room
          (λ line.
            space-Starts side (i + length (p ∷ ps)) line _ w (before ++ torn (p ∷ ps)) text good_w
              (rw whole at rest)))

pub begin_lead :
    (ctx : Context) (result : Outcome Loop) (ps : List Pair) (w : Pair) (text : List ℕ)
    → All ps
    → IsPair w
    → Starts subject 0 [] (lead ps ++ (w.key ++ text)) ctx result
    → Runs subject 0 0 (cursor [] (lead ps ++ (w.key ++ text))) ctx result
unfolding lead
begin_lead ctx result [] w text good good_w rest = begin_run w [] text good_w rest
begin_lead ctx result (p ∷ ps) w text (good, _) good_w rest =
    let (t, e) = render_head p ps (b' ' ∷ (w.key ++ text)) in
    let whole : (render (p ∷ ps) ++ b' ' ∷ []) ++ (w.key ++ text) ≡ p.key ++ t =
      append_assoc (render (p ∷ ps)) (b' ' ∷ []) (w.key ++ text) ∙ e in
    rw whole (begin_run p [] t good (rw whole at rest))

pub colon_lead :
    (i line : ℕ) (ctx : Context) (result : Outcome Loop) (qs : List Pair) (w : Pair)
    (before text : List ℕ)
    → All qs
    → IsPair w
    → (i == get_number_of_subject_fields ctx) ≡ true
    → Starts object 0 (behind_colon before) (lead qs ++ (w.key ++ text)) ctx result
    → Runs subject i line
        (cursor before (b' ' ∷ b':' ∷ b' ' ∷ (lead qs ++ (w.key ++ text))))
        ctx
        result
unfolding lead
colon_lead i line ctx result [] w before text good good_w all rest =
    colon_run w before text good_w all rest
colon_lead i line ctx result (q ∷ qs) w before text (good, _) good_w all rest =
    let (t, e) = render_head q qs (b' ' ∷ (w.key ++ text)) in
    let whole : (render (q ∷ qs) ++ b' ' ∷ []) ++ (w.key ++ text) ≡ q.key ++ t =
      append_assoc (render (q ∷ qs)) (b' ' ∷ []) (w.key ++ text) ∙ e in
    rw whole (colon_run q before t good all (rw whole at rest))
