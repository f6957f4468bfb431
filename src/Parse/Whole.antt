-- ===== src/Parse/Whole.antt =====
-- The loop of `parse` over a whole line.
use mathlib.Core.List.{append_assoc}
use fapolicyd_analyzer.Base.{
  ℕ, ◌+◌, ◌≤◌, ◌≡◌, refl, true, ◌==◌, List, [], ◌∷◌, ◌++◌, CString, length, Option, some, Outcome,
  ok, arith, success,
}
use fapolicyd_analyzer.FieldArray.{Block, get_num_fields}
use fapolicyd_analyzer.Parse.Context.{
  Context, Side, subject, object, get_number_of_subject_fields, get_number_of_object_fields,
}
use fapolicyd_analyzer.Parse.Fields.{
  arr, KeysMatch, names, Starts, reading, fields_run, render_head,
}
use fapolicyd_analyzer.Parse.Format.{
  Pair, IsPair, All, plain, plain_byte, starts, render, torn, put_values,
}
use fapolicyd_analyzer.Parse.Record.{Loop, finished, trim_newline, parse}
use fapolicyd_analyzer.Parse.Steps.{Runs, cursor, behind_colon, step_end, step_plain, step_colon}

-- the line `key=value … : key=value …`, its newline, and the memory behind its terminator
abbrev pub record_line : (ps qs : List Pair) → (stale : List ℕ) → List ℕ
record_line ps qs stale = render ps ++ b' ' ∷ b':' ∷ b' ' ∷ (render qs ++ b'\n' ∷ 0 ∷ stale)

pub begin_run :
    {side : Side} {i : ℕ} {ctx : Context} {result : Outcome Loop} (p : Pair) (before text : List ℕ)
    → IsPair p
    → Starts side i before (p.key ++ text) ctx result
    → Runs side i (length before) (cursor before (p.key ++ text)) ctx result
begin_run {side} {i} {ctx} {result} p before text good = go p.key refl
  where
    go :
        (key : CString)
        → p.key ≡ key
        → Starts side i before (key ++ text) ctx result
        → Runs side i (length before) (cursor before (key ++ text)) ctx result
    go [] e rest = absurd (unfold starts in ground (arith, good.starting))
    go (c ∷ key) e rest =
        step_plain before (key ++ text) c (unfold plain in ground (arith, good.plain_key)) rest

pub colon_run :
    {i line : ℕ} {ctx : Context} {result : Outcome Loop} (p : Pair) (before text : List ℕ)
    → IsPair p
    → (i == get_number_of_subject_fields ctx) ≡ true
    → Starts object 0 (behind_colon before) (p.key ++ text) ctx result
    → Runs subject i line (cursor before (b' ' ∷ b':' ∷ b' ' ∷ (p.key ++ text))) ctx result
colon_run {i} {line} {ctx} {result} p before text good all_parsed = go p.key refl
  where
    go :
        (key : CString)
        → p.key ≡ key
        → Starts object 0 (behind_colon before) (key ++ text) ctx result
        → Runs subject i line (cursor before (b' ' ∷ b':' ∷ b' ' ∷ (key ++ text))) ctx result
    go [] e rest = absurd (unfold starts in ground (arith, good.starting))
    go (c ∷ key) e rest =
        step_colon before (key ++ text) c
          (unfold plain plain_byte in ground (arith, good.plain_key)) all_parsed rest

pub trim_newline-append :
    (bytes : List ℕ) → trim_newline (bytes ++ b'\n' ∷ []) ≡ ok (bytes ++ 0 ∷ [])
unfolding trim_newline
trim_newline-append [] = refl
trim_newline-append (c ∷ []) = refl
trim_newline-append (c ∷ d ∷ bytes) = rw (trim_newline-append (d ∷ bytes))

module _ (exemplar : List ℕ) (n m : ℕ) (subject_keys object_keys : Block) (u v : List (Option ℕ))
    (p : Pair) (ps : List Pair) (q : Pair) (qs : List Pair) (stale : List ℕ) where
  abbrev pub before_parse : Context
  before_parse = record {
    subject = arr n subject_keys u;
    object = arr m object_keys v;
    exemplar = some exemplar;
  }

  abbrev pub object_start : List ℕ
  object_start = behind_colon (torn (p ∷ ps))

  abbrev pub after_parse : Context
  after_parse = record {
    subject = arr n subject_keys (put_values 0 0 (p ∷ ps) u);
    object = arr m object_keys (put_values (length object_start) 0 (q ∷ qs) v);
    exemplar = some exemplar;
  }

  abbrev pub parsed_bytes : List ℕ
  parsed_bytes = object_start ++ (torn (q ∷ qs) ++ 0 ∷ 0 ∷ stale)

  module _ (good_p : All (p ∷ ps)) (good_q : All (q ∷ qs))
      (match_p : KeysMatch exemplar subject_keys 0 (names (p ∷ ps)))
      (match_q : KeysMatch exemplar object_keys 0 (names (q ∷ qs)))
      (room_p : length (p ∷ ps) ≤ length u) (room_q : length (q ∷ qs) ≤ length v)
      (count_p : get_num_fields (arr n subject_keys u) ≡ length (p ∷ ps)) where
    abbrev tail_q : List ℕ
    tail_q = b'\n' ∷ 0 ∷ stale

    abbrev tail_p : List ℕ
    tail_p = b' ' ∷ b':' ∷ b' ' ∷ (render (q ∷ qs) ++ tail_q)

    abbrev halfway : Context
    halfway = reading subject before_parse n subject_keys (put_values 0 0 (p ∷ ps) u)

    abbrev pub at_newline : List ℕ
    at_newline = object_start ++ torn (q ∷ qs)

    abbrev pub loop_end : Outcome Loop
    loop_end =
        ok (
          finished after_parse (0 + length (q ∷ qs))
            (cursor (at_newline ++ b'\n' ∷ []) (0 ∷ stale)))

    object_run :
        (line : ℕ)
        → Runs subject (0 + length (p ∷ ps)) line (cursor (torn (p ∷ ps)) tail_p) halfway loop_end
    unfolding get_number_of_subject_fields
    object_run line =
        let (text, e) = render_head q qs tail_q in
        rw e (
          colon_run q (torn (p ∷ ps)) text good_q.0
            (unfold get_num_fields in ground (arith, count_p))
            (rw e at (
              fields_run object halfway exemplar refl m object_keys q qs object_start tail_q 0 v
                good_q match_q (omega arith)
                (λ l.
                  step_plain at_newline (0 ∷ stale) b'\n' (unfold plain_byte in refl)
                    (step_end object _ l after_parse (at_newline ++ b'\n' ∷ []) stale)))))

    -- The loop takes all fields, whatever number of them the object expects.
    pub loop_run :
        Runs subject 0 0 (cursor [] (record_line (p ∷ ps) (q ∷ qs) stale)) before_parse loop_end
    loop_run =
        let (text, e) = render_head p ps tail_p in
        rw e (
          begin_run p [] text good_p.0 (
            rw e at (
              fields_run subject before_parse exemplar refl n subject_keys p ps [] tail_p 0 u good_p
                match_p (omega arith) object_run)))

    -- `parse` takes them when the object expects as many.
    pub parse_run :
        get_num_fields (arr m object_keys v) ≡ length (q ∷ qs)
        → parse before_parse (record_line (p ∷ ps) (q ∷ qs) stale)
          ≡ ok (success, after_parse, parsed_bytes)
    unfolding parse get_number_of_object_fields
    parse_run count_q =
        let same : ((at_newline ++ 0 ∷ []) ++ 0 ∷ stale) ≡ parsed_bytes = simp append_assoc in
        let run = loop_run.run (length (record_line (p ∷ ps) (q ∷ qs) stale) + 1) (omega arith) in
        let all_parsed : (get_number_of_object_fields after_parse == 0 + length (q ∷ qs)) ≡ true =
          unfold get_num_fields in ground (arith, count_q) in
        ground (arith, run, trim_newline-append at_newline, all_parsed, same)
