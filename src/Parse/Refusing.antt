-- ===== src/Parse/Refusing.antt =====
-- `parse` on a line with another name than the expected one, or with too few fields.
use fapolicyd_analyzer.Base.{
  ℕ, replicate, ◌+◌, ◌<◌, ◌≤◌, ◌≡◌, refl, true, false, ◌==◌, List, [], ◌∷◌, ◌++◌, CString, str_eq,
  length, length-append, Option, some, ok, arith, parse_error,
}
use fapolicyd_analyzer.FieldArray.{FieldArray, Block, get_num_fields}
use fapolicyd_analyzer.Parse.Context.{
  Context, subject, object, get_number_of_subject_fields, get_number_of_object_fields,
}
use fapolicyd_analyzer.Parse.Cursor.{buffer, skip_spaces-replicate, skip_spaces-terminated}
use fapolicyd_analyzer.Parse.Fields.{arr, KeysMatch, names, reading, fields_run, render_head}
use fapolicyd_analyzer.Parse.Format.{Pair, IsPair, All, plain, starts, render, torn, put_values}
use fapolicyd_analyzer.Parse.Record.{rejected, parse}
use fapolicyd_analyzer.Parse.Steps.{Runs, cursor, behind_colon}
use fapolicyd_analyzer.Parse.Whole.{
  record_line, begin_run, trim_newline-append, after_parse, loop_run,
}
use fapolicyd_analyzer.Parse.Correct.{length-names}
use fapolicyd_analyzer.Parse.Reject.{
  lead, torn_lead, few_run, wrong_field-Starts, KeysMatch-append, lead_run, begin_lead, colon_lead,
}

abbrev named : CString → Pair
named key = record { key = key; value = [] }

named-IsPair : (key : CString) → plain key ≡ true → starts key ≡ true → IsPair (named key)
unfolding plain
named-IsPair key good starting = record {
  plain_key = good;
  plain_value = refl;
  starting = starting;
}

-- `parse` returns PARSE_ERROR, without a fault.
abbrev pub Refuses : Context → List ℕ → Type 0
Refuses ctx line =
    (ctx' : Context) × (bytes : List ℕ) × (parse ctx line ≡ ok (parse_error, ctx', bytes))

parse-rejected :
    (ctx ctx' : Context) (line bytes : List ℕ)
    → Runs subject 0 0 (cursor [] line) ctx (ok (rejected ctx' bytes))
    → parse ctx line ≡ ok (parse_error, ctx', bytes)
unfolding parse
parse-rejected ctx ctx' line bytes runs =
    let run = runs.run (length line + 1) (omega arith) in ground (arith, run)

module _ (exemplar : List ℕ) (n : ℕ) (keys : Block) (values : List (Option ℕ))
    (object_fields : FieldArray) where
  -- a context whose subject array has these cells
  abbrev pub start : Context
  start = record { subject = arr n keys values; object = object_fields; exemplar = some exemplar }

  pub parse-wrong_subject :
      (ps : List Pair) (expected key : CString) (rest : List CString) (after : List ℕ)
      → KeysMatch exemplar keys 0 (names ps ++ expected ∷ rest)
      → length (names ps ++ expected ∷ rest) ≤ length values
      → All ps
      → plain key ≡ true
      → starts key ≡ true
      → str_eq expected key ≡ false
      → Refuses start (lead ps ++ (key ++ b'=' ∷ after))
  parse-wrong_subject ps expected key rest after match room good plain_key starting differs =
      let (match_ps, (q, at_q, found)) =
        KeysMatch-append exemplar keys 0 (names ps) expected rest match in
      let ctx' = reading subject start n keys (put_values 0 0 ps values) in
      let bytes = (torn_lead ps ++ key) ++ 0 ∷ after in
      let good_w = named-IsPair key plain_key starting in
      let fits : 0 + length ps ≤ length values =
        omega (arith, room, length-append (names ps) (expected ∷ rest), length-names ps) in
      let wrong =
        wrong_field-Starts subject (0 + length ps) q ctx' exemplar expected key (torn_lead ps) after
          refl (rw length-names at at_q) found plain_key starting differs in
      let lead_in =
        lead_run subject start exemplar refl n keys (ok (rejected ctx' bytes)) ps (named key) []
          (b'=' ∷ after) 0 values good good_w match_ps fits wrong in
      (
        ctx',
        bytes,
        parse-rejected start ctx' _ bytes (
            begin_lead start (ok (rejected ctx' bytes)) ps (named key) (b'=' ∷ after) good good_w
              lead_in),
      )

  pub parse-few_subjects :
      (p : Pair) (ps : List Pair) (spaces : ℕ) (after stale : List ℕ)
      → KeysMatch exemplar keys 0 (names (p ∷ ps))
      → length (p ∷ ps) ≤ length values
      → length (p ∷ ps) < get_num_fields (arr n keys values)
      → All (p ∷ ps)
      → Refuses start
          (render (p ∷ ps) ++ b' ' ∷ (replicate spaces b' ' ++ b':' ∷ (after ++ 0 ∷ stale)))
  unfolding get_number_of_subject_fields get_num_fields
  parse-few_subjects p ps spaces after stale match room few good =
      let ctx' = reading subject start n keys (put_values 0 0 (p ∷ ps) values) in
      let rest = after ++ 0 ∷ stale in
      let gap = replicate spaces b' ' ++ b':' ∷ rest in
      let b : List ℕ = (torn (p ∷ ps) ++ 0 ∷ []) ++ replicate spaces b' ' in
      let (text, e) = render_head p ps (b' ' ∷ gap) in
      let skipped = skip_spaces-replicate spaces b':' (torn (p ∷ ps) ++ 0 ∷ []) rest refl in
      let (behind, skipped') = skip_spaces-terminated after stale (b ++ b':' ∷ []) in
      let missing : (0 + length (p ∷ ps) == get_number_of_subject_fields ctx') ≡ false =
        ground arith in
      let run =
        fields_run subject start exemplar refl n keys p ps [] (b' ' ∷ gap) 0 values good match
          (omega arith)
          (λ line. record {
            run = λ fuel enough.
                few_run subject (0 + length (p ∷ ps)) line ctx' (torn (p ∷ ps)) gap b rest behind
                  fuel skipped skipped' missing enough;
          }) in
      (
        ctx',
        buffer behind,
        parse-rejected start ctx' _ (buffer behind)
            (rw e (begin_run p [] text good.0 (rw e at run))),
      )

module _ (exemplar : List ℕ) (n m : ℕ) (subject_keys object_keys : Block) (u v : List (Option ℕ))
    (p : Pair) (ps : List Pair) (good : All (p ∷ ps))
    (match : KeysMatch exemplar subject_keys 0 (names (p ∷ ps))) (room : length (p ∷ ps) ≤ length u)
    (count : get_num_fields (arr n subject_keys u) ≡ length (p ∷ ps)) where
  abbrev both : Context
  both = record {
    subject = arr n subject_keys u;
    object = arr m object_keys v;
    exemplar = some exemplar;
  }

  pub parse-wrong_object :
      (qs : List Pair) (expected key : CString) (rest : List CString) (after : List ℕ)
      → KeysMatch exemplar object_keys 0 (names qs ++ expected ∷ rest)
      → length (names qs ++ expected ∷ rest) ≤ length v
      → All qs
      → plain key ≡ true
      → starts key ≡ true
      → str_eq expected key ≡ false
      → Refuses both (render (p ∷ ps) ++ b' ' ∷ b':' ∷ b' ' ∷ (lead qs ++ (key ++ b'=' ∷ after)))
  unfolding get_number_of_subject_fields
  parse-wrong_object qs expected key rest after match_all room_q good_q plain_key starting differs =
      let (match_q, (k, at_k, found)) =
        KeysMatch-append exemplar object_keys 0 (names qs) expected rest match_all in
      let tail = b' ' ∷ b':' ∷ b' ' ∷ (lead qs ++ (key ++ b'=' ∷ after)) in
      let object_start = behind_colon (torn (p ∷ ps)) in
      let halfway = reading subject both n subject_keys (put_values 0 0 (p ∷ ps) u) in
      let ctx' = reading object halfway m object_keys (put_values (length object_start) 0 qs v) in
      let bytes = ((object_start ++ torn_lead qs) ++ key) ++ 0 ∷ after in
      let result = ok (rejected ctx' bytes) in
      let good_w = named-IsPair key plain_key starting in
      let fits : 0 + length qs ≤ length v =
        omega (arith, room_q, length-append (names qs) (expected ∷ rest), length-names qs) in
      let wrong =
        wrong_field-Starts object (0 + length qs) k ctx' exemplar expected key
          (object_start ++ torn_lead qs) after refl (rw length-names at at_k) found plain_key
          starting differs in
      let lead_in =
        lead_run object halfway exemplar refl m object_keys result qs (named key) object_start
          (b'=' ∷ after) 0 v good_q good_w match_q fits wrong in
      let all_parsed : (0 + length (p ∷ ps) == get_number_of_subject_fields halfway) ≡ true =
        unfold get_num_fields in ground (arith, count) in
      let (text, e) = render_head p ps tail in
      let run =
        fields_run subject both exemplar refl n subject_keys p ps [] tail 0 u good match
          (omega arith)
          (λ line.
            colon_lead (0 + length (p ∷ ps)) line halfway result qs (named key) (torn (p ∷ ps))
              (b'=' ∷ after) good_q good_w all_parsed lead_in) in
      (
        ctx',
        bytes,
        parse-rejected both ctx' _ bytes (rw e (begin_run p [] text good.0 (rw e at run))),
      )

  pub parse-few_objects :
      (q : Pair) (qs : List Pair) (stale : List ℕ)
      → KeysMatch exemplar object_keys 0 (names (q ∷ qs))
      → length (q ∷ qs) ≤ length v
      → length (q ∷ qs) < get_num_fields (arr m object_keys v)
      → All (q ∷ qs)
      → Refuses both (record_line (p ∷ ps) (q ∷ qs) stale)
  unfolding parse get_number_of_object_fields
  parse-few_objects q qs stale match_q room_q few good_q =
      let runs =
        loop_run exemplar n m subject_keys object_keys u v p ps q qs stale good good_q match match_q
          room room_q count in
      let run = runs.run (length (record_line (p ∷ ps) (q ∷ qs) stale) + 1) (omega arith) in
      let trimmed = trim_newline-append (behind_colon (torn (p ∷ ps)) ++ torn (q ∷ qs)) in
      let missing : (get_number_of_object_fields
              (after_parse exemplar n m subject_keys object_keys u v p ps q qs stale)
            == 0 + length (q ∷ qs))
          ≡ false =
        unfold get_num_fields in ground (arith, few) in
      (
        after_parse exemplar n m subject_keys object_keys u v p ps q qs stale,
        ((behind_colon (torn (p ∷ ps)) ++ torn (q ∷ qs)) ++ 0 ∷ []) ++ 0 ∷ stale,
        ground (arith, run, trimmed, missing),
      )
