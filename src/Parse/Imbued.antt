-- ===== src/Parse/Imbued.antt =====
-- `imbue_parser` on a record of the log.
use mathlib.Core.List.{append_assoc}
use fapolicyd_analyzer.Base.{
  ℕ, ◌+◌, ◌%◌, ◌^◌, ◌<◌, ◌≡◌, refl, ◌∙◌, true, false, ◌==◌, List, [], ◌∷◌, ◌++◌, CString, length,
  length-append, some, ok, arith, success,
}
use fapolicyd_analyzer.FieldArray.{FieldArray, block, set_key, get_num_fields}
use fapolicyd_analyzer.Parse.Context.{
  Context, subject, object, with_fields, is_rule, is_audit_record,
}
use fapolicyd_analyzer.Parse.Format.{Pair, All}
use fapolicyd_analyzer.Parse.Fields.{names}
use fapolicyd_analyzer.Parse.Steps.{cursor}
use fapolicyd_analyzer.Parse.Imbue.{
  ImbueAlloc, initialize_side, count_fields, set_keys, imbue_buffer, imbue_parser,
}
use fapolicyd_analyzer.Parse.Correct.{IsImbued, length-names}
use fapolicyd_analyzer.Parse.Count.{
  AllFlat, fresh_array, initialize_side-fresh, record_text, count_fields-record_text,
}
use fapolicyd_analyzer.Parse.Keys.{set_key-named, cut}
use fapolicyd_analyzer.Parse.Pointers.{put_keys-KeysMatch}
use fapolicyd_analyzer.Parse.Taken.{
  imprint, cells, length-cells, side_array, colon_at, counted, keyed, subject_Sets,
}

-- The context is ready for records with these keys.
pub record IsReady (exemplar : List ℕ) (subjects objects : List CString) (ctx : Context)
    : Type 0 where
  pub has_exemplar : ctx.exemplar ≡ some exemplar
  pub subject_imbued : IsImbued ctx.subject exemplar subjects
  pub object_imbued : IsImbued ctx.object exemplar objects

-- The memory for the exemplar and for both arrays suffices.
pub record IsRoomy (alloc : ImbueAlloc) : Type 0 where
  pub buffer : alloc.buffer ≡ true
  pub subject : (i : ℕ) → alloc.subject i ≡ (true, true)
  pub object : alloc.object ≡ (true, true)

side_array-IsImbued :
    (rs : List Pair) (before after : List ℕ)
    → All rs
    → length rs < 2 ^ 31
    → IsImbued (side_array (length before) rs) (before ++ (cut rs ++ after)) (names rs)
unfolding get_num_fields
side_array-IsImbued rs before after good few =
    let blank = cells (length rs) in
    record {
      values = blank;
      written = refl;
      count = ground (arith, length-names rs, few);
      room = omega (arith, length-cells (length rs), length-names rs);
      match =
          put_keys-KeysMatch rs before after 0 blank good (omega (arith, length-cells (length rs)));
    }

module _ (ctx : Context) (p : Pair) (ps : List Pair) (q : Pair) (qs : List Pair) where
  abbrev imbued : Context
  imbued = record (keyed ctx p ps q qs) { exemplar = some (imprint (p ∷ ps) (q ∷ qs)) }

  imbued-IsReady :
      All (p ∷ ps)
      → All (q ∷ qs)
      → length (p ∷ ps) < 2 ^ 31
      → length (q ∷ qs) < 2 ^ 31
      → IsReady (imprint (p ∷ ps) (q ∷ qs)) (names (p ∷ ps)) (names (q ∷ qs)) imbued
  imbued-IsReady good_p good_q few_p few_q =
      let whole : colon_at ctx p ps q qs ++ (cut (q ∷ qs) ++ b'\n' ∷ 0 ∷ [])
          ≡ imprint (p ∷ ps) (q ∷ qs) =
        simp append_assoc in
      record {
        has_exemplar = refl;
        subject_imbued = side_array-IsImbued (p ∷ ps) [] _ good_p few_p;
        object_imbued =
            rw whole at
              (side_array-IsImbued (q ∷ qs) (colon_at ctx p ps q qs) (b'\n' ∷ 0 ∷ []) good_q few_q);
      }

imbue_buffer-success :
    (alloc : ImbueAlloc) (ctx : Context) (string : CString) (n : ℕ) {ctx₁ ctx₂ ctx₃ : Context}
    {fa : FieldArray} {exemplar : List ℕ}
    → count_fields alloc.subject 0 0 ctx string ≡ (success, n, ctx₁)
    → (n == 0) ≡ false
    → initialize_side alloc.object object ctx₁ n ≡ (success, ctx₂)
    → set_key ctx₂.subject 0 0 ≡ ok fa
    → set_keys
        (length string + 2)
        subject
        1
        (cursor [] (string ++ 0 ∷ []))
        (with_fields subject ctx₂ fa)
      ≡ ok (ctx₃, exemplar)
    → imbue_buffer alloc ctx string ≡ ok (success, record ctx₃ { exemplar = some exemplar })
unfolding imbue_buffer
imbue_buffer-success alloc ctx string n both some_fields made first taken = ground arith

imbue_parser-record :
    (alloc : ImbueAlloc) (ctx : Context) (line : CString)
    → is_audit_record line ≡ true
    → alloc.buffer ≡ true
    → imbue_parser alloc ctx line ≡ imbue_buffer alloc ctx line
unfolding imbue_parser is_audit_record is_rule
imbue_parser-record alloc ctx line audit buffer =
    let no_rule : is_rule line ≡ false = ground arith in rw (no_rule, audit, buffer) refl

-- Let the keys and values of a record be free of NUL, of `=`, of space and of colons, let no key be
-- empty and either side have fewer than 2^31 fields; let the line be one of an audit record and the
-- memory suffice (IsRoomy). Then `imbue_parser` returns OK without a fault, and the context is
-- ready for records with these keys (IsReady): the exemplar is the line with each `=` made a
-- terminator, the key pointers of either array lead to the keys in order, the arrays count them and
-- have a cell for each value.
pub imbue_parser-IsReady :
    (alloc : ImbueAlloc) (ctx : Context) (p : Pair) (ps : List Pair) (q : Pair) (qs : List Pair)
    → IsRoomy alloc
    → All (p ∷ ps)
    → AllFlat (p ∷ ps)
    → All (q ∷ qs)
    → AllFlat (q ∷ qs)
    → length (p ∷ ps) < 2 ^ 31
    → length (q ∷ qs) < 2 ^ 31
    → is_audit_record (record_text (p ∷ ps) (q ∷ qs)) ≡ true
    → (ctx' : Context) × (imbue_parser alloc ctx (record_text (p ∷ ps) (q ∷ qs))
        ≡ ok (success, ctx'))
      × IsReady (imprint (p ∷ ps) (q ∷ qs)) (names (p ∷ ps)) (names (q ∷ qs)) ctx'
imbue_parser-IsReady alloc ctx p ps q qs roomy good_p flat_p good_q flat_q few_p few_q audit =
    let string = record_text (p ∷ ps) (q ∷ qs) in
    let n = length (q ∷ qs) in
    let made : initialize_side alloc.object object
          (with_fields subject ctx (fresh_array (length (p ∷ ps)))) n
        ≡ (success, counted ctx p ps q qs) =
      rw roomy.object (initialize_side-fresh object _ n few_q) in
    let first =
      set_key-named (length (p ∷ ps) % 2 ^ 32) (cells (length (p ∷ ps)))
        (block (cells (length (p ∷ ps)))) 0 0 (omega (arith, length-cells (length (p ∷ ps)))) in
    let taken =
      (subject_Sets ctx p ps q qs good_p good_q).run (length string + 2)
        (omega (arith, length-append string (0 ∷ []))) in
    (
      imbued ctx p ps q qs,
      imbue_parser-record alloc ctx string audit roomy.buffer
          ∙ imbue_buffer-success alloc ctx string n
              (count_fields-record_text alloc.subject ctx p ps (q ∷ qs) roomy.subject good_p flat_p
                good_q flat_q few_p)
              (ground arith) made first taken,
      imbued-IsReady ctx p ps q qs good_p good_q few_p few_q,
    )
