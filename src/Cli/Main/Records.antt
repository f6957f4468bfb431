-- ===== src/Cli/Main/Records.antt =====
-- The lines of a log, and the rounds of the loop of `main` on them.
use mathlib.Core.List.{append_assoc}
use mathlib.Core.Path.{subst}
use fapolicyd_analyzer.Base.{
  ℕ, ◌≡◌, refl, sym, ap, ◌∙◌, true, false, Option, some, List, [], ◌∷◌, ◌++◌, CString, ok, success,
}
use fapolicyd_analyzer.Parse.Context.{Context, is_audit_record}
use fapolicyd_analyzer.Parse.Record.{parse}
use fapolicyd_analyzer.Parse.Fields.{names}
use fapolicyd_analyzer.Parse.Format.{Pair, All, render}
use fapolicyd_analyzer.Parse.Whole.{record_line}
use fapolicyd_analyzer.Parse.Correct.{IsImbued, parse-HasRead}
use fapolicyd_analyzer.Parse.Imbued.{IsReady}
use fapolicyd_analyzer.Probe.{Alloc, over_load}
use fapolicyd_analyzer.HashSet.{HashSet}
use fapolicyd_analyzer.HashSet.Valid.{IsValid}
use fapolicyd_analyzer.HashSet.Add.{IsAdded}
use fapolicyd_analyzer.Cli.{Rules}
use fapolicyd_analyzer.Cli.Record.{HasFields, rule_for, process_record-IsAdded}
use fapolicyd_analyzer.Cli.Main.{Line, in_buffer, goes_on, main_step}

-- A record of the log, with what it says of the access, and what lies behind it in the buffer.
pub record LogRecord : Type 0 where
  pub first_subject : Pair
  pub more_subject : List Pair
  pub first_object : Pair
  pub more_object : List Pair
  pub dec : CString
  pub perm : CString
  pub exe : CString
  pub path : CString
  pub stale : List ℕ

abbrev pub subject_pairs : LogRecord → List Pair
subject_pairs r = r.first_subject ∷ r.more_subject

abbrev pub object_pairs : LogRecord → List Pair
object_pairs r = r.first_object ∷ r.more_object

-- A line of the log: a record, or something else.
pub data Entry : Type 0 where
  record_entry : LogRecord → Entry
  other_entry : Line → Entry

-- the text of a record
abbrev pub record_text : LogRecord → CString
record_text r =
    render (subject_pairs r) ++ b' ' ∷ b':' ∷ b' ' ∷ (render (object_pairs r) ++ b'\n' ∷ [])

abbrev pub line_of : Entry → Line
line_of (record_entry r) = (record_text r, r.stale)
line_of (other_entry line) = line

-- Specification: the rules for the records, in order.
abbrev pub rules_of : List Entry → List CString
rules_of [] = []
rules_of (record_entry r ∷ entries) = rule_for r.dec r.perm r.exe r.path ∷ rules_of entries
rules_of (other_entry line ∷ entries) = rules_of entries

-- The record has these keys, its text is one of an audit record, and it says what it is said to say.
pub record IsRecord (subjects objects : List CString) (r : LogRecord) : Type 0 where
  pub subject_good : All (subject_pairs r)
  pub object_good : All (object_pairs r)
  pub subject_keys : names (subject_pairs r) ≡ subjects
  pub object_keys : names (object_pairs r) ≡ objects
  pub audit : is_audit_record (record_text r) ≡ true
  pub said : HasFields (subject_pairs r) (object_pairs r) r.dec r.perm r.exe r.path

abbrev pub IsLog : (subjects objects : List CString) → List Entry → Type 0
IsLog subjects objects [] = Unit
IsLog subjects objects (record_entry r ∷ entries) =
    IsRecord subjects objects r × IsLog subjects objects entries
IsLog subjects objects (other_entry line ∷ entries) =
    (is_audit_record line.0 ≡ false) × IsLog subjects objects entries

in_buffer-record_line :
    (r : LogRecord)
    → in_buffer (record_text r, r.stale) ≡ record_line (subject_pairs r) (object_pairs r) r.stale
in_buffer-record_line r =
    append_assoc (render (subject_pairs r))
      (b' ' ∷ b':' ∷ b' ' ∷ (render (object_pairs r) ++ b'\n' ∷ [])) (0 ∷ r.stale)
    ∙ ap (λ (rest : List ℕ). render (subject_pairs r) ++ b' ' ∷ b':' ∷ b' ' ∷ rest)
        (append_assoc (render (object_pairs r)) (b'\n' ∷ []) (0 ∷ r.stale))

pub main_step-other :
    (alloc : Alloc) (ctx : Context) (rules : Rules) (line : Line)
    → is_audit_record line.0 ≡ false
    → main_step alloc ctx rules line ≡ ok (goes_on (ctx, rules))
unfolding main_step
main_step-other alloc ctx rules line other = rw other refl

pub main_step-record :
    {exemplar : List ℕ} {subjects objects : List CString} {ctx : Context} {set : HashSet}
    → IsReady exemplar subjects objects ctx
    → (r : LogRecord) → IsRecord subjects objects r
    → IsValid set
    → (deny : Option HashSet) (alloc : Alloc) → over_load set.used_nodes set.number_nodes ≡ false
    → alloc.node ≡ true
    → (ctx' : Context) × (set' : HashSet) × (main_step alloc ctx
          (record { allow_rules = some set; deny_rules = deny })
          (record_text r, r.stale)
        ≡ ok (goes_on (ctx', record { allow_rules = some set'; deny_rules = deny })))
      × IsReady exemplar subjects objects ctx'
      × IsAdded set (rule_for r.dec r.perm r.exe r.path) set'
unfolding main_step
main_step-record {exemplar} {subjects} {objects} {ctx} {set} ready r good valid deny alloc light
      allocated =
    let sub : IsImbued ctx.subject exemplar (names (subject_pairs r)) =
      subst (IsImbued ctx.subject exemplar) (sym good.subject_keys) ready.subject_imbued in
    let obj : IsImbued ctx.object exemplar (names (object_pairs r)) =
      subst (IsImbued ctx.object exemplar) (sym good.object_keys) ready.object_imbued in
    let (ctx', bytes, run, has_read) =
      parse-HasRead r.first_subject r.more_subject r.first_object r.more_object r.stale
        good.subject_good good.object_good ready.has_exemplar sub obj in
    let (set', run', added) =
      process_record-IsAdded has_read good.said valid deny alloc light allocated in
    let parsed : parse ctx (in_buffer (record_text r, r.stale)) ≡ ok (success, ctx', bytes) =
      ap (parse ctx) (in_buffer-record_line r) ∙ run in
    (
      ctx',
      set',
      rw (good.audit, parsed, run') refl,
      record {
        has_exemplar = has_read.keeps_exemplar;
        subject_imbued =
            subst (IsImbued ctx'.subject exemplar) good.subject_keys has_read.subject_again;
        object_imbued =
            subst (IsImbued ctx'.object exemplar) good.object_keys has_read.object_again;
      },
      added,
    )
