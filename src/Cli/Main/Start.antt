-- ===== src/Cli/Main/Start.antt =====
-- `main` up to its loop: the lines skipped, the context, the rules.
use fapolicyd_analyzer.Base.{
  ℕ, ◌<◌, ◌^◌, ◌≡◌, refl, true, false, none, some, arith, List, [], ◌∷◌, ◌++◌, CString, length, ok,
  success,
}
use fapolicyd_analyzer.Parse.Context.{Context, is_audit_record, construct_parse_context}
use fapolicyd_analyzer.Parse.Fields.{names}
use fapolicyd_analyzer.Parse.Imbue.{imbue_parser}
use fapolicyd_analyzer.Parse.Count.{AllFlat}
use fapolicyd_analyzer.Parse.Taken.{imprint}
use fapolicyd_analyzer.Parse.Imbued.{IsReady, IsRoomy, imbue_parser-IsReady}
use fapolicyd_analyzer.FieldArray
use fapolicyd_analyzer.HashSet.{HashSet, initialize}
use fapolicyd_analyzer.Cli.{Rules, RulesAlloc, new_set, rules_construct}
use fapolicyd_analyzer.Cli.Main.{
  Line, MainAlloc, skip_to_record, Exit, Going, goes_on, main_loop, main_context, main_end, main,
}
use fapolicyd_analyzer.Cli.Main.Records.{
  LogRecord, subject_pairs, object_pairs, record_text, IsRecord,
}

-- none of the lines is a record
abbrev pub AllOther : List Line → Type 0
AllOther [] = Unit
AllOther (line ∷ lines) = (is_audit_record line.0 ≡ false) × AllOther lines

-- The memory suffices.
pub record IsEnough (alloc : MainAlloc) : Type 0 where
  pub ctx : alloc.ctx ≡ true
  pub subject : alloc.subject ≡ true
  pub object : alloc.object ≡ true
  pub imbue : IsRoomy alloc.imbue
  pub rules :
      alloc.rules
      ≡ record { rules = true; allow = true; deny = true; allow_nodes = true; deny_nodes = true }
  pub add : (i : ℕ) → (alloc.add i).node ≡ true

-- No colon stands in a key or a value, and either side has fewer than 2^31 fields.
pub record IsExemplar (r : LogRecord) : Type 0 where
  pub flat_subject : AllFlat (subject_pairs r)
  pub flat_object : AllFlat (object_pairs r)
  pub few_subject : length (subject_pairs r) < 2 ^ 31
  pub few_object : length (object_pairs r) < 2 ^ 31

pub skip_to_record-AllOther :
    (before rest : List Line) (line : Line)
    → AllOther before
    → is_audit_record line.0 ≡ true
    → skip_to_record (before ++ line ∷ rest) ≡ line ∷ rest
unfolding skip_to_record
skip_to_record-AllOther [] rest line others audit = rw (audit, skip_to_record) refl
skip_to_record-AllOther (other ∷ before) rest line (is_other, others) audit =
    rw (is_other, skip_to_record) (skip_to_record-AllOther before rest line others audit)

-- the same fresh set twice
pub rules_construct-fresh :
    (alloc : RulesAlloc)
    → alloc
      ≡ record { rules = true; allow = true; deny = true; allow_nodes = true; deny_nodes = true }
    → (set : HashSet) → initialize true 0 ≡ some set
    → rules_construct alloc ≡ ok (some (record { allow_rules = some set; deny_rules = some set }))
unfolding rules_construct new_set
rules_construct-fresh alloc all set made = rw (all, made) refl

-- the context as it is constructed
abbrev fresh_context : Context
fresh_context =
    let fa : FieldArray.FieldArray = record {
      num_fields = 0;
      keys = FieldArray.null;
      values = FieldArray.null;
    } in
    record { subject = fa; object = fa; exemplar = none }

construct-fresh_context :
    (alloc : MainAlloc)
    → IsEnough alloc
    → construct_parse_context alloc.ctx alloc.subject alloc.object ≡ some fresh_context
unfolding construct_parse_context FieldArray.construct
construct-fresh_context alloc enough = rw (enough.ctx, enough.subject, enough.object) refl

main_context-imbue :
    (alloc : MainAlloc) (line : CString) {ctx ctx' : Context}
    → construct_parse_context alloc.ctx alloc.subject alloc.object ≡ some ctx
    → imbue_parser alloc.imbue ctx line ≡ ok (success, ctx')
    → main_context alloc line ≡ ok (goes_on ctx')
unfolding main_context
main_context-imbue alloc line constructed run = ground (arith, constructed, run)

-- The record readies the context with its keys.
pub main_context-IsReady :
    (r : LogRecord) (alloc : MainAlloc) {subjects objects : List CString}
    → IsRecord subjects objects r
    → IsExemplar r
    → IsEnough alloc
    → (ctx : Context) × (main_context alloc (record_text r) ≡ ok (goes_on ctx))
      × IsReady
          (imprint (subject_pairs r) (object_pairs r))
          (names (subject_pairs r))
          (names (object_pairs r))
          ctx
main_context-IsReady r alloc good simple enough =
    let (ctx, run, ready) =
      imbue_parser-IsReady alloc.imbue fresh_context r.first_subject r.more_subject r.first_object
        r.more_object enough.imbue good.subject_good simple.flat_subject good.object_good
        simple.flat_object simple.few_subject simple.few_object good.audit in
    (
      ctx,
      main_context-imbue alloc (record_text r) (construct-fresh_context alloc enough) run,
      ready,
    )

-- Once the context and the rules are made, `main` ends as its loop makes it end.
pub main-run :
    (alloc : MainAlloc) (before : List Line) (r : LogRecord) (lines : List Line) (ctx : Context)
    {rules : Rules} {looped : Going Rules} {exit : Exit}
    → AllOther before
    → is_audit_record (record_text r) ≡ true
    → main_context alloc (record_text r) ≡ ok (goes_on ctx)
    → rules_construct alloc.rules ≡ ok (some rules)
    → main_loop alloc.add ctx rules ((record_text r, r.stale) ∷ lines) ≡ ok looped
    → main_end looped ≡ ok exit
    → main alloc (before ++ (record_text r, r.stale) ∷ lines) ≡ ok exit
unfolding main
main-run alloc before r lines ctx others audit made constructed run ended =
    let skipped = skip_to_record-AllOther before lines (record_text r, r.stale) others audit in
    rw (main, skipped, made, constructed, run) ended
