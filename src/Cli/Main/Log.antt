-- ===== src/Cli/Main/Log.antt =====
-- `main` over a log.
use fapolicyd_analyzer.Base.{
  ℕ, ◌+◌, ◌*◌, ◌^◌, ◌≤◌, ◌≡◌, refl, ap, ◌∙◌, true, ◌||◌, Option, none, some, List, [], ◌∷◌, ◌++◌,
  map, CString, str_eq, length, inl, ok, arith,
}
use fapolicyd_analyzer.Parse.Context.{Context}
use fapolicyd_analyzer.Parse.Fields.{names}
use fapolicyd_analyzer.Parse.Imbued.{IsReady}
use fapolicyd_analyzer.Probe.{Alloc}
use fapolicyd_analyzer.Probe.Next.{stored}
use fapolicyd_analyzer.HashSet.{Node, HashSet, holds}
use fapolicyd_analyzer.HashSet.Valid.{IsValid}
use fapolicyd_analyzer.HashSet.Run.{elem, light_enough, initialize-IsValid}
use fapolicyd_analyzer.Cli.Main.{
  Line, MainAlloc, exit_success, goes_on, emit_rules, main_loop, main_end, main,
}
use fapolicyd_analyzer.Cli.{Rules}
use fapolicyd_analyzer.Cli.Main.Start.{
  AllOther, IsEnough, IsExemplar, rules_construct-fresh, main_context-IsReady, main-run,
}
use fapolicyd_analyzer.Cli.Main.Emit.{keys_of, emit_rules-allow}
use fapolicyd_analyzer.Cli.Main.Records.{
  LogRecord, Entry, record_entry, other_entry, subject_pairs, object_pairs, line_of, rules_of,
  IsLog, main_step-other, main_step-record,
}

-- The loop over a log leaves the rules of its records in the set of allow rules, beside those that
-- were there.
pub main_loop-rules_of :
    {exemplar : List ℕ} {subjects objects : List CString}
    → (entries : List Entry)
    → {ctx : Context} {set : HashSet} (deny : Option HashSet) (alloc : ℕ → Alloc)
    → IsReady exemplar subjects objects ctx
    → IsLog subjects objects entries
    → IsValid set
    → ((i : ℕ) → (alloc i).node ≡ true)
    → 2 ^ 25 * (set.used_nodes + length (rules_of entries)) ≤ 21810381 * set.number_nodes + 2 ^ 25
    → (set' : HashSet) × (main_loop alloc ctx
          (record { allow_rules = some set; deny_rules = deny })
          (map line_of entries)
        ≡ ok (goes_on (record { allow_rules = some set'; deny_rules = deny })))
      × IsValid set'
      × (set'.number_nodes ≡ set.number_nodes)
      × ((k : CString) → holds k set'.nodes ≡ (elem k (rules_of entries) || holds k set.nodes))
unfolding main_loop elem
main_loop-rules_of [] {ctx} {set} deny alloc ready log valid allocated room =
    (set, refl, valid, refl, λ k. refl)
main_loop-rules_of (other_entry line ∷ entries) {ctx} {set} deny alloc ready (other, log) valid
      allocated room =
    let (set', run, valid', size, held) =
      main_loop-rules_of entries deny alloc ready log valid allocated room in
    (
      set',
      rw
          (main_step-other (alloc (length (map line_of entries))) ctx
            (record { allow_rules = some set; deny_rules = deny }) line other)
          run,
      valid',
      size,
      held,
    )
main_loop-rules_of (record_entry r ∷ entries) {ctx} {set} deny alloc ready (good, log) valid
      allocated room =
    let (ctx₁, set₁, run, ready₁, added) =
      main_step-record ready r good valid deny (alloc (length (map line_of entries)))
        (light_enough set.used_nodes set.number_nodes (omega arith)) (allocated _) in
    let (set₂, run', valid', size, held) =
      main_loop-rules_of entries deny alloc ready₁ log added.valid allocated
        (ground (arith, added.counted, added.size)) in
    (set₂, rw run run', valid', size ∙ added.size, λ k. ground (arith, held k, added.keys k))

-- the keys in the slots are those that the set holds
elem-keys_of : (k : CString) (nodes : List (Option Node)) → elem k (keys_of nodes) ≡ holds k nodes
unfolding elem holds stored
elem-keys_of k [] = refl
elem-keys_of k (none ∷ nodes) = elem-keys_of k nodes
elem-keys_of k (some node ∷ nodes) = ap (λ b. str_eq k node.key || b) (elem-keys_of k nodes)

main_end-emitted :
    (rules : Rules) {printed : List CString}
    → emit_rules rules ≡ ok printed
    → main_end (goes_on rules) ≡ ok (record { status = exit_success; printed = printed })
unfolding main_end
main_end-emitted rules emitted = rw emitted refl

-- Let a log begin with lines that are no audit records, followed by a record; let no colon stand in
-- its keys and values, and let either side of it have fewer than 2^31 fields (IsExemplar); let
-- every line from it on be a record with its keys that says what it is said to say, or no audit
-- record (IsLog); let the memory suffice, and let there be at most one record more than 0.65 times
-- 1024. Then `main` ends with EXIT_SUCCESS, without a fault, and a rule is among the lines that it
-- prints exactly if it is the rule of one of the records (rules_of).
pub main-rules_of :
    (r : LogRecord) (entries : List Entry) (before : List Line) (alloc : MainAlloc)
    → AllOther before
    → IsExemplar r
    → IsLog (names (subject_pairs r)) (names (object_pairs r)) (record_entry r ∷ entries)
    → IsEnough alloc
    → 2 ^ 25 * (length (rules_of entries) + 1) ≤ 21810381 * 1024 + 2 ^ 25
    → (printed : List CString) × (main alloc (before ++ map line_of (record_entry r ∷ entries))
        ≡ ok (record { status = exit_success; printed = printed }))
      × ((k : CString) → elem k printed ≡ elem k (rules_of (record_entry r ∷ entries)))
main-rules_of r entries before alloc others simple log enough room =
    let (refused, set, made_set, valid, size, unused, empty) =
      initialize-IsValid 0 (inl refl) (omega arith) in
    let (ctx, made, ready) = main_context-IsReady r alloc log.0 simple enough in
    let constructed = rules_construct-fresh alloc.rules enough.rules set made_set in
    let (set', looped, valid', size', held) =
      main_loop-rules_of (record_entry r ∷ entries) (some set) alloc.add ready log valid enough.add
        (omega (arith, unused, size)) in
    let emitted =
      emit_rules-allow set' set valid'.table.width valid.table.width (omega (arith, size')) in
    (
      keys_of set'.nodes,
      main-run alloc before r (map line_of entries) ctx others log.0.audit made constructed looped
          (main_end-emitted _ emitted),
      λ k. elem-keys_of k set'.nodes ∙ held k ∙ ground (arith, empty k),
    )
