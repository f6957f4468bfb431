-- ===== src/Cli/Main/Exits.antt =====
-- `main` over a log in which a record is refused.
use fapolicyd_analyzer.Base.{
  ℕ, ◌+◌, ◌*◌, ◌^◌, ◌≤◌, ◌≡◌, refl, true, Option, some, List, [], ◌∷◌, ◌++◌, map, CString, length,
  inl, ok, arith,
}
use fapolicyd_analyzer.Parse.Context.{Context, is_audit_record}
use fapolicyd_analyzer.Parse.Fields.{names}
use fapolicyd_analyzer.Parse.Imbued.{IsReady}
use fapolicyd_analyzer.Parse.Refused.{Refused, parse-Refused}
use fapolicyd_analyzer.Probe.{Alloc}
use fapolicyd_analyzer.HashSet.{HashSet}
use fapolicyd_analyzer.HashSet.Valid.{IsValid}
use fapolicyd_analyzer.HashSet.Run.{light_enough, initialize-IsValid}
use fapolicyd_analyzer.Cli.{Rules}
use fapolicyd_analyzer.Cli.Main.{
  Line, MainAlloc, in_buffer, ends, failure, main_step, main_loop, main_end, main,
}
use fapolicyd_analyzer.Cli.Main.Start.{
  AllOther, IsEnough, IsExemplar, rules_construct-fresh, main-run, main_context-IsReady,
}
use fapolicyd_analyzer.Cli.Main.Records.{
  LogRecord, Entry, record_entry, other_entry, subject_pairs, object_pairs, line_of, rules_of,
  IsLog, main_step-other, main_step-record,
}

-- A round on a record that is refused ends the process.
main_step-Refused :
    {exemplar : List ℕ} {subjects objects : List CString} {ctx : Context}
    → IsReady exemplar subjects objects ctx
    → (line : Line) → is_audit_record line.0 ≡ true
    → Refused subjects objects (in_buffer line)
    → (alloc : Alloc) (rules : Rules) → main_step alloc ctx rules line ≡ ok (ends failure)
unfolding main_step
main_step-Refused {ctx = ctx} ready line audit refused alloc rules =
    let (ctx', bytes, run) = parse-Refused ready (in_buffer line) refused in rw (audit, run) refl

main_loop-Refused :
    {exemplar : List ℕ} {subjects objects : List CString}
    → (entries : List Entry) (line : Line) (rest : List Line) → is_audit_record line.0 ≡ true
    → Refused subjects objects (in_buffer line)
    → {ctx : Context} {set : HashSet} (deny : Option HashSet) (alloc : ℕ → Alloc)
    → IsReady exemplar subjects objects ctx
    → IsLog subjects objects entries
    → IsValid set
    → ((i : ℕ) → (alloc i).node ≡ true)
    → 2 ^ 25 * (set.used_nodes + length (rules_of entries)) ≤ 21810381 * set.number_nodes + 2 ^ 25
    → main_loop alloc ctx
        (record { allow_rules = some set; deny_rules = deny })
        (map line_of entries ++ line ∷ rest)
      ≡ ok (ends failure)
unfolding main_loop
main_loop-Refused [] line rest audit refused deny alloc ready log valid allocated room =
    rw (main_step-Refused ready line audit refused (alloc (length rest)) _) refl
main_loop-Refused (other_entry other ∷ entries) line rest audit refused {ctx} {set} deny alloc ready
      (is_other, log) valid allocated room =
    rw
      (main_step-other (alloc (length (map line_of entries ++ line ∷ rest))) ctx
        (record { allow_rules = some set; deny_rules = deny }) other is_other)
      (main_loop-Refused entries line rest audit refused deny alloc ready log valid allocated room)
main_loop-Refused (record_entry r ∷ entries) line rest audit refused {ctx} {set} deny alloc ready
      (good, log) valid allocated room =
    let (ctx₁, set₁, run, ready₁, added) =
      main_step-record ready r good valid deny (alloc (length (map line_of entries ++ line ∷ rest)))
        (light_enough set.used_nodes set.number_nodes (omega arith)) (allocated _) in
    let onward =
      main_loop-Refused entries line rest audit refused deny alloc ready₁ log added.valid allocated
        (ground (arith, added.counted, added.size)) in
    rw run onward

-- Let a log begin as one whose rules are printed: with lines that are no audit records, a record
-- without colons in its keys and values that gives the expected keys (IsExemplar), and lines that
-- are records with these keys or no audit records (IsLog), with enough memory and at most one
-- record more than 0.65 times 1024. If an audit record follows that is one of the four kinds of
-- line of Refused (the layout given there, with a field of another name than the expected one, or
-- with the last fields of a side missing, though not all of them), `main` ends by `exit` with
-- EXIT_FAILURE and prints nothing (`failure`), without a fault: neither the rules of the records in
-- front of it nor anything of what stands behind it.
pub main-Refused :
    (r : LogRecord) (entries : List Entry) (before : List Line) (line : Line) (rest : List Line)
    (alloc : MainAlloc)
    → AllOther before
    → IsExemplar r
    → IsLog (names (subject_pairs r)) (names (object_pairs r)) (record_entry r ∷ entries)
    → is_audit_record line.0 ≡ true
    → Refused (names (subject_pairs r)) (names (object_pairs r)) (in_buffer line)
    → IsEnough alloc
    → 2 ^ 25 * (length (rules_of entries) + 1) ≤ 21810381 * 1024 + 2 ^ 25
    → main alloc (before ++ (map line_of (record_entry r ∷ entries) ++ line ∷ rest)) ≡ ok failure
main-Refused r entries before line rest alloc others simple log audit refused enough room =
    let (no_memory, set, made_set, valid, size, unused, empty) =
      initialize-IsValid 0 (inl refl) (omega arith) in
    let (ctx, made, ready) = main_context-IsReady r alloc log.0 simple enough in
    let constructed = rules_construct-fresh alloc.rules enough.rules set made_set in
    let looped =
      main_loop-Refused (record_entry r ∷ entries) line rest audit refused (some set) alloc.add
        ready log valid enough.add (omega (arith, unused, size)) in
    main-run alloc before r (map line_of entries ++ line ∷ rest) ctx others log.0.audit made
      constructed looped (unfold main_end in refl)
