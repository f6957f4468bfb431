-- ===== src/Cli/Main.antt =====
-- `emit_rules` and `main` of cli/fapolicyd-analyzer.c.
pub mod Emit
pub mod Records
pub mod Start
pub mod Log
pub mod Exits
use fapolicyd_analyzer.Base.{
  ℕ, zero, suc, ◌+◌, Bool, true, false, if◌then◌else◌, Option, none, some, List, [], ◌∷◌, ◌++◌,
  CString, length, Outcome, ok, fault, out_of_fuel, ◌>>=◌, ErrorCode, success,
}
use fapolicyd_analyzer.Parse.Context.{Context, is_audit_record, construct_parse_context}
use fapolicyd_analyzer.Parse.Imbue.{ImbueAlloc, imbue_parser}
use fapolicyd_analyzer.Parse.Record.{parse}
use fapolicyd_analyzer.Probe.{Alloc}
use fapolicyd_analyzer.HashSet
use fapolicyd_analyzer.HashSet.{HashSet}
use fapolicyd_analyzer.Cli.{Rules, RulesAlloc, rules_construct, usable, process_record}

-- One loop of `emit_rules`: the lines printed, and `index` behind it.
unfoldable pub emit_loop : (fuel : ℕ) → HashSet → (index : ℕ) → Outcome (List CString × ℕ)
emit_loop zero set index = out_of_fuel
emit_loop (suc fuel) set index = do
  (key, index') ← HashSet.next set index
  elim key [
    | none ↦ ok ([], index')
    | some k ↦ do (lines, last) ← emit_loop fuel set index'; ok (k ∷ lines, last)
  ]

-- `emit_rules`: the lines printed. The second loop goes on with the `index` of the first.
unfoldable pub emit_rules : Rules → Outcome (List CString)
emit_rules rules = do
  allow ← usable rules.allow_rules
  (allow_lines, index) ← emit_loop (allow.number_nodes + 1) allow 0
  deny ← usable rules.deny_rules
  (deny_lines, last) ← emit_loop (deny.number_nodes + 1) deny index
  ok (allow_lines ++ deny_lines)

-- What `getline` puts in its buffer: a line, and what lies behind its terminator.
abbrev pub Line : Type 0
Line = CString × List ℕ

abbrev pub in_buffer : Line → List ℕ
in_buffer (text, stale) = text ++ 0 ∷ stale

-- Which allocations of `main` succeed: those of the context, of its exemplar, of the rules, and of
-- each addition, by the number of the lines left.
pub record MainAlloc : Type 0 where
  pub ctx : Bool
  pub subject : Bool
  pub object : Bool
  pub imbue : ImbueAlloc
  pub rules : RulesAlloc
  pub add : ℕ → Alloc

-- `EXIT_SUCCESS` and `EXIT_FAILURE`
pub data ExitStatus : Type 0 where
  exit_success exit_failure : ExitStatus

-- How `exit` ends the process: its status, and the lines that were printed up to there
pub record Exit : Type 0 where
  pub status : ExitStatus
  pub printed : List CString

-- A part of `main` ends the process by `exit`, or goes on with a value.
pub data Going (A : Type 0) : Type 0 where
  ends : Exit → Going A
  goes_on : A → Going A

-- `exit(EXIT_FAILURE)` where nothing is printed yet
abbrev pub failure : Exit
failure = record { status = exit_failure; printed = [] }

-- The first loop of `main`: the lines from the first audit record on.
unfoldable pub skip_to_record : List Line → List Line
skip_to_record [] = []
skip_to_record ((text, stale) ∷ lines) = elim (is_audit_record text) [
  | true ↦ (text, stale) ∷ lines
  | false ↦ skip_to_record lines
]

-- One round of the second loop
unfoldable pub main_step : Alloc → Context → Rules → Line → Outcome (Going (Context × Rules))
main_step alloc ctx rules line =
    if is_audit_record line.0
    then (do
      (code, ctx', bytes) ← parse ctx (in_buffer line)
      elim code [
        | success ↦ do rules' ← process_record alloc ctx' bytes rules; ok (goes_on (ctx', rules'))
        | other_code ↦ ok (ends failure)
      ])
    else ok (goes_on (ctx, rules))

unfoldable pub main_loop : (ℕ → Alloc) → Context → Rules → List Line → Outcome (Going Rules)
main_loop alloc ctx rules [] = ok (goes_on rules)
main_loop alloc ctx rules (line ∷ lines) = do
  round ← main_step (alloc (length lines)) ctx rules line
  elim round [
    | ends exit ↦ ok (ends exit)
    | goes_on (ctx', rules') ↦ main_loop alloc ctx' rules' lines
  ]

-- the context after `construct_parse_context` and `imbue_parser`
unfoldable pub main_context : MainAlloc → CString → Outcome (Going Context)
main_context alloc exemplar = elim (construct_parse_context alloc.ctx alloc.subject alloc.object) [
  | none ↦ ok (ends failure)
  | some ctx ↦ do
    (code, ctx') ← imbue_parser alloc.imbue ctx exemplar
    elim code [ success ↦ ok (goes_on ctx') | other_code ↦ ok (ends failure) ]
]

-- the end of `main` behind its loop
unfoldable pub main_end : Going Rules → Outcome Exit
main_end (ends exit) = ok exit
main_end (goes_on rules) = do
  printed ← emit_rules rules
  ok (record { status = exit_success; printed = printed })

-- `main` on the lines of an open file: how it ends. Null rules are dereferenced.
unfoldable pub main : MainAlloc → List Line → Outcome Exit
unfolding main_end
main alloc lines = elim (skip_to_record lines) [
  | [] ↦ ok failure
  | line ∷ rest ↦ do
    made ← main_context alloc line.0
    elim made [
      | ends exit ↦ ok exit
      | goes_on ctx ↦ do
        constructed ← rules_construct alloc.rules
        elim constructed [
          | none ↦ fault
          | some rules ↦ do looped ← main_loop alloc.add ctx rules (line ∷ rest); main_end looped
        ]
    ]
]
