-- ===== src/Cli.antt =====
-- cli/fapolicyd-analyzer.c: reads the log and prints an allow rule for each kind of access in it.
pub mod Values
pub mod Record
pub mod Main
use fapolicyd_analyzer.Base.{
  ℕ, zero, suc, ◌+◌, ◌-◌, ◌/◌, ◌%◌, ◌^◌, Bool, true, false, ◌==◌, if◌then◌else◌, Option, none, some,
  List, [], ◌∷◌, ◌++◌, CString, codes, decimal, str_eq, length, take, Outcome, ok, aborted, fault,
  out_of_fuel, ◌>>=◌, ErrorCode, success,
}
use fapolicyd_analyzer.FieldArray.{Field}
use fapolicyd_analyzer.Parse.Context.{
  Context, get_subject_field, get_object_field, get_number_of_subject_fields,
  get_number_of_object_fields, is_audit_record, construct_parse_context,
}
use fapolicyd_analyzer.Parse.Imbue.{ImbueAlloc, imbue_parser}
use fapolicyd_analyzer.Parse.Record.{string_at, parse}
use fapolicyd_analyzer.Probe.{Alloc}
use fapolicyd_analyzer.HashSet
use fapolicyd_analyzer.HashSet.{HashSet}

-- `rules_t`. A set whose array could not be allocated is `none`: what it holds is not defined.
pub record Rules : Type 0 where
  pub allow_rules : Option HashSet
  pub deny_rules : Option HashSet

-- `hash_set_construct` and then `hash_set_initialize`, whose result is ignored
unfoldable pub new_set : (allocated nodes_allocated : Bool) → Outcome (Option HashSet)
new_set allocated nodes_allocated =
    if allocated then ok (HashSet.initialize nodes_allocated 0) else fault

-- Which allocations of `rules_construct` succeed.
pub record RulesAlloc : Type 0 where
  pub rules : Bool
  pub allow : Bool
  pub deny : Bool
  pub allow_nodes : Bool
  pub deny_nodes : Bool

-- `rules_construct`; a null pointer is `none`
unfoldable pub rules_construct : RulesAlloc → Outcome (Option Rules)
rules_construct alloc =
    if alloc.rules
    then (do
      allow ← new_set alloc.allow alloc.allow_nodes
      deny ← new_set alloc.deny alloc.deny_nodes
      ok (some (record { allow_rules = allow; deny_rules = deny })))
    else ok none

-- The loop of `get_subject_value` and `get_object_value`: the first field with the key.
unfoldable pub value_loop :
    (ℕ → Outcome (ErrorCode × Option Field))
    → Option (List ℕ)
    → CString
    → (fuel field_number : ℕ) → Outcome (Option ℕ)
value_loop get_field exemplar key zero field_number = out_of_fuel
value_loop get_field exemplar key (suc fuel) field_number = do
  (code, field) ← get_field field_number
  elim code [
    | success ↦ elim field [
      | none ↦ fault
      | some f ↦ do
        name ← string_at exemplar f.key
        elim (str_eq name key) [
          | true ↦ ok f.value
          | false ↦ value_loop get_field exemplar key fuel (field_number + 1)
        ]
    ]
    | other_code ↦ ok none
  ]

-- `get_subject_value`
unfoldable pub get_subject_value : Context → CString → Outcome (Option ℕ)
get_subject_value ctx key =
    value_loop (get_subject_field ctx) ctx.exemplar key (get_number_of_subject_fields ctx + 1) 0

-- `get_object_value`
unfoldable pub get_object_value : Context → CString → Outcome (Option ℕ)
get_object_value ctx key =
    value_loop (get_object_field ctx) ctx.exemplar key (get_number_of_object_fields ctx + 1) 0

-- the text that the format of `rule_create` stands for
unfoldable pub rule_text : CString → CString → ℕ → CString → Bool → CString → Bool → CString
rule_text dec perm uid exe trust_subject path trust_object =
    let sub_trust = if trust_subject then codes " trust=1" else codes "" in
    let obj_trust = if trust_object then codes " trust=1" else codes "" in
    dec
    ++ (codes " perm="
        ++ (perm
            ++ (codes " auid="
                ++ (decimal uid
                    ++ (codes " exe="
                        ++ (exe ++ (sub_trust ++ (codes " : path=" ++ (path ++ obj_trust)))))))))

-- what `snprintf` writes to a buffer of `size` bytes: a byte less, for the terminator
unfoldable pub printed : (size : ℕ) → CString → CString
printed size text = take (size - 1) text

-- `rule_create`: what it returns, and the string in the buffer
unfoldable pub rule_create :
    (buf_len : ℕ) → CString → CString → ℕ → CString → Bool → CString → Bool → ℕ × CString
rule_create buf_len dec perm uid exe trust_subject path trust_object =
    let text = rule_text dec perm uid exe trust_subject path trust_object in
    (length text, printed ((buf_len + 2 ^ 64 - 1) % 2 ^ 64) text)

-- the set, if it has an array
abbrev pub usable : Option HashSet → Outcome HashSet
usable none = fault
usable (some set) = ok set

-- `process_record` on the line that was parsed last. Printing a null string is not defined.
unfoldable pub process_record : Alloc → Context → (line : List ℕ) → Rules → Outcome Rules
process_record alloc ctx line rules = do
  dec ← get_subject_value ctx (codes "dec")
  perm ← get_subject_value ctx (codes "perm")
  exe ← get_subject_value ctx (codes "exe")
  path ← get_object_value ctx (codes "path")
  dec_text ← string_at (some line) dec
  perm_text ← string_at (some line) perm
  exe_text ← string_at (some line) exe
  path_text ← string_at (some line) path
  set ← usable rules.allow_rules
  (code, set') ←
      HashSet.add alloc set
        (rule_create 2048 dec_text perm_text 1001 exe_text true path_text true).1
  ok (record rules { allow_rules = some set' })
