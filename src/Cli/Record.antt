-- ===== src/Cli/Record.antt =====
-- `process_record` on a record that was parsed.
use fapolicyd_analyzer.Base.{
  ℕ, ◌≡◌, refl, true, false, Option, none, some, List, CString, codes, ok, arith,
}
use fapolicyd_analyzer.Parse.Context.{Context}
use fapolicyd_analyzer.Parse.Record.{string_at}
use fapolicyd_analyzer.Parse.Format.{Pair}
use fapolicyd_analyzer.Parse.Correct.{HasRead}
use fapolicyd_analyzer.Probe.{Alloc, over_load}
use fapolicyd_analyzer.HashSet.{HashSet}
use fapolicyd_analyzer.HashSet.Valid.{IsValid}
use fapolicyd_analyzer.HashSet.Add.{IsAdded, add-IsAdded}
use fapolicyd_analyzer.Cli.{rule_create, process_record}
use fapolicyd_analyzer.Cli.Values.{
  value_of, LeadsTo, get_subject_value-value_of, get_object_value-value_of,
}

-- Specification: the rule for a record with these fields.
abbrev pub rule_for : (dec perm exe path : CString) → CString
rule_for dec perm exe path = (rule_create 2048 dec perm 1001 exe true path true).1

-- The fields that a rule is made of.
pub record HasFields (ps qs : List Pair) (dec perm exe path : CString) : Type 0 where
  pub dec_field : value_of (codes "dec") ps ≡ some dec
  pub perm_field : value_of (codes "perm") ps ≡ some perm
  pub exe_field : value_of (codes "exe") ps ≡ some exe
  pub path_field : value_of (codes "path") qs ≡ some path

LeadsTo-string_at :
    (bytes : List ℕ) (r : Option ℕ) (v : Option CString) (text : CString)
    → LeadsTo bytes r v
    → v ≡ some text
    → string_at (some bytes) r ≡ ok text
unfolding string_at
LeadsTo-string_at bytes none none text leads e = absurd (ground arith)
LeadsTo-string_at bytes none (some v) text leads e = absurd leads
LeadsTo-string_at bytes (some i) none text leads e = absurd leads
LeadsTo-string_at bytes (some i) (some v) text leads e = ground arith

module _ {exemplar bytes : List ℕ} {ps qs : List Pair} {ctx : Context}
    (has_read : HasRead exemplar bytes ps qs ctx) {dec perm exe path : CString}
    (fields : HasFields ps qs dec perm exe path) {set : HashSet} (valid : IsValid set)
    (deny : Option HashSet) (alloc : Alloc) where
  -- Let a context hold a record that `parse` has read (HasRead) with the fields dec, perm and exe
  -- among its subject and path among its object, the first of each name counting (HasFields), and
  -- let the allow rules be a well-formed set below its load in which a node can be allocated. Then
  -- `process_record` returns without a fault, leaves the deny rules, and adds to the allow rules
  -- the text that `rule_create` prints of these values into its buffer (IsAdded, rule_for).
  pub process_record-IsAdded :
      over_load set.used_nodes set.number_nodes ≡ false
      → alloc.node ≡ true
      → (set' : HashSet) × (process_record alloc ctx bytes
            (record { allow_rules = some set; deny_rules = deny })
          ≡ ok (record { allow_rules = some set'; deny_rules = deny }))
        × IsAdded set (rule_for dec perm exe path) set'
  unfolding process_record
  process_record-IsAdded light allocated =
      let (d, d_run, d_leads) = get_subject_value-value_of has_read (codes "dec") in
      let (p, p_run, p_leads) = get_subject_value-value_of has_read (codes "perm") in
      let (e, e_run, e_leads) = get_subject_value-value_of has_read (codes "exe") in
      let (o, o_run, o_leads) = get_object_value-value_of has_read (codes "path") in
      let d_text = LeadsTo-string_at bytes d _ dec d_leads fields.dec_field in
      let p_text = LeadsTo-string_at bytes p _ perm p_leads fields.perm_field in
      let e_text = LeadsTo-string_at bytes e _ exe e_leads fields.exe_field in
      let o_text = LeadsTo-string_at bytes o _ path o_leads fields.path_field in
      let (set', run, added) =
        add-IsAdded valid (rule_for dec perm exe path) alloc light allocated in
      (set', rw (d_run, p_run, e_run, o_run, d_text, p_text, e_text, o_text, run) refl, added)
