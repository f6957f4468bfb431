-- ===== src/Examples/Rules.antt =====
-- A record that becomes a rule, and the rules that are printed.
use fapolicyd_analyzer.Base.{
  ℕ, ◌≡◌, refl, arith, true, none, some, Option, str_eq, List, [], ◌∷◌, ◌++◌, codes, ok,
}
use fapolicyd_analyzer.FieldArray.{block, load, get_num_fields}
use fapolicyd_analyzer.Parse.Context.{Context}
use fapolicyd_analyzer.Parse.Cursor.{cstring_at, until_nul}
use fapolicyd_analyzer.Parse.Format.{Pair, All, plain, plain_byte, starts}
use fapolicyd_analyzer.Parse.Fields.{names}
use fapolicyd_analyzer.Parse.Correct.{IsImbued, HasRead, parse-HasRead}
use fapolicyd_analyzer.Probe.{Alloc, over_load}
use fapolicyd_analyzer.HashSet.{HashSet, new_node}
use fapolicyd_analyzer.Probe.Fresh.{vacant}
use fapolicyd_analyzer.Probe.Next.{stored}
use fapolicyd_analyzer.HashSet.Add.{IsAdded}
use fapolicyd_analyzer.HashSet.Run.{vacant_set-IsValid}
use fapolicyd_analyzer.Cli.{get_subject_value, process_record}
use fapolicyd_analyzer.Cli.Values.{value_of, LeadsTo, get_subject_value-value_of}
use fapolicyd_analyzer.Cli.Record.{HasFields, rule_for, process_record-IsAdded}
use fapolicyd_analyzer.Cli.Main.{emit_rules}
use fapolicyd_analyzer.Cli.Main.Emit.{emit_rules-keys_of}

-- dec=x perm=x exe=x : path=x, as `imbue_parser` leaves it
abbrev exemplar : List ℕ
exemplar =
    codes "dec"
    ++ 0
      ∷ (codes "x perm"
          ++ 0 ∷ (codes "x exe" ++ 0 ∷ (codes "x : path" ++ 0 ∷ (b'x' ∷ b'\n' ∷ 0 ∷ []))))

abbrev imbued : Context
imbued = record {
  subject = record {
    num_fields = 3;
    keys = block (some 0 ∷ some 6 ∷ some 13 ∷ none ∷ []);
    values = block (none ∷ none ∷ none ∷ none ∷ []);
  };
  object = record {
    num_fields = 1;
    keys = block (some 21 ∷ none ∷ []);
    values = block (none ∷ none ∷ []);
  };
  exemplar = some exemplar;
}

abbrev dec_pair : Pair
dec_pair = record { key = codes "dec"; value = codes "allow" }

abbrev perm_pair : Pair
perm_pair = record { key = codes "perm"; value = codes "open" }

abbrev exe_pair : Pair
exe_pair = record { key = codes "exe"; value = codes "/bin/sh" }

abbrev path_pair : Pair
path_pair = record { key = codes "path"; value = codes "/tmp/x" }

abbrev subject_pairs : List Pair
subject_pairs = dec_pair ∷ perm_pair ∷ exe_pair ∷ []

subject_pairs-All : All subject_pairs
unfolding plain plain_byte starts
subject_pairs-All = (
  record { plain_key = refl; plain_value = refl; starting = refl },
  (
    record { plain_key = refl; plain_value = refl; starting = refl },
    (record { plain_key = refl; plain_value = refl; starting = refl }, tt),
  ),
)

path_pair-All : All (path_pair ∷ [])
unfolding plain plain_byte starts
path_pair-All = (record { plain_key = refl; plain_value = refl; starting = refl }, tt)

subject-IsImbued : IsImbued imbued.subject exemplar (names subject_pairs)
unfolding get_num_fields load cstring_at until_nul
subject-IsImbued = record {
  values = none ∷ none ∷ none ∷ none ∷ [];
  written = refl;
  count = refl;
  room = omega arith;
  match = ((0, refl, refl), ((6, refl, refl), ((13, refl, refl), tt)));
}

object-IsImbued : IsImbued imbued.object exemplar (names (path_pair ∷ []))
unfolding get_num_fields load cstring_at until_nul
object-IsImbued = record {
  values = none ∷ none ∷ [];
  written = refl;
  count = refl;
  room = omega arith;
  match = ((21, refl, refl), tt);
}

-- the record as `parse` leaves it
record_read :
    (ctx : Context) × (bytes : List ℕ) × HasRead exemplar bytes subject_pairs (path_pair ∷ []) ctx
record_read =
    let (ctx, bytes, run, has_read) =
      parse-HasRead dec_pair (perm_pair ∷ exe_pair ∷ []) path_pair [] (b'?' ∷ []) subject_pairs-All
        path_pair-All refl subject-IsImbued object-IsImbued in
    (ctx, bytes, has_read)

get_subject_value-value_of_example :
    (r : Option ℕ) × (get_subject_value record_read.0 (codes "exe") ≡ ok r)
    × LeadsTo record_read.1 r (value_of (codes "exe") subject_pairs)
get_subject_value-value_of_example = get_subject_value-value_of record_read.2 (codes "exe")

has_fields :
    HasFields subject_pairs
      (path_pair ∷ [])
      (codes "allow")
      (codes "open")
      (codes "/bin/sh")
      (codes "/tmp/x")
unfolding value_of str_eq
has_fields = record { dec_field = refl; perm_field = refl; exe_field = refl; path_field = refl }

abbrev enough : Alloc
enough = record { realloc = true; move = λ i. true; node = true }

process_record-IsAdded_example :
    (set' : HashSet) × (process_record enough record_read.0 record_read.1
        (record { allow_rules = some (vacant 3); deny_rules = none })
      ≡ ok (record { allow_rules = some set'; deny_rules = none }))
    × IsAdded
        (vacant 3)
        (rule_for (codes "allow") (codes "open") (codes "/bin/sh") (codes "/tmp/x"))
        set'
unfolding over_load
process_record-IsAdded_example =
    process_record-IsAdded record_read.2 has_fields
      (vacant_set-IsValid 3 (omega arith) (omega arith)) none enough refl refl

abbrev allow : HashSet
allow = record { nodes = some (new_node (codes "p")) ∷ none ∷ []; number_nodes = 2; used_nodes = 1 }

abbrev deny : HashSet
deny = record {
  nodes = some (new_node (codes "q")) ∷ none ∷ some (new_node (codes "r")) ∷ [];
  number_nodes = 3;
  used_nodes = 2;
}

-- the rule q of the second set is not printed
emit_rules-keys_of_example :
    emit_rules (record { allow_rules = some allow; deny_rules = some deny })
    ≡ ok (codes "p" ∷ codes "r" ∷ [])
unfolding stored
emit_rules-keys_of_example = emit_rules-keys_of allow deny refl refl
