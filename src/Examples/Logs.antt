-- ===== src/Examples/Logs.antt =====
-- A log of two lines, of which the second is a record.
use fapolicyd_analyzer.Base.{
  ◌≡◌, refl, arith, true, false, none, str_eq, lacks, List, [], ◌∷◌, ◌++◌, map, CString, codes, ok,
  success,
}
use fapolicyd_analyzer.FieldArray.{null}
use fapolicyd_analyzer.Parse.Context.{Context, is_audit_record}
use fapolicyd_analyzer.Parse.Imbue.{imbue_parser}
use fapolicyd_analyzer.Parse.Format.{Pair, plain, plain_byte, starts, render}
use fapolicyd_analyzer.Parse.Fields.{names}
use fapolicyd_analyzer.Parse.Taken.{imprint}
use fapolicyd_analyzer.Parse.Imbued.{IsReady, imbue_parser-IsReady}
use fapolicyd_analyzer.HashSet.Run.{elem}
use fapolicyd_analyzer.Cli.Values.{value_of}
use fapolicyd_analyzer.Parse.Refused.{Refused, few_subjects}
use fapolicyd_analyzer.Cli.Main.{Line, MainAlloc, in_buffer, exit_success, failure, main}
use fapolicyd_analyzer.Cli.Main.Exits.{main-Refused}
use fapolicyd_analyzer.Cli.Main.Records.{
  LogRecord, record_entry, other_entry, record_text, line_of, rules_of, subject_pairs, object_pairs,
  IsRecord,
}
use fapolicyd_analyzer.Cli.Main.Start.{IsEnough, IsExemplar}
use fapolicyd_analyzer.Cli.Main.Log.{main-rules_of}

abbrev pair : CString → CString → Pair
pair key value = record { key = key; value = value }

abbrev shell : LogRecord
shell = record {
  first_subject = pair (codes "rule") (codes "1");
  more_subject =
      pair (codes "dec") (codes "allow")
      ∷ pair (codes "perm") (codes "open")
      ∷ pair (codes "exe") (codes "/b")
      ∷ [];
  first_object = pair (codes "path") (codes "/t");
  more_object = [];
  dec = codes "allow";
  perm = codes "open";
  exe = codes "/b";
  path = codes "/t";
  stale = [];
}

abbrev noise : Line
noise = (codes "x", [])

abbrev plenty : MainAlloc
plenty = record {
  ctx = true;
  subject = true;
  object = true;
  imbue = record { buffer = true; subject = λ _. (true, true); object = (true, true) };
  rules = record { rules = true; allow = true; deny = true; allow_nodes = true; deny_nodes = true };
  add = λ _. record { realloc = true; move = λ _. true; node = true };
}

shell-IsRecord : IsRecord (names (subject_pairs shell)) (names (object_pairs shell)) shell
unfolding plain plain_byte starts render is_audit_record value_of str_eq
shell-IsRecord = record {
  subject_good = (
    record { plain_key = refl; plain_value = refl; starting = refl },
    (
      record { plain_key = refl; plain_value = refl; starting = refl },
      (
        record { plain_key = refl; plain_value = refl; starting = refl },
        (record { plain_key = refl; plain_value = refl; starting = refl }, tt),
      ),
    ),
  );
  object_good = (record { plain_key = refl; plain_value = refl; starting = refl }, tt);
  subject_keys = refl;
  object_keys = refl;
  audit = refl;
  said = record { dec_field = refl; perm_field = refl; exe_field = refl; path_field = refl };
}

shell-IsExemplar : IsExemplar shell
unfolding lacks
shell-IsExemplar = record {
  flat_subject = (
    record { flat_key = refl; flat_value = refl },
    (
      record { flat_key = refl; flat_value = refl },
      (
        record { flat_key = refl; flat_value = refl },
        (record { flat_key = refl; flat_value = refl }, tt),
      ),
    ),
  );
  flat_object = (record { flat_key = refl; flat_value = refl }, tt);
  few_subject = omega arith;
  few_object = omega arith;
}

plenty-IsEnough : IsEnough plenty
plenty-IsEnough = record {
  ctx = refl;
  subject = refl;
  object = refl;
  imbue = record { buffer = refl; subject = λ _. refl; object = refl };
  rules = refl;
  add = λ _. refl;
}

-- a context as `construct_parse_context` returns it
abbrev blank : Context
blank = record {
  subject = record { num_fields = 0; keys = null; values = null };
  object = record { num_fields = 0; keys = null; values = null };
  exemplar = none;
}

noise_other : is_audit_record (codes "x") ≡ false
unfolding is_audit_record
noise_other = refl

main-rules_of_example :
    (printed : List CString) × (main plenty
        (noise ∷ map line_of (record_entry shell ∷ other_entry noise ∷ []))
      ≡ ok (record { status = exit_success; printed = printed }))
    × ((k : CString)
        → elem k printed ≡ elem k (rules_of (record_entry shell ∷ other_entry noise ∷ [])))
main-rules_of_example =
    main-rules_of shell (other_entry noise ∷ []) (noise ∷ []) plenty (noise_other, tt)
      shell-IsExemplar (shell-IsRecord, (noise_other, tt)) plenty-IsEnough (omega arith)

imbue_parser-IsReady_example :
    (ctx : Context) × (imbue_parser plenty.imbue blank (record_text shell) ≡ ok (success, ctx))
    × IsReady
        (imprint (subject_pairs shell) (object_pairs shell))
        (names (subject_pairs shell))
        (names (object_pairs shell))
        ctx
imbue_parser-IsReady_example =
    imbue_parser-IsReady plenty.imbue blank shell.first_subject shell.more_subject
      shell.first_object shell.more_object plenty-IsEnough.imbue shell-IsRecord.subject_good
      shell-IsExemplar.flat_subject shell-IsRecord.object_good shell-IsExemplar.flat_object
      shell-IsExemplar.few_subject shell-IsExemplar.few_object shell-IsRecord.audit

-- the record rule=1 : path=/t, which has too few fields
abbrev short : Line
short = (codes "rule=1 : path=/t" ++ b'\n' ∷ [], [])

short-audit : is_audit_record short.0 ≡ true
unfolding is_audit_record
short-audit = refl

short-Refused : Refused (names (subject_pairs shell)) (names (object_pairs shell)) (in_buffer short)
unfolding plain plain_byte starts render
short-Refused =
    few_subjects (pair (codes "rule") (codes "1")) [] (codes "dec")
      (codes "perm" ∷ codes "exe" ∷ []) (codes "path" ∷ []) 0 (codes " path=/t" ++ b'\n' ∷ []) []
      (record { plain_key = refl; plain_value = refl; starting = refl }, tt)

main-Refused_example :
    main plenty
      (noise ∷ (map line_of (record_entry shell ∷ other_entry noise ∷ []) ++ short ∷ noise ∷ []))
    ≡ ok failure
main-Refused_example =
    main-Refused shell (other_entry noise ∷ []) (noise ∷ []) short (noise ∷ []) plenty
      (noise_other, tt) shell-IsExemplar (shell-IsRecord, (noise_other, tt)) short-audit
      short-Refused plenty-IsEnough (omega arith)
