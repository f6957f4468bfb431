-- ===== src/Examples/Lines.antt =====
-- A line of the log, imbued and parsed.
use fapolicyd_analyzer.Base.{
  ℕ, ◌≡◌, refl, arith, true, none, some, List, [], ◌∷◌, ◌++◌, CString, codes, str_eq, ok, success,
}
use fapolicyd_analyzer.FieldArray
use fapolicyd_analyzer.FieldArray.{FieldArray, null, block, set_key, store, load, get_num_fields}
use fapolicyd_analyzer.Parse.Context.{Context, is_rule, is_audit_record}
use fapolicyd_analyzer.Parse.Cursor.{cstring_at, until_nul, read, advance, terminate, skip_spaces}
use fapolicyd_analyzer.Parse.Imbue.{
  ImbueAlloc, imbue_parser, imbue_buffer, count_fields, initialize_side, set_keys,
}
use fapolicyd_analyzer.Parse.Record.{parse}
use fapolicyd_analyzer.Parse.Format.{Pair, All, plain, plain_byte, starts, render}
use fapolicyd_analyzer.Parse.Fields.{names}
use fapolicyd_analyzer.Parse.Imbued.{IsReady}
use fapolicyd_analyzer.Parse.Reject.{lead}
use fapolicyd_analyzer.Parse.Refusing.{Refuses}
use fapolicyd_analyzer.Parse.Refused.{wrong_object, parse-Refused}
use fapolicyd_analyzer.Parse.Whole.{record_line}
use fapolicyd_analyzer.Parse.Correct.{IsImbued, HasRead, parse-HasRead}

abbrev fresh_fields : FieldArray
fresh_fields = record { num_fields = 0; keys = null; values = null }

abbrev fresh : Context
fresh = record { subject = fresh_fields; object = fresh_fields; exemplar = none }

abbrev enough : ImbueAlloc
enough = record { buffer = true; subject = λ _. (true, true); object = (true, true) }

abbrev first_line : CString
first_line = codes "rule=1 dec=allow : path=/x ftype=y" ++ b'\n' ∷ []

-- the first line as `imbue_parser` leaves it
abbrev exemplar : List ℕ
exemplar =
    codes "rule"
    ++ 0
      ∷ (codes "1 dec"
          ++ 0 ∷ (codes "allow : path" ++ 0 ∷ (codes "/x ftype" ++ 0 ∷ (b'y' ∷ b'\n' ∷ 0 ∷ []))))

abbrev imbued : Context
imbued = record {
  subject = record {
    num_fields = 2;
    keys = block (some 0 ∷ some 7 ∷ none ∷ []);
    values = block (none ∷ none ∷ none ∷ []);
  };
  object = record {
    num_fields = 2;
    keys = block (some 19 ∷ some 27 ∷ none ∷ []);
    values = block (none ∷ none ∷ none ∷ []);
  };
  exemplar = some exemplar;
}

imbued_run : imbue_parser enough fresh first_line ≡ ok (success, imbued)
unfolding imbue_parser is_rule is_audit_record imbue_buffer count_fields initialize_side
    FieldArray.initialize set_key store set_keys read advance terminate skip_spaces
imbued_run = refl

abbrev pair : CString → CString → Pair
pair key value = record { key = key; value = value }

-- the second line: rule=12 dec=deny : path=/tmp/x ftype=z
abbrev rule_pair : Pair
rule_pair = pair (codes "rule") (codes "12")

abbrev dec_pair : Pair
dec_pair = pair (codes "dec") (codes "deny")

abbrev path_pair : Pair
path_pair = pair (codes "path") (codes "/tmp/x")

abbrev ftype_pair : Pair
ftype_pair = pair (codes "ftype") (codes "z")

pairs_good : All (rule_pair ∷ dec_pair ∷ []) × All (path_pair ∷ ftype_pair ∷ [])
unfolding plain plain_byte starts
pairs_good = (
  (
    record { plain_key = refl; plain_value = refl; starting = refl },
    (record { plain_key = refl; plain_value = refl; starting = refl }, tt),
  ),
  (
    record { plain_key = refl; plain_value = refl; starting = refl },
    (record { plain_key = refl; plain_value = refl; starting = refl }, tt),
  ),
)

subject-IsImbued : IsImbued imbued.subject exemplar (names (rule_pair ∷ dec_pair ∷ []))
unfolding get_num_fields load cstring_at until_nul
subject-IsImbued = record {
  values = none ∷ none ∷ none ∷ [];
  written = refl;
  count = refl;
  room = omega arith;
  match = ((0, refl, refl), ((7, refl, refl), tt));
}

object-IsImbued : IsImbued imbued.object exemplar (names (path_pair ∷ ftype_pair ∷ []))
unfolding get_num_fields load cstring_at until_nul
object-IsImbued = record {
  values = none ∷ none ∷ none ∷ [];
  written = refl;
  count = refl;
  room = omega arith;
  match = ((19, refl, refl), ((27, refl, refl), tt));
}

imbued-IsReady :
    IsReady exemplar
      (names (rule_pair ∷ dec_pair ∷ []))
      (names (path_pair ∷ ftype_pair ∷ []))
      imbued
imbued-IsReady = record {
  has_exemplar = refl;
  subject_imbued = subject-IsImbued;
  object_imbued = object-IsImbued;
}

parse-HasRead_example :
    (result : Context) × (bytes : List ℕ) × (parse imbued
        (record_line (rule_pair ∷ dec_pair ∷ []) (path_pair ∷ ftype_pair ∷ []) (b'?' ∷ []))
      ≡ ok (success, result, bytes))
    × HasRead exemplar bytes (rule_pair ∷ dec_pair ∷ []) (path_pair ∷ ftype_pair ∷ []) result
parse-HasRead_example =
    parse-HasRead rule_pair (dec_pair ∷ []) path_pair (ftype_pair ∷ []) (b'?' ∷ []) pairs_good.0
      pairs_good.1 refl subject-IsImbued object-IsImbued

-- the line rule=12 dec=deny : path=/tmp/x type=z
parse-Refused_example : Refuses imbued (
    render (rule_pair ∷ dec_pair ∷ [])
    ++ b' ' ∷ b':' ∷ b' ' ∷ (lead (path_pair ∷ []) ++ (codes "type" ++ b'=' ∷ codes "z")))
unfolding plain plain_byte starts str_eq
parse-Refused_example = parse-Refused imbued-IsReady _ (
    wrong_object rule_pair (dec_pair ∷ []) (path_pair ∷ []) (codes "ftype") (codes "type") []
      (codes "z") pairs_good.0 (pairs_good.1.0, tt) refl refl refl)
