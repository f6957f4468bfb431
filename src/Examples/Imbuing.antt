-- ===== src/Examples/Imbuing.antt =====
-- A call of `imbue_parser` from Python. Objects are numbers: 1 is a wrapped context, 2 a text, 3 the
-- tuple of both.
use fapolicyd_analyzer.Base.{
  ℕ, ◌≡◌, refl, arith, true, lacks, ◌==◌, if◌then◌else◌, none, some, [], ◌∷◌, CString, codes, ok,
  success,
}
use fapolicyd_analyzer.FieldArray.{FieldArray, null}
use fapolicyd_analyzer.Parse.Context.{Context, is_audit_record}
use fapolicyd_analyzer.Parse.Count.{record_text}
use fapolicyd_analyzer.Parse.Format.{Pair, plain, plain_byte, starts, render}
use fapolicyd_analyzer.Parse.Fields.{names}
use fapolicyd_analyzer.Parse.Imbue.{ImbueAlloc}
use fapolicyd_analyzer.Parse.Taken.{imprint}
use fapolicyd_analyzer.Parse.Imbued.{IsReady}
use fapolicyd_analyzer.Bindings.{p_parse_context, Python, py_code, py_int, returns, Heap}
use fapolicyd_analyzer.Bindings.Runtime.{convert_loop}
use fapolicyd_analyzer.Bindings.Ownership.{Live}
use fapolicyd_analyzer.Bindings.Contexts.{
  wrap_imbue_parser, wrap_get_number_of_subject_fields, wrap_get_number_of_object_fields,
}
use fapolicyd_analyzer.Bindings.Imbuing.{wrap_imbue_parser-IsReady}

abbrev rule_pair : Pair
rule_pair = record { key = codes "rule"; value = codes "1" }

abbrev path_pair : Pair
path_pair = record { key = codes "path"; value = codes "/t" }

abbrev text : CString
text = record_text (rule_pair ∷ []) (path_pair ∷ [])

abbrev objects : Python
objects = record {
  Object = ℕ;
  tuple = λ n. if n == 3 then some (1 ∷ 2 ∷ []) else none;
  is_long = λ n. n == 9;
  as_unsigned_long = λ n. none;
  is_unicode = λ n. n == 2;
  as_utf8 = λ n. some text;
  is_none = λ n. n == 0;
  swig_this = λ n. if n == 1 then (p_parse_context, 0) ∷ [] else [];
}

abbrev no_fields : FieldArray
no_fields = record { num_fields = 0; keys = null; values = null }

abbrev heap : Heap
heap = record {
  strings = [];
  arrays = [];
  fields = [];
  contexts = some (record { subject = no_fields; object = no_fields; exemplar = none }) ∷ [];
}

abbrev roomy : ImbueAlloc
roomy = record { buffer = true; subject = λ _. (true, true); object = (true, true) }

wrap_imbue_parser-IsReady_example :
    (heap' : Heap) × (ctx' : Context) × (wrap_imbue_parser objects true roomy (some 3) heap
      ≡ ok (returns (py_code success), heap'))
    × Live heap'.contexts 0 ctx'
    × IsReady
        (imprint (rule_pair ∷ []) (path_pair ∷ []))
        (names (rule_pair ∷ []))
        (names (path_pair ∷ []))
        ctx'
    × (wrap_get_number_of_subject_fields objects (some 1) heap' ≡ ok (returns (py_int 1), heap'))
    × (wrap_get_number_of_object_fields objects (some 1) heap' ≡ ok (returns (py_int 1), heap'))
unfolding convert_loop plain plain_byte starts lacks is_audit_record render
wrap_imbue_parser-IsReady_example =
    wrap_imbue_parser-IsReady objects roomy 3 1 2 heap rule_pair [] path_pair [] refl
      (record { not_none = refl; this = refl }) (record { unicode = refl; utf8 = refl }) refl
      (record { buffer = refl; subject = λ _. refl; object = refl })
      (record { plain_key = refl; plain_value = refl; starting = refl }, tt)
      (record { flat_key = refl; flat_value = refl }, tt)
      (record { plain_key = refl; plain_value = refl; starting = refl }, tt)
      (record { flat_key = refl; flat_value = refl }, tt) (omega arith) (omega arith) refl
