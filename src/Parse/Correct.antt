-- ===== src/Parse/Correct.antt =====
-- `parse` on a line in the format of the log, with a context that was imbued with its keys.
use mathlib.Core.List.{append_assoc}
use mathlib.Core.Path.{subst}
use fapolicyd_analyzer.Base.{
  ℕ, suc, ◌≤◌, ◌≡◌, refl, sym, ap, ◌∙◌, List, [], ◌∷◌, ◌++◌, CString, length, Option, some, ok,
  arith, success,
}
use fapolicyd_analyzer.FieldArray.{FieldArray, block, get_num_fields}
use fapolicyd_analyzer.Parse.Context.{Context}
use fapolicyd_analyzer.Parse.Fields.{KeysMatch, names}
use fapolicyd_analyzer.Parse.Format.{Pair, All, torn, put_values}
use fapolicyd_analyzer.Parse.Reading.{FieldsRead, put_values-FieldsRead, length-put_values}
use fapolicyd_analyzer.Parse.Record.{parse}
use fapolicyd_analyzer.Parse.Steps.{behind_colon}
use fapolicyd_analyzer.Parse.Whole.{record_line, before_parse, after_parse, parsed_bytes, parse_run}

-- A side of the context holds these names, and room for their values.
pub record IsImbued (fa : FieldArray) (exemplar : List ℕ) (keys : List CString) : Type 0 where
  pub values : List (Option ℕ)
  pub written : fa.values ≡ block values
  pub count : get_num_fields fa ≡ length keys
  pub room : length keys ≤ length values
  pub match : KeysMatch exemplar fa.keys 0 keys

-- the names of the pairs, as often as the pairs
pub length-names : (ps : List Pair) → length (names ps) ≡ length ps
length-names [] = refl
length-names (p ∷ ps) = ap suc (length-names ps)

-- What a successful `parse` leaves behind: the accessors give the pairs of the line, and the
-- context is imbued as before.
pub record HasRead (exemplar bytes : List ℕ) (ps qs : List Pair) (ctx : Context) : Type 0 where
  pub keeps_exemplar : ctx.exemplar ≡ some exemplar
  pub subject_read : FieldsRead ctx.subject exemplar bytes 0 ps
  pub object_read : FieldsRead ctx.object exemplar bytes 0 qs
  pub subject_again : IsImbued ctx.subject exemplar (names ps)
  pub object_again : IsImbued ctx.object exemplar (names qs)

module _ {ctx : Context} {exemplar : List ℕ} (p : Pair) (ps : List Pair) (q : Pair) (qs : List Pair)
    (stale : List ℕ) (good_p : All (p ∷ ps)) (good_q : All (q ∷ qs))
    (has_exemplar : ctx.exemplar ≡ some exemplar)
    (sub : IsImbued ctx.subject exemplar (names (p ∷ ps)))
    (obj : IsImbued ctx.object exemplar (names (q ∷ qs))) where
  abbrev parsed : Context
  parsed =
      after_parse exemplar ctx.subject.num_fields ctx.object.num_fields ctx.subject.keys
        ctx.object.keys sub.values obj.values p ps q qs stale

  abbrev bytes : List ℕ
  bytes =
      parsed_bytes exemplar ctx.subject.num_fields ctx.object.num_fields ctx.subject.keys
        ctx.object.keys sub.values obj.values p ps q qs stale

  parsed-HasRead : HasRead exemplar bytes (p ∷ ps) (q ∷ qs) parsed
  parsed-HasRead =
      let one : length (names (p ∷ ps)) ≡ length (p ∷ ps) = length-names (p ∷ ps) in
      let two : length (names (q ∷ qs)) ≡ length (q ∷ qs) = length-names (q ∷ qs) in
      let start = behind_colon (torn (p ∷ ps)) in
      let n_p : get_num_fields parsed.subject ≡ length (p ∷ ps) =
        unfold get_num_fields in ground (arith, sub.count, one) in
      let n_q : get_num_fields parsed.object ≡ length (q ∷ qs) =
        unfold get_num_fields in ground (arith, obj.count, two) in
      let behind : List ℕ = b':' ∷ b' ' ∷ (torn (q ∷ qs) ++ 0 ∷ 0 ∷ stale) in
      let same : [] ++ (torn (p ∷ ps) ++ 0 ∷ behind) ≡ bytes = simp append_assoc in
      record {
        keeps_exemplar = refl;
        subject_read =
            subst (λ b. FieldsRead parsed.subject exemplar b 0 (p ∷ ps)) same
              (put_values-FieldsRead parsed.subject exemplar (p ∷ ps) [] behind 0 sub.values good_p
                sub.match (omega arith) (omega (arith, sub.room)) refl);
        object_read =
            put_values-FieldsRead parsed.object exemplar (q ∷ qs) start (0 ∷ stale) 0 obj.values
              good_q obj.match (omega arith) (omega (arith, obj.room)) refl;
        subject_again = record {
          values = put_values 0 0 (p ∷ ps) sub.values;
          written = refl;
          count = n_p ∙ sym one;
          room = omega (arith, sub.room, length-put_values 0 0 (p ∷ ps) sub.values);
          match = sub.match;
        };
        object_again = record {
          values = put_values (length start) 0 (q ∷ qs) obj.values;
          written = refl;
          count = n_q ∙ sym two;
          room = omega (arith, obj.room, length-put_values (length start) 0 (q ∷ qs) obj.values);
          match = obj.match;
        };
      }

  -- Let a context hold an exemplar, and let its subject array be imbued (IsImbued) with the keys of
  -- the pairs `p, ps` and its object array with those of `q, qs`; let every key and value be free
  -- of NUL, of `=` and of space, and let no key be empty or begin with a colon. Then `parse` on the
  -- line `key=value … : key=value …` with its newline and terminator returns OK without a fault;
  -- afterwards `get_subject_field` and `get_object_field` read each key with its value out of the
  -- line, in its order (FieldsRead), and both arrays are imbued as before, so that the next line
  -- can be parsed.
  pub parse-HasRead :
      (result : Context) × (bytes : List ℕ) × (parse ctx (record_line (p ∷ ps) (q ∷ qs) stale)
        ≡ ok (success, result, bytes))
      × HasRead exemplar bytes (p ∷ ps) (q ∷ qs) result
  parse-HasRead =
      let one : length (names (p ∷ ps)) ≡ length (p ∷ ps) = length-names (p ∷ ps) in
      let two : length (names (q ∷ qs)) ≡ length (q ∷ qs) = length-names (q ∷ qs) in
      let shape : before_parse exemplar ctx.subject.num_fields ctx.object.num_fields
            ctx.subject.keys ctx.object.keys sub.values obj.values p ps q qs stale
          ≡ ctx =
        ground (arith, sub.written, obj.written, has_exemplar) in
      let run =
        parse_run exemplar ctx.subject.num_fields ctx.object.num_fields ctx.subject.keys
          ctx.object.keys sub.values obj.values p ps q qs stale good_p good_q sub.match obj.match
          (omega (arith, sub.room)) (omega (arith, obj.room))
          (unfold get_num_fields in ground (arith, sub.count, one))
          (unfold get_num_fields in ground (arith, obj.count, two)) in
      (
        parsed,
        bytes,
        subst (λ c. parse c (record_line (p ∷ ps) (q ∷ qs) stale) ≡ ok (success, parsed, bytes))
            shape run,
        parsed-HasRead,
      )
