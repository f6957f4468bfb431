-- ===== src/Parse/Refused.antt =====
-- The lines that `parse` refuses.
use mathlib.Core.Path.{subst}
use fapolicyd_analyzer.Base.{
  ℕ, replicate, ◌<◌, ◌≡◌, ◌∙◌, true, false, List, ◌∷◌, ◌++◌, CString, str_eq, length, length-append,
  Option, some, arith,
}
use fapolicyd_analyzer.FieldArray.{Block, block, get_num_fields}
use fapolicyd_analyzer.Parse.Context.{Context}
use fapolicyd_analyzer.Parse.Fields.{arr, KeysMatch, names}
use fapolicyd_analyzer.Parse.Format.{Pair, All, plain, starts, render}
use fapolicyd_analyzer.Parse.Whole.{record_line}
use fapolicyd_analyzer.Parse.Correct.{length-names}
use fapolicyd_analyzer.Parse.Imbued.{IsReady}
use fapolicyd_analyzer.Parse.Refusing.{
  Refuses, start, parse-wrong_subject, parse-few_subjects, parse-wrong_object, parse-few_objects,
}
use fapolicyd_analyzer.Parse.Reject.{lead, KeysMatch-append}

-- Specification: the lines that are refused where these keys are expected. A field has another name
-- than the expected one, in the subject or in the object, or one of them ends too early.
pub data Refused : (subjects objects : List CString) → List ℕ → Type 0 where
  wrong_subject :
      (ps : List Pair) (expected key : CString) (rest objects : List CString) (after : List ℕ)
      → All ps
      → plain key ≡ true
      → starts key ≡ true
      → str_eq expected key ≡ false
      → Refused (names ps ++ expected ∷ rest) objects (lead ps ++ (key ++ b'=' ∷ after))
  few_subjects :
      (p : Pair) (ps : List Pair) (expected : CString) (rest objects : List CString) (spaces : ℕ)
      (after stale : List ℕ)
      → All (p ∷ ps)
      → Refused
          (names (p ∷ ps) ++ expected ∷ rest)
          objects
          (render (p ∷ ps) ++ b' ' ∷ (replicate spaces b' ' ++ b':' ∷ (after ++ 0 ∷ stale)))
  wrong_object :
      (p : Pair) (ps qs : List Pair) (expected key : CString) (rest : List CString) (after : List ℕ)
      → All (p ∷ ps)
      → All qs
      → plain key ≡ true
      → starts key ≡ true
      → str_eq expected key ≡ false
      → Refused
          (names (p ∷ ps))
          (names qs ++ expected ∷ rest)
          (render (p ∷ ps) ++ b' ' ∷ b':' ∷ b' ' ∷ (lead qs ++ (key ++ b'=' ∷ after)))
  few_objects :
      (p q : Pair) (ps qs : List Pair) (expected : CString) (rest : List CString) (stale : List ℕ)
      → All (p ∷ ps)
      → All (q ∷ qs)
      → Refused
          (names (p ∷ ps))
          (names (q ∷ qs) ++ expected ∷ rest)
          (record_line (p ∷ ps) (q ∷ qs) stale)

KeysMatch-front :
    (exemplar : List ℕ) (keys : Block) (xs : List CString) (name : CString) (ys : List CString)
    → KeysMatch exemplar keys 0 (xs ++ name ∷ ys)
    → KeysMatch exemplar keys 0 xs
KeysMatch-front exemplar keys xs name ys match =
    (KeysMatch-append exemplar keys 0 xs name ys match).0

-- more names than those of the pairs in front
length-names_more :
    (ps : List Pair) (name : CString) (rest : List CString)
    → length ps < length (names ps ++ name ∷ rest)
length-names_more ps name rest =
    omega (arith, length-append (names ps) (name ∷ rest), length-names ps)

-- A context in which the values of the subject array are given as such is the context.
subject-written :
    (ctx : Context) (exemplar : List ℕ) (u : List (Option ℕ))
    → ctx.exemplar ≡ some exemplar
    → ctx.subject.values ≡ block u
    → start exemplar ctx.subject.num_fields ctx.subject.keys u ctx.object ≡ ctx
subject-written ctx exemplar u has e = ground (arith, has, e)

both-written :
    (ctx : Context) (exemplar : List ℕ) (u v : List (Option ℕ))
    → ctx.exemplar ≡ some exemplar
    → ctx.subject.values ≡ block u
    → ctx.object.values ≡ block v
    → record {
      subject = arr ctx.subject.num_fields ctx.subject.keys u;
      object = arr ctx.object.num_fields ctx.object.keys v;
      exemplar = some exemplar;
    }
      ≡ ctx
both-written ctx exemplar u v has e f = ground (arith, has, e, f)

-- Let a context be ready (IsReady) for records with some keys, and let a line be one of these four
-- (Refused). Its fields have the expected names up to one of the subject that has another name, or
-- up to one of the object that has another name; or its subject has at least one field and fewer
-- than expected, or, behind a subject with all the expected fields, its object has, all of these
-- with the expected names. Here keys and values are free of NUL, of `=` and of space, no key is
-- empty or begins with a colon, and one space stands between two fields; the sides have exactly a
-- space, a colon and a space between them, but behind a subject that is too short one or more
-- spaces and a colon suffice; behind the `=` of the field with the other name anything may stand,
-- behind the colon of a subject that is too short anything up to a terminator, and behind an object
-- that is too short the newline and the terminator. Then `parse` returns PARSE_ERROR, without a
-- fault.
pub parse-Refused :
    {exemplar : List ℕ} {subjects objects : List CString} {ctx : Context}
    → IsReady exemplar subjects objects ctx
    → (line : List ℕ) → Refused subjects objects line
    → Refuses ctx line
unfolding get_num_fields
parse-Refused {exemplar} {subjects} {objects} {ctx} ready line
      (wrong_subject ps expected key rest _ after good plain_key starting differs) =
    let sub = ready.subject_imbued in
    subst (λ c. Refuses c line)
      (subject-written ctx exemplar sub.values ready.has_exemplar sub.written)
      (parse-wrong_subject exemplar ctx.subject.num_fields ctx.subject.keys sub.values ctx.object ps
        expected key rest after sub.match sub.room good plain_key starting differs)
parse-Refused {exemplar} {subjects} {objects} {ctx} ready line
      (few_subjects p ps expected rest _ spaces after stale good) =
    let sub = ready.subject_imbued in
    let fewer = length-names_more (p ∷ ps) expected rest in
    subst (λ c. Refuses c line)
      (subject-written ctx exemplar sub.values ready.has_exemplar sub.written)
      (parse-few_subjects exemplar ctx.subject.num_fields ctx.subject.keys sub.values ctx.object p
        ps spaces after stale
        (KeysMatch-front exemplar ctx.subject.keys (names (p ∷ ps)) expected rest sub.match)
        (omega (arith, sub.room, fewer)) (omega (arith, fewer, sub.count)) good)
parse-Refused {exemplar} {subjects} {objects} {ctx} ready line
      (wrong_object p ps qs expected key rest after good good_q plain_key starting differs) =
    let sub = ready.subject_imbued in
    let obj = ready.object_imbued in
    subst (λ c. Refuses c line)
      (both-written ctx exemplar sub.values obj.values ready.has_exemplar sub.written obj.written)
      (parse-wrong_object exemplar ctx.subject.num_fields ctx.object.num_fields ctx.subject.keys
        ctx.object.keys sub.values obj.values p ps good sub.match
        (omega (arith, sub.room, length-names (p ∷ ps))) (sub.count ∙ length-names (p ∷ ps)) qs
        expected key rest after obj.match obj.room good_q plain_key starting differs)
parse-Refused {exemplar} {subjects} {objects} {ctx} ready line
      (few_objects p q ps qs expected rest stale good good_q) =
    let sub = ready.subject_imbued in
    let obj = ready.object_imbued in
    let fewer = length-names_more (q ∷ qs) expected rest in
    subst (λ c. Refuses c line)
      (both-written ctx exemplar sub.values obj.values ready.has_exemplar sub.written obj.written)
      (parse-few_objects exemplar ctx.subject.num_fields ctx.object.num_fields ctx.subject.keys
        ctx.object.keys sub.values obj.values p ps good sub.match
        (omega (arith, sub.room, length-names (p ∷ ps))) (sub.count ∙ length-names (p ∷ ps)) q qs
        stale (KeysMatch-front exemplar ctx.object.keys (names (q ∷ qs)) expected rest obj.match)
        (omega (arith, obj.room, fewer)) (omega (arith, fewer, obj.count)) good_q)
