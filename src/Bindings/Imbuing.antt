-- ===== src/Bindings/Imbuing.antt =====
-- A context that Python imbues with a record.
use fapolicyd_analyzer.Base.{
  ℕ, ◌<◌, ◌^◌, ◌≡◌, refl, sym, ap, ◌∙◌, true, none, some, List, [], ◌∷◌, ◌++◌, CString, length,
  set-middle, ok, success, ErrorCode, arith,
}
use mathlib.Core.List.{append_assoc}
use fapolicyd_analyzer.Parse.Context.{
  Context, is_audit_record, get_number_of_subject_fields, get_number_of_object_fields,
}
use fapolicyd_analyzer.Parse.Correct.{length-names}
use fapolicyd_analyzer.Parse.Count.{AllFlat, record_text}
use fapolicyd_analyzer.Parse.Format.{Pair, IsPair, All, plain, plain_byte, render}
use fapolicyd_analyzer.Parse.Fields.{names}
use fapolicyd_analyzer.Parse.Imbue.{ImbueAlloc, imbue_parser}
use fapolicyd_analyzer.Parse.Taken.{imprint}
use fapolicyd_analyzer.Parse.Imbued.{IsReady, IsRoomy, imbue_parser-IsReady}
use fapolicyd_analyzer.Bindings.{
  p_parse_context, Python, py_code, py_int, returns, Heap, c_string, text_of, assign,
  with_arguments,
}
use fapolicyd_analyzer.Bindings.Runtime.{from_size_t, take_text, free_text}
use fapolicyd_analyzer.Bindings.Arguments.{
  IsPointer, IsText, pointer_argument-IsPointer, pointer_and_text-tuple,
}
use fapolicyd_analyzer.Bindings.Ownership.{
  Live, deref-Live, Live-assign, Live-appended, release-Live,
}
use fapolicyd_analyzer.Bindings.Contexts.{
  imbue_at, wrap_imbue_parser, wrap_get_number_of_subject_fields, wrap_get_number_of_object_fields,
}

-- the heap with the copy of a text at its end
abbrev with_copy : Heap → CString → Heap
with_copy heap text = record heap { strings = heap.strings ++ some text ∷ [] }

imbue_at-record :
    (alloc : ImbueAlloc) (heap : Heap) (p : ℕ) (line : CString) {ctx ctx' : Context}
    {code : ErrorCode}
    → is_audit_record line ≡ true
    → alloc.buffer ≡ true
    → Live heap.contexts p ctx
    → imbue_parser alloc ctx line ≡ ok (code, ctx')
    → imbue_at alloc (some p) line heap
      ≡ ok (code, record heap { contexts = assign heap.contexts (some p) ctx' })
unfolding imbue_at
imbue_at-record alloc heap p line audit buffer live run =
    let at_p = deref-Live heap.contexts p live in ground (arith, audit, buffer, at_p, run)

c_string-plain : (s rest : List ℕ) → plain s ≡ true → c_string (s ++ rest) ≡ s ++ c_string rest
unfolding c_string plain plain_byte
c_string-plain [] rest good = refl
c_string-plain (c ∷ s) rest good = ground (arith, c_string-plain s rest)

c_string-pair :
    (p : Pair) (rest : List ℕ)
    → IsPair p
    → c_string (p.key ++ b'=' ∷ (p.value ++ rest)) ≡ p.key ++ b'=' ∷ (p.value ++ c_string rest)
unfolding c_string
c_string-pair p rest good =
    c_string-plain p.key (b'=' ∷ (p.value ++ rest)) good.plain_key
    ∙ ap (λ (t : List ℕ). p.key ++ b'=' ∷ t) (c_string-plain p.value rest good.plain_value)

c_string-render :
    (ps : List Pair) (rest : List ℕ)
    → All ps
    → c_string (render ps ++ rest) ≡ render ps ++ c_string rest
unfolding render c_string
c_string-render [] rest good = refl
c_string-render (p ∷ []) rest (good, _) =
    let apart : (t : List ℕ) → (p.key ++ b'=' ∷ p.value) ++ t ≡ p.key ++ b'=' ∷ (p.value ++ t) =
      append_assoc p.key (b'=' ∷ p.value) in
    ap c_string (apart rest) ∙ c_string-pair p rest good ∙ sym (apart (c_string rest))
c_string-render (p ∷ q ∷ ps) rest (good, goods) =
    let text = render (q ∷ ps) in
    let apart : (t : List ℕ)
        → (p.key ++ b'=' ∷ (p.value ++ b' ' ∷ text)) ++ t
          ≡ p.key ++ b'=' ∷ (p.value ++ b' ' ∷ (text ++ t)) =
      λ t. simp append_assoc in
    ap c_string (apart rest)
    ∙ c_string-pair p (b' ' ∷ (text ++ rest)) good
    ∙ ap (λ (t : List ℕ). p.key ++ b'=' ∷ (p.value ++ b' ' ∷ t))
        (c_string-render (q ∷ ps) rest goods)
    ∙ sym (apart (c_string rest))

-- The text of a record has no null.
c_string-record_text :
    (ps qs : List Pair) → All ps → All qs → c_string (record_text ps qs) ≡ record_text ps qs
unfolding c_string
c_string-record_text ps qs good_p good_q =
    c_string-render ps (b' ' ∷ b':' ∷ b' ' ∷ (render qs ++ b'\n' ∷ [])) good_p
    ∙ ap (λ (t : List ℕ). render ps ++ b' ' ∷ b':' ∷ b' ' ∷ t)
        (c_string-render qs (b'\n' ∷ []) good_q)

module _ (python : Python) where
  get_number_of_subject_fields-Live :
      (o : python.Object) (heap : Heap) (p : ℕ) {ctx : Context} {n : ℕ}
      → IsPointer python p_parse_context o p
      → Live heap.contexts p ctx
      → get_number_of_subject_fields ctx ≡ n
      → wrap_get_number_of_subject_fields python (some o) heap ≡ ok (returns (py_int n), heap)
  unfolding wrap_get_number_of_subject_fields with_arguments from_size_t
  get_number_of_subject_fields-Live o heap p is live count =
      let converts = pointer_argument-IsPointer python p_parse_context o is in
      let at_p = deref-Live heap.contexts p live in ground (arith, converts, at_p, count)

  get_number_of_object_fields-Live :
      (o : python.Object) (heap : Heap) (p : ℕ) {ctx : Context} {n : ℕ}
      → IsPointer python p_parse_context o p
      → Live heap.contexts p ctx
      → get_number_of_object_fields ctx ≡ n
      → wrap_get_number_of_object_fields python (some o) heap ≡ ok (returns (py_int n), heap)
  unfolding wrap_get_number_of_object_fields with_arguments from_size_t
  get_number_of_object_fields-Live o heap p is live count =
      let converts = pointer_argument-IsPointer python p_parse_context o is in
      let at_p = deref-Live heap.contexts p live in ground (arith, converts, at_p, count)

  -- the heap after the call: the context in its place, and the copy freed
  abbrev imbued_heap : Heap → ℕ → Context → Heap
  imbued_heap heap p ctx = record heap {
    strings = heap.strings ++ none ∷ [];
    contexts = assign heap.contexts (some p) ctx;
  }

  imbue_parser-Live :
      (alloc : ImbueAlloc) (args o text_object : python.Object) (heap : Heap) (p : ℕ)
      (text : CString) {ctx ctx' : Context}
      → python.tuple args ≡ some (o ∷ text_object ∷ [])
      → IsPointer python p_parse_context o p
      → IsText python text_object text
      → Live heap.contexts p ctx
      → c_string text ≡ text
      → is_audit_record text ≡ true
      → alloc.buffer ≡ true
      → imbue_parser alloc ctx text ≡ ok (success, ctx')
      → wrap_imbue_parser python true alloc (some args) heap
        ≡ ok (returns (py_code success), imbued_heap heap p ctx')
  unfolding wrap_imbue_parser with_arguments take_text free_text text_of
  imbue_parser-Live alloc args o text_object heap p text {ctx} {ctx'} two is is' live whole audit
        buffer run =
      let converts = pointer_and_text-tuple python p_parse_context args o text_object two is is' in
      let copied =
        deref-Live (heap.strings ++ some text ∷ []) (length heap.strings)
          (Live-appended heap.strings text) in
      let imbued = imbue_at-record alloc (with_copy heap text) p text audit buffer live run in
      let freed =
        release-Live (heap.strings ++ some text ∷ []) (length heap.strings)
          (Live-appended heap.strings text)
        ∙ ap ok (set-middle heap.strings [] (some text) none) in
      ground (arith, converts, copied, whole, imbued, freed)

  -- Let Python call `imbue_parser` with a wrapped parse context that is in use and the text of an
  -- audit record, whose keys and values are free of NUL, of `=`, of space and of colons, with no
  -- key empty and fewer than 2^31 fields on either side, and let the memory suffice. The call
  -- returns OK and leaves the context in use and ready for records with these keys (IsReady),
  -- although the copy of the text is freed; and `get_number_of_subject_fields` and
  -- `get_number_of_object_fields` right afterwards return the numbers of fields.
  pub wrap_imbue_parser-IsReady :
      (alloc : ImbueAlloc) (args o text_object : python.Object) (heap : Heap) {place : ℕ}
      {ctx : Context} (p : Pair) (ps : List Pair) (q : Pair) (qs : List Pair)
      → python.tuple args ≡ some (o ∷ text_object ∷ [])
      → IsPointer python p_parse_context o place
      → IsText python text_object (record_text (p ∷ ps) (q ∷ qs))
      → Live heap.contexts place ctx
      → IsRoomy alloc
      → All (p ∷ ps)
      → AllFlat (p ∷ ps)
      → All (q ∷ qs)
      → AllFlat (q ∷ qs)
      → length (p ∷ ps) < 2 ^ 31
      → length (q ∷ qs) < 2 ^ 31
      → is_audit_record (record_text (p ∷ ps) (q ∷ qs)) ≡ true
      → (heap' : Heap) × (ctx' : Context) × (wrap_imbue_parser python true alloc (some args) heap
          ≡ ok (returns (py_code success), heap'))
        × Live heap'.contexts place ctx'
        × IsReady (imprint (p ∷ ps) (q ∷ qs)) (names (p ∷ ps)) (names (q ∷ qs)) ctx'
        × (wrap_get_number_of_subject_fields python (some o) heap'
            ≡ ok (returns (py_int (length (p ∷ ps))), heap'))
        × (wrap_get_number_of_object_fields python (some o) heap'
            ≡ ok (returns (py_int (length (q ∷ qs))), heap'))
  unfolding get_number_of_subject_fields get_number_of_object_fields
  wrap_imbue_parser-IsReady alloc args o text_object heap {place} {ctx} p ps q qs two is is' live
        roomy good_p flat_p good_q flat_q few_p few_q audit =
      let (ctx', run, ready) =
        imbue_parser-IsReady alloc ctx p ps q qs roomy good_p flat_p good_q flat_q few_p few_q
          audit in
      let heap' = imbued_heap heap place ctx' in
      let live' : Live heap'.contexts place ctx' = Live-assign heap.contexts place ctx' live in
      (
        heap',
        ctx',
        imbue_parser-Live alloc args o text_object heap place _ two is is' live
            (c_string-record_text (p ∷ ps) (q ∷ qs) good_p good_q) audit roomy.buffer run,
        live',
        ready,
        get_number_of_subject_fields-Live o heap' place is live'
            (ready.subject_imbued.count ∙ length-names (p ∷ ps)),
        get_number_of_object_fields-Live o heap' place is live'
            (ready.object_imbued.count ∙ length-names (q ∷ qs)),
      )
