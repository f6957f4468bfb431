-- ===== src/Bindings/Members.antt =====
-- A member of a wrapped field that Python sets is read back.
use fapolicyd_analyzer.Base.{
  ℕ, ◌^◌, ◌<◌, ◌≡◌, refl, true, sym, ap, ◌∙◌, Option, none, some, List, [], ◌∷◌, ◌++◌, CString,
  length, get_elem?, set, length-append, ok, arith,
}
use fapolicyd_analyzer.FieldArray.{Field}
use fapolicyd_analyzer.Bindings.{
  p_field, Python, py_none, py_text, returns, Heap, c_string, text_of, assign, with_arguments,
}
use fapolicyd_analyzer.Bindings.Runtime.{from_char_ptr, take_text, free_text}
use fapolicyd_analyzer.Bindings.Arguments.{
  IsPointer, IsText, pointer_argument-IsPointer, pointer_and_text-tuple,
}
use fapolicyd_analyzer.Bindings.Ownership.{
  Live, deref-Live, Live-assign, Live-appended, release-Live,
}
use fapolicyd_analyzer.Bindings.Fields.{duplicate, put_field, wrap_key_set, wrap_key_get}

-- the strings after the argument was copied, copied up to its first null and freed
abbrev copied : List (Option (List ℕ)) → CString → List (Option (List ℕ))
copied strings copy = (strings ++ none ∷ []) ++ some copy ∷ []

Live-copied :
    (strings : List (Option (List ℕ))) (text : List ℕ) (copy : CString)
    → Live (copied strings copy) (length (strings ++ some text ∷ [])) copy
Live-copied strings text copy =
    let same : length (strings ++ none ∷ []) ≡ length (strings ++ some text ∷ []) =
      omega (arith, length-append strings (none ∷ []), length-append strings (some text ∷ [])) in
    ap (get_elem? (copied strings copy)) (sym same) ∙ Live-appended (strings ++ none ∷ []) copy

-- the second copy stands when the first is freed
set-copied :
    (strings : List (Option (List ℕ))) (text : List ℕ) (copy : CString)
    → set ((strings ++ some text ∷ []) ++ some copy ∷ []) (length strings) none
      ≡ copied strings copy
set-copied [] text copy = refl
set-copied (cell ∷ strings) text copy = ap (λ rest. cell ∷ rest) (set-copied strings text copy)

Live-first :
    (strings : List (Option (List ℕ))) (text : List ℕ) (copy : CString)
    → Live ((strings ++ some text ∷ []) ++ some copy ∷ []) (length strings) text
Live-first [] text copy = refl
Live-first (cell ∷ strings) text copy = Live-first strings text copy

-- What ends at the first null has none.
c_string-c_string : (bytes : List ℕ) → c_string (c_string bytes) ≡ c_string bytes
unfolding c_string
c_string-c_string [] = refl
c_string-c_string (c ∷ bytes) = ground (arith, c_string-c_string bytes)

module _ (python : Python) where
  -- the memory after a member was set
  abbrev renamed : Heap → ℕ → CString → Field → Heap
  renamed heap p text field = record heap {
    strings = copied heap.strings text;
    fields = assign heap.fields (some p) field;
  }

  -- Let Python set the member key of a wrapped field that is in use to a text whose part up to the
  -- first NUL, or all of it where it has none, is shorter than 2^31 bytes (c_string), and let both
  -- copies of it be allocated. The call returns None, and reading the member right afterwards gives
  -- that part of the text, whatever stood behind the NUL, and leaves the memory as it is.
  pub wrap_key_set-wrap_key_get :
      (args object text_object : python.Object) (heap : Heap) {p : ℕ} {text : List ℕ}
      {field : Field}
      → python.tuple args ≡ some (object ∷ text_object ∷ [])
      → IsPointer python p_field object p
      → IsText python text_object text
      → Live heap.fields p field
      → length (c_string text) < 2 ^ 31
      → (heap' : Heap) × (wrap_key_set python true true (some args) heap
          ≡ ok (returns py_none, heap'))
        × (wrap_key_get python (some object) heap' ≡ ok (returns (py_text (c_string text)), heap'))
  unfolding wrap_key_set wrap_key_get with_arguments take_text free_text put_field duplicate
      from_char_ptr text_of
  wrap_key_set-wrap_key_get args object text_object heap {p} {text} {field} two is is' live fits =
      let first = length heap.strings in
      let second = length (heap.strings ++ some text ∷ []) in
      let copy = c_string text in
      let changed = record field { key = some second } in
      let once =
        deref-Live (heap.strings ++ some text ∷ []) first (Live-appended heap.strings text) in
      let freed =
        release-Live ((heap.strings ++ some text ∷ []) ++ some copy ∷ []) first
          (Live-first heap.strings text copy)
        ∙ ap ok (set-copied heap.strings text copy) in
      let found =
        deref-Live (assign heap.fields (some p) changed) p
          (Live-assign heap.fields p changed live) in
      let read =
        deref-Live (copied heap.strings copy) second (Live-copied heap.strings text copy) in
      (
        renamed heap p copy changed,
        ground (
          arith,
          pointer_and_text-tuple python p_field args object text_object two is is',
          once,
          deref-Live heap.fields p live,
          freed,
        ),
        ground (
          arith,
          pointer_argument-IsPointer python p_field object is,
          found,
          read,
          c_string-c_string text,
        ),
      )
