-- ===== src/Bindings/Ownership.antt =====
-- The strings that wrapped arrays and wrapped fields keep.
use fapolicyd_analyzer.Base.{
  ℕ, ◌<◌, ◌≡◌, refl, true, Option, none, some, List, [], ◌∷◌, ◌++◌, length, get_elem?, set,
  get_elem?-set_self, get_elem?-lt, get_elem?-middle, set-middle, ok, fault, arith,
}
use fapolicyd_analyzer.FieldArray
use fapolicyd_analyzer.FieldArray.{FieldArray, Field, block, load}
use fapolicyd_analyzer.Bindings.{
  p_field_array, Python, py_none, returns, Heap, deref, text_of, assign, release, with_arguments,
}
use fapolicyd_analyzer.Bindings.Runtime.{from_char_ptr, take_text, free_text}
use fapolicyd_analyzer.Bindings.Arguments.{
  IsPointer, IsNumber, IsText, pointer_and_index-tuple, pointer_index_text-tuple,
}
use fapolicyd_analyzer.Bindings.FieldArrays.{store_pointer, put_array, wrap_set_key, wrap_get_key}

-- An address of memory that is in use.
abbrev pub Live : {A : Type 0} → List (Option A) → ℕ → A → Type 0
Live cells p a = get_elem? cells p ≡ some (some a)

pub deref-Live :
    {A : Type 0} (cells : List (Option A)) (p : ℕ) {a : A}
    → Live cells p a
    → deref cells (some p) ≡ ok a
unfolding deref
deref-Live cells p live = rw (live, deref) refl

pub Live-assign :
    {A : Type 0} (cells : List (Option A)) (p : ℕ) {a : A} (b : A)
    → Live cells p a
    → Live (assign cells (some p) b) p b
unfolding assign
Live-assign cells p b live = get_elem?-set_self cells p (some b) (get_elem?-lt cells p live)

-- the place behind the strings in use
pub Live-appended :
    (cells : List (Option (List ℕ))) (text : List ℕ)
    → Live (cells ++ some text ∷ []) (length cells) text
Live-appended cells text = get_elem?-middle cells [] (some text)

-- what is freed cannot be followed
deref-freed :
    {A : Type 0} (cells : List (Option A)) (p : ℕ)
    → get_elem? cells p ≡ some none
    → deref cells (some p) ≡ fault
unfolding deref
deref-freed cells p gone = rw (gone, deref) refl

pub release-Live :
    {A : Type 0} (cells : List (Option A)) (p : ℕ) {a : A}
    → Live cells p a
    → release cells (some p) ≡ ok (set cells p none)
unfolding release
release-Live cells p live = rw (deref-Live cells p live, release) refl

module _ (python : Python) where
  -- the array after the call, with the address of the copy in it, and the copy freed
  abbrev keyed : Heap → ℕ → FieldArray → List (Option ℕ) → ℕ → Heap
  keyed heap p fields pointers i = record heap {
    strings = heap.strings ++ none ∷ [];
    arrays =
        assign heap.arrays (some p)
          (record fields { keys = block (set pointers i (some (length heap.strings))) });
  }

  wrap_set_key-keyed :
      (args o₁ o₂ o₃ : python.Object) (heap : Heap) {p i : ℕ} {text : List ℕ} {fields : FieldArray}
      {pointers : List (Option ℕ)}
      → python.tuple args ≡ some (o₁ ∷ o₂ ∷ o₃ ∷ [])
      → IsPointer python p_field_array o₁ p
      → IsNumber python o₂ i
      → IsText python o₃ text
      → Live heap.arrays p fields
      → fields.keys ≡ block pointers
      → i < length pointers
      → wrap_set_key python true (some args) heap
        ≡ ok (returns py_none, keyed heap p fields pointers i)
  unfolding wrap_set_key with_arguments take_text free_text put_array store_pointer
  wrap_set_key-keyed args o₁ o₂ o₃ heap {p} {i} {text} {fields} {pointers} three is is' is'' live
        keys fits =
      let freed : set (heap.strings ++ some text ∷ []) (length heap.strings) none
          ≡ heap.strings ++ none ∷ [] =
        set-middle heap.strings [] (some text) none in
      ground (
        arith,
        pointer_index_text-tuple python p_field_array args o₁ o₂ o₃ three is is' is'',
        deref-Live heap.arrays p live,
        release-Live (heap.strings ++ some text ∷ []) (length heap.strings)
            (Live-appended heap.strings text),
      )

  -- Let Python call `field_array_set_key` with a wrapped array that is in use, a number that is an
  -- index into its keys, and a text whose copy is allocated. The call returns None; and a call of
  -- `field_array_get_key` with the same array and number right afterwards reads memory that was
  -- freed.
  pub wrap_set_key-wrap_get_key :
      (args o₁ o₂ o₃ args' : python.Object) (heap : Heap) {p i : ℕ} {text : List ℕ}
      {fields : FieldArray} {pointers : List (Option ℕ)}
      → python.tuple args ≡ some (o₁ ∷ o₂ ∷ o₃ ∷ [])
      → python.tuple args' ≡ some (o₁ ∷ o₂ ∷ [])
      → IsPointer python p_field_array o₁ p
      → IsNumber python o₂ i
      → IsText python o₃ text
      → Live heap.arrays p fields
      → fields.keys ≡ block pointers
      → i < length pointers
      → (heap' : Heap) × (wrap_set_key python true (some args) heap ≡ ok (returns py_none, heap'))
        × (wrap_get_key python (some args') heap' ≡ fault)
  unfolding wrap_get_key with_arguments FieldArray.get_key load from_char_ptr text_of
  wrap_set_key-wrap_get_key args o₁ o₂ o₃ args' heap {p} {i} {text} {fields} {pointers} three two is
        is' is'' live keys fits =
      let changed = record fields { keys = block (set pointers i (some (length heap.strings))) } in
      let found = get_elem?-set_self pointers i (some (length heap.strings)) fits in
      let followed =
        deref-Live (assign heap.arrays (some p) changed) p
          (Live-assign heap.arrays p changed live) in
      let gone =
        deref-freed (heap.strings ++ none ∷ []) (length heap.strings)
          (get_elem?-middle heap.strings [] none) in
      (
        keyed heap p fields pointers i,
        wrap_set_key-keyed args o₁ o₂ o₃ heap three is is' is'' live keys fits,
        ground (
          arith,
          pointer_and_index-tuple python p_field_array args' o₁ o₂ two is is',
          found,
          followed,
          gone,
        ),
      )
