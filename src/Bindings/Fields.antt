-- ===== src/Bindings/Fields.antt =====
-- fapolicyanalyzer_wrap.c: the class of `field_t`: its members, constructor and destructor.
use fapolicyd_analyzer.Base.{
  ℕ, Bool, true, false, Option, none, some, [], ◌∷◌, ◌++◌, length, if◌then◌else◌, fault, Outcome,
  ok, ◌>>=◌,
}
use fapolicyd_analyzer.FieldArray.{Field}
use fapolicyd_analyzer.Bindings.{
  p_field, Python, py_none, Reply, returns, Heap, deref, text_of, assign, release, with_arguments,
}
use fapolicyd_analyzer.Bindings.Runtime.{
  from_char_ptr, new_pointer, take_text, free_text, no_arguments, pointer_argument,
  pointer_and_text,
}

-- `memcpy(malloc(size), arg, size)` of what `strlen` sees: a copy that the field owns. Null stays
-- null; the first argument says whether the allocation succeeds, which `memcpy` does not ask.
unfoldable pub duplicate : Bool → Option ℕ → Heap → Outcome (Option ℕ × Heap)
duplicate allocated none heap = ok (none, heap)
duplicate allocated (some p) heap = do
  text ← text_of heap (some p)
  if allocated
      then ok (some (length heap.strings), record heap { strings = heap.strings ++ some text ∷ [] })
      else fault

-- the field that a call changed, in its place
unfoldable pub put_field : Heap → Option ℕ → Field → Heap
put_field heap p field = record heap { fields = assign heap.fields p field }

module _ (python : Python) where
  -- `_wrap_field_t_key_set`; the first arguments say whether the two copies are allocated
  unfoldable pub wrap_key_set :
      (taken_allocated copy_allocated : Bool) → Option python.Object → Heap → Outcome (Reply × Heap)
  wrap_key_set taken_allocated copy_allocated args heap =
      with_arguments (pointer_and_text python p_field args) heap λ (p, text). do
        (buffer, taken) ← take_text taken_allocated text heap
        (key, copied) ← duplicate copy_allocated buffer taken
        field ← deref copied.fields p
        heap' ← free_text text buffer (put_field copied p (record field { key = key }))
        ok (returns py_none, heap')

  -- `_wrap_field_t_key_get`
  unfoldable pub wrap_key_get : Option python.Object → Heap → Outcome (Reply × Heap)
  wrap_key_get args heap = with_arguments (pointer_argument python p_field args) heap λ p. do
    field ← deref heap.fields p
    value ← from_char_ptr field.key heap
    ok (returns value, heap)

  -- `_wrap_field_t_value_set`; the first arguments say whether the two copies are allocated
  unfoldable pub wrap_value_set :
      (taken_allocated copy_allocated : Bool) → Option python.Object → Heap → Outcome (Reply × Heap)
  wrap_value_set taken_allocated copy_allocated args heap =
      with_arguments (pointer_and_text python p_field args) heap λ (p, text). do
        (buffer, taken) ← take_text taken_allocated text heap
        (value, copied) ← duplicate copy_allocated buffer taken
        field ← deref copied.fields p
        heap' ← free_text text buffer (put_field copied p (record field { value = value }))
        ok (returns py_none, heap')

  -- `_wrap_field_t_value_get`
  unfoldable pub wrap_value_get : Option python.Object → Heap → Outcome (Reply × Heap)
  wrap_value_get args heap = with_arguments (pointer_argument python p_field args) heap λ p. do
    field ← deref heap.fields p
    value ← from_char_ptr field.value heap
    ok (returns value, heap)

  -- `_wrap_new_field_t`; the first argument says whether `calloc` succeeds
  unfoldable pub wrap_new_field : Bool → Option python.Object → Heap → Outcome (Reply × Heap)
  wrap_new_field allocated args heap = with_arguments (no_arguments python args) heap λ _.
      elim allocated [
        | false ↦ ok (returns (new_pointer p_field none true), heap)
        | true ↦ ok (
          returns (new_pointer p_field (some (length heap.fields)) true),
          record heap { fields = heap.fields ++ some (record { key = none; value = none }) ∷ [] },
        )
      ]

  -- `_wrap_delete_field_t`: the strings of the field are not freed.
  unfoldable pub wrap_delete_field : Option python.Object → Heap → Outcome (Reply × Heap)
  wrap_delete_field args heap =
      with_arguments (pointer_argument python p_field args) heap λ p. do
        fields ← release heap.fields p
        ok (returns py_none, record heap { fields = fields })
