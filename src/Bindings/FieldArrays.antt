-- ===== src/Bindings/FieldArrays.antt =====
-- fapolicyanalyzer_wrap.c: the wrappers of field_array.h.
use fapolicyd_analyzer.Base.{
  ℕ, Bool, false, ltb, if◌then◌else◌, Option, none, some, [], ◌∷◌, ◌++◌, length, set, Outcome, ok,
  fault, ◌>>=◌,
}
use fapolicyd_analyzer.FieldArray
use fapolicyd_analyzer.FieldArray.{FieldArray, Field, Block, null, freed, block}
use fapolicyd_analyzer.Bindings.{
  p_field, p_field_array, Python, py_none, py_code, Reply, returns, Heap, deref, assign, release,
  with_arguments,
}
use fapolicyd_analyzer.Bindings.Runtime.{
  from_char_ptr, from_size_t, new_pointer, take_text, free_text, no_arguments, pointer_argument,
  pointer_and_index, pointer_index_text, pointers_and_index,
}

-- `field_array_set_key` and `field_array_set_value` of any pointer: `array[i] = p`
unfoldable pub store_pointer : Block → ℕ → Option ℕ → Outcome Block
store_pointer null i p = fault
store_pointer freed i p = fault
store_pointer (block pointers) i p =
    if ltb i (length pointers) then ok (block (set pointers i p)) else fault

-- the array that a call changed, in its place
unfoldable pub put_array : Heap → Option ℕ → FieldArray → Heap
put_array heap p fields = record heap { arrays = assign heap.arrays p fields }

-- `field_array_destroy` gives back what is null or an array.
unfoldable pub give_back : Block → Outcome Block
give_back null = ok null
give_back freed = fault
give_back (block pointers) = ok null

module _ (python : Python) where
  -- `_wrap_field_array_construct`; the first argument says whether the allocation succeeds
  unfoldable pub wrap_construct : Bool → Option python.Object → Heap → Outcome (Reply × Heap)
  wrap_construct allocated args heap = with_arguments (no_arguments python args) heap λ _.
      elim (FieldArray.construct allocated) [
        | none ↦ ok (returns (new_pointer p_field_array none false), heap)
        | some fields ↦ ok (
          returns (new_pointer p_field_array (some (length heap.arrays)) false),
          record heap { arrays = heap.arrays ++ some fields ∷ [] },
        )
      ]

  -- `_wrap_field_array_initialize`; the first arguments say whether the allocations succeed
  unfoldable pub wrap_initialize :
      Bool → Bool → Option python.Object → Heap → Outcome (Reply × Heap)
  wrap_initialize keys_allocated values_allocated args heap =
      with_arguments (pointer_and_index python p_field_array args) heap λ (p, n). do
        fields ← deref heap.arrays p
        let (code, fields') = FieldArray.initialize keys_allocated values_allocated fields n in
            ok (returns (py_code code), put_array heap p fields')

  -- `_wrap_field_array_destroy`
  unfoldable pub wrap_destroy : Option python.Object → Heap → Outcome (Reply × Heap)
  wrap_destroy args heap = with_arguments (pointer_argument python p_field_array args) heap λ p. do
    fields ← deref heap.arrays p
    keys ← give_back fields.keys
    values ← give_back fields.values
    arrays ← release heap.arrays p
    ok (returns py_none, record heap { arrays = arrays })

  -- `_wrap_field_array_set_key`: the array keeps the address of the copy, which is then freed;
  -- the first argument says whether it is allocated.
  unfoldable pub wrap_set_key :
      (allocated : Bool) → Option python.Object → Heap → Outcome (Reply × Heap)
  wrap_set_key allocated args heap =
      with_arguments (pointer_index_text python p_field_array args) heap λ (p, i, text). do
        (key, taken) ← take_text allocated text heap
        fields ← deref taken.arrays p
        keys ← store_pointer fields.keys i key
        heap' ← free_text text key (put_array taken p (record fields { keys = keys }))
        ok (returns py_none, heap')

  -- `_wrap_field_array_set_value`, likewise
  unfoldable pub wrap_set_value :
      (allocated : Bool) → Option python.Object → Heap → Outcome (Reply × Heap)
  wrap_set_value allocated args heap =
      with_arguments (pointer_index_text python p_field_array args) heap λ (p, i, text). do
        (value, taken) ← take_text allocated text heap
        fields ← deref taken.arrays p
        values ← store_pointer fields.values i value
        heap' ← free_text text value (put_array taken p (record fields { values = values }))
        ok (returns py_none, heap')

  -- `_wrap_field_array_get_num_fields`
  unfoldable pub wrap_get_num_fields : Option python.Object → Heap → Outcome (Reply × Heap)
  wrap_get_num_fields args heap =
      with_arguments (pointer_argument python p_field_array args) heap λ p. do
        fields ← deref heap.arrays p
        ok (returns (from_size_t (FieldArray.get_num_fields fields)), heap)

  -- `_wrap_field_array_get_key`
  unfoldable pub wrap_get_key : Option python.Object → Heap → Outcome (Reply × Heap)
  wrap_get_key args heap =
      with_arguments (pointer_and_index python p_field_array args) heap λ (p, i). do
        fields ← deref heap.arrays p
        key ← FieldArray.get_key fields i
        value ← from_char_ptr key heap
        ok (returns value, heap)

  -- `_wrap_field_array_get_value`
  unfoldable pub wrap_get_value : Option python.Object → Heap → Outcome (Reply × Heap)
  wrap_get_value args heap =
      with_arguments (pointer_and_index python p_field_array args) heap λ (p, i). do
        fields ← deref heap.arrays p
        value ← FieldArray.get_value fields i
        object ← from_char_ptr value heap
        ok (returns object, heap)

  -- `_wrap_field_array_get_field`: the field is written only when the index is in range.
  unfoldable pub wrap_get_field : Option python.Object → Heap → Outcome (Reply × Heap)
  wrap_get_field args heap =
      with_arguments (pointers_and_index python p_field_array p_field args) heap λ (p, q, i). do
        fields ← deref heap.arrays p
        (code, read) ← FieldArray.get_field fields i
        elim read [
          | none ↦ ok (returns (py_code code), heap)
          | some field ↦ do
            before ← deref heap.fields q
            ok (returns (py_code code), record heap { fields = assign heap.fields q field })
        ]
