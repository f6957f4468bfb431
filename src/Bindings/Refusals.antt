-- ===== src/Bindings/Refusals.antt =====
-- Calls of the wrappers with arguments that they do not take.
use fapolicyd_analyzer.Base.{
  ℕ, ◌≡◌, ◌≢◌, Bool, ltb, if◌then◌else◌, none, some, List, CString, ◌++◌, map, replicate, ◌-◌,
  length, ok, arith,
}
use fapolicyd_analyzer.Bindings.{Python, raise, given, wrong_count, raises, Heap, with_arguments}
use fapolicyd_analyzer.Bindings.Runtime.{
  unpack_tuple, pointer_and_index, pointer_and_text, pointer_index_text, pointers_and_index,
  two_texts,
}
use fapolicyd_analyzer.Bindings.FieldArrays.{
  wrap_initialize, wrap_set_key, wrap_set_value, wrap_get_key, wrap_get_value, wrap_get_field,
}
use fapolicyd_analyzer.Bindings.Fields.{wrap_key_set, wrap_value_set}
use fapolicyd_analyzer.Bindings.Contexts.{wrap_imbue_parser, wrap_match_filename}
use fapolicyd_analyzer.Parse.Imbue.{ImbueAlloc}

module _ (python : Python) where
  unpack_tuple-count :
      (n : ℕ) (args : python.Object) (items : List python.Object)
      → python.tuple args ≡ some items
      → length items ≢ n
      → unpack_tuple python n n (some args) ≡ raise wrong_count
  unfolding unpack_tuple
  unpack_tuple-count n args items tuple other =
      let counted : (if ltb (length items) n
            then raise wrong_count
            else if ltb n (length items)
            then raise wrong_count
            else given (map some items ++ replicate (n - length items) none))
          ≡ raise wrong_count =
        ground arith in
      rw (tuple, unpack_tuple) counted

  -- The wrappers of two arguments, likewise.
  pub two_arguments-wrong_count :
      (args : python.Object) (items : List python.Object) (heap : Heap)
      (keys_allocated values_allocated taken_allocated copy_allocated : Bool) (alloc : ImbueAlloc)
      (fnmatch : CString → CString → ℕ → ℕ)
      → python.tuple args ≡ some items
      → length items ≢ 2
      → (wrap_initialize python keys_allocated values_allocated (some args) heap
          ≡ ok (raises wrong_count, heap))
        × (wrap_get_key python (some args) heap ≡ ok (raises wrong_count, heap))
        × (wrap_get_value python (some args) heap ≡ ok (raises wrong_count, heap))
        × (wrap_key_set python taken_allocated copy_allocated (some args) heap
            ≡ ok (raises wrong_count, heap))
        × (wrap_value_set python taken_allocated copy_allocated (some args) heap
            ≡ ok (raises wrong_count, heap))
        × (wrap_imbue_parser python taken_allocated alloc (some args) heap
            ≡ ok (raises wrong_count, heap))
        × (wrap_match_filename python taken_allocated copy_allocated fnmatch (some args) heap
            ≡ ok (raises wrong_count, heap))
  unfolding wrap_initialize wrap_get_key wrap_get_value wrap_key_set wrap_value_set
      wrap_imbue_parser wrap_match_filename two_texts pointer_and_index pointer_and_text
      with_arguments
  two_arguments-wrong_count args items heap keys_allocated values_allocated taken_allocated
        copy_allocated alloc fnmatch tuple other =
      let refused = unpack_tuple-count 2 args items tuple other in
      (
        ground (arith, refused),
        ground (arith, refused),
        ground (arith, refused),
        ground (arith, refused),
        ground (arith, refused),
        ground (arith, refused),
        ground (arith, refused),
      )

  -- When Python calls `field_array_set_key`, `field_array_set_value` or `field_array_get_field`
  -- with a tuple that has other than three items, the call raises an error on the number of
  -- arguments and leaves the memory as it is.
  pub three_arguments-wrong_count :
      (allocated : Bool) (args : python.Object) (items : List python.Object) (heap : Heap)
      → python.tuple args ≡ some items
      → length items ≢ 3
      → (wrap_set_key python allocated (some args) heap ≡ ok (raises wrong_count, heap))
        × (wrap_set_value python allocated (some args) heap ≡ ok (raises wrong_count, heap))
        × (wrap_get_field python (some args) heap ≡ ok (raises wrong_count, heap))
  unfolding wrap_set_key wrap_set_value wrap_get_field pointer_index_text pointers_and_index
      with_arguments
  three_arguments-wrong_count allocated args items heap tuple other =
      let refused = unpack_tuple-count 3 args items tuple other in
      (ground (arith, refused), ground (arith, refused), ground (arith, refused))
