-- ===== src/Bindings/Contexts.antt =====
-- fapolicyanalyzer_wrap.c: wrappers of parse.h and of match.h. The arrays and the exemplar of a context are its own.
use fapolicyd_analyzer.Base.{
  ℕ, Bool, false, ◌||◌, if◌then◌else◌, Option, none, some, [], ◌∷◌, ◌++◌, CString, length, Outcome,
  ok, ◌>>=◌, ErrorCode, parse_error, allocation_error,
}
use fapolicyd_analyzer.FieldArray.{FieldArray, Block}
use fapolicyd_analyzer.Match.{match_filename}
use fapolicyd_analyzer.Parse.Context.{
  construct_parse_context, is_rule, is_audit_record, get_number_of_subject_fields,
  get_number_of_object_fields,
}
use fapolicyd_analyzer.Parse.Imbue.{ImbueAlloc, imbue_parser}
use fapolicyd_analyzer.Bindings.{
  p_parse_context, Python, py_none, py_bool, py_int, py_code, Reply, returns, Heap, deref, text_of,
  assign, release, with_arguments,
}
use fapolicyd_analyzer.Bindings.Runtime.{
  from_size_t, new_pointer, take_text, free_text, no_arguments, pointer_argument, text_argument,
  pointer_and_text, two_texts,
}
use fapolicyd_analyzer.Bindings.FieldArrays.{give_back}

-- `imbue_parser` through a pointer: the context is looked at only when the line is one of the two
-- kinds and has its buffer, since it then begins with a field.
unfoldable pub imbue_at : ImbueAlloc → Option ℕ → CString → Heap → Outcome (ErrorCode × Heap)
imbue_at alloc p line heap =
    if is_rule line || is_audit_record line
    then (if alloc.buffer
        then (do
          ctx ← deref heap.contexts p
          (code, ctx') ← imbue_parser alloc ctx line
          ok (code, record heap { contexts = assign heap.contexts p ctx' }))
        else ok (allocation_error, heap))
    else ok (parse_error, heap)

-- `field_array_destroy` of an array of the context: both of its blocks are given back.
unfoldable pub destroy_array : FieldArray → Outcome (Block × Block)
destroy_array fields = do
  keys ← give_back fields.keys
  values ← give_back fields.values
  ok (keys, values)

-- `destroy_parse_context`
unfoldable pub destroy_parse_context : Option ℕ → Heap → Outcome Heap
destroy_parse_context p heap = do
  ctx ← deref heap.contexts p
  subject_blocks ← destroy_array ctx.subject
  object_blocks ← destroy_array ctx.object
  contexts ← release heap.contexts p
  ok (record heap { contexts = contexts })

module _ (python : Python) where
  -- `_wrap_construct_parse_context`; the first arguments say whether the allocations succeed
  unfoldable pub wrap_construct_parse_context :
      (allocated subject_allocated object_allocated : Bool)
      → Option python.Object
      → Heap
      → Outcome (Reply × Heap)
  wrap_construct_parse_context allocated subject_allocated object_allocated args heap =
      with_arguments (no_arguments python args) heap λ _.
        elim (construct_parse_context allocated subject_allocated object_allocated) [
          | none ↦ ok (returns (new_pointer p_parse_context none false), heap)
          | some ctx ↦ ok (
            returns (new_pointer p_parse_context (some (length heap.contexts)) false),
            record heap { contexts = heap.contexts ++ some ctx ∷ [] },
          )
        ]

  -- `_wrap_destroy_parse_context`
  unfoldable pub wrap_destroy_parse_context : Option python.Object → Heap → Outcome (Reply × Heap)
  wrap_destroy_parse_context args heap =
      with_arguments (pointer_argument python p_parse_context args) heap
        λ p. do heap' ← destroy_parse_context p heap; ok (returns py_none, heap')

  -- `_wrap_imbue_parser`: the copy of the line is freed, since the context has one of its own.
  unfoldable pub wrap_imbue_parser :
      (allocated : Bool) → ImbueAlloc → Option python.Object → Heap → Outcome (Reply × Heap)
  wrap_imbue_parser allocated alloc args heap =
      with_arguments (pointer_and_text python p_parse_context args) heap λ (p, text). do
        (line, taken) ← take_text allocated text heap
        string ← text_of taken line
        (code, imbued) ← imbue_at alloc p string taken
        heap' ← free_text text line imbued
        ok (returns (py_code code), heap')

  -- `_wrap_get_number_of_subject_fields`
  unfoldable pub wrap_get_number_of_subject_fields :
      Option python.Object → Heap → Outcome (Reply × Heap)
  wrap_get_number_of_subject_fields args heap =
      with_arguments (pointer_argument python p_parse_context args) heap λ p. do
        ctx ← deref heap.contexts p
        ok (returns (from_size_t (get_number_of_subject_fields ctx)), heap)

  -- `_wrap_get_number_of_object_fields`
  unfoldable pub wrap_get_number_of_object_fields :
      Option python.Object → Heap → Outcome (Reply × Heap)
  wrap_get_number_of_object_fields args heap =
      with_arguments (pointer_argument python p_parse_context args) heap λ p. do
        ctx ← deref heap.contexts p
        ok (returns (from_size_t (get_number_of_object_fields ctx)), heap)

  -- `_wrap_is_audit_record`
  unfoldable pub wrap_is_audit_record :
      (allocated : Bool) → Option python.Object → Heap → Outcome (Reply × Heap)
  wrap_is_audit_record allocated args heap = with_arguments (text_argument python args) heap λ text.
      do
        (line, taken) ← take_text allocated text heap
        string ← text_of taken line
        heap' ← free_text text line taken
        ok (returns (py_bool (is_audit_record string)), heap')

  -- `_wrap_match_filename`, given `fnmatch`: both texts are copied before either is read.
  unfoldable pub wrap_match_filename :
      (pattern_allocated name_allocated : Bool)
      → (fnmatch : CString → CString → ℕ → ℕ) → Option python.Object
      → Heap
      → Outcome (Reply × Heap)
  wrap_match_filename pattern_allocated name_allocated fnmatch args heap =
      with_arguments (two_texts python args) heap λ (first, second). do
        (pattern, heap₁) ← take_text pattern_allocated first heap
        (name, heap₂) ← take_text name_allocated second heap₁
        pattern_text ← text_of heap₂ pattern
        name_text ← text_of heap₂ name
        heap₃ ← free_text first pattern heap₂
        heap₄ ← free_text second name heap₃
        ok (returns (py_int (match_filename fnmatch pattern_text name_text)), heap₄)
