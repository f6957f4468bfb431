-- ===== src/Probe/Free.antt =====
-- Removal: `_table_remove`, and the same lines of `hash_set_remove`. The slot is set to null, and
-- probes for other keys that went past it now end there.
use fapolicyd_analyzer.Base.{
  ℕ, ◌+◌, ◌-◌, ◌%◌, ◌^◌, ◌<◌, ◌≡◌, sym, ◌∙◌, ◌≢◌, inl, inr, true, false, none, CString,
  get_elem?-lt, get_elem?-set_ne, get_elem?-set_self, set, ok, arith, Bool-cases, if◌then◌else◌,
}
use fapolicyd_analyzer.Probe.{Entry, Slots, is_at, get_index, free_index, remove, contains}
use fapolicyd_analyzer.Probe.Content.{occupied, occupied-free, has, has→slot, has-free, is_at→eq}
use fapolicyd_analyzer.Probe.Valid.{IsValid, get_index-true, get_index-has, get_index-vacant}
use fapolicyd_analyzer.Probe.Grow.{IsValid-IsDistinct}

module _ {N : Type 0} ⦃entry : Entry N⦄ {t : Slots N} (valid : IsValid t) (key : CString)
    (hash : ℕ) where
  -- `t` with slot `i` set to null, and one node less on the count
  abbrev pub freed : ℕ → Slots N
  freed i = record t { nodes = set t.nodes i none; used_nodes = t.used_nodes - 1 }

  -- the key was in slot `i`
  module _ (i : ℕ) (run : get_index t key hash ≡ ok (true, i)) where
    pub freed-counted : (occupied (set t.nodes i none) ≡ t.used_nodes - 1) × (0 < t.used_nodes)
    freed-counted =
        let (node, e, at) = get_index-true t key hash i run in
        omega (arith, occupied-free t.nodes i node e, valid.counted)

    -- The removed key is in no slot any more.
    freed-absent : has key hash (set t.nodes i none) ≡ false
    freed-absent = elim (Bool-cases (has key hash (set t.nodes i none))) [
      | inr absent ↦ absent
      | inl present ↦
          let (node, e, at) = get_index-true t key hash i run in
          let (j, x, ex, ax) = has→slot key hash (set t.nodes i none) present in
          let (k, h) = is_at→eq key hash node at in
          let emptied = get_elem?-set_self t.nodes i none (get_elem?-lt t.nodes i e) in
          let elsewhere : i ≢ j = ground arith in
          let same =
            IsValid-IsDistinct valid i j node x e
              (sym (get_elem?-set_ne t.nodes i j none elsewhere) ∙ ex) (ground arith) in
          absurd (elsewhere same)
    ]

    -- Exactly the key is gone from the slots.
    pub freed-has :
        (k : CString) (h : ℕ)
        → has k h (set t.nodes i none)
          ≡ (if is_at k h (get_index-true t key hash i run).0 then false else has k h t.nodes)
    freed-has k h =
        let (node, e, at) = get_index-true t key hash i run in
        elim (Bool-cases (is_at k h node)) [
          | inl same ↦
              let (p, q) = is_at→eq k h node same in
              let (p', q') = is_at→eq key hash node at in ground (arith, freed-absent)
          | inr other ↦ rw other (has-free k h t.nodes i node e other)
        ]

  pub remove-absent : has key hash t.nodes ≡ false → remove t key hash ≡ ok (false, t)
  unfolding remove
  remove-absent absent = let (i, run) = get_index-has valid key hash in rw (run, absent)

  pub remove-present :
      (i : ℕ) → get_index t key hash ≡ ok (true, i) → remove t key hash ≡ ok (true, freed i)
  unfolding remove free_index
  remove-present i run =
      let (counted, some_used) = freed-counted i run in
      let count : (t.used_nodes + 2 ^ 64 - 1) % 2 ^ 64 ≡ t.used_nodes - 1 =
        omega (arith, valid.roomy, valid.fits) in
      rw (run, count)

  -- A key whose probe starts at the slot that was cleared is not found any more.
  pub freed-lost :
      (i other_hash : ℕ) (other : CString)
      → get_index t key hash ≡ ok (true, i)
      → other_hash % t.number_nodes ≡ i
      → contains (freed i) other other_hash ≡ ok false
  unfolding contains
  freed-lost i other_hash other run home =
      let (node, e, at) = get_index-true t key hash i run in
      ground (
        arith,
        valid.roomy,
        get_index-vacant (freed i) other other_hash,
        get_elem?-set_self t.nodes i none,
        get_elem?-lt t.nodes i e,
      )
