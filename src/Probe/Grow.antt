-- ===== src/Probe/Grow.antt =====
-- Doubling the array: `_rehash_set` and `_rehash_table` on a table with no key twice.
use fapolicyd_analyzer.Base.{
  ℕ, zero, suc, ◌+◌, ◌*◌, ◌-◌, ◌%◌, ◌^◌, ◌<◌, ◌≤◌, ◌≡◌, refl, sym, ◌∙◌, inl, inr, Bool, true, false,
  Option, none, some, List, CString, get_elem?, get_elem?-lt, lt-get_elem?, length, length-append,
  length-replicate, get_elem?-append_left, get_elem?-append_right, get_elem?-replicate, replicate,
  Outcome, ok, aborted, arith, ◌==◌, ltb, Bool-cases, Option-cases, ErrorCode, success, not_found,
}
use fapolicyd_analyzer.Probe.{
  Entry, Slots, Alloc, is_at, get_index, rehash_loop, rehash, expand, over_load, grow, assign_node,
  insert,
}
use fapolicyd_analyzer.Probe.Content.{occupied, occupied-append_vacant, is_at→eq}
use fapolicyd_analyzer.Probe.Valid.{IsValid, get_index-true, get_index-vacant, get_index_total}

module _ {N : Type 0} ⦃entry : Entry N⦄ where
  -- No key stands in two slots.
  abbrev pub IsDistinct : List (Option N) → Type 0
  IsDistinct nodes =
      (i j : ℕ) (x y : N)
      → get_elem? nodes i ≡ some (some x)
      → get_elem? nodes j ≡ some (some y)
      → is_at (entry.key x) (entry.hash x) y ≡ true
      → i ≡ j

  pub IsValid-IsDistinct : {t : Slots N} → IsValid t → IsDistinct t.nodes
  IsValid-IsDistinct {t} valid i j x y ex ey at =
      let (k, h) = is_at→eq (entry.key x) (entry.hash x) y at in
      let found_x = valid.reach i x ex in let found_y = valid.reach j y ey in ground arith

  module _ (allocated : ℕ → Bool) (t : Slots N) (distinct : IsDistinct t.nodes)
      (width : length t.nodes ≡ t.number_nodes) (room : occupied t.nodes < length t.nodes) where
    -- A node that is found is found where it stands.
    found_here :
        (i : ℕ) (x : N) (index : ℕ)
        → get_elem? t.nodes i ≡ some (some x)
        → get_index t (entry.key x) (entry.hash x) ≡ ok (true, index)
        → (i == index) ≡ true
    found_here i x index e run =
        let (y, ey, at) = get_index-true t (entry.key x) (entry.hash x) index run in
        let same = distinct i index x y e ey at in ground arith

    -- The loop moves no node: it goes through with the table as it was, or it aborts.
    pub rehash_loop-unchanged :
        (left i : ℕ) (t' : Slots N) → rehash_loop allocated left i t ≡ ok t' → t' ≡ t
    unfolding rehash_loop
    rehash_loop-unchanged zero i t' h = ground arith
    rehash_loop-unchanged (suc left) i t' h = elim (Option-cases (get_elem? t.nodes i)) [
      | inl e ↦ ground arith
      | inr (none, e) ↦ ground (arith, rehash_loop-unchanged left (i + 1) t')
      | inr (some x, e) ↦
          let ((b, index), run) = get_index_total t (entry.key x) (entry.hash x) width room in
          ground (arith, rehash_loop-unchanged left (i + 1) t', found_here i x index)
    ]

    -- It aborts at a node that cannot be found.
    pub rehash_loop-aborted :
        (j : ℕ) (node : N) (vacant : ℕ)
        → get_elem? t.nodes j ≡ some (some node)
        → get_index t (entry.key node) (entry.hash node) ≡ ok (false, vacant)
        → (left i : ℕ) → i ≤ j
        → j < i + left
        → rehash_loop allocated left i t ≡ aborted
    unfolding rehash_loop
    rehash_loop-aborted j node vacant ej lost zero i low high = absurd (omega arith)
    rehash_loop-aborted j node vacant ej lost (suc left) i low high =
        elim (Option-cases (get_elem? t.nodes i)) [
          | inl e ↦ absurd (
              let (x, e') = lt-get_elem? t.nodes i (omega (arith, get_elem?-lt t.nodes j ej)) in
              ground arith)
          | inr (none, e) ↦ ground (arith, rehash_loop-aborted j node vacant ej lost left (i + 1))
          | inr (some x, e) ↦
              let ((b, index), run) = get_index_total t (entry.key x) (entry.hash x) width room in
              ground (
                arith,
                rehash_loop-aborted j node vacant ej lost left (i + 1),
                found_here i x index,
              )
        ]

  module _ {t : Slots N} (valid : IsValid t) (small : t.number_nodes * 2 < 2 ^ 64) where
    pub expand-width : length (expand t).nodes ≡ (expand t).number_nodes
    unfolding expand
    expand-width = omega (
      arith,
      length-append t.nodes (replicate t.number_nodes none),
      length-replicate {A = Option N} t.number_nodes none,
      valid.width,
    )

    pub expand-number : (expand t).number_nodes ≡ t.number_nodes * 2
    unfolding expand
    expand-number = omega arith

    pub expand-roomy : occupied (expand t).nodes < length (expand t).nodes
    unfolding expand
    expand-roomy = omega (
      arith,
      expand-width,
      occupied-append_vacant t.nodes t.number_nodes,
      length-append t.nodes (replicate t.number_nodes none),
      valid.width,
      valid.counted,
      valid.roomy,
    )

    -- The lower half is the old array, the upper half is null.
    pub expand-lower :
        (i : ℕ) → i < t.number_nodes → get_elem? (expand t).nodes i ≡ get_elem? t.nodes i
    unfolding expand
    expand-lower i h =
        get_elem?-append_left t.nodes (replicate t.number_nodes none) i (omega (arith, valid.width))

    pub expand-upper :
        (i : ℕ)
        → t.number_nodes ≤ i
        → i < t.number_nodes * 2
        → get_elem? (expand t).nodes i ≡ some none
    unfolding expand
    expand-upper i low high =
        let e : i ≡ length t.nodes + (i - t.number_nodes) = omega (arith, valid.width) in
        rw e (
          get_elem?-append_right t.nodes (replicate t.number_nodes none) (i - t.number_nodes)
          ∙ get_elem?-replicate t.number_nodes (i - t.number_nodes) none (omega arith))

    expand-below :
        (i : ℕ) (x : N) → get_elem? (expand t).nodes i ≡ some (some x) → i < t.number_nodes
    unfolding expand
    expand-below i x e = elim (Bool-cases (ltb i t.number_nodes)) [
      | inl h ↦ ground arith
      | inr h ↦
          let below = get_elem?-lt (expand t).nodes i e in
          absurd (ground (arith, expand-upper i, expand-width))
    ]

    pub expand-IsDistinct : IsDistinct (expand t).nodes
    expand-IsDistinct i j x y ex ey at =
        let hi = expand-below i x ex in
        let hj = expand-below j y ey in
        IsValid-IsDistinct valid i j x y (sym (expand-lower i hi) ∙ ex)
          (sym (expand-lower j hj) ∙ ey) at

    -- A key whose slot in the doubled array lies in the new half is not found.
    pub expand-lost :
        (key : CString) (hash : ℕ)
        → t.number_nodes ≤ hash % (t.number_nodes * 2)
        → get_index (expand t) key hash ≡ ok (false, hash % (t.number_nodes * 2))
    expand-lost key hash upper =
        let in_range : hash % (t.number_nodes * 2) < t.number_nodes * 2 =
          ground (arith, valid.roomy) in
        ground (
          arith,
          expand-number,
          expand-upper (hash % (t.number_nodes * 2)) upper in_range,
          get_index-vacant (expand t) key hash,
        )

    -- A node whose slot lies in the new half makes the doubling abort.
    pub grow_aborts :
        (alloc : Alloc) (i : ℕ) (node : N)
        → over_load t.used_nodes t.number_nodes ≡ true
        → alloc.realloc ≡ true
        → get_elem? t.nodes i ≡ some (some node)
        → t.number_nodes ≤ entry.hash node % (t.number_nodes * 2)
        → grow alloc t ≡ aborted
    unfolding grow rehash
    grow_aborts alloc i node full reallocated e upper =
        let here = get_elem?-lt t.nodes i e in
        let stop =
          rehash_loop-aborted alloc.move (expand t) expand-IsDistinct expand-width expand-roomy i
            node _ (expand-lower i (omega (arith, valid.width)) ∙ e)
            (expand-lost (entry.key node) (entry.hash node) upper) (expand t).number_nodes 0
            (omega arith) (unfold expand in omega (arith, valid.width)) in
        rw (full, reallocated, stop)

    -- A doubling that does not abort moves no node.
    pub grow-expand :
        (alloc : Alloc) (t' : Slots N)
        → over_load t.used_nodes t.number_nodes ≡ true
        → grow alloc t ≡ ok (success, t')
        → t' ≡ expand t
    unfolding grow rehash
    grow-expand alloc t' full h = ground (
      arith,
      rehash_loop-unchanged alloc.move (expand t) expand-IsDistinct expand-width expand-roomy
          (expand t).number_nodes 0 t',
    )

  -- What a successful `insert` went through.
  pub insert-grown :
      (alloc : Alloc) (t : Slots N) (node : N) (index : ℕ) {t'' : Slots N}
      → insert alloc t node index ≡ ok (success, t'')
      → (t' : Slots N) × (grow alloc t ≡ ok (success, t'))
        × (t'' ≡ record (assign_node alloc.node t' node index) {
          used_nodes = (t'.used_nodes + 1) % 2 ^ 64;
        })
  unfolding insert
  insert-grown alloc t node index {t''} h = go (grow alloc t) refl
    where
      go :
          (o : Outcome (ErrorCode × Slots N))
          → grow alloc t ≡ o
          → (t' : Slots N) × (grow alloc t ≡ ok (success, t'))
            × (t'' ≡ record (assign_node alloc.node t' node index) {
              used_nodes = (t'.used_nodes + 1) % 2 ^ 64;
            })
      go (ok (success, t')) e = (t', e, ground arith)
      go (ok (not_found, t')) e = absurd (ground arith)
      go _ e = absurd (ground arith)
