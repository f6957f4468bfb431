-- ===== src/Probe/Walk.antt =====
-- What `_get_index` finds, and how a write to one slot changes it.
use fapolicyd_analyzer.Base.{
  ℕ, zero, suc, ◌+◌, ◌<◌, ◌≤◌, ◌≡◌, ◌≢◌, refl, ◌⊎◌, inl, inr, Bool, true, false, ◌==◌, Option, none,
  some, List, CString, get_elem?, set, length, get_elem?-set_self, get_elem?-set_ne, get_elem?-lt,
  lt-get_elem?, Outcome, ok, arith, Bool-cases,
}
use fapolicyd_analyzer.Probe.{
  Entry, Meets, outside, vacant, hit, other, next_index, is_at, meets, probe,
}

data CasesOfMeets : Meets → Type 0 where
  is_outside : {m : Meets} → m ≡ outside → CasesOfMeets m
  is_vacant : {m : Meets} → m ≡ vacant → CasesOfMeets m
  is_hit : {m : Meets} → m ≡ hit → CasesOfMeets m
  is_other : {m : Meets} → m ≡ other → CasesOfMeets m

Meets-cases : (m : Meets) → CasesOfMeets m
Meets-cases outside = is_outside refl
Meets-cases vacant = is_vacant refl
Meets-cases hit = is_hit refl
Meets-cases other = is_other refl

-- The loop has still to visit `v`, on the way up from `i` or after it went round the end, and
-- has the fuel to get there.
abbrev pub Ahead : (number_nodes idx fuel i v : ℕ) → Type 0
Ahead number_nodes idx fuel i v =
    ((i ≤ v) × (v < i + fuel) × ((idx ≤ i) ⊎ (v < idx)))
    ⊎ ((v < idx) × (idx ≤ i) × (v + number_nodes < i + fuel))

Ahead-next :
    (number_nodes idx fuel i v : ℕ) {width : ℕ}
    → i < number_nodes
    → idx < number_nodes
    → v < width
    → width ≡ number_nodes
    → Ahead number_nodes idx (suc fuel) i v
    → i ≢ v
    → ((next_index number_nodes i == idx) ≡ false)
      × (next_index number_nodes i < number_nodes)
      × Ahead number_nodes idx fuel (next_index number_nodes i) v
unfolding next_index
Ahead-next number_nodes idx fuel i v inside home below width ahead beyond =
    elim (Bool-cases (i + 1 == number_nodes)) [
      | inl e ↦ rw (e, next_index) (ground arith)
      | inr e ↦ rw (e, next_index) (ground arith)
    ]

module _ {N : Type 0} ⦃entry : Entry N⦄ (key : CString) (hash : ℕ) where
  pub meets-set_ne :
      (nodes : List (Option N)) (i j : ℕ) (x : Option N)
      → i ≢ j
      → meets key hash (set nodes i x) j ≡ meets key hash nodes j
  unfolding meets
  meets-set_ne nodes i j x ne = rw (get_elem?-set_ne nodes i j x ne, meets)

  pub meets-vacant :
      (nodes : List (Option N)) (i : ℕ)
      → meets key hash nodes i ≡ vacant
      → get_elem? nodes i ≡ some none
  unfolding meets
  meets-vacant nodes i h = ground arith

  pub vacant-meets :
      (nodes : List (Option N)) (i : ℕ)
      → get_elem? nodes i ≡ some none
      → meets key hash nodes i ≡ vacant
  unfolding meets
  vacant-meets nodes i h = rw (h, meets)

  pub meets-hit :
      (nodes : List (Option N)) (i : ℕ)
      → meets key hash nodes i ≡ hit
      → (node : N) × (get_elem? nodes i ≡ some (some node)) × (is_at key hash node ≡ true)
  unfolding meets
  meets-hit nodes i h = ground arith

  pub hit-meets :
      (nodes : List (Option N)) (i : ℕ) (node : N)
      → get_elem? nodes i ≡ some (some node)
      → is_at key hash node ≡ true
      → meets key hash nodes i ≡ hit
  unfolding meets
  hit-meets nodes i node h k = ground arith

  meets-inside :
      (nodes : List (Option N)) (i : ℕ) → i < length nodes → meets key hash nodes i ≢ outside
  unfolding meets
  meets-inside nodes i h = let (x, e) = lt-get_elem? nodes i h in ground arith

  module _ (number_nodes idx : ℕ) where
    abbrev found_at : List (Option N) → ℕ → ℕ → Outcome (Bool × ℕ)
    found_at nodes fuel i = probe key hash number_nodes idx nodes fuel i

    -- A probe that returns says what stands at the index.
    pub probe-true-meets :
        (nodes : List (Option N)) (fuel i j : ℕ)
        → found_at nodes fuel i ≡ ok (true, j)
        → meets key hash nodes j ≡ hit
    unfolding probe
    probe-true-meets nodes zero i j h = ground arith
    probe-true-meets nodes (suc fuel) i j h =
        ground (arith, probe-true-meets nodes fuel (next_index number_nodes i) j)

    pub probe-false-meets :
        (nodes : List (Option N)) (fuel i j : ℕ)
        → found_at nodes fuel i ≡ ok (false, j)
        → meets key hash nodes j ≡ vacant
    unfolding probe
    probe-false-meets nodes zero i j h = ground arith
    probe-false-meets nodes (suc fuel) i j h =
        ground (arith, probe-false-meets nodes fuel (next_index number_nodes i) j)

    -- A probe ends at once at a vacant slot.
    pub probe-vacant :
        (nodes : List (Option N)) (fuel i : ℕ)
        → 0 < fuel
        → get_elem? nodes i ≡ some none
        → found_at nodes fuel i ≡ ok (false, i)
    unfolding probe
    probe-vacant nodes zero i h free = absurd (omega arith)
    probe-vacant nodes (suc fuel) i h free = rw (vacant-meets nodes i free, probe)

    -- Filling a vacant slot leaves a probe that finds its node as it is.
    pub probe-set_vacant :
        (nodes : List (Option N)) (v : ℕ) (x : Option N) (fuel i j : ℕ)
        → get_elem? nodes v ≡ some none
        → found_at nodes fuel i ≡ ok (true, j)
        → found_at (set nodes v x) fuel i ≡ ok (true, j)
    unfolding probe
    probe-set_vacant nodes v x zero i j free h = ground arith
    probe-set_vacant nodes v x (suc fuel) i j free h = ground (
      arith,
      vacant-meets nodes v free,
      meets-set_ne nodes v i x,
      probe-set_vacant nodes v x fuel (next_index number_nodes i) j,
    )

    -- A node written to the slot where the probe for it ended is found there.
    pub probe-set_end :
        (nodes : List (Option N)) (node : N) (fuel i j : ℕ)
        → is_at key hash node ≡ true
        → found_at nodes fuel i ≡ ok (false, j)
        → found_at (set nodes j (some node)) fuel i ≡ ok (true, j)
    unfolding probe
    probe-set_end nodes node zero i j at h = ground arith
    probe-set_end nodes node (suc fuel) i j at h =
        let free = probe-false-meets nodes (suc fuel) i j h in
        ground (
          arith,
          meets-set_ne nodes j i (some node),
          hit-meets (set nodes j (some node)) j node,
          get_elem?-set_self nodes j (some node),
          get_elem?-lt nodes j {v = none},
          meets-vacant nodes j free,
          probe-set_end nodes node fuel (next_index number_nodes i) j,
        )

    -- With a vacant slot ahead and fuel to reach it the loop returns.
    pub probe_total :
        (nodes : List (Option N)) (v : ℕ)
        → get_elem? nodes v ≡ some none
        → length nodes ≡ number_nodes
        → idx < number_nodes
        → (fuel i : ℕ) → i < number_nodes
        → Ahead number_nodes idx fuel i v
        → (r : Bool × ℕ) × (found_at nodes fuel i ≡ ok r)
    unfolding probe
    probe_total nodes v free width home zero i inside ahead = absurd (omega arith)
    probe_total nodes v free width home (suc fuel) i inside ahead =
        elim (Meets-cases (meets key hash nodes i)) [
          | is_outside e ↦ absurd (meets-inside nodes i (omega arith) e)
          | is_vacant e ↦ ((false, i), rw (e, probe))
          | is_hit e ↦ ((true, i), rw (e, probe))
          | is_other e ↦
              let beyond : i ≢ v = ground (arith, vacant-meets nodes v) in
              let (onward, within, ahead') =
                Ahead-next number_nodes idx fuel i v inside home (get_elem?-lt nodes v free) width
                  ahead beyond in
              let (r, run) =
                probe_total nodes v free width home fuel (next_index number_nodes i) within
                  ahead' in
              (r, rw (e, probe, onward) run)
        ]
