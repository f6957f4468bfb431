-- ===== src/Probe/Content.antt =====
-- What a node array holds, read slot by slot: the reference for `_get_index`.
use fapolicyd_analyzer.Base.{
  ℕ, zero, suc, ◌<◌, ◌≤◌, ◌≡◌, refl, Bool, true, false, ◌||◌, ◌∷◌, [], Option, none, some, List,
  ◌++◌, CString, str_eq→eq, str_eq_refl, get_elem?, set, length, replicate, arith, Bool-cases, inl,
  inr,
}
use fapolicyd_analyzer.Probe.{Entry, is_at}

module _ {N : Type 0} where
  -- The slots in use.
  unfoldable pub occupied : List (Option N) → ℕ
  occupied [] = 0
  occupied (none ∷ nodes) = occupied nodes
  occupied (some node ∷ nodes) = suc (occupied nodes)

  pub occupied-fill :
      (nodes : List (Option N)) (i : ℕ) (node : N)
      → get_elem? nodes i ≡ some none
      → occupied (set nodes i (some node)) ≡ suc (occupied nodes)
  unfolding occupied
  occupied-fill [] i node h = ground arith
  occupied-fill (none ∷ nodes) zero node h = refl
  occupied-fill (some x ∷ nodes) zero node h = ground arith
  occupied-fill (none ∷ nodes) (suc i) node h = occupied-fill nodes i node h
  occupied-fill (some x ∷ nodes) (suc i) node h = omega (arith, occupied-fill nodes i node h)

  pub occupied-free :
      (nodes : List (Option N)) (i : ℕ) (node : N)
      → get_elem? nodes i ≡ some (some node)
      → suc (occupied (set nodes i none)) ≡ occupied nodes
  unfolding occupied
  occupied-free [] i node h = ground arith
  occupied-free (none ∷ nodes) zero node h = ground arith
  occupied-free (some x ∷ nodes) zero node h = refl
  occupied-free (none ∷ nodes) (suc i) node h = occupied-free nodes i node h
  occupied-free (some x ∷ nodes) (suc i) node h = omega (arith, occupied-free nodes i node h)

  -- Null pointers at the end hold nothing.
  pub occupied-append_vacant :
      (nodes : List (Option N)) (n : ℕ) → occupied (nodes ++ replicate n none) ≡ occupied nodes
  unfolding occupied
  occupied-append_vacant [] zero = refl
  occupied-append_vacant [] (suc n) = occupied-append_vacant [] n
  occupied-append_vacant (none ∷ nodes) n = occupied-append_vacant nodes n
  occupied-append_vacant (some x ∷ nodes) n = omega (arith, occupied-append_vacant nodes n)

  -- A table that is not full has a vacant slot.
  pub vacancy :
      (nodes : List (Option N))
      → occupied nodes < length nodes
      → (v : ℕ) × (get_elem? nodes v ≡ some none)
  unfolding occupied
  vacancy [] h = absurd (omega arith)
  vacancy (none ∷ nodes) h = (0, refl)
  vacancy (some x ∷ nodes) h = let (v, e) = vacancy nodes (omega arith) in (suc v, e)

  -- A vacant slot can be filled only if there was room.
  pub occupied-le : (nodes : List (Option N)) → occupied nodes ≤ length nodes
  unfolding occupied
  occupied-le [] = omega arith
  occupied-le (none ∷ nodes) = omega (arith, occupied-le nodes)
  occupied-le (some x ∷ nodes) = omega (arith, occupied-le nodes)

module _ {N : Type 0} ⦃entry : Entry N⦄ where
  -- Some slot holds the key with this hash.
  unfoldable pub has : CString → ℕ → List (Option N) → Bool
  has key hash [] = false
  has key hash (none ∷ nodes) = has key hash nodes
  has key hash (some node ∷ nodes) = is_at key hash node || has key hash nodes

  pub is_at→eq :
      (key : CString) (hash : ℕ) (node : N)
      → is_at key hash node ≡ true
      → (key ≡ entry.key node) × (hash ≡ entry.hash node)
  unfolding is_at
  is_at→eq key hash node h = ground (arith, str_eq→eq key (entry.key node))

  pub is_at_self : (node : N) → is_at (entry.key node) (entry.hash node) node ≡ true
  unfolding is_at
  is_at_self node = ground (arith, str_eq_refl (entry.key node))

  module _ (key : CString) (hash : ℕ) where
    pub has→slot :
        (nodes : List (Option N))
        → has key hash nodes ≡ true
        → (i : ℕ) × (node : N) × (get_elem? nodes i ≡ some (some node))
          × (is_at key hash node ≡ true)
    unfolding has
    has→slot [] h = ground arith
    has→slot (none ∷ nodes) h = let (i, node, e, at) = has→slot nodes h in (suc i, node, e, at)
    has→slot (some x ∷ nodes) h = elim (Bool-cases (is_at key hash x)) [
      | inl e ↦ (0, x, refl, e)
      | inr e ↦ let (i, node, e, at) = has→slot nodes (ground arith) in (suc i, node, e, at)
    ]

    pub slot→has :
        (nodes : List (Option N)) (i : ℕ) (node : N)
        → get_elem? nodes i ≡ some (some node)
        → is_at key hash node ≡ true
        → has key hash nodes ≡ true
    unfolding has
    slot→has [] i node h at = ground arith
    slot→has (none ∷ nodes) zero node h at = ground arith
    slot→has (some x ∷ nodes) zero node h at = ground arith
    slot→has (none ∷ nodes) (suc i) node h at = slot→has nodes i node h at
    slot→has (some x ∷ nodes) (suc i) node h at = ground (arith, slot→has nodes i node)

    pub has-fill :
        (nodes : List (Option N)) (i : ℕ) (node : N)
        → get_elem? nodes i ≡ some none
        → has key hash (set nodes i (some node)) ≡ (is_at key hash node || has key hash nodes)
    unfolding has
    has-fill [] i node h = ground arith
    has-fill (none ∷ nodes) zero node h = refl
    has-fill (some x ∷ nodes) zero node h = ground arith
    has-fill (none ∷ nodes) (suc i) node h = has-fill nodes i node h
    has-fill (some x ∷ nodes) (suc i) node h = ground (arith, has-fill nodes i node)

    -- Clearing a slot removes no key but the one in it.
    pub has-free :
        (nodes : List (Option N)) (i : ℕ) (node : N)
        → get_elem? nodes i ≡ some (some node)
        → is_at key hash node ≡ false
        → has key hash (set nodes i none) ≡ has key hash nodes
    unfolding has
    has-free [] i node h at = ground arith
    has-free (none ∷ nodes) zero node h at = ground arith
    has-free (some x ∷ nodes) zero node h at = ground arith
    has-free (none ∷ nodes) (suc i) node h at = has-free nodes i node h at
    has-free (some x ∷ nodes) (suc i) node h at = ground (arith, has-free nodes i node)

    pub has-append_vacant :
        (nodes : List (Option N)) (n : ℕ)
        → has key hash (nodes ++ replicate n none) ≡ has key hash nodes
    unfolding has
    has-append_vacant [] zero = refl
    has-append_vacant [] (suc n) = has-append_vacant [] n
    has-append_vacant (none ∷ nodes) n = has-append_vacant nodes n
    has-append_vacant (some x ∷ nodes) n = ground (arith, has-append_vacant nodes n)
