-- ===== src/Probe/Replace.antt =====
-- Writing over a node of the same key and hash, as `_table_add` does: no probe notices.
use fapolicyd_analyzer.Base.{
  ℕ, zero, suc, ◌%◌, ◌≡◌, refl, sym, ◌∙◌, ap, inl, inr, Option, none, some, List, [], ◌∷◌, CString,
  get_elem?, get_elem?-lt, get_elem?-set_self, get_elem?-set_ne, set, length-set, arith, ◌==◌,
  Bool-cases,
}
use fapolicyd_analyzer.Probe.{Entry, Slots, is_at, meets, probe, next_index, get_index}
use fapolicyd_analyzer.Probe.Content.{occupied}
use fapolicyd_analyzer.Probe.Fill.{filled}
use fapolicyd_analyzer.Probe.Valid.{IsValid}

pub set-set {ℓ} : {A : Type ℓ} (xs : List A) (i : ℕ) (a b : A) → set (set xs i a) i b ≡ set xs i b
set-set [] i a b = refl
set-set (x ∷ xs) zero a b = refl
set-set (x ∷ xs) (suc i) a b = ap (◌∷◌ x) (set-set xs i a b)

occupied-replace :
    {N : Type 0} (nodes : List (Option N)) (i : ℕ) (x y : N)
    → get_elem? nodes i ≡ some (some x)
    → occupied (set nodes i (some y)) ≡ occupied nodes
unfolding occupied
occupied-replace [] i x y h = refl
occupied-replace (none ∷ nodes) zero x y h = ground arith
occupied-replace (some z ∷ nodes) zero x y h = refl
occupied-replace (none ∷ nodes) (suc i) x y h = occupied-replace nodes i x y h
occupied-replace (some z ∷ nodes) (suc i) x y h = ap suc (occupied-replace nodes i x y h)

module _ {N : Type 0} ⦃entry : Entry N⦄ where
  module _ (x y : N) (same_key : entry.key x ≡ entry.key y)
      (same_hash : entry.hash x ≡ entry.hash y) where
    meets-replace :
        (key : CString) (hash : ℕ) (nodes : List (Option N)) (i j : ℕ)
        → get_elem? nodes i ≡ some (some x)
        → meets key hash (set nodes i (some y)) j ≡ meets key hash nodes j
    unfolding meets is_at
    meets-replace key hash nodes i j h = elim (Bool-cases (i == j)) [
      | inl e ↦
          ground (arith, get_elem?-set_self nodes i (some y), get_elem?-lt nodes i {v = some x})
      | inr e ↦ ground (arith, get_elem?-set_ne nodes i j (some y))
    ]

    probe-replace :
        (key : CString) (hash number_nodes idx : ℕ) (nodes : List (Option N)) (i : ℕ)
        → get_elem? nodes i ≡ some (some x)
        → (fuel j : ℕ)
        → probe key hash number_nodes idx (set nodes i (some y)) fuel j
          ≡ probe key hash number_nodes idx nodes fuel j
    unfolding probe
    probe-replace key hash number_nodes idx nodes i h zero j = refl
    probe-replace key hash number_nodes idx nodes i h (suc fuel) j = ground (
      arith,
      meets-replace key hash nodes i j h,
      probe-replace key hash number_nodes idx nodes i h fuel (next_index number_nodes j),
    )

    pub get_index-replace :
        (t : Slots N) (key : CString) (hash i used : ℕ)
        → get_elem? t.nodes i ≡ some (some x)
        → get_index (filled t i y used) key hash ≡ get_index t key hash
    unfolding get_index
    get_index-replace t key hash i used h = ground (
      arith,
      probe-replace key hash t.number_nodes (hash % t.number_nodes) t.nodes i h t.number_nodes
          (hash % t.number_nodes),
    )

    pub replace-IsValid :
        {t : Slots N}
        → IsValid t
        → (i : ℕ) → get_elem? t.nodes i ≡ some (some x)
        → IsValid (filled t i y t.used_nodes)
    replace-IsValid {t} valid i h = record {
      width = length-set t.nodes i (some y) ∙ valid.width;
      counted = valid.counted ∙ sym (occupied-replace t.nodes i x y h);
      roomy = valid.roomy;
      fits = valid.fits;
      reach = λ j z e.
          get_index-replace t (entry.key z) (entry.hash z) i t.used_nodes h
          ∙ elim (Bool-cases (i == j)) [
            | inl same ↦ ground (
              arith,
              valid.reach i x h,
              get_elem?-set_self t.nodes i (some y),
              get_elem?-lt t.nodes i {v = some x},
            )
            | inr ne ↦
                valid.reach j z (sym (get_elem?-set_ne t.nodes i j (some y) (ground arith)) ∙ e)
          ];
    }
