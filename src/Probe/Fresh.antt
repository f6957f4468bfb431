-- ===== src/Probe/Fresh.antt =====
-- The table without nodes that `initialize` and `clear` leave.
use mathlib.Core.List.{append_assoc}
use fapolicyd_analyzer.Base.{
  set-middle, ℕ, ◌+◌, ◌≤◌, ◌<◌, ◌^◌, ◌≡◌, refl, sym, ap, ◌∙◌, Option, none, some, List, [], ◌∷◌,
  ◌++◌, length, replicate, get_elem?, get_elem?-lt, set, get_elem?-replicate, length-replicate,
  length-append, arith,
}
use fapolicyd_analyzer.Probe.{Entry, Slots, clear, clear_loop}
use fapolicyd_analyzer.Probe.Content.{occupied, occupied-append_vacant}
use fapolicyd_analyzer.Probe.Valid.{IsValid}

module _ {N : Type 0} where
  -- `n` null pointers
  abbrev pub vacant : ℕ → Slots N
  vacant n = record { nodes = replicate n none; number_nodes = n; used_nodes = 0 }

  pub no_node : (n i : ℕ) (node : N) → get_elem? (replicate n none) i ≡ some (some node) → ⊥
  no_node n i node e =
      let below = get_elem?-lt (replicate n none) i e in
      ground
        (arith, get_elem?-replicate {A = Option N} n i none, length-replicate {A = Option N} n none)

  -- The slots before `i` are done; the rest become null.
  clear_loop-append :
      (nodes before : List (Option N)) (i : ℕ)
      → i ≡ length before
      → clear_loop (length nodes) i (before ++ nodes) ≡ before ++ replicate (length nodes) none
  unfolding clear_loop
  clear_loop-append [] before i e = refl
  clear_loop-append (x ∷ nodes) before i e =
      let one_more : i + 1 ≡ length (before ++ none ∷ []) =
        omega (arith, length-append before (none ∷ [])) in
      let ih = clear_loop-append nodes (before ++ none ∷ []) (i + 1) one_more in
      let left : (before ++ none ∷ []) ++ nodes ≡ before ++ none ∷ nodes = simp append_assoc in
      let right : (before ++ none ∷ []) ++ replicate (length nodes) none
          ≡ before ++ none ∷ replicate (length nodes) none =
        simp append_assoc in
      let here : set (before ++ x ∷ nodes) i none ≡ before ++ none ∷ nodes =
        rw e (set-middle before nodes x none) in
      ap (λ rest. clear_loop (length nodes) (i + 1) rest) (here ∙ sym left) ∙ ih ∙ right

  pub clear-vacant :
      (t : Slots N) → length t.nodes ≡ t.number_nodes → clear t ≡ vacant t.number_nodes
  unfolding clear
  clear-vacant t width =
      let cleared : clear_loop t.number_nodes 0 t.nodes ≡ replicate t.number_nodes none =
        rw width at (clear_loop-append t.nodes [] 0 refl) in
      rw cleared

module _ {N : Type 0} ⦃entry : Entry N⦄ where
  pub vacant-IsValid : (n : ℕ) → 1 ≤ n → n < 2 ^ 64 → IsValid (vacant {N = N} n)
  vacant-IsValid n wide fits = record {
    width = length-replicate n none;
    counted = sym (occupied-append_vacant {N = N} [] n ∙ unfold occupied in refl);
    roomy = omega arith;
    fits = fits;
    reach = λ i node e. absurd (no_node n i node e);
  }
