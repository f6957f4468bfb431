-- ===== src/Probe/Next.antt =====
-- The walk over the slots by `hash_set_next` and `hash_table_next`.
use fapolicyd_analyzer.Base.{
  ℕ, zero, suc, ◌+◌, ◌-◌, ◌≤◌, ◌<◌, ◌≡◌, refl, ◌∙◌, ap, inl, inr, Option, none, some, List, [], ◌∷◌,
  get_elem?, drop, length, lt-get_elem?, Outcome, ok, arith, Option-cases,
}
use fapolicyd_analyzer.Probe.{Slots, next, next_loop}

module _ {A : Type 0} where
  drop-cons :
      (xs : List A) (i : ℕ) (x : A) → get_elem? xs i ≡ some x → drop i xs ≡ x ∷ drop (suc i) xs
  drop-cons [] i x h = ground arith
  drop-cons (y ∷ xs) zero x h = ground arith
  drop-cons (y ∷ xs) (suc i) x h = drop-cons xs i x h

  drop_step :
      (xs : List A) (i : ℕ) (x : A) → get_elem? xs i ≡ some x → drop i xs ≡ x ∷ drop (i + 1) xs
  drop_step xs i x h = let e : i + 1 ≡ suc i = omega arith in rw e (drop-cons xs i x h)

  drop-length : (xs : List A) → drop (length xs) xs ≡ []
  drop-length [] = refl
  drop-length (x ∷ xs) = drop-length xs

module _ {N : Type 0} where
  -- The nodes in the order of their slots.
  unfoldable pub stored : List (Option N) → List N
  stored [] = []
  stored (none ∷ nodes) = stored nodes
  stored (some node ∷ nodes) = node ∷ stored nodes

  -- One call from index `i`: the first node from there on and the index behind it, or the end.
  pub data NextNode (nodes : List (Option N)) (i : ℕ) (r : Outcome (Option N × ℕ)) : Type 0 where
    at_end : r ≡ ok (none, length nodes) → stored (drop i nodes) ≡ [] → NextNode nodes i r
    at_node :
        (node : N) (j : ℕ)
        → r ≡ ok (some node, j)
        → i < j
        → j ≤ length nodes
        → stored (drop i nodes) ≡ node ∷ stored (drop j nodes)
        → NextNode nodes i r

  skip :
      {nodes : List (Option N)} {i : ℕ} {r r' : Outcome (Option N × ℕ)}
      → r' ≡ r
      → stored (drop i nodes) ≡ stored (drop (i + 1) nodes)
      → NextNode nodes (i + 1) r
      → NextNode nodes i r'
  skip e s (at_end run rest) = at_end (e ∙ run) (s ∙ rest)
  skip e s (at_node node j run low high rest) =
      at_node node j (e ∙ run) (omega arith) high (s ∙ rest)

  next_loop-NextNode :
      (left i : ℕ) (nodes : List (Option N))
      → i + left ≡ length nodes
      → NextNode nodes i (next_loop left i nodes)
  unfolding next_loop stored
  next_loop-NextNode zero i nodes e =
      let i_end : i ≡ length nodes = omega arith in
      at_end (ap (λ k. ok (none, k)) i_end) (rw (i_end, drop-length nodes))
  next_loop-NextNode (suc left) i nodes e = elim (Option-cases (get_elem? nodes i)) [
    | inl h ↦ absurd (let (x, h') = lt-get_elem? nodes i (omega arith) in ground arith)
    | inr (some node, h) ↦
        at_node node (i + 1) (rw (h, next_loop)) (omega arith) (omega arith)
          (ap stored (drop_step nodes i (some node) h))
    | inr (none, h) ↦
        skip (rw (h, next_loop)) (ap stored (drop_step nodes i none h))
          (next_loop-NextNode left (i + 1) nodes (omega arith))
  ]

  -- One call of `hash_set_next` or `hash_table_next` from an index within the array, whose length
  -- is the size of the table: either no node stands from there on and the call returns the end, or
  -- it returns the first such node and an index behind it from which exactly the nodes after that
  -- node remain.
  pub next-NextNode :
      (t : Slots N) (i : ℕ)
      → length t.nodes ≡ t.number_nodes
      → i ≤ t.number_nodes
      → NextNode t.nodes i (next t i)
  unfolding next
  next-NextNode t i width h = next_loop-NextNode (t.number_nodes - i) i t.nodes (omega arith)

  -- Behind the end there is no node.
  pub next-behind : (t : Slots N) (i : ℕ) → t.number_nodes ≤ i → next t i ≡ ok (none, i)
  unfolding next next_loop
  next-behind t i behind = let no_rounds : t.number_nodes - i ≡ 0 = omega arith in rw no_rounds refl
