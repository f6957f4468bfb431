-- ===== src/Cli/Main/Emit.antt =====
-- What `emit_rules` prints.
use mathlib.Core.List.{append-nil}
use fapolicyd_analyzer.Base.{
  ◌∙◌, ℕ, zero, suc, ◌+◌, ltb, Bool-cases, inl, inr, ◌≤◌, ◌<◌, ◌≡◌, refl, ap, Option, some, List,
  [], ◌∷◌, ◌++◌, map, CString, length, drop, ok, arith,
}
use fapolicyd_analyzer.Probe.Next.{stored, next-NextNode, next-behind, at_end, at_node}
use fapolicyd_analyzer.HashSet
use fapolicyd_analyzer.HashSet.{Node, node_entry, HashSet}
use fapolicyd_analyzer.Cli.Main.{emit_loop, emit_rules}

-- the keys of nodes in slots
abbrev pub keys_of : List (Option Node) → List CString
keys_of nodes = map (λ n. n.key) (stored nodes)

emit_loop-keys_of :
    (fuel : ℕ) (set : HashSet) (i : ℕ)
    → length set.nodes ≡ set.number_nodes
    → i ≤ set.number_nodes
    → set.number_nodes < i + fuel
    → emit_loop fuel set i ≡ ok (keys_of (drop i set.nodes), set.number_nodes)
unfolding emit_loop HashSet.next
emit_loop-keys_of zero set i width below enough = absurd (omega arith)
emit_loop-keys_of (suc fuel) set i width below enough = elim (next-NextNode set i width below) [
  | at_end run rest ↦ ground (arith, ap (map (λ (n : Node). n.key)) rest)
  | at_node node j run low high rest ↦
      let onward = emit_loop-keys_of fuel set j width (omega (arith, width)) (omega arith) in
      ground (arith, ap (map (λ (n : Node). n.key)) rest)
]

-- behind the end there is nothing more to print
emit_loop-behind :
    (fuel : ℕ) (set : HashSet) (i : ℕ)
    → set.number_nodes ≤ i
    → emit_loop (suc fuel) set i ≡ ok ([], i)
unfolding emit_loop HashSet.next
emit_loop-behind fuel set i behind = rw (next-behind set i behind) refl

drop-outside : (n : ℕ) (nodes : List (Option Node)) → length nodes ≤ n → drop n nodes ≡ []
drop-outside zero [] h = refl
drop-outside (suc n) [] h = refl
drop-outside zero (x ∷ nodes) h = absurd (omega arith)
drop-outside (suc n) (x ∷ nodes) h = drop-outside n nodes (omega arith)

-- Let both sets of rules have arrays of the length that they record. Then `emit_rules` ends without
-- a fault and prints the keys of the allow rules in the order of their slots, and behind them only
-- those keys of the deny rules whose slot number is at least the number of slots of the allow
-- rules.
pub emit_rules-keys_of :
    (allow deny : HashSet)
    → length allow.nodes ≡ allow.number_nodes
    → length deny.nodes ≡ deny.number_nodes
    → emit_rules (record { allow_rules = some allow; deny_rules = some deny })
      ≡ ok (keys_of allow.nodes ++ keys_of (drop allow.number_nodes deny.nodes))
unfolding emit_rules stored
emit_rules-keys_of allow deny width width' =
    let first =
      emit_loop-keys_of (allow.number_nodes + 1) allow 0 width (omega arith) (omega arith) in
    elim (Bool-cases (ltb allow.number_nodes deny.number_nodes)) [
      | inl more ↦
          let second =
            emit_loop-keys_of (deny.number_nodes + 1) deny allow.number_nodes width' (ground arith)
              (omega arith) in
          ground (arith, first, second)
      | inr done ↦
          let one_more : deny.number_nodes + 1 ≡ suc deny.number_nodes = omega arith in
          let second : emit_loop (deny.number_nodes + 1) deny allow.number_nodes
              ≡ ok ([], allow.number_nodes) =
            rw one_more
              (emit_loop-behind deny.number_nodes deny allow.number_nodes (ground arith)) in
          let nothing = drop-outside allow.number_nodes deny.nodes (ground (arith, width')) in
          ground (arith, first, second, ap keys_of nothing)
    ]

-- No deny rule is printed when there are no more slots for these than for the allow rules.
pub emit_rules-allow :
    (allow deny : HashSet)
    → length allow.nodes ≡ allow.number_nodes
    → length deny.nodes ≡ deny.number_nodes
    → deny.number_nodes ≤ allow.number_nodes
    → emit_rules (record { allow_rules = some allow; deny_rules = some deny })
      ≡ ok (keys_of allow.nodes)
unfolding stored
emit_rules-allow allow deny width width' fewer =
    emit_rules-keys_of allow deny width width'
    ∙ ap (λ (nodes : List (Option Node)). ok (keys_of allow.nodes ++ keys_of nodes))
        (drop-outside allow.number_nodes deny.nodes (omega arith))
    ∙ ap ok (append-nil (keys_of allow.nodes))
