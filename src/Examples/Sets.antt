-- ===== src/Examples/Sets.antt =====
-- Small sets of util/hash_set.c. In a set of three slots the keys a, b and g belong to slot 0 and
-- c to slot 2; of six slots, b belongs to slot 3 and e to slot 4.
use fapolicyd_analyzer.Base.{
  ℕ, ◌≡◌, refl, inr, true, false, none, some, [], ◌∷◌, CString, codes, ok, aborted, success, arith,
  str_eq, Option,
}
use mathlib.Core.Path.{subst}
use fapolicyd_analyzer.Fnv.{hash, hash_from}
use fapolicyd_analyzer.Probe
use fapolicyd_analyzer.Probe.{
  Alloc, Slots, get_index, over_load, assign_node, insert, grow, rehash, rehash_loop, expand, probe,
  meets, is_at, next_index,
}
use fapolicyd_analyzer.Probe.Fresh.{vacant}
use fapolicyd_analyzer.Probe.Next.{NextNode, next-NextNode}
use fapolicyd_analyzer.HashSet.{
  Node, node_entry, new_node, HashSet, add, contains, remove, initialize, clear, count, holds,
}
use fapolicyd_analyzer.HashSet.Valid.{IsValid, contains-holds}
use fapolicyd_analyzer.HashSet.Add.{IsAdded, add-IsAdded}
use fapolicyd_analyzer.HashSet.Grow.{add-aborts, add-lost}
use fapolicyd_analyzer.HashSet.Remove.{IsRemoved, remove-IsRemoved, remove-loses}
use fapolicyd_analyzer.HashSet.Run.{
  vacant_set-IsValid, clear-IsValid, add_all, elem, contains-add_all,
}

abbrev enough : Alloc
enough = record { realloc = true; move = λ i. true; node = true }

abbrev key_a : CString
key_a = codes "a"

abbrev key_b : CString
key_b = codes "b"

abbrev key_c : CString
key_c = codes "c"

abbrev key_e : CString
key_e = codes "e"

abbrev key_g : CString
key_g = codes "g"

-- the hash computes
program : Unit {0}
unfolding hash_from hash get_index probe meets is_at str_eq next_index rehash rehash_loop expand add
    insert grow over_load assign_node holds
program = tt

abbrev of_three : Option Node → Option Node → Option Node → ℕ → HashSet
of_three x y z used = record { nodes = x ∷ y ∷ z ∷ []; number_nodes = 3; used_nodes = used }

abbrev a_only : HashSet
a_only = of_three (some (new_node key_a)) none none 1

abbrev a_c : HashSet
a_c = of_three (some (new_node key_a)) none (some (new_node key_c)) 2

abbrev a_g : HashSet
a_g = of_three (some (new_node key_a)) (some (new_node key_g)) none 2

abbrev b_only : HashSet
b_only = of_three (some (new_node key_b)) none none 1

abbrev b_c : HashSet
b_c = of_three (some (new_node key_b)) none (some (new_node key_c)) 2

-- a set that `hash_set_add` returns is well formed
added-IsValid :
    {set : HashSet} (valid : IsValid set) (key : CString) (set' : HashSet)
    → over_load set.used_nodes set.number_nodes ≡ false
    → add enough set key ≡ ok (success, set')
    → IsValid set'
added-IsValid valid key set' light run =
    let (set'', run', added) = add-IsAdded valid key enough light refl in
    let same : set'' ≡ set' = ground arith in subst IsValid same added.valid

a_only-IsValid : IsValid a_only
unfolding program
a_only-IsValid =
    added-IsValid (vacant_set-IsValid 3 (omega arith) (omega arith)) key_a a_only refl refl

b_only-IsValid : IsValid b_only
unfolding program
b_only-IsValid =
    added-IsValid (vacant_set-IsValid 3 (omega arith) (omega arith)) key_b b_only refl refl

a_c-IsValid : IsValid a_c
unfolding program
a_c-IsValid = added-IsValid a_only-IsValid key_c a_c refl refl

a_g-IsValid : IsValid a_g
unfolding program
a_g-IsValid = added-IsValid a_only-IsValid key_g a_g refl refl

b_c-IsValid : IsValid b_c
unfolding program
b_c-IsValid = added-IsValid b_only-IsValid key_c b_c refl refl

add-IsAdded_example :
    (set' : HashSet) × (add enough a_only key_c ≡ ok (success, set')) × IsAdded a_only key_c set'
unfolding program
add-IsAdded_example = add-IsAdded a_only-IsValid key_c enough refl refl

contains-holds_example : contains a_c key_g ≡ ok (holds key_g a_c.nodes)
contains-holds_example = contains-holds a_c-IsValid key_g

remove-IsRemoved_example :
    (set' : HashSet) × (remove a_g key_g ≡ ok (holds key_g a_g.nodes, set'))
    × IsRemoved a_g key_g set'
remove-IsRemoved_example = remove-IsRemoved a_g-IsValid key_g

remove-loses_example :
    (set' : HashSet) × (remove a_g key_a ≡ ok (true, set'))
    × (holds key_g set'.nodes ≡ true)
    × (contains set' key_g ≡ ok false)
unfolding program
remove-loses_example =
    remove-loses a_g-IsValid key_a key_g refl refl refl (λ e. absurd (ground arith))

add-aborts_example : add enough b_c key_e ≡ aborted
unfolding program
add-aborts_example =
    add-aborts b_c-IsValid (omega arith) refl key_e refl enough 0 (new_node key_b) refl refl
      (omega arith)

-- a and c where they stood, and b at the slot that was free between them
abbrev a_b_c : HashSet
a_b_c = record {
  nodes =
      some (new_node key_a)
      ∷ some (new_node key_b)
      ∷ some (new_node key_c)
      ∷ none
      ∷ none
      ∷ none
      ∷ [];
  number_nodes = 6;
  used_nodes = 3;
}

add-lost_example : contains a_b_c key_b ≡ ok false
unfolding program
add-lost_example =
    add-lost a_c-IsValid (omega arith) refl key_b refl enough a_b_c refl (omega arith)

clear-IsValid_example :
    IsValid (clear a_c)
    × ((key : CString) → contains (clear a_c) key ≡ ok false)
    × (count (clear a_c) ≡ 0)
    × ((clear a_c).number_nodes ≡ 3)
clear-IsValid_example = clear-IsValid a_c-IsValid

contains-add_all_example :
    (set : HashSet) × (add_all enough (vacant 3) (key_a ∷ key_g ∷ []) ≡ ok set)
    × ((k : CString) → contains set k ≡ ok (elem k (key_a ∷ key_g ∷ [])))
unfolding initialize Probe.initialize
contains-add_all_example =
    contains-add_all 3 enough (key_a ∷ key_g ∷ []) (vacant 3) refl (inr (omega arith)) (omega arith)
      refl (omega arith)

next-NextNode_example : NextNode a_c.nodes 1 (Probe.next a_c 1)
next-NextNode_example = next-NextNode a_c 1 refl (omega arith)
