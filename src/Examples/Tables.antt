-- ===== src/Examples/Tables.antt =====
-- Small tables of util/hash_table.c. Of three slots, the keys a and g both belong to slot 0.
use fapolicyd_analyzer.Base.{
  ◌≡◌, refl, true, none, some, [], ◌∷◌, CString, codes, str_eq, ok, success, arith,
}
use mathlib.Core.Path.{subst}
use fapolicyd_analyzer.Fnv.{hash, hash_from}
use fapolicyd_analyzer.Probe
use fapolicyd_analyzer.Probe.{
  Alloc, Slots, get_index, free_index, over_load, assign_node, insert, grow, probe, meets, is_at,
  next_index,
}
use fapolicyd_analyzer.Probe.Fresh.{vacant}
use fapolicyd_analyzer.HashTable.{
  node_entry, new_node, HashTable, add, contains, remove, clear, count, values_of, holds,
  initialize,
}
use fapolicyd_analyzer.HashTable.Valid.{IsValid, contains-values_of}
use fapolicyd_analyzer.HashTable.Add.{IsPut, add-IsPut}
use fapolicyd_analyzer.HashTable.Remove.{IsTaken, remove-IsTaken}
use fapolicyd_analyzer.HashTable.Run.{
  vacant_table-IsValid, clear-IsEmpty, add_all, last_value, values_of-add_all,
}

abbrev enough : Alloc
enough = record { realloc = true; move = λ i. true; node = true }

abbrev key_a : CString
key_a = codes "a"

abbrev key_g : CString
key_g = codes "g"

program : Unit {0}
unfolding hash_from hash get_index probe meets is_at str_eq next_index add insert grow over_load
    assign_node free_index
program = tt

abbrev a_table : HashTable
a_table = record {
  nodes = some (new_node key_a 7) ∷ none ∷ none ∷ [];
  number_nodes = 3;
  used_nodes = 1;
}

a_table-IsValid : IsValid a_table
unfolding program
a_table-IsValid =
    let (table, run, put) =
      add-IsPut (vacant_table-IsValid 3 (omega arith) (omega arith)) key_a 7 enough refl refl in
    let same : table ≡ a_table = ground arith in subst IsValid same put.valid

add-IsPut_example :
    (table : HashTable) × (add enough a_table key_a 9 ≡ ok (success, table))
    × IsPut a_table key_a 9 table
unfolding program
add-IsPut_example = add-IsPut a_table-IsValid key_a 9 enough refl refl

contains-values_of_example : contains a_table key_g ≡ ok (holds key_g a_table.nodes)
contains-values_of_example = contains-values_of a_table-IsValid key_g

clear-IsEmpty_example :
    IsValid (clear a_table)
    × ((key : CString) → values_of key (clear a_table).nodes ≡ [])
    × (count (clear a_table) ≡ 0)
    × ((clear a_table).number_nodes ≡ 3)
clear-IsEmpty_example = clear-IsEmpty a_table-IsValid

values_of-add_all_example :
    (table : HashTable) × (add_all enough (vacant 3) ((key_a, 7) ∷ (key_a, 9) ∷ []) ≡ ok table)
    × ((k : CString) → values_of k table.nodes ≡ last_value k [] ((key_a, 7) ∷ (key_a, 9) ∷ []))
    × ((k : CString) → contains table k ≡ ok (holds k table.nodes))
unfolding initialize Probe.initialize
values_of-add_all_example =
    values_of-add_all 3 enough ((key_a, 7) ∷ (key_a, 9) ∷ []) (vacant 3) refl (omega arith)
      (omega arith) refl (omega arith)

remove-IsTaken_example :
    (table : HashTable) × (remove a_table key_a ≡ ok (holds key_a a_table.nodes, table))
    × IsTaken a_table key_a table
remove-IsTaken_example = remove-IsTaken a_table-IsValid key_a
