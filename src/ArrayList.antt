-- ===== src/ArrayList.antt =====
-- util/array_list.c: a growing array of pointers.
pub mod Refines
pub mod Ends
use fapolicyd_analyzer.Base.{
  ℕ, zero, suc, ◌+◌, ◌-◌, ◌*◌, ◌%◌, ◌^◌, Bool, true, false, ltb, if◌then◌else◌, Option, none, some,
  List, [], ◌∷◌, ◌++◌, get_elem?, set, length, replicate, take, Outcome, ok, fault, out_of_fuel,
  ◌>>=◌, ErrorCode, success, allocation_error, range_error,
}

-- `array_list_t` of pointers. `values` is null or a block of `capacity` cells, of which those that
-- were never written are `none`.
pub record ArrayList : Type 0 where
  pub size : ℕ
  pub capacity : ℕ
  pub values : Option (List (Option ℕ))

-- `array_list_construct`
unfoldable pub construct : Bool → Option ArrayList
construct allocated =
    if allocated then some (record { size = 0; capacity = 0; values = none }) else none

-- `while (new_capacity < size) new_capacity *= 2;` with its wrap at 2 ^ 64
unfoldable pub double_until : (fuel new_capacity size : ℕ) → Outcome ℕ
double_until zero new_capacity size = out_of_fuel
double_until (suc fuel) new_capacity size = elim (ltb new_capacity size) [
  | true ↦ double_until fuel (new_capacity * 2 % 2 ^ 64) size
  | false ↦ ok new_capacity
]

-- the cells that `realloc` keeps; a null pointer has none
abbrev pub cells : Option (List (Option ℕ)) → List (Option ℕ)
cells none = []
cells (some xs) = xs

-- `array_list_initialize`; a refused `realloc` leaves `values` null and the rest as it was
unfoldable pub initialize : Bool → ArrayList → ℕ → Outcome (ErrorCode × ArrayList)
initialize allocated l size =
    if ltb l.capacity size
    then (do
      new_capacity ← double_until 65 (if ltb l.capacity 1024 then 1024 else l.capacity) size
      if allocated
          then ok (
            success,
            record l {
              capacity = new_capacity;
              values = some (cells l.values ++ replicate (new_capacity - l.capacity) none);
            },
          )
          else ok (allocation_error, record l { values = none }))
    else ok (success, l)

-- `values[i]`; a null pointer, a cell outside the block and one never written are faults
unfoldable pub load : Option (List (Option ℕ)) → ℕ → Outcome ℕ
load values i = elim (get_elem? (cells values) i) [
  | none ↦ fault
  | some none ↦ fault
  | some (some x) ↦ ok x
]

-- `values[i] = x`
unfoldable pub store : Option (List (Option ℕ)) → ℕ → ℕ → Outcome (Option (List (Option ℕ)))
store values i x =
    if ltb i (length (cells values)) then ok (some (set (cells values) i (some x))) else fault

-- `array_list_size`
unfoldable pub size_of : ArrayList → ℕ
size_of l = l.size

-- `array_list_get`; null is `none`
unfoldable pub get : ArrayList → ℕ → Outcome (Option ℕ)
get l index = if ltb index l.size then (do x ← load l.values index; ok (some x)) else ok none

-- `array_list_set`
unfoldable pub put : ArrayList → ℕ → ℕ → Outcome (ErrorCode × ArrayList)
put l index x =
    if ltb index l.size
    then (do values ← store l.values index x; ok (success, record l { values = values }))
    else ok (range_error, l)

-- `array_list_push`
unfoldable pub push : Bool → ArrayList → ℕ → Outcome (ErrorCode × ArrayList)
push allocated l x = do
  (rc, l') ← initialize allocated l (l.size + 1)
  elim rc [
    | success ↦ do
      values ← store l'.values l'.size x
      ok (success, record l' { size = l'.size + 1; values = values })
    | code ↦ ok (code, l')
  ]

-- `array_list_pop`
unfoldable pub pop : ArrayList → Outcome (Option ℕ × ArrayList)
pop l =
    if ltb 0 l.size
    then (do x ← load l.values (l.size - 1); ok (some x, record l { size = l.size - 1 }))
    else ok (none, l)

-- `array_list_clear`
unfoldable pub clear : ArrayList → ArrayList
clear l = record l { size = 0 }
