-- ===== src/Probe.antt =====
-- The open addressing that util/hash_set.c and util/hash_table.c each spell out: an array of node
-- pointers, probed linearly from `hash % number_nodes`. The two files differ in the node only, so
-- the functions are written once, over the key and the hash of a node.
pub mod Walk
pub mod Content
pub mod Valid
pub mod Fill
pub mod Grow
pub mod Free
pub mod Replace
pub mod Next
pub mod Fresh
use fapolicyd_analyzer.Base.{
  ℕ, zero, suc, ◌+◌, ◌*◌, ◌%◌, ◌^◌, ◌-◌, Bool, true, false, ◌&&◌, ◌==◌, ltb, if◌then◌else◌, Option,
  none, some, List, ◌++◌, CString, str_eq, get_elem?, set, replicate, Outcome, ok, aborted, fault,
  out_of_fuel, ◌>>=◌, ErrorCode, success, allocation_error,
}

-- `node->key` and `node->hash`
pub record Entry (N : Type 0) : Type 0 where
  pub key : N → CString
  pub hash : N → ℕ

-- `hash_set_t` and `hash_table_t`; a null pointer is `none`
pub record Slots (N : Type 0) : Type 0 where
  pub nodes : List (Option N)
  pub number_nodes : ℕ
  pub used_nodes : ℕ

-- What a probe meets at one index: no such index, a null pointer, the node looked for, another.
pub data Meets : Type 0 where
  outside vacant hit other : Meets

-- `if (++i == number_nodes) i = 0`
unfoldable pub next_index : ℕ → ℕ → ℕ
next_index number_nodes i = if i + 1 == number_nodes then 0 else i + 1

module _ {N : Type 0} ⦃entry : Entry N⦄ where
  -- `hash == node->hash && 0 == strcmp(key, node->key)`
  unfoldable pub is_at : CString → ℕ → N → Bool
  is_at key hash node = hash == entry.hash node && str_eq key (entry.key node)

  unfoldable pub meets : CString → ℕ → List (Option N) → ℕ → Meets
  meets key hash nodes i = elim (get_elem? nodes i) [
    | none ↦ outside
    | some none ↦ vacant
    | some (some node) ↦ if is_at key hash node then hit else other
  ]

  -- The loop of `_get_index` from index `i`.
  unfoldable pub probe :
      CString → ℕ → (number_nodes idx : ℕ) → List (Option N) → (fuel i : ℕ) → Outcome (Bool × ℕ)
  probe key hash number_nodes idx nodes zero i = out_of_fuel
  probe key hash number_nodes idx nodes (suc fuel) i = elim (meets key hash nodes i) [
    | outside ↦ fault
    | vacant ↦ ok (false, i)
    | hit ↦ ok (true, i)
    | other ↦ elim (next_index number_nodes i == idx) [
      | true ↦ aborted
      | false ↦ probe key hash number_nodes idx nodes fuel (next_index number_nodes i)
    ]
  ]

  -- `_get_index`; the remainder by zero is undefined in C
  unfoldable pub get_index : Slots N → CString → ℕ → Outcome (Bool × ℕ)
  get_index t key hash =
      let idx = hash % t.number_nodes in
      if t.number_nodes == 0
      then fault
      else probe key hash t.number_nodes idx t.nodes t.number_nodes idx

  -- `_free_index`
  unfoldable pub free_index : Slots N → ℕ → Slots N
  free_index t i = record t { nodes = set t.nodes i none }

  -- `_assign_node`: whether the allocations succeed is the first argument; a failed one leaves the
  -- table as it is.
  unfoldable pub assign_node : Bool → Slots N → N → ℕ → Slots N
  assign_node allocated t node i =
      if allocated then record t { nodes = set t.nodes i (some node) } else t

  -- `_rehash_set` and `_rehash_table` from index `i`, `left` indices before the end. The first
  -- argument says for each index whether the allocations for its move succeed; the first failure
  -- ends the loop. The callers ignore the code that it returns.
  unfoldable pub rehash_loop : (ℕ → Bool) → (left i : ℕ) → Slots N → Outcome (Slots N)
  rehash_loop allocated zero i t = ok t
  rehash_loop allocated (suc left) i t = elim (get_elem? t.nodes i) [
    | none ↦ fault
    | some none ↦ rehash_loop allocated left (i + 1) t
    | some (some node) ↦ elim (get_index t (entry.key node) (entry.hash node)) [
      | ok (false, index) ↦ aborted
      | ok (true, index) ↦ elim (i == index) [
        | true ↦ rehash_loop allocated left (i + 1) t
        | false ↦ elim (allocated i) [
          | true ↦ rehash_loop allocated left (i + 1) (free_index (assign_node true t node index) i)
          | false ↦ ok t
        ]
      ]
      | aborted ↦ aborted
      | fault ↦ fault
      | out_of_fuel ↦ out_of_fuel
    ]
  ]

  unfoldable pub rehash : (ℕ → Bool) → Slots N → Outcome (Slots N)
  rehash allocated t = rehash_loop allocated t.number_nodes 0 t

  -- `_table_remove` and `hash_set_remove`; `--used_nodes` wraps at 2 ^ 64
  unfoldable pub remove : Slots N → CString → ℕ → Outcome (Bool × Slots N)
  remove t key hash = do
    (found, index) ← get_index t key hash
    if found
        then ok (
          true,
          record (free_index t index) { used_nodes = (t.used_nodes + 2 ^ 64 - 1) % 2 ^ 64 },
        )
        else ok (false, t)

  -- the result of `_get_index`, without the index
  unfoldable pub contains : Slots N → CString → ℕ → Outcome Bool
  contains t key hash = do (found, index) ← get_index t key hash; ok found

-- `(float)used_nodes / number_nodes > 0.65`. The quotient is a float, rounded to nearest, and
-- 0.65 a double. The least float above that double is 10905191 / 2 ^ 24, and a quotient rounds
-- to it or higher exactly if it lies above the midpoint 21810381 / 2 ^ 25 (a tie goes to the
-- even neighbour below). Both operands are floats exactly up to 2 ^ 24 nodes.
unfoldable pub over_load : ℕ → ℕ → Bool
over_load used_nodes number_nodes = ltb (21810381 * number_nodes) (2 ^ 25 * used_nodes)

module _ {N : Type 0} where
  -- `realloc` to twice the size, the new half null
  unfoldable pub expand : Slots N → Slots N
  expand t = record {
    nodes = t.nodes ++ replicate t.number_nodes none;
    number_nodes = t.number_nodes * 2 % 2 ^ 64;
    used_nodes = t.used_nodes;
  }

  -- `hash_set_initialize` and `hash_table_initialize`; `none` is ALLOCATION_ERROR
  unfoldable pub initialize : Bool → ℕ → Option (Slots N)
  initialize allocated num_nodes =
      let n = if ltb 0 num_nodes then num_nodes else 1024 in
      if allocated
      then some (record { nodes = replicate n none; number_nodes = n; used_nodes = 0 })
      else none

  clear_loop : (left i : ℕ) → List (Option N) → List (Option N)
  clear_loop zero i nodes = nodes
  clear_loop (suc left) i nodes = clear_loop left (i + 1) (set nodes i none)

  -- `hash_set_clear` and `hash_table_clear`
  unfoldable pub clear : Slots N → Slots N
  unfolding clear_loop
  clear t = record t { nodes = clear_loop t.number_nodes 0 t.nodes; used_nodes = 0 }

  next_loop : (left i : ℕ) → List (Option N) → Outcome (Option N × ℕ)
  next_loop zero i nodes = ok (none, i)
  next_loop (suc left) i nodes = elim (get_elem? nodes i) [
    | none ↦ fault
    | some none ↦ next_loop left (i + 1) nodes
    | some (some node) ↦ ok (some node, i + 1)
  ]

  -- `hash_set_next` and `hash_table_next`: the node found from `*index` on, and the new `*index`
  unfoldable pub next : Slots N → ℕ → Outcome (Option N × ℕ)
  unfolding next_loop
  next t index = next_loop (t.number_nodes - index) index t.nodes

-- Which allocations of one call succeed: `realloc`, the two of a moved node (by the index that it
-- leaves), and the two of the new node.
pub record Alloc : Type 0 where
  pub realloc : Bool
  pub move : ℕ → Bool
  pub node : Bool

module _ {N : Type 0} ⦃entry : Entry N⦄ where
  -- The middle of `_set_add` and `_table_add`: double the array if the load is over 0.65.
  unfoldable pub grow : Alloc → Slots N → Outcome (ErrorCode × Slots N)
  grow alloc t =
      if over_load t.used_nodes t.number_nodes
      then (if alloc.realloc
          then (do t' ← rehash alloc.move (expand t); ok (success, t'))
          else ok (allocation_error, t))
      else ok (success, t)

  -- The end of both: the node goes to the index that was found before the array was doubled.
  unfoldable pub insert : Alloc → Slots N → N → ℕ → Outcome (ErrorCode × Slots N)
  insert alloc t node index = do
    (code, t') ← grow alloc t
    elim code [
      | success ↦ ok (
        success,
        record (assign_node alloc.node t' node index) { used_nodes = (t'.used_nodes + 1) % 2 ^ 64 },
      )
      | other_code ↦ ok (other_code, t')
    ]
