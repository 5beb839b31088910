-- ===== src/BasicStruct/Vector.antt =====
-- src/basic_struct/vector.h: the growing array.
-- Sizes stay far below 2 ^ 64, so `size_t` does not wrap. Each access to the buffer is checked against
-- its capacity, and `overrun` is one that fails this.
pub mod Refine
pub mod Run
use rock_coro.Prelude.{
  ℕ, zero, suc, ◌+◌, ◌-◌, ◌*◌, Bool, Option, none, some, ltb, leb, ◌==◌, if◌then◌else◌,
}
use rock_coro.BasicStruct.Memory.{Memory, blank, write}
use rock_coro.BasicStruct.Buffer.{
  Outcome, returns, aborted, overrun, ◌>>=◌, load, construct, destruct, copy_objects, destroy_from,
}

pub record Vector (A : Type 0) : Type 0 where
  pub cells : Memory A
  pub size : ℕ
  pub capacity : ℕ

-- The capacity that `ensure_capacity` picks.
abbrev pub grown_capacity : ℕ → ℕ → ℕ
grown_capacity capacity min_cap =
    let new_cap = if capacity == 0 then 1 else capacity * 2 in
    if ltb new_cap min_cap then min_cap else new_cap

module _ {A : Type 0} where
  -- `Vector()`, with the template's `CAPACITY`
  pub new : ℕ → Vector A
  new capacity = record { cells = blank A; size = 0; capacity = capacity }

  -- `Vector(n)`, where `x` is `T()`
  pub new_sized : ℕ → A → Outcome (Vector A)
  unfolding copy_objects
  new_sized n x = do
    cells ← copy_objects n 0 n (λ _. some x) n (blank A)
    returns (record { cells = cells; size = n; capacity = n })

  pub empty : Vector A → Bool
  empty v = v.size == 0

  pub destroy_all : Vector A → Outcome (Memory A)
  unfolding destroy_from
  destroy_all v = destroy_from v.size 0 v.capacity v.cells

  -- The copy constructor.
  pub copy : Vector A → Outcome (Vector A)
  unfolding copy_objects
  copy other = do
    cells ← copy_objects other.size 0 other.capacity other.cells other.capacity (blank A)
    returns (record { cells = cells; size = other.size; capacity = other.capacity })

  -- Copy assignment; `same` is `this == &other`.
  pub assign : Bool → Vector A → Vector A → Outcome (Vector A)
  unfolding copy destroy_all
  assign same this other = if same then returns this else (destroy_all this >>= λ _. copy other)

  -- The state that a move leaves behind.
  abbrev pub moved_from : Vector A
  moved_from = record { cells = blank A; size = 0; capacity = 0 }

  -- The move constructor: the new vector, and the one moved from.
  pub move : Vector A → Vector A × Vector A
  move other = (other, moved_from)

  -- Move assignment.
  pub move_assign : Bool → Vector A → Vector A → Outcome (Vector A × Vector A)
  unfolding destroy_all
  move_assign same this other =
      if same then returns (this, this) else (destroy_all this >>= λ _. returns (other, moved_from))

  -- `operator[]`
  pub index : Vector A → ℕ → Outcome A
  index v i = if ltb i v.size then load v.capacity v.cells i else aborted

  -- The objects move to a new buffer; those that they leave are destroyed.
  pub grow : ℕ → Vector A → Outcome (Vector A)
  unfolding copy_objects destroy_all
  grow new_cap v = do
    cells ← copy_objects v.size 0 v.capacity v.cells new_cap (blank A)
    destroy_all v >>= λ _. returns (record { cells = cells; size = v.size; capacity = new_cap })

  pub ensure_capacity : ℕ → Vector A → Outcome (Vector A)
  unfolding grow
  ensure_capacity min_cap v =
      if leb min_cap v.capacity then returns v else grow (grown_capacity v.capacity min_cap) v

  -- Both overloads of `push_back`.
  pub push_back : Vector A → A → Outcome (Vector A)
  unfolding ensure_capacity
  push_back v x = do
    w ← ensure_capacity (v.size + 1) v
    cells ← construct w.capacity w.cells w.size x
    returns (record w { cells = cells; size = w.size + 1 })

  -- The new element comes back.
  pub emplace_back : Vector A → A → Outcome (Vector A × A)
  unfolding ensure_capacity
  emplace_back v x = do
    w ← ensure_capacity (v.size + 1) v
    cells ← construct w.capacity w.cells w.size x
    y ← load w.capacity cells w.size
    returns (record w { cells = cells; size = w.size + 1 }, y)

  pub pop_back : Vector A → Outcome (Vector A)
  pop_back v =
      if ltb 0 v.size
      then (do
        cells ← destruct v.capacity v.cells (v.size - 1)
        returns (record v { cells = cells; size = v.size - 1 }))
      else aborted

  pub clear : Vector A → Outcome (Vector A)
  unfolding destroy_all
  clear v = do cells ← destroy_all v; returns (record v { cells = cells; size = 0 })
