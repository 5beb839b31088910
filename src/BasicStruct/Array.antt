-- ===== src/BasicStruct/Array.antt =====
-- src/basic_struct/array.h: the array of fixed capacity, over cells inside the object.
-- `none` is a failed `assert`. `cap` is the template's CAPACITY.
pub mod Refine
use rock_coro.Prelude.{
  ℕ, zero, suc, ◌+◌, ◌-◌, Bool, Option, none, some, ltb, leb, ◌==◌, if◌then◌else◌,
}
use rock_coro.BasicStruct.Memory.{Memory, blank, write, copy_from}

pub record Array (A : Type 0) : Type 0 where
  pub cells : Memory A
  pub size : ℕ

module _ {A : Type 0} where
  -- `Array()`
  pub new : Array A
  new = record { cells = blank A; size = 0 }

  pub empty : Array A → Bool
  empty a = a.size == 0

  -- `operator[]`
  pub index : Array A → ℕ → Option A
  index a i = if ltb i a.size then a.cells i else none

  -- The copy constructor.
  pub copy : Array A → Array A
  unfolding copy_from
  copy other = record { cells = copy_from other.size 0 other.cells (blank A); size = other.size }

  pub destroy_all : Array A → Memory A
  unfolding copy_from
  destroy_all a = copy_from a.size 0 (λ _. none) a.cells

  -- Copy assignment into the cells of `this`; `same` is `this == &other`.
  pub assign : Bool → Array A → Array A → Array A
  unfolding copy_from destroy_all
  assign same this other = if same then this else record {
    cells = copy_from other.size 0 other.cells (destroy_all this);
    size = other.size;
  }

  -- Move construction: the new array, and the one moved from.
  pub move : Array A → Array A × Array A
  unfolding copy destroy_all
  move other = (copy other, record { cells = destroy_all other; size = 0 })

  -- Move assignment.
  pub move_assign : Bool → Array A → Array A → Array A × Array A
  unfolding assign
  move_assign same this other =
      if same
      then (this, this)
      else (assign same this other, record { cells = destroy_all other; size = 0 })

  pub clear : Array A → Array A
  unfolding destroy_all
  clear a = record { cells = destroy_all a; size = 0 }

  pub pop_back : Array A → Option (Array A)
  pop_back a =
      if ltb 0 a.size
      then some (record { cells = write a.cells (a.size - 1) none; size = a.size - 1 })
      else none

  module _ (cap : ℕ) where
    -- `Array(n)`, where `x` is `T()`
    pub new_sized : ℕ → A → Option (Array A)
    unfolding copy_from
    new_sized n x =
        if leb n cap
        then some (record { cells = copy_from n 0 (λ _. some x) (blank A); size = n })
        else none

    -- Both overloads of `push_back`.
    pub push_back : Array A → A → Option (Array A)
    push_back a x =
        if ltb a.size cap
        then some (record { cells = write a.cells a.size (some x); size = a.size + 1 })
        else none

    -- The new element comes back.
    pub emplace_back : Array A → A → Option (Array A × A)
    emplace_back a x =
        if ltb a.size cap
        then some (record { cells = write a.cells a.size (some x); size = a.size + 1 }, x)
        else none
