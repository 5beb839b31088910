-- ===== src/BasicStruct/Deque.antt =====
-- src/basic_struct/deque.h: the growing ring buffer.
-- Sizes stay far below 2 ^ 63, so `size_t` does not wrap. `none` is a failed `assert`.
pub mod Refine
mod Tests
use rock_coro.Prelude.{
  ℕ, zero, suc, ◌+◌, ◌-◌, ◌*◌, ◌%◌, Bool, Option, none, some, ltb, leb, ◌==◌, if◌then◌else◌,
}
use rock_coro.BasicStruct.Memory.{Memory, blank, write, copy_from}

pub record Deque (A : Type 0) : Type 0 where
  pub cells : Memory A
  pub size : ℕ
  pub capacity : ℕ
  pub head : ℕ

-- The capacity that `ensure_capacity` picks.
abbrev pub grown_capacity : ℕ → ℕ → ℕ
grown_capacity capacity min_cap =
    let new_cap = if capacity == 0 then 1 else capacity * 2 in
    if ltb new_cap min_cap then min_cap else new_cap

module _ {A : Type 0} where
  -- `Deque()`, with the template's INITIAL_CAPACITY
  pub new : ℕ → Deque A
  new capacity = record { cells = blank A; size = 0; capacity = capacity; head = 0 }

  pub empty : Deque A → Bool
  empty d = d.size == 0

  abbrev pub physical_index : Deque A → ℕ → ℕ
  physical_index d i = (d.head + i) % d.capacity

  -- The objects move to a new buffer in their logical order; the old one is destroyed.
  pub ensure_capacity : ℕ → Deque A → Deque A
  unfolding copy_from
  ensure_capacity min_cap d = if leb min_cap d.capacity then d else record {
    cells = copy_from d.size 0 (λ i. d.cells (physical_index d i)) (blank A);
    size = d.size;
    capacity = grown_capacity d.capacity min_cap;
    head = 0;
  }

  -- Both overloads of `push_back`.
  pub push_back : Deque A → A → Deque A
  unfolding ensure_capacity
  push_back d x =
      let w = ensure_capacity (d.size + 1) d in
      record w { cells = write w.cells (physical_index w w.size) (some x); size = w.size + 1 }

  pub pop_front : Deque A → Option (Deque A)
  pop_front d =
      if ltb 0 d.size
      then some (record d {
        cells = write d.cells d.head none;
        head = (d.head + 1) % d.capacity;
        size = d.size - 1;
      })
      else none

  -- Both overloads of `front`.
  pub front : Deque A → Option A
  front d = if ltb 0 d.size then d.cells d.head else none
