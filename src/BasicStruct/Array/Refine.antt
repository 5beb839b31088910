-- ===== src/BasicStruct/Array/Refine.antt =====
-- An array behaves as the list of its elements, never longer than its capacity.
use rock_coro.Prelude.{ℕ, ◌≤◌, ◌≡◌, Option, none, some, List, arith, ltb, if◌then◌else◌, length}
use rock_coro.BasicStruct.Memory.{Holds, copy_from_lem, blank}
use rock_coro.BasicStruct.Sequence.{
  Op, push, emplace, pop, at, wipe, duplicate, count, Reply, done, value, number, answer, popped,
  list_step,
}
use rock_coro.BasicStruct.Array.{Array, copy, index, push_back, emplace_back, pop_back, clear}

abbrev pub emplaced : {A S : Type 0} → Option (S × A) → Option (S × Reply A)
emplaced none = none
emplaced (some (s, x)) = some (s, value x)

module _ {A : Type 0} (cap : ℕ) where
  -- The cells below `size` hold the list, which fits the capacity, and no other cell of the
  -- capacity or beyond it holds anything.
  pub record Represents (a : Array A) (xs : List A) : Type 0 where
    pub size_eq : a.size ≡ length xs
    pub room : a.size ≤ cap
    pub holds : Holds a.cells (λ i. i) xs
    pub raw : (i : ℕ) → a.size ≤ i → a.cells i ≡ none

  abbrev pub step : Array A → Op A → Option (Array A × Reply A)
  step a (push x) = popped (push_back cap a x)
  step a (emplace x) = emplaced (emplace_back cap a x)
  step a pop = popped (pop_back a)
  step a (at i) = answer a (index a i)
  step a wipe = some (clear a, done)
  step a duplicate = some (copy a, done)
  step a count = some (a, number a.size)

  -- The list, with both kinds of insertion refused at the capacity.
  abbrev pub bounded_step : List A → Op A → Option (List A × Reply A)
  bounded_step xs (push x) = if ltb (length xs) cap then list_step xs (push x) else none
  bounded_step xs (emplace x) = if ltb (length xs) cap then list_step xs (emplace x) else none
  bounded_step xs pop = list_step xs pop
  bounded_step xs (at i) = list_step xs (at i)
  bounded_step xs wipe = list_step xs wipe
  bounded_step xs duplicate = list_step xs duplicate
  bounded_step xs count = list_step xs count

  module _ (a : Array A) (xs : List A) (r : Represents a xs) where
    pub copy-Represents : Represents (copy a) xs
    unfolding copy
    copy-Represents = record {
      size_eq = r.size_eq;
      room = r.room;
      holds =
          λ i p. ground (arith, copy_from_lem a.size 0 i a.cells (blank A), r.holds i, r.size_eq);
      raw = λ i p. ground (arith, copy_from_lem a.size 0 i a.cells (blank A));
    }
