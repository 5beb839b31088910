-- ===== src/BasicStruct/ChunkedVector/Run.antt =====
-- Any sequence of calls on a chunked vector answers as it would on a list.
use rock_coro.Prelude.{
  ℕ, ◌-◌, Option, none, some, List, [], ◌∷◌, ◌++◌, get_elem?, length, Bool, ◌==◌,
}
use rock_coro.BasicStruct.ChunkedVector.{
  ChunkedVector, empty, index, at, front, back, push_back, pop_back, clear, resize, without_last,
}
use rock_coro.BasicStruct.ChunkedVector.Refine.{resized}

pub data Op (A : Type 0) : Type 0 where
  push : A → Op A
  pop : Op A
  read : ℕ → Op A
  checked_read : ℕ → Op A
  first : Op A
  last : Op A
  fit : ℕ → A → Op A
  wipe : Op A
  count : Op A
  is_empty : Op A

-- `checked none` is the exception of `at`.
pub data Reply (A : Type 0) : Type 0 where
  done : Reply A
  value : A → Reply A
  checked : Option A → Reply A
  number : ℕ → Reply A
  flag : Bool → Reply A

module _ {A : Type 0} where
  abbrev pub shown : {S : Type 0} → S → Option A → Option (S × Reply A)
  shown s none = none
  shown s (some x) = some (s, value x)

  abbrev pub list_step : List A → Op A → Option (List A × Reply A)
  list_step xs (push x) = some (xs ++ (x ∷ []), done)
  list_step xs pop = some (without_last xs, done)
  list_step xs (read i) = shown xs (get_elem? xs i)
  list_step xs (checked_read i) = some (xs, checked (get_elem? xs i))
  list_step xs first = shown xs (get_elem? xs 0)
  list_step xs last = shown xs (get_elem? xs (length xs - 1))
  list_step xs (fit n x) = some (resized n x xs, done)
  list_step xs wipe = some ([], done)
  list_step xs count = some (xs, number (length xs))
  list_step xs is_empty = some (xs, flag (length xs == 0))

  module _ (B : ℕ) (d : A) where
    abbrev pub step : ChunkedVector A → Op A → Option (ChunkedVector A × Reply A)
    step v (push x) = some (push_back B v x, done)
    step v pop = some (pop_back v, done)
    step v (read i) = shown v (index B v i)
    step v (checked_read i) = some (v, checked (at B v i))
    step v first = shown v (front B v)
    step v last = shown v (back B v)
    step v (fit n x) = some (resize B d n x v, done)
    step v wipe = some (clear v, done)
    step v count = some (v, number v.total_size)
    step v is_empty = some (v, flag (empty v))
