-- ===== src/BasicStruct/Queue/Run.antt =====
-- Any sequence of calls on the segmented ring answers as a bounded queue would.
use rock_coro.Prelude.{
  ℕ, ◌+◌, ◌*◌, ◌<◌, ◌≡◌, refl, Option, none, some, List, [], ◌∷◌, ◌++◌, arith, ◌==◌, if◌then◌else◌,
  length, Bool-cases, inl, inr,
}
use rock_coro.Prelude.Refinement.{run, Matches, run-eq}
use rock_coro.BasicStruct.Queue.{Queue, new, push, pop}
use rock_coro.BasicStruct.Queue.Refine.{
  Represents, new-Represents, push_full, push-Represents, pop-empty, pop-Represents,
}

pub data Op (A : Type 0) : Type 0 where
  enqueue : A → Op A
  dequeue : Op A

-- `item none` is the null pointer.
pub data Reply (A : Type 0) : Type 0 where
  done : Reply A
  item : Option A → Reply A

module _ {A : Type 0} where
  abbrev pub accepted : {S : Type 0} → Option S → Option (S × Reply A)
  accepted none = none
  accepted (some s) = some (s, done)

  abbrev pub taken : {S : Type 0} → Option (S × Option A) → Option (S × Reply A)
  taken none = none
  taken (some (s, o)) = some (s, item o)

  -- A queue of at most `cap - 1` items.
  abbrev pub bounded_step : ℕ → List A → Op A → Option (List A × Reply A)
  bounded_step cap xs (enqueue x) =
      if (length xs + 1) == cap then none else some (xs ++ (x ∷ []), done)
  bounded_step cap [] dequeue = some ([], item none)
  bounded_step cap (x ∷ xs) dequeue = some (xs, item (some x))

  module _ (S C : ℕ) (d : A) where
    abbrev pub step : Queue A → Op A → Option (Queue A × Reply A)
    step q (enqueue x) = accepted (push S C d q x)
    step q dequeue = taken (pop S C q)

    enqueue-Matches :
        (q : Queue A) (xs : List A) (x : A)
        → Represents S C q xs
        → Matches (Represents S C) (step q (enqueue x)) (bounded_step (S * C) xs (enqueue x))
    enqueue-Matches q xs x r = elim (Bool-cases ((length xs + 1) == (S * C))) [
      | inl e ↦ rw (e, push_full S C d q xs x r (ground arith)) tt
      | inr e ↦ let p = push-Represents S C d q xs x r (ground arith) in rw (e, p.1) (p.2, refl)
    ]

    step-Matches :
        (q : Queue A) (xs : List A) (op : Op A)
        → Represents S C q xs
        → Matches (Represents S C) (step q op) (bounded_step (S * C) xs op)
    step-Matches q [] (enqueue x) r = enqueue-Matches q [] x r
    step-Matches q (y ∷ ys) (enqueue x) r = enqueue-Matches q (y ∷ ys) x r
    step-Matches q [] dequeue r = rw (pop-empty S C q r) (r, refl)
    step-Matches q (x ∷ xs) dequeue r = let p = pop-Represents S C q x xs r in rw p.1 (p.2, refl)

  -- With one segment of one item or more, no sequence of push and pop tells a new segmented queue
  -- from the empty queue of at most SEG_SIZE * SEG_COUNT - 1 items: both fail the assertion when
  -- one more is pushed, pop gives null when the queue is empty, and no null segment is read.
  pub queue_refines_bounded :
      (S C : ℕ) (d : A) (ops : List (Op A))
      → 0 < S * C
      → run (step S C d) new ops ≡ run (bounded_step (S * C)) [] ops
  queue_refines_bounded S C d ops p =
      run-eq (Represents S C) (step S C d) (bounded_step (S * C)) (step-Matches S C d) ops new []
        (new-Represents S C p)
