-- ===== src/BasicStruct/Deque/Refine.antt =====
-- A deque behaves as the queue of its elements.
use native.Mathlib.Nat.{mod-eq_of_lt, zero-add}
use rock_coro.Prelude.{
  ℕ, suc, ◌+◌, ◌-◌, ◌%◌, ◌≤◌, ◌<◌, ◌≡◌, refl, ap, sym, Option, none, some, List, [], ◌∷◌, ◌++◌,
  arith, leb, length, length-append, Bool-cases, inl, inr,
}
use rock_coro.Prelude.Ring.{mod-wrap, round_apart, next_index}
use rock_coro.Prelude.Refinement.{run, Matches, run-eq}
use rock_coro.BasicStruct.Memory.{Holds, Holds-snoc, copy_from_lem, write, blank}
use rock_coro.BasicStruct.Deque.{
  Deque, new, physical_index, ensure_capacity, push_back, pop_front, front, grown_capacity,
}

-- Entry `i` of the queue lies `i` cells after `head`, round the buffer.
pub record Represents {A : Type 0} (d : Deque A) (xs : List A) : Type 0 where
  pub size_eq : d.size ≡ length xs
  pub room : d.size ≤ d.capacity
  pub head_in : d.head ≤ d.capacity - 1
  pub holds : Holds d.cells (physical_index d) xs

module _ {A : Type 0} where
  new-Represents : (capacity : ℕ) → Represents {A = A} (new capacity) []
  unfolding new
  new-Represents capacity = record {
    size_eq = refl;
    room = omega arith;
    head_in = omega arith;
    holds = λ i p. absurd (omega arith);
  }

  -- Room for one more is there after `ensure_capacity`, and the queue is the same.
  ensure_capacity-Represents :
      (d : Deque A) (xs : List A)
      → Represents d xs
      → Represents (ensure_capacity (d.size + 1) d) xs
        × ((ensure_capacity (d.size + 1) d).size < (ensure_capacity (d.size + 1) d).capacity)
  unfolding ensure_capacity
  ensure_capacity-Represents d xs r = elim (Bool-cases (leb (d.size + 1) d.capacity)) [
    | inl e ↦ rw e (r, ground arith)
    | inr e ↦
        let more : d.size < grown_capacity d.capacity (d.size + 1) = ground arith in
        rw e (
          record {
            size_eq = r.size_eq;
            room = omega (arith, more);
            head_in = omega arith;
            holds = λ i p.
                rw
                  (mod-eq_of_lt {n = 0 + i} {m = grown_capacity d.capacity (d.size + 1)}
                    (omega (arith, more, r.size_eq)))
                  (rw (zero-add i) (
                    ground (
                      arith,
                      copy_from_lem d.size 0 i (λ j. d.cells (physical_index d j)) (blank A),
                      r.holds i,
                      r.size_eq,
                    )));
          },
          more,
        )
  ]

  push_back-Represents :
      (d : Deque A) (xs : List A) (x : A)
      → Represents d xs
      → Represents (push_back d x) (xs ++ (x ∷ []))
  unfolding push_back
  push_back-Represents d xs x r =
      let w = ensure_capacity (d.size + 1) d in
      let (g, more) = ensure_capacity-Represents d xs r in
      record {
        size_eq = omega (arith, g.size_eq, length-append xs (x ∷ []));
        room = omega (arith, more);
        head_in = g.head_in;
        holds =
            Holds-snoc w.cells (physical_index w) xs x (physical_index w w.size) g.holds
              (ap (physical_index w) (sym g.size_eq))
              (λ i p.
                round_apart w.capacity w.head i w.size (omega (arith, g.size_eq)) more
                  (omega (arith, g.head_in)));
      }

  front-Represents : (d : Deque A) (x : A) (xs : List A) → Represents d (x ∷ xs) → front d ≡ some x
  unfolding front
  front-Represents d x xs r =
      let here : d.cells ((d.head + 0) % d.capacity) ≡ some x = r.holds 0 (omega arith) in
      ground (arith, here, r.size_eq, r.room, r.head_in, mod-wrap (d.head + 0) d.capacity)

  front-empty : (d : Deque A) → Represents d [] → front d ≡ none
  unfolding front
  front-empty d r = ground (arith, r.size_eq)

  pop_front-empty : (d : Deque A) → Represents d [] → pop_front d ≡ none
  unfolding pop_front
  pop_front-empty d r = ground (arith, r.size_eq)

  pop_front-Represents :
      (d : Deque A) (x : A) (xs : List A)
      → Represents d (x ∷ xs)
      → (e : Deque A) × (pop_front d ≡ some e) × Represents e xs
  unfolding pop_front
  pop_front-Represents d x xs r =
      let cap_pos : 0 < d.capacity = omega (arith, r.size_eq, r.room) in
      let head_lt : d.head < d.capacity = omega (arith, r.head_in) in
      (
        record d {
          cells = write d.cells d.head none;
          head = (d.head + 1) % d.capacity;
          size = d.size - 1;
        },
        ground (arith, r.size_eq),
        record {
          size_eq = omega (arith, r.size_eq);
          room = omega (arith, r.room);
          head_in = ground (arith, mod-wrap (d.head + 1) d.capacity);
          holds = λ i p.
              let after = r.holds (suc i) (omega arith) in
              let apart =
                round_apart d.capacity d.head 0 (suc i) (omega arith)
                  (omega (arith, r.size_eq, r.room)) head_lt in
              rw (next_index d.capacity d.head i)
                (ground (arith, after, apart, mod-wrap (d.head + 0) d.capacity));
        },
      )

pub data Op (A : Type 0) : Type 0 where
  push : A → Op A
  pop : Op A
  first : Op A
  count : Op A

pub data Reply (A : Type 0) : Type 0 where
  done : Reply A
  value : A → Reply A
  number : ℕ → Reply A

module _ {A : Type 0} where
  abbrev pub popped : {S : Type 0} → Option S → Option (S × Reply A)
  popped none = none
  popped (some s) = some (s, done)

  abbrev pub shown : {S : Type 0} → S → Option A → Option (S × Reply A)
  shown s none = none
  shown s (some x) = some (s, value x)

  abbrev pub step : Deque A → Op A → Option (Deque A × Reply A)
  step d (push x) = some (push_back d x, done)
  step d pop = popped (pop_front d)
  step d first = shown d (front d)
  step d count = some (d, number d.size)

  abbrev pub queue_step : List A → Op A → Option (List A × Reply A)
  queue_step xs (push x) = some (xs ++ (x ∷ []), done)
  queue_step [] pop = none
  queue_step (x ∷ xs) pop = some (xs, done)
  queue_step [] first = none
  queue_step (x ∷ xs) first = some (x ∷ xs, value x)
  queue_step xs count = some (xs, number (length xs))

  step-Matches :
      (d : Deque A) (xs : List A) (op : Op A)
      → Represents d xs
      → Matches Represents (step d op) (queue_step xs op)
  step-Matches d [] (push x) r = (push_back-Represents d [] x r, refl)
  step-Matches d (y ∷ ys) (push x) r = (push_back-Represents d (y ∷ ys) x r, refl)
  step-Matches d [] pop r = rw (pop_front-empty d r) tt
  step-Matches d (x ∷ xs) pop r = let p = pop_front-Represents d x xs r in rw p.1 (p.2, refl)
  step-Matches d [] first r = rw (front-empty d r) tt
  step-Matches d (x ∷ xs) first r = rw (front-Represents d x xs r) (r, refl)
  step-Matches d [] count r = (r, ap number r.size_eq)
  step-Matches d (x ∷ xs) count r = (r, ap number r.size_eq)

  -- No sequence of push_back, pop_front, front and size tells a new deque of any initial capacity
  -- from the empty unbounded queue; both fail the same assertions.
  pub deque_refines_queue :
      (capacity : ℕ) (ops : List (Op A)) → run step (new capacity) ops ≡ run queue_step [] ops
  deque_refines_queue capacity ops =
      run-eq Represents step queue_step step-Matches ops (new capacity) [] (new-Represents capacity)
