-- ===== src/BasicStruct/Vector/Run.antt =====
-- Any sequence of calls on a vector answers as it would on a list.
use rock_coro.Prelude.{ℕ, ◌≡◌, refl, ap, inl, inr, Option, none, some, List, [], get_elem?, subst}
use rock_coro.Prelude.Refinement.{run, Matches, run-eq}
use rock_coro.BasicStruct.Buffer.{Outcome, returns, aborted, overrun, ◌>>=◌}
use rock_coro.BasicStruct.Sequence.{
  Op, push, emplace, pop, at, wipe, duplicate, count, Reply, done, value, number, overran,
  list_step, snoc-cases, drop_last-snoc, answer,
}
use rock_coro.BasicStruct.Vector.{
  Vector, new, copy, index, push_back, emplace_back, pop_back, clear,
}
use rock_coro.BasicStruct.Vector.Refine.{
  Represents, new-Represents, copy-Represents, emplace_back-Represents, at_index, index-Represents,
  pop_back-Represents, pop_back-empty, clear-Represents,
}

module _ {A : Type 0} where
  -- A failed assert ends the run; an access outside the buffer shows as a reply.
  abbrev pub replied : Vector A → Outcome (Vector A × Reply A) → Option (Vector A × Reply A)
  replied v (returns p) = some p
  replied v aborted = none
  replied v overrun = some (v, overran)

  abbrev pub quiet : Vector A → Outcome (Vector A) → Option (Vector A × Reply A)
  quiet v o = replied v (o >>= λ w. returns (w, done))

  abbrev pub step : Vector A → Op A → Option (Vector A × Reply A)
  step v (push x) = quiet v (push_back v x)
  step v (emplace x) = replied v (emplace_back v x >>= λ p. returns (p.0, value p.1))
  step v pop = quiet v (pop_back v)
  step v (at i) = replied v (index v i >>= λ x. returns (v, value x))
  step v wipe = quiet v (clear v)
  step v duplicate = quiet v (copy v)
  step v count = some (v, number v.size)

  step-Matches :
      (v : Vector A) (xs : List A) (op : Op A)
      → Represents v xs
      → Matches Represents (step v op) (list_step xs op)
  step-Matches v xs (push x) r =
      let (w, pushed, made, rep) = emplace_back-Represents v xs x r in rw pushed (rep, refl)
  step-Matches v xs (emplace x) r =
      let (w, pushed, made, rep) = emplace_back-Represents v xs x r in rw made (rep, refl)
  step-Matches v xs pop r = elim (snoc-cases xs) [
    | inl e ↦ rw (e, pop_back-empty v (subst (Represents v) e r)) tt
    | inr s ↦
        let (w, made, rep) = pop_back-Represents v s.0 s.1 (subst (Represents v) s.2 r) in
        rw (s.2, drop_last-snoc s.0 s.1, made) (rep, refl)
  ]
  step-Matches v xs (at i) r = rw (index-Represents v xs i r) (same (get_elem? xs i))
    where
      same :
          (o : Option A)
          → Matches Represents (replied v (at_index o >>= λ x. returns (v, value x))) (answer xs o)
      same none = tt
      same (some x) = (r, refl)
  step-Matches v xs wipe r = let (w, made, rep) = clear-Represents v xs r in rw made (rep, refl)
  step-Matches v xs duplicate r = let (w, made, rep) = copy-Represents v xs r in rw made (rep, refl)
  step-Matches v xs count r = (r, ap number r.size_eq)

  -- No sequence of push_back, emplace_back, pop_back, operator[], clear, size and copies tells a
  -- new vector of any capacity from the empty list: both fail the same assertions, and the vector
  -- accesses no cell at or above its capacity, and reads or destroys no object where there is none.
  pub vector_refines_list :
      (capacity : ℕ) (ops : List (Op A)) → run step (new capacity) ops ≡ run list_step [] ops
  vector_refines_list capacity ops =
      run-eq Represents step list_step step-Matches ops (new capacity) [] (new-Represents capacity)
