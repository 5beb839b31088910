-- ===== src/Scheduler/Shape.antt =====
-- Which of a worker's pointers can be set where it stands.
use rock_coro.Prelude.{
  ℕ, suc, zero, Bool, true, false, ◌≡◌, refl, subst, sym, none, List, [], ◌∷◌, if◌then◌else◌,
}
use rock_coro.Scheduler.{
  Pc, test, wait, pop, run, post, flush_push, flush_destroy, flush_add_event, stopped, Worker,
  Shared, Act, go, create, yield, sleep, finish, step_at, take_job, take_token,
}

-- Nothing is pending outside the flushes, and each flush has cleared its own pointer; a worker is in
-- a coroutine only between the pop and the return to the main coroutine; a worker that waits for the
-- semaphore has not yielded from a coroutine.
abbrev pub ShapeAt : Pc → Worker → Type 0
ShapeAt run w = (w.pending_push ≡ none) × (w.pending_destroy ≡ none) × (w.pending_add_event ≡ none)
ShapeAt post w = (w.pending_push ≡ none) × (w.pending_destroy ≡ none) × (w.pending_add_event ≡ none)
ShapeAt flush_push w = w.cur_coroutine ≡ none
ShapeAt flush_destroy w = (w.cur_coroutine ≡ none) × (w.pending_push ≡ none)
ShapeAt flush_add_event w =
    (w.cur_coroutine ≡ none) × (w.pending_push ≡ none) × (w.pending_destroy ≡ none)
ShapeAt _ w =
    (w.cur_coroutine ≡ none)
    × (w.pending_push ≡ none)
    × (w.pending_destroy ≡ none)
    × (w.pending_add_event ≡ none)

abbrev pub HasShape : Worker → Type 0
HasShape w = ShapeAt w.pc w

next_test : Bool → Bool → Pc
next_test running yielded = if running then (if yielded then pop else wait) else stopped

test-HasShape :
    (running yielded : Bool) (w : Worker)
    → ShapeAt test w
    → HasShape (record w { pc = next_test running yielded })
unfolding next_test
test-HasShape true true w h = h
test-HasShape true false w h = h
test-HasShape false yielded w h = h

take_token-HasShape :
    (n : ℕ) (g : Shared) (w : Worker) → w.pc ≡ wait → ShapeAt wait w → HasShape (take_token n g w).1
unfolding take_token
take_token-HasShape zero g w e h = subst (λ p. ShapeAt p w) (sym e) h
take_token-HasShape (suc n) g w e h = h

take_job-HasShape :
    (q : List ℕ) (g : Shared) (w : Worker) → ShapeAt pop w → HasShape (take_job q g w).1
unfolding take_job
take_job-HasShape [] g w h = h
take_job-HasShape (c ∷ q) g w h = (h.1, h.2, h.3)

-- A step of a worker keeps its shape.
pub step_at-HasShape :
    (pc : Pc) (a : Act) (g : Shared) (w : Worker)
    → w.pc ≡ pc
    → ShapeAt pc w
    → HasShape (step_at pc a g w).1
unfolding step_at next_test
step_at-HasShape test a g w e h = test-HasShape g.running w.yield_from_coroutine w h
step_at-HasShape wait a g w e h = take_token-HasShape g.sem g w e h
step_at-HasShape pop a g w e h = take_job-HasShape g.queue g w h
step_at-HasShape run go g w e h = subst (λ p. ShapeAt p w) (sym e) h
step_at-HasShape run create g w e h = h
step_at-HasShape run yield g w e h = refl
step_at-HasShape run sleep g w e h = refl
step_at-HasShape run finish g w e h = refl
step_at-HasShape post a g w e h = h
step_at-HasShape flush_push a g w e h = (h, refl)
step_at-HasShape flush_destroy a g w e h = (h.0, h.1, refl)
step_at-HasShape flush_add_event a g w e h = (h.0, h.1, h.2, refl)
step_at-HasShape stopped a g w e h = subst (λ p. ShapeAt p w) (sym e) h
