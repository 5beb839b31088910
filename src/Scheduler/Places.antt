-- ===== src/Scheduler/Places.antt =====
-- Where each coroutine is: at any time in one place, and deleted at most once.
use rock_coro.Prelude.{
  ℕ, zero, suc, ◌+◌, ◌<◌, ◌≤◌, ◌≡◌, ◌≢◌, refl, sym, subst, ap, Option, none, some, List, [], ◌∷◌,
  arith, ltb, get_elem?, if◌then◌else◌,
}
use rock_coro.Scheduler.{
  Pc, test, wait, pop, run, post, flush_push, flush_destroy, flush_add_event, stopped, Worker,
  Shared, Act, go, create, yield, sleep, finish, step_at, take_job, take_token, System, Event, work,
  fire, spawn, post_sem, shut_down, work_step, fire_step, post_step, system_step, run_events, init,
}
use rock_coro.Scheduler.Sums.{
  sum_over, sum_over-set, AllOf-get, count, count_opt, count-snoc, count-append_opt,
  count-remove_at,
}
use rock_coro.Scheduler.Shape.{ShapeAt, HasShape}
use rock_coro.Scheduler.Tokens.{IsSound, system_step-IsSound, init-IsSound}

-- How often a worker holds `c`.
abbrev pub holds : ℕ → Worker → ℕ
holds c w =
    count_opt c w.cur_coroutine
    + count_opt c w.pending_push
    + count_opt c w.pending_destroy
    + count_opt c w.pending_add_event

-- How often `c` is in the shared state: queued, sleeping, or deleted.
abbrev pub shared_count : ℕ → Shared → ℕ
shared_count c g = count c g.queue + count c g.timer + count c g.destroyed

-- `c` is in one place if it was ever created, and in none otherwise.
abbrev pub IsPlaced : ℕ → Shared → ℕ → Type 0
IsPlaced c g held = shared_count c g + held ≡ (if ltb c g.created then 1 else 0)

take_token-IsPlaced :
    (c n : ℕ) (g : Shared) (w : Worker) (rest : ℕ)
    → IsPlaced c g (holds c w + rest)
    → let (g', w') = take_token n g w in IsPlaced c g' (holds c w' + rest)
unfolding take_token
take_token-IsPlaced c zero g w rest h = h
take_token-IsPlaced c (suc n) g w rest h = h

take_job-IsPlaced :
    (c : ℕ) (q : List ℕ) (g : Shared) (w : Worker) (rest : ℕ)
    → g.queue ≡ q
    → w.cur_coroutine ≡ none
    → IsPlaced c g (holds c w + rest)
    → let (g', w') = take_job q g w in IsPlaced c g' (holds c w' + rest)
unfolding take_job
take_job-IsPlaced c [] g w rest e free h = h
take_job-IsPlaced c (d ∷ q) g w rest e free h =
    let size : count c g.queue ≡ count_opt c (some d) + count c q = rw e in
    let free' : count_opt c w.cur_coroutine ≡ 0 = rw free in omega (arith, size, free')

step_at-IsPlaced :
    (c : ℕ) (pc : Pc) (a : Act) (g : Shared) (w : Worker) (rest : ℕ)
    → ShapeAt pc w
    → IsPlaced c g (holds c w + rest)
    → let (g', w') = step_at pc a g w in IsPlaced c g' (holds c w' + rest)
unfolding step_at
step_at-IsPlaced c test a g w rest v h = h
step_at-IsPlaced c wait a g w rest v h = take_token-IsPlaced c g.sem g w rest h
step_at-IsPlaced c pop a g w rest v h = take_job-IsPlaced c g.queue g w rest refl v.0 h
step_at-IsPlaced c run go g w rest v h = h
step_at-IsPlaced c run create g w rest v h = ground (arith, count-snoc c g.queue g.created)
step_at-IsPlaced c run yield g w rest v h = ground (arith)
step_at-IsPlaced c run sleep g w rest v h = ground (arith)
step_at-IsPlaced c run finish g w rest v h = ground (arith)
step_at-IsPlaced c post a g w rest v h = h
step_at-IsPlaced c flush_push a g w rest v h =
    omega (arith, count-append_opt c g.queue w.pending_push)
step_at-IsPlaced c flush_destroy a g w rest v h =
    omega (arith, count-append_opt c g.destroyed w.pending_destroy)
step_at-IsPlaced c flush_add_event a g w rest v h =
    omega (arith, count-append_opt c g.timer w.pending_add_event)
step_at-IsPlaced c stopped a g w rest v h = h

work_step-IsPlaced :
    (c : ℕ) (o : Option Worker) (i : ℕ) (a : Act) (s : System)
    → get_elem? s.workers i ≡ o
    → IsSound s
    → IsPlaced c s.shared (sum_over (holds c) s.workers)
    → IsPlaced c (work_step o i a s).shared (sum_over (holds c) (work_step o i a s).workers)
unfolding work_step
work_step-IsPlaced c none i a s e v h = h
work_step-IsPlaced c (some w) i a s e v h =
    let (rest, before, after) = sum_over-set (holds c) s.workers i e in
    let shape = AllOf-get HasShape s.workers i w v.shapes e in
    subst (IsPlaced c (step_at w.pc a s.shared w).0) (sym (after (step_at w.pc a s.shared w).1))
      (step_at-IsPlaced c w.pc a s.shared w rest shape (subst (IsPlaced c s.shared) before h))

fire_step-IsPlaced :
    (c : ℕ) (o : Option ℕ) (i : ℕ) (g : Shared) (n : ℕ)
    → get_elem? g.timer i ≡ o
    → IsPlaced c g n
    → IsPlaced c (fire_step o i g) n
unfolding fire_step
fire_step-IsPlaced c none i g n e h = h
fire_step-IsPlaced c (some d) i g n e h =
    omega (arith, count-snoc c g.queue d, count-remove_at c g.timer i e)

post_step-IsPlaced : (c p : ℕ) (g : Shared) (n : ℕ) → IsPlaced c g n → IsPlaced c (post_step p g) n
unfolding post_step
post_step-IsPlaced c zero g n h = h
post_step-IsPlaced c (suc p) g n h = h

system_step-IsPlaced :
    (c : ℕ) (e : Event) (s : System)
    → IsSound s
    → IsPlaced c s.shared (sum_over (holds c) s.workers)
    → IsPlaced c (system_step e s).shared (sum_over (holds c) (system_step e s).workers)
unfolding system_step
system_step-IsPlaced c (work i a) s v h =
    work_step-IsPlaced c (get_elem? s.workers i) i a s refl v h
system_step-IsPlaced c (fire i) s v h =
    fire_step-IsPlaced c (get_elem? s.shared.timer i) i s.shared _ refl h
system_step-IsPlaced c spawn s v h = ground (arith, count-snoc c s.shared.queue s.shared.created)
system_step-IsPlaced c post_sem s v h = post_step-IsPlaced c s.shared.posting s.shared _ h
system_step-IsPlaced c shut_down s v h = h

run_events-IsPlaced :
    (c : ℕ) (es : List Event) (s : System)
    → IsSound s
    → IsPlaced c s.shared (sum_over (holds c) s.workers)
    → IsPlaced c (run_events es s).shared (sum_over (holds c) (run_events es s).workers)
unfolding run_events
run_events-IsPlaced c [] s v h = h
run_events-IsPlaced c (e ∷ es) s v h =
    run_events-IsPlaced c es (system_step e s) (system_step-IsSound e s v)
      (system_step-IsPlaced c e s v h)

-- From init on, after any interleaving of the steps of the workers, the timer, creators and
-- destroy, a coroutine that was created is in just one place, once: the job queue, the timer, the
-- deleted ones, or one pointer of one worker; a coroutine that was not is in none.
pub in_one_place :
    (es : List Event) (c : ℕ)
    → let s = run_events es init in
      shared_count c s.shared + sum_over (holds c) s.workers
      ≡ (if ltb c s.shared.created then 1 else 0)
unfolding init
in_one_place es c = run_events-IsPlaced c es init init-IsSound (ground arith)

at_most_one : (c n : ℕ) → (if ltb c n then 1 else 0) ≤ 1
at_most_one c n = ground arith

-- Two workers have no more than the sum.
sum_over-two :
    (f : Worker → ℕ) (ws : List Worker) (i j : ℕ) {v w : Worker}
    → i ≢ j
    → get_elem? ws i ≡ some v
    → get_elem? ws j ≡ some w
    → f v + f w ≤ sum_over f ws
sum_over-two f [] i j ne e e' = absurd (ground arith)
sum_over-two f (x ∷ ws) zero zero ne e e' = absurd (ne refl)
sum_over-two f (x ∷ ws) zero (suc j) {v} ne e e' =
    let same : x ≡ v = cc in let other = sum_over-set f ws j e' in omega (arith, ap f same, other.1)
sum_over-two f (x ∷ ws) (suc i) zero {w} ne e e' =
    let same : x ≡ w = cc in let other = sum_over-set f ws i e in omega (arith, ap f same, other.1)
sum_over-two f (x ∷ ws) (suc i) (suc j) ne e e' =
    omega (arith, sum_over-two f ws i j (λ p. ne (ap suc p)) e e')

-- From init on, after any interleaving of steps, two different workers never have the same current
-- coroutine.
pub no_shared_coroutine :
    (es : List Event) (i j c : ℕ) {v w : Worker}
    → i ≢ j
    → get_elem? (run_events es init).workers i ≡ some v
    → get_elem? (run_events es init).workers j ≡ some w
    → v.cur_coroutine ≡ some c
    → w.cur_coroutine ≢ some c
no_shared_coroutine es i j c {v} {w} ne e e' has also =
    let ws = (run_events es init).workers in
    let mine : count_opt c v.cur_coroutine ≡ 1 = rw has (ground arith) in
    let theirs : count_opt c w.cur_coroutine ≡ 1 = rw also (ground arith) in
    absurd (
      omega (
        arith,
        at_most_one c (run_events es init).shared.created,
        in_one_place es c,
        sum_over-two (holds c) ws i j ne e e',
        mine,
        theirs,
      ))

-- From init on, after any interleaving of steps, a deleted coroutine was deleted once, is neither
-- in the job queue nor with the timer, and no worker has a pointer to it.
pub deleted_is_gone :
    (es : List Event) (i c : ℕ) {w : Worker}
    → let s = run_events es init in
      get_elem? s.workers i ≡ some w
      → 0 < count c s.shared.destroyed
      → (count c s.shared.destroyed ≡ 1)
        × (count c s.shared.queue ≡ 0)
        × (count c s.shared.timer ≡ 0)
        × (holds c w ≡ 0)
deleted_is_gone es i c {w} e gone =
    let others = sum_over-set (holds c) (run_events es init).workers i e in
    omega (arith, at_most_one c (run_events es init).shared.created, in_one_place es c, others.1)
