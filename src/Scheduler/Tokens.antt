-- ===== src/Scheduler/Tokens.antt =====
-- The semaphore against the job queue: who may pop, and how many jobs there are for them.
use rock_coro.Prelude.{
  AllOf, ℕ, zero, suc, ◌+◌, ◌≡◌, ◌≢◌, refl, sym, subst, ap, ◌∙◌, Bool, true, Option, none, some,
  List, [], ◌∷◌, arith, length, length-append, get_elem?, if◌then◌else◌,
}
use rock_coro.Scheduler.{
  Pc, test, wait, pop, run, post, flush_push, flush_destroy, flush_add_event, stopped, Worker,
  Shared, Act, go, create, yield, sleep, finish, step_at, System, Event, work, fire, spawn,
  post_sem, shut_down, work_step, fire_step, post_step, system_step, run_events, init, num_workers,
  new_worker, append_opt, is_some,
}
use rock_coro.Scheduler.Sums.{sum_over, sum_over-set, AllOf-get, AllOf-set, AllOf-replicate}
use rock_coro.Scheduler.Shape.{HasShape, step_at-HasShape}

-- The jobs that a worker has a right to pop, or will have posted: one after `sem_wait`, one between
-- the push and the post of `coroutine_create`, and one after the push of a coroutine that yielded.
abbrev pub token_at : Pc → Bool → ℕ
token_at pop y = 1
token_at post y = 1
token_at flush_destroy y = if y then 1 else 0
token_at flush_add_event y = if y then 1 else 0
token_at test y = if y then 1 else 0
token_at _ y = 0

abbrev pub token : Worker → ℕ
token w = token_at w.pc w.yield_from_coroutine

-- Every job is matched by a post, a post to come, or a worker's right to pop, in a system where the
-- other workers have `rest` tokens.
abbrev pub Balanced : Shared → ℕ → Type 0
Balanced g tokens = length g.queue ≡ g.sem + g.posting + tokens

length-append_opt :
    (cs : List ℕ) (o : Option ℕ)
    → length (append_opt cs o) ≡ length cs + (if is_some o then 1 else 0)
length-append_opt cs none = omega arith
length-append_opt cs (some c) = length-append cs (c ∷ [])

step_at-Balanced :
    (pc : Pc) (a : Act) (g : Shared) (w : Worker) (rest : ℕ)
    → w.pc ≡ pc
    → g.running ≡ true
    → Balanced g (token w + rest)
    → let (g', w') = step_at pc a g w in Balanced g' (token w' + rest)
unfolding step_at
step_at-Balanced test a g w rest e on h = rw on (ground arith)
step_at-Balanced wait a g w rest e on h = ground arith
step_at-Balanced pop a g w rest e on h = ground arith
step_at-Balanced run go g w rest e on h = h
step_at-Balanced run create g w rest e on h = ground (arith, length-append g.queue (g.created ∷ []))
step_at-Balanced run yield g w rest e on h = ground arith
step_at-Balanced run sleep g w rest e on h = ground arith
step_at-Balanced run finish g w rest e on h = ground arith
step_at-Balanced post a g w rest e on h = ground arith
step_at-Balanced flush_push a g w rest e on h =
    ground (arith, length-append_opt g.queue w.pending_push)
step_at-Balanced flush_destroy a g w rest e on h = ground arith
step_at-Balanced flush_add_event a g w rest e on h = ground arith
step_at-Balanced stopped a g w rest e on h = h

-- The whole system: every worker has its shape, and while it runs jobs and tokens are balanced.
pub record IsSound (s : System) : Type 0 where
  pub shapes : AllOf HasShape s.workers
  pub balanced : s.shared.running ≡ true → Balanced s.shared (sum_over token s.workers)

running-step_at :
    (pc : Pc) (a : Act) (g : Shared) (w : Worker) → (step_at pc a g w).0.running ≡ g.running
unfolding step_at
running-step_at test a g w = refl
running-step_at wait a g w = ground arith
running-step_at pop a g w = ground arith
running-step_at run a g w = ground arith
running-step_at pc a g w = refl

work_step-IsSound :
    (o : Option Worker) (i : ℕ) (a : Act) (s : System)
    → get_elem? s.workers i ≡ o
    → IsSound s
    → IsSound (work_step o i a s)
unfolding work_step
work_step-IsSound none i a s e v = v
work_step-IsSound (some w) i a s e v =
    let (rest, before, after) = sum_over-set token s.workers i e in
    let shape = AllOf-get HasShape s.workers i w v.shapes e in
    record {
      shapes =
          AllOf-set HasShape s.workers i _ v.shapes (step_at-HasShape w.pc a s.shared w refl shape);
      balanced = λ on.
          let on' : s.shared.running ≡ true = sym (running-step_at w.pc a s.shared w) ∙ on in
          subst (Balanced (step_at w.pc a s.shared w).0) (sym (after (step_at w.pc a s.shared w).1))
            (step_at-Balanced w.pc a s.shared w rest refl on'
              (subst (Balanced s.shared) before (v.balanced on')));
    }

fire_step-Balanced :
    (o : Option ℕ) (i : ℕ) (g : Shared) (n : ℕ) → Balanced g n → Balanced (fire_step o i g) n
unfolding fire_step
fire_step-Balanced none i g n h = h
fire_step-Balanced (some c) i g n h = omega (arith, length-append {0} g.queue (c ∷ []))

post_step-Balanced :
    (p : ℕ) (g : Shared) (n : ℕ) → g.posting ≡ p → Balanced g n → Balanced (post_step p g) n
unfolding post_step
post_step-Balanced zero g n e h = h
post_step-Balanced (suc p) g n e h = omega arith

running-fire_step : (o : Option ℕ) (i : ℕ) (g : Shared) → (fire_step o i g).running ≡ g.running
unfolding fire_step
running-fire_step none i g = refl
running-fire_step (some c) i g = refl

running-post_step : (p : ℕ) (g : Shared) → (post_step p g).running ≡ g.running
unfolding post_step
running-post_step zero g = refl
running-post_step (suc p) g = refl

-- Every step of every thread keeps the system sound.
pub system_step-IsSound : (e : Event) (s : System) → IsSound s → IsSound (system_step e s)
unfolding system_step
system_step-IsSound (work i a) s v = work_step-IsSound (get_elem? s.workers i) i a s refl v
system_step-IsSound (fire i) s v = record {
  shapes = v.shapes;
  balanced = λ on.
      let o = get_elem? s.shared.timer i in
      fire_step-Balanced o i s.shared _ (v.balanced (sym (running-fire_step o i s.shared) ∙ on));
}
system_step-IsSound spawn s v = record {
  shapes = v.shapes;
  balanced =
      λ on. omega (arith, v.balanced on, length-append {0} s.shared.queue (s.shared.created ∷ []));
}
system_step-IsSound post_sem s v = record {
  shapes = v.shapes;
  balanced = λ on.
      post_step-Balanced s.shared.posting s.shared _ refl
        (v.balanced (sym (running-post_step s.shared.posting s.shared) ∙ on));
}
system_step-IsSound shut_down s v = record { shapes = v.shapes; balanced = λ on. cc }

pub run_events-IsSound : (es : List Event) (s : System) → IsSound s → IsSound (run_events es s)
unfolding run_events
run_events-IsSound [] s v = v
run_events-IsSound (e ∷ es) s v =
    run_events-IsSound es (system_step e s) (system_step-IsSound e s v)

pub init-IsSound : IsSound init
unfolding init
init-IsSound = record {
  shapes = AllOf-replicate HasShape num_workers new_worker (refl, refl, refl, refl);
  balanced = λ on. refl;
}

-- From init on, after any interleaving of steps and while the scheduler is running, a worker that
-- is about to pop a job finds the job queue not empty, whether it came through the semaphore or
-- from a coroutine that yielded.
pub pop_finds_job :
    (es : List Event) (i : ℕ) {w : Worker}
    → (run_events es init).shared.running ≡ true
    → get_elem? (run_events es init).workers i ≡ some w
    → w.pc ≡ pop
    → (run_events es init).shared.queue ≢ []
pop_finds_job es i {w} on e at empty =
    let v = run_events-IsSound es init init-IsSound in
    let (rest, before, after) = sum_over-set token (run_events es init).workers i e in
    let mine : token w ≡ 1 = rw at in
    absurd (omega (arith, v.balanced on, before, mine, ap (length {0}) empty))

token-wait : (ws : List Worker) → AllOf (λ w. w.pc ≡ wait) ws → sum_over token ws ≡ 0
token-wait [] h = refl
token-wait (w ∷ ws) h = let mine : token w ≡ 0 = rw h.0 in omega (arith, mine, token-wait ws h.1)

-- From init on, after any interleaving of steps, while the scheduler is running and all workers
-- are at sem_wait and no other thread is between its push and its post, there are as many jobs in
-- the queue as the semaphore counts, so that no job waits without a wake-up.
pub idle_jobs_are_posted :
    (es : List Event)
    → (run_events es init).shared.running ≡ true
    → (run_events es init).shared.posting ≡ 0
    → AllOf (λ w. w.pc ≡ wait) (run_events es init).workers
    → length (run_events es init).shared.queue ≡ (run_events es init).shared.sem
idle_jobs_are_posted es on none_posting idle =
    let v = run_events-IsSound es init init-IsSound in
    omega (arith, v.balanced on, token-wait (run_events es init).workers idle)
