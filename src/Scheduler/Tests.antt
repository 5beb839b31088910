-- ===== src/Scheduler/Tests.antt =====
-- Runs of the scheduler, and its theorems at concrete schedules.
use rock_coro.Prelude.{
  ℕ, ◌+◌, ◌≡◌, ◌≢◌, refl, some, List, [], ◌∷◌, arith, length, ltb, if◌then◌else◌,
}
use rock_coro.Scheduler.{
  flush_add_event, Worker, Event, work, fire, spawn, post_sem, go, create, yield, sleep, finish,
  pop, run, new_worker, run_events, init,
}
use rock_coro.Scheduler.Sums.{sum_over, count}
use rock_coro.Scheduler.Tokens.{pop_finds_job, idle_jobs_are_posted}
use rock_coro.Scheduler.Places.{
  holds, shared_count, in_one_place, no_shared_coroutine, deleted_is_gone,
}

-- A job is created and posted, and worker 0 passes the semaphore.
abbrev about_to_pop : List Event
about_to_pop = spawn ∷ post_sem ∷ work 0 go ∷ work 0 go ∷ []

pop_finds_job_example : (run_events about_to_pop init).shared.queue ≢ []
unfolding run_events init
pop_finds_job_example =
    pop_finds_job about_to_pop 0 {w = record new_worker { pc = pop }} refl refl refl

-- All workers reach `sem_wait`.
abbrev all_idle : List Event
all_idle =
    work 0 go
    ∷ work 1 go
    ∷ work 2 go
    ∷ work 3 go
    ∷ work 4 go
    ∷ work 5 go
    ∷ work 6 go
    ∷ work 7 go
    ∷ work 8 go
    ∷ work 9 go
    ∷ spawn
    ∷ post_sem
    ∷ []

idle_jobs_are_posted_example :
    length (run_events all_idle init).shared.queue ≡ (run_events all_idle init).shared.sem
unfolding run_events init
idle_jobs_are_posted_example =
    idle_jobs_are_posted all_idle refl refl
      (refl, (refl, (refl, (refl, (refl, (refl, (refl, (refl, (refl, (refl, tt))))))))))

-- Two workers run a coroutine each.
abbrev both_run : List Event
both_run =
    spawn
    ∷ post_sem
    ∷ spawn
    ∷ post_sem
    ∷ work 0 go
    ∷ work 0 go
    ∷ work 0 go
    ∷ work 1 go
    ∷ work 1 go
    ∷ work 1 go
    ∷ []

abbrev running : ℕ → Worker
running c = record new_worker { pc = run; cur_coroutine = some c }

in_one_place_example :
    let s = run_events both_run init in
    shared_count 1 s.shared + sum_over (holds 1) s.workers
    ≡ (if ltb 1 s.shared.created then 1 else 0)
in_one_place_example = in_one_place both_run 1

no_shared_coroutine_example : (running 1).cur_coroutine ≢ some 0
unfolding run_events init
no_shared_coroutine_example =
    no_shared_coroutine both_run 0 1 0 {v = running 0} {w = running 1} (omega arith) refl refl refl

-- The coroutine yields, is run again by the same worker without a post, returns and is deleted.
abbrev life : List Event
life =
    spawn
    ∷ post_sem
    ∷ work 0 go
    ∷ work 0 go
    ∷ work 0 go
    ∷ work 0 yield
    ∷ work 0 go
    ∷ work 0 go
    ∷ work 0 go
    ∷ work 0 go
    ∷ work 0 go
    ∷ work 0 finish
    ∷ work 0 go
    ∷ work 0 go
    ∷ []

life-destroyed : (run_events life init).shared.destroyed ≡ 0 ∷ []
unfolding run_events init
life-destroyed = refl

abbrev cleaner : Worker
cleaner = record new_worker { pc = flush_add_event }

deleted_is_gone_example :
    let s = run_events life init in
    (count 0 s.shared.destroyed ≡ 1)
    × (count 0 s.shared.queue ≡ 0)
    × (count 0 s.shared.timer ≡ 0)
    × (holds 0 cleaner ≡ 0)
unfolding run_events init
deleted_is_gone_example = deleted_is_gone life 0 0 {w = cleaner} refl (omega arith)

-- A coroutine sleeps, and the timer gives it back.
abbrev nap : List Event
nap =
    spawn
    ∷ post_sem
    ∷ work 0 go
    ∷ work 0 go
    ∷ work 0 go
    ∷ work 0 sleep
    ∷ work 0 go
    ∷ work 0 go
    ∷ work 0 go
    ∷ fire 0
    ∷ post_sem
    ∷ work 3 go
    ∷ work 3 go
    ∷ work 3 go
    ∷ work 3 create
    ∷ []

nap-queue : (run_events nap init).shared.queue ≡ 1 ∷ []
unfolding run_events init
nap-queue = refl
