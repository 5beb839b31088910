-- ===== src/Scheduler.antt =====
-- src/scheduler/scheduler.cpp and tl_scheduler.cpp: the workers' event loop, the job queue with its
-- semaphore, and what a coroutine can ask for. A coroutine is named by the order of its creation.
-- Threads interleave: a step is one access to what they share. The job queue is taken as atomic.
pub mod Sums
pub mod Shape
pub mod Tokens
pub mod Places
mod Tests
use rock_coro.Prelude.{
  ℕ, zero, suc, ◌+◌, Bool, true, false, Option, none, some, List, [], ◌∷◌, ◌++◌, get_elem?, set,
  if◌then◌else◌, replicate,
}

abbrev pub num_workers : ℕ
num_workers = 10

-- Where a worker is in `event_loop`, or in a call that it makes there.
pub data Pc : Type 0 where
  -- the test of the loop
  test : Pc
  -- `sem_wait` and `pop_front` in `job_pop`
  wait pop : Pc
  -- in a coroutine, and in its `coroutine_create` between `push_back` and `sem_post`
  run post : Pc
  flush_push flush_destroy flush_add_event : Pc
  stopped : Pc

-- A worker with its `TLScheduler`; no current coroutine is the main coroutine.
pub record Worker : Type 0 where
  pub pc : Pc
  pub yield_from_coroutine : Bool
  pub cur_coroutine : Option ℕ
  pub pending_push : Option ℕ
  pub pending_destroy : Option ℕ
  pub pending_add_event : Option ℕ

-- What the threads share. `timer` holds the coroutines given to the timer, `posting` counts the other
-- threads that have pushed a job and not posted it yet, and `destroyed` lists the deleted coroutines.
pub record Shared : Type 0 where
  pub queue : List ℕ
  pub sem : ℕ
  pub running : Bool
  pub timer : List ℕ
  pub posting : ℕ
  pub created : ℕ
  pub destroyed : List ℕ

-- What a coroutine does next: go on, or one of the calls below; `finish` is its return.
pub data Act : Type 0 where
  go create yield sleep finish : Act

abbrev pub is_some : Option ℕ → Bool
is_some none = false
is_some (some c) = true

-- A pointer that may be null, added to a list.
abbrev pub append_opt : List ℕ → Option ℕ → List ℕ
append_opt cs none = cs
append_opt cs (some c) = cs ++ (c ∷ [])

pub take_token : ℕ → Shared → Worker → Shared × Worker
take_token zero g w = (g, w)
take_token (suc n) g w = (record g { sem = n }, record w { pc = pop })

pub take_job : List ℕ → Shared → Worker → Shared × Worker
take_job [] g w = (g, record w { pc = test })
take_job (c ∷ q) g w = (record g { queue = q }, record w { pc = run; cur_coroutine = some c })

-- In a coroutine: `coroutine_create`, `coroutine_yield`, `coroutine_sleep`, and the end of
-- `coroutine_entry_function`. The last three go back to the main coroutine.
pub coroutine_act : Act → Shared → Worker → Shared × Worker
coroutine_act go g w = (g, w)
coroutine_act create g w = (
  record g { queue = g.queue ++ (g.created ∷ []); created = g.created + 1 },
  record w { pc = post },
)
coroutine_act yield g w =
    (g, record w { pc = flush_push; pending_push = w.cur_coroutine; cur_coroutine = none })
coroutine_act sleep g w =
    (g, record w { pc = flush_push; pending_add_event = w.cur_coroutine; cur_coroutine = none })
coroutine_act finish g w =
    (g, record w { pc = flush_push; pending_destroy = w.cur_coroutine; cur_coroutine = none })

-- The step of a worker.
pub step_at : Pc → Act → Shared → Worker → Shared × Worker
unfolding take_token take_job coroutine_act
step_at test a g w = (
  g,
  record w { pc = if g.running then (if w.yield_from_coroutine then pop else wait) else stopped },
)
step_at wait a g w = take_token g.sem g w
step_at pop a g w = take_job g.queue g w
step_at run a g w = coroutine_act a g w
step_at post a g w = (record g { sem = g.sem + 1 }, record w { pc = run })
step_at flush_push a g w = (
  record g { queue = append_opt g.queue w.pending_push },
  record w {
    pc = flush_destroy;
    yield_from_coroutine = is_some w.pending_push;
    pending_push = none;
  },
)
step_at flush_destroy a g w = (
  record g { destroyed = append_opt g.destroyed w.pending_destroy },
  record w { pc = flush_add_event; pending_destroy = none },
)
step_at flush_add_event a g w = (
  record g { timer = append_opt g.timer w.pending_add_event },
  record w { pc = test; pending_add_event = none },
)
step_at stopped a g w = (g, w)

pub record System : Type 0 where
  pub shared : Shared
  pub workers : List Worker

-- A step of worker `i`, or of another thread: the timer pushes a coroutine that it holds, a thread
-- creates a coroutine, one of them posts what it pushed, `destroy` is called.
pub data Event : Type 0 where
  work : ℕ → Act → Event
  fire : ℕ → Event
  spawn : Event
  post_sem : Event
  shut_down : Event

abbrev pub remove_at : List ℕ → ℕ → List ℕ
remove_at [] i = []
remove_at (c ∷ cs) zero = cs
remove_at (c ∷ cs) (suc i) = c ∷ remove_at cs i

pub work_step : Option Worker → ℕ → Act → System → System
unfolding step_at
work_step none i a s = s
work_step (some w) i a s =
    let (g, w') = step_at w.pc a s.shared w in record { shared = g; workers = set s.workers i w' }

pub fire_step : Option ℕ → ℕ → Shared → Shared
fire_step none i g = g
fire_step (some c) i g = record g {
  queue = g.queue ++ (c ∷ []);
  timer = remove_at g.timer i;
  posting = g.posting + 1;
}

pub post_step : ℕ → Shared → Shared
post_step zero g = g
post_step (suc n) g = record g { posting = n; sem = g.sem + 1 }

pub system_step : Event → System → System
unfolding work_step fire_step post_step
system_step (work i a) s = work_step (get_elem? s.workers i) i a s
system_step (fire i) s = record s { shared = fire_step (get_elem? s.shared.timer i) i s.shared }
system_step spawn s = record s {
  shared = record (s.shared) {
    queue = s.shared.queue ++ (s.shared.created ∷ []);
    created = s.shared.created + 1;
    posting = s.shared.posting + 1;
  };
}
system_step post_sem s = record s { shared = post_step s.shared.posting s.shared }
system_step shut_down s = record s {
  shared = record (s.shared) { running = false; sem = s.shared.sem + num_workers };
}

-- `event_loop` starts at its test, after no coroutine.
abbrev pub new_worker : Worker
new_worker = record {
  pc = test;
  yield_from_coroutine = false;
  cur_coroutine = none;
  pending_push = none;
  pending_destroy = none;
  pending_add_event = none;
}

pub init : System
init = record {
  shared = record {
    queue = [];
    sem = 0;
    running = true;
    timer = [];
    posting = 0;
    created = 0;
    destroyed = [];
  };
  workers = replicate num_workers new_worker;
}

pub run_events : List Event → System → System
unfolding system_step
run_events [] s = s
run_events (e ∷ es) s = run_events es (system_step e s)
