-- ===== src/Timer/Tests.antt =====
-- Runs of the timer, and its theorems at concrete schedules.
use rock_coro.Prelude.{
  ℕ, zero, suc, ◌+◌, ◌<◌, ◌≡◌, refl, ap, inl, inr, List, [], ◌∷◌, arith, replicate,
}
use rock_coro.Prelude.Result.{Result, ok, throw}
use rock_coro.Timer.{
  add_event, Node, TimeWheel, TimerManager, init, request, event_loop, round, tick,
  internal_add_event,
}
use rock_coro.Timer.Due.{IsValid, IsValidWheel}
use rock_coro.Timer.Tick.{Ticked, tick-Ticked}
use rock_coro.Timer.Request.{Added, internal_add_event-Added}
use rock_coro.Timer.Loop.{RunsAt, AllCallsShort}
use rock_coro.Timer.Sleep.{RunsSchedule, Calls, event_loop-init, long_sleep_is_late, round-throws}
use rock_coro.Timer.Nodes.{Call, push, pop, call_all, new}
use rock_coro.Timer.Nodes.Refine.{spec_all, AllAllowed, nodes_refine_lists}

abbrev node : ℕ → ℕ → Node
node c d = record { coroutine = c; delay_ms = d }

-- Two coroutines in the first round, one of them at once, and one two rounds later.
abbrev sched : List (List Node)
sched = (node 1 5 ∷ node 2 0 ∷ []) ∷ [] ∷ (node 3 1 ∷ []) ∷ [] ∷ [] ∷ [] ∷ [] ∷ []

abbrev out_of : Result (TimerManager × List (List ℕ)) → List (List ℕ)
out_of (ok (tm, out)) = out
out_of throw = []

sched_runs :
    out_of (event_loop sched init) ≡ (2 ∷ []) ∷ [] ∷ [] ∷ (3 ∷ []) ∷ [] ∷ (1 ∷ []) ∷ [] ∷ []
unfolding event_loop init tick internal_add_event add_event request
sched_runs = refl

sched-short : AllCallsShort sched
sched-short = omega arith

event_loop-init_example : RunsSchedule sched
event_loop-init_example = event_loop-init sched sched-short

-- One coroutine that sleeps for 60 ms from the first round on.
abbrev long_sched : List (List Node)
long_sched = (node 7 60 ∷ []) ∷ replicate 61 []

long_sched-short : AllCallsShort long_sched
long_sched-short = omega arith

Calls-empty : (n r c d : ℕ) → ¬ Calls (replicate n []) r c d
Calls-empty zero r c d h = h
Calls-empty (suc n) zero c d h = h
Calls-empty (suc n) (suc r) c d h = Calls-empty n r c d h

one_call : (r d : ℕ) → Calls long_sched r 7 d → (r ≡ 0) × (d ≡ 60)
one_call zero d (inl e) = (refl, ap (λ (n : Node). n.delay_ms) e)
one_call zero d (inr h) = absurd h
one_call (suc r) d h = absurd (Calls-empty 61 r 7 d h)

long_sleep_is_late_example : ¬ RunsAt (event_loop-init long_sched long_sched-short).out (0 + 60) 7
long_sleep_is_late_example =
    long_sleep_is_late long_sched long_sched-short 7 0 60 (omega arith) one_call

abbrev too_long : TimerManager
too_long = record { timewheels = init.timewheels; pending_events = node 4 216_000 ∷ [] }

round-throws_example : round too_long ≡ throw
round-throws_example = round-throws too_long (node 4 216_000) [] refl (omega arith)

abbrev wheel : ℕ → TimeWheel
wheel i = record { slots = λ _. []; cur_slot_idx = 59; interval_ms = i }

abbrev wheels : List TimeWheel
wheels = wheel 1 ∷ wheel 60 ∷ wheel 3600 ∷ []

wheel-IsValidWheel : (i : ℕ) → 0 < i → IsValidWheel i (wheel i)
wheel-IsValidWheel i p = record {
  interval_pos = p;
  interval_eq = refl;
  index = omega arith;
  delays = λ j n h. absurd h;
}

wheels-IsValid : IsValid 1 wheels
wheels-IsValid = (
  wheel-IsValidWheel 1 (omega arith),
  (wheel-IsValidWheel 60 (omega arith), (wheel-IsValidWheel 3600 (omega arith), tt)),
)

tick-Ticked_example : Ticked wheels
tick-Ticked_example = tick-Ticked wheels wheels-IsValid

internal_add_event-Added_example :
    Added 1 0 (node 4 61) 1 wheels (internal_add_event (node 4 61) wheels)
internal_add_event-Added_example =
    internal_add_event-Added (node 4 61) wheels wheels-IsValid refl (omega arith)

-- A node goes from one list to another, with the pointer that it had in the first.
abbrev handed_on : List Call
handed_on = push 0 8 ∷ push 0 9 ∷ push 1 10 ∷ pop 0 ∷ push 1 8 ∷ pop 1 ∷ pop 1 ∷ pop 0 ∷ pop 0 ∷ []

handed_on-allowed : AllAllowed handed_on (λ j. [])
handed_on-allowed = (
  (omega arith, λ i h. h),
  (
    (omega arith, λ i. ground arith),
    (
      (omega arith, λ i. ground arith),
      (tt, ((omega arith, λ i. ground arith), (tt, (tt, (tt, (tt, tt)))))),
    ),
  ),
)

handed_on_replies : call_all handed_on (new (λ a. 0)) ≡ 8 ∷ 9 ∷ 10 ∷ 8 ∷ 8 ∷ 10 ∷ 8 ∷ 9 ∷ 0 ∷ []
unfolding call_all new
handed_on_replies = refl

nodes_refine_lists_example : call_all handed_on (new (λ a. 0)) ≡ spec_all handed_on (λ j. [])
nodes_refine_lists_example = nodes_refine_lists handed_on (λ a. 0) handed_on-allowed
