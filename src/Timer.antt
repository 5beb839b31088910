-- ===== src/Timer.antt =====
-- src/timer/timewheel.h and src/timer/timewheel.cpp: the hierarchical timing wheel.
-- A slot is the list of the nodes that wait in it; a wheel's `lower` and `upper` pointers are its
-- neighbours in the list of wheels, lowest first. `throw` is the exception of the source.
pub mod Nodes
pub mod Due
pub mod Turn
pub mod Carry
pub mod Tick
pub mod Request
pub mod Pending
pub mod Loop
pub mod Sleep
mod Tests
use rock_coro.Prelude.{
  ℕ, zero, suc, ◌+◌, ◌*◌, ◌/◌, ◌%◌, Bool, List, [], ◌∷◌, ◌++◌, map, ltb, leb, ◌==◌, if◌then◌else◌,
}
use rock_coro.Prelude.Result.{Result, ok, throw, ◌>>=◌}

abbrev pub tick_ms : ℕ
tick_ms = 1

abbrev pub slots_per_wheel : ℕ
slots_per_wheel = 60

abbrev pub num_wheels : ℕ
num_wheels = 3

-- A coroutine's node; the coroutine is named by a number.
pub record Node : Type 0 where
  pub coroutine : ℕ
  pub delay_ms : ℕ

-- `slots` is read and written below `slots_per_wheel` only.
pub record TimeWheel : Type 0 where
  pub slots : ℕ → List Node
  pub cur_slot_idx : ℕ
  pub interval_ms : ℕ

-- The array with slot `j` replaced.
abbrev pub update : (ℕ → List Node) → ℕ → List Node → ℕ → List Node
update slots j ns i = if i == j then ns else slots i

-- The slot that a delay leads to.
abbrev pub slot_of : TimeWheel → ℕ → ℕ
slot_of w delay = (w.cur_slot_idx + delay / w.interval_ms) % slots_per_wheel

abbrev pub push_back : TimeWheel → ℕ → Node → TimeWheel
push_back w j n = record w { slots = update w.slots j (w.slots j ++ (n ∷ [])) }

pub add_event : Node → TimeWheel → Result TimeWheel
add_event n w =
    if leb (w.interval_ms * slots_per_wheel) n.delay_ms
    then throw
    else ok (push_back w (slot_of w n.delay_ms) n)

-- The loop of `tick` that moves the nodes of a slot to the lower wheel.
pub cascade : ℕ → List Node → TimeWheel → Result TimeWheel
cascade interval [] lower = ok lower
cascade interval (n ∷ ns) lower =
    add_event (record n { delay_ms = n.delay_ms % interval }) lower >>= cascade interval ns

abbrev pub current : TimeWheel → List Node
current w = w.slots w.cur_slot_idx

abbrev pub wraps : TimeWheel → Bool
wraps w = leb slots_per_wheel (w.cur_slot_idx + 1)

-- The wheel once its current slot is drained and its index moved on.
abbrev pub rotate : TimeWheel → TimeWheel
rotate w = record w {
  slots = update w.slots w.cur_slot_idx [];
  cur_slot_idx = if wraps w then 0 else w.cur_slot_idx + 1;
}

-- `upper->tick()` of the wheels above `lower`; with no upper wheel nothing happens.
pub tick_upper : TimeWheel → List TimeWheel → Result (TimeWheel × List TimeWheel)
tick_upper lower [] = ok (lower, [])
tick_upper lower (w ∷ ws) =
    let carry = tick_upper (rotate w) ws in
    cascade w.interval_ms (current w) lower >>= λ lower'.
    (if wraps w then carry else ok (rotate w, ws)) >>= λ (w', ws'). ok (lower', w' ∷ ws')

-- `tick` of the lowest wheel: the new wheels, and the coroutines pushed to the scheduler in order.
pub tick : List TimeWheel → Result (List TimeWheel × List ℕ)
unfolding tick_upper
tick [] = ok ([], [])
tick (w ∷ ws) = (if wraps w then tick_upper (rotate w) ws else ok (rotate w, ws)) >>= λ (w', ws').
    ok (w' ∷ ws', map (λ (n : Node). n.coroutine) (current w))

pub record TimerManager : Type 0 where
  pub timewheels : List TimeWheel
  pub pending_events : List Node

abbrev empty_wheel : ℕ → TimeWheel
empty_wheel interval = record { slots = λ _. []; cur_slot_idx = 0; interval_ms = interval }

init_wheels : ℕ → ℕ → List TimeWheel
init_wheels zero interval = []
init_wheels (suc n) interval = empty_wheel interval ∷ init_wheels n (interval * slots_per_wheel)

pub init : TimerManager
unfolding init_wheels
init = record { timewheels = init_wheels num_wheels tick_ms; pending_events = [] }

-- The loop of `internal_add_event` that picks the wheel, with the rounds that it has left.
pub pick_wheel : ℕ → ℕ → ℕ → ℕ
pick_wheel zero i delay = i
pick_wheel (suc rounds) i delay =
    let rest = pick_wheel rounds (i + 1) (delay / slots_per_wheel) in
    if ltb 0 (delay / slots_per_wheel) then rest else i

-- `timewheels[i].add_event`
pub add_at : ℕ → Node → List TimeWheel → Result (List TimeWheel)
add_at i n [] = throw
add_at zero n (w ∷ ws) = add_event n w >>= λ w'. ok (w' ∷ ws)
add_at (suc i) n (w ∷ ws) = add_at i n ws >>= λ ws'. ok (w ∷ ws')

pub internal_add_event : Node → List TimeWheel → Result (List TimeWheel)
unfolding pick_wheel add_at
internal_add_event n ws =
    let i = pick_wheel num_wheels 0 (n.delay_ms / tick_ms) in
    if leb num_wheels i then throw else add_at i n ws

-- The public `add_event`: the node waits in the pending queue.
pub request : TimerManager → ℕ → ℕ → TimerManager
request tm c delay = record tm {
  pending_events = tm.pending_events ++ (record { coroutine = c; delay_ms = delay } ∷ []);
}

-- The loop of `event_loop` that empties the pending queue.
pub add_pending : List Node → List TimeWheel → Result (List TimeWheel)
add_pending [] ws = ok ws
add_pending (n ∷ ns) ws = internal_add_event n ws >>= add_pending ns

-- One round of `event_loop`: pending events, then a tick.
pub round : TimerManager → Result (TimerManager × List ℕ)
unfolding add_pending tick internal_add_event
round tm = add_pending tm.pending_events tm.timewheels >>= λ ws.
    tick ws >>= λ (ws', jobs). ok (record { timewheels = ws'; pending_events = [] }, jobs)

-- Calls of `add_event`, in order.
pub request_all : List Node → TimerManager → TimerManager
request_all [] tm = tm
request_all (n ∷ ns) tm = request_all ns (request tm n.coroutine n.delay_ms)

-- The loop of `event_loop`: for each round the calls of `add_event` that come before its end, and
-- what each round pushes to the scheduler.
pub event_loop : List (List Node) → TimerManager → Result (TimerManager × List (List ℕ))
unfolding request_all round
event_loop [] tm = ok (tm, [])
event_loop (calls ∷ rest) tm = round (request_all calls tm) >>= λ (tm', jobs).
    event_loop rest tm' >>= λ (tm'', out). ok (tm'', jobs ∷ out)
