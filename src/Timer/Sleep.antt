-- ===== src/Timer/Sleep.antt =====
-- The event loop from `init` on: what a call of `coroutine_sleep` gets.
use native.Mathlib.Nat.{zero-add}
use rock_coro.Prelude.{
  ℕ, zero, suc, ◌+◌, ◌≤◌, ◌<◌, ◌≡◌, ◌↔◌, inl, inr, refl, ap, sym, ◌∙◌, subst, List, [], ◌∷◌, arith,
  length, In,
}
use rock_coro.Prelude.Result.{ok, throw}
use rock_coro.Timer.{Node, TimerManager, add_pending, round, event_loop, init}
use rock_coro.Timer.Due.{IsDue, IsValidWheel, IsValid}
use rock_coro.Timer.Pending.{late, Asked}
use rock_coro.Timer.Request.{internal_add_event-throws}
use rock_coro.Timer.Loop.{RunsAt, Wakes, AllCallsShort, idle, event_loop-Looped}

-- The wheels after `init`: nothing waits, and the clock is at 0.
IsDue-init : (c k : ℕ) → ¬ IsDue 0 init.timewheels c k
unfolding init
IsDue-init c k (inl d) = d.waits
IsDue-init c k (inr (inl d)) = d.waits
IsDue-init c k (inr (inr (inl d))) = d.waits
IsDue-init c k (inr (inr (inr d))) = d

init-IsValid : IsValid 1 init.timewheels
unfolding init
init-IsValid = (fresh 1 (omega arith), (fresh 60 (omega arith), (fresh 3600 (omega arith), tt)))
  where
    fresh :
        (i : ℕ)
        → 0 < i
        → IsValidWheel i (record { slots = λ _. []; cur_slot_idx = 0; interval_ms = i })
    fresh i p = record {
      interval_pos = p;
      interval_eq = refl;
      index = omega arith;
      delays = λ j n h. absurd h;
    }

-- Some call before the end of round `r` asks for `c` to be run after `d` ms.
abbrev pub Calls : List (List Node) → ℕ → ℕ → ℕ → Type 0
Calls [] r c d = ⊥
Calls (calls ∷ rest) zero c d = In (record { coroutine = c; delay_ms = d }) calls
Calls (calls ∷ rest) (suc r) c d = Calls rest r c d

Asked-In :
    (t c k : ℕ) (ns : List Node)
    → Asked t ns c k
    → (d : ℕ) × In (record { coroutine = c; delay_ms = d }) ns × (k ≡ d + late t d)
Asked-In t c k [] h = absurd h
Asked-In t c k (n ∷ ns) (inl h) = (n.delay_ms, inl (ground arith), h.1)
Asked-In t c k (n ∷ ns) (inr h) = let a = Asked-In t c k ns h in (a.0, inr a.1, a.2)

In-Asked :
    (t c d : ℕ) (ns : List Node)
    → In (record { coroutine = c; delay_ms = d }) ns
    → Asked t ns c (d + late t d)
In-Asked t c d [] h = absurd h
In-Asked t c d (n ∷ ns) (inl e) =
    let e' : d ≡ n.delay_ms = ap (λ (m : Node). m.delay_ms) e in
    inl (ap (λ (m : Node). m.coroutine) e, rw e')
In-Asked t c d (n ∷ ns) (inr h) = inr (In-Asked t c d ns h)

late-zero : (t d : ℕ) → d + late t d ≡ 0 + d + late (t + 0) d
late-zero t d = ground arith

late-suc : (t r d : ℕ) → suc (r + d + late (t + 1 + r) d) ≡ suc r + d + late (t + suc r) d
late-suc t r d = ground arith

Asked-Wakes :
    (t : ℕ) (calls : List Node) (rest : List (List Node)) (k c : ℕ)
    → Asked t calls c k
    → Wakes t (calls ∷ rest) k c
Asked-Wakes t calls rest zero c h = h
Asked-Wakes t calls rest (suc k) c h = inl h

-- A coroutine wakes in the rounds that its calls lead to, and in no other.
Wakes-Calls :
    (t : ℕ) (sched : List (List Node)) (k c : ℕ)
    → Wakes t sched k c
    → (r d : ℕ) × Calls sched r c d × (k ≡ r + d + late (t + r) d)
Wakes-Calls t [] k c h = absurd h
Wakes-Calls t (calls ∷ rest) zero c h =
    let a = Asked-In t c 0 calls h in (0, a.0, a.1, a.2 ∙ late-zero t a.0)
Wakes-Calls t (calls ∷ rest) (suc k) c (inl h) =
    let a = Asked-In t c (suc k) calls h in (0, a.0, a.1, a.2 ∙ late-zero t a.0)
Wakes-Calls t (calls ∷ rest) (suc k) c (inr h) =
    let w = Wakes-Calls (t + 1) rest k c h in (suc w.0, w.1, w.2, ap suc w.3 ∙ late-suc t w.0 w.1)

Calls-Wakes :
    (t : ℕ) (sched : List (List Node)) (r c d : ℕ)
    → Calls sched r c d
    → Wakes t sched (r + d + late (t + r) d) c
Calls-Wakes t [] r c d h = absurd h
Calls-Wakes t (calls ∷ rest) zero c d h =
    subst (λ k. Wakes t (calls ∷ rest) k c) (late-zero t d)
      (Asked-Wakes t calls rest _ c (In-Asked t c d calls h))
Calls-Wakes t (calls ∷ rest) (suc r) c d h =
    subst (λ k. Wakes t (calls ∷ rest) k c) (late-suc t r d)
      (inr (Calls-Wakes (t + 1) rest r c d h))

-- What the event loop does with a schedule of calls, from `init` on.
pub record RunsSchedule (sched : List (List Node)) : Type 0 where
  pub out : List (List ℕ)
  pub final : TimerManager
  pub eq : event_loop sched init ≡ ok (final, out)
  pub rounds : length out ≡ length sched
  pub wakes :
      (k c : ℕ)
      → RunsAt out k c
        ↔ ((k < length sched) × (r : ℕ) × (d : ℕ) × Calls sched r c d × (k ≡ r + d + late r d))

-- From init on, for any schedule of calls of add_event with delays below 216000 ms, the event loop
-- runs one round for each entry of the schedule without a throw, and runs a coroutine in round k
-- exactly if k is a round of the schedule and, for some r and d, a call before the end of round r
-- asks for a delay of d ms and k is r + d + late r d. Here late r d is 0 for d below 60, 60 - r %
-- 60 for d below 3600, and 3660 - r % 3600 otherwise.
pub event_loop-init : (sched : List (List Node)) → AllCallsShort sched → RunsSchedule sched
unfolding init
event_loop-init sched short =
    let l = event_loop-Looped sched 0 init.timewheels init-IsValid refl refl short in
    record {
      out = l.out;
      final = idle l.wheels;
      eq = l.eq;
      rounds = l.rounds;
      wakes = λ k c. (
        λ h.
            let h' = (l.runs k c).0 h in
            elim h'.1 [
              | inl d ↦ absurd (IsDue-init c k d)
              | inr w ↦
                  let x = Wakes-Calls 0 sched k c w in
                  (h'.0, x.0, x.1, x.2, x.3 ∙ ap (λ t. x.0 + x.1 + late t x.1) (zero-add x.0))
            ],
        λ (p, r, d, call, e). (l.runs k c).1 (
          p,
          inr (
              subst (λ j. Wakes 0 sched j c) (ap (λ t. r + d + late t d) (zero-add r) ∙ sym e)
                (Calls-Wakes 0 sched r c d call)),
        ),
      );
    }

late-le : (t d : ℕ) → late t d ≤ 3660
late-le t d = ground arith

late_pos : (t d : ℕ) → 60 ≤ d → 0 < late t d
late_pos t d h = ground arith

-- From init on, under any schedule of delays below 216000 ms, a coroutine that the loop runs in
-- round k asked for it with a delay of d ms before the end of some round r, with r + d <= k <= r +
-- d + 3660.
pub wakes_in_time :
    (sched : List (List Node)) (short : AllCallsShort sched) (k c : ℕ)
    → RunsAt (event_loop-init sched short).out k c
    → (r : ℕ) × (d : ℕ) × Calls sched r c d × (r + d ≤ k) × (k ≤ r + d + 3660)
wakes_in_time sched short k c h =
    let (p, r, d, call, e) = ((event_loop-init sched short).wakes k c).0 h in
    (r, d, call, omega (arith, e), omega (arith, e, late-le r d))

-- From init on, under any schedule of delays below 216000 ms, a coroutine whose one call, before
-- the end of round r, asks for a delay d of 60 ms or more is not run in round r + d.
pub long_sleep_is_late :
    (sched : List (List Node)) (short : AllCallsShort sched) (c r d : ℕ)
    → 60 ≤ d
    → ((r' d' : ℕ) → Calls sched r' c d' → (r' ≡ r) × (d' ≡ d))
    → ¬ RunsAt (event_loop-init sched short).out (r + d) c
long_sleep_is_late sched short c r d long only h =
    let (p, r', d', call, e) = ((event_loop-init sched short).wakes (r + d) c).0 h in
    let (same_r, same_d) = only r' d' call in
    absurd (omega (arith, e, same_r, same_d, late_pos r' d' (omega (arith, same_d))))

-- A round of the event loop throws if the pending queue begins with a delay of 216000 ms or more,
-- whatever the wheels hold.
pub round-throws :
    (tm : TimerManager) (n : Node) (ns : List Node)
    → tm.pending_events ≡ n ∷ ns
    → 216_000 ≤ n.delay_ms
    → round tm ≡ throw
unfolding round add_pending
round-throws tm n ns e h = rw (e, internal_add_event-throws n tm.timewheels h)
