-- ===== src/Timer/Loop.antt =====
-- `event_loop` from outside: in which round each sleeping coroutine is run.
use native.Mathlib.Numerals.{add-one}
use rock_coro.Prelude.{
  ℕ, zero, suc, ◌+◌, ◌%◌, ◌^◌, ◌<◌, ◌≡◌, ◌↔◌, ◌⊎◌, inl, inr, refl, ap, sym, ◌∙◌, subst, List, [],
  ◌∷◌, arith, length, In,
}
use rock_coro.Prelude.Result.{ok, >>=-ok}
use rock_coro.Timer.{
  slots_per_wheel, num_wheels, Node, TimeWheel, TimerManager, request_all, round, event_loop,
}
use rock_coro.Timer.Due.{IsDue, IsValid, clock, Next}
use rock_coro.Timer.Tick.{tick-Ticked}
use rock_coro.Timer.Pending.{Asked, Asked-mod, AllShort, add_pending-Pended, request_all-pending}

-- `c` is run in round `k`, where `out` lists the jobs of each round.
abbrev pub RunsAt : List (List ℕ) → ℕ → ℕ → Type 0
RunsAt [] k c = ⊥
RunsAt (jobs ∷ out) zero c = In c jobs
RunsAt (jobs ∷ out) (suc k) c = RunsAt out k c

-- Some call in this schedule makes `c` due in round `k`, where the schedule begins at tick `t`.
abbrev pub Wakes : ℕ → List (List Node) → ℕ → ℕ → Type 0
Wakes t [] k c = ⊥
Wakes t (calls ∷ rest) zero c = Asked t calls c 0
Wakes t (calls ∷ rest) (suc k) c = Asked t calls c (suc k) ⊎ Wakes (t + 1) rest k c

abbrev pub AllCallsShort : List (List Node) → Type 0
AllCallsShort [] = Unit {0}
AllCallsShort (calls ∷ rest) = AllShort calls × AllCallsShort rest

abbrev pub idle : List TimeWheel → TimerManager
idle ws = record { timewheels = ws; pending_events = [] }

-- The loop has run one round for each entry of the schedule, without a throw.
pub record Looped (t : ℕ) (sched : List (List Node)) (ws : List TimeWheel) : Type 0 where
  pub wheels : List TimeWheel
  pub out : List (List ℕ)
  pub eq : event_loop sched (idle ws) ≡ ok (idle wheels, out)
  pub valid : IsValid 1 wheels × (length wheels ≡ num_wheels)
  pub rounds : length out ≡ length sched
  pub runs :
      (k c : ℕ) → RunsAt out k c ↔ ((k < length sched) × (IsDue 0 ws c k ⊎ Wakes t sched k c))

clock-step :
    (t u u' n : ℕ) → t % 3600 ≡ u % 3600 → n ≡ num_wheels → Next n u u' → (t + 1) % 3600 ≡ u' % 3600
clock-step t u u' n e three (inl h) = omega arith
clock-step t u u' n e three (inr h) =
    let full : u + 1 ≡ 216_000 = subst (λ m. u + 1 ≡ slots_per_wheel ^ m) three h.1 in
    omega (arith, h.0)

-- One round on valid wheels: no throw, and everything due is run or one tick closer.
record Rounded (t : ℕ) (calls : List Node) (ws : List TimeWheel) : Type 0 where
  wheels : List TimeWheel
  jobs : List ℕ
  eq : round (request_all calls (idle ws)) ≡ ok (idle wheels, jobs)
  valid : IsValid 1 wheels
  count : length wheels ≡ num_wheels
  time : (t + 1) % 3600 ≡ clock wheels % 3600
  now : (c : ℕ) → In c jobs ↔ (IsDue 0 ws c 0 ⊎ Asked t calls c 0)
  later : (c k : ℕ) → IsDue 0 wheels c k ↔ (IsDue 0 ws c (suc k) ⊎ Asked t calls c (suc k))

round-Rounded :
    (t : ℕ) (calls : List Node) (ws : List TimeWheel)
    → IsValid 1 ws
    → length ws ≡ num_wheels
    → t % 3600 ≡ clock ws % 3600
    → AllShort calls
    → Rounded t calls ws
unfolding round
round-Rounded t calls ws v three same short =
    let p = add_pending-Pended calls ws v three short in
    let tk = tick-Ticked p.wheels p.valid in
    let due : (c k : ℕ) → IsDue 0 p.wheels c k ↔ (IsDue 0 ws c k ⊎ Asked t calls c k) = λ c k. (
      λ d. elim ((p.due c k).0 d) [
        | inl x ↦ inl x
        | inr a ↦ inr (Asked-mod (clock ws) t c k calls (sym same) a)
      ],
      λ s.
          (p.due c k).1
            (elim s [ inl x ↦ inl x | inr a ↦ inr (Asked-mod t (clock ws) c k calls same a) ]),
    ) in
    record {
      wheels = tk.wheels;
      jobs = tk.jobs;
      eq = ap round (request_all-pending calls (idle ws)) ∙ >>=-ok _ _ p.eq (>>=-ok _ _ tk.eq refl);
      valid = tk.valid;
      count = tk.count ∙ p.count ∙ three;
      time =
          clock-step t (clock p.wheels) (clock tk.wheels) (length p.wheels)
            (subst (λ u. t % 3600 ≡ u % 3600) (sym p.time) same) (p.count ∙ three) tk.time;
      now = λ c.
          (λ h. (due c 0).0 ((tk.effect.runs c).0 h), λ s. (tk.effect.runs c).1 ((due c 0).1 s));
      later = λ c k.
          subst (λ j. IsDue 0 tk.wheels c k ↔ (IsDue 0 ws c j ⊎ Asked t calls c j)) (add-one k)
            (
              λ d. (due c (k + 1)).0 ((tk.effect.waits c k).0 d),
              λ s. (tk.effect.waits c k).1 ((due c (k + 1)).1 s),
            );
    }

pub event_loop-Looped :
    (sched : List (List Node)) (t : ℕ) (ws : List TimeWheel)
    → IsValid 1 ws
    → length ws ≡ num_wheels
    → t % 3600 ≡ clock ws % 3600
    → AllCallsShort sched
    → Looped t sched ws
unfolding event_loop
event_loop-Looped [] t ws v three same short = record {
  wheels = ws;
  out = [];
  eq = refl;
  valid = (v, three);
  rounds = refl;
  runs = λ k c. (λ h. absurd h, λ h. absurd (omega (arith, h.0)));
}
event_loop-Looped (calls ∷ rest) t ws v three same short =
    let r = round-Rounded t calls ws v three same short.0 in
    let all = event_loop-Looped rest (t + 1) r.wheels r.valid r.count r.time short.1 in
    record {
      wheels = all.wheels;
      out = r.jobs ∷ all.out;
      eq = >>=-ok _ _ r.eq (>>=-ok _ _ all.eq refl);
      valid = all.valid;
      rounds = ap suc all.rounds;
      runs = λ k c. at_round r.wheels r.jobs all.out k c r.now r.later all.runs;
    }
  where
    at_round :
        (wheels : List TimeWheel) (jobs : List ℕ) (out : List (List ℕ)) (k c : ℕ)
        → ((c : ℕ) → In c jobs ↔ (IsDue 0 ws c 0 ⊎ Asked t calls c 0))
        → ((c k : ℕ) → IsDue 0 wheels c k ↔ (IsDue 0 ws c (suc k) ⊎ Asked t calls c (suc k)))
        → ((k c : ℕ)
            → RunsAt out k c ↔ ((k < length rest) × (IsDue 0 wheels c k ⊎ Wakes (t + 1) rest k c)))
        → RunsAt (jobs ∷ out) k c
          ↔ ((k < length (calls ∷ rest)) × (IsDue 0 ws c k ⊎ Wakes t (calls ∷ rest) k c))
    at_round wheels jobs out zero c now later runs =
        (λ h. (omega arith, (now c).0 h), λ h. (now c).1 h.1)
    at_round wheels jobs out (suc k) c now later runs = (
      λ h. (
        omega (arith, ((runs k c).0 h).0),
        elim ((runs k c).0 h).1 [
          | inl d ↦ elim ((later c k).0 d) [ inl x ↦ inl x | inr a ↦ inr (inl a) ]
          | inr w ↦ inr (inr w)
        ],
      ),
      λ h. (runs k c).1 (
        omega (arith, h.0),
        elim h.1 [
          | inl x ↦ inl ((later c k).1 (inl x))
          | inr (inl a) ↦ inl ((later c k).1 (inr a))
          | inr (inr w) ↦ inr w
        ],
      ),
    )
