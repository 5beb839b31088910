-- ===== src/Timer/Tick.antt =====
-- `tick`: what it runs, and when the rest is due.
use rock_coro.Prelude.{
  length, suc, ℕ, ◌+◌, ◌≤◌, ◌≡◌, ◌↔◌, ◌⊎◌, inl, inr, refl, ap, List, [], ◌∷◌, map, arith, In,
}
use rock_coro.Prelude.Result.{ok, >>=-ok}
use rock_coro.Timer.{Node, TimeWheel, current, rotate, tick}
use rock_coro.Timer.Due.{IsDueAt, IsDue, next_base, IsValid, clock, Next}
use rock_coro.Timer.Carry.{Advanced, advance, carry, rotate_index, regroup_top}
use rock_coro.Timer.Turn.{IsTaken, rotate-IsValidWheel, rotate-IsDueAt}

IsDueAt-shift :
    (b c k k' : ℕ) (w : TimeWheel) → k ≡ k' + 1 → IsDueAt (b + 1) w c k → IsDueAt b w c k'
IsDueAt-shift b c k k' w e d = record {
  slot = d.slot;
  delay = d.delay;
  in_range = d.in_range;
  waits = d.waits;
  when = omega (arith, d.when);
}

IsDueAt-unshift : (b c k : ℕ) (w : TimeWheel) → IsDueAt b w c k → IsDueAt (b + 1) w c (k + 1)
IsDueAt-unshift b c k w d = record {
  slot = d.slot;
  delay = d.delay;
  in_range = d.in_range;
  waits = d.waits;
  when = omega (arith, d.when);
}

next_base-suc : (b : ℕ) (w : TimeWheel) → next_base (b + 1) w ≡ next_base b w + 1
next_base-suc b w = omega arith

-- Time counted from one tick later.
IsDue-shift : (b c k : ℕ) (ws : List TimeWheel) → IsDue (b + 1) ws c (k + 1) ↔ IsDue b ws c k
IsDue-shift b c k [] = (λ s. s, λ s. s)
IsDue-shift b c k (w ∷ ws) = rw (next_base-suc b w) (
  λ s. elim s [
    | inl d ↦ inl (IsDueAt-shift b c _ k w refl d)
    | inr u ↦ inr ((IsDue-shift (next_base b w) c k ws).0 u)
  ],
  λ s. elim s [
    | inl d ↦ inl (IsDueAt-unshift b c k w d)
    | inr u ↦ inr ((IsDue-shift (next_base b w) c k ws).1 u)
  ],
)

-- Nothing is due before the wheel's current slot is reached.
pub IsDue-base : (b c k : ℕ) (ws : List TimeWheel) → IsDue b ws c k → b ≤ k
IsDue-base b c k [] h = absurd h
IsDue-base b c k (w ∷ ws) (inl d) = omega (arith, d.when)
IsDue-base b c k (w ∷ ws) (inr u) = omega (arith, IsDue-base (next_base b w) c k ws u)

IsTaken-jobs :
    (c k : ℕ) (ns : List Node)
    → IsTaken 0 1 ns c k ↔ (In c (map (λ (n : Node). n.coroutine) ns) × (k ≡ 0))
IsTaken-jobs c k ns =
    (λ t. (forget ns t.delay t.among, omega (arith, t.when)), λ (h, e). find ns h e)
  where
    forget :
        (ns : List Node) (delay : ℕ)
        → In (record { coroutine = c; delay_ms = delay }) ns
        → In c (map (λ (n : Node). n.coroutine) ns)
    forget [] delay h = absurd h
    forget (n ∷ ns) delay (inl e) = inl (ap (λ (m : Node). m.coroutine) e)
    forget (n ∷ ns) delay (inr h) = inr (forget ns delay h)

    find : (ns : List Node) → In c (map (λ (n : Node). n.coroutine) ns) → k ≡ 0 → IsTaken 0 1 ns c k
    find [] h e = absurd h
    find (n ∷ ns) (inl h) e = record {
      delay = n.delay_ms;
      among = inl (ground arith);
      when = omega arith;
    }
    find (n ∷ ns) (inr h) e =
        let t = find ns h e in record { delay = t.delay; among = inr t.among; when = t.when }

-- A tick runs what was due at once, and brings all else one tick closer.
pub record IsTicked (ws ws' : List TimeWheel) (jobs : List ℕ) : Type 0 where
  pub runs : (c : ℕ) → In c jobs ↔ IsDue 0 ws c 0
  pub waits : (c k : ℕ) → IsDue 0 ws' c k ↔ IsDue 0 ws c (k + 1)

-- A tick of valid wheels does not throw, and leaves valid wheels.
pub record Ticked (ws : List TimeWheel) : Type 0 where
  pub wheels : List TimeWheel
  pub jobs : List ℕ
  pub eq : tick ws ≡ ok (wheels, jobs)
  pub valid : IsValid 1 wheels
  pub count : length wheels ≡ length ws
  pub time : Next (length ws) (clock ws) (clock wheels)
  pub effect : IsTicked ws wheels jobs

-- A tick of valid wheels does not throw and leaves as many valid wheels, whose clock has gone on
-- by one or come round to 0; it runs exactly the coroutines that were due at once, and brings
-- every other one a tick closer, cascades through the upper wheels included.
pub tick-Ticked : (ws : List TimeWheel) → IsValid 1 ws → Ticked ws
unfolding tick
tick-Ticked [] v = record {
  wheels = [];
  jobs = [];
  eq = refl;
  valid = tt;
  count = refl;
  time = inr (refl, refl);
  effect = record { runs = λ c. (λ s. s, λ s. s); waits = λ c k. (λ s. s, λ s. s) };
}
tick-Ticked (w ∷ ws) v =
    let adv : Advanced 1 w ws =
      advance 1 w ws v.0 v.1
        (λ e. carry 1 (rotate w) ws (rotate-IsValidWheel 1 w v.0) (rotate_index w e) v.1) in
    let both : (c k : ℕ)
        → IsDue 0 (w ∷ ws) c k
          ↔ (IsTaken 0 1 (current w) c k ⊎ IsDue 1 (adv.this ∷ adv.uppers) c k) =
      λ c k. regroup_top (rotate-IsDueAt 1 w v.0 0 c k) (adv.due 0 c k) in
    record {
      wheels = adv.this ∷ adv.uppers;
      jobs = map (λ (n : Node). n.coroutine) (current w);
      eq = >>=-ok _ _ adv.eq refl;
      valid = adv.valid;
      count = ap suc adv.count;
      time = adv.time;
      effect = record {
        runs = λ c. (
          λ h. (both c 0).1 (inl ((IsTaken-jobs c 0 (current w)).1 (h, refl))),
          λ d. elim ((both c 0).0 d) [
            | inl t ↦ ((IsTaken-jobs c 0 (current w)).0 t).0
            | inr a ↦ absurd (omega (arith, IsDue-base 1 c 0 (adv.this ∷ adv.uppers) a))
          ],
        );
        waits = λ c k. (
          λ d. (both c (k + 1)).1 (inr ((IsDue-shift 0 c k (adv.this ∷ adv.uppers)).1 d)),
          λ d. elim ((both c (k + 1)).0 d) [
            | inl t ↦ absurd (omega (arith, ((IsTaken-jobs c (k + 1) (current w)).0 t).1))
            | inr a ↦ (IsDue-shift 0 c k (adv.this ∷ adv.uppers)).0 a
          ],
        );
      };
    }
