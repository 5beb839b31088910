-- ===== src/Timer/Turn.antt =====
-- One turn of a wheel: its current slot is emptied, into the wheel below or to the scheduler.
use native.Mathlib.Nat.{mod-lt}
use rock_coro.Prelude.{
  ℕ, suc, ◌+◌, ◌-◌, ◌*◌, ◌%◌, ◌<◌, ◌≡◌, ◌↔◌, ◌⊎◌, inl, inr, refl, ap, sym, ◌∙◌, List, [], ◌∷◌,
  arith, In, ◌==◌, Bool-cases, true, false,
}
use rock_coro.Prelude.Result.{ok}
use rock_coro.Timer.{
  slots_per_wheel, Node, TimeWheel, slot_of, push_back, cascade, current, wraps, rotate,
}
use rock_coro.Timer.Due.{
  ahead, IsDueAt, next_base, IsValidWheel, add_event-ok, add_event-IsDueAt, push_back-IsValidWheel,
}

-- `c` is among the nodes that a turn takes, and is due once `rest` of its delay has passed.
pub record IsTaken (b interval : ℕ) (ns : List Node) (c k : ℕ) : Type 0 where
  pub delay : ℕ
  pub among : In (record { coroutine = c; delay_ms = delay }) ns
  pub when : k ≡ b + delay % interval

IsTaken-cons :
    (b interval : ℕ) (n : Node) (ns : List Node) (c k : ℕ)
    → IsTaken b interval (n ∷ ns) c k
      ↔ ((c ≡ n.coroutine) × (k ≡ b + n.delay_ms % interval) ⊎ IsTaken b interval ns c k)
IsTaken-cons b interval n ns c k = (from, to)
  where
    from :
        IsTaken b interval (n ∷ ns) c k
        → (c ≡ n.coroutine) × (k ≡ b + n.delay_ms % interval) ⊎ IsTaken b interval ns c k
    from t = elim t.among [
      | inl e ↦
          let e' : t.delay ≡ n.delay_ms = ap (λ (m : Node). m.delay_ms) e in
          inl (ap (λ (m : Node). m.coroutine) e, t.when ∙ (rw e'))
      | inr h ↦ inr (record { delay = t.delay; among = h; when = t.when })
    ]

    to :
        (c ≡ n.coroutine) × (k ≡ b + n.delay_ms % interval) ⊎ IsTaken b interval ns c k
        → IsTaken b interval (n ∷ ns) c k
    to (inl e) = record { delay = n.delay_ms; among = inl (ground arith); when = e.1 }
    to (inr t) = record { delay = t.delay; among = inr t.among; when = t.when }

-- The lower wheel after the nodes of the upper one's slot have come down.
pub record Cascaded (i : ℕ) (ns : List Node) (l : TimeWheel) : Type 0 where
  pub lower : TimeWheel
  pub eq : cascade (i * slots_per_wheel) ns l ≡ ok lower
  pub valid : IsValidWheel i lower
  pub index : lower.cur_slot_idx ≡ l.cur_slot_idx
  pub due :
      (b c k : ℕ) → IsDueAt b lower c k ↔ (IsDueAt b l c k ⊎ IsTaken b (i * slots_per_wheel) ns c k)

pub cascade-Cascaded : (i : ℕ) (ns : List Node) (l : TimeWheel) → IsValidWheel i l → Cascaded i ns l
unfolding cascade
cascade-Cascaded i [] l v = record {
  lower = l;
  eq = refl;
  valid = v;
  index = refl;
  due = λ b c k. (inl, λ s. elim s [ inl d ↦ d | inr t ↦ absurd t.among ]);
}
cascade-Cascaded i (n ∷ ns) l v =
    let m : Node = record n { delay_ms = n.delay_ms % (i * slots_per_wheel) } in
    let pos : 0 < i = v.interval_pos in
    let short : n.delay_ms % (i * slots_per_wheel) < i * slots_per_wheel = mod-lt _ (omega arith) in
    let l₁ : TimeWheel = push_back l (slot_of l m.delay_ms) m in
    let rest = cascade-Cascaded i ns l₁ (push_back-IsValidWheel i l v m _ short) in
    record {
      lower = rest.lower;
      eq = rw (add_event-ok i l v m short) rest.eq;
      valid = rest.valid;
      index = rest.index;
      due = λ b c k.
          let now = add_event-IsDueAt i l v m b c k short in
          let cons = IsTaken-cons b (i * slots_per_wheel) n ns c k in
          (
            λ d. elim ((rest.due b c k).0 d) [
              | inl x ↦ elim (now.0 x) [ inl y ↦ inl y | inr e ↦ inr (cons.1 (inl e)) ]
              | inr t ↦ inr (cons.1 (inr t))
            ],
            λ s. (rest.due b c k).1 (elim s [
              | inl y ↦ inl (now.1 (inl y))
              | inr t ↦ elim (cons.0 t) [ inl e ↦ inl (now.1 (inr e)) | inr u ↦ inr u ]
            ]),
          );
    }

module _ (i : ℕ) (w : TimeWheel) (v : IsValidWheel i w) where
  kept : (j : ℕ) (n : Node) → In n ((rotate w).slots j) → In n (w.slots j)
  kept j n h = elim (Bool-cases (j == w.cur_slot_idx)) [
    | inl e ↦ absurd (rw e at h)
    | inr e ↦ rw e at h
  ]

  pub rotate-IsValidWheel : IsValidWheel i (rotate w)
  rotate-IsValidWheel = record {
    interval_pos = v.interval_pos;
    interval_eq = v.interval_eq;
    index = ground (arith, v.index);
    delays = λ j n h. v.delays j n (kept j n h);
  }

  -- Away from the current slot, a turn brings every slot one closer.
  ahead-rotate :
      (j : ℕ)
      → j < slots_per_wheel
      → (j == w.cur_slot_idx) ≡ false
      → ahead w j ≡ ahead (rotate w) j + 1
  ahead-rotate j hj ne = ground (arith, v.index)

  ahead-current : ahead w w.cur_slot_idx ≡ 0
  ahead-current = ground (arith, v.index)

  later :
      (b j delay : ℕ)
      → j < slots_per_wheel
      → (j == w.cur_slot_idx) ≡ false
      → b + w.interval_ms * ahead w j + delay % w.interval_ms
        ≡ b + i + w.interval_ms * ahead (rotate w) j + delay % w.interval_ms
  later b j delay hj ne = rw (ahead-rotate j hj ne, v.interval_eq) (omega arith)

  taken_time :
      (b delay : ℕ)
      → b + w.interval_ms * ahead w w.cur_slot_idx + delay % w.interval_ms ≡ b + delay % i
  taken_time b delay = rw (ahead-current, v.interval_eq) (omega arith)

  -- What was due before the turn is taken by it, or is due just when it was.
  pub rotate-IsDueAt :
      (b c k : ℕ) → IsDueAt b w c k ↔ (IsTaken b i (current w) c k ⊎ IsDueAt (b + i) (rotate w) c k)
  rotate-IsDueAt b c k = (from, to)
    where
      from : IsDueAt b w c k → IsTaken b i (current w) c k ⊎ IsDueAt (b + i) (rotate w) c k
      from d = elim (Bool-cases (d.slot == w.cur_slot_idx)) [
        | inl e ↦
            let at : d.slot ≡ w.cur_slot_idx = ground arith in
            inl (record {
              delay = d.delay;
              among = rw at at d.waits;
              when = (rw at at d.when) ∙ taken_time b d.delay;
            })
        | inr e ↦ inr (record {
          slot = d.slot;
          delay = d.delay;
          in_range = d.in_range;
          waits = rw e d.waits;
          when = d.when ∙ later b d.slot d.delay d.in_range e;
        })
      ]

      to : IsTaken b i (current w) c k ⊎ IsDueAt (b + i) (rotate w) c k → IsDueAt b w c k
      to (inl t) = record {
        slot = w.cur_slot_idx;
        delay = t.delay;
        in_range = v.index;
        waits = t.among;
        when = t.when ∙ sym (taken_time b t.delay);
      }
      to (inr d) = elim (Bool-cases (d.slot == w.cur_slot_idx)) [
        | inl e ↦ absurd (rw e at d.waits)
        | inr e ↦ record {
          slot = d.slot;
          delay = d.delay;
          in_range = d.in_range;
          waits = rw e at d.waits;
          when = d.when ∙ sym (later b d.slot d.delay d.in_range e);
        }
      ]

  pub next_base-rotate : (b : ℕ) → wraps w ≡ false → next_base (b + i) (rotate w) ≡ next_base b w
  next_base-rotate b h =
      let e : slots_per_wheel - w.cur_slot_idx ≡ suc (slots_per_wheel - (w.cur_slot_idx + 1)) =
        ground arith in
      rw (h, e, v.interval_eq) (omega arith)

  pub next_base-wraps : (b : ℕ) → wraps w ≡ true → next_base b w ≡ b + i
  next_base-wraps b h =
      let e : slots_per_wheel - w.cur_slot_idx ≡ 1 = ground (arith, v.index) in
      rw (e, v.interval_eq) (omega arith)
