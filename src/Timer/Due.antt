-- ===== src/Timer/Due.antt =====
-- When a waiting node is due: the ticks of the lowest wheel that pass before the one that runs it.
use native.Mathlib.Nat.{div-add-mod}
use rock_coro.Prelude.{
  ℕ, ◌+◌, ◌-◌, ◌*◌, ◌/◌, ◌%◌, ◌^◌, ◌<◌, ◌≡◌, ◌↔◌, ◌⊎◌, inl, inr, refl, ap, sym, ◌∙◌, List, [], ◌∷◌,
  arith, In, In-snoc, ◌==◌, Bool-cases,
}
use rock_coro.Prelude.Result.{ok}
use rock_coro.Timer.{slots_per_wheel, Node, TimeWheel, slot_of, push_back, add_event}

-- How many turns of the wheel come before slot `j` is the current one.
abbrev pub ahead : TimeWheel → ℕ → ℕ
ahead w j = (j + slots_per_wheel - w.cur_slot_idx) % slots_per_wheel

-- The node `n` of slot `j`, in a wheel whose current slot is reached after `base` ticks.
abbrev pub due_at : ℕ → TimeWheel → ℕ → Node → ℕ
due_at base w j n = base + w.interval_ms * ahead w j + n.delay_ms % w.interval_ms

-- `c` waits in slot `j` of this wheel and is due after `k` ticks.
pub record IsDueAt (base : ℕ) (w : TimeWheel) (c k : ℕ) : Type 0 where
  pub slot : ℕ
  pub delay : ℕ
  pub in_range : slot < slots_per_wheel
  pub waits : In (record { coroutine = c; delay_ms = delay }) (w.slots slot)
  pub when : k ≡ base + w.interval_ms * ahead w slot + delay % w.interval_ms

-- The ticks before the next wheel's current slot is reached.
abbrev pub next_base : ℕ → TimeWheel → ℕ
next_base base w = base + w.interval_ms * (slots_per_wheel - w.cur_slot_idx)

abbrev pub IsDue : ℕ → List TimeWheel → ℕ → ℕ → Type 0
IsDue base [] c k = ⊥
IsDue base (w ∷ ws) c k = IsDueAt base w c k ⊎ IsDue (next_base base w) ws c k

-- A wheel of this interval: its index in range, and its delays within one turn.
pub record IsValidWheel (interval : ℕ) (w : TimeWheel) : Type 0 where
  pub interval_pos : 0 < interval
  pub interval_eq : w.interval_ms ≡ interval
  pub index : w.cur_slot_idx < slots_per_wheel
  pub delays : (j : ℕ) (n : Node) → In n (w.slots j) → n.delay_ms < interval * slots_per_wheel

abbrev pub IsValid : ℕ → List TimeWheel → Type 0
IsValid interval [] = Unit {0}
IsValid interval (w ∷ ws) = IsValidWheel interval w × IsValid (interval * slots_per_wheel) ws

-- The ticks that the wheels count, up to a full turn of them all.
abbrev pub clock : List TimeWheel → ℕ
clock [] = 0
clock (w ∷ ws) = w.cur_slot_idx + slots_per_wheel * clock ws

-- Another tick counted, or the count back at 0 after a full turn.
abbrev pub Next : ℕ → ℕ → ℕ → Type 0
Next n t t' = (t' ≡ t + 1) ⊎ (t' ≡ 0) × (t + 1 ≡ slots_per_wheel ^ n)

pub ahead-slot_of : (cur q : ℕ) → cur < 60 → q < 60 → ((cur + q) % 60 + 60 - cur) % 60 ≡ q
ahead-slot_of cur q hc hq = omega arith

pub div-lt : (d i : ℕ) → 0 < i → d < i * 60 → d / i < 60
div-lt d i p h = grind (arith, div-add-mod d i)

module _ (interval : ℕ) (w : TimeWheel) (v : IsValidWheel interval w) (n : Node) where
  -- What `add_event` does with a delay within one turn of the wheel.
  pub add_event-ok :
      n.delay_ms < interval * slots_per_wheel
      → add_event n w ≡ ok (push_back w (slot_of w n.delay_ms) n)
  unfolding add_event
  add_event-ok h = ground (arith, v.interval_eq)

  -- A node joins slot `j` and no other.
  In-push_back :
      (m : Node) (j i : ℕ)
      → In m ((push_back w j n).slots i) ↔ (In m (w.slots i) ⊎ (i ≡ j) × (m ≡ n))
  In-push_back m j i = elim (Bool-cases (i == j)) [
    | inl same ↦
        let e : i ≡ j = ground arith in
        rw (same, e)
          (
            λ p. elim ((In-snoc m n (w.slots j)).0 p) [ inl a ↦ inl a | inr b ↦ inr (refl, b) ],
            λ s. (In-snoc m n (w.slots j)).1 (elim s [ inl a ↦ inl a | inr b ↦ inr b.1 ]),
          )
    | inr other ↦ rw other (inl, λ s. elim s [ inl h ↦ h | inr e ↦ ground arith ])
  ]

  pub push_back-IsValidWheel :
      (j : ℕ) → n.delay_ms < interval * slots_per_wheel → IsValidWheel interval (push_back w j n)
  push_back-IsValidWheel j h = record {
    interval_pos = v.interval_pos;
    interval_eq = v.interval_eq;
    index = v.index;
    delays = λ i m p. elim ((In-push_back m j i).0 p) [
      | inl old ↦ v.delays i m old
      | inr new ↦ rw new.1 h
    ];
  }

  add-time :
      (b : ℕ)
      → n.delay_ms < interval * slots_per_wheel
      → b + n.delay_ms ≡ due_at b w (slot_of w n.delay_ms) n
  add-time b h =
      let q : n.delay_ms / w.interval_ms < 60 = rw v.interval_eq (div-lt _ _ v.interval_pos h) in
      rw (ahead-slot_of w.cur_slot_idx (n.delay_ms / w.interval_ms) v.index q)
        (omega (arith, div-add-mod n.delay_ms w.interval_ms))

  -- A node that is added is due after its delay, counted from the wheel's next turn, and the
  -- other nodes are due when they were.
  pub add_event-IsDueAt :
      (b c k : ℕ)
      → n.delay_ms < interval * slots_per_wheel
      → IsDueAt b (push_back w (slot_of w n.delay_ms) n) c k
        ↔ (IsDueAt b w c k ⊎ (c ≡ n.coroutine) × (k ≡ b + n.delay_ms))
  add_event-IsDueAt b c k h = (from, to)
    where
      from :
          IsDueAt b (push_back w (slot_of w n.delay_ms) n) c k
          → IsDueAt b w c k ⊎ (c ≡ n.coroutine) × (k ≡ b + n.delay_ms)
      from d = elim ((In-push_back _ (slot_of w n.delay_ms) d.slot).0 d.waits) [
        | inl old ↦ inl (record {
          slot = d.slot;
          delay = d.delay;
          in_range = d.in_range;
          waits = old;
          when = d.when;
        })
        | inr new ↦
            let e : d.delay ≡ n.delay_ms = ap (λ (m : Node). m.delay_ms) new.1 in
            inr
              (ap (λ (m : Node). m.coroutine) new.1, d.when ∙ (rw (new.0, e) (sym (add-time b h))))
      ]

      to :
          IsDueAt b w c k ⊎ (c ≡ n.coroutine) × (k ≡ b + n.delay_ms)
          → IsDueAt b (push_back w (slot_of w n.delay_ms) n) c k
      to (inl d) = record {
        slot = d.slot;
        delay = d.delay;
        in_range = d.in_range;
        waits = (In-push_back _ (slot_of w n.delay_ms) d.slot).1 (inl d.waits);
        when = d.when;
      }
      to (inr e) = record {
        slot = slot_of w n.delay_ms;
        delay = n.delay_ms;
        in_range = omega arith;
        waits =
            (In-push_back _ (slot_of w n.delay_ms) (slot_of w n.delay_ms)).1
              (inr (refl, ground arith));
        when = e.1 ∙ add-time b h;
      }
