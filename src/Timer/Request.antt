-- ===== src/Timer/Request.antt =====
-- `internal_add_event`: which wheel a delay goes to, and when its node is due from there.
use rock_coro.Prelude.{
  length, ℕ, zero, suc, ◌+◌, ◌*◌, ◌≤◌, ◌<◌, ◌≡◌, ◌↔◌, ◌⊎◌, inl, inr, refl, ap, sym, subst, List, [],
  ◌∷◌, arith, ltb, if◌then◌else◌,
}
use rock_coro.Prelude.Result.{Result, ok, throw, >>=-ok}
use rock_coro.Timer.{
  slots_per_wheel, num_wheels, Node, TimeWheel, slot_of, push_back, add_at, internal_add_event,
}
use rock_coro.Timer.Due.{
  IsDue, next_base, IsValid, clock, add_event-ok, push_back-IsValidWheel, add_event-IsDueAt,
}

-- The delay that wheel `i` can hold, where the lowest wheel has this interval.
abbrev capacity : ℕ → ℕ → ℕ
capacity zero interval = interval * slots_per_wheel
capacity (suc i) interval = capacity i (interval * slots_per_wheel)

-- The ticks before wheel `i` reaches its current slot.
abbrev pub base_of : ℕ → ℕ → List TimeWheel → ℕ
base_of i b [] = b
base_of zero b (w ∷ ws) = b
base_of (suc i) b (w ∷ ws) = base_of i (next_base b w) ws

-- The wheels once a node is in, due `k` ticks from now or later; the others are due when they were.
pub record Added (interval b : ℕ) (n : Node) (late : ℕ) (ws : List TimeWheel)
    (r : Result (List TimeWheel)) : Type 0 where
  pub wheels : List TimeWheel
  pub eq : r ≡ ok wheels
  pub valid : IsValid interval wheels
  pub count : length wheels ≡ length ws
  pub time : clock wheels ≡ clock ws
  pub due :
      (c k : ℕ)
      → IsDue b wheels c k ↔ (IsDue b ws c k ⊎ (c ≡ n.coroutine) × (k ≡ late + n.delay_ms))

add_at-Added :
    (i interval b : ℕ) (n : Node) (ws : List TimeWheel)
    → i < length ws
    → IsValid interval ws
    → n.delay_ms < capacity i interval
    → Added interval b n (base_of i b ws) ws (add_at i n ws)
unfolding add_at
add_at-Added i interval b n [] has v short = absurd (omega arith)
add_at-Added zero interval b n (w ∷ ws) has v short = record {
  wheels = push_back w (slot_of w n.delay_ms) n ∷ ws;
  eq = >>=-ok _ _ (add_event-ok interval w v.0 n short) refl;
  valid = (push_back-IsValidWheel interval w v.0 n _ short, v.1);
  count = refl;
  time = refl;
  due = λ c k.
      let now = add_event-IsDueAt interval w v.0 n b c k short in
      (
        λ s. elim s [
          | inl d ↦ elim (now.0 d) [ inl x ↦ inl (inl x) | inr e ↦ inr e ]
          | inr u ↦ inl (inr u)
        ],
        λ s. elim s [
          | inl (inl x) ↦ inl (now.1 (inl x))
          | inl (inr u) ↦ inr u
          | inr e ↦ inl (now.1 (inr e))
        ],
      );
}
add_at-Added (suc i) interval b n (w ∷ ws) has v short =
    let rest =
      add_at-Added i (interval * slots_per_wheel) (next_base b w) n ws (omega arith) v.1 short in
    record {
      wheels = w ∷ rest.wheels;
      eq = >>=-ok _ _ rest.eq refl;
      valid = (v.0, rest.valid);
      count = ap suc rest.count;
      time = omega (arith, rest.time);
      due = λ c k.
          let above = rest.due c k in
          (
            λ s. elim s [
              | inl d ↦ inl (inl d)
              | inr u ↦ elim (above.0 u) [ inl x ↦ inl (inr x) | inr e ↦ inr e ]
            ],
            λ s. elim s [
              | inl (inl d) ↦ inl d
              | inl (inr x) ↦ inr (above.1 (inl x))
              | inr e ↦ inr (above.1 (inr e))
            ],
          );
    }

-- The wheel of each delay, in milliseconds.
abbrev pub wheel_of : ℕ → ℕ
wheel_of d = if ltb d 60 then 0 else if ltb d 3600 then 1 else if ltb d 216_000 then 2 else 3

short-internal_add_event :
    (n : Node) (ws : List TimeWheel)
    → n.delay_ms < 216_000
    → internal_add_event n ws ≡ add_at (wheel_of n.delay_ms) n ws
unfolding internal_add_event
short-internal_add_event n ws h = ground arith

wheel_of-capacity : (d : ℕ) → d < 216_000 → (wheel_of d < 3) × (d < capacity (wheel_of d) 1)
wheel_of-capacity d h = ground arith

-- With three valid wheels and a delay below 216000 ms internal_add_event does not throw and keeps
-- the wheels valid and their clock; the new node is due after its delay, counted from the next
-- turn of the wheel that its delay goes to, and all other nodes are due when they were.
pub internal_add_event-Added :
    (n : Node) (ws : List TimeWheel)
    → IsValid 1 ws
    → length ws ≡ num_wheels
    → n.delay_ms < 216_000
    → Added 1 0 n (base_of (wheel_of n.delay_ms) 0 ws) ws (internal_add_event n ws)
internal_add_event-Added n ws v three short =
    let fits = wheel_of-capacity n.delay_ms short in
    subst (Added 1 0 n (base_of (wheel_of n.delay_ms) 0 ws) ws)
      (sym (short-internal_add_event n ws short))
      (add_at-Added (wheel_of n.delay_ms) 1 0 n ws (omega (arith, three)) v fits.1)

-- A longer one makes `internal_add_event` throw.
pub internal_add_event-throws :
    (n : Node) (ws : List TimeWheel) → 216_000 ≤ n.delay_ms → internal_add_event n ws ≡ throw
unfolding internal_add_event
internal_add_event-throws n ws h = ground arith
