-- ===== src/Timer/Pending.antt =====
-- The pending queue: what the calls of `add_event` become.
use rock_coro.Prelude.{
  ℕ, ◌+◌, ◌-◌, ◌%◌, ◌<◌, ◌≡◌, ◌↔◌, ◌⊎◌, inl, inr, refl, ap, sym, ◌∙◌, subst, List, [], ◌∷◌, ◌++◌,
  arith, ltb, if◌then◌else◌, length, append-nil, append_assoc,
}
use rock_coro.Prelude.Result.{ok, >>=-ok}
use rock_coro.Timer.{num_wheels, Node, TimeWheel, TimerManager, add_pending, request, request_all}
use rock_coro.Timer.Due.{IsDue, IsValid, clock}
use rock_coro.Timer.Request.{base_of, wheel_of, internal_add_event-Added}

-- How much later than its delay a coroutine is run, where the delay was asked for at tick `t`.
abbrev pub late : ℕ → ℕ → ℕ
late t d = if ltb d 60 then 0 else if ltb d 3600 then 60 - t % 60 else 3660 - t % 3600

-- Only the position in the second wheel's turn counts.
late-mod : (t t' d : ℕ) → t % 3600 ≡ t' % 3600 → late t d ≡ late t' d
late-mod t t' d h = ground arith

base_of-late :
    (d : ℕ) (ws : List TimeWheel)
    → IsValid 1 ws
    → length ws ≡ num_wheels
    → d < 216_000
    → base_of (wheel_of d) 0 ws ≡ late (clock ws) d
base_of-late d [] v e h = absurd (omega arith)
base_of-late d (w₀ ∷ []) v e h = absurd (omega arith)
base_of-late d (w₀ ∷ w₁ ∷ []) v e h = absurd (omega arith)
base_of-late d (w₀ ∷ w₁ ∷ w₂ ∷ []) v e h =
    ground (arith, v.0.interval_eq, v.0.index, v.1.0.interval_eq, v.1.0.index)
base_of-late d (w₀ ∷ w₁ ∷ w₂ ∷ w ∷ ws) v e h = absurd (omega arith)

-- One of these calls makes `c` due after `k` ticks.
abbrev pub Asked : ℕ → List Node → ℕ → ℕ → Type 0
Asked t [] c k = ⊥
Asked t (n ∷ ns) c k = (c ≡ n.coroutine) × (k ≡ n.delay_ms + late t n.delay_ms) ⊎ Asked t ns c k

abbrev pub AllShort : List Node → Type 0
AllShort [] = Unit {0}
AllShort (n ∷ ns) = (n.delay_ms < 216_000) × AllShort ns

pub Asked-mod :
    (t t' c k : ℕ) (ns : List Node) → t % 3600 ≡ t' % 3600 → Asked t ns c k → Asked t' ns c k
Asked-mod t t' c k [] e h = h
Asked-mod t t' c k (n ∷ ns) e (inl h) =
    inl (h.0, h.1 ∙ ap (λ x. n.delay_ms + x) (late-mod t t' n.delay_ms e))
Asked-mod t t' c k (n ∷ ns) e (inr h) = inr (Asked-mod t t' c k ns e h)

-- The wheels once the pending queue is empty.
pub record Pended (ns : List Node) (ws : List TimeWheel) : Type 0 where
  pub wheels : List TimeWheel
  pub eq : add_pending ns ws ≡ ok wheels
  pub valid : IsValid 1 wheels
  pub count : length wheels ≡ length ws
  pub time : clock wheels ≡ clock ws
  pub due : (c k : ℕ) → IsDue 0 wheels c k ↔ (IsDue 0 ws c k ⊎ Asked (clock ws) ns c k)

pub add_pending-Pended :
    (ns : List Node) (ws : List TimeWheel)
    → IsValid 1 ws
    → length ws ≡ num_wheels
    → AllShort ns
    → Pended ns ws
unfolding add_pending
add_pending-Pended [] ws v three short = record {
  wheels = ws;
  eq = refl;
  valid = v;
  count = refl;
  time = refl;
  due = λ c k. (inl, λ s. elim s [ inl d ↦ d | inr h ↦ absurd h ]);
}
add_pending-Pended (n ∷ ns) ws v three short =
    let add = internal_add_event-Added n ws v three short.0 in
    let rest = add_pending-Pended ns add.wheels add.valid (add.count ∙ three) short.1 in
    let when : base_of (wheel_of n.delay_ms) 0 ws ≡ late (clock ws) n.delay_ms =
      base_of-late n.delay_ms ws v three short.0 in
    record {
      wheels = rest.wheels;
      eq = >>=-ok _ _ add.eq rest.eq;
      valid = rest.valid;
      count = rest.count ∙ add.count;
      time = rest.time ∙ add.time;
      due = λ c k. (
        λ d. elim ((rest.due c k).0 d) [
          | inl d' ↦ elim ((add.due c k).0 d') [
            | inl x ↦ inl x
            | inr e ↦ inr (inl (e.0, omega (arith, e.1, when)))
          ]
          | inr h ↦ inr (inr (subst (λ t. Asked t ns c k) add.time h))
        ],
        λ s. (rest.due c k).1 (elim s [
          | inl x ↦ inl ((add.due c k).1 (inl x))
          | inr (inl e) ↦ inl ((add.due c k).1 (inr (e.0, omega (arith, e.1, when))))
          | inr (inr h) ↦ inr (subst (λ t. Asked t ns c k) (sym add.time) h)
        ]),
      );
    }

-- Calls of `add_event` queue their nodes in order.
pub request_all-pending :
    (ns : List Node) (tm : TimerManager)
    → request_all ns tm ≡ record tm { pending_events = tm.pending_events ++ ns }
unfolding request_all request
request_all-pending [] tm =
    ap (λ p. record tm { pending_events = p }) (sym (append-nil tm.pending_events))
request_all-pending (n ∷ ns) tm =
    request_all-pending ns (request tm n.coroutine n.delay_ms)
    ∙ ap (λ p. record tm { pending_events = p }) (append_assoc tm.pending_events (n ∷ []) ns)
