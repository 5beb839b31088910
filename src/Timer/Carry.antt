-- ===== src/Timer/Carry.antt =====
-- The carry of `tick` into the upper wheels.
use native.Mathlib.Nat.{pow-suc}
use rock_coro.Prelude.{
  suc, length, ap, arith, ℕ, ◌+◌, ◌*◌, ◌≡◌, ◌↔◌, ◌⊎◌, inl, inr, refl, sym, ◌∙◌, List, [], ◌∷◌,
  if◌then◌else◌, Bool-cases, if_true, if_false, subst, true,
}
use rock_coro.Prelude.Result.{ok, >>=-ok}
use rock_coro.Timer.{slots_per_wheel, TimeWheel, cascade, current, wraps, rotate, tick_upper}
use rock_coro.Timer.Due.{IsDueAt, IsDue, next_base, IsValidWheel, IsValid, clock, Next}
use rock_coro.Timer.Turn.{
  cascade-Cascaded, rotate-IsValidWheel, rotate-IsDueAt, next_base-rotate, next_base-wraps,
}

-- What comes down joins the lower wheel, what stays is in the upper ones.
regroup : {D L T W R A U : Type 0} → D ↔ (L ⊎ T) → W ↔ (T ⊎ R) → A ↔ (R ⊎ U) → (D ⊎ A) ↔ (L ⊎ W ⊎ U)
regroup at turn above = (
  λ s. elim s [
    | inl d ↦ elim (at.0 d) [ inl l ↦ inl l | inr t ↦ inr (inl (turn.1 (inl t))) ]
    | inr a ↦ elim (above.0 a) [ inl r ↦ inr (inl (turn.1 (inr r))) | inr u ↦ inr (inr u) ]
  ],
  λ s. elim s [
    | inl l ↦ inl (at.1 (inl l))
    | inr (inl w) ↦ elim (turn.0 w) [ inl t ↦ inl (at.1 (inr t)) | inr r ↦ inr (above.1 (inl r)) ]
    | inr (inr u) ↦ inr (above.1 (inr u))
  ],
)

-- The wheels above `l` have ticked: nothing is lost, added or moved in time.
pub record Carried (i : ℕ) (l : TimeWheel) (ws : List TimeWheel) : Type 0 where
  pub lower : TimeWheel
  pub uppers : List TimeWheel
  pub eq : tick_upper l ws ≡ ok (lower, uppers)
  pub valid : IsValid i (lower ∷ uppers)
  pub index : lower.cur_slot_idx ≡ l.cur_slot_idx
  pub count : length uppers ≡ length ws
  pub time : Next (length ws) (clock ws) (clock uppers)
  pub due : (b c k : ℕ) → IsDue b (lower ∷ uppers) c k ↔ (IsDueAt b l c k ⊎ IsDue b ws c k)

-- The wheel has turned, and so have the wheels above it if it came round.
pub record Advanced (i : ℕ) (w : TimeWheel) (ws : List TimeWheel) : Type 0 where
  pub this : TimeWheel
  pub uppers : List TimeWheel
  pub eq : (if wraps w then tick_upper (rotate w) ws else ok (rotate w, ws)) ≡ ok (this, uppers)
  pub valid : IsValid i (this ∷ uppers)
  pub count : length uppers ≡ length ws
  pub time : Next (suc (length ws)) (clock (w ∷ ws)) (clock (this ∷ uppers))
  pub due :
      (b c k : ℕ)
      → IsDue (b + i) (this ∷ uppers) c k
        ↔ (IsDueAt (b + i) (rotate w) c k ⊎ IsDue (next_base b w) ws c k)

pub rotate_index : (w : TimeWheel) → wraps w ≡ true → (rotate w).cur_slot_idx ≡ 0
rotate_index w e = rw e

-- The carry into the wheels above, whose time has moved on.
wrap_time :
    (cur t u n low : ℕ)
    → cur ≡ 59
    → low ≡ 0
    → Next n t u
    → Next (suc n) (cur + slots_per_wheel * t) (low + slots_per_wheel * u)
wrap_time cur t u n low e e' h = elim h [
  | inl step ↦ inl (omega arith)
  | inr full ↦ inr (omega arith, rw pow-suc (omega arith))
]

pub advance :
    (i : ℕ) (w : TimeWheel) (ws : List TimeWheel)
    → IsValidWheel i w
    → IsValid (i * slots_per_wheel) ws
    → (wraps w ≡ true → Carried i (rotate w) ws)
    → Advanced i w ws
advance i w ws v vs carry = elim (Bool-cases (wraps w)) [
  | inl e ↦ record {
    this = (carry e).lower;
    uppers = (carry e).uppers;
    eq = if_true (wraps w) _ _ e ∙ (carry e).eq;
    valid = (carry e).valid;
    count = (carry e).count;
    time =
        wrap_time (w.cur_slot_idx) _ _ (length ws) _ (ground (arith, v.index))
          ((carry e).index ∙ rotate_index w e) (carry e).time;
    due = λ b c k. rw (next_base-wraps i w v b e) ((carry e).due (b + i) c k);
  }
  | inr e ↦ record {
    this = rotate w;
    uppers = ws;
    eq = if_false (wraps w) _ _ e;
    valid = (rotate-IsValidWheel i w v, vs);
    count = refl;
    time = inl (rw e (omega arith));
    due = λ b c k.
        subst
          (λ t.
            IsDueAt (b + i) (rotate w) c k ⊎ IsDue t ws c k
            ↔ (IsDueAt (b + i) (rotate w) c k ⊎ IsDue (next_base b w) ws c k))
          (sym (next_base-rotate i w v b e)) (λ s. s, λ s. s);
  }
]

next_base_fresh :
    (i b : ℕ) (w : TimeWheel)
    → IsValidWheel i w
    → w.cur_slot_idx ≡ 0
    → next_base b w ≡ b + i * slots_per_wheel
next_base_fresh i b w v e = rw (e, v.interval_eq)

pub carry :
    (i : ℕ) (l : TimeWheel) (ws : List TimeWheel)
    → IsValidWheel i l
    → l.cur_slot_idx ≡ 0
    → IsValid (i * slots_per_wheel) ws
    → Carried i l ws
unfolding tick_upper
carry i l [] v z vs = record {
  lower = l;
  uppers = [];
  eq = refl;
  valid = (v, tt);
  index = refl;
  count = refl;
  time = inr (refl, refl);
  due = λ b c k. (λ s. s, λ s. s);
}
carry i l (w ∷ ws) v z vs =
    let up = i * slots_per_wheel in
    let down = cascade-Cascaded i (current w) l v in
    let adv : Advanced up w ws =
      advance up w ws vs.0 vs.1
        (λ e. carry up (rotate w) ws (rotate-IsValidWheel up w vs.0) (rotate_index w e) vs.1) in
    record {
      lower = down.lower;
      uppers = adv.this ∷ adv.uppers;
      eq =
          >>=-ok _ _
            (subst (λ t. cascade t (current w) l ≡ ok down.lower) (sym vs.0.interval_eq) down.eq)
            (>>=-ok _ _ adv.eq refl);
      valid = (down.valid, adv.valid);
      index = down.index;
      count = ap suc adv.count;
      time = adv.time;
      due = λ b c k.
          let at = down.due b c k in
          let turn = rotate-IsDueAt up w vs.0 b c k in
          let above = adv.due b c k in
          rw (next_base_fresh i b down.lower down.valid (down.index ∙ z)) (regroup at turn above);
    }

-- What is taken leaves the wheels, what stays is in them.
pub regroup_top : {T W R A U : Type 0} → W ↔ (T ⊎ R) → A ↔ (R ⊎ U) → (W ⊎ U) ↔ (T ⊎ A)
regroup_top turn above = (
  λ s. elim s [
    | inl w ↦ elim (turn.0 w) [ inl t ↦ inl t | inr r ↦ inr (above.1 (inl r)) ]
    | inr u ↦ inr (above.1 (inr u))
  ],
  λ s. elim s [
    | inl t ↦ inl (turn.1 (inl t))
    | inr a ↦ elim (above.0 a) [ inl r ↦ inl (turn.1 (inr r)) | inr u ↦ inr u ]
  ],
)
