-- ===== src/BasicStruct/Queue/Indices.antt =====
-- The indices of a ring of `cap` places, which keeps one of them free.
use native.Mathlib.Nat.{div-add-mod}
use rock_coro.Prelude.{
  ℕ, ◌+◌, ◌*◌, ◌/◌, ◌%◌, ◌<◌, ◌≡◌, ◌≢◌, ap₂, sym, ◌∙◌, arith, leb, ◌==◌, if◌then◌else◌, true, false,
}
use rock_coro.Prelude.Ring.{mod-wrap}

pub same_place : (S i j : ℕ) → i / S ≡ j / S → i % S ≡ j % S → i ≡ j
same_place S i j d m = sym (div-add-mod i S) ∙ ap₂ (λ a b. S * a + b) d m ∙ div-add-mod j S

pub full_test :
    (cap top len bottom : ℕ)
    → top < cap
    → len < cap
    → bottom ≡ (top + len) % cap
    → len + 1 ≡ cap
    → (top == (if leb cap (bottom + 1) then 0 else bottom + 1)) ≡ true
full_test cap top len bottom a b c e = ground (arith, mod-wrap (top + len) cap)

pub room_test :
    (cap top len bottom : ℕ)
    → top < cap
    → len < cap
    → bottom ≡ (top + len) % cap
    → len + 1 ≢ cap
    → (top == (if leb cap (bottom + 1) then 0 else bottom + 1)) ≡ false
room_test cap top len bottom a b c e = ground (arith, mod-wrap (top + len) cap)

pub next_bottom :
    (cap top len bottom : ℕ)
    → top < cap
    → len < cap
    → bottom ≡ (top + len) % cap
    → (if leb cap (bottom + 1) then 0 else bottom + 1) ≡ (top + (len + 1)) % cap
next_bottom cap top len bottom a b c =
    ground (arith, mod-wrap (top + len) cap, mod-wrap (top + (len + 1)) cap)

pub empty_test :
    (cap top len bottom : ℕ)
    → top < cap
    → len < cap
    → bottom ≡ (top + len) % cap
    → len ≡ 0
    → (top == bottom) ≡ true
empty_test cap top len bottom a b c e = ground (arith, mod-wrap (top + len) cap)

pub item_test :
    (cap top len bottom : ℕ)
    → top < cap
    → len < cap
    → bottom ≡ (top + len) % cap
    → 0 < len
    → (top == bottom) ≡ false
item_test cap top len bottom a b c e = ground (arith, mod-wrap (top + len) cap)

pub first_place : (cap top : ℕ) → top < cap → (top + 0) % cap ≡ top
first_place cap top a = ground (arith, mod-wrap (top + 0) cap)

pub next_top :
    (cap top : ℕ) → top < cap → (if (top + 1) == cap then 0 else top + 1) ≡ (top + 1) % cap
next_top cap top a = ground (arith, mod-wrap (top + 1) cap)

pub next_in : (cap top : ℕ) → top < cap → (if (top + 1) == cap then 0 else top + 1) < cap
next_in cap top a = ground arith
