-- ===== src/Prelude/Ring.antt =====
-- Indices that go round a ring of `cap` cells.
use Prim.Native.Nat.{ℕ, suc, ◌+◌, ◌-◌, ◌%◌, ◌<◌}
use native.Mathlib.Nat.{mod-eq_of_lt, mod-eq-sub-mod, mod-add-mod}
use native.Mathlib.Omega.{arith}
use mathlib.Core.Path.{◌≡◌, ap, ◌∙◌}
use mathlib.Core.Logic.{◌≢◌, inl, inr}
use rock_coro.Prelude.Tests.{ltb, if◌then◌else◌, Bool-cases}

-- Below two rounds, the remainder is at most one subtraction.
pub mod-wrap : (x cap : ℕ) → x < cap + cap → x % cap ≡ (if ltb x cap then x else x - cap)
mod-wrap x cap h = elim (Bool-cases (ltb x cap)) [
  | inl e ↦ rw e (mod-eq_of_lt (ground arith))
  | inr e ↦ rw e (
      mod-eq-sub-mod {n = x} {m = cap} (ground arith)
      ∙ mod-eq_of_lt {n = x - cap} {m = cap} (ground arith))
]

-- Fewer than `cap` steps do not come back to the same cell.
pub round_apart : (cap h i j : ℕ) → i < j → j < cap → h < cap → (h + i) % cap ≢ (h + j) % cap
round_apart cap h i j p q r = ground (arith, mod-wrap (h + i) cap, mod-wrap (h + j) cap)

pub next_index : (cap h i : ℕ) → ((h + 1) % cap + i) % cap ≡ (h + suc i) % cap
next_index cap h i = rw mod-add-mod (ap (λ k. k % cap) (omega arith))
