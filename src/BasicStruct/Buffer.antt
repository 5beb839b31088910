-- ===== src/BasicStruct/Buffer.antt =====
-- src/basic_struct/vector.h: accesses to a buffer of `capacity` cells, each of them checked.
use rock_coro.Prelude.{
  ℕ, zero, suc, ◌+◌, ◌≤◌, ◌<◌, ◌≡◌, refl, Option, none, some, arith, ltb, if◌then◌else◌,
}
use rock_coro.BasicStruct.Memory.{Memory, write, copy_from}

-- A call that returns, that ends at a failed assert, or that accesses a cell outside its buffer, or
-- reads or destroys an object where there is none, which C++ leaves undefined.
pub data Outcome {ℓ} (A : Type ℓ) : Type ℓ where
  returns : A → Outcome A
  aborted overrun : Outcome A

infixl 5 ◌>>=◌
abbrev pub ◌>>=◌ {ℓ κ} : {A : Type ℓ} {B : Type κ} → Outcome A → (A → Outcome B) → Outcome B
returns a >>= f = f a
aborted >>= f = aborted
overrun >>= f = overrun

module _ {A : Type 0} where
  abbrev pub held : Option A → Outcome A
  held none = overrun
  held (some x) = returns x

  -- A read of the object in cell `i`.
  abbrev pub load : ℕ → Memory A → ℕ → Outcome A
  load capacity m i = if ltb i capacity then held (m i) else overrun

  -- `new (data_ + i) T(x)`
  abbrev pub construct : ℕ → Memory A → ℕ → A → Outcome (Memory A)
  construct capacity m i x = if ltb i capacity then returns (write m i (some x)) else overrun

  -- `data_[i].~T()`
  abbrev pub destruct : ℕ → Memory A → ℕ → Outcome (Memory A)
  destruct capacity m i = load capacity m i >>= λ _. returns (write m i none)

  -- `n` rounds, from `i` on, of the loop that makes objects of those in another buffer.
  unfoldable pub copy_objects : ℕ → ℕ → ℕ → Memory A → ℕ → Memory A → Outcome (Memory A)
  copy_objects zero i room from capacity to = returns to
  copy_objects (suc n) i room from capacity to = do
    x ← load room from i
    next ← construct capacity to i x
    copy_objects n (i + 1) room from capacity next

  -- `n` rounds of the loop of destroy_all, from `i` on.
  unfoldable pub destroy_from : ℕ → ℕ → ℕ → Memory A → Outcome (Memory A)
  destroy_from zero i capacity m = returns m
  destroy_from (suc n) i capacity m = do
    next ← destruct capacity m i
    destroy_from n (i + 1) capacity next

  -- The cells from `i` on, before `j`, hold objects.
  abbrev pub Filled : Memory A → ℕ → ℕ → Type 0
  Filled m i j = (k : ℕ) → i ≤ k → k < j → (x : A) × (m k ≡ some x)

  -- With objects to copy and room for them, the loop returns.
  pub copy_objects-returns :
      (n i room : ℕ) (from : Memory A) (capacity : ℕ) (to : Memory A)
      → i + n ≤ room
      → i + n ≤ capacity
      → Filled from i (i + n)
      → copy_objects n i room from capacity to ≡ returns (copy_from n i from to)
  unfolding copy_objects copy_from
  copy_objects-returns zero i room from capacity to p q f = refl
  copy_objects-returns (suc n) i room from capacity to p q f =
      let (x, e) = f i (omega arith) (omega arith) in
      let rest =
        copy_objects-returns n (i + 1) room from capacity (write to i (some x)) (omega arith)
          (omega arith) (λ k a b. f k (omega arith) (omega arith)) in
      ground (arith, e, rest)

  pub destroy_from-returns :
      (n i capacity : ℕ) (m : Memory A)
      → i + n ≤ capacity
      → Filled m i (i + n)
      → destroy_from n i capacity m ≡ returns (copy_from n i (λ _. none) m)
  unfolding destroy_from copy_from
  destroy_from-returns zero i capacity m p f = refl
  destroy_from-returns (suc n) i capacity m p f =
      let (x, e) = f i (omega arith) (omega arith) in
      let rest =
        destroy_from-returns n (i + 1) capacity (write m i none) (omega arith)
          (λ k a b. let (y, d) = f k (omega arith) (omega arith) in (y, ground (arith, d))) in
      ground (arith, e, rest)
