-- ===== src/TaggedPtr/Bits.antt =====
-- Operations on binary digits, on numbers with a high and a low part.
use rock_coro.Prelude.{
  ℕ, zero, suc, ◌+◌, ◌-◌, ◌*◌, ◌/◌, ◌%◌, ◌^◌, ◌≤◌, ◌<◌, ◌≡◌, refl, ap, ap₂, arith, min,
}
use Prim.Native.Nat.{bit_and, bit_or, max, digits, bit_and-bitwise, bit_or-bitwise}
use native.Mathlib.Nat.{pow-suc, one-le-pow}

-- The count of digits to go does not matter from the number on.
same_digits :
    (z : ℕ → ℕ) (f : ℕ → ℕ → ℕ) (m n a b : ℕ) → a ≤ m → a ≤ n → digits z f m a b ≡ digits z f n a b
same_digits z f zero zero a b p q = refl
same_digits z f zero (suc n) a b p q = let e : a ≡ 0 = omega arith in rw e refl
same_digits z f (suc m) zero a b p q = let e : a ≡ 0 = omega arith in rw e refl
same_digits z f (suc m) (suc n) zero b p q = refl
same_digits z f (suc m) (suc n) (suc a) b p q =
    ap (λ d. d * 2 + f (suc a % 2) (b % 2))
      (same_digits z f m n (suc a / 2) (b / 2) (omega arith) (omega arith))

-- An operation that goes digit by digit.
abbrev Digitwise : (ℕ → ℕ → ℕ) → (ℕ → ℕ → ℕ) → Type 0
Digitwise op f = (a b : ℕ) → op a b ≡ op (a / 2) (b / 2) * 2 + f (a % 2) (b % 2)

bit_and-Digitwise : Digitwise bit_and min
bit_and-Digitwise zero b = simp bit_and-bitwise (omega arith)
bit_and-Digitwise (suc a) b = simp bit_and-bitwise (
    ap (λ d. d * 2 + min (suc a % 2) (b % 2))
      (same_digits (λ y. 0) min a (suc a / 2) (suc a / 2) (b / 2) (omega arith) (omega arith)))

bit_or-Digitwise : Digitwise bit_or max
bit_or-Digitwise zero b = simp bit_or-bitwise (omega arith)
bit_or-Digitwise (suc a) b = simp bit_or-bitwise (
    ap (λ d. d * 2 + max (suc a % 2) (b % 2))
      (same_digits (λ y. y) max a (suc a / 2) (suc a / 2) (b / 2) (omega arith) (omega arith)))

-- `high` above `k` bits of `low`.
abbrev pub fields : ℕ → ℕ → ℕ → ℕ
fields k high low = high * 2 ^ k + low

fields-suc-half : (k h l : ℕ) → fields (suc k) h l / 2 ≡ fields k h (l / 2)
fields-suc-half k h l = omega (arith, ap (λ (t : ℕ). h * t) (pow-suc 2 k))

fields-suc-rest : (k h l : ℕ) → fields (suc k) h l % 2 ≡ l % 2
fields-suc-rest k h l = omega (arith, ap (λ (t : ℕ). h * t) (pow-suc 2 k))

by_fields :
    (op f : ℕ → ℕ → ℕ)
    → Digitwise op f
    → op 0 0 ≡ 0
    → (k a b r s : ℕ) → r < 2 ^ k
    → s < 2 ^ k
    → op (fields k a r) (fields k b s) ≡ fields k (op a b) (op r s)
by_fields op f d z zero a b r s p q =
    let high : op (fields 0 a r) (fields 0 b s) ≡ op a b = ap₂ op (omega arith) (omega arith) in
    let low : op r s ≡ op 0 0 = ap₂ op (omega arith) (omega arith) in omega (arith, high, low, z)
by_fields op f d z (suc k) a b r s p q =
    let halves : op (fields (suc k) a r / 2) (fields (suc k) b s / 2)
        ≡ op (fields k a (r / 2)) (fields k b (s / 2)) =
      ap₂ op (fields-suc-half k a r) (fields-suc-half k b s) in
    let rests : f (fields (suc k) a r % 2) (fields (suc k) b s % 2) ≡ f (r % 2) (s % 2) =
      ap₂ f (fields-suc-rest k a r) (fields-suc-rest k b s) in
    let parts =
      by_fields op f d z k a b (r / 2) (s / 2) (omega (arith, pow-suc 2 k))
        (omega (arith, pow-suc 2 k)) in
    omega (
      arith,
      d (fields (suc k) a r) (fields (suc k) b s),
      halves,
      rests,
      parts,
      d r s,
      ap (λ (t : ℕ). op a b * t) (pow-suc 2 k),
    )

pub bit_and-fields :
    (k a b r s : ℕ)
    → r < 2 ^ k
    → s < 2 ^ k
    → bit_and (fields k a r) (fields k b s) ≡ fields k (bit_and a b) (bit_and r s)
bit_and-fields = by_fields bit_and min bit_and-Digitwise refl

pub bit_or-fields :
    (k a b r s : ℕ)
    → r < 2 ^ k
    → s < 2 ^ k
    → bit_or (fields k a r) (fields k b s) ≡ fields k (bit_or a b) (bit_or r s)
bit_or-fields = by_fields bit_or max bit_or-Digitwise refl

-- No digits, and all of the digits there are.
pub and_with_zero : (fuel a : ℕ) → a ≤ fuel → bit_and a 0 ≡ 0
and_with_zero zero a le = let e : a ≡ 0 = omega arith in rw e refl
and_with_zero (suc fuel) zero le = refl
and_with_zero (suc fuel) (suc a) le =
    omega (arith, bit_and-Digitwise (suc a) 0, and_with_zero fuel (suc a / 2) (omega arith))

pub or_with_zero : (fuel a : ℕ) → a ≤ fuel → bit_or a 0 ≡ a
or_with_zero zero a le = let e : a ≡ 0 = omega arith in rw e refl
or_with_zero (suc fuel) zero le = refl
or_with_zero (suc fuel) (suc a) le =
    omega (arith, bit_or-Digitwise (suc a) 0, or_with_zero fuel (suc a / 2) (omega arith))

pub or_of_zero : (b : ℕ) → bit_or 0 b ≡ b
or_of_zero b = simp bit_or-bitwise refl

pub and_with_ones : (k a : ℕ) → a < 2 ^ k → bit_and a (2 ^ k - 1) ≡ a
and_with_ones zero a lt = let e : a ≡ 0 = omega arith in rw e refl
and_with_ones (suc k) a lt =
    let half : (2 ^ suc k - 1) / 2 ≡ 2 ^ k - 1 = omega (arith, pow-suc 2 k) in
    omega (
      arith,
      bit_and-Digitwise a (2 ^ suc k - 1),
      ap (bit_and (a / 2)) half,
      and_with_ones k (a / 2) (omega (arith, pow-suc 2 k)),
      pow-suc 2 k,
      one-le-pow k 2,
    )
