-- ===== src/Coroutine/Stack/Rounding.antt =====
-- The size of a stack is a number of whole pages.
use rock_coro.Prelude.{
  ℕ, zero, suc, ◌+◌, ◌-◌, ◌*◌, ◌/◌, ◌%◌, ◌^◌, ◌≤◌, ◌<◌, ◌≡◌, ap, ap₂, sym, ◌∙◌, arith,
}
use Prim.Native.Nat.{bit_and}
use native.Mathlib.Nat.{
  pow-suc, one-le-pow, pow-le-pow_right, mod-lt, div-add-mod', lt_of_mul-lt-mul_right,
}
use rock_coro.TaggedPtr.{bit_not}
use rock_coro.TaggedPtr.Bits.{fields, bit_and-fields, and_with_zero, and_with_ones}
use rock_coro.Coroutine.Stack.{default_size, stack_size}

split_pow : (k m : ℕ) → 2 ^ (k + m) ≡ 2 ^ m * 2 ^ k
split_pow zero m = omega (arith, ap (λ n. 2 ^ n) {x = 0 + m} {y = m} (omega arith))
split_pow (suc k) m = omega (
  arith,
  ap (λ n. 2 ^ n) {x = suc k + m} {y = suc (k + m)} (omega arith),
  pow-suc 2 (k + m),
  split_pow k m,
  ap (λ (t : ℕ). 2 ^ m * t) (pow-suc 2 k),
)

one_less : (a b : ℕ) → 1 ≤ a → (a - 1) * b + b ≡ a * b
one_less zero b h = absurd (omega arith)
one_less (suc a) b h = grind arith

-- The digits above the low `k`, of a word with `k + m`.
cleared :
    (k m h l : ℕ) → l < 2 ^ k → h < 2 ^ m → bit_and (fields k h l) (2 ^ (k + m) - 2 ^ k) ≡ h * 2 ^ k
cleared k m h l low high =
    let all : 2 ^ (k + m) - 2 ^ k ≡ fields k (2 ^ m - 1) 0 =
      omega (arith, split_pow k m, one_less (2 ^ m) (2 ^ k) (one-le-pow m 2 (omega arith))) in
    omega (
      arith,
      ap (bit_and (fields k h l)) all,
      bit_and-fields k h (2 ^ m - 1) l 0 low (omega (arith, low)),
      and_with_zero l l (omega arith),
      ap (λ (t : ℕ). t * 2 ^ k) (and_with_ones m h high),
    )

module _ (k : ℕ) (small : k ≤ 32) where
  page : 2 ^ k ≤ 2 ^ 32
  page = pow-le-pow_right (omega arith) small

  some_page : 1 ≤ 2 ^ k
  some_page = one-le-pow k 2 (omega arith)

  rounded : stack_size (2 ^ k) ≡ (default_size + 2 ^ k - 1) / 2 ^ k * 2 ^ k
  unfolding stack_size
  rounded =
      let m = 64 - k in
      let w = default_size + 2 ^ k - 1 in
      let h = w / 2 ^ k in
      let l = w % 2 ^ k in
      let whole : h * 2 ^ k + l ≡ w = div-add-mod' w (2 ^ k) in
      let bits : k + m ≡ 64 = omega (arith, small) in
      let word : 2 ^ (k + m) ≡ 2 ^ 64 = ap (λ n. 2 ^ n) bits in
      let inverse : bit_not (2 ^ k - 1) ≡ 2 ^ (k + m) - 2 ^ k =
        omega (arith, word, some_page, page) in
      let high : h < 2 ^ m =
        lt_of_mul-lt-mul_right (2 ^ k) {m = h} {n = 2 ^ m}
          (omega (arith, whole, page, word, split_pow k m)) in
      ap₂ bit_and (sym whole) inverse ∙ cleared k m h l (mod-lt w (omega (arith, some_page))) high

  -- With pages of 2 ^ k bytes, for k up to 32, the size of a stack is the least number of whole
  -- pages that has STACK_SIZE bytes: it is a multiple of the page size, at least STACK_SIZE and
  -- less than a page more.
  pub stack_has_whole_pages :
      (pages : ℕ) × (stack_size (2 ^ k) ≡ pages * 2 ^ k)
      × (default_size ≤ stack_size (2 ^ k))
      × (stack_size (2 ^ k) < default_size + 2 ^ k)
  stack_has_whole_pages =
      let w = default_size + 2 ^ k - 1 in
      let whole = div-add-mod' w (2 ^ k) in
      let low = mod-lt w {m = 2 ^ k} (omega (arith, some_page)) in
      (
        w / 2 ^ k,
        rounded,
        omega (arith, rounded, whole, low, some_page),
        omega (arith, rounded, whole, some_page),
      )
