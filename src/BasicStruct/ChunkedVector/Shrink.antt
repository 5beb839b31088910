-- ===== src/BasicStruct/ChunkedVector/Shrink.antt =====
-- A smaller size: `resize` cuts the elements short.
use rock_coro.Prelude.{
  ℕ, zero, suc, ◌+◌, ◌-◌, ◌/◌, ◌%◌, ◌≤◌, ◌<◌, ◌≡◌, refl, ap, sym, ◌∙◌, List, [], ◌∷◌, ◌++◌, arith,
  ltb, ◌==◌, if_true, if_false, length, length-append, take, length-take, append-nil, Bool-cases,
  inl, inr,
}
use rock_coro.BasicStruct.ChunkedVector.{modify_at, resize_block, blocks_for, shrink}
use rock_coro.BasicStruct.ChunkedVector.Blocks.{
  concat, AreBlocks, AreBlocks-cons, div-zero, div-step,
}

pub zero-sub : (n : ℕ) → 0 - n ≡ 0
zero-sub n = omega arith

pub suc-sub : (n m : ℕ) → suc n - suc m ≡ n - m
suc-sub n m = omega arith

pub blocks_for-zero : (B : ℕ) → 0 < B → blocks_for B 0 ≡ 0
blocks_for-zero B p = (div-zero (0 + B - 1) B (omega arith)).0

pub blocks_for-one : (B n : ℕ) → 0 < n → n ≤ B → blocks_for B n ≡ 1
blocks_for-one B n p q =
    let s = div-step (n + B - 1) B (omega arith) (omega arith) in
    let z = div-zero (n + B - 1 - B) B (omega arith) in s.0 ∙ ap suc z.0

pub blocks_for-step : (B n : ℕ) → 0 < B → B ≤ n → blocks_for B n ≡ suc (blocks_for B (n - B))
blocks_for-step B n p q = elim (Bool-cases (n == B)) [
  | inl e ↦
      let same : n ≡ B = ground arith in
      blocks_for-one B n (omega arith) (omega arith)
      ∙ ap suc (sym (ap (blocks_for B) (omega (arith, same)) ∙ blocks_for-zero B p))
  | inr e ↦
      let apart : B < n = ground arith in
      (div-step (n + B - 1) B p (omega arith)).0 ∙ ap (λ k. suc (k / B)) (omega (arith, apart))
]

module _ {ℓ} {A : Type ℓ} where
  take-append : (xs ys : List A) (n : ℕ) → take n (xs ++ ys) ≡ take n xs ++ take (n - length xs) ys
  take-append xs ys zero = rw (zero-sub (length xs)) refl
  take-append [] ys (suc n) = ap (λ k. take k ys) {x = suc n} (omega arith)
  take-append (x ∷ xs) ys (suc n) = rw (take-append xs ys n, suc-sub n (length xs)) refl

  pub take-whole : (xs : List A) (n : ℕ) → length xs ≤ n → take n xs ≡ xs
  take-whole [] zero h = refl
  take-whole [] (suc n) h = refl
  take-whole (x ∷ xs) zero h = absurd (omega arith)
  take-whole (x ∷ xs) (suc n) h = ap (◌∷◌ x) (take-whole xs n (omega arith))

module _ {A : Type 0} where
  take_in_first : (xs ys : List A) (n : ℕ) → n ≤ length xs → take n (xs ++ ys) ≡ take n xs
  take_in_first xs ys n h =
      let z : n - length xs ≡ 0 = omega arith in
      rw (take-append xs ys n, z) (append-nil (take n xs))

  take_past_first :
      (xs ys : List A) (n m : ℕ) → length xs ≡ m → m ≤ n → take n (xs ++ ys) ≡ xs ++ take (n - m) ys
  take_past_first xs ys n m e h = rw (take-append xs ys n, take-whole xs n (omega arith), e) refl

  pub resize_block-less :
      (n : ℕ) (d : A) (b : List A) → n ≤ length b → resize_block n d b ≡ take n b
  resize_block-less n d b h = let z : n - length b ≡ 0 = omega arith in rw z (append-nil (take n b))

  shrink_as_take :
      (B n : ℕ) (d : A) (bs : List (List A))
      → shrink B n d bs ≡ take (blocks_for B n) (modify_at (n / B) (resize_block (n % B) d) bs)
  unfolding shrink
  shrink_as_take B n d bs =
      let m = modify_at (n / B) (resize_block (n % B) d) bs in
      elim (Bool-cases (ltb (blocks_for B n) (length m))) [
        | inl e ↦ if_true (ltb (blocks_for B n) (length m)) (take (blocks_for B n) m) m e
        | inr e ↦
            if_false (ltb (blocks_for B n) (length m)) (take (blocks_for B n) m) m e
            ∙ sym (take-whole m (blocks_for B n) (ground arith))
      ]

  shrink-cons :
      (B n : ℕ) (d : A) (b : List A) (bs : List (List A))
      → 0 < B
      → B ≤ n
      → shrink B n d (b ∷ bs) ≡ b ∷ shrink B (n - B) d bs
  shrink-cons B n d b bs p h =
      let z = div-step n B p h in
      rw
        (
          shrink_as_take B n d (b ∷ bs),
          shrink_as_take B (n - B) d bs,
          blocks_for-step B n p h,
          z.0,
          z.1,
        )
        refl

  -- In the first block.
  shrink-first :
      (B n : ℕ) (d : A) (b : List A) (bs : List (List A))
      → n < B
      → n < length b
      → AreBlocks B (shrink B n d (b ∷ bs)) × (concat (shrink B n d (b ∷ bs)) ≡ take n b)
  shrink-first B zero d b bs p h =
      rw (shrink_as_take B 0 d (b ∷ bs), blocks_for-zero B p) (tt, refl)
  shrink-first B (suc n) d b bs p h =
      let z = div-zero (suc n) B p in
      rw
        (
          shrink_as_take B (suc n) d (b ∷ bs),
          blocks_for-one B (suc n) (omega arith) (omega arith),
          z.0,
          z.1,
          resize_block-less (suc n) d b (omega arith),
          append-nil (take (suc n) b),
        )
        ((omega (arith, length-take {0} (suc n) b), omega (arith, length-take {0} (suc n) b)), refl)

  pub shrink_lem :
      (B n : ℕ) (d : A) (bs : List (List A))
      → 0 < B
      → AreBlocks B bs
      → n < length (concat bs)
      → AreBlocks B (shrink B n d bs) × (concat (shrink B n d bs) ≡ take n (concat bs))
  shrink_lem B n d [] p w h = elim h [ ]
  shrink_lem B n d (b ∷ []) p w h =
      let q : n < length b = omega (arith, h, length-append {0} b []) in
      rw (append-nil b) (shrink-first B n d b [] (omega (arith, w.1)) q)
  shrink_lem B n d (b ∷ c ∷ bs) p w h = elim (Bool-cases (ltb n B)) [
    | inl e ↦
        let q : n < length b = ground (arith, w.0) in
        let f = shrink-first B n d b (c ∷ bs) (ground arith) q in
        (f.0, f.1 ∙ sym (take_in_first b (concat (c ∷ bs)) n (omega arith)))
    | inr e ↦
        let le : B ≤ n = ground arith in
        let f =
          shrink_lem B (n - B) d (c ∷ bs) p w.1
            (omega (arith, h, w.0, length-append {0} b (concat (c ∷ bs)))) in
        rw (shrink-cons B n d b (c ∷ bs) p le) (
          AreBlocks-cons B b (shrink B (n - B) d (c ∷ bs)) p w.0 f.0,
          rw f.1 (sym (take_past_first b (concat (c ∷ bs)) n B w.0 le)),
        )
  ]
