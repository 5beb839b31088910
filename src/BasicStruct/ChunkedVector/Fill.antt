-- ===== src/BasicStruct/ChunkedVector/Fill.antt =====
-- The loop of `resize` that fills whole blocks with a value.
use rock_coro.Prelude.{
  ℕ, zero, suc, ◌+◌, ◌-◌, ◌/◌, ◌%◌, ◌≤◌, ◌<◌, ◌≡◌, refl, ap, sym, ◌∙◌, true, false, List, [], ◌∷◌,
  ◌++◌, arith, ltb, leb, replicate, length-replicate, append-nil, Bool-cases, inl, inr,
}
use rock_coro.BasicStruct.ChunkedVector.{modify_at, resize_block, blocks_for, fill_blocks}
use rock_coro.BasicStruct.ChunkedVector.Blocks.{
  concat, AreBlocks, AreBlocks-cons, div-zero, div-step,
}
use rock_coro.BasicStruct.ChunkedVector.Shrink.{blocks_for-zero, blocks_for-one, blocks_for-step}

pub sub-zero : (n : ℕ) → n - 0 ≡ n
sub-zero n = omega arith

pub blocks_for_pos : (B n : ℕ) → 0 < B → 0 < n → (j : ℕ) × (blocks_for B n ≡ suc j)
blocks_for_pos B n p h = elim (Bool-cases (leb n B)) [
  | inl e ↦ (0, blocks_for-one B n h (ground arith))
  | inr e ↦ (blocks_for B (n - B), blocks_for-step B n p (ground arith))
]

module _ {A : Type 0} where
  -- One round of the loop that fills whole blocks, and the block after the loop.
  module _ (B old n : ℕ) (x : A) (bs : List (List A)) where
    whole_block :
        (fuel : ℕ)
        → old + B ≤ n
        → fill_blocks B (suc fuel) old n x bs
          ≡ fill_blocks B fuel (old + B) n x (modify_at (old / B) (resize_block B x) bs)
    unfolding fill_blocks
    whole_block fuel h = let e : leb (old + B) n ≡ true = ground arith in rw e refl

    last_block :
        (fuel : ℕ)
        → old < n
        → n < old + B
        → fill_blocks B (suc fuel) old n x bs ≡ modify_at (old / B) (resize_block (n % B) x) bs
    unfolding fill_blocks
    last_block fuel g h =
        let e : leb (old + B) n ≡ false = ground arith in
        let f : ltb old n ≡ true = ground arith in rw (e, f) refl

    pub no_block : (fuel : ℕ) → 0 < B → n ≤ old → fill_blocks B fuel old n x bs ≡ bs
    unfolding fill_blocks
    no_block zero p h = refl
    no_block (suc fuel) p h =
        let e : leb (old + B) n ≡ false = ground arith in
        let f : ltb old n ≡ false = ground arith in rw (e, f) refl

  fill_none : (B old n : ℕ) (x : A) (bs : List (List A)) → fill_blocks B 0 old n x bs ≡ bs
  unfolding fill_blocks
  fill_none B old n x bs = refl

  -- The loop leaves the blocks before its start as they are.
  pub fill_blocks-cons :
      (B fuel old n : ℕ) (x : A) (b : List A) (bs : List (List A))
      → 0 < B
      → B ≤ old
      → fill_blocks B fuel old n x (b ∷ bs) ≡ b ∷ fill_blocks B fuel (old - B) (n - B) x bs
  fill_blocks-cons B zero old n x b bs p h =
      rw (fill_none B old n x (b ∷ bs)) (rw (fill_none B (old - B) (n - B) x bs) refl)
  fill_blocks-cons B (suc fuel) old n x b bs p h = elim (Bool-cases (leb (old + B) n)) [
    | inl e ↦
        let le : old + B ≤ n = ground arith in
        let z = div-step old B p h in
        rw (whole_block B old n x (b ∷ bs) fuel le, z.0)
          (fill_blocks-cons B fuel (old + B) n x b (modify_at ((old - B) / B) (resize_block B x) bs)
              p (omega arith)
            ∙ ap (◌∷◌ b) (
                ap
                  (λ k.
                    fill_blocks B fuel k (n - B) x
                      (modify_at ((old - B) / B) (resize_block B x) bs))
                  {x = old + B - B} (omega arith)
                ∙ sym (whole_block B (old - B) (n - B) x bs fuel (omega arith))))
    | inr e ↦ elim (Bool-cases (ltb old n)) [
      | inl f ↦
          let z = div-step old B p h in
          let r = div-step n B p (ground arith) in
          rw
            (
              last_block B old n x (b ∷ bs) fuel (ground arith) (ground arith),
              last_block B (old - B) (n - B) x bs fuel (ground arith) (ground arith),
              z.0,
              r.1,
            )
            refl
      | inr f ↦
          rw
            (
              no_block B old n x (b ∷ bs) (suc fuel) p (ground arith),
              no_block B (old - B) (n - B) x bs (suc fuel) p (ground arith),
            )
            refl
    ]
  ]

  resize_block-nil : (n : ℕ) (x : A) → resize_block n x [] ≡ replicate n x
  resize_block-nil zero x = refl
  resize_block-nil (suc n) x = rw (sub-zero (suc n)) refl

  pub replicate-count : {n m : ℕ} (x : A) → n ≡ m → replicate n x ≡ replicate m x
  replicate-count x e = ap (λ k. replicate k x) e

  pub replicate-add : (n m : ℕ) (x : A) → replicate (n + m) x ≡ replicate n x ++ replicate m x
  replicate-add zero m x = replicate-count {m = m} x (omega arith)
  replicate-add (suc n) m x =
      replicate-count {m = suc (n + m)} x (omega arith) ∙ ap (◌∷◌ x) (replicate-add n m x)

  -- From the start, over empty blocks.
  pub fill_fresh :
      (B fuel n : ℕ) (x : A)
      → 0 < B
      → n ≤ fuel
      → AreBlocks B (fill_blocks B fuel 0 n x (replicate (blocks_for B n) []))
        × (concat (fill_blocks B fuel 0 n x (replicate (blocks_for B n) [])) ≡ replicate n x)
  fill_fresh B fuel zero x p h =
      rw
        (no_block B 0 0 x (replicate (blocks_for B 0) []) fuel p (omega arith), blocks_for-zero B p)
        (tt, refl)
  fill_fresh B zero (suc n) x p h = absurd (omega arith)
  fill_fresh B (suc fuel) (suc n) x p h =
      let z = div-zero 0 B p in
      elim (Bool-cases (leb B (suc n))) [
        | inl e ↦
            let le : B ≤ suc n = ground arith in
            let rest = replicate (blocks_for B (suc n - B)) [] in
            let ih = fill_fresh B fuel (suc n - B) x p (omega arith) in
            let go : fill_blocks B (suc fuel) 0 (suc n) x (replicate (blocks_for B (suc n)) [])
                ≡ replicate B x ∷ fill_blocks B fuel 0 (suc n - B) x rest =
              rw (blocks_for-step B (suc n) p le) (
                rw
                  (
                    whole_block B 0 (suc n) x ([] ∷ rest) fuel (omega arith),
                    z.0,
                    resize_block-nil B x,
                  )
                  (fill_blocks-cons B fuel (0 + B) (suc n) x (replicate B x) rest p (omega arith)
                    ∙ ap (λ k. replicate B x ∷ fill_blocks B fuel k (suc n - B) x rest)
                        {x = 0 + B - B} (omega arith))) in
            rw go (
              AreBlocks-cons B (replicate B x) (fill_blocks B fuel 0 (suc n - B) x rest) p
                  (length-replicate B x) ih.0,
              rw ih.1 (
                  sym (replicate-add B (suc n - B) x)
                  ∙ replicate-count {m = suc n} x (omega arith)),
            )
        | inr e ↦
            let lt : suc n < B = ground arith in
            let m = div-zero (suc n) B lt in
            rw (blocks_for-one B (suc n) (omega arith) (omega arith)) (
              rw
                (
                  last_block B 0 (suc n) x ([] ∷ []) fuel (omega arith) (omega arith),
                  z.0,
                  m.1,
                  resize_block-nil (suc n) x,
                  append-nil (replicate (suc n) x),
                )
                (
                  (
                    omega (arith, length-replicate {0} (suc n) x),
                    omega (arith, length-replicate {0} (suc n) x),
                  ),
                  refl,
                ))
      ]
