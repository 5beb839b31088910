-- ===== src/BasicStruct/ChunkedVector/Grow.antt =====
-- A larger size: `resize` adds copies of a value.
use rock_coro.Prelude.{
  ℕ, suc, ◌+◌, ◌-◌, ◌/◌, ◌%◌, ◌≤◌, ◌<◌, ◌≡◌, refl, ap, sym, ◌∙◌, subst, true, false, List, [], ◌∷◌,
  ◌++◌, arith, ltb, leb, if◌then◌else◌, length, length-append, replicate, min, length-replicate,
  append_assoc, append-nil, lt→ltb, Bool-cases, inl, inr,
}
use rock_coro.BasicStruct.ChunkedVector.{
  modify_at, resize_block, blocks_for, enough_blocks, fill_blocks, grow,
}
use rock_coro.BasicStruct.ChunkedVector.Blocks.{
  concat, AreBlocks, AreBlocks-cons, div-zero, div-step,
}
use rock_coro.BasicStruct.ChunkedVector.Shrink.{
  take-whole, suc-sub, blocks_for-one, blocks_for-step,
}
use rock_coro.BasicStruct.ChunkedVector.Fill.{
  sub-zero, blocks_for_pos, no_block, fill_blocks-cons, replicate-count, replicate-add, fill_fresh,
}

module _ {A : Type 0} where
  -- `grow` over enough blocks, with fuel of its own.
  abbrev fill_from : ℕ → ℕ → ℕ → ℕ → A → List (List A) → List (List A)
  fill_from B fuel old n x bs =
      let fill = min (B - old % B) (n - old) in
      if ltb (old / B) (length bs)
      then fill_blocks B fuel (old + fill) n x
          (modify_at (old / B) (resize_block (old % B + fill) x) bs)
      else fill_blocks B fuel old n x bs

  fill_from-cons :
      (B fuel old n : ℕ) (x : A) (b : List A) (bs : List (List A))
      → 0 < B
      → B ≤ old
      → B ≤ n
      → fill_from B fuel old n x (b ∷ bs) ≡ b ∷ fill_from B fuel (old - B) (n - B) x bs
  fill_from-cons B fuel old n x b bs p h k =
      let z = div-step old B p h in
      let gap : n - old ≡ n - B - (old - B) = omega arith in
      let fill = min (B - (old - B) % B) (n - B - (old - B)) in
      let bs' = modify_at ((old - B) / B) (resize_block ((old - B) % B + fill) x) bs in
      let along : old + fill - B ≡ old - B + fill = omega arith in
      rw (z.0, z.1, gap)
        (elim (Bool-cases (ltb ((old - B) / B) (length bs))) [
          | inl e ↦
              let e' : ltb (suc ((old - B) / B)) (suc (length bs)) ≡ true = ground arith in
              rw (e, e')
                (fill_blocks-cons B fuel (old + fill) n x b bs' p (omega arith)
                  ∙ ap (λ i. b ∷ fill_blocks B fuel i (n - B) x bs') along)
          | inr e ↦
              let e' : ltb (suc ((old - B) / B)) (suc (length bs)) ≡ false = ground arith in
              rw (e, e') (fill_blocks-cons B fuel old n x b bs p h)
        ])

  pub resize_block-more :
      (m : ℕ) (x : A) (b : List A)
      → length b ≤ m
      → resize_block m x b ≡ b ++ replicate (m - length b) x
  resize_block-more m x b h = ap (λ c. c ++ replicate (m - length b) x) (take-whole b m h)

  length-resize_block :
      (m : ℕ) (x : A) (b : List A) → length b ≤ m → length (resize_block m x b) ≡ m
  length-resize_block m x b h = rw (resize_block-more m x b h) (
      omega (
        arith,
        length-append {0} b (replicate (m - length b) x),
        length-replicate {0} (m - length b) x,
      ))

  -- All fits in the block.
  grow_short :
      (B fuel n : ℕ) (x : A) (b : List A)
      → n ≤ B
      → length b < n
      → AreBlocks B (fill_blocks B fuel n n x (resize_block n x b ∷ []))
        × (concat (fill_blocks B fuel n n x (resize_block n x b ∷ []))
            ≡ b ++ replicate (n - length b) x)
  grow_short B fuel n x b h k =
      let len = length-resize_block n x b (omega arith) in
      rw
        (
          no_block B n n x (resize_block n x b ∷ []) fuel (omega arith) (omega arith),
          append-nil (resize_block n x b),
        )
        ((omega (arith, len), omega (arith, len)), resize_block-more n x b (omega arith))

  -- The block is filled and more follow.
  grow_long :
      (B fuel n : ℕ) (x : A) (b : List A)
      → B ≤ n
      → length b < B
      → n ≤ fuel
      → AreBlocks B
          (fill_blocks B fuel B n x (resize_block B x b ∷ replicate (blocks_for B (n - B)) []))
        × (concat
              (fill_blocks B fuel B n x (resize_block B x b ∷ replicate (blocks_for B (n - B)) []))
            ≡ b ++ replicate (n - length b) x)
  grow_long B fuel n x b h k g =
      let rest = replicate (blocks_for B (n - B)) [] in
      let f = fill_fresh B fuel (n - B) x (omega arith) (omega arith) in
      let zero_gap : B - B ≡ 0 = omega arith in
      rw
        (
          fill_blocks-cons B fuel B n x (resize_block B x b) rest (omega arith) (omega arith),
          zero_gap,
        )
        (
          AreBlocks-cons B (resize_block B x b) (fill_blocks B fuel 0 (n - B) x rest) (omega arith)
              (length-resize_block B x b (omega arith)) f.0,
          rw (f.1, resize_block-more B x b (omega arith))
              (append_assoc b (replicate (B - length b) x) (replicate (n - B) x)
                ∙ ap (◌++◌ b) (
                    sym (replicate-add (B - length b) (n - B) x)
                    ∙ replicate-count {m = n - length b} x (omega arith))),
        )

  -- Into a block that is not full, before blocks that are empty.
  grow_first :
      (B fuel n j : ℕ) (x : A) (b : List A)
      → length b < B
      → length b < n
      → n ≤ fuel
      → blocks_for B n ≡ suc j
      → (to : ℕ) → (to ≡ min B n)
      → AreBlocks B (fill_blocks B fuel to n x (resize_block to x b ∷ replicate j []))
        × (concat (fill_blocks B fuel to n x (resize_block to x b ∷ replicate j []))
            ≡ b ++ replicate (n - length b) x)
  grow_first B fuel n j x b h k g e to q = elim (Bool-cases (leb n B)) [
    | inl f ↦
        let le : n ≤ B = ground arith in
        let j_zero : j ≡ 0 = omega (arith, e, blocks_for-one B n (omega arith) le) in
        let short : to ≡ n = omega (arith, q, le) in
        rw (j_zero, short) (grow_short B fuel n x b le k)
    | inr f ↦
        let le : B ≤ n = ground arith in
        let j_rest : j ≡ blocks_for B (n - B) =
          omega (arith, e, blocks_for-step B n (omega arith) le) in
        let long : to ≡ B = omega (arith, q, le) in
        rw (j_rest, long) (grow_long B fuel n x b le h g)
  ]

  fill_from_first :
      (B fuel old n j : ℕ) (x : A) (b : List A)
      → length b ≡ old
      → old < B
      → old < n
      → n ≤ fuel
      → blocks_for B n ≡ suc j
      → AreBlocks B (fill_from B fuel old n x (b ∷ replicate j []))
        × (concat (fill_from B fuel old n x (b ∷ replicate j [])) ≡ b ++ replicate (n - old) x)
  fill_from_first B fuel old n j x b e q h g k =
      let z = div-zero old B q in
      let some_block : ltb 0 (suc (length {A = List A} (replicate j []))) ≡ true =
        lt→ltb 0 (suc (length {A = List A} (replicate j []))) (omega arith) in
      let f =
        grow_first B fuel n j x b (omega (arith, e, q)) (omega (arith, e, h)) g k
          (old + min (B - old) (n - old)) (omega arith) in
      rw (z.0, z.1, some_block) (f.0, f.1 ∙ ap (λ i. b ++ replicate (n - i) x) e)

  -- What `fill_from` does to blocks of `old` elements.
  abbrev Fills : ℕ → ℕ → ℕ → ℕ → A → List (List A) → Type 0
  Fills B fuel old n x bs =
      AreBlocks B (fill_from B fuel old n x (enough_blocks B n bs))
      × (concat (fill_from B fuel old n x (enough_blocks B n bs))
          ≡ concat bs ++ replicate (n - old) x)

  Fills-cons :
      (B fuel old n : ℕ) (x : A) (b : List A) (bs : List (List A))
      → 0 < B
      → length b ≡ B
      → B ≤ old
      → old < n
      → Fills B fuel (old - B) (n - B) x bs
      → Fills B fuel old n x (b ∷ bs)
  Fills-cons B fuel old n x b bs p e k h f =
      let more : enough_blocks B n (b ∷ bs) ≡ b ∷ enough_blocks B (n - B) bs =
        rw (blocks_for-step B n p (omega arith), suc-sub (blocks_for B (n - B)) (length bs)) refl in
      let gap : n - B - (old - B) ≡ n - old = omega arith in
      let all =
        ap (fill_from B fuel old n x) more
        ∙ fill_from-cons B fuel old n x b (enough_blocks B (n - B) bs) p k (omega arith) in
      subst (λ r. AreBlocks B r × (concat r ≡ concat (b ∷ bs) ++ replicate (n - old) x)) (sym all)
        (
          AreBlocks-cons B b (fill_from B fuel (old - B) (n - B) x (enough_blocks B (n - B) bs)) p e
              f.0,
          rw (f.1, gap) (sym (append_assoc b (concat bs) (replicate (n - old) x))),
        )

  Fills-blocks :
      (B fuel old n : ℕ) (x : A) (bs : List (List A))
      → 0 < B
      → AreBlocks B bs
      → length (concat bs) ≡ old
      → old < n
      → n ≤ fuel
      → Fills B fuel old n x bs
  Fills-blocks B fuel old n x [] p w e h g =
      let (j, k) = blocks_for_pos B n p (omega arith) in
      rw (sub-zero (blocks_for B n), k)
        (fill_from_first B fuel old n j x [] e (omega (arith, e)) h g k)
  Fills-blocks B fuel old n x (b ∷ []) p w e h g =
      let len : length b ≡ old = omega (arith, e, length-append {0} b []) in
      let (j, k) = blocks_for_pos B n p (omega arith) in
      let rest : blocks_for B n - 1 ≡ j = omega (arith, k) in
      elim (Bool-cases (ltb old B)) [
        | inl q ↦
            rw (append-nil b, rest) (fill_from_first B fuel old n j x b len (ground arith) h g k)
        | inr q ↦
            let full : length b ≡ B = ground (arith, len, w.1) in
            Fills-cons B fuel old n x b [] p full (omega arith) h (
              Fills-blocks B fuel (old - B) (n - B) x [] p tt (omega arith) (omega arith)
                (omega arith))
      ]
  Fills-blocks B fuel old n x (b ∷ c ∷ bs) p w e h g =
      let len = length-append {0} b (concat (c ∷ bs)) in
      Fills-cons B fuel old n x b (c ∷ bs) p w.0 (omega (arith, len, w.0, e)) h (
        Fills-blocks B fuel (old - B) (n - B) x (c ∷ bs) p w.1 (omega (arith, len, w.0, e))
          (omega (arith, len, w.0, e)) (omega arith))

  pub grow_lem :
      (B old n : ℕ) (x : A) (bs : List (List A))
      → 0 < B
      → AreBlocks B bs
      → length (concat bs) ≡ old
      → old < n
      → AreBlocks B (grow B old n x bs)
        × (concat (grow B old n x bs) ≡ concat bs ++ replicate (n - old) x)
  unfolding grow
  grow_lem B old n x bs p w e h = Fills-blocks B n old n x bs p w e h (omega arith)
