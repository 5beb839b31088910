-- ===== src/BasicStruct/ChunkedVector/Refine.antt =====
-- A chunked vector behaves as the list of its elements.
use rock_coro.Prelude.{
  ℕ, ◌-◌, ◌≤◌, ◌<◌, ◌≡◌, refl, ap, ap₂, sym, ◌∙◌, List, [], ◌∷◌, ◌++◌, arith, ltb, leb, ◌==◌,
  length, length-append, length-take, length-replicate, get_elem?, get_elem?-none, take, replicate,
  true, false, Bool-cases, inl, inr,
}
use rock_coro.BasicStruct.ChunkedVector.{
  ChunkedVector, new, empty, access, index, at, back, push_back, pop_back, resize, without_last,
}
use rock_coro.BasicStruct.ChunkedVector.Blocks.{
  concat, AreBlocks, access_lem, pushed_lem, dropped_lem, length-without_last,
}
use rock_coro.BasicStruct.ChunkedVector.Shrink.{shrink_lem, take-whole, resize_block-less}
use rock_coro.BasicStruct.ChunkedVector.Grow.{grow_lem, resize_block-more}

-- Full blocks but for the last, whose elements are the list, and the right count of them.
pub record Represents {A : Type 0} (B : ℕ) (v : ChunkedVector A) (xs : List A) : Type 0 where
  pub shape : AreBlocks B v.blocks
  pub elements : concat v.blocks ≡ xs
  pub size_eq : v.total_size ≡ length xs

module _ {A : Type 0} where
  pub new-Represents : (B : ℕ) → Represents {A = A} B new []
  unfolding new
  new-Represents B = record { shape = tt; elements = refl; size_eq = refl }

  pub push_back-Represents :
      (B : ℕ) (v : ChunkedVector A) (xs : List A) (x : A)
      → 0 < B
      → Represents B v xs
      → Represents B (push_back B v x) (xs ++ (x ∷ []))
  unfolding push_back
  push_back-Represents B v xs x p r =
      let f = pushed_lem B x v.blocks p r.shape in
      record {
        shape = f.0;
        elements = f.1 ∙ ap (λ l. l ++ (x ∷ [])) r.elements;
        size_eq = omega (arith, r.size_eq, length-append xs (x ∷ []));
      }

  pub pop_back-Represents :
      (B : ℕ) (v : ChunkedVector A) (xs : List A)
      → 0 < B
      → Represents B v xs
      → Represents B (pop_back v) (without_last xs)
  unfolding pop_back empty
  pop_back-Represents B v [] p r =
      let e : (v.total_size == 0) ≡ true = ground (arith, r.size_eq) in rw e r
  pop_back-Represents B v (x ∷ xs) p r =
      let e : (v.total_size == 0) ≡ false = ground (arith, r.size_eq) in
      let f = dropped_lem B v.blocks p r.shape in
      rw e record {
        shape = f.0;
        elements = f.1 ∙ ap without_last r.elements;
        size_eq = omega (arith, r.size_eq, length-without_last (x ∷ xs));
      }

  pub index-Represents :
      (B : ℕ) (v : ChunkedVector A) (xs : List A) (i : ℕ)
      → 0 < B
      → Represents B v xs
      → index B v i ≡ get_elem? xs i
  unfolding index access
  index-Represents B v xs i p r =
      let here = access_lem B v.blocks i p r.shape ∙ ap (λ l. get_elem? l i) r.elements in
      elim (Bool-cases (ltb i v.total_size)) [
        | inl e ↦ rw e here
        | inr e ↦ rw e (sym (get_elem?-none xs i (ground (arith, r.size_eq))))
      ]

  pub at-Represents :
      (B : ℕ) (v : ChunkedVector A) (xs : List A) (i : ℕ)
      → 0 < B
      → Represents B v xs
      → at B v i ≡ get_elem? xs i
  unfolding at
  at-Represents B v xs i p r = elim (Bool-cases (leb v.total_size i)) [
    | inl e ↦ rw e (sym (get_elem?-none xs i (ground (arith, r.size_eq))))
    | inr e ↦ rw e (index-Represents B v xs i p r)
  ]

  pub back-Represents :
      (B : ℕ) (v : ChunkedVector A) (xs : List A)
      → 0 < B
      → Represents B v xs
      → back B v ≡ get_elem? xs (length xs - 1)
  unfolding back
  back-Represents B v xs p r = elim (Bool-cases (v.total_size == 0)) [
    | inl e ↦ rw e (sym (get_elem?-none xs (length xs - 1) (ground (arith, r.size_eq))))
    | inr e ↦
        rw e (
          index-Represents B v xs (v.total_size - 1) p r ∙ ap (λ k. get_elem? xs (k - 1)) r.size_eq)
  ]

  -- The list that `resize` leaves.
  abbrev pub resized : ℕ → A → List A → List A
  resized n x xs = take n xs ++ replicate (n - length xs) x

  length-resized : (n : ℕ) (x : A) (xs : List A) → length (resized n x xs) ≡ n
  length-resized n x xs = omega (
    arith,
    length-append {0} (take n xs) (replicate (n - length xs) x),
    length-take {0} n xs,
    length-replicate {0} (n - length xs) x,
  )

  pub resize-Represents :
      (B : ℕ) (d : A) (n : ℕ) (x : A) (v : ChunkedVector A) (xs : List A)
      → 0 < B
      → Represents B v xs
      → Represents B (resize B d n x v) (resized n x xs)
  unfolding resize
  resize-Represents B d n x v xs p r =
      let len = length-resized n x xs in
      let total : length (concat v.blocks) ≡ v.total_size = ap length r.elements ∙ sym r.size_eq in
      elim (Bool-cases (n == v.total_size)) [
        | inl e ↦
            let none_left : n - length xs ≡ 0 = ground (arith, r.size_eq) in
            let le : n ≤ length xs = ground (arith, r.size_eq) in
            let ge : length xs ≤ n = ground (arith, r.size_eq) in
            let same : resized n x xs ≡ xs = resize_block-less n x xs le ∙ take-whole xs n ge in
            rw (e, same) r
        | inr e ↦ elim (Bool-cases (ltb n v.total_size)) [
          | inl f ↦
              let g = shrink_lem B n d v.blocks p r.shape (ground (arith, total)) in
              rw (e, f)
                record {
                  shape = g.0;
                  elements =
                      g.1
                      ∙ ap (take n) r.elements
                      ∙ sym (resize_block-less n x xs (ground (arith, r.size_eq)));
                  size_eq = sym len;
                }
          | inr f ↦
              let g = grow_lem B v.total_size n x v.blocks p r.shape total (ground arith) in
              rw (e, f)
                record {
                  shape = g.0;
                  elements =
                      g.1
                      ∙ ap₂ (λ l k. l ++ replicate (n - k) x) r.elements r.size_eq
                      ∙ sym (resize_block-more n x xs (ground (arith, r.size_eq)));
                  size_eq = sym len;
                }
        ]
      ]
