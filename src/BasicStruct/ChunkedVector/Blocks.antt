-- ===== src/BasicStruct/ChunkedVector/Blocks.antt =====
-- Blocks that are full but for the last one, and the elements that they hold.
use native.Mathlib.Nat.{mod-eq_of_lt, div-eq_of_lt, div-eq-sub-div, mod-eq-sub-mod}
use rock_coro.Prelude.{
  ℕ, zero, suc, ◌-◌, ◌/◌, ◌%◌, ◌≤◌, ◌<◌, ◌≡◌, refl, ap, sym, Option, none, some, List, [], ◌∷◌,
  ◌++◌, arith, ltb, ◌==◌, if◌then◌else◌, length, length-append, get_elem?, get_elem?-none,
  append_assoc, append-nil, Bool-cases, inl, inr,
}
use rock_coro.BasicStruct.ChunkedVector.{
  get_in, modify_back, needs_block, back_length, ensure_back_block, without_last, drop_empty,
}

module _ {A : Type 0} where
  abbrev pub concat : List (List A) → List A
  concat [] = []
  concat (b ∷ bs) = b ++ concat bs

  abbrev pub AreBlocks : ℕ → List (List A) → Type 0
  AreBlocks B [] = Unit {0}
  AreBlocks B (b ∷ []) = (0 < length b) × (length b ≤ B)
  AreBlocks B (b ∷ c ∷ bs) = (length b ≡ B) × AreBlocks B (c ∷ bs)

  pub get_elem?-append :
      (xs ys : List A) (i : ℕ)
      → get_elem? (xs ++ ys) i
        ≡ (if ltb i (length xs) then get_elem? xs i else get_elem? ys (i - length xs))
  get_elem?-append [] ys i = ground arith
  get_elem?-append (x ∷ xs) ys zero = ground arith
  get_elem?-append (x ∷ xs) ys (suc i) = ground (arith, get_elem?-append xs ys i)

pub div-zero : (i B : ℕ) → i < B → (i / B ≡ 0) × (i % B ≡ i)
div-zero i B h = (div-eq_of_lt h, mod-eq_of_lt h)

pub div-step : (i B : ℕ) → 0 < B → B ≤ i → (i / B ≡ suc ((i - B) / B)) × (i % B ≡ (i - B) % B)
div-step i B p h = (omega (arith, div-eq-sub-div {n = i} p h), mod-eq-sub-mod h)

module _ {A : Type 0} where
  pub access_lem :
      (B : ℕ) (bs : List (List A)) (i : ℕ)
      → 0 < B
      → AreBlocks B bs
      → get_in (get_elem? bs (i / B)) (i % B) ≡ get_elem? (concat bs) i
  access_lem B [] i p w = refl
  access_lem B (b ∷ []) i p w = elim (Bool-cases (ltb i B)) [
    | inl e ↦ let z = div-zero i B (ground arith) in rw (z.0, z.1, append-nil b) refl
    | inr e ↦
        let z = div-step i B p (ground arith) in
        rw (z.0, append-nil b) (sym (get_elem?-none b i (ground arith)))
  ]
  access_lem B (b ∷ c ∷ bs) i p w = elim (Bool-cases (ltb i B)) [
    | inl e ↦
        let z = div-zero i B (ground arith) in
        rw (z.0, z.1) (ground (arith, get_elem?-append b (concat (c ∷ bs)) i, w.0))
    | inr e ↦
        let z = div-step i B p (ground arith) in
        let here = access_lem B (c ∷ bs) (i - B) p w.1 in
        rw (z.0, z.1, here) (ground (arith, get_elem?-append b (concat (c ∷ bs)) i, w.0))
  ]

  pub AreBlocks-cons :
      (B : ℕ) (b : List A) (bs : List (List A))
      → 0 < B
      → length b ≡ B
      → AreBlocks B bs
      → AreBlocks B (b ∷ bs)
  AreBlocks-cons B b [] p e w = (omega arith, omega arith)
  AreBlocks-cons B b (c ∷ bs) p e w = (e, w)

  abbrev pub pushed : ℕ → A → List (List A) → List (List A)
  pushed B x bs = modify_back (λ b. b ++ (x ∷ [])) (ensure_back_block B bs)

  pushed-cons :
      (B : ℕ) (x : A) (b c : List A) (bs : List (List A))
      → pushed B x (b ∷ c ∷ bs) ≡ b ∷ pushed B x (c ∷ bs)
  unfolding ensure_back_block
  pushed-cons B x b c bs = elim (Bool-cases (needs_block B (back_length (c ∷ bs)))) [
    | inl e ↦ rw e refl
    | inr e ↦ rw e refl
  ]

  pub pushed_lem :
      (B : ℕ) (x : A) (bs : List (List A))
      → 0 < B
      → AreBlocks B bs
      → AreBlocks B (pushed B x bs) × (concat (pushed B x bs) ≡ concat bs ++ (x ∷ []))
  unfolding ensure_back_block
  pushed_lem B x [] p w = ((omega arith, omega arith), refl)
  pushed_lem B x (b ∷ []) p w = elim (Bool-cases (length b == B)) [
    | inl e ↦ rw e ((ground arith, (omega arith, omega arith)), rw (append-nil b) refl)
    | inr e ↦ rw e (
      (omega (arith, length-append {0} b (x ∷ [])), ground (arith, length-append {0} b (x ∷ []))),
      rw (append-nil b, append-nil (b ++ (x ∷ []))) refl,
    )
  ]
  pushed_lem B x (b ∷ c ∷ bs) p w =
      let h = pushed_lem B x (c ∷ bs) p w.1 in
      rw (pushed-cons B x b c bs) (
        AreBlocks-cons B b (pushed B x (c ∷ bs)) p w.0 h.0,
        rw h.1 (sym (append_assoc b (concat (c ∷ bs)) (x ∷ []))),
      )

  without_last-append :
      (xs ys : List A) → 0 < length ys → without_last (xs ++ ys) ≡ xs ++ without_last ys
  without_last-append xs [] h = elim h [ ]
  without_last-append [] (y ∷ ys) h = refl
  without_last-append (x ∷ []) (y ∷ ys) h = refl
  without_last-append (x ∷ z ∷ xs) (y ∷ ys) h = ap (◌∷◌ x) (without_last-append (z ∷ xs) (y ∷ ys) h)

  length-concat_pos :
      (B : ℕ) (b : List A) (bs : List (List A))
      → 0 < B
      → AreBlocks B (b ∷ bs)
      → 0 < length (concat (b ∷ bs))
  length-concat_pos B b [] p w = omega (arith, w.0, length-append {0} b [])
  length-concat_pos B b (c ∷ bs) p w = omega (arith, w.0, length-append {0} b (concat (c ∷ bs)))

  pub length-without_last : (xs : List A) → length (without_last xs) ≡ length xs - 1
  length-without_last [] = refl
  length-without_last (x ∷ []) = refl
  length-without_last (x ∷ y ∷ xs) = omega (arith, length-without_last (y ∷ xs))

  abbrev pub dropped : List (List A) → List (List A)
  dropped bs = drop_empty (back_length bs) bs

  dropped-cons : (b c : List A) (bs : List (List A)) → dropped (b ∷ c ∷ bs) ≡ b ∷ dropped (c ∷ bs)
  dropped-cons b c bs = go (back_length (c ∷ bs))
    where
      go : (o : Option ℕ) → drop_empty o (b ∷ c ∷ bs) ≡ b ∷ drop_empty o (c ∷ bs)
      go none = refl
      go (some zero) = refl
      go (some (suc n)) = refl

  modify_back-cons :
      (f : List A → List A) (b : List A) (bs : List (List A))
      → (c : List A) × (cs : List (List A)) × (modify_back f (b ∷ bs) ≡ c ∷ cs)
  modify_back-cons f b [] = (f b, [], refl)
  modify_back-cons f b (c ∷ bs) = (b, modify_back f (c ∷ bs), refl)

  pub dropped_lem :
      (B : ℕ) (bs : List (List A))
      → 0 < B
      → AreBlocks B bs
      → AreBlocks B (dropped (modify_back without_last bs))
        × (concat (dropped (modify_back without_last bs)) ≡ without_last (concat bs))
  dropped_lem B [] p w = (tt, refl)
  dropped_lem B ([] ∷ []) p w = absurd (omega (arith, w.0))
  dropped_lem B ((x ∷ []) ∷ []) p w = (tt, refl)
  dropped_lem B ((x ∷ y ∷ b) ∷ []) p w = (
    (omega arith, omega (arith, w.1, length-without_last (x ∷ y ∷ b))),
    rw (append-nil b, append-nil (without_last (y ∷ b))) refl,
  )
  dropped_lem B (b ∷ c ∷ bs) p w =
      let (d, ds, e) = modify_back-cons without_last c bs in
      let h = dropped_lem B (c ∷ bs) p w.1 in
      let cut : dropped (modify_back without_last (b ∷ c ∷ bs))
          ≡ b ∷ dropped (modify_back without_last (c ∷ bs)) =
        rw e (dropped-cons b d ds) in
      rw cut (
        AreBlocks-cons B b (dropped (modify_back without_last (c ∷ bs))) p w.0 h.0,
        rw h.1 (sym (without_last-append b (concat (c ∷ bs)) (length-concat_pos B c bs p w.1))),
      )
