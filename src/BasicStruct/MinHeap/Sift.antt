-- ===== src/BasicStruct/MinHeap/Sift.antt =====
-- The loops bring an object that is out of place to where it belongs.
use rock_coro.Prelude.{
  ℕ, ◌<◌, ◌≡◌, refl, sym, ◌∙◌, subst, Bool, true, false, ◌&&◌, ltb, arith, Bool-cases, ◌⊎◌, inl,
  inr,
}
use rock_coro.BasicStruct.ObjectPool.{Object}
use rock_coro.BasicStruct.MinHeap.{IntrusiveHeap, parent, left, right, swap_node, smallest}
use rock_coro.BasicStruct.MinHeap.Index.{WellIndexed, held, swap_node-held}
use rock_coro.BasicStruct.MinHeap.Order.{Settled, IsOrder, Le, AtMost, Chosen}

-- A heap with the objects of `h`.
pub record Rearranged (h h' : IntrusiveHeap) : Type 0 where
  pub size_eq : h'.size ≡ h.size
  pub indexed : WellIndexed h'
  pub held_eq : (x : Object) → held (h'.heap_index x) ≡ held (h.heap_index x)

pub Rearranged-refl : (h : IntrusiveHeap) → WellIndexed h → Rearranged h h
Rearranged-refl h w = record { size_eq = refl; indexed = w; held_eq = λ x. refl }

pub Rearranged-swap :
    (i j : ℕ) (h h' : IntrusiveHeap)
    → WellIndexed h
    → i < h.size
    → j < h.size
    → Rearranged (swap_node i j h) h'
    → Rearranged h h'
unfolding swap_node
Rearranged-swap i j h h' w p q r = record {
  size_eq = r.size_eq;
  indexed = r.indexed;
  held_eq = λ x. r.held_eq x ∙ swap_node-held i j h w p q x;
}

child_cases : (i j : ℕ) → 0 < j → parent j ≡ i → (j ≡ left i) ⊎ (j ≡ right i)
child_cases i j p e = ground arith

pub and_true : (a b : Bool) → (a && b) ≡ true → (a ≡ true) × (b ≡ true)
and_true true b e = (refl, e)
and_true false b e = cc

pub and_false : (a b : Bool) → (a && b) ≡ false → a ≡ true → b ≡ false
and_false true b e t = e
and_false false b e t = cc

module _ (less : Object → Object → Bool) (o : IsOrder less) where
  pub Le-refl : (a : Object) → Le less a a
  Le-refl a = elim (Bool-cases (less a a)) [ inl e ↦ o.asym a a e | inr e ↦ e ]

  -- Before and then before is before.
  pub less_trans : (a b c : Object) → less a b ≡ true → less b c ≡ true → less a c ≡ true
  less_trans a b c p q = elim (Bool-cases (less a c)) [
    | inl e ↦ e
    | inr e ↦ cc (sym p ∙ o.trans b c a (o.asym b c q) e)
  ]

  of_children :
      (i : ℕ) (h : IntrusiveHeap) (P : ℕ → Type 0)
      → (left i < h.size → P (left i))
      → (right i < h.size → P (right i))
      → (j : ℕ) → 0 < j
      → j < h.size
      → parent j ≡ i
      → P j
  of_children i h P l r j p q e = elim (child_cases i j p e) [
    | inl f ↦ subst P (sym f) (l (omega (arith, f)))
    | inr f ↦ subst P (sym f) (r (omega (arith, f)))
  ]

  pub smallest_lem :
      (i : ℕ) (h : IntrusiveHeap)
      → ((smallest less i h ≡ i) × Settled less i h) ⊎ Chosen less i h (smallest less i h)
  smallest_lem i h =
      let l = left i in
      let r = right i in
      let x = h.items in
      elim (Bool-cases (ltb l h.size && less (x l) (x i))) [
        | inl e ↦
            let (le, ll) = and_true (ltb l h.size) (less (x l) (x i)) e in
            elim (Bool-cases (ltb r h.size && less (x r) (x l))) [
              | inl f ↦
                  let (re, rl) = and_true (ltb r h.size) (less (x r) (x l)) f in
                  rw (e, f)
                    (inr (
                      omega arith,
                      ground arith,
                      omega arith,
                      less_trans (x r) (x l) (x i) rl ll,
                      of_children i h (λ j. AtMost less h r j) (λ _. o.asym (x r) (x l) rl)
                          (λ _. Le-refl (x r)),
                    ))
              | inr f ↦
                  rw (e, f)
                    (inr (
                      omega arith,
                      ground arith,
                      omega arith,
                      ll,
                      of_children i h (λ j. AtMost less h l j) (λ _. Le-refl (x l))
                          (λ q. and_false (ltb r h.size) (less (x r) (x l)) f (ground arith)),
                    ))
            ]
        | inr e ↦
            let upper : l < h.size → AtMost less h i l =
              λ q. and_false (ltb l h.size) (less (x l) (x i)) e (ground arith) in
            elim (Bool-cases (ltb r h.size && less (x r) (x i))) [
              | inl f ↦
                  let (re, ri) = and_true (ltb r h.size) (less (x r) (x i)) f in
                  rw (e, f)
                    (inr (
                      omega arith,
                      ground arith,
                      omega arith,
                      ri,
                      of_children i h (λ j. AtMost less h r j)
                          (λ q. o.trans (x r) (x i) (x l) (o.asym (x r) (x i) ri) (upper q))
                          (λ _. Le-refl (x r)),
                    ))
              | inr f ↦
                  rw (e, f)
                    (inl (
                      refl,
                      of_children i h (λ j. AtMost less h i j) upper
                          (λ q. and_false (ltb r h.size) (less (x r) (x i)) f (ground arith)),
                    ))
            ]
      ]
