-- ===== src/BasicStruct/MinHeap/Order.antt =====
-- The order of a heap, and of one that a single object is out of place in.
use rock_coro.Prelude.{
  ℕ, ◌<◌, ◌≡◌, ◌≢◌, refl, ap, ap₂, sym, ◌∙◌, Bool, true, false, ◌==◌, arith, Bool-cases, inl, inr,
  ==_refl,
}
use rock_coro.BasicStruct.ObjectPool.{Object}
use rock_coro.BasicStruct.MinHeap.{IntrusiveHeap, parent, swap_node}
use rock_coro.BasicStruct.MinHeap.Index.{swap_node-items}

-- A comparison that is a strict weak order, as `Compare` has to be.
pub record IsOrder (less : Object → Object → Bool) : Type 0 where
  pub asym : (a b : Object) → less a b ≡ true → less b a ≡ false
  pub trans : (a b c : Object) → less b a ≡ false → less c b ≡ false → less c a ≡ false

module _ (less : Object → Object → Bool) where
  -- The object at `i` is not behind the one at `j`.
  abbrev pub AtMost : IntrusiveHeap → ℕ → ℕ → Type 0
  AtMost h i j = less (h.items j) (h.items i) ≡ false

  abbrev pub IsHeap : IntrusiveHeap → Type 0
  IsHeap h = (j : ℕ) → 0 < j → j < h.size → AtMost h (parent j) j

  -- The object at `i` may be out of place; its parent is not behind its children.
  abbrev pub Bridged : ℕ → IntrusiveHeap → Type 0
  Bridged i h = (j : ℕ) → 0 < i → 0 < j → j < h.size → parent j ≡ i → AtMost h (parent i) j

  -- It may be too small for its parent.
  pub record UpTo (i : ℕ) (h : IntrusiveHeap) : Type 0 where
    pub edges : (j : ℕ) → 0 < j → j < h.size → j ≢ i → AtMost h (parent j) j
    pub bridged : Bridged i h

  -- It may be too large for its children.
  pub record DownTo (i : ℕ) (h : IntrusiveHeap) : Type 0 where
    pub edges : (j : ℕ) → 0 < j → j < h.size → parent j ≢ i → AtMost h (parent j) j
    pub bridged : Bridged i h

  module _ (i k : ℕ) (h : IntrusiveHeap) where
    at_first : (swap_node i k h).items i ≡ h.items k
    at_first = rw (swap_node-items i k h i) (elim (Bool-cases (i == k)) [
      | inl e ↦ let same_index : i ≡ k = ground arith in rw e (ap h.items same_index)
      | inr e ↦ rw (e, ==_refl i) refl
    ])

    at_second : (swap_node i k h).items k ≡ h.items i
    at_second = rw (swap_node-items i k h k, ==_refl k) refl

    at_other : (l : ℕ) → l ≢ i → l ≢ k → (swap_node i k h).items l ≡ h.items l
    at_other l n m =
        let e : (l == k) ≡ false = ground arith in
        let f : (l == i) ≡ false = ground arith in rw (swap_node-items i k h l, e, f) refl

  abbrev pub Le : Object → Object → Type 0
  Le a b = less b a ≡ false

  pub Le-eq : {a b a' b' : Object} → a ≡ a' → b ≡ b' → Le a' b' → Le a b
  Le-eq e f l = ap₂ less f e ∙ l

  -- An edge of the heap, by the index of its upper end.
  pub edge : (h : IntrusiveHeap) (p j : ℕ) → parent j ≡ p → AtMost h (parent j) j → AtMost h p j
  edge h p j e l = Le-eq (ap h.items (sym e)) refl l

  -- No child of `i` is before it.
  abbrev pub Settled : ℕ → IntrusiveHeap → Type 0
  Settled i h = (j : ℕ) → 0 < j → j < h.size → parent j ≡ i → AtMost h i j

  -- What `smallest` finds: no child before the object at `i`, or a child that is before it, and not
  -- behind the other child.
  abbrev pub Chosen : ℕ → IntrusiveHeap → ℕ → Type 0
  Chosen i h s =
      (0 < s)
      × (s < h.size)
      × (parent s ≡ i)
      × (less (h.items s) (h.items i) ≡ true)
      × ((j : ℕ) → 0 < j → j < h.size → parent j ≡ i → AtMost h s j)

  module _ (o : IsOrder less) where
    -- A round of `sift_up`.
    pub swap_up :
        (i : ℕ) (h : IntrusiveHeap)
        → 0 < i
        → i < h.size
        → less (h.items i) (h.items (parent i)) ≡ true
        → UpTo i h
        → UpTo (parent i) (swap_node i (parent i) h)
    unfolding swap_node
    swap_up i h pos lt small u =
        let p = parent i in
        let up : Le (h.items i) (h.items p) = o.asym (h.items i) (h.items p) small in
        let above : (j : ℕ)
            → 0 < j
            → j < h.size
            → j ≢ i
            → parent j ≡ p
            → Le (h.items p) (h.items j) =
          λ j a b n e. edge h p j e (u.edges j a b n) in
        record {
          edges = λ j a b n. elim (Bool-cases (j == i)) [
            | inl e ↦
                let same_index : j ≡ i = ground arith in
                edge (swap_node i p h) (parent j) j refl (
                  Le-eq (ap (λ k. (swap_node i p h).items (parent k)) same_index ∙ at_second i p h)
                    (ap (swap_node i p h).items same_index ∙ at_first i p h) up)
            | inr e ↦
                let j_i : j ≢ i = ground arith in
                let here = at_other i p h j j_i n in
                elim (Bool-cases (parent j == i)) [
                  | inl f ↦
                      let same_index : parent j ≡ i = ground arith in
                      Le-eq (ap (swap_node i p h).items same_index ∙ at_first i p h) here
                        (u.bridged j pos a b same_index)
                  | inr f ↦ elim (Bool-cases (parent j == p)) [
                    | inl g ↦
                        let same_index : parent j ≡ p = ground arith in
                        Le-eq (ap (swap_node i p h).items same_index ∙ at_second i p h) here (
                          o.trans (h.items i) (h.items p) (h.items j) up
                            (above j a b j_i same_index))
                    | inr g ↦
                        Le-eq (at_other i p h (parent j) (ground arith) (ground arith)) here
                          (u.edges j a b j_i)
                  ]
                ]
          ];
          bridged = λ j c a b e.
              let top : (swap_node i p h).items (parent p) ≡ h.items (parent p) =
                at_other i p h (parent p) (omega arith) (omega arith) in
              let upper : Le (h.items (parent p)) (h.items p) =
                u.edges p c (omega arith) (omega arith) in
              elim (Bool-cases (j == i)) [
                | inl f ↦
                    let same_index : j ≡ i = ground arith in
                    Le-eq top (ap (swap_node i p h).items same_index ∙ at_first i p h) upper
                | inr f ↦
                    let j_i : j ≢ i = ground arith in
                    Le-eq top (at_other i p h j j_i (omega (arith, e))) (
                      o.trans (h.items (parent p)) (h.items p) (h.items j) upper
                        (above j a b j_i e))
              ];
        }

    -- A round of `sift_down`.
    pub swap_down :
        (i s : ℕ) (h : IntrusiveHeap)
        → i < h.size
        → Chosen i h s
        → DownTo i h
        → DownTo s (swap_node i s h)
    unfolding swap_node
    swap_down i s h lt (s_pos, s_lt, s_i, small, best) d =
        let up : Le (h.items s) (h.items i) = o.asym (h.items s) (h.items i) small in
        record {
          edges = λ j a b n. elim (Bool-cases (j == s)) [
            | inl e ↦
                let same_index : j ≡ s = ground arith in
                Le-eq
                  (ap (λ k. (swap_node i s h).items (parent k)) same_index
                    ∙ ap (swap_node i s h).items s_i
                    ∙ at_first i s h)
                  (ap (swap_node i s h).items same_index ∙ at_second i s h) up
            | inr e ↦
                let j_s : j ≢ s = ground arith in
                elim (Bool-cases (parent j == i)) [
                  | inl f ↦
                      let child : parent j ≡ i = ground arith in
                      Le-eq (ap (swap_node i s h).items child ∙ at_first i s h)
                        (at_other i s h j (omega (arith, child)) j_s) (best j a b child)
                  | inr f ↦
                      let far : parent j ≢ i = ground arith in
                      let top = at_other i s h (parent j) far n in
                      elim (Bool-cases (j == i)) [
                        | inl g ↦
                            let same_index : j ≡ i = ground arith in
                            Le-eq (top ∙ ap (λ k. h.items (parent k)) same_index)
                              (ap (swap_node i s h).items same_index ∙ at_first i s h)
                              (d.bridged s (omega (arith, same_index)) s_pos s_lt s_i)
                        | inr g ↦
                            Le-eq top (at_other i s h j (ground arith) j_s) (d.edges j a b far)
                      ]
                ]
          ];
          bridged = λ j c a b e.
              Le-eq (ap (swap_node i s h).items s_i ∙ at_first i s h)
                (at_other i s h j (omega (arith, e, s_i)) (omega (arith, e)))
                (edge h s j e (d.edges j a b (omega (arith, e, s_i))));
        }
