-- ===== src/BasicStruct/MinHeap/Index.antt =====
-- `heap_index_` says where each object of the heap is.
use rock_coro.Prelude.{
  ℕ, ◌<◌, ◌≡◌, ◌≢◌, refl, ap, sym, ◌∙◌, subst, true, false, Option, none, some, ◌==◌, if◌then◌else◌,
  arith, Bool-cases, inl, inr, ==_refl,
}
use rock_coro.BasicStruct.ObjectPool.{Object}
use rock_coro.BasicStruct.MinHeap.{is_object, IntrusiveHeap, swap_node}

pub is_object_lem : (a b : Object) → is_object a b ≡ true → a ≡ b
is_object_lem a b h = ground arith

pub is_object_refl : (a : Object) → is_object a a ≡ true
is_object_refl a = ground arith

pub apart_objects : (a b : Object) → a ≢ b → is_object a b ≡ false
apart_objects a b n = elim (Bool-cases (is_object a b)) [
  | inl e ↦ absurd (n (is_object_lem a b e))
  | inr e ↦ e
]

pub record WellIndexed (h : IntrusiveHeap) : Type 0 where
  pub placed : (i : ℕ) → i < h.size → h.heap_index (h.items i) ≡ some i
  pub located : (x : Object) (i : ℕ) → h.heap_index x ≡ some i → (i < h.size) × (h.items i ≡ x)

-- 1 for an object in the heap.
abbrev pub held : Option ℕ → ℕ
held none = 0
held (some i) = 1

some_inj : {i j : ℕ} → ◌≡◌ {A = Option ℕ} (some i) (some j) → i ≡ j
some_inj e = cc

-- Two indices of one object are the same.
pub same_place :
    (h : IntrusiveHeap) (i j : ℕ)
    → WellIndexed h
    → i < h.size
    → j < h.size
    → h.items i ≡ h.items j
    → i ≡ j
same_place h i j w p q e = some_inj (sym (w.placed i p) ∙ ap h.heap_index e ∙ w.placed j q)

-- What a swap does, index by index and object by object.
module _ (i j : ℕ) (h : IntrusiveHeap) where
  pub swap_node-items :
      (k : ℕ)
      → (swap_node i j h).items k
        ≡ (if k == j then h.items i else if k == i then h.items j else h.items k)
  unfolding swap_node
  swap_node-items k = refl

  swap_node-index :
      (y : Object)
      → (swap_node i j h).heap_index y ≡ (
          if is_object y (h.items i)
          then some j
          else if is_object y (h.items j)
          then some i
          else h.heap_index y)
  unfolding swap_node
  swap_node-index y = rw (==_refl j) (elim (Bool-cases (i == j)) [
    | inl e ↦
        let same_index : i ≡ j = ground arith in
        rw e (
          ap
            (λ k.
              if is_object y (h.items i)
              then some j
              else if is_object y (h.items k)
              then some i
              else h.heap_index y)
            same_index)
    | inr e ↦ rw (e, ==_refl i) refl
  ])

  pub swap_node-size : (swap_node i j h).size ≡ h.size
  unfolding swap_node
  swap_node-size = refl

  module _ (w : WellIndexed h) (p : i < h.size) (q : j < h.size) where
    pub swap_node-held :
        (y : Object) → held ((swap_node i j h).heap_index y) ≡ held (h.heap_index y)
    swap_node-held y = rw (swap_node-index y) (elim (Bool-cases (is_object y (h.items i))) [
      | inl e ↦
          rw e (sym (ap held (ap h.heap_index (is_object_lem y (h.items i) e) ∙ w.placed i p)))
      | inr e ↦ elim (Bool-cases (is_object y (h.items j))) [
        | inl f ↦
            rw (e, f)
              (sym (ap held (ap h.heap_index (is_object_lem y (h.items j) f) ∙ w.placed j q)))
        | inr f ↦ rw (e, f) refl
      ]
    ])

    apart : (k l : ℕ) → k < h.size → l < h.size → k ≢ l → is_object (h.items k) (h.items l) ≡ false
    apart k l a b n = apart_objects (h.items k) (h.items l) (λ e. n (same_place h k l w a b e))

    index_of_i : (swap_node i j h).heap_index (h.items i) ≡ some j
    index_of_i = rw (swap_node-index (h.items i), is_object_refl (h.items i)) refl

    index_of_j : i ≢ j → (swap_node i j h).heap_index (h.items j) ≡ some i
    index_of_j n =
        rw (swap_node-index (h.items j), apart j i q p (λ e. n (sym e)), is_object_refl (h.items j))
          refl

    swapped-placed :
        (k : ℕ) → k < h.size → (swap_node i j h).heap_index ((swap_node i j h).items k) ≡ some k
    swapped-placed k lt = elim (Bool-cases (k == j)) [
      | inl e ↦
          let same_index : j ≡ k = ground arith in
          rw (swap_node-items k, e) (index_of_i ∙ ap some same_index)
      | inr e ↦ elim (Bool-cases (k == i)) [
        | inl f ↦
            let same_index : i ≡ k = ground arith in
            let n : i ≢ j = ground arith in
            rw (swap_node-items k, e, f) (index_of_j n ∙ ap some same_index)
        | inr f ↦
            let n : k ≢ j = ground arith in
            let m : k ≢ i = ground arith in
            rw
              (
                swap_node-items k,
                e,
                f,
                swap_node-index (h.items k),
                apart k i lt p m,
                apart k j lt q n,
              )
              (w.placed k lt)
      ]
    ]

    item_at_i : (swap_node i j h).items i ≡ h.items j
    item_at_i = rw (swap_node-items i) (elim (Bool-cases (i == j)) [
      | inl e ↦ let same_index : i ≡ j = ground arith in rw e (ap h.items same_index)
      | inr e ↦ rw (e, ==_refl i) refl
    ])

    item_at_j : (swap_node i j h).items j ≡ h.items i
    item_at_j = rw (swap_node-items j, ==_refl j) refl

    not_at : (y : Object) (k l : ℕ) → h.items k ≡ y → is_object y (h.items l) ≡ false → k ≢ l
    not_at y k l here n same =
        let there : y ≡ h.items l = sym here ∙ ap h.items same in
        cc (sym (is_object_refl (h.items l)) ∙ ap (λ z. is_object z (h.items l)) (sym there) ∙ n)

    swapped-located :
        (y : Object) (k : ℕ)
        → (swap_node i j h).heap_index y ≡ some k
        → (k < h.size) × ((swap_node i j h).items k ≡ y)
    swapped-located y k found =
        let e = sym (swap_node-index y) ∙ found in
        elim (Bool-cases (is_object y (h.items i))) [
          | inl a ↦
              let same_index : j ≡ k = some_inj (rw a at e) in
              (
                subst (λ l. l < h.size) same_index q,
                ap (swap_node i j h).items (sym same_index)
                    ∙ item_at_j
                    ∙ sym (is_object_lem y (h.items i) a),
              )
          | inr a ↦ elim (Bool-cases (is_object y (h.items j))) [
            | inl b ↦
                let same_index : i ≡ k = some_inj (rw (a, b) at e) in
                (
                  subst (λ l. l < h.size) same_index p,
                  ap (swap_node i j h).items (sym same_index)
                      ∙ item_at_i
                      ∙ sym (is_object_lem y (h.items j) b),
                )
            | inr b ↦
                let (lt, here) = w.located y k (rw (a, b) at e) in
                (
                  lt,
                  rw (swap_node-items k) (elim (Bool-cases (k == j)) [
                    | inl c ↦ absurd (not_at y k j here b (ground arith))
                    | inr c ↦ elim (Bool-cases (k == i)) [
                      | inl d ↦ absurd (not_at y k i here a (ground arith))
                      | inr d ↦ rw (c, d) here
                    ]
                  ]),
                )
          ]
        ]

    pub swap_node-WellIndexed : WellIndexed (swap_node i j h)
    unfolding swap_node
    swap_node-WellIndexed = record { placed = swapped-placed; located = swapped-located }
