-- ===== src/BasicStruct/MinHeap/Remove.antt =====
-- `remove_at` keeps the heap and takes out its object.
use rock_coro.Prelude.{
  ℕ, ◌+◌, ◌-◌, ◌<◌, ◌≡◌, ◌≢◌, refl, ap, sym, ◌∙◌, Bool, false, ◌==◌, ltb, if◌then◌else◌, arith,
  Bool-cases, inl, inr, ==_refl, none, some,
}
use rock_coro.BasicStruct.ObjectPool.{Object}
use rock_coro.BasicStruct.MinHeap.{
  is_object, IntrusiveHeap, parent, set_index, swap_node, sift_up, sift_down, remove_at,
}
use rock_coro.BasicStruct.MinHeap.Index.{
  WellIndexed, held, is_object_lem, is_object_refl, apart_objects, same_place, swap_node-held,
  swap_node-WellIndexed,
}
use rock_coro.BasicStruct.MinHeap.Order.{IsOrder, Le-eq, IsHeap, edge}
use rock_coro.BasicStruct.MinHeap.Around.{Around, both_ways}
use rock_coro.BasicStruct.MinHeap.Push.{IsValid, once}

-- A heap with the objects of `h` but `x`.
pub record Removed (less : Object → Object → Bool) (x : Object) (h h' : IntrusiveHeap)
    : Type 0 where
  pub valid : IsValid less h'
  pub one_less : h'.size + 1 ≡ h.size
  pub held_eq : (y : Object) → held (h'.heap_index y) + once (is_object y x) ≡ held (h.heap_index y)

-- The object at `idx` is at the end, and the last one in its place.
record AtEnd (idx : ℕ) (h g : IntrusiveHeap) : Type 0 where
  size_eq : g.size ≡ h.size
  indexed : WellIndexed g
  held_eq : (y : Object) → held (g.heap_index y) ≡ held (h.heap_index y)
  last_item : g.items (h.size - 1) ≡ h.items idx
  moved : g.items idx ≡ h.items (h.size - 1)
  other : (k : ℕ) → k < h.size - 1 → k ≢ idx → g.items k ≡ h.items k

already : (idx : ℕ) (h : IntrusiveHeap) → WellIndexed h → idx ≡ h.size - 1 → AtEnd idx h h
already idx h w e = record {
  size_eq = refl;
  indexed = w;
  held_eq = λ y. refl;
  last_item = ap h.items (sym e);
  moved = ap h.items e;
  other = λ k lt n. refl;
}

swap_node-AtEnd :
    (idx : ℕ) (h : IntrusiveHeap)
    → WellIndexed h
    → idx < h.size
    → idx ≢ h.size - 1
    → AtEnd idx h (swap_node idx (h.size - 1) h)
unfolding swap_node
swap_node-AtEnd idx h w lt n =
    let last = h.size - 1 in
    let last_lt : last < h.size = omega arith in
    record {
      size_eq = refl;
      indexed = swap_node-WellIndexed idx last h w lt last_lt;
      held_eq = swap_node-held idx last h w lt last_lt;
      last_item = rw (==_refl last) refl;
      moved = let e : (idx == last) ≡ false = ground arith in rw (e, ==_refl idx) refl;
      other = λ k k_lt k_idx.
          let e : (k == last) ≡ false = ground arith in
          let f : (k == idx) ≡ false = ground arith in rw (e, f) refl;
    }

-- `pop_back`, and the reset of the index.
dropped : ℕ → Object → IntrusiveHeap → IntrusiveHeap
dropped last x g = record {
  items = g.items;
  size = last;
  heap_index = set_index g.heap_index x none;
}

-- The rest of `remove_at`.
finish : (Object → Object → Bool) → ℕ → IntrusiveHeap → IntrusiveHeap → IntrusiveHeap
finish less idx h g =
    let h2 = dropped (h.size - 1) (h.items idx) g in
    if ltb idx (h.size - 1) then sift_up less idx idx (sift_down less (h.size - 1) idx h2) else h2

module _ (idx : ℕ) (h g : IntrusiveHeap) (a : AtEnd idx h g) (lt : idx < h.size) where
  last_of_g : g.heap_index (h.items idx) ≡ some (h.size - 1)
  last_of_g =
      ap g.heap_index (sym a.last_item) ∙ a.indexed.placed (h.size - 1) (omega (arith, a.size_eq))

  dropped-held :
      (y : Object)
      → held ((dropped (h.size - 1) (h.items idx) g).heap_index y)
          + once (is_object y (h.items idx))
        ≡ held (h.heap_index y)
  unfolding dropped
  dropped-held y = elim (Bool-cases (is_object y (h.items idx))) [
    | inl e ↦ rw e (
        sym (ap held (ap g.heap_index (is_object_lem y (h.items idx) e) ∙ last_of_g)) ∙ a.held_eq y)
    | inr e ↦ rw e (omega (arith, a.held_eq y))
  ]

  dropped-WellIndexed : WellIndexed (dropped (h.size - 1) (h.items idx) g)
  unfolding dropped
  dropped-WellIndexed = record {
    placed = λ k k_lt.
        let inside : k < g.size = omega arith in
        let apart : g.items k ≢ h.items idx = λ same.
          let at_last : k ≡ h.size - 1 =
            same_place g k (h.size - 1) a.indexed inside (omega (arith, a.size_eq))
              (same ∙ sym a.last_item) in
          omega (arith, at_last, a.size_eq) in
        rw (apart_objects (g.items k) (h.items idx) apart) (a.indexed.placed k inside);
    located = λ y k found. elim (Bool-cases (is_object y (h.items idx))) [
      | inl e ↦ absurd (cc (rw e at found))
      | inr e ↦
          let (k_lt, here) = a.indexed.located y k (rw e at found) in
          let apart : k ≢ h.size - 1 = λ same.
            let there : y ≡ h.items idx = sym here ∙ ap g.items same ∙ a.last_item in
            cc (
              sym (is_object_refl (h.items idx))
              ∙ ap (λ z. is_object z (h.items idx)) (sym there)
              ∙ e) in
          (omega (arith, k_lt, apart, a.size_eq), here)
    ];
  }

  module _ (less : Object → Object → Bool) (o : IsOrder less) (heap : IsHeap less h) where
    dropped-Around : Around less idx (dropped (h.size - 1) (h.items idx) g)
    unfolding dropped
    dropped-Around = record {
      edges = λ j p q n m.
          Le-eq less (a.other (parent j) (omega (arith, q, a.size_eq)) m)
            (a.other j (omega (arith, q, a.size_eq)) n) (heap j p (omega (arith, q, a.size_eq)));
      bridged = λ j pos p q child.
          Le-eq less (a.other (parent idx) (omega (arith, lt)) (omega (arith, pos)))
            (a.other j (omega (arith, q, a.size_eq)) (omega (arith, child, pos)))
            (o.trans (h.items (parent idx)) (h.items idx) (h.items j) (heap idx pos lt)
              (edge less h idx j child (heap j p (omega (arith, q, a.size_eq)))));
    }

    dropped-IsHeap : idx ≡ h.size - 1 → IsHeap less (dropped (h.size - 1) (h.items idx) g)
    unfolding dropped
    dropped-IsHeap e j p q =
        Le-eq less
          (a.other (parent j) (omega (arith, q, a.size_eq)) (omega (arith, q, e, a.size_eq)))
          (a.other j (omega (arith, q, a.size_eq)) (omega (arith, q, e, a.size_eq)))
          (heap j p (omega (arith, q, a.size_eq)))

    finish-Removed : Removed less (h.items idx) h (finish less idx h g)
    unfolding finish dropped
    finish-Removed =
        let h2 = dropped (h.size - 1) (h.items idx) g in
        elim (Bool-cases (ltb idx (h.size - 1))) [
          | inl e ↦
              let r =
                both_ways less o (h.size - 1) idx h2 (omega (arith, a.size_eq))
                  (ground (arith, a.size_eq)) dropped-WellIndexed dropped-Around in
              rw e (record {
                valid = record { is_heap = r.is_heap; indexed = r.rearranged.indexed };
                one_less = omega (arith, r.rearranged.size_eq, a.size_eq);
                held_eq = λ y.
                    ap (λ n. n + once (is_object y (h.items idx))) (r.rearranged.held_eq y)
                    ∙ dropped-held y;
              })
          | inr e ↦ rw e (record {
            valid = record {
              is_heap = dropped-IsHeap (ground arith);
              indexed = dropped-WellIndexed;
            };
            one_less = omega (arith, a.size_eq);
            held_eq = dropped-held;
          })
        ]

module _ (less : Object → Object → Bool) (o : IsOrder less) (idx : ℕ) (h : IntrusiveHeap) where
  -- The test on the last index.
  remove_at_eq :
      remove_at less idx h
      ≡ finish less idx h (if idx == (h.size - 1) then h else swap_node idx (h.size - 1) h)
  unfolding remove_at finish dropped
  remove_at_eq = refl

  pub remove_at_lem :
      IsValid less h → idx < h.size → Removed less (h.items idx) h (remove_at less idx h)
  remove_at_lem v lt =
      let last = h.size - 1 in
      rw remove_at_eq (elim (Bool-cases (idx == last)) [
        | inl e ↦
            let at_last : idx ≡ last = ground arith in
            rw e (finish-Removed idx h h (already idx h v.indexed at_last) lt less o v.is_heap)
        | inr e ↦
            let before : idx ≢ last = ground arith in
            rw e (
              finish-Removed idx h (swap_node idx last h)
                (swap_node-AtEnd idx h v.indexed lt before) lt less o v.is_heap)
      ])
