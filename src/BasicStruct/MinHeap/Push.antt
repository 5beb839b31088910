-- ===== src/BasicStruct/MinHeap/Push.antt =====
-- `push` keeps the heap and adds its object.
use rock_coro.Prelude.{
  ℕ, ◌+◌, ◌<◌, ◌≡◌, ◌≢◌, refl, ap, sym, ◌∙◌, Bool, true, false, ◌==◌, if◌then◌else◌, arith,
  Bool-cases, inl, inr, none, some,
}
use rock_coro.BasicStruct.ObjectPool.{Object}
use rock_coro.BasicStruct.MinHeap.{
  is_object, IntrusiveHeap, parent, set_item, set_index, sift_up, push,
}
use rock_coro.BasicStruct.MinHeap.Index.{
  WellIndexed, held, is_object_lem, is_object_refl, apart_objects,
}
use rock_coro.BasicStruct.MinHeap.Order.{IsOrder, Le-eq, IsHeap, UpTo}
use rock_coro.BasicStruct.MinHeap.Loops.{sift_up_lem}

-- What holds between the operations.
pub record IsValid (less : Object → Object → Bool) (h : IntrusiveHeap) : Type 0 where
  pub is_heap : IsHeap less h
  pub indexed : WellIndexed h

abbrev pub once : Bool → ℕ
once b = if b then 1 else 0

-- A heap with the objects of `h` and `x`.
pub record Pushed (less : Object → Object → Bool) (x : Object) (h h' : IntrusiveHeap) : Type 0 where
  pub valid : IsValid less h'
  pub one_more : h'.size ≡ h.size + 1
  pub held_eq : (y : Object) → held (h'.heap_index y) ≡ held (h.heap_index y) + once (is_object y x)

module _ (x : Object) (h : IntrusiveHeap) where
  appended : IntrusiveHeap
  appended = record {
    items = set_item h.items h.size x;
    size = h.size + 1;
    heap_index = set_index h.heap_index x (some h.size);
  }

  appended_item : (k : ℕ) → k < h.size → appended.items k ≡ h.items k
  unfolding appended
  appended_item k lt = let e : (k == h.size) ≡ false = ground arith in rw e refl

  module _ (out : h.heap_index x ≡ none) where
    appended-held :
        (y : Object) → held (appended.heap_index y) ≡ held (h.heap_index y) + once (is_object y x)
    unfolding appended
    appended-held y = elim (Bool-cases (is_object y x)) [
      | inl e ↦ rw (e, ap h.heap_index (is_object_lem y x e) ∙ out) refl
      | inr e ↦ rw e (omega arith)
    ]

    appended-WellIndexed : WellIndexed h → WellIndexed appended
    unfolding appended
    appended-WellIndexed w = record {
      placed = λ k lt. elim (Bool-cases (k == h.size)) [
        | inl e ↦
            let same_index : h.size ≡ k = ground arith in
            rw (e, is_object_refl x) (ap some same_index)
        | inr e ↦
            let k_lt : k < h.size = ground arith in
            let other : h.items k ≢ x =
              λ same. cc (sym (w.placed k k_lt) ∙ ap h.heap_index same ∙ out) in
            rw (e, apart_objects (h.items k) x other) (w.placed k k_lt)
      ];
      located = λ y k found. elim (Bool-cases (is_object y x)) [
        | inl e ↦
            let same_index : h.size ≡ k = cc (rw e at found) in
            let last : (k == h.size) ≡ true = ground arith in
            (omega (arith, same_index), rw last (sym (is_object_lem y x e)))
        | inr e ↦
            let (lt, here) = w.located y k (rw e at found) in
            (omega (arith, lt), appended_item k lt ∙ here)
      ];
    }

  appended-UpTo : (less : Object → Object → Bool) → IsHeap less h → UpTo less h.size appended
  unfolding appended
  appended-UpTo less heap = record {
    edges = λ j p q n.
        Le-eq less (appended_item (parent j) (omega arith)) (appended_item j (omega arith))
          (heap j p (omega arith));
    bridged = λ j pos p q child. absurd (omega (arith, child));
  }

module _ (less : Object → Object → Bool) (o : IsOrder less) (x : Object) (h : IntrusiveHeap) where
  pub push_lem :
      IsValid less h
      → h.heap_index x ≡ none
      → (h' : IntrusiveHeap) × (push less x h ≡ some h') × Pushed less x h h'
  unfolding push appended
  push_lem v out =
      let h' = sift_up less h.size h.size (appended x h) in
      let (heap, r) =
        sift_up_lem less o h.size h.size (appended x h) (omega arith) (omega arith)
          (appended-WellIndexed x h out v.indexed) (appended-UpTo x h less v.is_heap) in
      (
        h',
        rw (out, push) refl,
        record {
          valid = record { is_heap = heap; indexed = r.indexed };
          one_more = r.size_eq;
          held_eq = λ y. r.held_eq y ∙ appended-held x h out y;
        },
      )

  -- An object that is in the heap fails the assert.
  pub push_twice : (i : ℕ) → h.heap_index x ≡ some i → push less x h ≡ none
  unfolding push
  push_twice i here = rw (here, push) refl
