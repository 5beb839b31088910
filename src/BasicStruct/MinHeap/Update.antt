-- ===== src/BasicStruct/MinHeap/Update.antt =====
-- `update` restores the heap after a change of one object.
use rock_coro.Prelude.{ℕ, ◌<◌, ◌≡◌, ◌≢◌, refl, sym, ◌∙◌, subst, Bool, if◌then◌else◌, arith, some}
use rock_coro.BasicStruct.ObjectPool.{Object}
use rock_coro.BasicStruct.MinHeap.{IntrusiveHeap, parent, sift_up, sift_down, update_at, update}
use rock_coro.BasicStruct.MinHeap.Index.{same_place}
use rock_coro.BasicStruct.MinHeap.Order.{IsOrder, AtMost, edge}
use rock_coro.BasicStruct.MinHeap.Around.{Around, Restored, either_way}
use rock_coro.BasicStruct.MinHeap.Push.{IsValid}

-- `less'` compares the objects after the change of `x`.
abbrev pub AgreesOff : Object → (Object → Object → Bool) → (Object → Object → Bool) → Type 0
AgreesOff x less less' = (a b : Object) → a ≢ x → b ≢ x → less' a b ≡ less a b

module _ (less less' : Object → Object → Bool) (o : IsOrder less) (o' : IsOrder less') (x : Object)
    (h : IntrusiveHeap) (i : ℕ) where
  changed-Around :
      IsValid less h → AgreesOff x less less' → i < h.size → h.items i ≡ x → Around less' i h
  changed-Around v same lt here =
      let off : (j : ℕ) → j < h.size → j ≢ i → h.items j ≢ x =
        λ j q n e. n (same_place h j i v.indexed q lt (e ∙ sym here)) in
      let keeps : (j k : ℕ)
          → j < h.size
          → k < h.size
          → j ≢ i
          → k ≢ i
          → AtMost less h j k
          → AtMost less' h j k =
        λ j k q r n m l. same (h.items k) (h.items j) (off k r m) (off j q n) ∙ l in
      record {
        edges = λ j p q n m. keeps (parent j) j (omega arith) q m n (v.is_heap j p q);
        bridged = λ j pos p q child.
            keeps (parent i) j (omega arith) q (omega arith) (omega (arith, child)) (
              o.trans (h.items (parent i)) (h.items i) (h.items j) (v.is_heap i pos lt)
                (edge less h i j child (v.is_heap j p q)));
      }

  pub update_lem :
      IsValid less h
      → AgreesOff x less less'
      → h.heap_index x ≡ some i
      → (h' : IntrusiveHeap) × (update less' x h ≡ some h') × Restored less' h h'
  unfolding update update_at
  update_lem v same found =
      let (lt, here) = v.indexed.located x i found in
      (
        update_at less' x i h,
        rw (found, update) refl,
        subst
            (λ y. Restored less' h (
              if less' y (h.items (parent i))
              then sift_up less' i i h
              else sift_down less' h.size i h))
            here
            (either_way less' o' h.size i h (omega arith) lt v.indexed
              (changed-Around v same lt here)),
      )
