-- ===== src/BasicStruct/MinHeap/Pop.antt =====
-- `pop` takes out an object that no other one is before.
use rock_coro.Prelude.{
  ℕ, zero, suc, ◌≤◌, ◌<◌, ◌≡◌, refl, sym, subst, Bool, false, ◌==◌, arith, Bool-cases, inl, inr,
  some,
}
use rock_coro.BasicStruct.ObjectPool.{Object}
use rock_coro.BasicStruct.MinHeap.{IntrusiveHeap, parent, remove_at, pop, top}
use rock_coro.BasicStruct.MinHeap.Order.{IsOrder, Le-eq, AtMost, IsHeap}
use rock_coro.BasicStruct.MinHeap.Sift.{Le-refl}
use rock_coro.BasicStruct.MinHeap.Push.{IsValid}
use rock_coro.BasicStruct.MinHeap.Remove.{Removed, remove_at_lem}

-- No object of the heap is before `r`.
abbrev pub IsLeast : (Object → Object → Bool) → Object → IntrusiveHeap → Type 0
IsLeast less r h = (y : Object) (i : ℕ) → h.heap_index y ≡ some i → less y r ≡ false

module _ (less : Object → Object → Bool) (o : IsOrder less) (h : IntrusiveHeap) where
  -- The path from an index to the root, on fuel.
  root_below : IsHeap less h → (fuel j : ℕ) → j ≤ fuel → j < h.size → AtMost less h 0 j
  root_below heap zero j le lt =
      let root : 0 ≡ j = omega arith in
      subst (λ k. AtMost less h 0 k) root (Le-refl less o (h.items 0))
  root_below heap (suc fuel) j le lt = elim (Bool-cases (j == 0)) [
    | inl e ↦
        let root : 0 ≡ j = ground arith in
        subst (λ k. AtMost less h 0 k) root (Le-refl less o (h.items 0))
    | inr e ↦
        let pos : 0 < j = ground arith in
        o.trans (h.items 0) (h.items (parent j)) (h.items j)
          (root_below heap fuel (parent j) (omega arith) (omega arith)) (heap j pos lt)
  ]

  pub root-IsLeast : IsValid less h → IsLeast less (h.items 0) h
  root-IsLeast v y i found =
      let (lt, here) = v.indexed.located y i found in
      Le-eq less refl (sym here) (root_below v.is_heap i i (omega arith) lt)

  pub pop_lem :
      IsValid less h
      → 0 < h.size
      → (h' : IntrusiveHeap) × (r : Object) × (pop less h ≡ some (h', r))
        × Removed less r h h'
        × IsLeast less r h
        × (top h ≡ some r)
  unfolding pop top
  pop_lem v pos =
      let e : (h.size == 0) ≡ false = ground arith in
      (
        remove_at less 0 h,
        h.items 0,
        rw (e, pop) refl,
        remove_at_lem less o 0 h v pos,
        root-IsLeast v,
        rw (e, top) refl,
      )
