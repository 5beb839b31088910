-- ===== src/BasicStruct/MinHeap/Uses.antt =====
-- A heap in use: what its operations do after any calls of them.
use rock_coro.Prelude.{
  ℕ, ◌≤◌, ◌<◌, ◌≡◌, refl, sym, ◌∙◌, subst, Bool, true, ◌==◌, arith, Bool-cases, inl, inr, Option,
  none, some,
}
use rock_coro.BasicStruct.ObjectPool.{Object}
use rock_coro.BasicStruct.MinHeap.{
  IntrusiveHeap, top, pop, update, MinHeap, new_min_heap, sift_up, sift_down, emplace, pop_min,
  update_min,
}
use rock_coro.BasicStruct.MinHeap.Order.{IsOrder}
use rock_coro.BasicStruct.MinHeap.Around.{Restored}
use rock_coro.BasicStruct.MinHeap.Update.{AgreesOff}
use rock_coro.BasicStruct.MinHeap.Loops.{sift_up_more, sift_down_more}
use rock_coro.BasicStruct.MinHeap.Owned.{
  IsReady, AgreesIn, Popped, new-IsReady, emplace_lem, pop_min_lem, update_min_lem,
}

-- The comparison may change between two calls, for the object that the second one is about.
pub data Uses (K n : ℕ) : (Object → Object → Bool) → MinHeap → Type 0 where
  made : (less : Object → Object → Bool) → IsOrder less → Uses K n less (new_min_heap K n)
  emplaced :
      {less : Object → Object → Bool} {m m' : MinHeap} {x : Object} (less' : Object → Object → Bool)
      → Uses K n less m
      → IsOrder less'
      → AgreesIn m.heap less less'
      → emplace less' K m ≡ some (m', x)
      → Uses K n less' m'
  popped :
      {less : Object → Object → Bool} {m m' : MinHeap}
      → Uses K n less m
      → pop_min less m ≡ some m'
      → Uses K n less m'
  updated :
      {less : Object → Object → Bool} {m m' : MinHeap} (less' : Object → Object → Bool) (x : Object)
      → Uses K n less m
      → IsOrder less'
      → AgreesOff x less less'
      → update_min less' x m ≡ some m'
      → Uses K n less' m'

abbrev ReadyAfter : ℕ → (Object → Object → Bool) → Option MinHeap → Type 0
ReadyAfter K less none = Unit {0}
ReadyAfter K less (some m) = IsReady K less m

abbrev ReadyWith : ℕ → (Object → Object → Bool) → Option (MinHeap × Object) → Type 0
ReadyWith K less none = Unit {0}
ReadyWith K less (some (m, x)) = IsReady K less m

module _ (K : ℕ) (enough : 0 < K) (less : Object → Object → Bool) (m : MinHeap)
    (r : IsReady K less m) where
  nothing_to_pop : (m.heap.size == 0) ≡ true → pop_min less m ≡ none
  unfolding pop_min pop
  nothing_to_pop e = rw (e, pop_min, pop) refl

  nothing_to_update :
      (less' : Object → Object → Bool) (x : Object)
      → m.heap.heap_index x ≡ none
      → update_min less' x m ≡ none
  unfolding update_min update
  nothing_to_update less' x e = rw (e, update_min, update) refl

  pop_min-ReadyAfter : ReadyAfter K less (pop_min less m)
  pop_min-ReadyAfter = elim (Bool-cases (m.heap.size == 0)) [
    | inl e ↦ subst (ReadyAfter K less) (sym (nothing_to_pop e)) tt
    | inr e ↦
        let (m', x, at_top, (f, removed, least), ready) =
          pop_min_lem K enough less m r (ground arith) in
        subst (ReadyAfter K less) (sym f) ready
  ]

  update_min-ReadyAfter :
      (less' : Object → Object → Bool) (x : Object)
      → IsOrder less'
      → AgreesOff x less less'
      → ReadyAfter K less' (update_min less' x m)
  update_min-ReadyAfter less' x o' same_off = go (m.heap.heap_index x) refl
    where
      go : (v : Option ℕ) → m.heap.heap_index x ≡ v → ReadyAfter K less' (update_min less' x m)
      go none e = subst (ReadyAfter K less') (sym (nothing_to_update less' x e)) tt
      go (some i) e =
          let (m', f, restored, ready) = update_min_lem K enough less m r less' x i o' same_off e in
          subst (ReadyAfter K less') (sym f) ready

Uses-IsReady :
    {K n : ℕ} {less : Object → Object → Bool} {m : MinHeap}
    → 0 < K
    → Uses K n less m
    → IsReady K less m
Uses-IsReady {K = K} {n = n} enough (made less o) = new-IsReady K enough less n o
Uses-IsReady {K = K} enough (emplaced {less = less} {m = m} less' u o' same_in e) =
    let (m', x, f, out, pushed, ready) =
      emplace_lem K enough less m (Uses-IsReady enough u) less' o' same_in in
    subst (ReadyWith K less') (sym f ∙ e) ready
Uses-IsReady {K = K} enough (popped {less = less} {m = m} u e) =
    subst (ReadyAfter K less) e (pop_min-ReadyAfter K enough less m (Uses-IsReady enough u))
Uses-IsReady {K = K} enough (updated {less = less} {m = m} less' x u o' same_off e) =
    subst (ReadyAfter K less') e
      (update_min-ReadyAfter K enough less m (Uses-IsReady enough u) less' x o' same_off)

-- With one object or more to a block of the pool, and after any calls of emplace, pop and update
-- in which the comparison is a strict weak order and changes, between two calls, only for the
-- object that the second one is about: on a heap that is not empty, pop takes out the object that
-- top shows, and no object of the heap is before it. What is left is a heap in which each object
-- knows its index, the other objects are those from before, and the object is free in the pool:
-- each object of the blocks is free or in the heap, just once.
pub pop_takes_least :
    (K n : ℕ) (less : Object → Object → Bool) (m : MinHeap)
    → 0 < K
    → Uses K n less m
    → 0 < m.heap.size
    → (m' : MinHeap) × (x : Object) × (top m.heap ≡ some x)
      × Popped less m (pop_min less m) m' x
      × IsReady K less m'
pop_takes_least K n less m enough u pos = pop_min_lem K enough less m (Uses-IsReady enough u) pos

-- With one object or more to a block of the pool, and after any calls of emplace, pop and update
-- in which the comparison is a strict weak order and changes, between two calls, only for the
-- object that the second one is about: update for an object of the heap, by a comparison that is a
-- strict weak order and has changed for this object alone, leaves a heap by the new comparison,
-- with the same objects, each of which knows its index.
pub update_restores_order :
    (K n : ℕ) (less less' : Object → Object → Bool) (m : MinHeap) (x : Object) (i : ℕ)
    → 0 < K
    → Uses K n less m
    → IsOrder less'
    → AgreesOff x less less'
    → m.heap.heap_index x ≡ some i
    → (m' : MinHeap) × (update_min less' x m ≡ some m')
      × Restored less' m.heap m'.heap
      × IsReady K less' m'
update_restores_order K n less less' m x i enough u o' same_off found =
    update_min_lem K enough less m (Uses-IsReady enough u) less' x i o' same_off found

-- For a comparison that is a strict weak order, sift_up at an index and sift_down on a heap of any
-- content end: fuel of at least the index, and of at least the size of the heap, gives the same
-- result as these bounds do.
pub sift_loops_end :
    (less : Object → Object → Bool) (fuel i : ℕ) (h : IntrusiveHeap)
    → IsOrder less
    → i ≤ fuel
    → h.size ≤ fuel
    → (sift_up less fuel i h ≡ sift_up less i i h)
      × (sift_down less fuel i h ≡ sift_down less h.size i h)
sift_loops_end less fuel i h o up down = (
  sift_up_more less o i fuel i h (omega arith) up,
  sift_down_more less o h.size fuel i h (omega arith) down,
)
