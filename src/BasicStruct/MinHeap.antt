-- ===== src/BasicStruct/MinHeap.antt =====
-- src/basic_struct/min_heap.h: the intrusive binary heap, and the heap that owns its objects.
-- An object is named by its place in the pool. `std::vector` is a function on the indices below
-- `size`, and sizes stay far below 2 ^ 30, so that `int` does not overflow.
pub mod Index
pub mod Order
pub mod Sift
pub mod Loops
pub mod Around
pub mod Push
pub mod Remove
pub mod Pop
pub mod Update
pub mod Owned
pub mod Uses
mod Tests
use rock_coro.Prelude.{
  ℕ, zero, suc, ◌+◌, ◌-◌, ◌*◌, ◌/◌, Bool, true, false, ◌&&◌, Option, none, some, ltb, ◌==◌,
  if◌then◌else◌,
}
use rock_coro.BasicStruct.ObjectPool
use rock_coro.BasicStruct.ObjectPool.{Object, ObjectPool, acquire, release}

abbrev pub is_object : Object → Object → Bool
is_object a b = (a.block == b.block) && (a.index == b.index)

-- `heap_index` is the `heap_index_` of each object; `none` is -1.
pub record IntrusiveHeap : Type 0 where
  pub items : ℕ → Object
  pub size : ℕ
  pub heap_index : Object → Option ℕ

abbrev pub parent : ℕ → ℕ
parent i = (i - 1) / 2

abbrev pub left : ℕ → ℕ
left i = i * 2 + 1

abbrev pub right : ℕ → ℕ
right i = i * 2 + 2

abbrev pub set_item : (ℕ → Object) → ℕ → Object → ℕ → Object
set_item items i x j = if j == i then x else items j

abbrev pub set_index : (Object → Option ℕ) → Object → Option ℕ → Object → Option ℕ
set_index index x v y = if is_object y x then v else index y

pub swap_node : ℕ → ℕ → IntrusiveHeap → IntrusiveHeap
swap_node i j h =
    let items' = set_item (set_item h.items i (h.items j)) j (h.items i) in
    record h {
      items = items';
      heap_index = set_index (set_index h.heap_index (items' i) (some i)) (items' j) (some j);
    }

pub new : IntrusiveHeap
new = record { items = λ i. record { block = 0; index = 0 }; size = 0; heap_index = λ x. none }

pub empty : IntrusiveHeap → Bool
empty h = h.size == 0

pub top : IntrusiveHeap → Option Object
top h = if h.size == 0 then none else some (h.items 0)

-- `comp_`, on the objects as they are at the time of the call.
module _ (less : Object → Object → Bool) where
  -- The loop of `sift_up`, on fuel; `i` falls in each round.
  pub sift_up : ℕ → ℕ → IntrusiveHeap → IntrusiveHeap
  unfolding swap_node
  sift_up zero i h = h
  sift_up (suc fuel) i h =
      let p = parent i in
      let rest = sift_up fuel p (swap_node i p h) in
      if ltb 0 i && less (h.items i) (h.items p) then rest else h

  -- The index that a round of `sift_down` takes for `smallest`.
  abbrev pub smaller_left : ℕ → IntrusiveHeap → ℕ
  smaller_left i h =
      if ltb (left i) h.size && less (h.items (left i)) (h.items i) then left i else i

  abbrev pub smallest : ℕ → IntrusiveHeap → ℕ
  smallest i h =
      let s = smaller_left i h in
      if ltb (right i) h.size && less (h.items (right i)) (h.items s) then right i else s

  -- The loop of `sift_down`, on fuel; `i` grows in each round.
  pub sift_down : ℕ → ℕ → IntrusiveHeap → IntrusiveHeap
  unfolding swap_node
  sift_down zero i h = h
  sift_down (suc fuel) i h =
      let s = smallest i h in
      let rest = sift_down fuel s (swap_node i s h) in if s == i then h else rest

  -- `none` is a failed assert.
  pub push : Object → IntrusiveHeap → Option IntrusiveHeap
  unfolding sift_up
  push x h =
      let h' : IntrusiveHeap = record {
        items = set_item h.items h.size x;
        size = h.size + 1;
        heap_index = set_index h.heap_index x (some h.size);
      } in
      elim (h.heap_index x) [ none ↦ some (sift_up h.size h.size h') | some i ↦ none ]

  pub remove_at : ℕ → IntrusiveHeap → IntrusiveHeap
  unfolding swap_node sift_up sift_down
  remove_at idx h =
      let last = h.size - 1 in
      let removed = h.items idx in
      let h1 = if idx == last then h else swap_node idx last h in
      let h2 : IntrusiveHeap = record {
        items = h1.items;
        size = last;
        heap_index = set_index h1.heap_index removed none;
      } in
      if ltb idx last then sift_up idx idx (sift_down last idx h2) else h2

  pub pop : IntrusiveHeap → Option (IntrusiveHeap × Object)
  unfolding remove_at
  pop h = if h.size == 0 then none else some (remove_at 0 h, h.items 0)

  pub update_at : Object → ℕ → IntrusiveHeap → IntrusiveHeap
  unfolding sift_up sift_down
  update_at x idx h =
      if less x (h.items (parent idx)) then sift_up idx idx h else sift_down h.size idx h

  pub update : Object → IntrusiveHeap → Option IntrusiveHeap
  unfolding update_at
  update x h = elim (h.heap_index x) [ none ↦ none | some idx ↦ some (update_at x idx h) ]

pub record MinHeap : Type 0 where
  pub pool : ObjectPool
  pub heap : IntrusiveHeap

pub new_min_heap : ℕ → ℕ → MinHeap
unfolding new
new_min_heap K capacity = record { pool = ObjectPool.new K capacity; heap = new }

-- What `emplace` and `pop` do with the results of their calls.
abbrev pub emplaced : ObjectPool → Object → Option IntrusiveHeap → Option (MinHeap × Object)
emplaced pool x none = none
emplaced pool x (some heap) = some (record { pool = pool; heap = heap }, x)

abbrev pub popped : ObjectPool → Option (IntrusiveHeap × Object) → Option MinHeap
popped pool none = none
popped pool (some (heap, x)) = some (record { pool = release pool x; heap = heap })

module _ (less : Object → Object → Bool) where
  abbrev pub push_new : IntrusiveHeap → Option (ObjectPool × Object) → Option (MinHeap × Object)
  push_new heap none = none
  push_new heap (some (pool, x)) =
      emplaced pool x (push less x (record heap { heap_index = set_index heap.heap_index x none }))

  pub emplace : ℕ → MinHeap → Option (MinHeap × Object)
  unfolding push
  emplace K m = push_new m.heap (acquire K m.pool)

  pub pop_min : MinHeap → Option MinHeap
  unfolding pop
  pop_min m = popped m.pool (pop less m.heap)

  pub update_min : Object → MinHeap → Option MinHeap
  unfolding update
  update_min x m = elim (update less x m.heap) [
    | none ↦ none
    | some heap ↦ some (record m { heap = heap })
  ]
