-- ===== src/BasicStruct/MinHeap/Tests.antt =====
-- Heaps of a pool with blocks of two objects, the lower place first.
use rock_coro.Prelude.{
  if◌then◌else◌, ℕ, ◌+◌, ◌*◌, ◌≡◌, refl, Bool, true, false, ltb, Option, none, some, arith,
}
use rock_coro.BasicStruct.ObjectPool
use rock_coro.BasicStruct.ObjectPool.{Object, acquire}
use rock_coro.BasicStruct.MinHeap.{
  is_object, new, top, push, swap_node, sift_up, sift_down, MinHeap, new_min_heap, emplace, pop_min,
  update_min,
}
use rock_coro.BasicStruct.MinHeap.Order.{IsOrder}
use rock_coro.BasicStruct.MinHeap.Around.{Restored}
use rock_coro.BasicStruct.MinHeap.Update.{AgreesOff}
use rock_coro.BasicStruct.MinHeap.Index.{apart_objects}
use rock_coro.BasicStruct.MinHeap.Owned.{IsReady, Popped}
use rock_coro.BasicStruct.MinHeap.Uses.{
  Uses, made, emplaced, pop_takes_least, update_restores_order, sift_loops_end,
}

abbrev low_first : Object → Object → Bool
low_first a b = ltb (a.block * 2 + a.index) (b.block * 2 + b.index)

low_first-IsOrder : IsOrder low_first
low_first-IsOrder = record { asym = λ a b p. ground arith; trans = λ a b c p q. ground arith }

abbrev empty_heap : MinHeap
empty_heap = new_min_heap 2 2

abbrev object : ℕ → Object
object i = record { block = 0; index = i }

-- The heap that a call leaves.
abbrev left_by : Option (MinHeap × Object) → MinHeap
left_by none = empty_heap
left_by (some (m, x)) = m

abbrev one_object : MinHeap
one_object = left_by (emplace low_first 2 empty_heap)

abbrev two_objects : MinHeap
two_objects = left_by (emplace low_first 2 one_object)

first_emplace : emplace low_first 2 empty_heap ≡ some (one_object, object 1)
unfolding emplace new_min_heap acquire ObjectPool.new new push sift_up
first_emplace = refl

second_emplace : emplace low_first 2 one_object ≡ some (two_objects, object 0)
unfolding emplace new_min_heap acquire ObjectPool.new new push sift_up swap_node
second_emplace = refl

use_of_two : Uses 2 2 low_first two_objects
use_of_two =
    emplaced low_first
      (emplaced low_first (made low_first low_first-IsOrder) low_first-IsOrder (λ a b i j e f. refl)
        first_emplace)
      low_first-IsOrder (λ a b i j e f. refl) second_emplace

two_in_heap : two_objects.heap.size ≡ 2
unfolding emplace new_min_heap acquire ObjectPool.new new push sift_up swap_node
two_in_heap = refl

at_root : two_objects.heap.heap_index (object 0) ≡ some 0
unfolding emplace new_min_heap acquire ObjectPool.new new push sift_up swap_node
at_root = refl

pop_takes_least_example :
    (m' : MinHeap) × (x : Object) × (top two_objects.heap ≡ some x)
    × Popped low_first two_objects (pop_min low_first two_objects) m' x
    × IsReady 2 low_first m'
pop_takes_least_example =
    pop_takes_least 2 2 low_first two_objects (omega arith) use_of_two (omega (arith, two_in_heap))

-- The comparison after `object 0` has become the last one.
abbrev raised : Object → ℕ
raised a = if is_object a (object 0) then 100 else a.block * 2 + a.index

abbrev raised_first : Object → Object → Bool
raised_first a b = ltb (raised a) (raised b)

raised_first-IsOrder : IsOrder raised_first
raised_first-IsOrder = record {
  asym = λ a b. go (raised a) (raised b);
  trans = λ a b c. through (raised a) (raised b) (raised c);
}
  where
    go : (i j : ℕ) → ltb i j ≡ true → ltb j i ≡ false
    go i j p = ground arith

    through : (i j k : ℕ) → ltb j i ≡ false → ltb k j ≡ false → ltb k i ≡ false
    through i j k p q = ground arith

raised_off : AgreesOff (object 0) low_first raised_first
raised_off a b n m = rw (apart_objects a (object 0) n, apart_objects b (object 0) m) refl

update_restores_order_example :
    (m' : MinHeap) × (update_min raised_first (object 0) two_objects ≡ some m')
    × Restored raised_first two_objects.heap m'.heap
    × IsReady 2 raised_first m'
update_restores_order_example =
    update_restores_order 2 2 low_first raised_first two_objects (object 0) 0 (omega arith)
      use_of_two raised_first-IsOrder raised_off at_root

sift_loops_end_example :
    (sift_up low_first 5 1 two_objects.heap ≡ sift_up low_first 1 1 two_objects.heap)
    × (sift_down low_first 5 1 two_objects.heap
        ≡ sift_down low_first two_objects.heap.size 1 two_objects.heap)
sift_loops_end_example =
    sift_loops_end low_first 5 1 two_objects.heap low_first-IsOrder (omega arith)
      (omega (arith, two_in_heap))
