-- ===== src/BasicStruct/MinHeap/Owned.antt =====
-- The heap and the pool: an object of the pool's blocks is free or in the heap, and just once.
use rock_coro.Prelude.{
  ℕ, ◌<◌, ◌≡◌, refl, ap, sym, ◌∙◌, Bool, arith, Bool-cases, inl, inr, Option, none, some,
}
use rock_coro.BasicStruct.ObjectPool.{Object, release}
use rock_coro.BasicStruct.ObjectPool.Balance.{
  Covers, new-IsBalanced, acquire-Acquired, release-Covers,
}
use rock_coro.BasicStruct.MinHeap.{
  is_object, IntrusiveHeap, set_index, parent, new, top, push, MinHeap, new_min_heap, emplaced,
  popped, push_new, emplace, pop_min, update_min,
}
use rock_coro.BasicStruct.MinHeap.Index.{held, is_object_lem}
use rock_coro.BasicStruct.MinHeap.Order.{IsOrder}
use rock_coro.BasicStruct.MinHeap.Around.{Restored}
use rock_coro.BasicStruct.MinHeap.Push.{IsValid, Pushed, push_lem}
use rock_coro.BasicStruct.MinHeap.Remove.{Removed}
use rock_coro.BasicStruct.MinHeap.Pop.{IsLeast, pop_lem}
use rock_coro.BasicStruct.MinHeap.Update.{AgreesOff, update_lem}

pub record IsReady (K : ℕ) (less : Object → Object → Bool) (m : MinHeap) : Type 0 where
  pub order : IsOrder less
  pub valid : IsValid less m.heap
  pub covered : Covers K m.pool (λ a. held (m.heap.heap_index a))

-- The comparison of the objects in the heap stays as it is.
abbrev pub AgreesIn : IntrusiveHeap → (Object → Object → Bool) → (Object → Object → Bool) → Type 0
AgreesIn h less less' =
    (a b : Object) (i j : ℕ)
    → h.heap_index a ≡ some i
    → h.heap_index b ≡ some j
    → less' a b ≡ less a b

abbrev pub Popped : (Object → Object → Bool) → MinHeap → Option MinHeap → MinHeap → Object → Type 0
Popped less m result m' r =
    (result ≡ some m') × Removed less r m.heap m'.heap × IsLeast less r m.heap

not_held : (v : Option ℕ) → held v ≡ 0 → v ≡ none
not_held none e = refl
not_held (some i) e = absurd (omega arith)

-- What `emplace` pushes to.
abbrev reset : Object → IntrusiveHeap → IntrusiveHeap
reset x h = record h { heap_index = set_index h.heap_index x none }

reset_again : (x : Object) (h : IntrusiveHeap) → h.heap_index x ≡ none → reset x h ≡ h
reset_again x h out =
    let same_index : (y : Object) → set_index h.heap_index x none y ≡ h.heap_index y = λ y.
      elim (Bool-cases (is_object y x)) [
        | inl e ↦ rw e (sym (ap h.heap_index (is_object_lem y x e) ∙ out))
        | inr e ↦ rw e refl
      ] in
    λ k. record h { heap_index = λ y. same_index y k }

module _ (K : ℕ) (enough : 0 < K) (less : Object → Object → Bool) where
  pub new-IsReady : (n : ℕ) → IsOrder less → IsReady K less (new_min_heap K n)
  unfolding new_min_heap new
  new-IsReady n o = record {
    order = o;
    valid = record {
      is_heap = λ j p q. absurd (omega (arith, q));
      indexed = record {
        placed = λ i p. absurd (omega (arith, p));
        located = λ x i found. absurd (cc found);
      };
    };
    covered = new-IsBalanced K n;
  }

  module _ (m : MinHeap) (r : IsReady K less m) where
    still-IsValid :
        (less' : Object → Object → Bool) → AgreesIn m.heap less less' → IsValid less' m.heap
    still-IsValid less' same_in =
        let h = m.heap in
        let w = r.valid.indexed in
        record {
          is_heap = λ j p q.
              same_in (h.items j) (h.items (parent j)) j (parent j) (w.placed j q)
                (w.placed (parent j) (omega arith))
              ∙ r.valid.is_heap j p q;
          indexed = w;
        }

    pub emplace_lem :
        (less' : Object → Object → Bool)
        → IsOrder less'
        → AgreesIn m.heap less less'
        → (m' : MinHeap) × (x : Object) × (emplace less' K m ≡ some (m', x))
          × (m.heap.heap_index x ≡ none)
          × Pushed less' x m.heap m'.heap
          × IsReady K less' m'
    unfolding emplace
    emplace_lem less' o' same_in =
        let (pool, x, e, cover, fresh) =
          acquire-Acquired K m.pool (λ a. held (m.heap.heap_index a)) enough r.covered in
        let out = not_held (m.heap.heap_index x) fresh in
        let (h, f, pushed) = push_lem less' o' x m.heap (still-IsValid less' same_in) out in
        (
          record { pool = pool; heap = h },
          x,
          ap (push_new less' m.heap) e
              ∙ ap (λ g. emplaced pool x (push less' x g)) (reset_again x m.heap out)
              ∙ ap (emplaced pool x) f,
          out,
          pushed,
          record {
            order = o';
            valid = pushed.valid;
            covered = λ a. omega (arith, cover a, pushed.held_eq a);
          },
        )

    pub pop_min_lem :
        0 < m.heap.size
        → (m' : MinHeap) × (x : Object) × (top m.heap ≡ some x)
          × Popped less m (pop_min less m) m' x
          × IsReady K less m'
    unfolding pop_min
    pop_min_lem pos =
        let (h, x, e, removed, least, at_root) = pop_lem less r.order m.heap r.valid pos in
        (
          record { pool = release m.pool x; heap = h },
          x,
          at_root,
          (ap (popped m.pool) e, removed, least),
          record {
            order = r.order;
            valid = removed.valid;
            covered =
                release-Covers K m.pool x (λ a. held (h.heap_index a))
                  (λ a. omega (arith, r.covered a, removed.held_eq a));
          },
        )

    pub update_min_lem :
        (less' : Object → Object → Bool) (x : Object) (i : ℕ)
        → IsOrder less'
        → AgreesOff x less less'
        → m.heap.heap_index x ≡ some i
        → (m' : MinHeap) × (update_min less' x m ≡ some m')
          × Restored less' m.heap m'.heap
          × IsReady K less' m'
    unfolding update_min
    update_min_lem less' x i o' same_off found =
        let (h, e, restored) = update_lem less less' r.order o' x m.heap i r.valid same_off found in
        (
          record m { heap = h },
          rw (e, update_min) refl,
          restored,
          record {
            order = o';
            valid = record { is_heap = restored.is_heap; indexed = restored.rearranged.indexed };
            covered = λ a. omega (arith, r.covered a, restored.rearranged.held_eq a);
          },
        )
