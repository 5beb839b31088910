-- ===== src/Timer/Nodes/Memory.antt =====
-- What a call on one list does to the memory of the nodes, and so to the other lists.
use rock_coro.Prelude.{
  ℕ, ◌≡◌, ◌≢◌, refl, sym, ◌∙◌, ap, ap₂, subst, true, false, List, [], ◌∷◌, arith, In, ◌==◌,
}
use mathlib.Core.Path.{fun_ext}
use rock_coro.BasicStruct.LinkedList
use rock_coro.BasicStruct.LinkedList.{Heap, set_next, LinkedList}
use rock_coro.BasicStruct.LinkedList.Refine.{
  Chain, Represents, last_of-In, last_of_nonzero, rest_tail, set_next_here, Chain-set_next,
}
use rock_coro.Timer.Nodes.{TimeWheelLinkedList, pop_front, push_back}

-- A list with its heap.
abbrev pub on : Heap → TimeWheelLinkedList → LinkedList
on next l = record { next = next; head = l.head; tail = l.tail }

-- Two writes to different nodes.
set_next-swap :
    (next : Heap) (p v q w : ℕ)
    → p ≢ q
    → set_next (set_next next p v) q w ≡ set_next (set_next next q w) p v
set_next-swap next p v q w n = fun_ext (λ a. go a)
  where
    go : (a : ℕ) → set_next (set_next next p v) q w a ≡ set_next (set_next next q w) p v a
    go a = ground arith

-- push_back of the code is that of a list with a heap of its own.
pub push_back_lem :
    (next : Heap) (l : TimeWheelLinkedList) (xs : List ℕ) (node : ℕ)
    → ¬ In node xs
    → Represents (on next l) xs
    → on (push_back next l node).0 (push_back next l node).1 ≡ LinkedList.push_back (on next l) node
unfolding push_back LinkedList.push_back
push_back_lem next l [] node n r =
    let h : (l.head == 0) ≡ true = ground (arith, r.chain) in
    let t : (l.tail == 0) ≡ true = ground (arith, r.tail_eq) in rw (h, t) refl
push_back_lem next l (x ∷ xs) node n r =
    let h : (l.head == 0) ≡ false = ground (arith, r.chain.0, r.chain.1) in
    let some_tail = last_of_nonzero next l.head x xs r.chain in
    let t : (l.tail == 0) ≡ false = ground (arith, r.tail_eq) in
    let apart : l.tail ≢ node =
      λ e. n (subst (λ k. In k (x ∷ xs)) (sym r.tail_eq ∙ e) (last_of-In x xs)) in
    rw (h, t)
      (ap₂ (λ k (nx : Heap). record { next = nx; head = l.head; tail = k })
        (set_next_here next l.tail node)
        (ap (λ k. set_next (set_next next l.tail node) k 0) (set_next_here next l.tail node)
          ∙ set_next-swap next l.tail node node 0 apart))

-- The memory after a push, where another list does not have the node.
pub push_back-keeps :
    (next : Heap) (l : TimeWheelLinkedList) (xs : List ℕ) (node : ℕ) (m : TimeWheelLinkedList)
    (ys : List ℕ)
    → ¬ In node xs
    → ¬ In node ys
    → ((x : ℕ) → In x xs → ¬ In x ys)
    → Represents (on next l) xs
    → Represents (on next m) ys
    → Represents (on (push_back next l node).0 m) ys
unfolding push_back
push_back-keeps next l [] node m ys n k d r o =
    let h : (l.head == 0) ≡ true = ground (arith, r.chain) in
    record {
      chain = rw h (Chain-set_next next node 0 m.head ys k o.chain);
      tail_eq = o.tail_eq;
      distinct = o.distinct;
    }
push_back-keeps next l (x ∷ xs) node m ys n k d r o =
    let h : (l.head == 0) ≡ false = ground (arith, r.chain.0, r.chain.1) in
    let other : ¬ In l.tail ys = subst (λ a. ¬ In a ys) (sym r.tail_eq) (d _ (last_of-In x xs)) in
    record {
      chain =
          rw (h, set_next_here next l.tail node)
            (Chain-set_next (set_next next l.tail node) node 0 m.head ys k
              (Chain-set_next next l.tail node m.head ys other o.chain));
      tail_eq = o.tail_eq;
      distinct = o.distinct;
    }

-- pop_front leaves the memory as it is.
pub pop_front_lem :
    (next : Heap) (l : TimeWheelLinkedList) (x : ℕ) (xs : List ℕ)
    → Represents (on next l) (x ∷ xs)
    → Represents (on next (pop_front next l).0) xs × ((pop_front next l).1 ≡ x)
unfolding pop_front
pop_front_lem next l x xs r =
    let h : (l.head == 0) ≡ false = ground (arith, r.chain.0, r.chain.1) in
    rw h (
      record {
        chain = subst (λ k. Chain next (next k) xs) (sym r.chain.0) r.chain.2;
        tail_eq = rest_tail (on next l) x xs r;
        distinct = r.distinct.1;
      },
      r.chain.0,
    )

pub pop_front-empty :
    (next : Heap) (l : TimeWheelLinkedList) → Represents (on next l) [] → pop_front next l ≡ (l, 0)
unfolding pop_front
pop_front-empty next l r = let h : (l.head == 0) ≡ true = ground (arith, r.chain) in rw h refl
