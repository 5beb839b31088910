-- ===== src/BasicStruct/LinkedList.antt =====
-- src/basic_struct/linked_list.h: a list of nodes linked through their `next` pointers.
-- The heap holds the `next` of each node, and the null pointer is 0. The nodes' values are not
-- touched. The code has no other access to a node than those below.
pub mod Refine
mod Tests
use rock_coro.Prelude.{ℕ, ◌==◌, Option, none, some, if◌then◌else◌}

-- The `next` of a node.
abbrev pub Heap : Type 0
Heap = ℕ → ℕ

abbrev pub set_next : Heap → ℕ → ℕ → Heap
set_next next p v q = if q == p then v else next q

pub record LinkedList : Type 0 where
  pub next : Heap
  pub head : ℕ
  pub tail : ℕ

pub new : Heap → LinkedList
new h = record { next = h; head = 0; tail = 0 }

-- A null node is the null pointer.
pub pop_front : LinkedList → LinkedList × ℕ
pop_front l =
    let after = l.next l.head in
    let tail' = if after == 0 then 0 else l.tail in
    if l.head == 0
    then (l, 0)
    else (record { next = set_next l.next l.head 0; head = after; tail = tail' }, l.head)

unfoldable pub push_back : LinkedList → ℕ → LinkedList
push_back l node =
    let next' = set_next l.next node 0 in
    if l.tail == 0
    then record { next = next'; head = node; tail = node }
    else record { next = set_next next' l.tail node; head = l.head; tail = node }

pub push_front : LinkedList → ℕ → LinkedList
push_front l node = record {
  next = set_next l.next node l.head;
  head = node;
  tail = if l.tail == 0 then node else l.tail;
}
