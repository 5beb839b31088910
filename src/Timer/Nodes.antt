-- ===== src/Timer/Nodes.antt =====
-- src/timer/timewheel.cpp: TimeWheelLinkedList, the lists behind the slots and the pending queue. All of
-- them link the nodes of the coroutines through the one `next` pointer of each, which pop_front leaves
-- as it is. A node is named by its address, and null is 0.
pub mod Memory
pub mod Refine
use rock_coro.Prelude.{ℕ, ◌==◌, List, [], ◌∷◌, if◌then◌else◌}
use rock_coro.BasicStruct.LinkedList.{Heap, set_next}

pub record TimeWheelLinkedList : Type 0 where
  pub head : ℕ
  pub tail : ℕ

-- The list and the node that it gives out.
pub pop_front : Heap → TimeWheelLinkedList → TimeWheelLinkedList × ℕ
pop_front next l =
    let head' = next l.head in
    let tail' = if head' == 0 then 0 else l.tail in
    if l.head == 0 then (l, 0) else (record { head = head'; tail = tail' }, l.head)

pub push_back : Heap → TimeWheelLinkedList → ℕ → Heap × TimeWheelLinkedList
push_back next l node =
    let next' = set_next next l.tail node in
    let tail' = next' l.tail in
    if l.head == 0
    then (set_next next node 0, record { head = node; tail = node })
    else (set_next next' tail' 0, record { head = l.head; tail = tail' })

-- The memory of the nodes, with the lists by number: the slots of the wheels and the pending queue.
pub record Lists : Type 0 where
  pub next : Heap
  pub lists : ℕ → TimeWheelLinkedList

abbrev pub set_list : {A : Type 0} → (ℕ → A) → ℕ → A → ℕ → A
set_list f j l i = if i == j then l else f i

-- A call on the list with a number.
pub data Call : Type 0 where
  push : ℕ → ℕ → Call
  pop : ℕ → Call

pub call : Call → Lists → Lists × ℕ
unfolding push_back pop_front
call (push j node) s =
    let (next', l) = push_back s.next (s.lists j) node in
    (record { next = next'; lists = set_list s.lists j l }, node)
call (pop j) s =
    let (l, node) = pop_front s.next (s.lists j) in
    (record s { lists = set_list s.lists j l }, node)

-- What the calls give back.
unfoldable pub call_all : List Call → Lists → List ℕ
unfolding call
call_all [] s = []
call_all (c ∷ cs) s = let (s', node) = call c s in node ∷ call_all cs s'

unfoldable pub new : Heap → Lists
new next = record { next = next; lists = λ j. record { head = 0; tail = 0 } }
