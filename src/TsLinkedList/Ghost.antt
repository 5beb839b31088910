-- ===== src/TsLinkedList/Ghost.antt =====
-- The order in which nodes were linked, and what each address and each thread has to do with it.
use rock_coro.Prelude.{
  ℕ, zero, suc, ◌+◌, ◌≤◌, ◌<◌, ◌≡◌, ◌≢◌, true, false, none, some, List, [], ◌∷◌,
}
use rock_coro.TsLinkedList.{
  Pc, idle, push_value, push_clear, push_enter, push_tail, push_next, push_link, push_help,
  push_swing, push_retry, pop_tail, pop_check_first, pop_check_last, pop_next, pop_help, pop_value,
  pop_swap, pop_retire, aborted, Queue, Thread, inside,
}
use rock_coro.TsLinkedList.System.{System, replay}
use rock_coro.TaggedPtr.{get_ptr}

-- What the node at an address is: not live, taken by a thread for a push, or the one linked as number
-- `i`, from then until it is released.
pub data Role : Type 0 where
  free : Role
  owned node : ℕ → Role

-- The node linked as number `i` is `log i`, with the value `vals i`; the dummy node has number 0.
-- The head is number `front`, the tail `behind`, the last node `last`. Of thread `t`, `since t` is the
-- front when it entered its epoch; `popper i` is the thread that moved the head past number `i`.
pub record Ghost : Type 0 where
  pub log : ℕ → ℕ
  pub vals : ℕ → ℕ
  pub front : ℕ
  pub behind : ℕ
  pub last : ℕ
  pub since : ℕ → ℕ
  pub popper : ℕ → ℕ
  pub role : ℕ → Role

-- The word is the node with number `k`, which thread `t` may read.
abbrev pub At : Ghost → ℕ → ℕ → ℕ → Type 0
At G t w k = (w ≡ G.log k) × (G.since t ≤ k) × (k ≤ G.last)

-- A node that the thread can read, and the next one.
abbrev pub Linked : Ghost → ℕ → ℕ → ℕ → ℕ → Type 0
Linked G t w nx k = At G t w k × At G t nx (suc k)

abbrev pub Mine : Ghost → ℕ → ℕ → Type 0
Mine G t w = G.role (get_ptr w) ≡ owned t

-- A node that is ready to be linked.
abbrev pub Ready : Ghost → Queue → ℕ → ℕ → ℕ → Type 0
Ready G q t w v =
    (G.role (get_ptr w) ≡ owned t) × (q.value (get_ptr w) ≡ v) × (q.next (get_ptr w) ≡ 0)

-- The words that a thread holds at its place.
abbrev pub Fits : Ghost → Queue → ℕ → Pc → Type 0
Fits G q t (push_value w v) = Mine G t w
Fits G q t (push_clear w v) = Mine G t w × (q.value (get_ptr w) ≡ v)
Fits G q t (push_enter w v) = Ready G q t w v
Fits G q t (push_tail w v) = Ready G q t w v
Fits G q t (push_next w l v) = Ready G q t w v × ((k : ℕ) × At G t l k)
Fits G q t (push_link w l nx v) = Ready G q t w v × ((k : ℕ) × At G t l k) × (get_ptr nx ≡ 0)
Fits G q t (push_help w l nx v) = Ready G q t w v × ((k : ℕ) × Linked G t l nx k)
Fits G q t (push_swing w l) = (k : ℕ) × Linked G t l w k
Fits G q t (push_retry w v) = Ready G q t w v
Fits G q t (pop_tail f) = (k : ℕ) × At G t f k × (k ≤ G.front)
Fits G q t (pop_check_first f l) =
    (k : ℕ) × (m : ℕ) × At G t f k × At G t l m × (k ≤ G.front) × (k ≤ m) × (m ≤ G.behind)
Fits G q t (pop_check_last f l) =
    (k : ℕ) × (m : ℕ) × At G t f k × At G t l m × (k ≤ G.front) × (k ≤ m) × (m ≤ G.behind)
Fits G q t (pop_next f l) =
    (k : ℕ) × (m : ℕ) × At G t f k × At G t l m × (k ≤ G.front) × (k ≤ m) × (m ≤ G.behind)
Fits G q t (pop_help l nx) = (k : ℕ) × Linked G t l nx k
Fits G q t (pop_value f nx) = (k : ℕ) × Linked G t f nx k × (suc k ≤ G.behind)
Fits G q t (pop_swap f nx v) =
    (k : ℕ) × Linked G t f nx k × (suc k ≤ G.behind) × (v ≡ G.vals (suc k))
Fits G q t (pop_retire f v) =
    (k : ℕ) × At G t f k × (k < G.front) × (G.popper k ≡ t) × (q.retired (get_ptr f) ≡ none)
Fits G q t aborted = ⊥
Fits G q t _ = Unit {0}

-- What memory has at an address, by its role.
abbrev pub Stored : Ghost → Queue → ℕ → Role → Type 0
Stored G q a free = q.retired a ≡ none
Stored G q a (owned t) = (a ≢ 0) × (q.live a ≡ true) × (q.released a ≡ false) × (q.retired a ≡ none)
Stored G q a (node i) =
    (a ≢ 0)
    × (q.live a ≡ true)
    × (q.released a ≡ false)
    × (a ≡ get_ptr (G.log i))
    × (i ≤ G.last)
    × (q.value a ≡ G.vals i)
    × (i < G.last → q.next a ≡ G.log (suc i))
    × (i ≡ G.last → q.next a ≡ 0)
    × (q.retired a ≢ none → i < G.front)

-- The values of the `n` nodes that follow number `i`.
abbrev pub vals_after : (ℕ → ℕ) → ℕ → ℕ → List ℕ
vals_after vals i zero = []
vals_after vals i (suc n) = vals (suc i) ∷ vals_after vals (suc i) n

-- The memory of the queue.
pub record Memory (G : Ghost) (q : Queue) : Type 0 where
  pub head_at : q.head ≡ G.log G.front
  pub tail_at : q.tail ≡ G.log G.behind
  pub front_behind : G.front ≤ G.behind
  pub behind_last : G.behind ≤ G.last
  pub linked : (i : ℕ) → G.front ≤ i → i ≤ G.last → G.role (get_ptr (G.log i)) ≡ node i
  pub stored : (a : ℕ) → Stored G q a (G.role a)
  pub replayed :
      (n : ℕ) × (n + G.front ≡ G.last) × (replay q.history [] ≡ some (vals_after G.vals G.front n))

-- A thread that is inside an epoch, with what it holds. What it can read is not released, and what
-- has been retired since it entered can not be released.
pub record Local (G : Ghost) (q : Queue) (t : ℕ) (th : Thread) : Type 0 where
  pub entered_by : th.entered ≤ q.clock
  pub since_by : inside th.pc ≡ true → G.since t ≤ G.front
  pub held :
      (i : ℕ)
      → inside th.pc ≡ true
      → G.since t ≤ i
      → i ≤ G.last
      → G.role (get_ptr (G.log i)) ≡ node i
  pub stamped :
      (i : ℕ) (stamp : ℕ)
      → inside th.pc ≡ true
      → G.since t ≤ i
      → i ≤ G.last
      → q.retired (get_ptr (G.log i)) ≡ some stamp
      → th.entered ≤ stamp
  pub fits : Fits G q t th.pc

pub record Inv (G : Ghost) (s : System) : Type 0 where
  pub memory : Memory G s.queue
  pub locals : (t : ℕ) → Local G s.queue t (s.threads t)
  pub others_idle : (t : ℕ) → s.count ≤ t → (s.threads t).pc ≡ idle
