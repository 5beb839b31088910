-- ===== src/TsLinkedList.antt =====
-- src/memory/ts_linked_list.h: the lock-free queue of TSLinkedList, with calls of any threads that
-- interleave. A step is one access of a thread to shared memory, and what it then does by itself.
-- A pointer is a tagged word, null if get_ptr gives 0; memory is by address. Of its two neighbours
-- there is what the queue needs of them: get_node returns a node that is not live, as NodeAllocator
-- does, and a retired node is released when no thread is in an epoch that it entered before.
pub mod System
pub mod Ghost
pub mod Later
pub mod Keep
pub mod Own
pub mod Get
pub mod Ends
pub mod History
pub mod Link
pub mod Unlink
pub mod Retire
pub mod Steps
pub mod Release
pub mod Runs
pub mod Solo
pub mod Progress
pub mod Linearize
pub mod Destroy
mod Tests
use rock_coro.Prelude.{
  ℕ, zero, suc, ◌+◌, ◌^◌, ◌<◌, ◌≢◌, Bool, true, false, not, ◌&&◌, Option, none, some, List, [], ◌∷◌,
  ◌++◌, ◌||◌, ltb, ◌==◌, if◌then◌else◌,
}
use mathlib.Core.Option
use rock_coro.NodeAllocator.{set}
use rock_coro.TaggedPtr.{get_ptr, increment_tag}

-- What a thread is about to do. The words are local variables of the call: `node` or `first`, then
-- `last`, then `next`; a number at the end is the value.
pub data Pc : Type 0 where
  idle : Pc
  -- push_back: get, the two stores to the node, enter_epoch
  push_get : ℕ → Pc
  push_value push_clear push_enter : ℕ → ℕ → Pc
  -- the two loads, and the compare-exchange of next_ or, with `help`, of tail_
  push_tail : ℕ → ℕ → Pc
  push_next : ℕ → ℕ → ℕ → Pc
  push_link push_help : ℕ → ℕ → ℕ → ℕ → Pc
  -- after the link: the compare-exchange of tail_, and exit_epoch before the `break`
  push_swing : ℕ → ℕ → Pc
  push_done : Pc
  -- exit_epoch at the end of a round
  push_retry : ℕ → ℕ → Pc
  -- pop_front: enter_epoch, the loads, the two asserts, the load of next_
  pop_enter pop_head : Pc
  pop_tail : ℕ → Pc
  pop_check_first pop_check_last pop_next : ℕ → ℕ → Pc
  -- the compare-exchange of tail_; the read of value_ and the compare-exchange of head_
  pop_help pop_value : ℕ → ℕ → Pc
  pop_swap : ℕ → ℕ → ℕ → Pc
  -- retire, and exit_epoch before the `return`, or at the end of a round
  pop_retire : ℕ → ℕ → Pc
  pop_exit : Option ℕ → Pc
  pop_retry : Pc
  -- a failed assert
  aborted : Pc

-- The points of a call at which the queue changes, or is seen to be empty.
pub data Op : Type 0 where
  pushed popped : ℕ → Op
  was_empty : Op

-- The queue with the nodes by address. `live` is what get_node gave and release_node did not take.
-- `retired` has for an address that is retired the time of that, and `clock` counts these times.
pub record Queue : Type 0 where
  pub head : ℕ
  pub tail : ℕ
  pub next : ℕ → ℕ
  pub value : ℕ → ℕ
  pub released : ℕ → Bool
  pub live : ℕ → Bool
  pub retired : ℕ → Option ℕ
  pub clock : ℕ
  pub history : List Op

-- A thread, with the clock at its last enter_epoch.
pub record Thread : Type 0 where
  pub pc : Pc
  pub entered : ℕ

-- What a thread does next, where it has a choice: the call that it makes, the node that get returns
-- to it, and whether a weak compare-exchange fails for no reason.
pub data Choice : Type 0 where
  go fail pop : Choice
  push got : ℕ → Choice

-- In its epoch.
abbrev pub inside : Pc → Bool
inside idle = false
inside (push_get v) = false
inside (push_value w v) = false
inside (push_clear w v) = false
inside (push_enter w v) = false
inside pop_enter = false
inside aborted = false
inside _ = true

-- TSLinkedListNodeAllocator::get
pub get_node : ℕ → Queue → Queue
get_node w q = record q {
  live = set q.live (get_ptr w) true;
  released = set q.released (get_ptr w) false;
  next = set q.next (get_ptr w) 0;
}

-- TSLinkedList::init. It is called first where no other thread runs, so it is one step. push_back and
-- pop_front begin with a call of it too, which is no step of `thread_at`.
pub init : ℕ → Queue → Queue
unfolding get_node
init dummy q =
    if get_ptr q.head == 0 then record (get_node dummy q) { head = dummy; tail = dummy } else q

-- EpochBasedReclamation::retire; a node that is retired twice counts as a failed assert.
pub retire : ℕ → Option ℕ → ℕ → Queue → Thread → Queue × Thread
retire first (some old) v q t = (q, record t { pc = aborted })
retire first none v q t = (
  record q { retired = set q.retired (get_ptr first) (some q.clock); clock = q.clock + 1 },
  record t { pc = pop_exit (some v) },
)

-- What a thread goes on to, by a test.
abbrev pub pick : Bool → Pc → Pc → Pc
pick true a b = a
pick false a b = b

-- After a load of next_ in push_back.
abbrev pub push_branch : ℕ → ℕ → ℕ → ℕ → Pc
push_branch w last next v =
    pick (get_ptr next == 0) (push_link w last next v) (push_help w last next v)

-- After the load of next_ in pop_front.
abbrev pub pop_branch : ℕ → ℕ → ℕ → Pc
pop_branch first last next =
    pick (get_ptr first == get_ptr last)
      (pick (get_ptr next == 0) (pop_exit none) (pop_help last next))
      (pick (get_ptr next == 0) pop_retry (pop_value first next))

-- The load of next_ in pop_front; a null is the point at which the queue is seen to be empty.
abbrev pub seen : Pc → List Op
seen (pop_exit none) = was_empty ∷ []
seen _ = []

-- The compare-exchange of tail_.
pub swing : Bool → ℕ → ℕ → Queue → Queue
swing true last next q = if q.tail == last then record q { tail = next } else q
swing false last next q = q

-- The compare-exchange of next_ of the last node, with the assert after it.
pub link : Bool → ℕ → ℕ → ℕ → Queue → Thread → Queue × Thread
link true w last v q t = (
  record q { next = set q.next (get_ptr last) w; history = q.history ++ (pushed v ∷ []) },
  record t { pc = pick (get_ptr last == get_ptr w) aborted (push_swing w last) },
)
link false w last v q t = (q, record t { pc = push_retry w v })

-- The compare-exchange of head_, with the assert after it.
pub unlink : Bool → ℕ → ℕ → ℕ → Queue → Thread → Queue × Thread
unlink true first next v q t = (
  record q { head = next; history = q.history ++ (popped v ∷ []) },
  record t { pc = pick (get_ptr first == get_ptr next) aborted (pop_retire first v) },
)
unlink false first next v q t = (q, record t { pc = pop_retry })

-- A weak compare-exchange that is not to fail for no reason.
abbrev pub works : Choice → Bool
works fail = false
works _ = true

abbrev pub can_get : ℕ → Queue → Bool
can_get w q = not (q.live (get_ptr w)) && not (get_ptr w == 0) && ltb w (2 ^ 64)

-- get and increment_tag
pub take_node : Bool → ℕ → ℕ → Queue → Thread → Queue × Thread
unfolding get_node
take_node true w v q t = (get_node w q, record t { pc = push_value (increment_tag w) v })
take_node false w v q t = (q, t)

pub enter : Pc → Queue → Thread → Queue × Thread
enter pc q t = (q, record t { pc = pc; entered = q.clock })

abbrev pub goto : Pc → Queue → Thread → Queue × Thread
goto pc q t = (q, record t { pc = pc })

pub thread_at : Pc → Choice → Queue → Thread → Queue × Thread
unfolding swing link unlink retire take_node enter
thread_at idle (push v) q t = goto (push_get v) q t
thread_at idle pop q t = goto pop_enter q t
thread_at idle c q t = (q, t)
thread_at (push_get v) (got w) q t = take_node (can_get w q) w v q t
thread_at (push_get v) c q t = (q, t)
thread_at (push_value w v) c q t =
    goto (push_clear w v) (record q { value = set q.value (get_ptr w) v }) t
thread_at (push_clear w v) c q t =
    goto (push_enter w v) (record q { next = set q.next (get_ptr w) 0 }) t
thread_at (push_enter w v) c q t = enter (push_tail w v) q t
thread_at (push_tail w v) c q t = goto (push_next w q.tail v) q t
thread_at (push_next w last v) c q t = goto (push_branch w last (q.next (get_ptr last)) v) q t
thread_at (push_link w last next v) c q t =
    link (works c && (q.next (get_ptr last) == next)) w last v q t
thread_at (push_help w last next v) c q t = goto (push_retry w v) (swing (works c) last next q) t
thread_at (push_swing w last) c q t = goto push_done (swing (works c) last w q) t
thread_at push_done c q t = goto idle q t
thread_at (push_retry w v) c q t = goto (push_enter w v) q t
thread_at pop_enter c q t = enter pop_head q t
thread_at pop_head c q t = goto (pop_tail q.head) q t
thread_at (pop_tail first) c q t = goto (pop_check_first first q.tail) q t
thread_at (pop_check_first first last) c q t =
    goto (pick (q.released (get_ptr first)) aborted (pop_check_last first last)) q t
thread_at (pop_check_last first last) c q t =
    goto (pick (q.released (get_ptr last)) aborted (pop_next first last)) q t
thread_at (pop_next first last) c q t =
    let pc = pop_branch first last (q.next (get_ptr first)) in
    goto pc (record q { history = q.history ++ seen pc }) t
thread_at (pop_help last next) c q t = goto pop_retry (swing (works c) last next q) t
thread_at (pop_value first next) c q t = goto (pop_swap first next (q.value (get_ptr next))) q t
thread_at (pop_swap first next v) c q t = unlink (q.head == first) first next v q t
thread_at (pop_retire first v) c q t = retire first (q.retired (get_ptr first)) v q t
thread_at (pop_exit r) c q t = goto idle q t
thread_at pop_retry c q t = goto pop_enter q t
thread_at aborted c q t = (q, t)

-- The loop of destroy from the node `cur` on, with fuel; `none` is also a node retired twice.
pub retire_from : ℕ → ℕ → Queue → Option Queue
retire_from zero cur q = none
retire_from (suc fuel) cur q =
    let rest =
      retire_from fuel (q.next (get_ptr cur))
        (record q { retired = set q.retired (get_ptr cur) (some q.clock); clock = q.clock + 1 }) in
    if get_ptr cur == 0
    then some q
    else (elim (q.retired (get_ptr cur)) [ none ↦ rest | some old ↦ none ])

-- TSLinkedList::destroy, which one thread calls when the others have ended.
pub destroy : ℕ → Queue → Option Queue
unfolding retire_from
destroy fuel q =
    if get_ptr q.head == 0
    then some q
    else Option.map (λ (q' : Queue). record q' { head = 0; tail = 0 }) (retire_from fuel q.head q)
