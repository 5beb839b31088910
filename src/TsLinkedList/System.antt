-- ===== src/TsLinkedList/System.antt =====
-- The threads of a program on one queue, the releases of the epochs, and the queue of values that all
-- of it stands for.
use rock_coro.Prelude.{
  ℕ, zero, suc, Bool, true, false, not, ◌&&◌, Option, none, some, List, [], ◌∷◌, ◌++◌, ◌||◌, ltb,
  ◌==◌, if◌then◌else◌,
}
use rock_coro.NodeAllocator.{set}
use rock_coro.TaggedPtr.{get_ptr}
use rock_coro.TsLinkedList.{
  idle, Op, pushed, popped, was_empty, Queue, Thread, Choice, inside, init, thread_at,
}

pub record System : Type 0 where
  pub queue : Queue
  pub threads : ℕ → Thread
  pub count : ℕ

-- No thread below `n` is in an epoch that it entered at the time `stamp` or before.
unfoldable pub all_later : ℕ → (ℕ → Thread) → ℕ → Bool
all_later zero ths stamp = true
all_later (suc n) ths stamp =
    (not (inside (ths n).pc) || ltb stamp (ths n).entered) && all_later n ths stamp

-- TSLinkedListNodeAllocator::release. From then on next_ is the allocator's, with any `other` word.
unfoldable pub release_node : Bool → ℕ → ℕ → Queue → Queue
release_node true a other q = record q {
  live = set q.live a false;
  released = set q.released a true;
  retired = set q.retired a none;
  next = set q.next a other;
}
release_node false a other q = q

unfoldable pub can_release : Option ℕ → System → Bool
unfolding all_later
can_release none s = false
can_release (some stamp) s = all_later s.count s.threads stamp

pub data Event : Type 0 where
  act : ℕ → Choice → Event
  -- the epochs release the node at an address
  release : ℕ → ℕ → Event

unfoldable pub act_step : ℕ → Choice → System → System
unfolding thread_at
act_step i c s =
    let (q, t) = thread_at (s.threads i).pc c s.queue (s.threads i) in
    if ltb i s.count then record s { queue = q; threads = set s.threads i t } else s

unfoldable pub queue_step : Event → System → System
unfolding act_step release_node can_release
queue_step (act i c) s = act_step i c s
queue_step (release a other) s = record s {
  queue = release_node (can_release (s.queue.retired a) s) a other s.queue;
}

abbrev pub empty_queue : Queue
empty_queue = record {
  head = 0;
  tail = 0;
  next = λ a. 0;
  value = λ a. 0;
  released = λ a. false;
  live = λ a. false;
  retired = λ a. none;
  clock = 0;
  history = [];
}

-- `count` threads, none of them in a call, after init with the node that get returned to it.
unfoldable pub start : ℕ → ℕ → System
unfolding init
start count dummy = record {
  queue = init dummy empty_queue;
  threads = λ i. record { pc = idle; entered = 0 };
  count = count;
}

unfoldable pub run_events : List Event → System → System
unfolding queue_step
run_events [] s = s
run_events (e ∷ es) s = run_events es (queue_step e s)

-- The values that are in the queue, read from the node after `w` on, with fuel.
unfoldable pub values_from : ℕ → ℕ → Queue → List ℕ
values_from zero w q = []
values_from (suc fuel) w q =
    let n = q.next (get_ptr w) in
    let rest = values_from fuel n q in if get_ptr n == 0 then [] else q.value (get_ptr n) ∷ rest

-- The unbounded queue of values that TSLinkedList implements.
unfoldable pub replay : List Op → List ℕ → Option (List ℕ)
replay [] xs = some xs
replay (pushed v ∷ ops) xs = replay ops (xs ++ (v ∷ []))
replay (popped v ∷ ops) [] = none
replay (popped v ∷ ops) (x ∷ xs) = let rest = replay ops xs in if x == v then rest else none
replay (was_empty ∷ ops) [] = replay ops []
replay (was_empty ∷ ops) (x ∷ xs) = none
