-- ===== src/TsLinkedList/Tests.antt =====
-- Runs of the queue, and its theorems at concrete schedules.
use rock_coro.Prelude.{ℕ, ◌≡◌, ◌≢◌, refl, some, List, [], ◌∷◌, ◌++◌, arith, AllOf}
use rock_coro.TsLinkedList.{
  idle, aborted, pushed, popped, was_empty, Queue, go, pop, push, got, init, destroy,
}
use rock_coro.TsLinkedList.System.{Event, act, release, start, run_events, values_from, replay}
use rock_coro.TsLinkedList.Runs.{accesses, IsUsable, no_use_after_release}
use rock_coro.TsLinkedList.Linearize.{queue_is_linearizable}
use rock_coro.TsLinkedList.Progress.{alone, call_ends_alone}
use rock_coro.TsLinkedList.Destroy.{nodes_from, IsRetiredNow, destroy_retires_queue}
use rock_coro.TaggedPtr.{get_ptr, increment_tag}

-- The dummy node.
abbrev dummy : ℕ
dummy = 4096

dummy_nonnull : get_ptr dummy ≢ 0
unfolding get_ptr
dummy_nonnull = omega arith

-- Thread 0 pushes 7 in a node at 8192, and has not moved the tail yet.
abbrev pushing : List Event
pushing =
    act 0 (push 7)
    ∷ act 0 (got 8192)
    ∷ act 0 go
    ∷ act 0 go
    ∷ act 0 go
    ∷ act 0 go
    ∷ act 0 go
    ∷ act 0 go
    ∷ []

-- Thread 1 meets the tail behind, moves it and begins again, up to the read of the value.
abbrev popping : List Event
popping =
    act 1 pop
    ∷ act 1 go
    ∷ act 1 go
    ∷ act 1 go
    ∷ act 1 go
    ∷ act 1 go
    ∷ act 1 go
    ∷ act 1 go
    ∷ act 1 go
    ∷ act 1 go
    ∷ act 1 go
    ∷ act 1 go
    ∷ act 1 go
    ∷ act 1 go
    ∷ act 1 go
    ∷ []

-- It takes the value, retires the old dummy and returns, and the dummy is released.
abbrev taking : List Event
taking =
    act 1 go
    ∷ act 1 go
    ∷ act 1 go
    ∷ act 1 go
    ∷ act 0 go
    ∷ act 0 go
    ∷ release 4096 0
    ∷ act 1 pop
    ∷ act 1 go
    ∷ act 1 go
    ∷ act 1 go
    ∷ act 1 go
    ∷ act 1 go
    ∷ act 1 go
    ∷ []

pushed_alone : (run_events pushing (start 2 dummy)).queue.history ≡ pushed 7 ∷ []
unfolding run_events start get_ptr increment_tag
pushed_alone = refl

value_taken :
    (run_events (pushing ++ (popping ++ taking)) (start 2 dummy)).queue.history
    ≡ pushed 7 ∷ popped 7 ∷ was_empty ∷ []
unfolding run_events start get_ptr increment_tag
value_taken = refl

old_dummy_released :
    (run_events (pushing ++ (popping ++ taking)) (start 2 dummy)).queue.live 4096
    ≡ (start 2 dummy).queue.live 0
unfolding run_events start get_ptr increment_tag
old_dummy_released = refl

no_use_after_release_example :
    let s = run_events (pushing ++ popping) (start 2 dummy) in
    AllOf (IsUsable s.queue) (accesses (s.threads 1).pc)
    × ((s.threads 1).pc ≢ aborted)
    × (init 8192 s.queue ≡ s.queue)
no_use_after_release_example =
    no_use_after_release 2 dummy (pushing ++ popping) 1 8192 dummy_nonnull

queue_is_linearizable_example :
    let q = (run_events pushing (start 2 dummy)).queue in
    replay q.history [] ≡ some (values_from 1 q.head q)
unfolding run_events start get_ptr increment_tag
queue_is_linearizable_example = queue_is_linearizable 2 dummy pushing 1 dummy_nonnull (omega arith)

destroy_retires_queue_example :
    let q = (run_events pushing (start 2 dummy)).queue in
    (q' : Queue) × (destroy 3 q ≡ some q')
    × (q'.head ≡ 0)
    × (q'.tail ≡ 0)
    × AllOf (IsRetiredNow q q') (nodes_from 3 q.head q)
unfolding run_events start get_ptr increment_tag
destroy_retires_queue_example = destroy_retires_queue 2 dummy pushing 3 dummy_nonnull (omega arith)

call_ends_alone_example :
    let s = run_events (pushing ++ popping) (start 2 dummy) in
    (k : ℕ) × (((run_events (alone k 1) s).threads 1).pc ≡ idle)
unfolding run_events start get_ptr increment_tag
call_ends_alone_example =
    call_ends_alone 2 dummy (pushing ++ popping) 1 dummy_nonnull (omega arith) refl
