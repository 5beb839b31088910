-- ===== src/EpochBasedReclamation/Tests.antt =====
-- Two threads: one retires a node, and the other is in an epoch when the node is released.
use rock_coro.Prelude.{
  ℕ, ◌+◌, ◌≤◌, ◌<◌, ◌≡◌, ◌≢◌, refl, List, [], ◌∷◌, ◌++◌, arith, In, ◌⊎◌, inl, true,
}
use rock_coro.EpochBasedReclamation.{
  RetireRecord, aborted, failed, go, enter, exit, retire, Event, act, register, maintain, new,
  run_events, destroy,
}
use rock_coro.EpochBasedReclamation.Runs.{epochs_are_protected, no_assert_fails}
use rock_coro.EpochBasedReclamation.Safety.{Stays, no_early_release}
use rock_coro.EpochBasedReclamation.Effects.{count}
use rock_coro.EpochBasedReclamation.Conservation.{retired, listed, all_retired_are_released}

-- The first call of `enter_epoch` by thread `i`.
abbrev enter_first : ℕ → List Event
enter_first i = register ∷ act i go ∷ act i go ∷ act i go ∷ []

-- A later one of thread 0.
abbrev enter_again : List Event
enter_again = act 0 enter ∷ act 0 go ∷ act 0 go ∷ act 0 go ∷ []

abbrev retire_node : List Event
retire_node = act 0 (retire 7) ∷ act 0 go ∷ act 0 go ∷ []

-- Thread 0 exits, and goes through its list.
abbrev leave : List Event
leave = act 0 exit ∷ act 0 go ∷ act 0 go ∷ act 0 go ∷ act 0 go ∷ act 0 go ∷ []

-- The maintainer advances the epoch twice, over one thread.
abbrev advance_twice : List Event
advance_twice =
    maintain ∷ maintain ∷ maintain ∷ maintain ∷ maintain ∷ maintain ∷ maintain ∷ maintain ∷ maintain
    ∷ maintain ∷ maintain ∷ maintain ∷ maintain ∷ maintain ∷ []

abbrev node : RetireRecord
node = record { ptr = 7; retire_epoch = 1 }

-- The node is retired in epoch 1, and thread 1 enters epoch 3.
abbrev earlier : List Event
earlier = enter_first 0 ++ (retire_node ++ (leave ++ (advance_twice ++ enter_first 1)))

abbrev later : List Event
later = enter_again ++ leave

released_now : (run_events later (run_events earlier new)).released ≡ node ∷ []
unfolding run_events new
released_now = refl

count_earlier : (run_events earlier new).count ≡ 2
unfolding run_events new
count_earlier = refl

count_later : (run_events later (run_events earlier new)).count ≡ 2
unfolding run_events new
count_later = refl

thread-Stays : Stays 1 later (run_events earlier new)
unfolding run_events new
thread-Stays = (refl, (refl, (refl, (refl, (refl, (refl, (refl, (refl, (refl, (refl, refl))))))))))

node_released : In node (run_events later (run_events earlier new)).released
node_released = rw released_now (inl refl)

no_early_release_example :
    In node (run_events earlier new).released
    ⊎ ((i : ℕ) × In node ((run_events earlier new).threads i).retire_list)
no_early_release_example =
    no_early_release earlier later 1 node (omega (arith, count_later)) thread-Stays node_released

thread_active : ((run_events earlier new).threads 1).status.active ≡ true
unfolding run_events new
thread_active = refl

epochs_are_protected_example :
    ((run_events earlier new).gc_epoch < ((run_events earlier new).threads 1).status.epoch)
    × (((run_events earlier new).threads 1).status.epoch ≤ (run_events earlier new).global_epoch)
epochs_are_protected_example =
    epochs_are_protected earlier 1 (omega (arith, count_earlier)) thread_active

no_assert_fails_example :
    (((run_events earlier new).threads 0).pc ≢ aborted)
    × ((run_events earlier new).maintainer ≢ failed)
no_assert_fails_example = no_assert_fails earlier 0 (omega (arith, count_earlier))

all_retired_are_released_example :
    (count node (run_events earlier new).released
        + listed node (run_events earlier new).count (run_events earlier new).threads
      ≡ count node (retired earlier new))
    × (count node (destroy (run_events earlier new)).released ≡ count node (retired earlier new))
    × (((destroy (run_events earlier new)).threads 0).retire_list ≡ [])
all_retired_are_released_example =
    all_retired_are_released earlier node 0 (omega (arith, count_earlier))
