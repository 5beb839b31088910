-- ===== src/BasicStruct/Queue/Tests.antt =====
-- Runs of the segmented queue, with three segments of two items.
use rock_coro.Prelude.{ℕ, ◌*◌, ◌≡◌, refl, none, some, List, [], ◌∷◌, arith}
use rock_coro.Prelude.Refinement.{run}
use rock_coro.BasicStruct.Queue.{new, push, pop}
use rock_coro.BasicStruct.Queue.Run.{
  Op, enqueue, dequeue, done, item, step, bounded_step, queue_refines_bounded,
}

abbrev calls : List (Op ℕ)
calls =
    dequeue
    ∷ enqueue 1
    ∷ enqueue 2
    ∷ dequeue
    ∷ enqueue 3
    ∷ enqueue 4
    ∷ enqueue 5
    ∷ enqueue 6
    ∷ enqueue 7
    ∷ dequeue
    ∷ []

replies :
    run (step 2 3 0) new calls
    ≡ some (item none)
      ∷ some done
      ∷ some done
      ∷ some (item (some 1))
      ∷ some done
      ∷ some done
      ∷ some done
      ∷ some done
      ∷ none
      ∷ []
unfolding run push pop new
replies = refl

queue_refines_bounded_example : run (step 2 3 0) new calls ≡ run (bounded_step (2 * 3)) [] calls
queue_refines_bounded_example = queue_refines_bounded 2 3 0 calls (omega arith)
