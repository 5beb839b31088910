-- ===== src/BasicStruct/Deque/Tests.antt =====
-- Runs of the deque.
use rock_coro.Prelude.{ℕ, ◌≡◌, refl, List, [], ◌∷◌, some}
use rock_coro.Prelude.Refinement.{run}
use rock_coro.BasicStruct.Deque.{new, push_back, pop_front, front}
use rock_coro.BasicStruct.Deque.Refine.{
  Op, push, pop, first, count, done, value, number, step, queue_step, deque_refines_queue,
}

abbrev queue_calls : List (Op ℕ)
queue_calls = push 1 ∷ pop ∷ push 2 ∷ push 3 ∷ push 4 ∷ first ∷ count ∷ pop ∷ first ∷ []

deque_replies :
    run step (new 2) queue_calls
    ≡ some done
      ∷ some done
      ∷ some done
      ∷ some done
      ∷ some done
      ∷ some (value 2)
      ∷ some (number 3)
      ∷ some done
      ∷ some (value 3)
      ∷ []
unfolding run push_back pop_front front new
deque_replies = refl

deque_refines_queue_example : run step (new 2) queue_calls ≡ run queue_step [] queue_calls
deque_refines_queue_example = deque_refines_queue 2 queue_calls
