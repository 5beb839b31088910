-- ===== src/BasicStruct/Tests.antt =====
-- Runs of the containers, and their theorems at concrete calls.
use rock_coro.Prelude.{ℕ, ◌≡◌, List, [], ◌∷◌}
use rock_coro.Prelude.Refinement.{run}
use rock_coro.BasicStruct.Sequence
use rock_coro.BasicStruct.Sequence.{list_step}
use rock_coro.BasicStruct.Vector
use rock_coro.BasicStruct.Vector.Run.{step, vector_refines_list}
use rock_coro.BasicStruct.Array
use rock_coro.BasicStruct.Array.Refine.{step as array_step}

abbrev calls : List (Sequence.Op ℕ)
calls =
    Sequence.push 7
    ∷ Sequence.push 8
    ∷ Sequence.at 1
    ∷ Sequence.pop
    ∷ Sequence.emplace 9
    ∷ Sequence.pop
    ∷ Sequence.count
    ∷ Sequence.pop
    ∷ Sequence.pop
    ∷ []

vector_refines_list_example : run step (Vector.new 1) calls ≡ run list_step [] calls
vector_refines_list_example = vector_refines_list 1 calls
