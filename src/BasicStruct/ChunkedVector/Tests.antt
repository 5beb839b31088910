-- ===== src/BasicStruct/ChunkedVector/Tests.antt =====
-- Runs of the chunked vector on small inputs, with blocks of two elements.
use rock_coro.Prelude.{ℕ, ◌≡◌, refl, some, List, [], ◌∷◌, arith}
use rock_coro.BasicStruct.ChunkedVector.{ChunkedVector, new, push_back}
use rock_coro.BasicStruct.ChunkedVector.Refine.{Represents, new-Represents, push_back-Represents}
use rock_coro.BasicStruct.ChunkedVector.Run.{
  Op, push, pop, read, checked_read, first, last, fit, wipe, count, is_empty,
}
use rock_coro.BasicStruct.ChunkedVector.Iterator.{begin, end, visit, begin_to_end}

abbrev calls : List (Op ℕ)
calls =
    push 1
    ∷ push 2
    ∷ push 3
    ∷ fit 6 9
    ∷ last
    ∷ fit 3 0
    ∷ pop
    ∷ read 1
    ∷ checked_read 2
    ∷ is_empty
    ∷ wipe
    ∷ pop
    ∷ count
    ∷ first
    ∷ []

abbrev three : ChunkedVector ℕ
three = push_back 2 (push_back 2 (push_back 2 new 1) 2) 3

three-Represents : Represents 2 three (1 ∷ 2 ∷ 3 ∷ [])
three-Represents =
    push_back-Represents 2 (push_back 2 (push_back 2 new 1) 2) (1 ∷ 2 ∷ []) 3 (omega arith) (
      push_back-Represents 2 (push_back 2 new 1) (1 ∷ []) 2 (omega arith)
        (push_back-Represents 2 new [] 1 (omega arith) (new-Represents 2)))

three_size : three.total_size ≡ 3
unfolding push_back new
three_size = refl

begin_to_end_example : visit 2 4 three (begin 64) (end 64 three) ≡ some (1 ∷ 2 ∷ 3 ∷ [])
begin_to_end_example =
    begin_to_end 2 64 three (1 ∷ 2 ∷ 3 ∷ []) (omega arith) three-Represents
      (omega (arith, three_size))
