-- ===== src/BasicStruct/LinkedList/Tests.antt =====
-- A list of the nodes 3 and 5, to which node 8 comes.
use rock_coro.Prelude.{◌≡◌, refl, [], ◌∷◌, arith, inl, inr}
use rock_coro.BasicStruct.LinkedList.{LinkedList, new, push_back, push_front, pop_front}
use rock_coro.BasicStruct.LinkedList.Refine.{
  Represents, Popped, new-Represents, push_back-Represents, operations_keep_list,
}

abbrev two_nodes : LinkedList
two_nodes = push_back (push_back (new (λ n. 7)) 3) 5

two_nodes-Represents : Represents two_nodes (3 ∷ 5 ∷ [])
two_nodes-Represents =
    push_back-Represents (push_back (new (λ n. 7)) 3) (3 ∷ []) 5 (omega arith)
      (λ m. elim m [ inl e ↦ omega arith | inr f ↦ f ])
      (push_back-Represents (new (λ n. 7)) [] 3 (omega arith) (λ m. m) (new-Represents (λ n. 7)))

operations_keep_list_example :
    Represents (push_back two_nodes 8) (3 ∷ 5 ∷ 8 ∷ [])
    × Represents (push_front two_nodes 8) (8 ∷ 3 ∷ 5 ∷ [])
    × Popped two_nodes (3 ∷ 5 ∷ [])
operations_keep_list_example =
    operations_keep_list two_nodes (3 ∷ 5 ∷ []) 8 (omega arith)
      (λ m. elim m [ inl e ↦ omega arith | inr m' ↦ elim m' [ inl e ↦ omega arith | inr f ↦ f ] ])
      two_nodes-Represents

front_node : (pop_front (push_front two_nodes 8)).1 ≡ 8
unfolding pop_front push_front push_back new
front_node = refl
