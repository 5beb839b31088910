-- ===== src/BasicStruct/ObjectPool.antt =====
-- src/basic_struct/object_pool.h: objects in blocks of `K`, and the list of the free ones.
-- `K` is count_per_block. The block made as number `i` is the one that `blocks_[i]` points to.
pub mod Balance
pub mod Uses
mod Tests
use rock_coro.Prelude.{ℕ, zero, suc, ◌+◌, ◌-◌, ◌*◌, ◌/◌, Option, none, some, List, [], ◌∷◌, ◌++◌}

-- `&blocks_[block]->data[index]`
pub record Object : Type 0 where
  pub block : ℕ
  pub index : ℕ

-- `block_count` is the size of `blocks_`.
pub record ObjectPool : Type 0 where
  pub block_count : ℕ
  pub free_list : List Object

-- The loop that puts the objects `j` and up of a block on the list, for the rounds left.
pub push_objects : ℕ → ℕ → ℕ → List Object → List Object
push_objects zero block j free = free
push_objects (suc rounds) block j free =
    push_objects rounds block (j + 1) (free ++ (record { block = block; index = j } ∷ []))

pub grow : ℕ → ObjectPool → ObjectPool
unfolding push_objects
grow K p = record {
  block_count = p.block_count + 1;
  free_list = push_objects K p.block_count 0 p.free_list;
}

-- The loop of the constructor, for the rounds left.
pub make_blocks : ℕ → ℕ → ℕ → List Object → List Object
unfolding push_objects
make_blocks K zero i free = free
make_blocks K (suc rounds) i free = make_blocks K rounds (i + 1) (push_objects K i 0 free)

unfoldable pub new : ℕ → ℕ → ObjectPool
unfolding make_blocks
new K capacity_ =
    let num_blocks_needed = (capacity_ + K - 1) / K in
    record { block_count = num_blocks_needed; free_list = make_blocks K num_blocks_needed 0 [] }

-- `back` and `pop_back` of a `std::vector`; `none` is a call on an empty one.
abbrev pub take_back : List Object → Option (List Object × Object)
take_back [] = none
take_back (x ∷ []) = some ([], x)
take_back (x ∷ y ∷ xs) = elim (take_back (y ∷ xs)) [ none ↦ none | some (ys, z) ↦ some (x ∷ ys, z) ]

abbrev pub taken : ObjectPool → Option (List Object × Object) → Option (ObjectPool × Object)
taken p none = none
taken p (some (free, x)) = some (record p { free_list = free }, x)

abbrev pub grown_if_empty : ℕ → ObjectPool → List Object → ObjectPool
grown_if_empty K p [] = grow K p
grown_if_empty K p (x ∷ xs) = p

unfoldable pub acquire : ℕ → ObjectPool → Option (ObjectPool × Object)
unfolding grow
acquire K p = let p' = grown_if_empty K p p.free_list in taken p' (take_back p'.free_list)

pub release : ObjectPool → Object → ObjectPool
release p x = record p { free_list = p.free_list ++ (x ∷ []) }

pub capacity : ℕ → ObjectPool → ℕ
capacity K p = p.block_count * K
