-- ===== src/BasicStruct/ChunkedVector.antt =====
-- src/basic_struct/chunked_vector.h: a vector of blocks of `B` elements.
-- `std::vector` is a list; `none` is a failed `assert` or an access outside one. Sizes stay far below
-- 2 ^ 64.
pub mod Blocks
pub mod Shrink
pub mod Fill
pub mod Grow
pub mod Refine
pub mod Run
pub mod Iterator
mod Tests
use rock_coro.Prelude.{
  ℕ, zero, suc, ◌+◌, ◌-◌, ◌*◌, ◌/◌, ◌%◌, Bool, true, false, ◌||◌, Option, none, some, List, [], ◌∷◌,
  ◌++◌, ltb, leb, ◌==◌, if◌then◌else◌, length, get_elem?, take, replicate, min,
}

pub record ChunkedVector (A : Type 0) : Type 0 where
  pub blocks : List (List A)
  pub total_size : ℕ

abbrev pub get_block_and_offset : ℕ → ℕ → ℕ × ℕ
get_block_and_offset B i = (i / B, i % B)

-- The test after which `ensure_back_block` adds a block.
abbrev pub needs_block : ℕ → Option ℕ → Bool
needs_block B none = true
needs_block B (some n) = n == B

-- The number of blocks for `n` elements.
abbrev pub blocks_for : ℕ → ℕ → ℕ
blocks_for B n = (n + B - 1) / B

-- `pop_back` of a `std::vector`
abbrev pub without_last : {E : Type 0} → List E → List E
without_last [] = []
without_last (x ∷ []) = []
without_last (x ∷ y ∷ xs) = x ∷ without_last (y ∷ xs)

module _ {A : Type 0} where
  -- `v[i]` of a `std::vector` of vectors, and of the vector found there
  abbrev pub get_in : Option (List A) → ℕ → Option A
  get_in none o = none
  get_in (some b) o = get_elem? b o

  -- `blocks_.back()` replaced by its image; with no block nothing happens.
  abbrev pub modify_back : (List A → List A) → List (List A) → List (List A)
  modify_back f [] = []
  modify_back f (b ∷ []) = f b ∷ []
  modify_back f (b ∷ c ∷ bs) = b ∷ modify_back f (c ∷ bs)

  -- `blocks_[i]` replaced by its image.
  abbrev pub modify_at : ℕ → (List A → List A) → List (List A) → List (List A)
  modify_at i f [] = []
  modify_at zero f (b ∷ bs) = f b ∷ bs
  modify_at (suc i) f (b ∷ bs) = b ∷ modify_at i f bs

  -- `resize(n, value)` of a `std::vector`
  abbrev pub resize_block : ℕ → A → List A → List A
  resize_block n x b = take n b ++ replicate (n - length b) x

  -- The length of the last block, and none with no block.
  abbrev pub back_length : List (List A) → Option ℕ
  back_length [] = none
  back_length (b ∷ []) = some (length b)
  back_length (b ∷ c ∷ bs) = back_length (c ∷ bs)

  pub new : ChunkedVector A
  new = record { blocks = []; total_size = 0 }

  pub empty : ChunkedVector A → Bool
  empty v = v.total_size == 0

  pub block_count : ChunkedVector A → ℕ
  block_count v = length v.blocks

  -- If the last block became empty it is dropped.
  abbrev pub drop_empty : Option ℕ → List (List A) → List (List A)
  drop_empty none bs = bs
  drop_empty (some zero) bs = without_last bs
  drop_empty (some (suc n)) bs = bs

  pub pop_back : ChunkedVector A → ChunkedVector A
  unfolding empty
  pop_back v =
      let bs = modify_back without_last v.blocks in
      if empty v
      then v
      else record { blocks = drop_empty (back_length bs) bs; total_size = v.total_size - 1 }

  pub clear : ChunkedVector A → ChunkedVector A
  clear v = record { blocks = []; total_size = 0 }

  module _ (B : ℕ) where
    -- `blocks_[b][o]`
    pub access : ChunkedVector A → ℕ → Option A
    access v i = let (b, o) = get_block_and_offset B i in get_in (get_elem? v.blocks b) o

    -- `operator[]`
    pub index : ChunkedVector A → ℕ → Option A
    unfolding access
    index v i = if ltb i v.total_size then access v i else none

    -- `at`; here `none` is the exception.
    pub at : ChunkedVector A → ℕ → Option A
    unfolding index
    at v i = if leb v.total_size i then none else index v i

    pub front : ChunkedVector A → Option A
    unfolding index
    front v = index v 0

    -- At size 0 the index wraps to the top of `size_t`, which fails the assertion.
    pub back : ChunkedVector A → Option A
    unfolding index
    back v = if v.total_size == 0 then none else index v (v.total_size - 1)

    pub ensure_back_block : List (List A) → List (List A)
    ensure_back_block bs = if needs_block B (back_length bs) then bs ++ ([] ∷ []) else bs

    -- Both overloads of `push_back`, and `emplace_back`.
    pub push_back : ChunkedVector A → A → ChunkedVector A
    unfolding ensure_back_block
    push_back v x = record {
      blocks = modify_back (λ b. b ++ (x ∷ [])) (ensure_back_block v.blocks);
      total_size = v.total_size + 1;
    }

    -- The part of `resize` for a smaller size, with the default value `T()`.
    pub shrink : ℕ → A → List (List A) → List (List A)
    shrink n d bs =
        let bs' = modify_at (n / B) (resize_block (n % B) d) bs in
        if ltb (blocks_for B n) (length bs') then take (blocks_for B n) bs' else bs'

    -- The loop that fills whole blocks, on fuel, and the last block after it.
    pub fill_blocks : ℕ → ℕ → ℕ → A → List (List A) → List (List A)
    fill_blocks zero old n x bs = bs
    fill_blocks (suc fuel) old n x bs =
        let rest = fill_blocks fuel (old + B) n x (modify_at (old / B) (resize_block B x) bs) in
        if leb (old + B) n
        then rest
        else if ltb old n
        then modify_at (old / B) (resize_block (n % B) x) bs
        else bs

    abbrev pub enough_blocks : ℕ → List (List A) → List (List A)
    enough_blocks n bs = bs ++ replicate (blocks_for B n - length bs) []

    -- The part of `resize` for a larger size.
    pub grow : ℕ → ℕ → A → List (List A) → List (List A)
    unfolding fill_blocks
    grow old n x bs =
        let bs' = enough_blocks n bs in
        let fill = min (B - old % B) (n - old) in
        let filled =
          fill_blocks n (old + fill) n x
            (modify_at (old / B) (resize_block (old % B + fill) x) bs') in
        let unfilled = fill_blocks n old n x bs' in
        if ltb (old / B) (length bs') then filled else unfilled

    pub resize : A → ℕ → A → ChunkedVector A → ChunkedVector A
    unfolding shrink grow
    resize d n x v =
        if n == v.total_size
        then v
        else if ltb n v.total_size
        then record { blocks = shrink n d v.blocks; total_size = n }
        else record { blocks = grow v.total_size n x v.blocks; total_size = n }
