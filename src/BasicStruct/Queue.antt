-- ===== src/BasicStruct/Queue.antt =====
-- src/basic_struct/queue.h: the ring of segments that are made on demand.
-- `S` is SEG_SIZE and `C` is SEG_COUNT. An outer `none` is a failed `assert` or a null segment.
pub mod Indices
pub mod Refine
pub mod Run
mod Tests
use rock_coro.Prelude.{
  ℕ, zero, suc, ◌+◌, ◌*◌, ◌/◌, ◌%◌, Option, none, some, leb, ◌==◌, if◌then◌else◌,
}

-- `data[i]` is `none` where it is null, and else the segment's buffer.
pub record Queue (A : Type 0) : Type 0 where
  pub data_ : ℕ → Option (ℕ → A)
  pub top : ℕ
  pub bottom : ℕ

module _ {A : Type 0} where
  pub new : Queue A
  new = record { data_ = λ i. none; top = 0; bottom = 0 }

  abbrev pub read_segment : Option (ℕ → A) → ℕ → Option A
  read_segment none o = none
  read_segment (some b) o = some (b o)

  -- A null segment is replaced by a new one, whose items are `T()`.
  abbrev pub made_segment : A → Option (ℕ → A) → ℕ → A
  made_segment d none o = d
  made_segment d (some b) o = b o

  abbrev pub write_item : (ℕ → A) → ℕ → A → ℕ → A
  write_item b o x i = if i == o then x else b i

  abbrev pub write_segment : (ℕ → Option (ℕ → A)) → ℕ → (ℕ → A) → ℕ → Option (ℕ → A)
  write_segment m i b j = if j == i then some b else m j

  module _ (S C : ℕ) where
    -- `segment(idx)->buffer[offset(idx)]`
    abbrev pub item_at : Queue A → ℕ → Option A
    item_at q idx = read_segment (q.data_ (idx / S)) (idx % S)

    pub push : A → Queue A → A → Option (Queue A)
    push d q item =
        let b_next = if leb (S * C) (q.bottom + 1) then 0 else q.bottom + 1 in
        let seg_idx = q.bottom / S in
        let buffer = write_item (made_segment d (q.data_ seg_idx)) (q.bottom % S) item in
        if q.top == b_next
        then none
        else some (record q { data_ = write_segment q.data_ seg_idx buffer; bottom = b_next })

    -- The item that `pop` points to, and the queue after it.
    abbrev pub popped : Queue A → Option A → Option (Queue A × Option A)
    popped q none = none
    popped q (some x) =
        some (record q { top = if (q.top + 1) == (S * C) then 0 else q.top + 1 }, some x)

    pub pop : Queue A → Option (Queue A × Option A)
    pop q = if q.top == q.bottom then some (q, none) else popped q (item_at q q.top)
