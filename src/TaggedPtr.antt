-- ===== src/TaggedPtr.antt =====
-- src/memory/tagged_ptr.h: a 16-bit tag in the high bits of a 64-bit pointer.
-- A pointer, and a tag that is cast to uint64_t, is a number below 2 ^ 64.
pub mod Bits
pub mod Fields
mod Tests
use rock_coro.Prelude.{ℕ, ◌+◌, ◌-◌, ◌*◌, ◌/◌, ◌%◌, ◌^◌}
use Prim.Native.Nat.{bit_and, bit_or}

-- TAGGED_PTR_MASK_BIT and TAGGED_PTR_MASK
abbrev pub mask_bit : ℕ
mask_bit = 48

abbrev pub mask : ℕ
mask = 0xffff * 2 ^ mask_bit % 2 ^ 64

-- `~` on uint64_t
abbrev pub bit_not : ℕ → ℕ
bit_not x = 2 ^ 64 - 1 - x

-- `(tag << TAGGED_PTR_MASK_BIT) & TAGGED_PTR_MASK`
abbrev pub tag_field : ℕ → ℕ
tag_field tag = bit_and (tag * 2 ^ mask_bit % 2 ^ 64) mask

pub make : ℕ → ℕ → ℕ
make ptr tag = bit_or ptr (tag_field tag)

unfoldable pub get_ptr : ℕ → ℕ
get_ptr ptr_ = bit_and ptr_ (bit_not mask)

pub get_tag : ℕ → ℕ
get_tag ptr_ = bit_and ptr_ mask / 2 ^ mask_bit

unfoldable pub increment_tag : ℕ → ℕ
unfolding get_tag
increment_tag ptr_ =
    let tag = get_tag ptr_ + 1 in bit_or (bit_and ptr_ (bit_not mask)) (tag_field tag)
