-- ===== src/TaggedPtr/Fields.antt =====
-- The pointer and the tag are the two parts of the word.
use rock_coro.Prelude.{ℕ, ◌+◌, ◌-◌, ◌*◌, ◌/◌, ◌%◌, ◌^◌, ◌<◌, ◌≡◌, ap, ap₂, ◌∙◌, arith}
use Prim.Native.Nat.{bit_and, bit_or}
use rock_coro.TaggedPtr.{mask, tag_field, make, get_ptr, get_tag, increment_tag}
use rock_coro.TaggedPtr.Bits.{
  fields, bit_and-fields, bit_or-fields, and_with_zero, or_with_zero, or_of_zero, and_with_ones,
}

parts : (w : ℕ) → w ≡ fields 48 (w / 2 ^ 48) (w % 2 ^ 48)
parts w = omega arith

low_part : (w : ℕ) → bit_and w (2 ^ 48 - 1) ≡ w % 2 ^ 48
low_part w =
    let high = w / 2 ^ 48 in
    let low = w % 2 ^ 48 in
    let split : bit_and w (2 ^ 48 - 1) ≡ bit_and (fields 48 high low) (fields 48 0 (2 ^ 48 - 1)) =
      ap₂ bit_and (parts w) (omega arith) in
    omega (
      arith,
      split,
      bit_and-fields 48 high 0 low (2 ^ 48 - 1) (omega arith) (omega arith),
      and_with_zero high high (omega arith),
      and_with_ones 48 low (omega arith),
    )

high_part : (w : ℕ) → w < 2 ^ 64 → bit_and w mask ≡ w / 2 ^ 48 * 2 ^ 48
high_part w lt =
    let high = w / 2 ^ 48 in
    let low = w % 2 ^ 48 in
    let split : bit_and w mask ≡ bit_and (fields 48 high low) (fields 48 (2 ^ 16 - 1) 0) =
      ap₂ bit_and (parts w) (omega arith) in
    omega (
      arith,
      split,
      bit_and-fields 48 high (2 ^ 16 - 1) low 0 (omega arith) (omega arith),
      and_with_zero low low (omega arith),
      and_with_ones 16 high (omega arith),
    )

pub get_ptr_lem : (w : ℕ) → get_ptr w ≡ w % 2 ^ 48
unfolding get_ptr
get_ptr_lem w = low_part w

get_tag_lem : (w : ℕ) → w < 2 ^ 64 → get_tag w ≡ w / 2 ^ 48
unfolding get_tag
get_tag_lem w lt = omega (arith, high_part w lt)

tag_field_lem : (tag : ℕ) → tag_field tag ≡ tag % 2 ^ 16 * 2 ^ 48
tag_field_lem tag = omega (arith, high_part (tag * 2 ^ 48 % 2 ^ 64) (omega arith))

joined : (ptr tag : ℕ) → ptr < 2 ^ 48 → bit_or ptr (tag * 2 ^ 48) ≡ fields 48 tag ptr
joined ptr tag lt =
    let split : bit_or ptr (tag * 2 ^ 48) ≡ bit_or (fields 48 0 ptr) (fields 48 tag 0) =
      ap₂ bit_or (omega arith) (omega arith) in
    omega (
      arith,
      split,
      bit_or-fields 48 0 tag ptr 0 lt (omega arith),
      or_with_zero ptr ptr (omega arith),
      or_of_zero tag,
    )

make_lem : (ptr tag : ℕ) → ptr < 2 ^ 48 → make ptr tag ≡ fields 48 (tag % 2 ^ 16) ptr
unfolding make
make_lem ptr tag lt = ap (bit_or ptr) (tag_field_lem tag) ∙ joined ptr (tag % 2 ^ 16) lt

increment_tag_lem :
    (w : ℕ) → w < 2 ^ 64 → increment_tag w ≡ fields 48 ((w / 2 ^ 48 + 1) % 2 ^ 16) (w % 2 ^ 48)
unfolding increment_tag get_tag
increment_tag_lem w lt =
    ap₂ bit_or (low_part w)
      (tag_field_lem (get_tag w + 1) ∙ ap (λ t. (t + 1) % 2 ^ 16 * 2 ^ 48) (get_tag_lem w lt))
    ∙ joined (w % 2 ^ 48) ((w / 2 ^ 48 + 1) % 2 ^ 16) (omega arith)

-- For a pointer below 2 ^ 48 and any tag, get_ptr of what the constructor makes of the two is the
-- pointer, and get_tag is the tag modulo 2 ^ 16.
pub tag_round_trip :
    (ptr tag : ℕ)
    → ptr < 2 ^ 48
    → (get_ptr (make ptr tag) ≡ ptr) × (get_tag (make ptr tag) ≡ tag % 2 ^ 16)
tag_round_trip ptr tag lt =
    let e = make_lem ptr tag lt in
    (
      omega (arith, get_ptr_lem (make ptr tag), e),
      omega (arith, get_tag_lem (make ptr tag) (omega (arith, e)), e),
    )

-- For a word below 2 ^ 64, increment_tag keeps what get_ptr gives, adds one to what get_tag gives,
-- from 2 ^ 16 - 1 on to 0, and gives a word below 2 ^ 64.
pub increment_keeps_pointer :
    (ptr_ : ℕ)
    → ptr_ < 2 ^ 64
    → (get_ptr (increment_tag ptr_) ≡ get_ptr ptr_)
      × (get_tag (increment_tag ptr_) ≡ (get_tag ptr_ + 1) % 2 ^ 16)
      × (increment_tag ptr_ < 2 ^ 64)
increment_keeps_pointer ptr_ lt =
    let e = increment_tag_lem ptr_ lt in
    let fits : increment_tag ptr_ < 2 ^ 64 = omega (arith, e) in
    (
      omega (arith, get_ptr_lem (increment_tag ptr_), get_ptr_lem ptr_, e),
      omega (arith, get_tag_lem (increment_tag ptr_) fits, get_tag_lem ptr_ lt, e),
      fits,
    )
