-- ===== src/TaggedPtr/Tests.antt =====
-- Words in hexadecimal, by their two parts.
use rock_coro.Prelude.{◌+◌, ◌%◌, ◌^◌, ◌<◌, ◌≡◌, refl, arith}
use rock_coro.TaggedPtr.{make, get_ptr, get_tag, increment_tag}
use rock_coro.TaggedPtr.Fields.{tag_round_trip, increment_keeps_pointer}

tag_runs_over : increment_tag 0xffff00007fff5a00 ≡ 0x00007fff5a00
unfolding increment_tag
tag_runs_over = refl

tag_round_trip_example :
    (get_ptr (make 0x7fff5a00 0x12345) ≡ 0x7fff5a00)
    × (get_tag (make 0x7fff5a00 0x12345) ≡ 0x12345 % 2 ^ 16)
tag_round_trip_example = tag_round_trip 0x7fff5a00 0x12345 (omega arith)

increment_keeps_pointer_example :
    (get_ptr (increment_tag 0xffff00007fff5a00) ≡ get_ptr 0xffff00007fff5a00)
    × (get_tag (increment_tag 0xffff00007fff5a00) ≡ (get_tag 0xffff00007fff5a00 + 1) % 2 ^ 16)
    × (increment_tag 0xffff00007fff5a00 < 2 ^ 64)
increment_keeps_pointer_example = increment_keeps_pointer 0xffff00007fff5a00 (omega arith)
