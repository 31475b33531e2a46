-- ===== src/Tests/Strings.antt =====
-- src/redapid/string.c at concrete inputs.
use red_brick_apid.Base.{
  ℕ, ◌+◌, none, some, [], ◌∷◌, arith, ltb, if◌then◌else◌, ◌≡◌, refl, ◌≤◌, ◌<◌, ◌↔◌,
}
use red_brick_apid.ApiError.{success, object_is_locked}
use red_brick_apid.Memory.{c_string, strnlen}
use red_brick_apid.Types.{Object, String, string}
use red_brick_apid.StringObject.{
  returns, undefined, get_chunk, set_chunk, max_get_chunk_buffer_length,
  max_set_chunk_buffer_length,
}
use red_brick_apid.StringObject.Chunk.{Written}
use red_brick_apid.StringObject.SetChunk.{Writes, set_chunk-Written, set_chunk-undefined_iff}
use red_brick_apid.StringObject.GetChunk.{get_chunk_lem, get_chunk-set_chunk}
use red_brick_apid.Tests.Sample.{by_sixteen, ab, ab-IsValid, header}

abbrev open_header : Object
open_header = header 1 string 1 0 0

abbrev locked_header : Object
locked_header = header 1 string 1 0 1

abbrev xy : ℕ → ℕ
xy = c_string (120 ∷ 121 ∷ [])

xy_length : strnlen xy 58 ≡ 2
unfolding strnlen
xy_length = refl

writes_at : (offset : ℕ) → offset ≤ 100 → Writes by_sixteen open_header ab offset xy ab-IsValid
writes_at offset h = record {
  unlocked = refl;
  in_range = omega (arith, xy_length);
  some_bytes = omega (arith, xy_length);
}

set_chunk-Written_example :
    (s' : String) × (set_chunk by_sixteen open_header ab 4 xy (some (λ i. 0)) ≡ returns success s')
    × Written ab 4 xy (strnlen xy max_set_chunk_buffer_length) s'
set_chunk-Written_example =
    set_chunk-Written by_sixteen open_header ab 4 xy ab-IsValid (λ i. 0) (writes_at 4 (omega arith))
      (omega (arith, xy_length))

set_chunk-undefined_iff_example : (set_chunk by_sixteen open_header ab 14 xy none ≡ undefined) ↔ (
    Writes by_sixteen open_header ab 14 xy ab-IsValid
    × (14 + strnlen xy max_set_chunk_buffer_length ≡ 16))
set_chunk-undefined_iff_example =
    set_chunk-undefined_iff by_sixteen open_header ab 14 xy ab-IsValid none

-- Two bytes at offset 14 of a buffer of 16 bytes: the terminator goes to index 16.
set_chunk_overflow : set_chunk by_sixteen open_header ab 14 xy none ≡ undefined
set_chunk_overflow =
    set_chunk-undefined_iff_example.1 (writes_at 14 (omega arith), omega (arith, xy_length))

locked_write : set_chunk by_sixteen locked_header ab 4 xy none ≡ returns object_is_locked ab
unfolding set_chunk
locked_write = refl

get_chunk_lem_example :
    (out' : ℕ → ℕ) × (get_chunk ab 1 (λ j. 255) ≡ some (success, out'))
    × ((j : ℕ)
        → j < max_get_chunk_buffer_length
        → out' j ≡ (if ltb (1 + j) 2 then c_string (97 ∷ 98 ∷ []) (1 + j) else 0))
get_chunk_lem_example = get_chunk_lem ab 1 (λ j. 255) ab-IsValid (omega arith)

get_chunk-set_chunk_example :
    (s' : String) × (out' : ℕ → ℕ) × (set_chunk by_sixteen open_header ab 20 xy (some (λ i. 7))
      ≡ returns success s')
    × (get_chunk s' 20 (λ j. 255) ≡ some (success, out'))
    × ((j : ℕ) → j < strnlen xy max_set_chunk_buffer_length → out' j ≡ xy j)
get_chunk-set_chunk_example =
    get_chunk-set_chunk by_sixteen open_header ab 20 xy (λ i. 7) (λ j. 255) ab-IsValid
      (writes_at 20 (omega arith)) (omega (arith, xy_length))
