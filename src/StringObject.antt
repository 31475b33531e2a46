-- ===== src/StringObject.antt =====
-- src/redapid/string.c: the string object's buffer. `GROW_ALLOCATION` belongs to daemonlib and is a
-- parameter; the object's header comes from the caller, which keeps it in the store.
pub mod Creation
pub mod Chunk
pub mod SetChunk
pub mod GetChunk
use red_brick_apid.Base.{
  ℕ, zero, suc, ◌+◌, ◌-◌, ◌%◌, ◌≤◌, ◌<◌, ◌≡◌, ◌≢◌, Bool, true, false, ◌&&◌, Option, none, some,
  arith, ltb, leb, ◌==◌, if◌then◌else◌, ◌^◌, List, length,
}
use red_brick_apid.ApiError.{
  ApiE, is_success, success, object_is_locked, out_of_range, no_free_memory,
}
use red_brick_apid.Memory.{Block, Allocation, malloc, realloc, store, memcpy, strnlen, c_string}
use red_brick_apid.Types.{Object, String, int32_max, uint32_mod}

-- What daemonlib's macro is used for: it never asks for less, and keeps to the size of a string.
pub record Growth : Type 0 where
  pub grow : ℕ → ℕ
  pub le-grow : (n : ℕ) → n ≤ grow n
  pub grow-le : (n : ℕ) → n ≤ 2 ^ 31 → grow n ≤ 2 ^ 31

-- A call on one string returns an error code and the string, or runs into undefined behaviour.
pub data Run : Type 0 where
  returns : ApiE → String → Run
  undefined : Run

abbrev pub max_allocate_buffer_length : ℕ
max_allocate_buffer_length = 58

abbrev pub max_set_chunk_buffer_length : ℕ
max_set_chunk_buffer_length = 58

abbrev pub max_get_chunk_buffer_length : ℕ
max_get_chunk_buffer_length = 63

-- `s->buffer[i] = v`, and the rest of the function.
abbrev pub put_byte : String → ℕ → ℕ → (String → Run) → Run
put_byte s i v rest = elim (store s.buffer i v) [
  | none ↦ undefined
  | some b ↦ rest (record s { buffer = b })
]

-- `string_truncate`
unfoldable pub truncate : Object → String → ℕ → Run
truncate base s length =
    if ltb 0 base.lock_count
    then returns object_is_locked s
    else if ltb length s.length
    then put_byte (record s { length = length }) length 0 (returns success)
    else returns success s

-- `string_get_length`
unfoldable pub get_length : String → ApiE × ℕ
get_length s = (success, s.length)

-- The loop that fills the gap in front of `offset`: `rounds` writes from `i` on.
unfoldable pub fill_gap : ℕ → ℕ → Block → Option Block
fill_gap zero i b = some b
fill_gap (suc rounds) i b = elim (store b i b' ') [
  | none ↦ none
  | some b' ↦ fill_gap rounds (i + 1) b'
]

-- The end of `string_set_chunk`, once the buffer is large enough.
unfoldable pub write_chunk : String → ℕ → (ℕ → ℕ) → ℕ → Run
write_chunk s offset chunk length = elim (fill_gap (offset - s.length) s.length s.buffer) [
  | none ↦ undefined
  | some filled ↦ elim (memcpy filled offset chunk length) [
    | none ↦ undefined
    | some b ↦
        if ltb s.length (offset + length)
        then put_byte (record s { buffer = b; length = offset + length }) (offset + length) 0
            (returns success)
        else returns success (record s { buffer = b })
  ]
]

-- What follows `string_reserve`: an error ends the call.
abbrev pub after_reserve : Run → (String → Run) → Run
after_reserve undefined rest = undefined
after_reserve (returns error s) rest = if is_success error then rest s else returns error s

-- `memset(out, 0, n)` on the bytes of an array
abbrev pub cleared : ℕ → (ℕ → ℕ) → ℕ → ℕ
cleared n out j = if ltb j n then 0 else out j

-- `string_get_chunk`: the error code and the bytes of the answer; `none` is a read outside the
-- buffer.
unfoldable pub get_chunk : String → ℕ → (ℕ → ℕ) → Option (ApiE × (ℕ → ℕ))
get_chunk s offset out =
    if ltb int32_max offset
    then some (out_of_range, out)
    else if ltb s.length offset
    then some (out_of_range, cleared max_get_chunk_buffer_length out)
    else let rest = s.length - offset in
      if rest == 0
      then some (success, cleared max_get_chunk_buffer_length out)
      else let length =
          if ltb max_get_chunk_buffer_length rest then max_get_chunk_buffer_length else rest in
        if leb (offset + length) s.buffer.size
        then some (
          success,
          λ j.
              if ltb j length
              then s.buffer.byte (offset + j)
              else cleared max_get_chunk_buffer_length out j,
        )
        else none

module _ (growth : Growth) where
  open growth use {grow}

  -- `string_reserve`
  unfoldable pub reserve : String → ℕ → Allocation → Run
  reserve s amount memory =
      if ltb int32_max amount
      then returns out_of_range s
      else if leb (amount + 1) s.allocated
      then returns success s
      else let allocated = grow (amount + 1) in
        elim (realloc s.buffer allocated memory) [
          | none ↦ returns no_free_memory s
          | some b ↦ returns success (record s { buffer = b; allocated = allocated })
        ]

  -- `string_set_chunk`
  unfoldable pub set_chunk : Object → String → ℕ → (ℕ → ℕ) → Allocation → Run
  set_chunk base s offset chunk memory =
      if ltb 0 base.lock_count
      then returns object_is_locked s
      else if ltb int32_max offset
      then returns out_of_range s
      else let length = strnlen chunk max_set_chunk_buffer_length in
        let end = (offset + length) % uint32_mod in
        if ltb int32_max end
        then returns out_of_range s
        else if length == 0
        then returns success s
        else if ltb s.allocated end
        then after_reserve (reserve s end memory) (λ s'. write_chunk s' offset chunk length)
        else write_chunk s offset chunk length

pub record IsValid (s : String) : Type 0 where
  pub sized : s.buffer.size ≡ s.allocated
  pub fits : s.length < s.allocated
  pub bounded : s.allocated ≤ 2 ^ 31
  pub nonzero : (i : ℕ) → i < s.length → s.buffer.byte i ≢ 0
  pub terminated : s.buffer.byte s.length ≡ 0
