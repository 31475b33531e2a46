-- ===== src/StringObject/GetChunk.antt =====
-- `string_get_chunk` and `string_truncate` (src/redapid/string.c), and what a client reads back.
use red_brick_apid.Base.{
  ℕ, ◌+◌, ◌-◌, ◌≤◌, ◌<◌, ◌≡◌, refl, ◌≢◌, inl, inr, some, arith, ltb, ◌==◌, if◌then◌else◌,
  Bool-cases,
}
use red_brick_apid.ApiError.{success}
use red_brick_apid.Memory.{store, strnlen, strnlen-le}
use red_brick_apid.Types.{Object, String}
use red_brick_apid.StringObject.{
  Growth, returns, truncate, IsValid, max_set_chunk_buffer_length, max_get_chunk_buffer_length,
  set_chunk, get_chunk, cleared,
}
use red_brick_apid.StringObject.SetChunk.{Writes, set_chunk-Written}

-- On a valid string and at an offset up to its length, `string_get_chunk` reads within the buffer
-- and answers success, with the next 63 bytes of the text, padded with zeros behind its end.
pub get_chunk_lem :
    (s : String) (offset : ℕ) (out : ℕ → ℕ)
    → IsValid s
    → offset ≤ s.length
    → (out' : ℕ → ℕ) × (get_chunk s offset out ≡ some (success, out'))
      × ((j : ℕ)
          → j < max_get_chunk_buffer_length
          → out' j ≡ (if ltb (offset + j) s.length then s.buffer.byte (offset + j) else 0))
unfolding get_chunk
get_chunk_lem s offset out v h = elim (Bool-cases ((s.length - offset) == 0)) [
  | inl empty ↦ (
    cleared max_get_chunk_buffer_length out,
    ground (arith, v.fits, v.bounded),
    λ j p. ground arith,
  )
  | inr some_bytes ↦
      let length : ℕ =
        if ltb max_get_chunk_buffer_length (s.length - offset)
        then max_get_chunk_buffer_length
        else s.length - offset in
      (
        (λ j.
            if ltb j length
            then s.buffer.byte (offset + j)
            else cleared max_get_chunk_buffer_length out j),
        ground (arith, v.fits, v.bounded, v.sized),
        λ j p. ground arith,
      )
]

-- On a valid string, after a `string_set_chunk` that gets as far as writing, has memory and does
-- not end exactly at the end of the buffer, `string_get_chunk` at the same offset answers success
-- and the bytes that were set.
pub get_chunk-set_chunk :
    (growth : Growth) (base : Object) (s : String) (offset : ℕ) (chunk : ℕ → ℕ) (fresh out : ℕ → ℕ)
    (v : IsValid s)
    → Writes growth base s offset chunk v
    → offset + strnlen chunk max_set_chunk_buffer_length ≢ s.allocated
    → (s' : String) × (out' : ℕ → ℕ) × (set_chunk growth base s offset chunk (some fresh)
        ≡ returns success s')
      × (get_chunk s' offset out ≡ some (success, out'))
      × ((j : ℕ) → j < strnlen chunk max_set_chunk_buffer_length → out' j ≡ chunk j)
get_chunk-set_chunk growth base s offset chunk fresh out v w ne =
    let (s', e, d) = set_chunk-Written growth base s offset chunk v fresh w ne in
    let (out', e', bytes) = get_chunk_lem s' offset out d.valid (ground (arith, d.grown)) in
    (s', out', e, e', λ j p. same s' d.grown d.inside out' bytes j p)
  where
    n : ℕ
    n = strnlen chunk max_set_chunk_buffer_length

    same :
        (s' : String)
        → s'.length ≡ (if ltb s.length (offset + n) then offset + n else s.length)
        → ((j : ℕ) → offset ≤ j → j < offset + n → s'.buffer.byte j ≡ chunk (j - offset))
        → (out' : ℕ → ℕ)
        → ((j : ℕ)
            → j < max_get_chunk_buffer_length
            → out' j ≡ (if ltb (offset + j) s'.length then s'.buffer.byte (offset + j) else 0))
        → (j : ℕ) → j < n
        → out' j ≡ chunk j
    same s' grown inside out' bytes j p =
        let back : offset + j - offset ≡ j = omega arith in
        ground (arith, grown, inside (offset + j), bytes j, back, strnlen-le chunk 58)

-- On a valid string that is not locked, `string_truncate` answers success, and the string is valid,
-- no longer than the given length, and keeps the bytes up to there.
pub truncate-IsValid :
    (base : Object) (s : String) (length : ℕ)
    → base.lock_count ≡ 0
    → IsValid s
    → (s' : String) × (truncate base s length ≡ returns success s')
      × IsValid s'
      × (s'.length ≡ (if ltb length s.length then length else s.length))
      × ((i : ℕ) → i < s'.length → s'.buffer.byte i ≡ s.buffer.byte i)
unfolding truncate store
truncate-IsValid base s length unlocked v = elim (Bool-cases (ltb length s.length)) [
  | inl shorter ↦
      let s' : String = record s {
        buffer = record s.buffer { byte = λ j. if j == length then 0 else s.buffer.byte j };
        length = length;
      } in
      (
        s',
        ground (arith, v.fits, v.sized),
        record {
          sized = v.sized;
          fits = ground (arith, v.fits);
          bounded = v.bounded;
          nonzero = λ i p. ground (arith, v.nonzero i);
          terminated = ground arith;
        },
        ground arith,
        λ i p. ground arith,
      )
  | inr same ↦ (s, ground arith, v, ground arith, λ i p. refl)
]
