-- ===== src/StringObject/Chunk.antt =====
-- What `string_set_chunk` leaves in the buffer (src/redapid/string.c).
use red_brick_apid.Base.{
  ℕ, zero, suc, ◌+◌, ◌-◌, ◌≤◌, ◌<◌, ◌≡◌, refl, ◌≢◌, inl, inr, ◌&&◌, some, arith, ltb, leb, ◌==◌,
  if◌then◌else◌, Bool-cases,
}
use red_brick_apid.ApiError.{success}
use red_brick_apid.Memory.{Block, store, memcpy}
use red_brick_apid.Types.{String}
use red_brick_apid.StringObject.{returns, undefined, fill_gap, write_chunk, IsValid}

-- The gap is filled with spaces, and nothing else changes.
pub record Filled (rounds i : ℕ) (b b' : Block) : Type 0 where
  pub same_size : b'.size ≡ b.size
  pub spaces : (j : ℕ) → i ≤ j → j < i + rounds → b'.byte j ≡ 0x20
  pub before : (j : ℕ) → j < i → b'.byte j ≡ b.byte j
  pub behind : (j : ℕ) → i + rounds ≤ j → b'.byte j ≡ b.byte j

fill_gap-Filled :
    (rounds i : ℕ) (b : Block)
    → i + rounds ≤ b.size
    → (b' : Block) × (fill_gap rounds i b ≡ some b') × Filled rounds i b b'
unfolding fill_gap store
fill_gap-Filled zero i b h = (
  b,
  refl,
  record {
    same_size = refl;
    spaces = λ j p q. absurd (omega arith);
    before = λ j p. refl;
    behind = λ j p. refl;
  },
)
fill_gap-Filled (suc rounds) i b h =
    let b₁ : Block = record b { byte = λ j. if j == i then b' ' else b.byte j } in
    let (b', e, f) = fill_gap-Filled rounds (i + 1) b₁ (omega arith) in
    (
      b',
      ground arith,
      record {
        same_size = f.same_size;
        spaces = λ j p q. grind (arith, f.spaces j, f.before j);
        before = λ j p. ground (arith, f.before j);
        behind = λ j p. ground (arith, f.behind j);
      },
    )

-- What a write of `n` bytes of `chunk` at `offset` has made of `s`.
pub record Written (s : String) (offset : ℕ) (chunk : ℕ → ℕ) (n : ℕ) (s' : String) : Type 0 where
  pub valid : IsValid s'
  pub grown : s'.length ≡ (if ltb s.length (offset + n) then offset + n else s.length)
  pub inside : (j : ℕ) → offset ≤ j → j < offset + n → s'.buffer.byte j ≡ chunk (j - offset)
  pub gap : (j : ℕ) → s.length ≤ j → j < offset → s'.buffer.byte j ≡ 0x20
  pub before : (j : ℕ) → j < s.length → j < offset → s'.buffer.byte j ≡ s.buffer.byte j
  pub behind : (j : ℕ) → j < s.length → offset + n ≤ j → s'.buffer.byte j ≡ s.buffer.byte j

module _ (s : String) (offset : ℕ) (chunk : ℕ → ℕ) (n : ℕ) (v : IsValid s) where
  -- The buffer once the gap is filled and the chunk is copied.
  pub record Copied (b' : Block) : Type 0 where
    pub size_kept : b'.size ≡ s.allocated
    pub in_chunk : (j : ℕ) → offset ≤ j → j < offset + n → b'.byte j ≡ chunk (j - offset)
    pub in_gap : (j : ℕ) → s.length ≤ j → j < offset → b'.byte j ≡ 0x20
    pub in_front : (j : ℕ) → j < s.length → j < offset → b'.byte j ≡ s.buffer.byte j
    pub at_back : (j : ℕ) → offset + n ≤ j → b'.byte j ≡ s.buffer.byte j

  pub copied :
      offset + n ≤ s.allocated
      → 0 < n
      → (b b' : Block) × (fill_gap (offset - s.length) s.length s.buffer ≡ some b)
        × (memcpy b offset chunk n ≡ some b')
        × Copied b'
  unfolding memcpy
  copied fit pos =
      let (b, e, f) =
        fill_gap-Filled (offset - s.length) s.length s.buffer (grind (arith, v.sized, v.fits)) in
      (
        b,
        record b {
          byte = λ j. if leb offset j && ltb j (offset + n) then chunk (j - offset) else b.byte j;
        },
        e,
        grind (arith, f.same_size, v.sized),
        record {
          size_kept = grind (arith, f.same_size, v.sized);
          in_chunk = λ j p q. ground arith;
          in_gap = λ j p q. ground (arith, f.spaces j);
          in_front = λ j p q. ground (arith, f.before j);
          at_back = λ j p. ground (arith, f.before j, f.behind j);
        },
      )

  Written-kept :
      (b' : Block)
      → Copied b'
      → s.length ≢ 0
      → offset + n ≤ s.length
      → ((j : ℕ) → j < n → chunk j ≢ 0)
      → Written s offset chunk n (record s { buffer = b' })
  Written-kept b' c pos inner nonzero = record {
    valid = record {
      sized = c.size_kept;
      fits = v.fits;
      bounded = v.bounded;
      nonzero = λ i p.
          grind (arith, c.in_chunk i, c.in_front i, c.at_back i, nonzero (i - offset), v.nonzero i);
      terminated = ground (arith, c.at_back s.length, v.terminated);
    };
    grown = ground arith;
    inside = c.in_chunk;
    gap = c.in_gap;
    before = c.in_front;
    behind = λ j p q. c.at_back j q;
  }

  Written-grown :
      (b' : Block)
      → Copied b'
      → s.length < offset + n
      → offset + n < s.allocated
      → ((j : ℕ) → j < n → chunk j ≢ 0)
      → Written s offset chunk n (record s {
        buffer = record b' { byte = λ j. if j == offset + n then 0 else b'.byte j };
        length = offset + n;
      })
  Written-grown b' c outer room nonzero = record {
    valid = record {
      sized = c.size_kept;
      fits = room;
      bounded = v.bounded;
      nonzero = λ i p.
          grind (arith, c.in_chunk i, c.in_front i, c.in_gap i, nonzero (i - offset), v.nonzero i);
      terminated = ground arith;
    };
    grown = ground arith;
    inside = λ j p q. ground (arith, c.in_chunk j);
    gap = λ j p q. ground (arith, c.in_gap j);
    before = λ j p q. ground (arith, c.in_front j);
    behind = λ j p q. absurd (omega arith);
  }

  -- The write stays in the buffer, and the string is what it should be.
  pub write_chunk-Written :
      offset + n ≤ s.allocated
      → 0 < n
      → (s.length < offset + n → offset + n < s.allocated)
      → ((j : ℕ) → j < n → chunk j ≢ 0)
      → (s' : String) × (write_chunk s offset chunk n ≡ returns success s')
        × Written s offset chunk n s'
  unfolding write_chunk store
  write_chunk-Written fit pos room nonzero =
      let (b, b', e, e', c) = copied fit pos in
      elim (Bool-cases (ltb s.length (offset + n))) [
        | inl grows ↦ (
          _,
          ground (arith, c.size_kept, room, v.sized),
          Written-grown b' c (ground arith) (room (ground arith)) nonzero,
        )
        | inr stays ↦ (_, ground arith, Written-kept b' c (ground arith) (ground arith) nonzero)
      ]

  -- A write that ends exactly at the end of the buffer leaves no room for the terminator.
  pub write_chunk-undefined :
      offset + n ≡ s.allocated → 0 < n → write_chunk s offset chunk n ≡ undefined
  unfolding write_chunk store
  write_chunk-undefined full pos =
      let (b, b', e, e', c) = copied (omega arith) pos in ground (arith, c.size_kept, v.fits)
