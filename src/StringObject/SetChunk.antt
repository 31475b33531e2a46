-- ===== src/StringObject/SetChunk.antt =====
-- `string_reserve` and `string_set_chunk` on every path (src/redapid/string.c).
use red_brick_apid.Base.{
  ℕ, ◌+◌, ◌%◌, ◌≤◌, ◌<◌, ◌≡◌, refl, ◌≢◌, ◌↔◌, inl, inr, false, none, some, arith, ltb, leb,
  if◌then◌else◌, Bool-cases, ◌∙◌,
}
use red_brick_apid.ApiError.{ApiE, is_success, is_success-eq, success, no_free_memory}
use red_brick_apid.Memory.{Allocation, realloc, strnlen, strnlen-le, strnlen-ne-zero}
use red_brick_apid.Types.{Object, String, int32_max, uint32_mod}
use red_brick_apid.StringObject.{
  Growth, Run, returns, undefined, write_chunk, after_reserve, IsValid, max_set_chunk_buffer_length,
  reserve, set_chunk,
}
use red_brick_apid.StringObject.Chunk.{Written, write_chunk-Written, write_chunk-undefined}

module _ (growth : Growth) where
  open growth use {grow, le-grow, grow-le}

  -- A buffer that was large enough is left alone; else the text moves to one that is.
  pub record Reserved (s : String) (amount : ℕ) (s' : String) : Type 0 where
    pub valid : IsValid s'
    pub same_length : s'.length ≡ s.length
    pub room : amount < s'.allocated
    pub kept : (i : ℕ) → i ≤ s.length → s'.buffer.byte i ≡ s.buffer.byte i

  abbrev moved : String → ℕ → (ℕ → ℕ) → String
  moved s amount fresh = record s {
    buffer = record {
      size = grow (amount + 1);
      byte = λ i. if ltb i s.buffer.size then s.buffer.byte i else fresh i;
    };
    allocated = grow (amount + 1);
  }

  pub reserve-Reserved :
      (s : String) (amount : ℕ) (fresh : ℕ → ℕ)
      → IsValid s
      → amount ≤ int32_max
      → (s' : String) × (reserve growth s amount (some fresh) ≡ returns success s')
        × Reserved s amount s'
  unfolding reserve realloc
  reserve-Reserved s amount fresh v h = elim (Bool-cases (leb (amount + 1) s.allocated)) [
    | inl enough ↦ (
      s,
      ground arith,
      record { valid = v; same_length = refl; room = ground arith; kept = λ i p. refl },
    )
    | inr short ↦ (
      moved s amount fresh,
      ground arith,
      record {
        valid = record {
          sized = refl;
          fits = ground (arith, le-grow (amount + 1), v.fits);
          bounded = grow-le (amount + 1) (omega arith);
          nonzero = λ i p. ground (arith, v.fits, v.sized, v.nonzero i);
          terminated = ground (arith, v.fits, v.sized, v.terminated);
        };
        same_length = refl;
        room = ground (arith, le-grow (amount + 1));
        kept = λ i p. ground (arith, v.fits, v.sized);
      },
    )
  ]

  Reserved-Written :
      (s s₁ s' : String) (offset : ℕ) (chunk : ℕ → ℕ) (n : ℕ)
      → Reserved s (offset + n) s₁
      → Written s₁ offset chunk n s'
      → Written s offset chunk n s'
  Reserved-Written s s₁ s' offset chunk n r w = record {
    valid = w.valid;
    grown = ground (arith, r.same_length, w.grown);
    inside = w.inside;
    gap = λ j p q. ground (arith, r.same_length, w.gap j);
    before = λ j p q. ground (arith, r.same_length, w.before j, r.kept j);
    behind = λ j p q. ground (arith, r.same_length, w.behind j, r.kept j);
  }

  module _ (base : Object) (s : String) (offset : ℕ) (chunk : ℕ → ℕ) (v : IsValid s) where
    -- The chunk as the call reads it.
    abbrev pub taken : ℕ
    taken = strnlen chunk max_set_chunk_buffer_length

    -- The call gets as far as writing.
    pub record Writes : Type 0 where
      pub unlocked : base.lock_count ≡ 0
      pub in_range : offset + taken ≤ int32_max
      pub some_bytes : 0 < taken

    -- Once the checks have passed, what is left of the call.
    pub set_chunk-eq :
        (memory : Allocation)
        → Writes
        → set_chunk growth base s offset chunk memory ≡ (
            if ltb s.allocated (offset + taken)
            then after_reserve
                (reserve growth s (offset + taken) memory)
                (λ s'. write_chunk s' offset chunk taken)
            else write_chunk s offset chunk taken)
    unfolding set_chunk
    set_chunk-eq memory w =
        let small : (offset + taken) % uint32_mod ≡ offset + taken = grind (arith, w.in_range) in
        ground (arith, small, w.in_range, w.unlocked, w.some_bytes)

    -- On a valid string, a call of `string_set_chunk` that gets as far as writing, for which
    -- `realloc` has memory and whose bytes do not end exactly at the end of the buffer, answers
    -- success, and the string is valid and has the bytes at the offset, spaces between its old end
    -- and the offset, and its old bytes elsewhere.
    pub set_chunk-Written :
        (fresh : ℕ → ℕ)
        → Writes
        → offset + taken ≢ s.allocated
        → (s' : String) × (set_chunk growth base s offset chunk (some fresh) ≡ returns success s')
          × Written s offset chunk taken s'
    set_chunk-Written fresh w ne = elim (Bool-cases (ltb s.allocated (offset + taken))) [
      | inl short ↦
          let (s₁, e₁, r) = reserve-Reserved s (offset + taken) fresh v w.in_range in
          let (s', e, d) =
            write_chunk-Written s₁ offset chunk taken r.valid (grind (arith, r.room)) w.some_bytes
              (λ p. r.room) (strnlen-ne-zero chunk max_set_chunk_buffer_length) in
          (
            s',
            ground (arith, set_chunk-eq (some fresh) w),
            Reserved-Written s s₁ s' offset chunk taken r d,
          )
      | inr enough ↦
          let (s', e, d) =
            write_chunk-Written s offset chunk taken v (ground arith) w.some_bytes
              (λ p. ground arith) (strnlen-ne-zero chunk max_set_chunk_buffer_length) in
          (s', ground (arith, set_chunk-eq (some fresh) w), d)
    ]

    set_chunk-undefined-Writes :
        (memory : Allocation) → set_chunk growth base s offset chunk memory ≡ undefined → Writes
    unfolding set_chunk
    set_chunk-undefined-Writes memory h =
        let bound : taken ≤ 58 = strnlen-le chunk 58 in
        record { unlocked = ground arith; in_range = ground arith; some_bytes = ground arith }

    -- Without memory the call fails, or had no need of any.
    set_chunk-no_memory :
        Writes
        → s.allocated < offset + taken
        → set_chunk growth base s offset chunk none ≡ returns no_free_memory s
    unfolding reserve realloc
    set_chunk-no_memory w short = ground (arith, set_chunk-eq none w, w.in_range)

    full_of_undefined :
        (memory : Allocation)
        → Writes
        → set_chunk growth base s offset chunk memory ≡ undefined
        → ¬ (offset + taken ≢ s.allocated)
    full_of_undefined (some fresh) w h ne = let (s', e, _) = set_chunk-Written fresh w ne in cc
    full_of_undefined none w h ne = elim (Bool-cases (ltb s.allocated (offset + taken))) [
      | inl short ↦ let e = set_chunk-no_memory w (ground arith) in cc
      | inr enough ↦
          let (s', e, d) =
            write_chunk-Written s offset chunk taken v (ground arith) w.some_bytes
              (λ p. ground arith) (strnlen-ne-zero chunk max_set_chunk_buffer_length) in
          ground (arith, set_chunk-eq none w)
    ]

    -- On a valid string, `string_set_chunk` runs into undefined behaviour exactly when it gets as
    -- far as writing (unlocked string, at least one byte, end within INT32_MAX) and the bytes end
    -- exactly at the end of the buffer, which leaves no room for the terminator.
    pub set_chunk-undefined_iff :
        (memory : Allocation)
        → (set_chunk growth base s offset chunk memory ≡ undefined)
          ↔ (Writes × (offset + taken ≡ s.allocated))
    set_chunk-undefined_iff memory = (
      (λ h.
          let w = set_chunk-undefined-Writes memory h in
          let full = full_of_undefined memory w h in (w, ground arith)),
      λ (w, full).
          let u = write_chunk-undefined s offset chunk taken v full w.some_bytes in
          ground (arith, set_chunk-eq memory w),
    )

    reserve_failed :
        (amount : ℕ) (memory : Allocation) (error : ApiE) (s' : String)
        → reserve growth s amount memory ≡ returns error s'
        → is_success error ≡ false
        → s' ≡ s
    unfolding reserve realloc
    reserve_failed amount none error s' h e = ground arith
    reserve_failed amount (some fresh) error s' h e = ground arith

    write_chunk_succeeds :
        (s₁ s' : String) (n : ℕ) (error : ApiE)
        → write_chunk s₁ offset chunk n ≡ returns error s'
        → is_success error ≡ false
        → ⊥
    unfolding write_chunk
    write_chunk_succeeds s₁ s' n error h e = ground arith

    after_reserve_failed :
        (amount n : ℕ) (memory : Allocation) (error : ApiE) (s' : String) (r : Run)
        → reserve growth s amount memory ≡ r
        → after_reserve r (λ s₁. write_chunk s₁ offset chunk n) ≡ returns error s'
        → is_success error ≡ false
        → s' ≡ s
    after_reserve_failed amount n memory error s' undefined re h e = cc
    after_reserve_failed amount n memory error s' (returns error₁ s₁) re h e =
        elim (Bool-cases (is_success error₁)) [
          | inl good ↦ absurd (write_chunk_succeeds s₁ s' n error (rw good at h) e)
          | inr bad ↦ reserve_failed amount memory error s' (re ∙ (rw bad at h)) e
        ]

    -- A `string_set_chunk` on a valid string that returns an error has not changed the string.
    pub set_chunk_failed :
        (memory : Allocation) (error : ApiE) (s' : String)
        → set_chunk growth base s offset chunk memory ≡ returns error s'
        → error ≢ success
        → s' ≡ s
    unfolding set_chunk
    set_chunk_failed memory error s' h ne = ground (
      arith,
      is_success-eq error,
      write_chunk_succeeds s s' taken error,
      after_reserve_failed ((offset + taken) % uint32_mod) taken memory error s' _ refl,
    )
