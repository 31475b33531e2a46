-- ===== src/StringObject/Creation/Calls.antt =====
-- `string_wrap` and `string_allocate` (src/redapid/string.c): what the new object holds.
use red_brick_apid.Base.{
  ℕ, ◌%◌, ◌≤◌, ◌<◌, ◌≡◌, ◌≢◌, Option, none, some, List, arith, ltb, length, Bool-cases, inl, inr,
}
use red_brick_apid.ApiError.{success}
use red_brick_apid.Memory.{strnlen, strnlen-ne-zero, c_string, NoZero, c_string-ne-zero}
use red_brick_apid.Types.{int32_max, uint32_mod}
use red_brick_apid.Store.Arrays.{ArrayLib}
use red_brick_apid.Store.{Store, Hold}
use red_brick_apid.Object.Invariant.{Inv}
use red_brick_apid.Object.Create.{has_flag, flag_internal, flag_external, flag_locked}
use red_brick_apid.Object.Create.Invariant.{granted}
use red_brick_apid.Object.Create.Cell.{InNoArray}
use red_brick_apid.Object.Create.Success.{IsSession}
use red_brick_apid.StringObject.{Growth, max_allocate_buffer_length}
use red_brick_apid.StringObject.Creation.{StringAttempts, create, filled, wrap, allocate}
use red_brick_apid.StringObject.Creation.Text.{Holds, filled-ne-none, filled_made}

module _ (growth : Growth) (lib : ArrayLib ℕ) (a : ℕ) (attempts : StringAttempts) (s : Store) where
  pub wrap-filled :
      (text : List ℕ) (session : Option ℕ) (flags : ℕ)
      → length text ≤ int32_max
      → wrap growth lib a text session flags attempts s
        ≡ filled growth lib a
            (c_string text)
            (length text)
            (create growth lib a (length text) none session flags attempts s)
  unfolding wrap
  wrap-filled text session flags small =
      let whole : length text % uint32_mod ≡ length text = omega arith in rw whole (ground arith)

  -- `string_wrap` of a text without zeros of less than 2 ^ 32 bytes never writes outside the new
  -- buffer, whatever the outcome of the calls that can fail.
  pub wrap-ne-none :
      (text : List ℕ) (session : Option ℕ) (flags : ℕ)
      → NoZero text
      → length text < uint32_mod
      → wrap growth lib a text session flags attempts s ≢ none
  unfolding wrap
  wrap-ne-none text session flags nonzero lt = elim (Bool-cases (ltb int32_max (length text))) [
    | inl long ↦
        let whole : length text % uint32_mod ≡ length text = omega arith in
        rw (whole, long) (λ e. cc)
    | inr short ↦ rw (wrap-filled text session flags (ground arith)) (
        filled-ne-none growth lib a (length text) session flags attempts s (c_string text)
          (length text) (ground arith) (λ i p. c_string-ne-zero text i nonzero p))
  ]

  -- In a store with right counts, a `string_wrap` of a text without zeros of at most INT32_MAX
  -- bytes, in a new cell and for a session of the inventory or none, that answers success has made
  -- a valid string object with exactly that text, and keeps the counts right.
  pub wrap-Holds :
      (text : List ℕ) (session : Option ℕ) (flags : ℕ) (pending : List Hold) (s' : Store)
      → NoZero text
      → length text ≤ int32_max
      → Inv s pending
      → InNoArray a s
      → IsSession session s
      → wrap growth lib a text session flags attempts s ≡ some (success, s')
      → Holds (c_string text) (length text) (s'.text a)
        × Inv s' (granted a (has_flag flags flag_internal) (has_flag flags flag_locked) pending)
  wrap-Holds text session flags pending s' nonzero small v absent live made =
      filled_made growth lib a (length text) session flags attempts s pending v absent live
        (c_string text) (length text) s' (ground arith) (λ i p. c_string-ne-zero text i nonzero p)
        (rw (wrap-filled text session flags small) at made)

  -- In a store with right counts, a `string_allocate` in a new cell for a session of the inventory
  -- that answers success has made a valid string object with the bytes of the buffer up to the
  -- first zero, at most 58, and keeps the counts right.
  pub allocate-Holds :
      (reserve : ℕ) (buffer : ℕ → ℕ) (session : ℕ) (pending : List Hold) (s' : Store)
      → Inv s pending
      → InNoArray a s
      → IsSession (some session) s
      → allocate growth lib a reserve buffer session attempts s ≡ some (success, s')
      → Holds buffer (strnlen buffer max_allocate_buffer_length) (s'.text a) × Inv s' pending
  unfolding allocate
  allocate-Holds reserve buffer session pending s' v absent live made =
      filled_made growth lib a _ (some session) flag_external attempts s pending v absent live
        buffer (strnlen buffer max_allocate_buffer_length) s' (ground arith)
        (strnlen-ne-zero buffer max_allocate_buffer_length) made
