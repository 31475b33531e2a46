-- ===== src/StringObject/Creation.antt =====
-- `string_create` and the functions that call it (src/redapid/string.c): a new string object.
pub mod Text
pub mod Calls
pub mod Refused
use red_brick_apid.Base.{
  ℕ, zero, suc, ◌+◌, ◌-◌, ◌%◌, ◌≤◌, ◌<◌, ◌≡◌, ◌≢◌, Option, none, some, Bool, true, false, not, List,
  [], ◌∷◌, arith, ltb, leb, ◌==◌, if◌then◌else◌, length,
}
use red_brick_apid.ApiError.{ApiE, is_success, success, out_of_range, no_free_memory}
use red_brick_apid.Memory.{Block, Allocation, malloc, memcpy, strnlen, c_string}
use red_brick_apid.Types.{Object, String, string, int32_max, uint32_mod}
use red_brick_apid.Store.Arrays.{ArrayLib}
use red_brick_apid.Store.{Store, update}
use red_brick_apid.Object.{lock, unlock, add_internal_reference, remove_internal_reference}
use red_brick_apid.Object.Create.{Attempts, object_create, flag_external}
use red_brick_apid.StringObject.{
  Growth, Run, returns, undefined, put_byte, max_allocate_buffer_length,
}

-- The outcomes of the calls that can fail: the buffer, the object, and those of `object_create`.
pub record StringAttempts : Type 0 where
  pub buffer : Allocation
  pub memory : Bool
  pub create : Attempts

abbrev pub with_text : ℕ → String → Store → Store
with_text a t s = record s { text = update s.text a t; holds = update s.holds a [] }

-- The text of `length` bytes, copied into a new buffer and terminated.
unfoldable pub fill_text : String → (ℕ → ℕ) → ℕ → Run
fill_text t source length = elim (memcpy t.buffer 0 source length) [
  | none ↦ undefined
  | some b ↦ put_byte (record t { buffer = b; length = length }) length 0 (returns success)
]

-- The same on the string in the store; `none` is undefined behaviour.
abbrev pub after_fill : ℕ → Store → Run → Option (ApiE × Store)
after_fill a s undefined = none
after_fill a s (returns e t) = some (e, record s { text = update s.text a t })

-- `string_acquire_and_lock`
unfoldable pub acquire_and_lock : ℕ → Store → Store
acquire_and_lock a s = lock a (add_internal_reference a s)

-- `string_unlock_and_release`
unfoldable pub unlock_and_release : ArrayLib ℕ → ℕ → Store → Option Store
unlock_and_release lib a s = remove_internal_reference lib a (unlock a s)

module _ (growth : Growth) where
  open growth use {grow}

  -- The buffer of `string_create`: a new one, or an external one that holds `text`.
  unfoldable pub create_buffer : ℕ → Option (List ℕ) → Allocation → ApiE × Option String
  create_buffer reserve none memory =
      if ltb int32_max reserve
      then (out_of_range, none)
      else elim (malloc (grow (reserve + 1)) memory) [
        | none ↦ (no_free_memory, none)
        | some b ↦
            (success, some (record { buffer = b; length = 0; allocated = grow (reserve + 1) }))
      ]
  create_buffer reserve (some text) memory =
      let n = length text % uint32_mod in
      if ltb int32_max n then (out_of_range, none) else (
        success,
        some (record {
          buffer = record { size = length text + 1; byte = c_string text };
          length = n;
          allocated = n + 1;
        }),
      )

  module _ (lib : ArrayLib ℕ) where
    -- `string_create`, with the cell that `calloc` answers for the object.
    unfoldable pub create :
        ℕ → ℕ → Option (List ℕ) → Option ℕ → ℕ → StringAttempts → Store → ApiE × Store
    create a reserve external session flags attempts s =
        let (error, made) = create_buffer reserve external attempts.buffer in
        elim made [
          | none ↦ (error, s)
          | some t ↦
              if not attempts.memory
              then (no_free_memory, s)
              else object_create lib a string session flags attempts.create (with_text a t s)
        ]

    -- The end of `string_wrap` and `string_allocate`: an error of `string_create` is passed on.
    unfoldable pub filled : ℕ → (ℕ → ℕ) → ℕ → ApiE × Store → Option (ApiE × Store)
    filled a source n (error, s) =
        if is_success error then after_fill a s (fill_text (s.text a) source n) else some (error, s)

    -- `string_wrap`
    unfoldable pub wrap : ℕ → List ℕ → Option ℕ → ℕ → StringAttempts → Store → Option (ApiE × Store)
    wrap a text session flags attempts s =
        let n = length text % uint32_mod in
        if ltb int32_max n
        then some (out_of_range, s)
        else filled a (c_string text) n (create a n none session flags attempts s)

    -- `string_asprintf`, with the text that `vasprintf` answers.
    unfoldable pub asprintf :
        ℕ → Option (List ℕ) → Option ℕ → ℕ → StringAttempts → Store → ApiE × Store
    asprintf a formatted session flags attempts s = elim formatted [
      | none ↦ (no_free_memory, s)
      | some text ↦ create a 0 (some text) session flags attempts s
    ]

    -- `string_allocate`
    unfoldable pub allocate : ℕ → ℕ → (ℕ → ℕ) → ℕ → StringAttempts → Store → Option (ApiE × Store)
    allocate a reserve buffer session attempts s =
        let n = strnlen buffer max_allocate_buffer_length in
        let reserve' = if ltb reserve n then n else reserve in
        filled a buffer n (create a reserve' none (some session) flag_external attempts s)
