-- ===== src/Cron.antt =====
-- src/redapid/cron.c: the cron entries of programs, their files in /etc/cron.d, and the
-- notifications that a cron job sends back through src/redapid/socat.c.
pub mod Digits
pub mod Lookup
pub mod Entries
pub mod Notify
use red_brick_apid.Base.{
  ℕ, zero, suc, ◌+◌, ◌-◌, ◌*◌, ◌/◌, ◌%◌, ◌^◌, Bool, true, false, not, ◌&&◌, Option, none, some,
  List, [], ◌∷◌, ◌++◌, arith, ltb, ◌==◌, if◌then◌else◌, ◌≡◌, refl, ◌<◌, length, same_name, set_at,
}
use red_brick_apid.ApiError.{ApiE, Errno, success, get_error_code_from_errno}
use red_brick_apid.Store.Arrays.{ArrayLib}

-- `notify` and `opaque` are pointers.
pub record Entry : Type 0 where
  pub program_id : ℕ
  pub notify : ℕ
  pub opaque : ℕ

-- A cron file: the identifier in its comment, the time fields, and the bytes that its `printf` sends.
pub record CronFile : Type 0 where
  pub identifier : List ℕ
  pub fields : List ℕ
  pub bytes : List ℕ

-- The state of the subsystem, with the regular files of /etc/cron.d by their names. `temporary_files`
-- counts the files that the calls leave in /tmp.
pub record Cron : Type 0 where
  pub cookie : ℕ
  pub entries : List Entry
  pub files : List (List ℕ × CronFile)
  pub temporary_files : ℕ

pub record CronNotification : Type 0 where
  pub cookie : ℕ
  pub program_id : ℕ

-- The decimal digits of a number, at most `places` of them, as `%u` prints them.
unfoldable pub digits : ℕ → ℕ → List ℕ
digits zero n = []
digits (suc places) n =
    let higher = digits places (n / 10) in
    if ltb n 10 then (48 + n) ∷ [] else higher ++ (48 + n % 10) ∷ []

-- "redapid-schedule-program-"
abbrev pub filename_prefix : List ℕ
filename_prefix =
    114 ∷ 101 ∷ 100 ∷ 97 ∷ 112 ∷ 105 ∷ 100 ∷ 45 ∷ 115 ∷ 99 ∷ 104 ∷ 101 ∷ 100 ∷ 117 ∷ 108 ∷ 101 ∷ 45
    ∷ 112 ∷ 114 ∷ 111 ∷ 103 ∷ 114 ∷ 97 ∷ 109 ∷ 45 ∷ []

-- `cron_format_filename`, the name in /etc/cron.d; a 16-bit ID has at most five digits.
unfoldable pub format_filename : ℕ → List ℕ
format_filename program_id = filename_prefix ++ digits 5 program_id

-- The bytes of the notification, as `cron_add_entry` prints them.
unfoldable pub encode : ℕ → ℕ → List ℕ
encode cookie program_id =
    cookie % 256
    ∷ cookie / 2 ^ 8 % 256
    ∷ cookie / 2 ^ 16 % 256
    ∷ cookie / 2 ^ 24 % 256
    ∷ program_id % 256
    ∷ program_id / 2 ^ 8 % 256
    ∷ []

-- The same bytes as the packed structure, on a little-endian machine.
unfoldable pub decode : List ℕ → Option CronNotification
decode (a ∷ b ∷ c ∷ d ∷ e ∷ f ∷ []) =
    some (record { cookie = a + 2 ^ 8 * b + 2 ^ 16 * c + 2 ^ 24 * d; program_id = e + 2 ^ 8 * f })
decode _ = none

abbrev pub without_file : List ℕ → List (List ℕ × CronFile) → List (List ℕ × CronFile)
without_file name [] = []
without_file name (f ∷ files) =
    if same_name f.0 name then without_file name files else f ∷ without_file name files

-- `rename` puts the file in the place of any that has the name.
abbrev pub put_file : List ℕ → CronFile → List (List ℕ × CronFile) → List (List ℕ × CronFile)
put_file name file files = (name, file) ∷ without_file name files

abbrev pub find_file : List ℕ → List (List ℕ × CronFile) → Option CronFile
find_file name [] = none
find_file name (f ∷ files) = if same_name f.0 name then some f.1 else find_file name files

-- `cron_remove_file`; `unlink_failed` says that the name could not be formatted or that `unlink`
-- answered an error, neither of which ends the callers.
unfoldable pub remove_file : ℕ → Bool → Cron → Cron
remove_file program_id unlink_failed c =
    if unlink_failed
    then c
    else record c { files = without_file (format_filename program_id) c.files }

-- What `entry` points to in `cron_add_entry`: it is not initialised.
pub data Pointer : Type 0 where
  indeterminate null : Pointer
  entry_at : ℕ → Pointer

-- The loop of `cron_add_entry` from index `i` on.
unfoldable pub search : ℕ → ℕ → List Entry → Pointer → Pointer
search program_id i [] entry = entry
search program_id i (e ∷ entries) entry =
    if e.program_id == program_id then entry_at i else search program_id (i + 1) entries null

-- The outcomes of the calls of `cron_add_entry` that can fail, in their order.
pub record CronAttempts : Type 0 where
  pub filename_failure : Option Errno
  pub content_failure : Option Errno
  pub append_failure : Option Errno
  pub open_failure : Option Errno
  pub chmod_failure : Option Errno
  pub write_failure : Option Errno
  pub rename_failure : Option Errno

-- A call answers an error code, or reads a pointer that is not initialised.
pub data Added : Type 0 where
  answered : ApiE → Cron → Added
  undefined : Added

-- The first of two failures.
abbrev pub or_else : Option Errno → Option Errno → Option Errno
or_else (some errno) later = some errno
or_else none later = later

-- The entry with the program ID, as the loops of `cron_remove_entry` and
-- `cron_handle_notification` find it.
abbrev pub entry_index : ℕ → List Entry → Option ℕ
entry_index program_id [] = none
entry_index program_id (e ∷ entries) =
    if e.program_id == program_id
    then some 0
    else elim (entry_index program_id entries) [ none ↦ none | some i ↦ some (suc i) ]

abbrev pub find_entry : ℕ → List Entry → Option Entry
find_entry program_id [] = none
find_entry program_id (e ∷ entries) =
    if e.program_id == program_id then some e else find_entry program_id entries

module _ (lib : ArrayLib Entry) where
  -- The cleanup of `cron_add_entry` in phase 1 or 2: an entry that was appended leaves again.
  abbrev pub undo : Bool → Cron → Cron
  undo appended c =
      if appended then record c { entries = lib.remove c.entries (length c.entries - 1) } else c

  -- The part of `cron_add_entry` that writes the file, once the entry is there.
  unfoldable pub write_file : ℕ → CronFile → Bool → CronAttempts → Cron → Added
  write_file program_id file appended attempts c = elim attempts.open_failure [
    | some errno ↦ answered (get_error_code_from_errno errno) (undo appended c)
    | none ↦
        elim (or_else attempts.chmod_failure
          (or_else attempts.write_failure attempts.rename_failure)) [
            | some errno ↦
                answered (get_error_code_from_errno errno)
                  (undo appended (record c { temporary_files = c.temporary_files + 1 }))
            | none ↦
                answered success
                  (record c { files = put_file (format_filename program_id) file c.files })
          ]
  ]

  -- What `cron_add_entry` does with the pointer of its search.
  unfoldable pub place_entry : Pointer → Entry → CronFile → CronAttempts → Cron → Added
  place_entry indeterminate e file attempts c = undefined
  place_entry null e file attempts c = elim attempts.append_failure [
    | some errno ↦ answered (get_error_code_from_errno errno) c
    | none ↦
        write_file e.program_id file true attempts (record c { entries = lib.append c.entries e })
  ]
  place_entry (entry_at i) e file attempts c =
      write_file e.program_id file false attempts (record c { entries = set_at c.entries i e })

  -- `cron_add_entry`
  unfoldable pub add_entry : Entry → List ℕ → List ℕ → CronAttempts → Cron → Added
  add_entry e identifier fields attempts c =
      elim (or_else attempts.filename_failure attempts.content_failure) [
        | some errno ↦ answered (get_error_code_from_errno errno) c
        | none ↦
            place_entry (search e.program_id 0 c.entries indeterminate) e
              (record {
                identifier = identifier;
                fields = fields;
                bytes = encode c.cookie e.program_id;
              })
              attempts c
      ]

  -- `cron_remove_entry`
  unfoldable pub remove_entry : ℕ → Bool → Cron → Cron
  remove_entry program_id unlink_failed c =
      let c' = remove_file program_id unlink_failed c in
      elim (entry_index program_id c'.entries) [
        | none ↦ c'
        | some i ↦ record c' { entries = lib.remove c'.entries i }
      ]

-- `cron_handle_notification`: the callback and its argument, if one is called.
unfoldable pub handle_notification : CronNotification → Bool → Cron → Option (ℕ × ℕ) × Cron
handle_notification n unlink_failed c =
    if not (n.cookie == c.cookie)
    then (none, remove_file n.program_id unlink_failed c)
    else elim (find_entry n.program_id c.entries) [
      | none ↦ (none, remove_file n.program_id unlink_failed c)
      | some e ↦ (some (e.notify, e.opaque), c)
    ]
