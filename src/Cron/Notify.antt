-- ===== src/Cron/Notify.antt =====
-- `cron_handle_notification` and `cron_remove_entry` (src/redapid/cron.c): which program is
-- notified.
use red_brick_apid.Base.{
  ℕ, ◌+◌, ◌*◌, ◌/◌, ◌%◌, ◌^◌, Bool, true, false, none, some, List, arith, ◌≡◌, refl, ◌≢◌, ◌<◌, ap,
  Bool-cases, Option-cases, inl, inr, ◌==◌,
}
use red_brick_apid.Store.Arrays.{ArrayLib}
use red_brick_apid.ApiError.{success}
use red_brick_apid.Cron.{
  CronAttempts, answered, add_entry, Entry, CronFile, Cron, CronNotification, find_entry,
  entry_index, find_file, format_filename, same_name, remove_file, remove_entry, encode, decode,
  handle_notification,
}
use red_brick_apid.Cron.Digits.{format_filename-injective, find_file-without_file, find_file-none}
use red_brick_apid.Cron.Lookup.{IsUnique, find_entry-missing, remove_at-gone, remove_at-others}
use red_brick_apid.Cron.Entries.{new_file, add_entry-IsAdded}

-- The bytes of a notification decode to its cookie and its program ID.
pub decode-encode :
    (cookie program_id : ℕ)
    → cookie < 2 ^ 32
    → program_id < 2 ^ 16
    → decode (encode cookie program_id) ≡ some (record { cookie = cookie; program_id = program_id })
unfolding decode encode
decode-encode cookie program_id h h' =
    let c : cookie % 256
          + 2 ^ 8 * (cookie / 2 ^ 8 % 256)
          + 2 ^ 16 * (cookie / 2 ^ 16 % 256)
          + 2 ^ 24 * (cookie / 2 ^ 24 % 256)
        ≡ cookie =
      omega arith in
    let p : program_id % 256 + 2 ^ 8 * (program_id / 2 ^ 8 % 256) ≡ program_id = omega arith in
    λ i. some (record { cookie = c i; program_id = p i })

-- The file of the program is gone, if it could be; the other programs keep theirs.
pub record IsUnfiled (program_id : ℕ) (unlink_failed : Bool) (c after : Cron) : Type 0 where
  pub own_file : unlink_failed ≡ false → find_file (format_filename program_id) after.files ≡ none
  pub other_files :
      (q : ℕ)
      → q < 65536
      → q ≢ program_id
      → find_file (format_filename q) after.files ≡ find_file (format_filename q) c.files

remove_file-entries :
    (p : ℕ) (unlink_failed : Bool) (c : Cron) → (remove_file p unlink_failed c).entries ≡ c.entries
unfolding remove_file
remove_file-entries p true c = refl
remove_file-entries p false c = refl

remove_file-IsUnfiled :
    (p : ℕ) (unlink_failed : Bool) (c : Cron)
    → p < 65536
    → IsUnfiled p unlink_failed c (remove_file p unlink_failed c)
unfolding remove_file
remove_file-IsUnfiled p true c small = record { own_file = λ h. cc; other_files = λ q lt ne. refl }
remove_file-IsUnfiled p false c small = record {
  own_file = λ h. find_file-none (format_filename p) c.files;
  other_files = λ q lt ne. elim (Bool-cases (same_name (format_filename q) (format_filename p))) [
    | inl same ↦ absurd (ne (format_filename-injective q p lt small same))
    | inr differ ↦ find_file-without_file (format_filename p) (format_filename q) c.files differ
  ];
}

-- A notification for a 16-bit program ID that has another cookie, or that no entry is for, calls
-- nothing, changes no entry, and removes the file of the program if that is possible, and no other
-- program's file.
pub handle_notification-unknown :
    (n : CronNotification) (unlink_failed : Bool) (c : Cron)
    → n.program_id < 65536
    → (n.cookie ≡ c.cookie → find_entry n.program_id c.entries ≡ none)
    → ((handle_notification n unlink_failed c).0 ≡ none)
      × ((handle_notification n unlink_failed c).1.entries ≡ c.entries)
      × IsUnfiled n.program_id unlink_failed c (handle_notification n unlink_failed c).1
unfolding handle_notification
handle_notification-unknown n unlink_failed c small unknown =
    elim (Bool-cases (n.cookie == c.cookie)) [
      | inr old ↦ rw old (
        refl,
        remove_file-entries n.program_id unlink_failed c,
        remove_file-IsUnfiled n.program_id unlink_failed c small,
      )
      | inl current ↦
          let missing = unknown (ground arith) in
          rw (current, missing)
            (
              refl,
              remove_file-entries n.program_id unlink_failed c,
              remove_file-IsUnfiled n.program_id unlink_failed c small,
            )
    ]

-- After a `cron_add_entry` that answers success, with a 32-bit cookie and a 16-bit program ID, the
-- program's cron file is there, its bytes decode to a notification, and handling this notification
-- calls the entry's function with the entry's argument and changes nothing.
pub handle_notification-add_entry :
    (lib : ArrayLib Entry) (e : Entry) (identifier fields : List ℕ) (c after : Cron)
    (attempts : CronAttempts) (unlink_failed : Bool)
    → c.cookie < 2 ^ 32
    → e.program_id < 2 ^ 16
    → add_entry lib e identifier fields attempts c ≡ answered success after
    → (f : CronFile) × (n : CronNotification) × (find_file
          (format_filename e.program_id)
          after.files
        ≡ some f)
      × (decode f.bytes ≡ some n)
      × (handle_notification n unlink_failed after ≡ (some (e.notify, e.opaque), after))
unfolding handle_notification
handle_notification-add_entry lib e identifier fields c after attempts unlink_failed big small
      good =
    let added = add_entry-IsAdded lib e identifier fields c attempts after small good in
    (
      new_file lib e identifier fields c,
      record { cookie = c.cookie; program_id = e.program_id },
      added.file,
      decode-encode c.cookie e.program_id big small,
      ground (arith, added.same_cookie, added.entry),
    )

-- For a 16-bit program ID, and when no program has two entries, `cron_remove_entry` leaves the
-- program without an entry, and without a file if that could be removed, and leaves the entries and
-- the files of the other programs as they were.
pub remove_entry-IsUnfiled :
    (lib : ArrayLib Entry) (p : ℕ) (unlink_failed : Bool) (c : Cron)
    → p < 65536
    → IsUnique c.entries
    → (find_entry p (remove_entry lib p unlink_failed c).entries ≡ none)
      × ((q : ℕ)
          → q ≢ p
          → find_entry q (remove_entry lib p unlink_failed c).entries ≡ find_entry q c.entries)
      × IsUnfiled p unlink_failed c (remove_entry lib p unlink_failed c)
unfolding remove_entry
remove_entry-IsUnfiled lib p unlink_failed c small u =
    let r = remove_file-entries p unlink_failed c in
    let files = remove_file-IsUnfiled p unlink_failed c small in
    elim (Option-cases (entry_index p (remove_file p unlink_failed c).entries)) [
      | inl missing ↦
          rw (missing, remove_entry)
            (
              find_entry-missing p (remove_file p unlink_failed c).entries missing,
              (λ q ne. ap (find_entry q) r),
              files,
            )
      | inr (i, found) ↦
          let before = rw r at found in
          rw (found, remove_entry, lib.remove_lem, r)
            (
              remove_at-gone p i c.entries before (u p),
              (λ q ne. remove_at-others p q i c.entries before ne),
              record { own_file = files.own_file; other_files = files.other_files },
            )
    ]
