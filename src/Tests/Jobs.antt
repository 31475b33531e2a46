-- ===== src/Tests/Jobs.antt =====
-- src/redapid/cron.c and src/redapid/socat.c at concrete inputs.
use red_brick_apid.Base.{ℕ, false, none, some, List, [], ◌∷◌, arith, ◌≡◌, refl, ◌≢◌}
use red_brick_apid.ApiError.{success}
use red_brick_apid.Cron.{
  Entry, CronFile, Cron, CronNotification, CronAttempts, Added, answered, undefined, search,
  write_file, place_entry, add_entry, remove_entry, decode, find_entry, find_file, format_filename,
  handle_notification,
}
use red_brick_apid.Cron.Lookup.{IsUnique}
use red_brick_apid.Cron.Entries.{AddOutcome, add_entry-AddOutcome, add_entry-undefined}
use red_brick_apid.Cron.Notify.{
  IsUnfiled, handle_notification-unknown, handle_notification-add_entry, remove_entry-IsUnfiled,
}
use red_brick_apid.Socat.{
  Received, received, interrupted, receive_all, socat_create, receive_all-delivered,
}
use red_brick_apid.Tests.Sample.{list_lib}

abbrev nightly : Entry
nightly = record { program_id = 5; notify = 1000; opaque = 2000 }

abbrev hourly : Entry
hourly = record { program_id = 4; notify = 1000; opaque = 3000 }

abbrev one_entry : Cron
one_entry = record { cookie = 305419896; entries = hourly ∷ []; files = []; temporary_files = 0 }

abbrev no_entry : Cron
no_entry = record { cookie = 305419896; entries = []; files = []; temporary_files = 0 }

abbrev all_good : CronAttempts
all_good = record {
  filename_failure = none;
  content_failure = none;
  append_failure = none;
  open_failure = none;
  chmod_failure = none;
  write_failure = none;
  rename_failure = none;
}

add_entry-AddOutcome_example :
    AddOutcome list_lib nightly
      (112 ∷ [])
      (42 ∷ [])
      one_entry
      (add_entry list_lib nightly (112 ∷ []) (42 ∷ []) all_good one_entry)
add_entry-AddOutcome_example =
    add_entry-AddOutcome list_lib nightly (112 ∷ []) (42 ∷ []) one_entry all_good (omega arith)

add_entry-undefined_example :
    add_entry list_lib nightly (112 ∷ []) (42 ∷ []) all_good no_entry ≡ undefined
add_entry-undefined_example =
    add_entry-undefined list_lib nightly (112 ∷ []) (42 ∷ []) no_entry all_good refl refl refl

abbrev stored : Added → Cron
stored (answered error c) = c
stored undefined = no_entry

add_entry_run :
    add_entry list_lib nightly (112 ∷ []) (42 ∷ []) all_good one_entry
    ≡ answered success (stored (add_entry list_lib nightly (112 ∷ []) (42 ∷ []) all_good one_entry))
unfolding add_entry search place_entry write_file
add_entry_run = refl

handle_notification-add_entry_example :
    (f : CronFile) × (n : CronNotification) × (find_file
        (format_filename 5)
        (stored (add_entry list_lib nightly (112 ∷ []) (42 ∷ []) all_good one_entry)).files
      ≡ some f)
    × (decode f.bytes ≡ some n)
    × (handle_notification n false
          (stored (add_entry list_lib nightly (112 ∷ []) (42 ∷ []) all_good one_entry))
        ≡ (
          some (1000, 2000),
          stored (add_entry list_lib nightly (112 ∷ []) (42 ∷ []) all_good one_entry),
        ))
handle_notification-add_entry_example =
    handle_notification-add_entry list_lib nightly (112 ∷ []) (42 ∷ []) one_entry
      (stored (add_entry list_lib nightly (112 ∷ []) (42 ∷ []) all_good one_entry)) all_good false
      (omega arith) (omega arith) add_entry_run

abbrev stale : CronNotification
stale = record { cookie = 1; program_id = 4 }

handle_notification-unknown_example :
    ((handle_notification stale false one_entry).0 ≡ none)
    × ((handle_notification stale false one_entry).1.entries ≡ hourly ∷ [])
    × IsUnfiled 4 false one_entry (handle_notification stale false one_entry).1
handle_notification-unknown_example =
    handle_notification-unknown stale false one_entry (omega arith) (λ h. absurd (omega (arith, h)))

one_entry-IsUnique : IsUnique (hourly ∷ [])
one_entry-IsUnique q = ground arith

remove_entry-IsUnfiled_example :
    (find_entry 4 (remove_entry list_lib 4 false one_entry).entries ≡ none)
    × ((q : ℕ)
        → q ≢ 4
        → find_entry q (remove_entry list_lib 4 false one_entry).entries
          ≡ find_entry q (hourly ∷ []))
    × IsUnfiled 4 false one_entry (remove_entry list_lib 4 false one_entry)
remove_entry-IsUnfiled_example =
    remove_entry-IsUnfiled list_lib 4 false one_entry (omega arith) one_entry-IsUnique

abbrev pieces : List Received
pieces = received (1 ∷ 2 ∷ []) ∷ interrupted ∷ received (3 ∷ 4 ∷ 5 ∷ 6 ∷ []) ∷ []

receive_all-delivered_example : receive_all pieces socat_create ≡ (1 ∷ 2 ∷ 3 ∷ 4 ∷ 5 ∷ 6 ∷ []) ∷ []
receive_all-delivered_example = receive_all-delivered pieces (omega arith, (omega arith, tt)) refl
