-- ===== src/Tests/Monitors.antt =====
-- src/redapid/process_monitor.c at concrete inputs.
use red_brick_apid.Base.{
  ℕ, ◌==◌, if◌then◌else◌, true, List, [], ◌∷◌, ◌++◌, arith, ◌≡◌, refl, ◌≤◌, inl, inr,
}
use red_brick_apid.Store.Arrays.{ArrayLib, remove_at, occurrences}
use red_brick_apid.Monitor.{
  ProcessObservation, Monitor, SearchResult, not_found, search_failed, found, AddAttempts,
  add_observer, ticks, remove_observer, new_monitor,
}
use red_brick_apid.Monitor.Search.{
  ProcEntry, contents, no_file, search_proc, search_proc-any_process,
}
use red_brick_apid.Monitor.Inform.{RemovesOnlyItself}
use red_brick_apid.Monitor.Ticks.{Finished, ticks-Finished}
use red_brick_apid.Monitor.Add.{AddOutcome, IsTimed, add_observer-AddOutcome}
use red_brick_apid.Monitor.Timed.{OnlyRemoves, observer_added, initial, later, Reachable-IsTimed}
use red_brick_apid.Tests.Sample.{list_lib}

abbrev array : ArrayLib ProcessObservation
array = record {
  append = λ xs x. xs ++ x ∷ [];
  remove = remove_at;
  append_lem = λ xs x. refl;
  remove_lem = λ xs i. refl;
}

-- "lx"
abbrev lx : List ℕ
lx = 108 ∷ 120 ∷ []

-- Observer 8 removes itself when it is called, others do not.
abbrev leaves_at_once : ℕ → List ProcessObservation → List ProcessObservation
leaves_at_once o observations =
    if o == 8 then remove_observer list_lib lx o observations else observations

only_itself : RemovesOnlyItself list_lib array leaves_at_once lx
only_itself o observations = ground arith

abbrev waiting_one : ProcessObservation
waiting_one = record {
  cmdline_prefix = lx;
  timer_runs = true;
  remaining_timeout = 3;
  waiting = true;
  observers = 7 ∷ 8 ∷ 9 ∷ [];
}

abbrev monitor : Monitor
monitor = record { observations = waiting_one ∷ []; informed = [] }

once : (o : ℕ) → occurrences o (7 ∷ 8 ∷ 9 ∷ []) ≤ 1
once o = ground arith

abbrev results : List SearchResult
results = search_failed ∷ not_found ∷ []

ticks-Finished_example :
    Finished list_lib array leaves_at_once lx [] []
      (7 ∷ 8 ∷ 9 ∷ [])
      monitor
      (ticks list_lib array leaves_at_once 0 results monitor)
ticks-Finished_example =
    ticks-Finished list_lib array leaves_at_once lx [] [] only_itself refl results waiting_one
      monitor refl refl refl refl once (omega arith) (omega arith)

abbrev works : AddAttempts
works = record {
  result = not_found;
  observation_appended = true;
  prefix_copied = true;
  observers_created = true;
  observer_appended = true;
  timer_created = true;
  timer_started = true;
}

add_observer-AddOutcome_example :
    AddOutcome list_lib array leaves_at_once lx 30 5 monitor
      (add_observer list_lib array leaves_at_once lx 30 5 works monitor)
add_observer-AddOutcome_example =
    add_observer-AddOutcome list_lib array leaves_at_once lx 30 5 monitor works (refl, tt)

abbrev after_add : Monitor
after_add = (add_observer list_lib array leaves_at_once lx 30 5 works new_monitor).1

-- "brickv"
abbrev brickv : List ℕ
brickv = 98 ∷ 114 ∷ 105 ∷ 99 ∷ 107 ∷ 118 ∷ []

abbrev both_added : Monitor
both_added = (add_observer list_lib array leaves_at_once brickv 30 6 works after_add).1

only_removes : OnlyRemoves list_lib leaves_at_once
only_removes o observations = elim (only_itself o observations) [
  | inl e ↦ inl e
  | inr e ↦ inr (o, lx, e)
]

Reachable-IsTimed_example : IsTimed both_added.observations
Reachable-IsTimed_example =
    Reachable-IsTimed list_lib array leaves_at_once only_removes both_added (
      later after_add both_added
        (later new_monitor after_add initial (observer_added lx 30 5 works))
        (observer_added brickv 30 6 works))

abbrev proc : List ProcEntry
proc =
    record { is_directory = true; name = 115 ∷ []; name_fits = true; cmdline = no_file }
    ∷ record { is_directory = true; name = 49 ∷ []; name_fits = true; cmdline = no_file }
    ∷ record {
      is_directory = true;
      name = 50 ∷ [];
      name_fits = true;
      cmdline = contents (108 ∷ 120 ∷ 112 ∷ []);
    }
    ∷ []

search_proc-any_process_example : search_proc lx true true proc ≡ found
search_proc-any_process_example =
    search_proc-any_process lx proc
      (refl, λ e. cc, λ e. cc, (refl, λ e. cc, λ e. cc, (refl, λ e. cc, λ e. cc, tt)))
