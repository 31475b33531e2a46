-- ===== src/Monitor.antt =====
-- src/redapid/process_monitor.c: observers are informed when a process with a given command line is
-- there, or after a timeout.
pub mod Search
pub mod Shape
pub mod Inform
pub mod Ticks
pub mod Add
pub mod Timed
use red_brick_apid.Base.{
  ℕ, zero, suc, ◌+◌, ◌-◌, Bool, true, false, not, ◌&&◌, Option, none, some, List, [], ◌∷◌, ltb,
  ◌==◌, if◌then◌else◌, length, get_elem?, set_at, same_name,
}
use red_brick_apid.Store.Arrays.{ArrayLib, index_of}

-- `ProcessObservation`. An observer is an address; `timer_runs` says that there is a timer, which
-- calls the observation every 2 seconds.
pub record ProcessObservation : Type 0 where
  pub cmdline_prefix : List ℕ
  pub timer_runs : Bool
  pub remaining_timeout : ℕ
  pub waiting : Bool
  pub observers : List ℕ

-- The observations, and the observers that were informed, the latest first.
pub record Monitor : Type 0 where
  pub observations : List ProcessObservation
  pub informed : List ℕ

-- `process_monitor_init`
abbrev pub new_monitor : Monitor
new_monitor = record { observations = []; informed = [] }

-- `process_monitor_exit`; every timer is destroyed.
abbrev pub end_monitor : Monitor → Monitor
end_monitor m = record m { observations = [] }

-- What `process_monitor_search_proc` answers: -1, 0 or 1.
pub data SearchResult : Type 0 where
  search_failed not_found found : SearchResult

abbrev pub search_interval : ℕ
search_interval = 2

-- The observation for a command line, as the loop of `process_monitor_add_observer` finds it.
abbrev pub observation_index : List ℕ → List ProcessObservation → Option ℕ
observation_index prefix [] = none
observation_index prefix (v ∷ observations) =
    if same_name v.cmdline_prefix prefix
    then some 0
    else elim (observation_index prefix observations) [ none ↦ none | some i ↦ some (suc i) ]

-- The timer is destroyed.
unfoldable pub finish_observation : ProcessObservation → ProcessObservation
finish_observation v = record v { timer_runs = false; remaining_timeout = 0 }

-- The result of a search in an observation that waits.
unfoldable pub after_search : SearchResult → ProcessObservation → ProcessObservation
after_search found v = record v { waiting = false }
after_search search_failed v =
    let left =
      if ltb search_interval v.remaining_timeout
      then v.remaining_timeout - search_interval
      else 0 in
    record v { remaining_timeout = left; waiting = not (left == 0) }
after_search not_found v =
    let left =
      if ltb search_interval v.remaining_timeout
      then v.remaining_timeout - search_interval
      else 0 in
    record v { remaining_timeout = left; waiting = not (left == 0) }

-- The outcomes of the calls of `process_monitor_add_observer`, in their order.
pub record AddAttempts : Type 0 where
  pub result : SearchResult
  pub observation_appended : Bool
  pub prefix_copied : Bool
  pub observers_created : Bool
  pub observer_appended : Bool
  pub timer_created : Bool
  pub timer_started : Bool

abbrev pub is_failed : SearchResult → Bool
is_failed search_failed = true
is_failed _ = false

abbrev pub is_found : SearchResult → Bool
is_found found = true
is_found _ = false

module _ (lib : ArrayLib ℕ) where
  -- `process_monitor_remove_observer`
  unfoldable pub remove_observer : List ℕ → ℕ → List ProcessObservation → List ProcessObservation
  remove_observer prefix o [] = []
  remove_observer prefix o (v ∷ observations) =
      let rest = remove_observer prefix o observations in
      if same_name v.cmdline_prefix prefix
      then elim (index_of o v.observers) [
        | none ↦ v ∷ rest
        | some k ↦ record v { observers = lib.remove v.observers k } ∷ observations
      ]
      else v ∷ rest

  -- The observer is appended.
  unfoldable pub with_observer : ℕ → ProcessObservation → ProcessObservation
  with_observer o v = record v { observers = lib.append v.observers o }

  -- `function` is what the functions of the observers do to the observations.
  module _ (array : ArrayLib ProcessObservation)
      (function : ℕ → List ProcessObservation → List ProcessObservation) where
    abbrev pub put : ℕ → ProcessObservation → Monitor → Monitor
    put i v m = record m { observations = set_at m.observations i v }

    -- The function of an observer is called.
    unfoldable pub call : ℕ → Monitor → Monitor
    call o m = record m { observations = function o m.observations; informed = o ∷ m.informed }

    -- The loop of `process_monitor_update_observation` over the observers, backwards from `k` - 1.
    -- `none` is an access outside of an array.
    unfoldable pub inform : ℕ → ℕ → Monitor → Option Monitor
    inform i zero m = some m
    inform i (suc k) m = elim (get_elem? m.observations i) [
      | none ↦ none
      | some v ↦ elim (get_elem? v.observers k) [ none ↦ none | some o ↦ inform i k (call o m) ]
    ]

    -- `process_monitor_update_observation` of the observation at `i`.
    unfoldable pub update_observation : ℕ → SearchResult → Monitor → Option Monitor
    update_observation i result m = elim (get_elem? m.observations i) [
      | none ↦ none
      | some v ↦
          let w = after_search result v in
          if not v.waiting
          then some (put i (finish_observation v) m)
          else if w.waiting
          then some (put i w m)
          else inform i (length w.observers) (put i (finish_observation w) m)
    ]

    -- The timer calls, as long as it runs.
    unfoldable pub tick : ℕ → SearchResult → Monitor → Option Monitor
    tick i result m = elim (get_elem? m.observations i) [
      | none ↦ none
      | some v ↦ if v.timer_runs then update_observation i result m else some m
    ]

    unfoldable pub ticks : ℕ → List SearchResult → Monitor → Option Monitor
    ticks i [] m = some m
    ticks i (result ∷ results) m = elim (tick i result m) [
      | none ↦ none
      | some m' ↦ ticks i results m'
    ]

    -- The first part of `process_monitor_add_observer`: the observer of an observation that exists.
    unfoldable pub add_to : ℕ → ℕ → Bool → Monitor → Bool × Monitor
    add_to i o appended m =
        if appended
        then elim (get_elem? m.observations i) [
          | none ↦ (false, m)
          | some v ↦
              let m' = put i (with_observer o v) m in
              if v.waiting then (true, m') else (true, call o m')
        ]
        else (false, m)

    -- The members of a new observation.
    abbrev pub new_observation : List ℕ → ℕ → ℕ → Bool → ProcessObservation
    new_observation prefix timeout o waits = record {
      cmdline_prefix = prefix;
      timer_runs = waits;
      remaining_timeout = if waits then timeout else 0;
      waiting = waits;
      observers = lib.append [] o;
    }

    -- The cleanup from phase 1 on: the new observation leaves again.
    abbrev pub remove_new : Monitor → Monitor
    remove_new m = record m {
      observations = array.remove m.observations (length m.observations - 1);
    }

    -- The second part of `process_monitor_add_observer`: a new observation.
    unfoldable pub add_new : List ℕ → ℕ → ℕ → AddAttempts → Monitor → Bool × Monitor
    add_new prefix timeout o attempts m =
        let v = new_observation prefix timeout o (not (is_found attempts.result)) in
        let m' = record m { observations = array.append m.observations v } in
        if is_failed attempts.result
        then (false, m)
        else if not attempts.observation_appended
        then (false, m)
        else if not
            (attempts.prefix_copied && (attempts.observers_created && attempts.observer_appended))
        then (false, remove_new m')
        else if is_found attempts.result
        then (true, call o m')
        else if not (attempts.timer_created && attempts.timer_started)
        then (false, remove_new m')
        else (true, m')

    -- `process_monitor_add_observer`: is the answer 0?
    unfoldable pub add_observer : List ℕ → ℕ → ℕ → AddAttempts → Monitor → Bool × Monitor
    add_observer prefix timeout o attempts m = elim (observation_index prefix m.observations) [
      | none ↦ add_new prefix timeout o attempts m
      | some i ↦ add_to i o attempts.observer_appended m
    ]
