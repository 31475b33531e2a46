-- ===== src/Scheduler/Events.antt =====
-- The events of a scheduler (src/redapid/program_scheduler.c): the calls of the program object, and
-- the functions that the timer, cron, the process monitor and the process call.
use red_brick_apid.Base.{
  ℕ, ◌+◌, Bool, true, false, not, ◌&&◌, ◌||◌, none, some, ◌==◌, if◌then◌else◌,
}
use red_brick_apid.ApiError.{is_success}
use red_brick_apid.Store.Arrays.{ArrayLib}
use red_brick_apid.Store.{Store}
use red_brick_apid.Process.{Process, exited, error, killed, is_alive}
use red_brick_apid.Scheduler.{
  StartMode, never, always, interval, cron, invalid_mode, Config, Scheduler, Answers, Services,
  World, ObserverState, pending, waiting, finished, is_running, is_waiting, not_added, added,
  informed, abort_observer, running, set_state, stop, handle_error,
}
use red_brick_apid.Scheduler.Filesystem.{prepare_filesystem}
use red_brick_apid.Scheduler.Launch.{last_is_alive, spawn_process}

abbrev pub is_always : StartMode → Bool
is_always always = true
is_always _ = false

abbrev pub is_interval : StartMode → Bool
is_interval interval = true
is_interval _ = false

abbrev pub is_cron : StartMode → Bool
is_cron cron = true
is_cron _ = false

abbrev pub is_never : StartMode → Bool
is_never never = true
is_never _ = false

abbrev pub is_pending : ObserverState → Bool
is_pending pending = true
is_pending _ = false

abbrev pub is_finished : ObserverState → Bool
is_finished finished = true
is_finished _ = false

-- Has the process ended in a way that stops the program, unless it continues after errors?
unfoldable pub is_failure : Process → Bool
is_failure q = elim q.state [
  | exited ↦ not (q.exit_code == 0)
  | error ↦ true
  | killed ↦ true
  | _ ↦ false
]

module _ (lib : ArrayLib ℕ) (services : Services) (answers : Answers) (config : Config) where
  -- The timer is started, or an error is handled.
  unfoldable pub start_timer : Scheduler → Store → World
  start_timer p s = elim answers.timer_start [
    | some errno ↦ handle_error lib services answers p s
    | none ↦ some (record p { timer_active = true; timer_runs = true }, s)
  ]

  -- `program_scheduler_handle_process_state_change`, with the state of the last process.
  unfoldable pub handle_process_state_change : Scheduler → Store → World
  handle_process_state_change p s =
      if not (is_running p.state) then some (p, s) else elim p.last_spawned [
        | none ↦ none
        | some q ↦
            if is_alive q
            then some (p, s)
            else if is_failure q && not config.continue_after_error
            then stop lib services answers none p s
            else if is_always config.start_mode
            then start_timer p s
            else some (p, s)
      ]

  -- The part of `program_scheduler_start` that depends on the start mode.
  unfoldable pub start_by_mode : StartMode → Scheduler → Store → World
  start_by_mode never p s = stop lib services answers none p s
  start_by_mode always p s = spawn_process lib services answers config p s
  start_by_mode interval p s = start_timer p s
  start_by_mode cron p s =
      if is_success answers.cron_entry
      then some (record p { cron_active = true; has_cron_entry = true }, s)
      else handle_error lib services answers p s
  start_by_mode invalid_mode p s = handle_error lib services answers p s

  -- `program_scheduler_start`
  unfoldable pub start : Scheduler → Store → World
  start p s =
      if p.shutdown then some (p, s) else elim (set_state lib running none (abort_observer p) s) [
        | none ↦ none
        | some (p', s') ↦ start_by_mode config.start_mode p' s'
      ]

  -- `program_scheduler_handle_observer`
  unfoldable pub handle_observer : Scheduler → Store → World
  handle_observer p s =
      if is_waiting p.observer_state
      then start (record p { is_observed = false; observer_state = finished }) s
      else some (p, s)

  -- `program_scheduler_handle_timer`
  unfoldable pub handle_timer : Scheduler → Store → World
  handle_timer p s =
      if is_running p.state && (is_always config.start_mode || is_interval config.start_mode)
      then spawn_process lib services answers config p s
      else some (p, s)

  -- `program_scheduler_handle_cron`
  unfoldable pub handle_cron : Scheduler → Store → World
  handle_cron p s =
      if is_running p.state && is_cron config.start_mode
      then spawn_process lib services answers config p s
      else some (p, s)

  -- `process_monitor_add_observer` as the scheduler calls it; an observer of a process that is
  -- already there is informed at once.
  unfoldable pub observe : Scheduler → Store → World
  observe p s =
      let p' = record p { observer_state = waiting } in
      elim answers.observation [
        | not_added ↦ some (record p' { observer_state = finished }, s)
        | added ↦ some (record p' { is_observed = true }, s)
        | informed ↦ handle_observer (record p' { is_observed = true }) s
      ]

  -- The end of `program_scheduler_update`.
  unfoldable pub start_if_ready : Scheduler → Store → World
  start_if_ready p s =
      if is_finished p.observer_state && not p.waiting_for_brickd then start p s else some (p, s)

  unfoldable pub try_start : Scheduler → Store → World
  try_start p s =
      if is_never config.start_mode
      then stop lib services answers p.message p s
      else if is_pending p.observer_state
      then elim (observe p s) [ none ↦ none | some (p', s') ↦ start_if_ready p' s' ]
      else start_if_ready p s

  -- The connection to brickd is looked at, if the scheduler waits for it.
  unfoldable pub check_brickd : Scheduler → Scheduler
  check_brickd p = record p { waiting_for_brickd = p.waiting_for_brickd && not answers.connected }

  -- `program_scheduler_update`
  unfoldable pub update : Bool → Scheduler → Store → World
  update tries p s =
      if p.shutdown
      then some (p, s)
      else elim (prepare_filesystem lib services answers config (check_brickd p) s) [
        | none ↦ none
        | some (code, p', s') ↦
            if is_success code
            then (if tries then try_start p' s' else some (p', s'))
            else some (p', s')
      ]

  -- `program_scheduler_continue`
  unfoldable pub continue : Scheduler → Store → World
  continue p s =
      if p.shutdown
      then some (p, s)
      else if not (is_running p.state) && not (is_never config.start_mode)
      then start p s
      else some (p, s)

  -- A process that is alive is killed.
  unfoldable pub kill_last : Scheduler → Scheduler
  kill_last p = record p { kills = if last_is_alive p.last_spawned then p.kills + 1 else p.kills }

  -- `program_scheduler_shutdown`
  unfoldable pub shut_down : Scheduler → Store → World
  shut_down p s =
      if p.shutdown
      then some (p, s)
      else elim (stop lib services answers none (record p { shutdown = true }) s) [
        | none ↦ none
        | some (p', s') ↦ some (kill_last p', s')
      ]

-- What can happen to a scheduler.
pub data Event : Type 0 where
  updated : Bool → Event
  continued shut spawned observed timed out_of_cron process_changed : Event

module _ (lib : ArrayLib ℕ) (services : Services) where
  unfoldable pub step : Event → Config → Answers → Scheduler → Store → World
  step (updated tries) config answers p s = update lib services answers config tries p s
  step continued config answers p s = continue lib services answers config p s
  step shut config answers p s = shut_down lib services answers config p s
  step spawned config answers p s = spawn_process lib services answers config p s
  step observed config answers p s = handle_observer lib services answers config p s
  step timed config answers p s = handle_timer lib services answers config p s
  step out_of_cron config answers p s = handle_cron lib services answers config p s
  step process_changed config answers p s =
      handle_process_state_change lib services answers config p s
