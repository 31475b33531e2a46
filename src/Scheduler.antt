-- ===== src/Scheduler.antt =====
-- src/redapid/program_scheduler.c and src/redapid/program_scheduler.h: when the program of a
-- program object is started and stopped. This file has the state, and how a scheduler stops.
pub mod Filesystem
pub mod Files
pub mod Kept
pub mod Launch
pub mod Events
pub mod Holds
pub mod Stopping
pub mod TimerStops
pub mod Errors
pub mod Opened
pub mod Logs
pub mod Redirected
pub mod Launching
pub mod Named
pub mod Stored
pub mod Prepared
pub mod Running
pub mod Callbacks
pub mod ShutDown
pub mod Tries
pub mod Step
pub mod Implementation
pub mod Life
pub mod Notified
pub mod Destruction
use red_brick_apid.Base.{
  ℕ, suc, ◌+◌, Bool, true, false, not, ◌&&◌, Option, none, some, List, [], ◌∷◌, ◌==◌, if◌then◌else◌,
}
use red_brick_apid.ApiError.{ApiE, Errno}
use red_brick_apid.Store.Arrays.{ArrayLib}
use red_brick_apid.Store.{Store, Hold}
use red_brick_apid.StringObject.Creation.{unlock_and_release}
use red_brick_apid.Acquire.{Answer}
use red_brick_apid.Process.{Process}

pub data SchedulerState : Type 0 where
  stopped running : SchedulerState

pub data ObserverState : Type 0 where
  pending waiting finished : ObserverState

pub data StartMode : Type 0 where
  never always interval cron invalid_mode : StartMode

pub data Redirection : Type 0 where
  dev_null pipe file individual_log continuous_log to_stdout invalid_redirection : Redirection

-- The part of the program's configuration that the scheduler reads.
pub record Config : Type 0 where
  pub start_mode : StartMode
  pub continue_after_error : Bool
  pub stdin_redirection : Redirection
  pub stdout_redirection : Redirection
  pub stderr_redirection : Redirection

-- `ProgramScheduler`. Strings are the addresses of string objects. What the last members say of the
-- world stands here too: whether the timer runs, whether there is a cron entry, whether the process
-- monitor has the observer, how often `state_changed` and `process_spawned` were called, how often a
-- process was killed, and the holds that no member refers to any more.
pub record Scheduler : Type 0 where
  pub working_directory : Option ℕ
  pub stdin_file_name : Option ℕ
  pub stdout_file_name : Option ℕ
  pub stderr_file_name : Option ℕ
  pub dev_null_file_name : ℕ
  pub observer_state : ObserverState
  pub shutdown : Bool
  pub waiting_for_brickd : Bool
  pub timer_active : Bool
  pub cron_active : Bool
  pub last_spawned : Option Process
  pub state : SchedulerState
  pub message : Option ℕ
  pub timer_runs : Bool
  pub has_cron_entry : Bool
  pub is_observed : Bool
  pub notices : ℕ
  pub spawns : ℕ
  pub kills : ℕ
  pub lost : List Hold

abbrev pub is_running : SchedulerState → Bool
is_running running = true
is_running stopped = false

abbrev pub is_waiting : ObserverState → Bool
is_waiting waiting = true
is_waiting _ = false

-- What `process_monitor_add_observer` does.
pub data Observation : Type 0 where
  not_added added informed : Observation

-- What the world answers to the calls of an event.
pub record Answers : Type 0 where
  pub timer_start : Option Errno
  pub timer_stop : Option Errno
  pub cron_entry : ApiE
  pub connected : Bool
  pub observation : Observation
  pub working_directory_made : ApiE
  pub stdout_directory_made : ApiE
  pub stderr_directory_made : ApiE
  pub log_exists : ℕ → Bool
  pub log_name_fits : ℕ → Bool
  pub header_written : Bool

-- How a file is opened: the flags are those of the call.
pub data Opening : Type 0 where
  open_to_read open_to_write open_or_create create_new create_to_append : Opening

-- The parts that the scheduler uses: `string_wrap` and `string_asprintf` with an internal and a
-- locked reference, `file_open` of the file that a string names, `pipe_create_`, and
-- `process_spawn` in a directory with three files.
pub record Services : Type 0 where
  pub new_string : Store → Answer ℕ
  pub open_file : ℕ → Opening → Store → Answer ℕ
  pub new_pipe : Store → Answer ℕ
  pub spawn : ℕ → ℕ → ℕ → ℕ → Store → Answer Process

-- `none` is undefined behaviour.
abbrev pub World : Type 0
World = Option (Scheduler × Store)

abbrev pub same_string : Option ℕ → Option ℕ → Bool
same_string none none = true
same_string (some a) (some b) = a == b
same_string _ _ = false

abbrev pub same_state : SchedulerState → SchedulerState → Bool
same_state stopped stopped = true
same_state running running = true
same_state _ _ = false

-- `program_scheduler_abort_observer`
unfoldable pub abort_observer : Scheduler → Scheduler
abort_observer p = record p {
  observer_state = finished;
  is_observed = if is_waiting p.observer_state then false else p.is_observed;
}

-- A string that may be there is one more hold.
abbrev pub with_string : Option ℕ → List Hold → List Hold
with_string none holds = holds
with_string (some a) holds = record { target = a; locked = true } ∷ holds

module _ (lib : ArrayLib ℕ) where
  abbrev pub release_string : Option ℕ → Store → Option Store
  release_string none s = some s
  release_string (some a) s = unlock_and_release lib a s

  -- `program_scheduler_set_state`
  unfoldable pub set_state : SchedulerState → Option ℕ → Scheduler → Store → World
  set_state state message p s =
      if same_state p.state state && same_string p.message message
      then some (p, s)
      else elim (if same_string p.message message then some s else release_string p.message s) [
        | none ↦ none
        | some s' ↦
            some (record p { state = state; message = message; notices = p.notices + 1 }, s')
      ]

  module _ (services : Services) (answers : Answers) where
    -- The timer of `program_scheduler_stop`. When it cannot be stopped an error message is made,
    -- which the recursive call does not take: nothing refers to it then.
    unfoldable pub stop_timer : Scheduler → Store → World
    stop_timer p s =
        if p.timer_active
        then elim answers.timer_stop [
          | none ↦ some (record p { timer_active = false; timer_runs = false }, s)
          | some errno ↦ elim (services.new_string s) [
            | none ↦ none
            | some (error, message, s') ↦ some (record p { lost = with_string message p.lost }, s')
          ]
        ]
        else some (p, s)

    abbrev pub stop_cron : Scheduler → Scheduler
    stop_cron p = record p {
      cron_active = false;
      has_cron_entry = if p.cron_active then false else p.has_cron_entry;
    }

    -- `program_scheduler_stop`
    unfoldable pub stop : Option ℕ → Scheduler → Store → World
    stop message p s = elim (stop_timer (abort_observer p) s) [
      | none ↦ none
      | some (p', s') ↦ set_state stopped message (stop_cron p') s'
    ]

    -- `program_scheduler_handle_error`, without the text of the message.
    unfoldable pub handle_error : Scheduler → Store → World
    handle_error p s = elim (services.new_string s) [
      | none ↦ none
      | some (error, message, s') ↦ stop message p s'
    ]
