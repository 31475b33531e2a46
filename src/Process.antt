-- ===== src/Process.antt =====
-- src/redapid/process.c and src/redapid/process.h: process objects, the states of their child
-- processes, and the calls of a client on them. What a process holds, in the order in which
-- `process_destroy` gives it back, stands with the other holds of the store.
pub mod Changes
pub mod Child
pub mod Spawn
pub mod Spawning
pub mod Steps
pub mod Stdio
use red_brick_apid.Base.{
  ℕ, ◌%◌, ◌^◌, Bool, true, false, not, ◌&&◌, ◌||◌, Option, none, some, List, [], ◌∷◌, ◌++◌, ltb,
  ◌==◌, if◌then◌else◌,
}
use red_brick_apid.ApiError.{
  ApiE, Errno, success, invalid_operation, unknown_error, get_error_code_from_errno,
}
use red_brick_apid.Store.Arrays.{ArrayLib}
use red_brick_apid.Store.{Store}
use red_brick_apid.Object.{remove_internal_reference}

pub data ProcessState : Type 0 where
  unknown running error exited killed stopped : ProcessState

-- `process_state_is_alive`
unfoldable pub state_is_alive : ProcessState → Bool
state_is_alive unknown = true
state_is_alive running = true
state_is_alive error = false
state_is_alive exited = false
state_is_alive killed = false
state_is_alive stopped = true

-- `ProcessStateChange`
pub record Change : Type 0 where
  pub state : ProcessState
  pub timestamp : ℕ
  pub exit_code : ℕ

-- The process object without its header and without what it holds; `cell` is its address.
pub record Process : Type 0 where
  pub cell : ℕ
  pub uid : ℕ
  pub gid : ℕ
  pub pid : ℕ
  pub release_on_death : Bool
  pub state : ProcessState
  pub timestamp : ℕ
  pub exit_code : ℕ

-- `process_is_alive`
unfoldable pub is_alive : Process → Bool
is_alive p = state_is_alive p.state

-- What `kill` answers.
pub data KillResult : Type 0 where
  sent no_such_process : KillResult
  not_sent : Errno → KillResult

-- `process_kill`; ESRCH is none of the errno values that have an error code.
unfoldable pub kill : Process → KillResult → ApiE
kill p result = if not (is_alive p) then invalid_operation else elim result [
  | sent ↦ success
  | no_such_process ↦ get_error_code_from_errno Errno.other
  | not_sent errno ↦ get_error_code_from_errno errno
]

-- `process_get_identity`
unfoldable pub get_identity : Process → ApiE × ℕ × ℕ × ℕ
get_identity p = (success, p.pid, p.uid, p.gid)

-- `process_get_state`
unfoldable pub get_state : Process → ApiE × ProcessState × ℕ × ℕ
get_state p = (success, p.state, p.timestamp, p.exit_code)

-- `process_destroy`: is the child process killed, and is the thread that waits for it joined? A
-- child process that cannot be killed would make the thread wait for ever.
unfoldable pub destroy : Process → KillResult → Bool × Bool
destroy p result =
    if is_alive p
    then (true, elim result [ sent ↦ true | no_such_process ↦ true | not_sent errno ↦ false ])
    else (false, true)

-- The status that `waitpid` answers, as the macros of the C library take it apart.
pub data WaitStatus : Type 0 where
  if_exited if_signaled if_stopped : ℕ → WaitStatus
  if_continued otherwise : WaitStatus

-- PROCESS_E_INTERNAL_ERROR, PROCESS_E_CANNOT_EXECUTE and PROCESS_E_DOES_NOT_EXIST
abbrev pub internal_error_code : ℕ
internal_error_code = 125

abbrev pub cannot_execute_code : ℕ
cannot_execute_code = 126

abbrev pub does_not_exist_code : ℕ
does_not_exist_code = 127

-- The state change of a status, as `process_wait` reads it.
unfoldable pub change_of : ℕ → WaitStatus → Change
change_of time (if_exited status) =
    let code = status % 2 ^ 8 in
    record {
      state =
          if code == internal_error_code
            || code == cannot_execute_code
            || code == does_not_exist_code
          then error
          else exited;
      timestamp = time;
      exit_code = code;
    }
change_of time (if_signaled signal) = record {
  state = killed;
  timestamp = time;
  exit_code = signal % 2 ^ 8;
}
change_of time (if_stopped signal) = record {
  state = stopped;
  timestamp = time;
  exit_code = signal % 2 ^ 8;
}
change_of time if_continued = record { state = running; timestamp = time; exit_code = 0 }
change_of time otherwise = record { state = unknown; timestamp = time; exit_code = 0 }

-- A turn of the loop of `process_wait`: `waitpid` fails, or answers a status at a time, which is
-- then written to the pipe or not.
pub data Wait : Type 0 where
  wait_failed : Wait
  answered : ℕ → WaitStatus → Bool → Wait

-- `process_wait`: the changes that are written to the pipe.
unfoldable pub wait : List Wait → List Change
wait [] = []
wait (wait_failed ∷ waits) = []
wait (answered time status written ∷ waits) =
    let rest = wait waits in
    if not written
    then []
    else change_of time status ∷ (if state_is_alive (change_of time status).state then rest else [])

-- What a client or the creator of the process is told.
pub data Notice : Type 0 where
  state_changed_callback : ℕ → ProcessState → ℕ → ℕ → Notice

-- The process after a change of its state.
abbrev pub changed : Change → Process → Process
changed c p = record p {
  state = c.state;
  timestamp = c.timestamp;
  exit_code = c.exit_code;
  pid = if state_is_alive c.state then p.pid else 0;
}

-- The callback to the clients, and the reference that is given up with the death of the process.
unfoldable pub after_state_changed :
    ArrayLib ℕ → Process → Store → Option (Process × List Notice × Store)
after_state_changed lib p s =
    let notices =
      if ltb 0 (s.object p.cell).external_reference_count
      then state_changed_callback (s.object p.cell).id p.state p.timestamp p.exit_code ∷ []
      else [] in
    if p.release_on_death && not (is_alive p)
    then elim (remove_internal_reference lib p.cell s) [
      | none ↦ none
      | some s' ↦ some (record p { release_on_death = false }, notices, s')
    ]
    else some (p, notices, s)

-- `state_changed` is the function that the creator gave, with a state of the creator's own.
module _ (lib : ArrayLib ℕ) {C : Type 0}
    (state_changed : Process → C → Store → Option (C × Store)) where
  -- What follows the function of the creator.
  abbrev pub with_creator :
      C → Option (Process × List Notice × Store) → Option (Process × List Notice × C × Store)
  with_creator k none = none
  with_creator k (some (p, notices, s)) = some (p, notices, k, s)

  -- `process_handle_state_change`; `none` is a read of the pipe that failed.
  unfoldable pub handle_state_change :
      Option Change → Process → C → Store → Option (Process × List Notice × C × Store)
  handle_state_change none p k s = some (p, [], k, s)
  handle_state_change (some c) p k s = elim (state_changed (changed c p) k s) [
    | none ↦ none
    | some (k', s') ↦ with_creator k' (after_state_changed lib (changed c p) s')
  ]

  -- The changes of the pipe, one after the other.
  unfoldable pub handle_all :
      List Change → Process → C → Store → Option (Process × List Notice × C × Store)
  handle_all [] p k s = some (p, [], k, s)
  handle_all (c ∷ cs) p k s = elim (handle_state_change (some c) p k s) [
    | none ↦ none
    | some (p', notices, k', s') ↦ elim (handle_all cs p' k' s') [
      | none ↦ none
      | some (p'', more, k'', s'') ↦ some (p'', notices ++ more, k'', s'')
    ]
  ]
