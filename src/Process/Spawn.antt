-- ===== src/Process/Spawn.antt =====
-- `process_spawn` (src/redapid/process.c), step by step. Each step is given what the call holds so
-- far, the latest first: the phase that its cleanup starts from, and in the end what the process
-- holds.
use red_brick_apid.Base.{
  ℕ, ◌+◌, Bool, true, false, not, Option, none, some, List, [], ◌∷◌, ◌==◌, if◌then◌else◌,
}
use red_brick_apid.ApiError.{
  ApiE, Errno, is_success, success, invalid_parameter, no_free_memory, get_error_code_from_errno,
}
use red_brick_apid.Types.{string, process}
use red_brick_apid.Store.Arrays.{ArrayLib}
use red_brick_apid.Store.{Store, Hold}
use red_brick_apid.Object.Create.{Attempts, object_create, has_flag, flag_internal}
use red_brick_apid.ListObject.{with_items, get_acquired_and_locked}
use red_brick_apid.Acquire.{Answer, get_string, get_file, fail, after_lookup}
use red_brick_apid.Process.{Process, running}
use red_brick_apid.Process.Child.{
  ForkAttempts, ChildAttempts, ArrayAttempts, fork, child_status, pointer_array, targets,
}

-- The arguments of the call; the functions and outputs that it is given are left aside.
pub record Request : Type 0 where
  pub executable_id : ℕ
  pub arguments_id : ℕ
  pub environment_id : ℕ
  pub working_directory_id : ℕ
  pub uid : ℕ
  pub gid : ℕ
  pub stdin_id : ℕ
  pub stdout_id : ℕ
  pub stderr_id : ℕ
  pub session : Option ℕ
  pub flags : ℕ
  pub release_on_death : Bool

-- The outcomes of the calls that can fail, the ID of the child process, and the time.
pub record SpawnAttempts : Type 0 where
  pub arguments : ArrayAttempts
  pub environment : ArrayAttempts
  pub status_pipe : Option Errno
  pub fork : ForkAttempts
  pub child : ChildAttempts
  pub status : Option Errno
  pub memory : Bool
  pub state_change_pipe : Option Errno
  pub event_source : Bool
  pub create : Attempts
  pub pid : ℕ
  pub time : ℕ

-- What has become of the child process: it runs the executable with arguments and an environment,
-- or was sent SIGKILL.
pub data Spawned : Type 0 where
  spawned : Process → List (Option ℕ) → List (Option ℕ) → Spawned
  child_killed : ℕ → Spawned

-- `object_create_flags | OBJECT_CREATE_FLAG_INTERNAL`
abbrev pub with_internal : ℕ → ℕ
with_internal flags = if has_flag flags flag_internal then flags else flags + flag_internal

abbrev pub first_byte : ℕ → Store → ℕ
first_byte a s = (s.text a).buffer.byte 0

-- '/'
abbrev pub slash : ℕ
slash = 47

module _ (lib : ArrayLib ℕ) (request : Request) (attempts : SpawnAttempts) (a : ℕ) where
  -- The process object, whose members are set from the arguments.
  abbrev pub new_process : Process
  new_process = record {
    cell = a;
    uid = request.uid;
    gid = request.gid;
    pid = attempts.pid;
    release_on_death = request.release_on_death;
    state = running;
    timestamp = attempts.time;
    exit_code = 0;
  }

  -- A failure behind the fork.
  abbrev pub fail_and_kill : ApiE → List Hold → Store → Answer Spawned
  fail_and_kill error holds s = fail lib (some (child_killed attempts.pid)) error holds s

  -- From phase 14. Until the call succeeds it is its cleanup that gives the holds back, and not the
  -- destruction of the object.
  unfoldable pub create_object :
      List (Option ℕ) → List (Option ℕ) → List Hold → Store → Answer Spawned
  create_object argv envp holds s =
      let (error, s') =
        object_create lib a process request.session (with_internal request.flags) attempts.create
          (with_items a [] s) in
      if is_success error
      then some (success, some (spawned new_process argv envp), with_items a holds s')
      else fail_and_kill error holds s'

  -- From phase 11, when the child process has started. No error code is set when the event source
  -- cannot be added: it still is the one that the child has written, API_E_SUCCESS.
  unfoldable pub setup_object :
      List (Option ℕ) → List (Option ℕ) → List Hold → Store → Answer Spawned
  setup_object argv envp holds s =
      if not attempts.memory
      then fail_and_kill no_free_memory holds s
      else elim attempts.state_change_pipe [
        | some errno ↦ fail_and_kill (get_error_code_from_errno errno) holds s
        | none ↦
            if not attempts.event_source
            then fail_and_kill success holds s
            else create_object argv envp holds s
      ]

  -- From phase 11: the parent has the pipe open for writing too, so it waits for ever for a child
  -- process that ends without having written.
  unfoldable pub await_child :
      List (Option ℕ) → List (Option ℕ) → List Hold → Store → Answer Spawned
  await_child argv envp holds s = elim attempts.status [
    | some errno ↦ fail_and_kill (get_error_code_from_errno errno) holds s
    | none ↦ elim (child_status attempts.fork.unblocked attempts.child) [
      | none ↦ none
      | some error ↦
          if is_success error then setup_object argv envp holds s else fail_and_kill error holds s
    ]
  ]

  -- From phase 9: the status pipe and the fork.
  unfoldable pub fork_child : List (Option ℕ) → List (Option ℕ) → List Hold → Store → Answer Spawned
  fork_child argv envp holds s = elim attempts.status_pipe [
    | some errno ↦ fail lib none (get_error_code_from_errno errno) holds s
    | none ↦
        let error = fork attempts.fork in
        if is_success error then await_child argv envp holds s else fail lib none error holds s
  ]

  unfoldable pub acquire_stderr :
      List (Option ℕ) → List (Option ℕ) → List Hold → Store → Answer Spawned
  acquire_stderr argv envp holds s =
      after_lookup lib false holds (λ r. fork_child argv envp) (get_file request.stderr_id s)

  unfoldable pub acquire_stdout :
      List (Option ℕ) → List (Option ℕ) → List Hold → Store → Answer Spawned
  acquire_stdout argv envp holds s =
      after_lookup lib false holds (λ o. acquire_stderr argv envp) (get_file request.stdout_id s)

  unfoldable pub acquire_stdin :
      List (Option ℕ) → List (Option ℕ) → List Hold → Store → Answer Spawned
  acquire_stdin argv envp holds s =
      after_lookup lib false holds (λ i. acquire_stdout argv envp) (get_file request.stdin_id s)

  -- From phase 6.
  unfoldable pub check_directory :
      List (Option ℕ) → List (Option ℕ) → ℕ → List Hold → Store → Answer Spawned
  check_directory argv envp d holds s =
      if first_byte d s == 0
      then fail lib none invalid_parameter holds s
      else if not (first_byte d s == slash)
      then fail lib none invalid_parameter holds s
      else acquire_stdin argv envp holds s

  -- From phase 4.
  unfoldable pub prepare_environment : List (Option ℕ) → ℕ → List Hold → Store → Answer Spawned
  prepare_environment argv e holds s =
      let (error, array) = pointer_array attempts.environment (targets (s.holds e)) in
      elim array [
        | none ↦ fail lib none error holds s
        | some envp ↦
            after_lookup lib true holds (check_directory argv envp)
              (get_string request.working_directory_id s)
      ]

  -- From phase 2.
  unfoldable pub prepare_arguments : ℕ → ℕ → List Hold → Store → Answer Spawned
  prepare_arguments x l holds s =
      let (error, array) = pointer_array attempts.arguments (x ∷ targets (s.holds l)) in
      elim array [
        | none ↦ fail lib none error holds s
        | some argv ↦
            after_lookup lib true holds (prepare_environment argv)
              (get_acquired_and_locked request.environment_id string s)
      ]

  -- From phase 1.
  unfoldable pub check_executable : ℕ → List Hold → Store → Answer Spawned
  check_executable x holds s =
      if first_byte x s == 0
      then fail lib none invalid_parameter holds s
      else after_lookup lib true holds (prepare_arguments x)
          (get_acquired_and_locked request.arguments_id string s)

  -- `process_spawn`, with the cell that `calloc` answers.
  unfoldable pub spawn : Store → Answer Spawned
  spawn s = after_lookup lib true [] check_executable (get_string request.executable_id s)
