-- ===== src/Tests/Processes.antt =====
-- src/redapid/process.c at concrete inputs.
use red_brick_apid.Base.{ℕ, true, false, Option, none, some, List, [], ◌∷◌, arith, ◌≡◌, refl, ◌≢◌}
use red_brick_apid.ApiError.{is_success}
use red_brick_apid.Store.{Store}
use red_brick_apid.Object.Invariant.{locked_hold}
use red_brick_apid.Object.{remove_external_reference, add_external_reference}
use red_brick_apid.Object.Undo.{remove_external_reference-add_external_reference}
use red_brick_apid.Process.{
  Process, Wait, wait, answered, if_exited, if_stopped, if_continued, running, is_alive,
  state_is_alive, handle_all,
}
use red_brick_apid.Process.Changes.{
  AreChanges, wait-AreChanges, Handled, handle_all-Handled, IsTidy,
}
use red_brick_apid.Process.Child.{ArrayAttempts, child_status, setup, set_identity}
use red_brick_apid.Process.Spawn.{Request, SpawnAttempts, spawn}
use red_brick_apid.Process.Spawning.{SpawnOutcome}
use red_brick_apid.Process.Steps.{spawn-SpawnOutcome}
use red_brick_apid.Process.Stdio.{get_command, get_stdio}
use red_brick_apid.Process.Stdio.Atomic.{Told, members-Told}
use red_brick_apid.Tests.Sample.{list_lib}
use red_brick_apid.Tests.Office.{by_daemon, office, office-Inv, nobody_at_7, staff}

-- Stopped, continued and ended with the exit code 127.
abbrev pub waits : List Wait
waits =
    answered 10 (if_stopped 19) true
    ∷ answered 11 if_continued true
    ∷ answered 12 (if_exited 127) true
    ∷ answered 13 (if_exited 0) true
    ∷ []

wait-AreChanges_example : AreChanges (wait waits)
wait-AreChanges_example = wait-AreChanges waits

abbrev pub worker : Process
worker = record {
  cell = 4;
  uid = 1000;
  gid = 1000;
  pid = 321;
  release_on_death = true;
  state = running;
  timestamp = 9;
  exit_code = 0;
}

pub worker-IsTidy : IsTidy worker
unfolding is_alive state_is_alive
worker-IsTidy = record { no_pid = λ e. cc; released = λ e. cc }

-- No function of the creator: the process gives up the reference to itself when it dies.
abbrev no_function : Process → ℕ → Store → Option (ℕ × Store)
no_function p n s = some (n, s)

worker_released :
    Handled list_lib no_function 4
      (λ n. [])
      (λ n. Unit {0})
      (locked_hold 1 ∷ locked_hold 1 ∷ [])
      (handle_all list_lib no_function (wait waits) worker 0 office)
worker_released =
    handle_all-Handled list_lib no_function 4 (λ n. []) (λ n. Unit {0})
      (locked_hold 1 ∷ locked_hold 1 ∷ [])
      (λ p n pending s own valid v. record {
        creator = n;
        after = s;
        returned = refl;
        inv = v;
        valid = tt;
      })
      (wait waits) worker 0 office refl tt office-Inv worker-IsTidy

abbrev pub request : Request
request = record {
  executable_id = 1;
  arguments_id = 2;
  environment_id = 2;
  working_directory_id = 1;
  uid = 1000;
  gid = 1000;
  stdin_id = 3;
  stdout_id = 3;
  stderr_id = 3;
  session = some 100;
  flags = 2;
  release_on_death = true;
}

abbrev array_good : ArrayAttempts
array_good = record { create_failure = none; append_failure = λ i. none }

abbrev pub attempts : SpawnAttempts
attempts = record {
  arguments = array_good;
  environment = array_good;
  status_pipe = none;
  fork = record { blocked = true; forked = true; unblocked = true };
  child = record {
    identity = record {
      getpwuid = none;
      getgrouplist = none;
      setregid = none;
      setgroups = none;
      setreuid = none;
    };
    chdir = none;
    sysconf = none;
    redirect_stdin = none;
    redirect_stdout = none;
    redirect_stderr = none;
    write_success = none;
    write_error = none;
  };
  status = none;
  memory = true;
  state_change_pipe = none;
  event_source = true;
  create = record { memory = true; append_failure = none };
  pid = 322;
  time = 20;
}

pub child_writes : child_status true attempts.child ≢ none
unfolding child_status setup set_identity
child_writes e = cc

spawn-SpawnOutcome_example :
    SpawnOutcome list_lib request attempts 7 by_daemon office
      (spawn list_lib request attempts 7 office)
spawn-SpawnOutcome_example =
    spawn-SpawnOutcome list_lib request attempts 7 by_daemon office nobody_at_7 (omega arith)
      child_writes office-Inv

-- There is no memory for the reference to the third object.
members-Told_example :
    Told list_lib 100 by_daemon office
      (1 ∷ 2 ∷ 2 ∷ 1 ∷ [])
      (get_command list_lib 100 staff true true false true office)
    × Told list_lib 100 by_daemon office
        (3 ∷ 3 ∷ 3 ∷ [])
        (get_stdio list_lib 100 staff true true true office)
members-Told_example =
    members-Told list_lib 100 by_daemon office 4 staff office-Inv (omega arith) refl (omega arith)
      true true false true true true true

added : is_success (add_external_reference 1 100 true office).0 ≡ true
unfolding add_external_reference
added = refl

remove_external_reference-add_external_reference_example :
    remove_external_reference list_lib 1 100 (add_external_reference 1 100 true office).1
    ≡ some office
remove_external_reference-add_external_reference_example =
    remove_external_reference-add_external_reference 1 100 list_lib office (omega arith) true
      (omega arith, tt) added
