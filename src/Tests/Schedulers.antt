-- ===== src/Tests/Schedulers.antt =====
-- src/redapid/program_scheduler.c at concrete inputs.
use red_brick_apid.Base.{ℕ, true, false, Option, none, some, [], arith, refl}
use red_brick_apid.ApiError.{success}
use red_brick_apid.Store.{Store}
use red_brick_apid.StringObject.Creation.{StringAttempts}
use red_brick_apid.Stock.{StockAttempts}
use red_brick_apid.Scheduler.{
  Opening, Scheduler, Config, Answers, Services, always, dev_null, individual_log, to_stdout,
  finished, running, added,
}
use red_brick_apid.Scheduler.Events.{updated, step}
use red_brick_apid.Scheduler.Holds.{held_by, Fine, Ends, AreRight}
use red_brick_apid.Process.{Process, is_alive, handle_all, wait}
use red_brick_apid.Process.Changes.{Handled, handle_all-Handled, IsTidy}
use red_brick_apid.Scheduler.Notified.{call_scheduler, Watches, call_scheduler-KeepsCounts}
use red_brick_apid.Scheduler.Step.{step-Ends}
use red_brick_apid.Scheduler.Life.{CreateAnswers, Created, create, create-Created}
use red_brick_apid.Scheduler.Destruction.{Destroyed, destroy, destroy-Destroyed}
use red_brick_apid.FileObject.Open.{OpenAttempts, PipeAttempts}
use red_brick_apid.Scheduler.Implementation.{services, services-AreRight}
use red_brick_apid.Tests.Sample.{list_lib, by_sixteen}
use red_brick_apid.Tests.Office.{nobody_at_7, by_daemon, office, office-Inv}
use red_brick_apid.Tests.Processes.{waits, worker-IsTidy, worker, attempts, request, child_writes}

abbrev strings : StringAttempts
strings = record {
  buffer = some (λ i. 0);
  memory = true;
  create = record { memory = true; append_failure = none };
}

abbrev stock_works : StockAttempts
stock_works = record { wrap = strings; append_failure = none }

-- Every file can be opened, and every pipe created.
abbrev opens : ℕ → Opening → Store → OpenAttempts
opens a opening s = record {
  unlink = none;
  same_user = false;
  open_failure = none;
  open_as = success;
  stat = none;
  memory = true;
  eventfd = none;
  create = record { memory = true; append_failure = none };
}

abbrev pipes : Store → PipeAttempts
pipes s = record {
  flags_known = true;
  stock = stock_works;
  memory = true;
  pipe = none;
  set_size = none;
  eventfd = none;
  create = record { memory = true; append_failure = none };
}

abbrev parts : Services
parts = services by_sixteen list_lib [] strings (λ d i o r s. request) attempts opens pipes

services-AreRight_example : AreRight parts
services-AreRight_example =
    services-AreRight by_sixteen list_lib [] strings (λ d i o r s. request) attempts opens pipes tt
      (omega arith) refl child_writes

parts-AreRight : AreRight parts
parts-AreRight =
    services-AreRight by_sixteen list_lib [] strings (λ d i o r s. request) attempts opens pipes tt
      (omega arith) refl child_writes

abbrev config : Config
config = record {
  start_mode = always;
  continue_after_error = false;
  stdin_redirection = dev_null;
  stdout_redirection = individual_log;
  stderr_redirection = to_stdout;
}

abbrev answers : Answers
answers = record {
  timer_start = none;
  timer_stop = none;
  cron_entry = success;
  connected = true;
  observation = added;
  working_directory_made = success;
  stdout_directory_made = success;
  stderr_directory_made = success;
  log_exists = λ i. false;
  log_name_fits = λ i. true;
  header_written = true;
}

abbrev scheduler : Scheduler
scheduler = record {
  working_directory = some 1;
  stdin_file_name = none;
  stdout_file_name = none;
  stderr_file_name = none;
  dev_null_file_name = 1;
  observer_state = finished;
  shutdown = false;
  waiting_for_brickd = false;
  timer_active = true;
  cron_active = false;
  last_spawned = some worker;
  state = running;
  message = none;
  timer_runs = true;
  has_cron_entry = false;
  is_observed = false;
  notices = 0;
  spawns = 1;
  kills = 0;
  lost = [];
}

-- The daemon holds the process, for the scheduler.
scheduler-Fine : Fine true [] scheduler office
scheduler-Fine = record {
  inv = record {
    internal = λ t. ground arith;
    locks = λ t. ground arith;
    internal_held = λ t l. ground arith;
    locks_held = λ t l. ground arith;
    held_live = λ t p. ground arith;
    once = office-Inv.once;
    external = office-Inv.external;
    of_sessions = office-Inv.of_sessions;
    positive = office-Inv.positive;
    external_live = office-Inv.external_live;
    typed = office-Inv.typed;
    session_once = office-Inv.session_once;
    sessions_live = office-Inv.sessions_live;
  };
  sound = record {
    timer_known = λ h. refl;
    cron_known = λ h. cc;
    observer_known = λ h. cc;
    cron_runs = λ h. cc;
    no_message = λ h. refl;
    halted = λ h. cc;
    named = λ h e. cc;
  };
}

step-Ends_example :
    Ends true [] (step list_lib parts (updated true) config answers scheduler office)
step-Ends_example =
    step-Ends list_lib parts parts-AreRight answers config true [] (updated true) scheduler office
      scheduler-Fine (refl, refl)

-- The process of a scheduler is not released on death.
abbrev spawned_worker : Process
spawned_worker = record worker { release_on_death = false }

spawned_worker-IsTidy : IsTidy spawned_worker
unfolding is_alive
spawned_worker-IsTidy = record { no_pid = worker-IsTidy.no_pid; released = λ dead. refl }

abbrev callback : Process → Scheduler → Store → Option (Scheduler × Store)
callback = call_scheduler list_lib parts answers config

abbrev IsWatched : Scheduler → Type 0
IsWatched = Watches list_lib parts answers config parts-AreRight 4

handle_all-Handled_example :
    Handled list_lib callback 4 held_by IsWatched []
      (handle_all list_lib callback (wait waits) spawned_worker scheduler office)
handle_all-Handled_example =
    handle_all-Handled list_lib callback 4 held_by IsWatched []
      (call_scheduler-KeepsCounts list_lib parts answers config parts-AreRight 4) (wait waits)
      spawned_worker scheduler office refl
      (record { sound = scheduler-Fine.sound; last = worker; known = refl; same_cell = refl })
      scheduler-Fine.inv spawned_worker-IsTidy

destroy-Destroyed_example :
    Destroyed list_lib parts answers config parts-AreRight true [] scheduler office
      (destroy list_lib parts answers config scheduler office)
destroy-Destroyed_example =
    destroy-Destroyed list_lib parts answers config parts-AreRight true [] scheduler office
      scheduler-Fine

abbrev at_start : CreateAnswers
at_start = record {
  bin_name = none;
  bin_directory_made = success;
  log_name = none;
  log_directory_made = success;
  timer = none;
  x11_enabled = true;
  connected = false;
}

create-Created_example :
    Created list_lib by_sixteen 7 stock_works 2 at_start by_daemon
      (create list_lib by_sixteen 7 stock_works 2 at_start office)
create-Created_example =
    create-Created list_lib by_sixteen 7 stock_works 2 at_start by_daemon office office-Inv
      nobody_at_7
