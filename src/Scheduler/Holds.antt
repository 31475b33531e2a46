-- ===== src/Scheduler/Holds.antt =====
-- What a scheduler holds, and what is true of its state between two events
-- (src/redapid/program_scheduler.c).
use red_brick_apid.Base.{
  ℕ, ◌+◌, Bool, true, false, Option, none, some, List, [], ◌∷◌, ◌++◌, arith, ◌≡◌, ◌≢◌,
}
use red_brick_apid.ApiError.{ApiE, success}
use red_brick_apid.Store.Arrays.{tally}
use red_brick_apid.Store.{Store, Hold}
use red_brick_apid.Object.Invariant.{Inv, unlocked_hold, locked_hold}
use red_brick_apid.Object.Create.Cell.{InNoArray}
use red_brick_apid.Acquire.{Answer}
use red_brick_apid.Process.{Process}
use red_brick_apid.Scheduler.{
  Scheduler, SchedulerState, ObserverState, Services, World, is_running, is_waiting, with_string,
  Opening,
}

abbrev pub with_process : Option Process → List Hold → List Hold
with_process none holds = holds
with_process (some q) holds = unlocked_hold q.cell ∷ holds

-- The names and what was lost.
abbrev pub name_holds : Scheduler → List Hold
name_holds p = with_string p.working_directory (
    with_string p.stdin_file_name (
      with_string p.stdout_file_name
        (with_string p.stderr_file_name (locked_hold p.dev_null_file_name ∷ p.lost))))

abbrev pub other_holds : Scheduler → List Hold
other_holds p = with_process p.last_spawned (name_holds p)

abbrev pub held_by : Scheduler → List Hold
held_by p = with_string p.message (other_holds p)

-- The members agree with the world: a timer that runs, a cron entry and an observer are known, cron
-- and a message say whether the scheduler runs, and one that is shut down does not run. `b` says that
-- there is a working directory.
pub record Sound (b timer_runs timer_active has_cron_entry cron_active is_observed shutdown : Bool)
    (observer_state : ObserverState) (state : SchedulerState) (message working_directory : Option ℕ)
    : Type 0 where
  pub timer_known : timer_runs ≡ true → timer_active ≡ true
  pub cron_known : has_cron_entry ≡ true → cron_active ≡ true
  pub observer_known : is_observed ≡ true → is_waiting observer_state ≡ true
  pub cron_runs : cron_active ≡ true → is_running state ≡ true
  pub no_message : is_running state ≡ true → message ≡ none
  pub halted : shutdown ≡ true → is_running state ≡ false
  pub named : b ≡ true → working_directory ≢ none

abbrev pub IsSound : Bool → Scheduler → Type 0
IsSound b p =
    Sound b p.timer_runs p.timer_active p.has_cron_entry p.cron_active p.is_observed p.shutdown
      p.observer_state p.state p.message p.working_directory

module _ (b : Bool) (rest : List Hold) where
  -- The scheduler's state is sound, and the counts are right with what it holds.
  pub record Fine (p : Scheduler) (s : Store) : Type 0 where
    pub inv : Inv s (held_by p ++ rest)
    pub sound : IsSound b p

  -- An event ends in such a state.
  pub data Ends : World → Type 0 where
    ends : (p : Scheduler) (s : Store) → Fine p s → Ends (some (p, s))

module _ (rest : List Hold) where
  -- A call that makes something gives it to its caller, or answers an error.
  pub data Gives {A : Type 0} (hold : A → Hold) : Answer A → Type 0 where
    given : (a : A) (s : Store) → Inv s (hold a ∷ rest) → Gives hold (some (success, some a, s))
    failed :
        (error : ApiE) (s : Store)
        → error ≢ success
        → Inv s rest
        → Gives hold (some (error, none, s))

-- A new string is no object of the inventory before.
pub data GivesNew (rest : List Hold) (before : Store) : Answer ℕ → Type 0 where
  given_new :
      (a : ℕ) (s : Store)
      → InNoArray a before
      → Inv s (locked_hold a ∷ rest)
      → GivesNew rest before (some (success, some a, s))
  failed_new :
      (error : ApiE) (s : Store)
      → error ≢ success
      → Inv s rest
      → GivesNew rest before (some (error, none, s))

-- The services keep the counts right.
pub record AreRight (services : Services) : Type 0 where
  pub new_string_lem :
      (rest : List Hold) (s : Store) → Inv s rest → GivesNew rest s (services.new_string s)
  pub open_file_lem :
      (a : ℕ) (opening : Opening) (rest : List Hold) (s : Store)
      → Inv s rest
      → Gives rest unlocked_hold (services.open_file a opening s)
  pub new_pipe_lem :
      (rest : List Hold) (s : Store) → Inv s rest → Gives rest unlocked_hold (services.new_pipe s)
  pub spawn_lem :
      (d i o r : ℕ) (rest : List Hold) (s : Store)
      → Inv s rest
      → Gives rest (λ q. unlocked_hold q.cell) (services.spawn d i o r s)

-- The order of two groups of holds does not matter.
pub with_string-tally :
    (f : Hold → ℕ) (o : Option ℕ) (holds : List Hold)
    → tally f (with_string o holds) ≡ tally f (with_string o []) + tally f holds
with_string-tally f none holds = omega arith
with_string-tally f (some a) holds = omega arith

pub with_process-tally :
    (f : Hold → ℕ) (o : Option Process) (holds : List Hold)
    → tally f (with_process o holds) ≡ tally f (with_process o []) + tally f holds
with_process-tally f none holds = omega arith
with_process-tally f (some q) holds = omega arith

pub held_by-tally :
    (f : Hold → ℕ) (p : Scheduler)
    → tally f (held_by p)
      ≡ tally f (with_string p.message [])
        + tally f (with_process p.last_spawned [])
        + tally f (with_string p.working_directory [])
        + tally f (with_string p.stdin_file_name [])
        + tally f (with_string p.stdout_file_name [])
        + tally f (with_string p.stderr_file_name [])
        + f (locked_hold p.dev_null_file_name)
        + tally f p.lost
held_by-tally f p = omega (
  arith,
  with_string-tally f p.message (other_holds p),
  with_process-tally f p.last_spawned (name_holds p),
  with_string-tally f p.working_directory (
      with_string p.stdin_file_name (
        with_string p.stdout_file_name
          (with_string p.stderr_file_name (locked_hold p.dev_null_file_name ∷ p.lost)))),
  with_string-tally f p.stdin_file_name (
      with_string p.stdout_file_name
        (with_string p.stderr_file_name (locked_hold p.dev_null_file_name ∷ p.lost))),
  with_string-tally f p.stdout_file_name
      (with_string p.stderr_file_name (locked_hold p.dev_null_file_name ∷ p.lost)),
  with_string-tally f p.stderr_file_name (locked_hold p.dev_null_file_name ∷ p.lost),
)
