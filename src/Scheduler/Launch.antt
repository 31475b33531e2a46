-- ===== src/Scheduler/Launch.antt =====
-- `program_scheduler_spawn_process` (src/redapid/program_scheduler.c).
use red_brick_apid.Base.{ℕ, ◌+◌, Bool, false, Option, none, some, List, [], ◌∷◌, if◌then◌else◌}
use red_brick_apid.ApiError.{is_success}
use red_brick_apid.Store.Arrays.{ArrayLib}
use red_brick_apid.Store.{Store, Hold}
use red_brick_apid.Object.{give_back, remove_internal_reference}
use red_brick_apid.Object.Invariant.{unlocked_hold}
use red_brick_apid.Acquire.{Answer}
use red_brick_apid.Process.{Process, is_alive}
use red_brick_apid.Scheduler.{
  Config, Scheduler, Answers, Services, World, handle_error, abort_observer,
}
use red_brick_apid.Scheduler.Files.{File, prepare_stdin, prepare_stdout, prepare_stderr}

abbrev pub last_is_alive : Option Process → Bool
last_is_alive none = false
last_is_alive (some q) = is_alive q

module _ (lib : ArrayLib ℕ) (services : Services) (answers : Answers) (config : Config) where
  -- The end of the call: the files are given back, the latest first.
  unfoldable pub drop_files : List Hold → Scheduler → Store → World
  drop_files files p s = elim (give_back (remove_internal_reference lib) files s) [
    | none ↦ none
    | some s' ↦ some (p, s')
  ]

  abbrev pub release_last : Option Process → Store → Option Store
  release_last none s = some s
  release_last (some q) s = remove_internal_reference lib q.cell s

  -- From phase 4: the process takes the place of the last one, `process_spawned` is called, and the
  -- files are given back in the order of their names.
  unfoldable pub keep_process : Process → ℕ → ℕ → ℕ → Scheduler → Store → World
  keep_process q i o r p s = elim (release_last p.last_spawned s) [
    | none ↦ none
    | some s' ↦
        drop_files (unlocked_hold i ∷ unlocked_hold o ∷ unlocked_hold r ∷ [])
          (record p { last_spawned = some q; spawns = p.spawns + 1 }) s'
  ]

  abbrev pub after_spawn : ℕ → ℕ → ℕ → Scheduler → Answer Process → World
  after_spawn i o r p none = none
  after_spawn i o r p (some (error, found, s)) =
      if is_success error
      then elim found [ none ↦ none | some q ↦ keep_process q i o r p s ]
      else elim (handle_error lib services answers p s) [
        | none ↦ none
        | some (p', s') ↦
            drop_files (unlocked_hold r ∷ unlocked_hold o ∷ unlocked_hold i ∷ []) p' s'
      ]

  -- From phase 3; without a working directory a null pointer is read.
  unfoldable pub spawn_with : ℕ → ℕ → ℕ → Scheduler → Store → World
  spawn_with i o r p s = elim p.working_directory [
    | none ↦ none
    | some d ↦ after_spawn i o r p (services.spawn d i o r s)
  ]

  abbrev pub after_stderr : ℕ → ℕ → File → World
  after_stderr i o none = none
  after_stderr i o (some (none, p, s)) = drop_files (unlocked_hold o ∷ unlocked_hold i ∷ []) p s
  after_stderr i o (some (some r, p, s)) = spawn_with i o r p s

  abbrev pub after_stdout : ℕ → File → World
  after_stdout i none = none
  after_stdout i (some (none, p, s)) = drop_files (unlocked_hold i ∷ []) p s
  after_stdout i (some (some o, p, s)) =
      after_stderr i o (prepare_stderr lib services answers config.stderr_redirection o p s)

  abbrev pub after_stdin : File → World
  after_stdin none = none
  after_stdin (some (none, p, s)) = some (p, s)
  after_stdin (some (some i, p, s)) =
      after_stdout i (prepare_stdout lib services answers config.stdout_redirection p s)

  -- `program_scheduler_spawn_process`
  unfoldable pub spawn_process : Scheduler → Store → World
  spawn_process p s =
      if last_is_alive p.last_spawned
      then some (abort_observer p, s)
      else after_stdin
          (prepare_stdin lib services answers config.stdin_redirection (abort_observer p) s)
