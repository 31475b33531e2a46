-- ===== src/Scheduler/Step.antt =====
-- The events of a scheduler, one by one (src/redapid/program_scheduler.c).
use red_brick_apid.Base.{
  ℕ, Bool, true, none, some, List, if◌then◌else◌, ◌≡◌, ◌≢◌, Bool-cases, inl, inr,
}
use red_brick_apid.ApiError.{is_success}
use red_brick_apid.Store.Arrays.{ArrayLib}
use red_brick_apid.Store.{Store, Hold}
use red_brick_apid.Scheduler.{Scheduler, Config, Services, Answers}
use red_brick_apid.Scheduler.Filesystem.{Prepared}
use red_brick_apid.Scheduler.Events.{
  try_start, check_brickd, update, Event, updated, continued, shut, spawned, observed, timed,
  out_of_cron, process_changed, step,
}
use red_brick_apid.Scheduler.Holds.{Fine, Ends, ends, AreRight}
use red_brick_apid.Scheduler.Named.{PreparedEnds, prepared}
use red_brick_apid.Scheduler.Prepared.{prepare_filesystem-Ends}
use red_brick_apid.Scheduler.Running.{process_spawned}
use red_brick_apid.Scheduler.Callbacks.{
  handle_observer-Ends, handle_timer-Ends, handle_cron-Ends, continue-Ends,
}
use red_brick_apid.Scheduler.ShutDown.{shut_down-Ends}
use red_brick_apid.Scheduler.Tries.{ready, at_least, try_start-Ends, known_last}

-- What an event needs: an update makes its directories, a change of state comes from a process, and
-- nothing is started before there is a working directory.
abbrev pub Allowed : Event → Answers → Scheduler → Type 0
Allowed (updated tries) answers p =
    (is_success answers.working_directory_made ≡ true)
    × (is_success answers.stderr_directory_made ≡ true)
Allowed shut answers p = Unit {0}
Allowed process_changed answers p = (p.working_directory ≢ none) × (p.last_spawned ≢ none)
Allowed continued answers p = p.working_directory ≢ none
Allowed spawned answers p = p.working_directory ≢ none
Allowed observed answers p = p.working_directory ≢ none
Allowed timed answers p = p.working_directory ≢ none
Allowed out_of_cron answers p = p.working_directory ≢ none

module _ (lib : ArrayLib ℕ) (services : Services) (right : AreRight services) (answers : Answers)
    (config : Config) (b : Bool) (rest : List Hold) where
  checked :
      (p : Scheduler) (s : Store)
      → Fine b rest p s
      → Fine b rest (check_brickd lib services answers config p) s
  unfolding check_brickd
  checked p s fine = record { inv = fine.inv; sound = fine.sound }

  update-Ends :
      (tries : Bool) (p : Scheduler) (s : Store)
      → Fine b rest p s
      → is_success answers.working_directory_made ≡ true
      → is_success answers.stderr_directory_made ≡ true
      → Ends b rest (update lib services answers config tries p s)
  unfolding update
  update-Ends tries p s fine dir err = elim (Bool-cases p.shutdown) [
    | inl down ↦ simp (update, down) (ends p s fine)
    | inr up ↦
        simp (update, up)
          (filed _ (
            prepare_filesystem-Ends lib services right answers config b rest
              (check_brickd lib services answers config p) s (checked p s fine) dir))
  ]
    where
      filed :
          (r : Prepared)
          → PreparedEnds lib services right answers config b rest r
          → Ends b rest (elim r [
            | none ↦ none
            | some (code, p', s') ↦
                if is_success code
                then (if tries then try_start lib services answers config p' s' else some (p', s'))
                else some (p', s')
          ])
      filed r (prepared error p' s' fine' known) = elim (Bool-cases (is_success error)) [
        | inr bad ↦ simp bad (ends p' s' fine')
        | inl good ↦ elim (Bool-cases tries) [
          | inr quiet ↦ simp (good, quiet) (ends p' s' fine')
          | inl eager ↦
              simp (good, eager)
                (at_least b rest _ (
                  try_start-Ends lib services right answers config rest p' s'
                    (ready b rest p' s' fine' (known good err))))
        ]
      ]

  -- When the services keep the counts right, any event (an update that can make the working
  -- directory and the directory of the stderr file; a shutdown; a change of state with a last
  -- process and a working directory; a continuation, a start, the observer, the timer or cron with
  -- a working directory) on a scheduler in a fine state ends in a fine state: the counts are those
  -- of all that the scheduler holds and the caller's other holds, a running timer, a cron entry and
  -- an observer are known to it, a cron entry means that it runs, a running scheduler has no
  -- message, and one that is shut down does not run.
  pub step-Ends :
      (event : Event) (p : Scheduler) (s : Store)
      → Fine b rest p s
      → Allowed event answers p
      → Ends b rest (step lib services event config answers p s)
  unfolding step
  step-Ends (updated tries) p s fine (dir, err) = update-Ends tries p s fine dir err
  step-Ends shut p s fine allowed = shut_down-Ends lib services answers right config b rest p s fine
  step-Ends process_changed p s fine (known, last) =
      at_least b rest _
        (known_last lib services right answers config rest p s (ready b rest p s fine known) last)
  step-Ends continued p s fine known =
      at_least b rest _
        (continue-Ends lib services right answers config rest p s (ready b rest p s fine known))
  step-Ends spawned p s fine known =
      at_least b rest _
        (process_spawned lib services right answers config rest p s (ready b rest p s fine known))
  step-Ends observed p s fine known = at_least b rest _ (
      handle_observer-Ends lib services right answers config rest p s (ready b rest p s fine known))
  step-Ends timed p s fine known =
      at_least b rest _
        (handle_timer-Ends lib services right answers config rest p s (ready b rest p s fine known))
  step-Ends out_of_cron p s fine known =
      at_least b rest _
        (handle_cron-Ends lib services right answers config rest p s (ready b rest p s fine known))
