-- ===== src/Scheduler/Tries.antt =====
-- The observer of a scheduler, its first start, and the end of its process
-- (src/redapid/program_scheduler.c).
use red_brick_apid.Base.{
  ℕ, Bool, true, false, not, ◌&&◌, none, some, List, arith, ◌≡◌, refl, ◌≢◌, Bool-cases,
  Option-cases, inl, inr, sym, ◌∙◌,
}
use mathlib.Core.Bool.{false≢true}
use red_brick_apid.Store.Arrays.{ArrayLib}
use red_brick_apid.Store.{Store, Hold}
use red_brick_apid.Process.{is_alive}
use red_brick_apid.Scheduler.{
  Scheduler, Config, Services, Answers, World, Observation, not_added, added, informed, waiting,
  finished, ObserverState, is_running, is_waiting,
}
use red_brick_apid.Scheduler.Events.{
  is_failure, is_always, is_never, is_pending, handle_process_state_change, handle_observer,
  observe, start_if_ready, try_start,
}
use red_brick_apid.Scheduler.Holds.{Fine, Ends, ends, AreRight}
use red_brick_apid.Scheduler.Errors.{stop_own-Ends}
use red_brick_apid.Scheduler.Running.{stop_silently, start_timer-Ends}
use red_brick_apid.Scheduler.Callbacks.{handle_observer-Ends, start_if_ready-Ends}

module _ (b : Bool) (rest : List Hold) where
  pub ready :
      (p : Scheduler) (s : Store)
      → Fine b rest p s
      → p.working_directory ≢ none
      → Fine true rest p s
  ready p s fine known = record {
    inv = fine.inv;
    sound = record {
      timer_known = fine.sound.timer_known;
      cron_known = fine.sound.cron_known;
      observer_known = fine.sound.observer_known;
      cron_runs = fine.sound.cron_runs;
      no_message = fine.sound.no_message;
      halted = fine.sound.halted;
      named = λ _. known;
    };
  }

  pub at_least : (r : World) → Ends true rest r → Ends b rest r
  at_least r (ends p s fine) = ends p s (record {
    inv = fine.inv;
    sound = record {
      timer_known = fine.sound.timer_known;
      cron_known = fine.sound.cron_known;
      observer_known = fine.sound.observer_known;
      cron_runs = fine.sound.cron_runs;
      no_message = fine.sound.no_message;
      halted = fine.sound.halted;
      named = λ _. fine.sound.named refl;
    };
  })

module _ (lib : ArrayLib ℕ) (services : Services) (right : AreRight services) (answers : Answers)
    (config : Config) (rest : List Hold) where
  watching :
      (watched : Bool) (o : ObserverState) (p : Scheduler) (s : Store)
      → Fine true rest p s
      → (watched ≡ true → is_waiting o ≡ true)
      → Fine true rest (record p { is_observed = watched; observer_state = o }) s
  watching watched o p s fine known = record {
    inv = fine.inv;
    sound = record {
      timer_known = fine.sound.timer_known;
      cron_known = fine.sound.cron_known;
      observer_known = known;
      cron_runs = fine.sound.cron_runs;
      no_message = fine.sound.no_message;
      halted = fine.sound.halted;
      named = fine.sound.named;
    };
  }

  observe-Ends :
      (p : Scheduler) (s : Store)
      → Fine true rest p s
      → is_pending p.observer_state ≡ true
      → Ends true rest (observe lib services answers config p s)
  unfolding observe
  observe-Ends p s fine still = answered answers.observation
    where
      unwatched : (o : ObserverState) → is_pending o ≡ true → is_waiting o ≡ false
      unwatched o h = ground arith

      clash : p.is_observed ≡ true → is_waiting p.observer_state ≡ true
      clash = fine.sound.observer_known

      not_watched : p.is_observed ≡ true → is_waiting finished ≡ true
      not_watched h = absurd (false≢true (sym (unwatched p.observer_state still) ∙ clash h))

      answered :
          (a : Observation)
          → Ends true rest (elim a [
            | not_added ↦ some (record p { observer_state = finished }, s)
            | added ↦ some (record p { observer_state = waiting; is_observed = true }, s)
            | informed ↦
                handle_observer lib services answers config
                  (record p { observer_state = waiting; is_observed = true })
                  s
          ])
      answered not_added = ends _ s (watching p.is_observed finished p s fine not_watched)
      answered added = ends _ s (watching true waiting p s fine (λ h. refl))
      answered informed =
          handle_observer-Ends lib services right answers config rest _ s
            (watching true waiting p s fine (λ h. refl))

  pub try_start-Ends :
      (p : Scheduler) (s : Store)
      → Fine true rest p s
      → Ends true rest (try_start lib services answers config p s)
  unfolding try_start
  try_start-Ends p s fine = elim (Bool-cases (is_never config.start_mode)) [
    | inl none_wanted ↦
        simp (try_start, none_wanted)
          (stop_own-Ends lib services right answers true rest p s fine.inv fine.sound)
    | inr wanted ↦ elim (Bool-cases (is_pending p.observer_state)) [
      | inl first ↦ simp (try_start, wanted, first) (go_on _ (observe-Ends p s fine first))
      | inr later ↦
          simp (try_start, wanted, later)
            (start_if_ready-Ends lib services right answers config rest p s fine)
    ]
  ]
    where
      go_on :
          (r : World)
          → Ends true rest r
          → Ends true rest (elim r [
            | none ↦ none
            | some (p', s') ↦ start_if_ready lib services answers config p' s'
          ])
      go_on r (ends p' s' fine') =
          start_if_ready-Ends lib services right answers config rest p' s' fine'

  pub known_last :
      (p : Scheduler) (s : Store)
      → Fine true rest p s
      → p.last_spawned ≢ none
      → Ends true rest (handle_process_state_change lib services answers config p s)
  unfolding handle_process_state_change
  known_last p s fine known = elim (Bool-cases (is_running p.state)) [
    | inr idle ↦ simp (handle_process_state_change, idle) (ends p s fine)
    | inl runs ↦ elim (Option-cases p.last_spawned) [
      | inl missing ↦ absurd (known missing)
      | inr (q, e) ↦ elim (Bool-cases (is_alive q)) [
        | inl alive ↦ simp (handle_process_state_change, runs, e, alive) (ends p s fine)
        | inr dead ↦ elim (Bool-cases (is_failure q && not config.continue_after_error)) [
          | inl fails ↦
              simp (handle_process_state_change, runs, e, dead, fails)
                (stop_silently lib services right answers config rest p s fine)
          | inr goes_on ↦ elim (Bool-cases (is_always config.start_mode)) [
            | inl again ↦
                simp (handle_process_state_change, runs, e, dead, goes_on, again)
                  (start_timer-Ends lib services right answers config rest p s fine)
            | inr once ↦
                simp (handle_process_state_change, runs, e, dead, goes_on, once) (ends p s fine)
          ]
        ]
      ]
    ]
  ]
