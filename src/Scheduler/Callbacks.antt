-- ===== src/Scheduler/Callbacks.antt =====
-- How a scheduler starts, and what the timer, cron and the process monitor make it do
-- (src/redapid/program_scheduler.c).
use red_brick_apid.Base.{
  ℕ, true, false, not, ◌&&◌, ◌||◌, none, some, List, arith, ◌≡◌, refl, Bool-cases, inl, inr, sym,
  subst, ◌∙◌,
}
use mathlib.Core.Bool.{false≢true}
use red_brick_apid.Store.Arrays.{ArrayLib}
use red_brick_apid.Store.{Store, Hold}
use red_brick_apid.Scheduler.{
  Scheduler, SchedulerState, Config, Services, Answers, World, running, finished, is_running,
  is_waiting, abort_observer, set_state, same_state,
}
use red_brick_apid.Scheduler.Events.{
  is_always, is_interval, is_cron, is_never, is_finished, start_by_mode, start, handle_observer,
  handle_timer, handle_cron, start_if_ready, continue,
}
use red_brick_apid.Scheduler.Holds.{ends, AreRight}
use red_brick_apid.Scheduler.Stopping.{set_state-Ends, abort_observer-IsSound}
use red_brick_apid.Scheduler.Running.{
  Good, Well, start_by_mode-Ends, process_spawned, set_state-state, no_message_new,
}

module _ (lib : ArrayLib ℕ) (services : Services) (right : AreRight services) (answers : Answers)
    (config : Config) (rest : List Hold) where
  aborted :
      (p : Scheduler) (s : Store)
      → Good lib services right answers config rest p s
      → Good lib services right answers config rest (abort_observer p) s
  unfolding abort_observer
  aborted p s fine = record {
    inv = fine.inv;
    sound = abort_observer-IsSound lib true rest p fine.sound;
  }

  same_shutdown : (p : Scheduler) → (abort_observer p).shutdown ≡ p.shutdown
  unfolding abort_observer
  same_shutdown p = refl

  -- A scheduler that is not shut down is set running, and what its mode asks for is done.
  set_running :
      (q : Scheduler) (s : Store) (r : World)
      → set_state lib running none q s ≡ r
      → Good lib services right answers config rest q s
      → q.shutdown ≡ false
      → Well lib services right answers config rest (elim r [
        | none ↦ none
        | some (p', s') ↦ start_by_mode lib services answers config config.start_mode p' s'
      ])
  set_running q s r e fine up = onward r e (
      subst (Well lib services right answers config rest) e (
        set_state-Ends lib true rest running none q s fine.inv (no_message_new q.message) fine.sound
          (record {
            timer_known = fine.sound.timer_known;
            cron_known = fine.sound.cron_known;
            observer_known = fine.sound.observer_known;
            cron_runs = λ h. refl;
            no_message = λ h. refl;
            halted = λ h. absurd (false≢true (sym up ∙ h));
            named = fine.sound.named;
          })))
    where
      runs : (state : SchedulerState) → same_state state running ≡ true → is_running state ≡ true
      runs state h = ground arith

      onward :
          (r : World)
          → set_state lib running none q s ≡ r
          → Well lib services right answers config rest r
          → Well lib services right answers config rest (elim r [
            | none ↦ none
            | some (p', s') ↦ start_by_mode lib services answers config config.start_mode p' s'
          ])
      onward r e (ends p' s' fine') =
          start_by_mode-Ends lib services right answers config rest config.start_mode p' s' fine'
            (runs p'.state (set_state-state lib running none q p' s s' e))

  pub start-Ends :
      (p : Scheduler) (s : Store)
      → Good lib services right answers config rest p s
      → Well lib services right answers config rest (start lib services answers config p s)
  unfolding start
  start-Ends p s fine = elim (Bool-cases p.shutdown) [
    | inl down ↦ simp (start, down) (ends p s fine)
    | inr up ↦
        simp (start, up)
          (set_running (abort_observer p) s _ refl (aborted p s fine) (same_shutdown p ∙ up))
  ]

  pub handle_observer-Ends :
      (p : Scheduler) (s : Store)
      → Good lib services right answers config rest p s
      → Well lib services right answers config rest
          (handle_observer lib services answers config p s)
  unfolding handle_observer
  handle_observer-Ends p s fine = elim (Bool-cases (is_waiting p.observer_state)) [
    | inr other ↦ simp (handle_observer, other) (ends p s fine)
    | inl waits ↦
        simp (handle_observer, waits)
          (start-Ends (record p { is_observed = false; observer_state = finished }) s
            (record {
              inv = fine.inv;
              sound = record {
                timer_known = fine.sound.timer_known;
                cron_known = fine.sound.cron_known;
                observer_known = λ h. cc;
                cron_runs = fine.sound.cron_runs;
                no_message = fine.sound.no_message;
                halted = fine.sound.halted;
                named = fine.sound.named;
              };
            }))
  ]

  pub handle_timer-Ends :
      (p : Scheduler) (s : Store)
      → Good lib services right answers config rest p s
      → Well lib services right answers config rest (handle_timer lib services answers config p s)
  unfolding handle_timer
  handle_timer-Ends p s fine =
      elim (Bool-cases
        (is_running p.state && (is_always config.start_mode || is_interval config.start_mode))) [
          | inl due ↦
              simp (handle_timer, due)
                (process_spawned lib services right answers config rest p s fine)
          | inr idle ↦ simp (handle_timer, idle) (ends p s fine)
        ]

  pub handle_cron-Ends :
      (p : Scheduler) (s : Store)
      → Good lib services right answers config rest p s
      → Well lib services right answers config rest (handle_cron lib services answers config p s)
  unfolding handle_cron
  handle_cron-Ends p s fine = elim (Bool-cases (is_running p.state && is_cron config.start_mode)) [
    | inl due ↦
        simp (handle_cron, due) (process_spawned lib services right answers config rest p s fine)
    | inr idle ↦ simp (handle_cron, idle) (ends p s fine)
  ]

  pub continue-Ends :
      (p : Scheduler) (s : Store)
      → Good lib services right answers config rest p s
      → Well lib services right answers config rest (continue lib services answers config p s)
  unfolding continue
  continue-Ends p s fine = elim (Bool-cases p.shutdown) [
    | inl down ↦ simp (continue, down) (ends p s fine)
    | inr up ↦ elim (Bool-cases (not (is_running p.state) && not (is_never config.start_mode))) [
      | inl due ↦ simp (continue, up, due) (start-Ends p s fine)
      | inr idle ↦ simp (continue, up, idle) (ends p s fine)
    ]
  ]

  pub start_if_ready-Ends :
      (p : Scheduler) (s : Store)
      → Good lib services right answers config rest p s
      → Well lib services right answers config rest (start_if_ready lib services answers config p s)
  unfolding start_if_ready
  start_if_ready-Ends p s fine =
      elim (Bool-cases (is_finished p.observer_state && not p.waiting_for_brickd)) [
        | inl ready ↦ simp (start_if_ready, ready) (start-Ends p s fine)
        | inr unready ↦ simp (start_if_ready, unready) (ends p s fine)
      ]
