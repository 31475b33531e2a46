-- ===== src/Scheduler/Running.antt =====
-- Every event of a scheduler ends in a sound state with right counts
-- (src/redapid/program_scheduler.c).
use red_brick_apid.Base.{
  ℕ, ◌+◌, true, ◌&&◌, Option, none, some, List, arith, if◌then◌else◌, ◌≡◌, refl, Bool-cases,
  Option-cases, inl, inr, ap, sym, ◌∙◌,
}
use mathlib.Core.Option.{some-injective, none-ne-some}
use red_brick_apid.ApiError.{is_success}
use red_brick_apid.Store.Arrays.{ArrayLib}
use red_brick_apid.Store.{Store, Hold}
use red_brick_apid.Scheduler.{
  Scheduler, SchedulerState, StartMode, Config, Services, Answers, World, never, always, interval,
  cron, invalid_mode, running, stopped, is_running, set_state, stop, handle_error, same_state,
  same_string, release_string,
}
use red_brick_apid.Scheduler.Launch.{spawn_process}
use red_brick_apid.Scheduler.Events.{start_timer, start_by_mode}
use red_brick_apid.Scheduler.Holds.{Fine, Ends, ends, AreRight}
use red_brick_apid.Scheduler.Stopping.{Different}
use red_brick_apid.Scheduler.Errors.{stop-Ends, handle_error-Ends}
use red_brick_apid.Scheduler.Launching.{spawn_process-Ends}

same_state_refl : (state : SchedulerState) → same_state state state ≡ true
same_state_refl running = refl
same_state_refl stopped = refl

-- After `program_scheduler_set_state` the scheduler has the state.
pub set_state-state :
    (lib : ArrayLib ℕ) (state : SchedulerState) (m : Option ℕ) (p p' : Scheduler) (s s' : Store)
    → set_state lib state m p s ≡ some (p', s')
    → same_state p'.state state ≡ true
unfolding set_state
set_state-state lib state m p p' s s' h =
    let released : Option Store =
      if same_string p.message m then some s else release_string lib p.message s in
    elim (Bool-cases (same_state p.state state && same_string p.message m)) [
      | inl stays ↦
          let e : some (p, s) ≡ some (p', s') = rw (stays, set_state) at h in
          ap (λ (r : Scheduler × Store). same_state r.0.state state) (sym (some-injective _ _ e))
          ∙ ground (arith, stays)
      | inr changes ↦ elim (Option-cases released) [
        | inl never_returns ↦ absurd (none-ne-some _ (rw (changes, never_returns, set_state) at h))
        | inr (s₁, e) ↦
            let e' : some (moved_to, s₁) ≡ some (p', s') = rw (changes, e, set_state) at h in
            ap (λ (r : Scheduler × Store). same_state r.0.state state) (sym (some-injective _ _ e'))
            ∙ same_state_refl state
      ]
    ]
  where
    moved_to : Scheduler
    moved_to = record p { state = state; message = m; notices = p.notices + 1 }

pub no_message_new : (o : Option ℕ) → Different o none
no_message_new o a h e = none-ne-some a e

module _ (lib : ArrayLib ℕ) (services : Services) (right : AreRight services) (answers : Answers)
    (config : Config) (rest : List Hold) where
  abbrev pub Good : Scheduler → Store → Type 0
  Good = Fine true rest

  abbrev pub Well : World → Type 0
  Well = Ends true rest

  pub stop_silently :
      (p : Scheduler) (s : Store) → Good p s → Well (stop lib services answers none p s)
  stop_silently p s fine =
      stop-Ends lib services right answers true rest none p s fine.inv (no_message_new p.message)
        fine.sound

  pub error_handled :
      (p : Scheduler) (s : Store) → Good p s → Well (handle_error lib services answers p s)
  error_handled p s fine =
      handle_error-Ends lib services right answers true rest p s fine.inv fine.sound

  pub process_spawned :
      (p : Scheduler) (s : Store) → Good p s → Well (spawn_process lib services answers config p s)
  process_spawned p s fine =
      spawn_process-Ends lib services right answers config true rest p s fine
        (fine.sound.named refl)

  pub start_timer-Ends :
      (p : Scheduler) (s : Store) → Good p s → Well (start_timer lib services answers config p s)
  unfolding start_timer
  start_timer-Ends p s fine = elim (Option-cases answers.timer_start) [
    | inr (errno, h) ↦ simp (start_timer, h) (error_handled p s fine)
    | inl h ↦
        simp (start_timer, h)
          (ends _ s (record {
            inv = fine.inv;
            sound = record {
              timer_known = λ h. refl;
              cron_known = fine.sound.cron_known;
              observer_known = fine.sound.observer_known;
              cron_runs = fine.sound.cron_runs;
              no_message = fine.sound.no_message;
              halted = fine.sound.halted;
              named = fine.sound.named;
            };
          }))
  ]

  pub start_by_mode-Ends :
      (mode : StartMode) (p : Scheduler) (s : Store)
      → Good p s
      → is_running p.state ≡ true
      → Well (start_by_mode lib services answers config mode p s)
  unfolding start_by_mode
  start_by_mode-Ends never p s fine runs = stop_silently p s fine
  start_by_mode-Ends always p s fine runs = process_spawned p s fine
  start_by_mode-Ends interval p s fine runs = start_timer-Ends p s fine
  start_by_mode-Ends invalid_mode p s fine runs = error_handled p s fine
  start_by_mode-Ends cron p s fine runs = elim (Bool-cases (is_success answers.cron_entry)) [
    | inr bad ↦ simp (start_by_mode, bad) (error_handled p s fine)
    | inl good ↦
        simp (start_by_mode, good)
          (ends _ s (record {
            inv = fine.inv;
            sound = record {
              timer_known = fine.sound.timer_known;
              cron_known = λ h. refl;
              observer_known = fine.sound.observer_known;
              cron_runs = λ h. runs;
              no_message = fine.sound.no_message;
              halted = fine.sound.halted;
              named = fine.sound.named;
            };
          }))
  ]
