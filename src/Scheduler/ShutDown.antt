-- ===== src/Scheduler/ShutDown.antt =====
-- `program_scheduler_shutdown` (src/redapid/program_scheduler.c): the flag that it sets first is
-- not read while the scheduler stops.
use red_brick_apid.Base.{
  ℕ, Bool, true, false, Option, none, some, List, arith, ◌≡◌, refl, Bool-cases, Option-cases, inl,
  inr,
}
use mathlib.Core.Option.{none-ne-some}
use red_brick_apid.Store.Arrays.{ArrayLib}
use red_brick_apid.Store.{Store, Hold}
use red_brick_apid.Scheduler.{
  Scheduler, SchedulerState, Config, Services, Answers, World, stopped, is_running, abort_observer,
  set_state, stop, stop_timer, stop_cron, same_state,
}
use red_brick_apid.Scheduler.Events.{kill_last, shut_down}
use red_brick_apid.Scheduler.Holds.{Fine, Ends, ends, AreRight}
use red_brick_apid.Scheduler.Errors.{stop-Ends}
use red_brick_apid.Scheduler.Running.{set_state-state, no_message_new}

abbrev with_shutdown : World → World
with_shutdown none = none
with_shutdown (some (p, s)) = some (record p { shutdown = true }, s)

module _ (lib : ArrayLib ℕ) where
  set_state-shutdown :
      (state : SchedulerState) (m : Option ℕ) (p : Scheduler) (s : Store)
      → set_state lib state m (record p { shutdown = true }) s
        ≡ with_shutdown (set_state lib state m p s)
  unfolding set_state
  set_state-shutdown state m p s = ground arith

  module _ (services : Services) (answers : Answers) where
    stop_timer-shutdown :
        (p : Scheduler) (s : Store)
        → stop_timer lib services answers (abort_observer (record p { shutdown = true })) s
          ≡ with_shutdown (stop_timer lib services answers (abort_observer p) s)
    unfolding stop_timer abort_observer
    stop_timer-shutdown p s = ground arith

    stop-shutdown :
        (p : Scheduler) (s : Store)
        → stop lib services answers none (record p { shutdown = true }) s
          ≡ with_shutdown (stop lib services answers none p s)
    unfolding stop
    stop-shutdown p s = elim (Option-cases (stop_timer lib services answers (abort_observer p) s)) [
      | inl e ↦ rw (stop, stop_timer-shutdown p s, e) refl
      | inr ((q, s₁), e) ↦
          rw (stop, stop_timer-shutdown p s, e)
            (set_state-shutdown stopped none (stop_cron lib services answers q) s₁)
    ]

    stop_stops :
        (p p' : Scheduler) (s s' : Store)
        → stop lib services answers none p s ≡ some (p', s')
        → is_running p'.state ≡ false
    unfolding stop
    stop_stops p p' s s' h =
        elim (Option-cases (stop_timer lib services answers (abort_observer p) s)) [
          | inl e ↦ absurd (none-ne-some _ (rw (e, stop) at h))
          | inr ((q, s₁), e) ↦
              quiet p'.state (set_state-state lib stopped none _ p' s₁ s' (rw (e, stop) at h))
        ]
      where
        quiet :
            (state : SchedulerState) → same_state state stopped ≡ true → is_running state ≡ false
        quiet state h = ground arith

    module _ (right : AreRight services) (config : Config) (b : Bool) (rest : List Hold) where
      flagged :
          (r : World) (p : Scheduler) (s : Store)
          → stop lib services answers none p s ≡ r
          → Ends b rest r
          → Ends b rest (with_shutdown r)
      flagged r p s e (ends p' s' fine) = ends _ s' (record {
        inv = fine.inv;
        sound = record {
          timer_known = fine.sound.timer_known;
          cron_known = fine.sound.cron_known;
          observer_known = fine.sound.observer_known;
          cron_runs = fine.sound.cron_runs;
          no_message = fine.sound.no_message;
          halted = λ h. stop_stops p p' s s' e;
          named = fine.sound.named;
        };
      })

      killed :
          (r : World)
          → Ends b rest r
          → Ends b rest (elim r [
            | none ↦ none
            | some (p', s') ↦ some (kill_last lib services answers config p', s')
          ])
      unfolding kill_last
      killed r (ends p' s' fine) = ends _ s' (record { inv = fine.inv; sound = fine.sound })

      pub shut_down-Ends :
          (p : Scheduler) (s : Store)
          → Fine b rest p s
          → Ends b rest (shut_down lib services answers config p s)
      unfolding shut_down
      shut_down-Ends p s fine = elim (Bool-cases p.shutdown) [
        | inl down ↦ simp (shut_down, down) (ends p s fine)
        | inr up ↦
            simp (shut_down, up, stop-shutdown p s)
              (killed _ (
                flagged _ p s refl (
                  stop-Ends lib services right answers b rest none p s fine.inv
                    (no_message_new p.message) fine.sound)))
      ]
