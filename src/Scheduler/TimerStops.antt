-- ===== src/Scheduler/TimerStops.antt =====
-- How the timer of a scheduler is stopped, and what is lost when it cannot be
-- (src/redapid/program_scheduler.c).
use red_brick_apid.Base.{
  ℕ, Bool, false, Option, none, some, List, ◌++◌, arith, ◌≡◌, refl, Bool-cases, Option-cases, inl,
  inr,
}
use red_brick_apid.ApiError.{ApiE}
use red_brick_apid.Store.Arrays.{ArrayLib, tally-append}
use red_brick_apid.Store.{Store, Hold}
use red_brick_apid.Object.Invariant.{Inv, on, reordered-Inv}
use red_brick_apid.Scheduler.{Scheduler, Services, Answers, World, with_string, stop_timer}
use red_brick_apid.Scheduler.Holds.{
  held_by, IsSound, AreRight, given_new, failed_new, GivesNew, held_by-tally, with_string-tally,
}

module _ (lib : ArrayLib ℕ) (b : Bool) (rest : List Hold) (services : Services)
    (right : AreRight services) (answers : Answers) where
  -- The timer is stopped, or a string is lost; `m` is held for the scheduler.
  pub record TimerStopped (m : Option ℕ) (p : Scheduler) (result : World) : Type 0 where
    pub after : Scheduler
    pub store : Store
    pub returned : result ≡ some (after, store)
    pub inv : Inv store (with_string m (held_by after ++ rest))
    pub sound : IsSound b after
    pub same_message : after.message ≡ p.message

  lost_one :
      (m o : Option ℕ) (p : Scheduler) (s' : Store)
      → Inv s' (with_string o (with_string m (held_by p ++ rest)))
      → Inv s' (with_string m (held_by (record p { lost = with_string o p.lost }) ++ rest))
  lost_one m o p s' v =
      let p' : Scheduler = record p { lost = with_string o p.lost } in
      reordered-Inv (with_string o (with_string m (held_by p ++ rest)))
        (with_string m (held_by p' ++ rest))
        (λ f. omega (
          arith,
          held_by-tally f p,
          held_by-tally f p',
          with_string-tally f o p.lost,
          with_string-tally f o (with_string m (held_by p ++ rest)),
          with_string-tally f m (held_by p ++ rest),
          with_string-tally f m (held_by p' ++ rest),
          tally-append f (held_by p) rest,
          tally-append f (held_by p') rest,
        ))
        v

  pub stop_timer-Stopped :
      (m : Option ℕ) (p : Scheduler) (s : Store)
      → Inv s (with_string m (held_by p ++ rest))
      → IsSound b p
      → TimerStopped m p (stop_timer lib services answers p s)
  unfolding stop_timer
  stop_timer-Stopped m p s v sound = elim (Bool-cases p.timer_active) [
    | inr off ↦
        simp (stop_timer, off)
          (record {
            after = p;
            store = s;
            returned = refl;
            inv = v;
            sound = sound;
            same_message = refl;
          })
    | inl on ↦ elim (Option-cases answers.timer_stop) [
      | inl fine ↦
          simp (stop_timer, on, fine)
            (record {
              after = record p { timer_active = false; timer_runs = false };
              store = s;
              returned = refl;
              inv = v;
              sound = record {
                timer_known = λ h. cc;
                cron_known = sound.cron_known;
                observer_known = sound.observer_known;
                cron_runs = sound.cron_runs;
                no_message = sound.no_message;
                halted = sound.halted;
                named = sound.named;
              };
              same_message = refl;
            })
      | inr (errno, bad) ↦
          simp (stop_timer, on, bad)
            (lose (services.new_string s)
              (right.new_string_lem (with_string m (held_by p ++ rest)) s v))
    ]
  ]
    where
      lose :
          (r : Option (ApiE × Option ℕ × Store))
          → GivesNew (with_string m (held_by p ++ rest)) s r
          → TimerStopped m p (elim r [
            | none ↦ none
            | some (error, message, s') ↦ some (record p { lost = with_string message p.lost }, s')
          ])
      lose r (given_new a s' absent w) = record {
        after = record p { lost = with_string (some a) p.lost };
        store = s';
        returned = refl;
        inv = lost_one m (some a) p s' w;
        same_message = refl;
        sound = sound;
      }
      lose r (failed_new error s' ne w) = record {
        after = record p { lost = p.lost };
        store = s';
        returned = refl;
        inv = w;
        same_message = refl;
        sound = sound;
      }
