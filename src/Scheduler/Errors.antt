-- ===== src/Scheduler/Errors.antt =====
-- `program_scheduler_stop` and `program_scheduler_handle_error` on every path
-- (src/redapid/program_scheduler.c).
use red_brick_apid.Base.{ℕ, Bool, Option, none, some, List, [], ◌++◌, arith, ◌≡◌, ap, sym, subst}
use mathlib.Core.Option.{some-injective, none-ne-some}
use red_brick_apid.ApiError.{ApiE}
use red_brick_apid.Store.Arrays.{ArrayLib, tally, tally-append}
use red_brick_apid.Store.{Store, Hold}
use red_brick_apid.Object.Invariant.{Inv, on}
use red_brick_apid.Object.Create.Cell.{InNoArray}
use red_brick_apid.Scheduler.{
  Scheduler, stopped, Services, Answers, with_string, abort_observer, stop_cron, set_state, stop,
  handle_error,
}
use red_brick_apid.Scheduler.Holds.{
  held_by, IsSound, Ends, AreRight, given_new, failed_new, GivesNew, held_by-tally,
}
use red_brick_apid.Scheduler.TimerStops.{stop_timer-Stopped}
use red_brick_apid.Scheduler.Stopping.{
  Different, set_state-Ends, keep_message-Ends, abort_observer-IsSound, stop_cron-IsSound,
  uncronned-IsSound,
}

module _ (lib : ArrayLib ℕ) (services : Services) (right : AreRight services) (answers : Answers)
    (b : Bool) (rest : List Hold) where
  -- A scheduler stops with a message that is held for it.
  pub stop-Ends :
      (m : Option ℕ) (p : Scheduler) (s : Store)
      → Inv s (with_string m (held_by p ++ rest))
      → Different p.message m
      → IsSound b p
      → Ends b rest (stop lib services answers m p s)
  unfolding stop abort_observer
  stop-Ends m p s v d sound =
      let t =
        stop_timer-Stopped lib b rest services right answers m (abort_observer p) s v
          (abort_observer-IsSound lib b rest p sound) in
      let q : Scheduler = stop_cron lib services answers t.after in
      rw (stop, t.returned)
        (set_state-Ends lib b rest stopped m q t.store t.inv
          (subst (λ o. Different o m) (sym t.same_message) d)
          (uncronned-IsSound lib b rest lib services answers t.after t.sound)
          (stop_cron-IsSound lib b rest lib services answers m t.after t.sound))

  -- A scheduler stops with the message that it has.
  pub stop_own-Ends :
      (p : Scheduler) (s : Store)
      → Inv s (held_by p ++ rest)
      → IsSound b p
      → Ends b rest (stop lib services answers p.message p s)
  unfolding stop abort_observer
  stop_own-Ends p s v sound =
      let t =
        stop_timer-Stopped lib b rest services right answers none (abort_observer p) s v
          (abort_observer-IsSound lib b rest p sound) in
      let q : Scheduler = stop_cron lib services answers t.after in
      rw (stop, t.returned)
        (subst (λ o. Ends b rest (set_state lib stopped o q t.store)) t.same_message
          (keep_message-Ends lib b rest stopped q t.store t.inv
            (uncronned-IsSound lib b rest lib services answers t.after t.sound)
            (stop_cron-IsSound lib b rest lib services answers q.message t.after t.sound)))

  -- A new string is not the message that is held.
  new-Different :
      (a : ℕ) (p : Scheduler) (s : Store)
      → InNoArray a s
      → Inv s (held_by p ++ rest)
      → Different p.message (some a)
  new-Different a p s absent v b e h =
      let same : a ≡ b = some-injective _ _ h in
      let message = ap (λ (o : Option ℕ). tally (on b) (with_string o [])) e in
      let live =
        v.held_live b
          (ground (arith, message, held_by-tally (on b) p, tally-append (on b) (held_by p) rest)) in
      let gone = subst (λ c. InNoArray c s) same absent (s.object b).type in
      omega (arith, live, gone)

  -- An error stops the scheduler.
  pub handle_error-Ends :
      (p : Scheduler) (s : Store)
      → Inv s (held_by p ++ rest)
      → IsSound b p
      → Ends b rest (handle_error lib services answers p s)
  unfolding handle_error
  handle_error-Ends p s v sound =
      with_message (services.new_string s) (right.new_string_lem (held_by p ++ rest) s v)
    where
      with_message :
          (r : Option (ApiE × Option ℕ × Store))
          → GivesNew (held_by p ++ rest) s r
          → Ends b rest (elim r [
            | none ↦ none
            | some (error, message, s') ↦ stop lib services answers message p s'
          ])
      with_message r (given_new a s' absent w) =
          stop-Ends (some a) p s' w (new-Different a p s absent v) sound
      with_message r (failed_new error s' ne w) =
          stop-Ends none p s' w (λ a h e. none-ne-some a e) sound
