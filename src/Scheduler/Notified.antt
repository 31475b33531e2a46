-- ===== src/Scheduler/Notified.antt =====
-- `program_scheduler_handle_process_state_change` (src/redapid/program_scheduler.c) as the function
-- that the scheduler gives to `process_spawn`.
use red_brick_apid.Base.{ℕ, true, some, List, ◌∷◌, ◌++◌, ◌≡◌, refl, inr, sym, ap, subst, ◌∙◌}
use mathlib.Core.Option.{none-ne-some}
use red_brick_apid.Store.Arrays.{ArrayLib}
use red_brick_apid.Store.{Store, Hold}
use red_brick_apid.Object.Invariant.{Inv, unlocked_hold}
use red_brick_apid.Process.{Process}
use red_brick_apid.Process.Changes.{Kept, KeepsCounts}
use red_brick_apid.Scheduler.{Scheduler, Config, Services, Answers, World, with_string}
use red_brick_apid.Scheduler.Events.{handle_process_state_change}
use red_brick_apid.Scheduler.Holds.{AreRight, Ends, ends, IsSound, held_by, name_holds}
use red_brick_apid.Scheduler.Tries.{known_last}
use red_brick_apid.Scheduler.Kept.{Keeps, last_spawned-IsKept, handle_process_state_change-Keeps}

-- The scheduler with the state of the process that it has spawned last.
abbrev pub seen : Process → Scheduler → Scheduler
seen q p = record p { last_spawned = some q }

module _ (lib : ArrayLib ℕ) (services : Services) (answers : Answers) (config : Config) where
  -- The function of the scheduler, called for its last process.
  abbrev pub call_scheduler : Process → Scheduler → Store → World
  call_scheduler q p s = handle_process_state_change lib services answers config (seen q p) s

  module _ (right : AreRight services) (cell : ℕ) where
    -- The scheduler's state is sound, and its last process is the one in the cell.
    pub record Watches (p : Scheduler) : Type 0 where
      pub sound : IsSound true p
      pub last : Process
      pub known : p.last_spawned ≡ some last
      pub same_cell : last.cell ≡ cell

    seen-held_by :
        (q r : Process) (p : Scheduler)
        → p.last_spawned ≡ some r
        → q.cell ≡ r.cell
        → held_by (seen q p) ≡ held_by p
    seen-held_by q r p known same =
        let same_holds : unlocked_hold q.cell ∷ name_holds p ≡ unlocked_hold r.cell ∷ name_holds p =
          ap (λ c. unlocked_hold c ∷ name_holds p) same in
        rw known (ap (with_string p.message) same_holds)

    after_change :
        (q : Process) (pending : List Hold) (r : World)
        → Ends true pending r
        → Keeps (λ p. p.last_spawned) (some q) r
        → q.cell ≡ cell
        → Kept lib call_scheduler cell held_by Watches pending r
    after_change q pending r (ends p s fine) keeps own = record {
      creator = p;
      after = s;
      returned = refl;
      inv = fine.inv;
      valid = record { sound = fine.sound; last = q; known = keeps; same_cell = own };
    }

    pub call_scheduler-KeepsCounts : KeepsCounts lib call_scheduler cell held_by Watches
    call_scheduler-KeepsCounts q p pending s own watches v =
        let w : Inv s (held_by (seen q p) ++ pending) =
          subst (λ holds. Inv s (holds ++ pending))
            (sym (seen-held_by q watches.last p watches.known (own ∙ sym watches.same_cell))) v in
        after_change q pending _
          (known_last lib services right answers config pending (seen q p) s
            (record { inv = w; sound = watches.sound }) (λ e. none-ne-some q (sym e)))
          (handle_process_state_change-Keeps (λ p'. p'.last_spawned) lib last_spawned-IsKept
            services answers (inr (λ lost p'. refl)) config (seen q p) s)
          own
