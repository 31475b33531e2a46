-- ===== src/Scheduler/Destruction.antt =====
-- `program_scheduler_destroy` (src/redapid/program_scheduler.c).
use red_brick_apid.Base.{ℕ, Bool, Option, none, some, List, [], ◌∷◌, ◌++◌, arith, ◌≡◌, refl}
use red_brick_apid.Store.Arrays.{ArrayLib, tally-append}
use red_brick_apid.Store.{Store, Hold}
use red_brick_apid.Object.{give_back, remove_internal_reference}
use red_brick_apid.Object.Invariant.{Inv, locked_hold, reordered-Inv}
use red_brick_apid.Acquire.Cleanup.{give_back_all-Settled}
use red_brick_apid.Scheduler.{Scheduler, Config, Services, Answers, World, with_string}
use red_brick_apid.Scheduler.Events.{shut_down}
use red_brick_apid.Scheduler.Holds.{
  held_by, Fine, Ends, ends, AreRight, with_process, held_by-tally, with_string-tally,
  with_process-tally,
}
use red_brick_apid.Scheduler.ShutDown.{shut_down-Ends}
use red_brick_apid.Scheduler.Kept.{shut_down-lost}

-- What `program_scheduler_destroy` gives back, in order.
abbrev pub given_back : Scheduler → List Hold
given_back p = with_process p.last_spawned (
    with_string p.message (
      locked_hold p.dev_null_file_name
      ∷ with_string p.stderr_file_name (
          with_string p.stdout_file_name
            (with_string p.stdin_file_name (with_string p.working_directory [])))))

module _ (lib : ArrayLib ℕ) (services : Services) (answers : Answers) (config : Config) where
  -- `program_scheduler_destroy`
  unfoldable pub destroy : Scheduler → Store → Option Store
  destroy p s = elim (shut_down lib services answers config p s) [
    | none ↦ none
    | some (p', s') ↦ give_back (remove_internal_reference lib) (given_back p') s'
  ]

  module _ (right : AreRight services) (b : Bool) (rest : List Hold) where
    -- The scheduler was shut down, and all that its members referred to then is given back; only a
    -- message that the shutdown lost, for a timer that it could not stop, is still held.
    pub record Destroyed (p : Scheduler) (s : Store) (result : Option Store) : Type 0 where
      pub at_end : Scheduler
      pub between : Store
      pub after : Store
      pub is_shut_down : shut_down lib services answers config p s ≡ some (at_end, between)
      pub returned : result ≡ some after
      pub inv : Inv after (at_end.lost ++ rest)
      pub nothing_lost : answers.timer_stop ≡ none → at_end.lost ≡ p.lost

    emptied :
        (p : Scheduler) (s : Store) (r : World)
        → shut_down lib services answers config p s ≡ r
        → Ends b rest r
        → Destroyed p s (elim r [
          | none ↦ none
          | some (p', s') ↦ give_back (remove_internal_reference lib) (given_back p') s'
        ])
    emptied p₀ s₀ r e (ends p s fine) =
        let d = give_back_all-Settled lib (p.lost ++ rest) (given_back p) s (
          reordered-Inv (held_by p ++ rest) (given_back p ++ (p.lost ++ rest))
            (λ f. omega (
              arith,
              held_by-tally f p,
              tally-append f (held_by p) rest,
              tally-append f (given_back p) (p.lost ++ rest),
              tally-append f p.lost rest,
              with_process-tally f p.last_spawned (
                  with_string p.message (
                    locked_hold p.dev_null_file_name
                    ∷ with_string p.stderr_file_name (
                        with_string p.stdout_file_name
                          (with_string p.stdin_file_name (with_string p.working_directory []))))),
              with_string-tally f p.message (
                  locked_hold p.dev_null_file_name
                  ∷ with_string p.stderr_file_name (
                      with_string p.stdout_file_name
                        (with_string p.stdin_file_name (with_string p.working_directory [])))),
              with_string-tally f p.stderr_file_name (
                  with_string p.stdout_file_name
                    (with_string p.stdin_file_name (with_string p.working_directory []))),
              with_string-tally f p.stdout_file_name
                  (with_string p.stdin_file_name (with_string p.working_directory [])),
              with_string-tally f p.stdin_file_name (with_string p.working_directory []),
            ))
            fine.inv) in
        record {
          at_end = p;
          between = s;
          after = d.after;
          is_shut_down = e;
          returned = d.returned;
          inv = d.inv;
          nothing_lost = λ stops. shut_down-lost lib services answers config stops p₀ p s₀ s e;
        }

    -- When the services keep the counts right, `program_scheduler_destroy` on a scheduler in a fine
    -- state shuts the scheduler down and returns, and the counts are right without all that its
    -- members referred to after the shutdown; only what the scheduler has lost is still held, and a
    -- shutdown that can stop the timer loses nothing more.
    pub destroy-Destroyed :
        (p : Scheduler) (s : Store) → Fine b rest p s → Destroyed p s (destroy p s)
    unfolding destroy
    destroy-Destroyed p s fine =
        emptied p s _ refl (shut_down-Ends lib services answers right config b rest p s fine)
