-- ===== src/Scheduler/Prepared.antt =====
-- `program_scheduler_prepare_filesystem` on every path, when the working directory can be made
-- (src/redapid/program_scheduler.c).
use red_brick_apid.Base.{
  if◌then◌else◌, ℕ, Bool, true, Option, none, some, List, [], ◌∷◌, ◌++◌, ◌≡◌, Bool-cases, inl, inr,
}
use red_brick_apid.ApiError.{is_success}
use red_brick_apid.Store.Arrays.{ArrayLib}
use red_brick_apid.Store.{Store, Hold}
use red_brick_apid.Object.Invariant.{Inv, locked_hold}
use red_brick_apid.Acquire.{Answer}
use red_brick_apid.Scheduler.{Config, Scheduler, Services, Answers, with_string}
use red_brick_apid.Scheduler.Filesystem.{
  to_file, give_up, name_file, make_stderr_directory, make_stdout_directory, name_stdout,
  give_up_twice, prepare_filesystem,
}
use red_brick_apid.Scheduler.Holds.{
  held_by, IsSound, Fine, AreRight, GivesNew, given_new, failed_new,
}
use red_brick_apid.Scheduler.Launching.{fails-ne}
use red_brick_apid.Scheduler.Stored.{make_stderr_directory-Ends}
use red_brick_apid.Scheduler.Named.{PreparedEnds, give_up-Ends, name_file-Ends}

module _ (lib : ArrayLib ℕ) (services : Services) (right : AreRight services) (answers : Answers)
    (config : Config) (b : Bool) (rest : List Hold) where
  make_stdout_directory-Ends :
      (d : ℕ) (i o : Option ℕ) (p : Scheduler) (s : Store)
      → Inv s (with_string o (with_string i (locked_hold d ∷ [])) ++ (held_by p ++ rest))
      → IsSound b p
      → PreparedEnds lib services right answers config b rest
          (make_stdout_directory lib services answers config d i o p s)
  unfolding make_stdout_directory
  make_stdout_directory-Ends d i o p s v sound =
      let names = with_string o (with_string i (locked_hold d ∷ [])) in
      let onward =
        name_file-Ends lib services right answers config b rest config.stderr_redirection names
          (make_stderr_directory lib services answers config d i o) p s v sound
          (λ r s' w.
            make_stderr_directory-Ends lib services right answers config b rest d i o r p s' w
              sound) in
      elim (Bool-cases (to_file config.stdout_redirection)) [
        | inr other ↦ simp (make_stdout_directory, other) onward
        | inl named ↦ elim (Bool-cases (is_success answers.stdout_directory_made)) [
          | inl made ↦ simp (make_stdout_directory, named, made) onward
          | inr unmade ↦
              simp (make_stdout_directory, named, unmade)
                (give_up-Ends lib services right answers config b rest answers.stdout_directory_made
                  names p s unmade v sound)
        ]
      ]

  name_stdout-Ends :
      (d : ℕ) (i : Option ℕ) (p : Scheduler) (s : Store)
      → Inv s (with_string i (locked_hold d ∷ []) ++ (held_by p ++ rest))
      → IsSound b p
      → PreparedEnds lib services right answers config b rest
          (name_stdout lib services answers config d i p s)
  unfolding name_stdout
  name_stdout-Ends d i p s v sound =
      name_file-Ends lib services right answers config b rest config.stdout_redirection
        (with_string i (locked_hold d ∷ [])) (make_stdout_directory lib services answers config d i)
        p s v sound (λ o s' w. make_stdout_directory-Ends d i o p s' w sound)

  pub prepare_filesystem-Ends :
      (p : Scheduler) (s : Store)
      → Fine b rest p s
      → is_success answers.working_directory_made ≡ true
      → PreparedEnds lib services right answers config b rest
          (prepare_filesystem lib services answers config p s)
  unfolding prepare_filesystem
  prepare_filesystem-Ends p s fine dir =
      made (services.new_string s) (right.new_string_lem (held_by p ++ rest) s fine.inv)
    where
      made :
          (r : Answer ℕ)
          → GivesNew (held_by p ++ rest) s r
          → PreparedEnds lib services right answers config b rest (elim r [
            | none ↦ none
            | some (error, none, s') ↦ give_up lib services answers config error [] p s'
            | some (error, some d, s') ↦
                if is_success answers.working_directory_made
                then name_file lib services answers config config.stdin_redirection
                    (with_string (some d) [])
                    (name_stdout lib services answers config d)
                    p
                    s'
                else give_up_twice lib services answers config answers.working_directory_made d p s'
          ])
      made r (given_new d s' absent w) = simp dir (
          name_file-Ends lib services right answers config b rest config.stdin_redirection
            (locked_hold d ∷ []) (name_stdout lib services answers config d) p s' w fine.sound
            (λ i s'' w'. name_stdout-Ends d i p s'' w' fine.sound))
      made r (failed_new error s' ne w) =
          give_up-Ends lib services right answers config b rest error [] p s' (fails-ne error ne) w
            fine.sound
