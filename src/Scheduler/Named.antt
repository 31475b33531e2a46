-- ===== src/Scheduler/Named.antt =====
-- `program_scheduler_prepare_filesystem` (src/redapid/program_scheduler.c), when the working
-- directory can be made.
use red_brick_apid.Base.{
  ℕ, Bool, true, false, Option, none, some, List, ◌++◌, arith, ◌≡◌, ◌≢◌, Bool-cases, inl, inr, sym,
  ◌∙◌,
}
use mathlib.Core.Bool.{false≢true}
use red_brick_apid.ApiError.{ApiE, is_success}
use red_brick_apid.Store.Arrays.{ArrayLib, tally, tally-append}
use red_brick_apid.Store.{Store, Hold}
use red_brick_apid.Object.{give_back, remove_internal_reference}
use red_brick_apid.Object.Invariant.{Inv, reordered-Inv}
use red_brick_apid.Acquire.{Answer}
use red_brick_apid.Acquire.Cleanup.{give_back_all-Settled}
use red_brick_apid.Scheduler.{
  Redirection, Config, Scheduler, Services, Answers, World, with_string, handle_error,
}
use red_brick_apid.Scheduler.Filesystem.{Prepared, to_file, give_up, name_file}
use red_brick_apid.Scheduler.Holds.{
  held_by, IsSound, Fine, Ends, ends, AreRight, GivesNew, given_new, failed_new,
}
use red_brick_apid.Scheduler.Errors.{handle_error-Ends}
use red_brick_apid.Scheduler.Launching.{fails-ne}

module _ (lib : ArrayLib ℕ) (services : Services) (right : AreRight services) (answers : Answers)
    (config : Config) (b : Bool) (rest : List Hold) where
  -- The call ends in a fine state; when the directory of the stderr file can be made, success means
  -- that there is a working directory.
  pub data PreparedEnds : Prepared → Type 0 where
    prepared :
        (error : ApiE) (p : Scheduler) (s : Store)
        → Fine b rest p s
        → (is_success error ≡ true
            → is_success answers.stderr_directory_made ≡ true
            → p.working_directory ≢ none)
        → PreparedEnds (some (error, p, s))

  pub give_up-Ends :
      (error : ApiE) (names : List Hold) (p : Scheduler) (s : Store)
      → is_success error ≡ false
      → Inv s (names ++ (held_by p ++ rest))
      → IsSound b p
      → PreparedEnds (give_up lib services answers config error names p s)
  unfolding give_up
  give_up-Ends error names p s bad v sound = clean (handle_error lib services answers p s) (
      handle_error-Ends lib services right answers b (names ++ rest) p s
        (reordered-Inv (names ++ (held_by p ++ rest)) (held_by p ++ (names ++ rest))
          (λ f. swapped f p) v)
        sound)
    where
      swapped :
          (f : Hold → ℕ) (q : Scheduler)
          → tally f (names ++ (held_by q ++ rest)) ≡ tally f (held_by q ++ (names ++ rest))
      swapped f q = omega (
        arith,
        tally-append f names (held_by q ++ rest),
        tally-append f (held_by q) rest,
        tally-append f (held_by q) (names ++ rest),
        tally-append f names rest,
      )

      clean :
          (r : World)
          → Ends b (names ++ rest) r
          → PreparedEnds (elim r [
            | none ↦ none
            | some (p', s') ↦
                elim (red_brick_apid.Object.give_back
                  (red_brick_apid.Object.remove_internal_reference lib)
                  names
                  s') [ none ↦ none | some s'' ↦ some (error, p', s'') ]
          ])
      clean r (ends p' s' fine) =
          let d = give_back_all-Settled lib (held_by p' ++ rest) names s' (
            reordered-Inv (held_by p' ++ (names ++ rest)) (names ++ (held_by p' ++ rest))
              (λ f. omega (arith, swapped f p')) fine.inv) in
          rw d.returned (
            prepared error p' d.after (record { inv = d.inv; sound = fine.sound })
              (λ good. absurd (false≢true (sym bad ∙ good))))

  pub grown :
      (o : Option ℕ) (names more : List Hold) (s : Store)
      → Inv s (with_string o (names ++ more))
      → Inv s (with_string o names ++ more)
  grown none names more s v = v
  grown (some a) names more s v = v

  pub name_file-Ends :
      (redirection : Redirection) (names : List Hold)
      (next : Option ℕ → Scheduler → Store → Prepared) (p : Scheduler) (s : Store)
      → Inv s (names ++ (held_by p ++ rest))
      → IsSound b p
      → ((o : Option ℕ) (s' : Store)
          → Inv s' (with_string o names ++ (held_by p ++ rest))
          → PreparedEnds (next o p s'))
      → PreparedEnds (name_file lib services answers config redirection names next p s)
  unfolding name_file
  name_file-Ends redirection names next p s v sound on_named =
      elim (Bool-cases (to_file redirection)) [
        | inr other ↦ simp (name_file, other) (on_named none s v)
        | inl named ↦
            simp (name_file, named)
              (made (services.new_string s)
                (right.new_string_lem (names ++ (held_by p ++ rest)) s v))
      ]
    where
      made :
          (r : Answer ℕ)
          → GivesNew (names ++ (held_by p ++ rest)) s r
          → PreparedEnds (elim r [
            | none ↦ none
            | some (error, none, s') ↦ give_up lib services answers config error names p s'
            | some (error, some a, s') ↦ next (some a) p s'
          ])
      made r (given_new a s' absent w) = on_named (some a) s' w
      made r (failed_new error s' ne w) = give_up-Ends error names p s' (fails-ne error ne) w sound
