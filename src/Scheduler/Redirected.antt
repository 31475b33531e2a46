-- ===== src/Scheduler/Redirected.antt =====
-- The files of stdout and stderr (src/redapid/program_scheduler.c).
use red_brick_apid.Base.{ℕ, Bool, none, some, List, ◌∷◌, ◌++◌, arith, ◌<◌, Bool-cases, inl, inr}
use red_brick_apid.Store.Arrays.{ArrayLib, tally, tally-append}
use red_brick_apid.Store.{Store, Hold}
use red_brick_apid.Object.{add_internal_reference, remove_internal_reference}
use red_brick_apid.Object.Invariant.{Inv, on, unlocked_hold, reordered-Inv}
use red_brick_apid.Object.Cascade.{remove_internal_reference-Settled}
use red_brick_apid.Acquire.{Answer}
use red_brick_apid.Acquire.Getters.{add_internal_reference-Inv}
use red_brick_apid.Scheduler.{
  Redirection, dev_null, pipe, file, individual_log, continuous_log, to_stdout, invalid_redirection,
  Scheduler, Services, Answers, World, create_to_append, handle_error,
}
use red_brick_apid.Scheduler.Files.{
  no_file, open_and_release, write_header, prepare_continuous_log, prepare_stdout, prepare_stderr,
}
use red_brick_apid.Scheduler.Holds.{
  held_by, IsSound, Ends, ends, AreRight, Gives, given, failed, GivesNew, given_new, failed_new,
}
use red_brick_apid.Scheduler.Errors.{handle_error-Ends}
use red_brick_apid.Scheduler.Opened.{FileEnds, no_file-Ends, open_name-Ends, is_opened, not_opened}
use red_brick_apid.Scheduler.Logs.{open_and_release-Gives, individual_log-Ends}

module _ (lib : ArrayLib ℕ) (services : Services) (right : AreRight services) (answers : Answers)
    (b : Bool) (rest : List Hold) (p : Scheduler) (sound : IsSound b p) where
  write_header-Ends :
      (f : ℕ) (s : Store)
      → Inv s (unlocked_hold f ∷ held_by p ++ rest)
      → FileEnds lib services right answers b rest p sound (write_header lib services answers f p s)
  unfolding write_header
  write_header-Ends f s v = elim (Bool-cases answers.header_written) [
    | inl written ↦ simp (write_header, written) (is_opened f s v)
    | inr unwritten ↦
        simp (write_header, unwritten)
          (after_error (handle_error lib services answers p s) (
            handle_error-Ends lib services right answers b (unlocked_hold f ∷ rest) p s
              (reordered-Inv (unlocked_hold f ∷ held_by p ++ rest)
                (held_by p ++ unlocked_hold f ∷ rest)
                (λ g. omega (
                  arith,
                  tally-append g (held_by p) rest,
                  tally-append g (held_by p) (unlocked_hold f ∷ rest),
                ))
                v)
              sound))
  ]
    where
      after_error :
          (r : World)
          → Ends b (unlocked_hold f ∷ rest) r
          → FileEnds lib services right answers b rest p sound (elim r [
            | none ↦ none
            | some (p', s') ↦ elim (remove_internal_reference lib f s') [
              | none ↦ none
              | some s'' ↦ some (none, p', s'')
            ]
          ])
      after_error r (ends p' s' fine) =
          let d = remove_internal_reference-Settled lib f (held_by p' ++ rest) s' (
            reordered-Inv (held_by p' ++ unlocked_hold f ∷ rest)
              (unlocked_hold f ∷ held_by p' ++ rest)
              (λ g. omega (
                arith,
                tally-append g (held_by p') rest,
                tally-append g (held_by p') (unlocked_hold f ∷ rest),
              ))
              fine.inv) in
          rw d.returned (not_opened p' d.after (record { inv = d.inv; sound = fine.sound }))

  continuous_log-Ends :
      (s : Store)
      → Inv s (held_by p ++ rest)
      → FileEnds lib services right answers b rest p sound
          (prepare_continuous_log lib services answers p s)
  unfolding prepare_continuous_log
  continuous_log-Ends s v = elim (Bool-cases (answers.log_name_fits 0)) [
    | inr long ↦
        simp (prepare_continuous_log, long)
          (no_file-Ends lib services right answers b rest p sound s v)
    | inl fits ↦
        simp (prepare_continuous_log, fits)
          (named (services.new_string s) (right.new_string_lem (held_by p ++ rest) s v))
  ]
    where
      created :
          (r : Answer ℕ)
          → Gives (held_by p ++ rest) unlocked_hold r
          → FileEnds lib services right answers b rest p sound (elim r [
            | none ↦ none
            | some (error', none, s₂) ↦ no_file lib services answers p s₂
            | some (error', some f, s₂) ↦ write_header lib services answers f p s₂
          ])
      created r (given f s₂ w) = write_header-Ends f s₂ w
      created r (failed error s₂ ne w) = no_file-Ends lib services right answers b rest p sound s₂ w

      named :
          (r : Answer ℕ)
          → GivesNew (held_by p ++ rest) s r
          → FileEnds lib services right answers b rest p sound (elim r [
            | none ↦ none
            | some (error, none, s₁) ↦ no_file lib services answers p s₁
            | some (error, some a, s₁) ↦
                elim (open_and_release lib services answers a create_to_append s₁) [
                  | none ↦ none
                  | some (error', none, s₂) ↦ no_file lib services answers p s₂
                  | some (error', some f, s₂) ↦ write_header lib services answers f p s₂
                ]
          ])
      named r (given_new a s₁ absent w) =
          created (open_and_release lib services answers a create_to_append s₁) (
            open_and_release-Gives lib services right answers b rest p sound a create_to_append s₁
              w)
      named r (failed_new error s₁ ne w) =
          no_file-Ends lib services right answers b rest p sound s₁ w

  pub prepare_stdout-Ends :
      (redirection : Redirection) (s : Store)
      → Inv s (held_by p ++ rest)
      → FileEnds lib services right answers b rest p sound
          (prepare_stdout lib services answers redirection p s)
  unfolding prepare_stdout
  prepare_stdout-Ends dev_null s v =
      open_name-Ends lib services right answers b rest p sound (some p.dev_null_file_name) _ s v
  prepare_stdout-Ends pipe s v = no_file-Ends lib services right answers b rest p sound s v
  prepare_stdout-Ends file s v =
      open_name-Ends lib services right answers b rest p sound p.stdout_file_name _ s v
  prepare_stdout-Ends individual_log s v =
      individual_log-Ends lib services right answers b rest p sound s v
  prepare_stdout-Ends continuous_log s v = continuous_log-Ends s v
  prepare_stdout-Ends to_stdout s v = no_file-Ends lib services right answers b rest p sound s v
  prepare_stdout-Ends invalid_redirection s v =
      no_file-Ends lib services right answers b rest p sound s v

  -- With a file for stdout that is held.
  pub prepare_stderr-Ends :
      (redirection : Redirection) (o : ℕ) (s : Store)
      → Inv s (held_by p ++ rest)
      → 0 < tally (on o) rest
      → FileEnds lib services right answers b rest p sound
          (prepare_stderr lib services answers redirection o p s)
  unfolding prepare_stderr
  prepare_stderr-Ends dev_null o s v h =
      open_name-Ends lib services right answers b rest p sound (some p.dev_null_file_name) _ s v
  prepare_stderr-Ends pipe o s v h = no_file-Ends lib services right answers b rest p sound s v
  prepare_stderr-Ends file o s v h =
      open_name-Ends lib services right answers b rest p sound p.stderr_file_name _ s v
  prepare_stderr-Ends individual_log o s v h =
      individual_log-Ends lib services right answers b rest p sound s v
  prepare_stderr-Ends continuous_log o s v h = continuous_log-Ends s v
  prepare_stderr-Ends to_stdout o s v h =
      let live = v.held_live o (omega (arith, h, tally-append (on o) (held_by p) rest)) in
      is_opened o (add_internal_reference o s)
        (add_internal_reference-Inv o (held_by p ++ rest) s v live)
  prepare_stderr-Ends invalid_redirection o s v h =
      no_file-Ends lib services right answers b rest p sound s v
