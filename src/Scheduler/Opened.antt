-- ===== src/Scheduler/Opened.antt =====
-- A file for a process is opened and held for the caller, or an error has stopped the scheduler
-- (src/redapid/program_scheduler.c).
use red_brick_apid.Base.{ℕ, Bool, Option, none, some, List, ◌∷◌, ◌++◌}
use red_brick_apid.Store.Arrays.{ArrayLib}
use red_brick_apid.Store.{Store, Hold}
use red_brick_apid.Object.Invariant.{Inv, unlocked_hold}
use red_brick_apid.Acquire.{Answer}
use red_brick_apid.Scheduler.{
  Redirection, dev_null, pipe, file, individual_log, continuous_log, to_stdout, invalid_redirection,
  Scheduler, Services, Answers, World, Opening, handle_error,
}
use red_brick_apid.Scheduler.Files.{File, no_file, opened, open_name, prepare_stdin}
use red_brick_apid.Scheduler.Holds.{
  held_by, IsSound, Fine, Ends, ends, AreRight, Gives, given, failed,
}
use red_brick_apid.Scheduler.Errors.{handle_error-Ends}

module _ (lib : ArrayLib ℕ) (services : Services) (right : AreRight services) (answers : Answers)
    (b : Bool) (rest : List Hold) (p : Scheduler) (sound : IsSound b p) where
  pub data FileEnds : File → Type 0 where
    is_opened :
        (f : ℕ) (s : Store)
        → Inv s (unlocked_hold f ∷ held_by p ++ rest)
        → FileEnds (some (some f, p, s))
    not_opened : (p' : Scheduler) (s : Store) → Fine b rest p' s → FileEnds (some (none, p', s))

  pub file_missing :
      (r : World)
      → Ends b rest r
      → FileEnds (elim r [ none ↦ none | some (p', s') ↦ some (none, p', s') ])
  file_missing r (ends p' s' fine) = not_opened p' s' fine

  pub no_file-Ends :
      (s : Store) → Inv s (held_by p ++ rest) → FileEnds (no_file lib services answers p s)
  no_file-Ends s v =
      file_missing (handle_error lib services answers p s)
        (handle_error-Ends lib services right answers b rest p s v sound)

  pub opened-Ends :
      (r : Answer ℕ)
      → Gives (held_by p ++ rest) unlocked_hold r
      → FileEnds (opened lib services answers p r)
  opened-Ends r (given f s v) = is_opened f s v
  opened-Ends r (failed error s ne v) = no_file-Ends s v

  pub open_name-Ends :
      (name : Option ℕ) (opening : Opening) (s : Store)
      → Inv s (held_by p ++ rest)
      → FileEnds (open_name lib services answers name opening p s)
  open_name-Ends none opening s v = no_file-Ends s v
  open_name-Ends (some a) opening s v =
      opened-Ends (services.open_file a opening s)
        (right.open_file_lem a opening (held_by p ++ rest) s v)

  pub prepare_stdin-Ends :
      (redirection : Redirection) (s : Store)
      → Inv s (held_by p ++ rest)
      → FileEnds (prepare_stdin lib services answers redirection p s)
  unfolding prepare_stdin
  prepare_stdin-Ends dev_null s v = open_name-Ends (some p.dev_null_file_name) _ s v
  prepare_stdin-Ends pipe s v =
      opened-Ends (services.new_pipe s) (right.new_pipe_lem (held_by p ++ rest) s v)
  prepare_stdin-Ends file s v = open_name-Ends p.stdin_file_name _ s v
  prepare_stdin-Ends individual_log s v = no_file-Ends s v
  prepare_stdin-Ends continuous_log s v = no_file-Ends s v
  prepare_stdin-Ends to_stdout s v = no_file-Ends s v
  prepare_stdin-Ends invalid_redirection s v = no_file-Ends s v
  -- The name is given back, whether or not the file could be opened.
  -- The file is given back when its header cannot be written.
