-- ===== src/Scheduler/Launching.antt =====
-- `program_scheduler_spawn_process` on every path (src/redapid/program_scheduler.c).
use red_brick_apid.Base.{
  ◌+◌, ℕ, Bool, false, Option, none, some, List, [], ◌∷◌, ◌++◌, arith, ◌≡◌, refl, ◌≢◌, Bool-cases,
  Option-cases, inl, inr, ==-refl,
}
use red_brick_apid.ApiError.{ApiE, is_success, success, is_success-eq}
use red_brick_apid.Store.Arrays.{ArrayLib, tally-append}
use red_brick_apid.Store.{Store, Hold}
use red_brick_apid.Object.Invariant.{Inv, unlocked_hold, reordered-Inv}
use red_brick_apid.Object.Cascade.{remove_internal_reference-Settled}
use red_brick_apid.Acquire.{Answer}
use red_brick_apid.Acquire.Cleanup.{give_back_all-Settled}
use red_brick_apid.Process.{Process}
use red_brick_apid.Scheduler.{Config, Scheduler, Services, Answers, World, abort_observer}
use red_brick_apid.Scheduler.Files.{File}
use red_brick_apid.Scheduler.Launch.{
  drop_files, release_last, keep_process, after_spawn, spawn_with, after_stderr, after_stdout,
  after_stdin, last_is_alive, spawn_process,
}
use red_brick_apid.Scheduler.Holds.{
  held_by, IsSound, Fine, Ends, ends, AreRight, Gives, given, failed, with_process, held_by-tally,
  with_process-tally,
}
use red_brick_apid.Scheduler.Stopping.{abort_observer-IsSound}
use red_brick_apid.Scheduler.Errors.{handle_error-Ends}
use red_brick_apid.Scheduler.Redirected.{prepare_stdout-Ends, prepare_stderr-Ends}
use red_brick_apid.Scheduler.Opened.{FileEnds, is_opened, not_opened, prepare_stdin-Ends}

pub fails-ne : (e : ApiE) → e ≢ success → is_success e ≡ false
fails-ne e ne = elim (Bool-cases (is_success e)) [
  | inl good ↦ absurd (ne (is_success-eq e good))
  | inr bad ↦ bad
]

module _ (lib : ArrayLib ℕ) (services : Services) (right : AreRight services) (answers : Answers)
    (config : Config) (b : Bool) (rest : List Hold) where
  held_too :
      (h : Hold) (p : Scheduler) (more : List Hold) (s : Store)
      → Inv s (h ∷ held_by p ++ more)
      → Inv s (held_by p ++ h ∷ more)
  held_too h p more s v =
      reordered-Inv (h ∷ held_by p ++ more) (held_by p ++ h ∷ more)
        (λ f. omega (arith, tally-append f (held_by p) more, tally-append f (held_by p) (h ∷ more)))
        v

  drop_files-Ends :
      (files : List Hold) (p : Scheduler) (s : Store)
      → Inv s (held_by p ++ (files ++ rest))
      → IsSound b p
      → Ends b rest (drop_files lib services answers config files p s)
  unfolding drop_files
  drop_files-Ends files p s v sound =
      let d = give_back_all-Settled lib (held_by p ++ rest) files s (
        reordered-Inv (held_by p ++ (files ++ rest)) (files ++ (held_by p ++ rest))
          (λ f. omega (
            arith,
            tally-append f (held_by p) (files ++ rest),
            tally-append f files rest,
            tally-append f files (held_by p ++ rest),
            tally-append f (held_by p) rest,
          ))
          v) in
      rw (drop_files, d.returned) (ends p d.after (record { inv = d.inv; sound = sound }))

  release_last-Inv :
      (last : Option Process) (more : List Hold) (s : Store)
      → Inv s (with_process last more)
      → (s' : Store) × (release_last lib services answers config last s ≡ some s') × Inv s' more
  release_last-Inv none more s v = (s, refl, v)
  release_last-Inv (some q) more s v =
      let d = remove_internal_reference-Settled lib q.cell more s v in (d.after, d.returned, d.inv)

  keep_process-Ends :
      (q : Process) (i o r : ℕ) (p : Scheduler) (s : Store)
      → Inv s (
          unlocked_hold q.cell ∷ held_by p
          ++ unlocked_hold r ∷ unlocked_hold o ∷ unlocked_hold i ∷ rest)
      → IsSound b p
      → Ends b rest (keep_process lib services answers config q i o r p s)
  unfolding keep_process
  keep_process-Ends q i o r p s v sound =
      let p' : Scheduler = record p { last_spawned = some q; spawns = p.spawns + 1 } in
      let files = unlocked_hold i ∷ unlocked_hold o ∷ unlocked_hold r ∷ [] in
      let (s', e, v') = release_last-Inv p.last_spawned (held_by p' ++ (files ++ rest)) s (
        reordered-Inv _ (with_process p.last_spawned (held_by p' ++ (files ++ rest)))
          (λ f. omega (
            arith,
            held_by-tally f p,
            held_by-tally f p',
            with_process-tally f p.last_spawned (held_by p' ++ (files ++ rest)),
            tally-append f (held_by p') (files ++ rest),
            tally-append f (held_by p) (unlocked_hold r ∷ unlocked_hold o ∷ unlocked_hold i ∷ rest),
          ))
          v) in
      rw (keep_process, e) (drop_files-Ends files p' s' v' (sound))

  -- The files that are held are dropped after an error.
  error_then_drop :
      (files : List Hold) (r : World)
      → Ends b (files ++ rest) r
      → Ends b rest (elim r [
        | none ↦ none
        | some (p', s') ↦ drop_files lib services answers config files p' s'
      ])
  error_then_drop files r (ends p' s' fine) = drop_files-Ends files p' s' fine.inv fine.sound

  spawn_with-Ends :
      (i o r : ℕ) (p : Scheduler) (s : Store)
      → Inv s (held_by p ++ unlocked_hold r ∷ unlocked_hold o ∷ unlocked_hold i ∷ rest)
      → IsSound b p
      → p.working_directory ≢ none
      → Ends b rest (spawn_with lib services answers config i o r p s)
  unfolding spawn_with
  spawn_with-Ends i o r p s v sound known = elim (Option-cases p.working_directory) [
    | inl missing ↦ absurd (known missing)
    | inr (d, e) ↦
        simp (spawn_with, e)
          (spawned (services.spawn d i o r s) (
            right.spawn_lem d i o r
              (held_by p ++ unlocked_hold r ∷ unlocked_hold o ∷ unlocked_hold i ∷ rest) s v))
  ]
    where
      spawned :
          (a : Answer Process)
          → Gives
              (held_by p ++ unlocked_hold r ∷ unlocked_hold o ∷ unlocked_hold i ∷ rest)
              (λ q. unlocked_hold q.cell)
              a
          → Ends b rest (after_spawn lib services answers config i o r p a)
      spawned a (given q s' w) = keep_process-Ends q i o r p s' w sound
      spawned a (failed error s' ne w) = simp (fails-ne error ne) (
          error_then_drop (unlocked_hold r ∷ unlocked_hold o ∷ unlocked_hold i ∷ []) _ (
            handle_error-Ends lib services right answers b
              (unlocked_hold r ∷ unlocked_hold o ∷ unlocked_hold i ∷ rest) p s' w sound))

  after_stderr-Ends :
      (i o : ℕ) (p : Scheduler) (sound : IsSound b p) (a : File)
      → p.working_directory ≢ none
      → FileEnds lib services right answers b (unlocked_hold o ∷ unlocked_hold i ∷ rest) p sound a
      → Ends b rest (after_stderr lib services answers config i o a)
  after_stderr-Ends i o p sound a known (is_opened r s v) =
      spawn_with-Ends i o r p s (held_too _ p (unlocked_hold o ∷ unlocked_hold i ∷ rest) s v) sound
        known
  after_stderr-Ends i o p sound a known (not_opened p' s fine) =
      drop_files-Ends (unlocked_hold o ∷ unlocked_hold i ∷ []) p' s fine.inv fine.sound

  after_stdout-Ends :
      (i : ℕ) (p : Scheduler) (sound : IsSound b p) (a : File)
      → p.working_directory ≢ none
      → FileEnds lib services right answers b (unlocked_hold i ∷ rest) p sound a
      → Ends b rest (after_stdout lib services answers config i a)
  after_stdout-Ends i p sound a known (is_opened o s v) = after_stderr-Ends i o p sound _ known (
      prepare_stderr-Ends lib services right answers b (unlocked_hold o ∷ unlocked_hold i ∷ rest) p
        sound config.stderr_redirection o s (held_too _ p (unlocked_hold i ∷ rest) s v)
        (rw (==-refl o) (omega arith)))
  after_stdout-Ends i p sound a known (not_opened p' s fine) =
      drop_files-Ends (unlocked_hold i ∷ []) p' s fine.inv fine.sound

  after_stdin-Ends :
      (p : Scheduler) (sound : IsSound b p) (a : File)
      → p.working_directory ≢ none
      → FileEnds lib services right answers b rest p sound a
      → Ends b rest (after_stdin lib services answers config a)
  after_stdin-Ends p sound a known (is_opened i s v) = after_stdout-Ends i p sound _ known (
      prepare_stdout-Ends lib services right answers b (unlocked_hold i ∷ rest) p sound
        config.stdout_redirection s (held_too _ p rest s v))
  after_stdin-Ends p sound a known (not_opened p' s fine) = ends p' s fine

  pub spawn_process-Ends :
      (p : Scheduler) (s : Store)
      → Fine b rest p s
      → p.working_directory ≢ none
      → Ends b rest (spawn_process lib services answers config p s)
  unfolding spawn_process abort_observer
  spawn_process-Ends p s fine known =
      let q : Scheduler = abort_observer p in
      let sound = abort_observer-IsSound lib b rest p fine.sound in
      elim (Bool-cases (last_is_alive p.last_spawned)) [
        | inl alive ↦
            simp (spawn_process, alive) (ends q s (record { inv = fine.inv; sound = sound }))
        | inr dead ↦
            simp (spawn_process, dead)
              (after_stdin-Ends q sound _ known (
                prepare_stdin-Ends lib services right answers b rest q sound
                  config.stdin_redirection s fine.inv))
      ]
