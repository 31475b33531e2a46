-- ===== src/Scheduler/Stored.antt =====
-- The names of the files take the place of the old ones (src/redapid/program_scheduler.c).
use red_brick_apid.Base.{
  ℕ, Bool, false, Option, none, some, List, [], ◌∷◌, ◌++◌, arith, ◌≡◌, Bool-cases, inl, inr, sym,
  ◌∙◌,
}
use mathlib.Core.Bool.{false≢true}
use red_brick_apid.ApiError.{is_success, success}
use red_brick_apid.Store.Arrays.{ArrayLib, tally-append}
use red_brick_apid.Store.{Store, Hold}
use red_brick_apid.Object.Invariant.{Inv, locked_hold, reordered-Inv}
use red_brick_apid.Scheduler.{
  Config, Scheduler, Services, Answers, World, with_string, handle_error,
}
use red_brick_apid.Scheduler.Filesystem.{to_file, store_names, make_stderr_directory}
use red_brick_apid.Scheduler.Holds.{
  held_by, IsSound, Ends, ends, AreRight, held_by-tally, with_string-tally,
}
use red_brick_apid.Scheduler.Stopping.{release_string-Inv}
use red_brick_apid.Scheduler.Errors.{handle_error-Ends}
use red_brick_apid.Scheduler.Named.{PreparedEnds, prepared}

module _ (lib : ArrayLib ℕ) (services : Services) (right : AreRight services) (answers : Answers)
    (config : Config) (b : Bool) (rest : List Hold) where
  store_names-Ends :
      (d : ℕ) (i o r : Option ℕ) (p : Scheduler) (s : Store)
      → Inv s (
          with_string r (with_string o (with_string i (locked_hold d ∷ []))) ++ (held_by p ++ rest))
      → IsSound b p
      → PreparedEnds lib services right answers config b rest
          (store_names lib services answers config d i o r p s)
  unfolding store_names
  store_names-Ends d i o r p s v sound =
      let p' : Scheduler = record p {
        working_directory = some d;
        stdin_file_name = i;
        stdout_file_name = o;
        stderr_file_name = r;
      } in
      let names = with_string r (with_string o (with_string i (locked_hold d ∷ []))) in
      let h₄ = held_by p' ++ rest in
      let h₃ = with_string p.stderr_file_name h₄ in
      let h₂ = with_string p.stdout_file_name h₃ in
      let h₁ = with_string p.stdin_file_name h₂ in
      let (s₁, e₁, v₁) = release_string-Inv lib p.working_directory h₁ s (
        reordered-Inv (names ++ (held_by p ++ rest)) (with_string p.working_directory h₁)
          (λ f. omega (
            arith,
            held_by-tally f p,
            held_by-tally f p',
            tally-append f names (held_by p ++ rest),
            tally-append f (held_by p) rest,
            tally-append f (held_by p') rest,
            with_string-tally f r (with_string o (with_string i (locked_hold d ∷ []))),
            with_string-tally f o (with_string i (locked_hold d ∷ [])),
            with_string-tally f i (locked_hold d ∷ []),
            with_string-tally f p.working_directory h₁,
            with_string-tally f p.stdin_file_name h₂,
            with_string-tally f p.stdout_file_name h₃,
            with_string-tally f p.stderr_file_name h₄,
          ))
          v) in
      let (s₂, e₂, v₂) = release_string-Inv lib p.stdin_file_name h₂ s₁ v₁ in
      let (s₃, e₃, v₃) = release_string-Inv lib p.stdout_file_name h₃ s₂ v₂ in
      let (s₄, e₄, v₄) = release_string-Inv lib p.stderr_file_name h₄ s₃ v₃ in
      simp (store_names, e₁, e₂, e₃, e₄)
        (prepared success p' s₄
          (record {
            inv = v₄;
            sound = record {
              timer_known = sound.timer_known;
              cron_known = sound.cron_known;
              observer_known = sound.observer_known;
              cron_runs = sound.cron_runs;
              no_message = sound.no_message;
              halted = sound.halted;
              named = λ _ e. cc;
            };
          })
          (λ good made e. cc))

  pub make_stderr_directory-Ends :
      (d : ℕ) (i o r : Option ℕ) (p : Scheduler) (s : Store)
      → Inv s (
          with_string r (with_string o (with_string i (locked_hold d ∷ []))) ++ (held_by p ++ rest))
      → IsSound b p
      → PreparedEnds lib services right answers config b rest
          (make_stderr_directory lib services answers config d i o r p s)
  unfolding make_stderr_directory
  make_stderr_directory-Ends d i o r p s v sound =
      let names = with_string r (with_string o (with_string i (locked_hold d ∷ []))) in
      elim (Bool-cases (to_file config.stderr_redirection)) [
        | inr other ↦ simp (make_stderr_directory, other) (store_names-Ends d i o r p s v sound)
        | inl named ↦ elim (Bool-cases (is_success answers.stderr_directory_made)) [
          | inl made ↦
              simp (make_stderr_directory, named, made) (store_names-Ends d i o r p s v sound)
          | inr unmade ↦
              simp (make_stderr_directory, named, unmade)
                (lose unmade (handle_error lib services answers p s) (
                  handle_error-Ends lib services right answers b (names ++ rest) p s
                    (reordered-Inv (names ++ (held_by p ++ rest)) (held_by p ++ (names ++ rest))
                      (λ f. omega (
                        arith,
                        tally-append f names (held_by p ++ rest),
                        tally-append f (held_by p) rest,
                        tally-append f (held_by p) (names ++ rest),
                        tally-append f names rest,
                      ))
                      v)
                    sound))
        ]
      ]
    where
      lose :
          (is_success answers.stderr_directory_made ≡ false)
          → (a : World)
          → Ends b (with_string r (with_string o (with_string i (locked_hold d ∷ []))) ++ rest) a
          → PreparedEnds lib services right answers config b rest (elim a [
            | none ↦ none
            | some (p', s') ↦ some (
              success,
              record p' {
                lost = with_string r (with_string o (with_string i (with_string (some d) p'.lost)));
              },
              s',
            )
          ])
      lose unmade a (ends p' s' fine) =
          let names = with_string r (with_string o (with_string i (locked_hold d ∷ []))) in
          let old = fine.sound in
          let q : Scheduler = record p' {
            lost = with_string r (with_string o (with_string i (with_string (some d) p'.lost)));
          } in
          prepared success q s'
            (record {
              inv =
                  reordered-Inv (held_by p' ++ (names ++ rest)) (held_by q ++ rest)
                    (λ f. omega (
                      arith,
                      held_by-tally f p',
                      held_by-tally f q,
                      tally-append f (held_by p') (names ++ rest),
                      tally-append f names rest,
                      tally-append f (held_by q) rest,
                      with_string-tally f r (with_string o (with_string i (locked_hold d ∷ []))),
                      with_string-tally f o (with_string i (locked_hold d ∷ [])),
                      with_string-tally f i (locked_hold d ∷ []),
                      with_string-tally f r
                          (with_string o (with_string i (locked_hold d ∷ p'.lost))),
                      with_string-tally f o (with_string i (locked_hold d ∷ p'.lost)),
                      with_string-tally f i (locked_hold d ∷ p'.lost),
                    ))
                    fine.inv;
              sound = old;
            })
            (λ good made. absurd (false≢true (sym unmade ∙ made)))
