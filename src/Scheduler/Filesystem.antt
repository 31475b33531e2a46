-- ===== src/Scheduler/Filesystem.antt =====
-- `program_scheduler_prepare_filesystem` (src/redapid/program_scheduler.c): the absolute names of
-- the working directory and of the files, and their directories.
use red_brick_apid.Base.{ℕ, Bool, true, false, Option, none, some, List, [], ◌==◌, if◌then◌else◌}
use red_brick_apid.ApiError.{ApiE, is_success, success}
use red_brick_apid.Store.Arrays.{ArrayLib}
use red_brick_apid.Store.{Store, Hold}
use red_brick_apid.Object.{give_back, remove_internal_reference}
use red_brick_apid.StringObject.Creation.{unlock_and_release}
use red_brick_apid.Scheduler.{
  Redirection, file, Config, Scheduler, Answers, Services, with_string, release_string,
  handle_error,
}

-- The error code, the scheduler and the store.
abbrev pub Prepared : Type 0
Prepared = Option (ApiE × Scheduler × Store)

abbrev pub to_file : Redirection → Bool
to_file file = true
to_file _ = false

module _ (lib : ArrayLib ℕ) (services : Services) (answers : Answers) (config : Config) where
  -- An error is handled, and the cleanup gives back the names that were made, the latest first.
  unfoldable pub give_up : ApiE → List Hold → Scheduler → Store → Prepared
  give_up error names p s = elim (handle_error lib services answers p s) [
    | none ↦ none
    | some (p', s') ↦ elim (give_back (remove_internal_reference lib) names s') [
      | none ↦ none
      | some s'' ↦ some (error, p', s'')
    ]
  ]

  -- The working directory could not be made: its name is given back, and then by the cleanup again.
  -- `string_unlock_and_release` on a string that was freed is undefined.
  unfoldable pub give_up_twice : ApiE → ℕ → Scheduler → Store → Prepared
  give_up_twice error a p s = elim (handle_error lib services answers p s) [
    | none ↦ none
    | some (p', s') ↦ elim (unlock_and_release lib a s') [
      | none ↦ none
      | some s₁ ↦
          if (s₁.object a).internal_reference_count == 0
          then none
          else elim (unlock_and_release lib a s₁) [ none ↦ none | some s₂ ↦ some (error, p', s₂) ]
    ]
  ]

  -- The names take the place of the old ones, which are given back.
  unfoldable pub store_names : ℕ → Option ℕ → Option ℕ → Option ℕ → Scheduler → Store → Prepared
  store_names d i o r p s = elim (release_string lib p.working_directory s) [
    | none ↦ none
    | some s₁ ↦ elim (release_string lib p.stdin_file_name s₁) [
      | none ↦ none
      | some s₂ ↦ elim (release_string lib p.stdout_file_name s₂) [
        | none ↦ none
        | some s₃ ↦ elim (release_string lib p.stderr_file_name s₃) [
          | none ↦ none
          | some s₄ ↦ some (
            success,
            record p {
              working_directory = some d;
              stdin_file_name = i;
              stdout_file_name = o;
              stderr_file_name = r;
            },
            s₄,
          )
        ]
      ]
    ]
  ]

  -- From phase 4. When the directory of the stderr file cannot be made, neither the names are given
  -- back nor the scheduler's are replaced, and the call answers success.
  unfoldable pub make_stderr_directory :
      ℕ → Option ℕ → Option ℕ → Option ℕ → Scheduler → Store → Prepared
  make_stderr_directory d i o r p s =
      if to_file config.stderr_redirection
      then (if is_success answers.stderr_directory_made
          then store_names d i o r p s
          else elim (handle_error lib services answers p s) [
            | none ↦ none
            | some (p', s') ↦ some (
              success,
              record p' {
                lost = with_string r (with_string o (with_string i (with_string (some d) p'.lost)));
              },
              s',
            )
          ])
      else store_names d i o r p s

  -- The name of a file, if the redirection is to a file; the next step, or the cleanup of `names`.
  unfoldable pub name_file :
      Redirection
      → List Hold
      → (Option ℕ → Scheduler → Store → Prepared)
      → Scheduler
      → Store
      → Prepared
  name_file redirection names next p s =
      if to_file redirection
      then elim (services.new_string s) [
        | none ↦ none
        | some (error, none, s') ↦ give_up error names p s'
        | some (error, some a, s') ↦ next (some a) p s'
      ]
      else next none p s

  -- From phase 3. The name has a '/', so it has a part that is a directory.
  unfoldable pub make_stdout_directory : ℕ → Option ℕ → Option ℕ → Scheduler → Store → Prepared
  make_stdout_directory d i o p s =
      let names = with_string o (with_string i (with_string (some d) [])) in
      let rest = name_file config.stderr_redirection names (make_stderr_directory d i o) p s in
      if to_file config.stdout_redirection
      then (if is_success answers.stdout_directory_made
          then rest
          else give_up answers.stdout_directory_made names p s)
      else rest

  unfoldable pub name_stdout : ℕ → Option ℕ → Scheduler → Store → Prepared
  name_stdout d i p s =
      name_file config.stdout_redirection (with_string i (with_string (some d) []))
        (make_stdout_directory d i) p s

  -- `program_scheduler_prepare_filesystem`
  unfoldable pub prepare_filesystem : Scheduler → Store → Prepared
  prepare_filesystem p s = elim (services.new_string s) [
    | none ↦ none
    | some (error, none, s') ↦ give_up error [] p s'
    | some (error, some d, s') ↦
        if is_success answers.working_directory_made
        then name_file config.stdin_redirection (with_string (some d) []) (name_stdout d) p s'
        else give_up_twice answers.working_directory_made d p s'
  ]
