-- ===== src/Scheduler/Files.antt =====
-- The files that a process of a program gets (src/redapid/program_scheduler.c): the functions
-- `program_scheduler_prepare_stdin`, `_individual_log`, `_continuous_log`, `_stdout` and `_stderr`.
use red_brick_apid.Base.{ℕ, zero, suc, ◌-◌, Bool, true, false, Option, none, some, if◌then◌else◌}
use red_brick_apid.ApiError.{ApiE, already_exists}
use red_brick_apid.Store.Arrays.{ArrayLib}
use red_brick_apid.Store.{Store}
use red_brick_apid.Object.{add_internal_reference, remove_internal_reference}
use red_brick_apid.StringObject.Creation.{unlock_and_release}
use red_brick_apid.Acquire.{Answer}
use red_brick_apid.Scheduler.{
  Redirection, dev_null, pipe, file, individual_log, continuous_log, to_stdout, invalid_redirection,
  Scheduler, Answers, Services, Opening, open_to_read, open_to_write, open_or_create, create_new,
  create_to_append, handle_error,
}

-- The file, if there is one; an error was handled otherwise.
abbrev pub File : Type 0
File = Option (Option ℕ × Scheduler × Store)

abbrev pub is_already_exists : ApiE → Bool
is_already_exists already_exists = true
is_already_exists _ = false

module _ (lib : ArrayLib ℕ) (services : Services) (answers : Answers) where
  -- An error is handled, and there is no file.
  abbrev pub no_file : Scheduler → Store → File
  no_file p s = elim (handle_error lib services answers p s) [
    | none ↦ none
    | some (p', s') ↦ some (none, p', s')
  ]

  -- What `file_open` or `pipe_create_` has answered.
  abbrev pub opened : Scheduler → Answer ℕ → File
  opened p none = none
  opened p (some (error, none, s)) = no_file p s
  opened p (some (error, some f, s)) = some (some f, p, s)

  abbrev pub open_name : Option ℕ → Opening → Scheduler → Store → File
  open_name none opening p s = no_file p s
  open_name (some a) opening p s = opened p (services.open_file a opening s)

  -- `program_scheduler_prepare_stdin`
  unfoldable pub prepare_stdin : Redirection → Scheduler → Store → File
  prepare_stdin dev_null p s = open_name (some p.dev_null_file_name) open_to_read p s
  prepare_stdin pipe p s = opened p (services.new_pipe s)
  prepare_stdin file p s = open_name p.stdin_file_name open_to_read p s
  prepare_stdin individual_log p s = no_file p s
  prepare_stdin continuous_log p s = no_file p s
  prepare_stdin to_stdout p s = no_file p s
  prepare_stdin invalid_redirection p s = no_file p s

  -- The file of a name is opened, and the name is given back.
  unfoldable pub open_and_release : ℕ → Opening → Store → Answer ℕ
  open_and_release a opening s = elim (services.open_file a opening s) [
    | none ↦ none
    | some (error, f, s') ↦ elim (unlock_and_release lib a s') [
      | none ↦ none
      | some s'' ↦ some (error, f, s'')
    ]
  ]

  -- The loop of `program_scheduler_prepare_individual_log`; `left` of the 1000 rounds are left.
  unfoldable pub try_logs : ℕ → Scheduler → Store → File
  try_logs zero p s = no_file p s
  try_logs (suc left) p s =
      let again = λ (s' : Store).
        if answers.log_name_fits (1000 - left) then try_logs left p s' else no_file p s' in
      if answers.log_exists (999 - left) then again s else elim (services.new_string s) [
        | none ↦ none
        | some (error, none, s₁) ↦ no_file p s₁
        | some (error, some a, s₁) ↦ elim (open_and_release a create_new s₁) [
          | none ↦ none
          | some (error', some f, s₂) ↦ some (some f, p, s₂)
          | some (error', none, s₂) ↦ if is_already_exists error' then again s₂ else no_file p s₂
        ]
      ]

  -- `program_scheduler_prepare_individual_log`
  unfoldable pub prepare_individual_log : Scheduler → Store → File
  prepare_individual_log p s = if answers.log_name_fits 0 then try_logs 1000 p s else no_file p s

  -- The header of a log that was opened; the file is given back when it cannot be written.
  unfoldable pub write_header : ℕ → Scheduler → Store → File
  write_header f p s =
      if answers.header_written
      then some (some f, p, s)
      else elim (handle_error lib services answers p s) [
        | none ↦ none
        | some (p', s') ↦ elim (remove_internal_reference lib f s') [
          | none ↦ none
          | some s'' ↦ some (none, p', s'')
        ]
      ]

  -- `program_scheduler_prepare_continuous_log`
  unfoldable pub prepare_continuous_log : Scheduler → Store → File
  prepare_continuous_log p s =
      if answers.log_name_fits 0
      then elim (services.new_string s) [
        | none ↦ none
        | some (error, none, s₁) ↦ no_file p s₁
        | some (error, some a, s₁) ↦ elim (open_and_release a create_to_append s₁) [
          | none ↦ none
          | some (error', none, s₂) ↦ no_file p s₂
          | some (error', some f, s₂) ↦ write_header f p s₂
        ]
      ]
      else no_file p s

  -- `program_scheduler_prepare_stdout`
  unfoldable pub prepare_stdout : Redirection → Scheduler → Store → File
  prepare_stdout dev_null p s = open_name (some p.dev_null_file_name) open_to_write p s
  prepare_stdout pipe p s = no_file p s
  prepare_stdout file p s = open_name p.stdout_file_name open_or_create p s
  prepare_stdout individual_log p s = prepare_individual_log p s
  prepare_stdout continuous_log p s = prepare_continuous_log p s
  prepare_stdout to_stdout p s = no_file p s
  prepare_stdout invalid_redirection p s = no_file p s

  -- `program_scheduler_prepare_stderr`, with the file of stdout.
  unfoldable pub prepare_stderr : Redirection → ℕ → Scheduler → Store → File
  prepare_stderr dev_null o p s = open_name (some p.dev_null_file_name) open_to_write p s
  prepare_stderr pipe o p s = no_file p s
  prepare_stderr file o p s = open_name p.stderr_file_name open_or_create p s
  prepare_stderr individual_log o p s = prepare_individual_log p s
  prepare_stderr continuous_log o p s = prepare_continuous_log p s
  prepare_stderr to_stdout o p s = some (some o, p, add_internal_reference o s)
  prepare_stderr invalid_redirection o p s = no_file p s
