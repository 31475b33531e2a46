-- ===== src/Scheduler/Logs.antt =====
-- The individual logs: a name that is free within 1000 attempts (src/redapid/program_scheduler.c).
use red_brick_apid.Base.{
  ℕ, zero, suc, ◌-◌, Bool, none, some, List, ◌∷◌, ◌++◌, arith, if◌then◌else◌, Bool-cases, inl, inr,
}
use red_brick_apid.Store.Arrays.{ArrayLib}
use red_brick_apid.Store.{Store, Hold}
use red_brick_apid.Object.Invariant.{Inv, unlocked_hold, locked_hold, reordered-Inv}
use red_brick_apid.StringObject.Creation.{unlock_and_release}
use red_brick_apid.Acquire.{Answer}
use red_brick_apid.Scheduler.{Scheduler, Services, Answers, Opening, create_new}
use red_brick_apid.Scheduler.Files.{
  is_already_exists, no_file, open_and_release, try_logs, prepare_individual_log,
}
use red_brick_apid.Scheduler.Holds.{
  held_by, IsSound, AreRight, Gives, given, failed, GivesNew, given_new, failed_new,
}
use red_brick_apid.Scheduler.Stopping.{unlock_and_release-Inv}
use red_brick_apid.Scheduler.Opened.{FileEnds, no_file-Ends, is_opened}

module _ (lib : ArrayLib ℕ) (services : Services) (right : AreRight services) (answers : Answers)
    (b : Bool) (rest : List Hold) (p : Scheduler) (sound : IsSound b p) where
  pub open_and_release-Gives :
      (a : ℕ) (opening : Opening) (s : Store)
      → Inv s (locked_hold a ∷ held_by p ++ rest)
      → Gives (held_by p ++ rest) unlocked_hold (open_and_release lib services answers a opening s)
  unfolding open_and_release
  open_and_release-Gives a opening s v =
      after_open (services.open_file a opening s)
        (right.open_file_lem a opening (locked_hold a ∷ held_by p ++ rest) s v)
    where
      after_open :
          (r : Answer ℕ)
          → Gives (locked_hold a ∷ held_by p ++ rest) unlocked_hold r
          → Gives (held_by p ++ rest) unlocked_hold (elim r [
            | none ↦ none
            | some (error, f, s') ↦ elim (unlock_and_release lib a s') [
              | none ↦ none
              | some s'' ↦ some (error, f, s'')
            ]
          ])
      after_open r (given f s' w) =
          let (s'', e, v'') =
            unlock_and_release-Inv lib a (unlocked_hold f ∷ held_by p ++ rest) s' (
              reordered-Inv (unlocked_hold f ∷ locked_hold a ∷ held_by p ++ rest)
                (locked_hold a ∷ unlocked_hold f ∷ held_by p ++ rest) (λ g. omega arith) w) in
          rw e (given f s'' v'')
      after_open r (failed error s' ne w) =
          let (s'', e, v'') = unlock_and_release-Inv lib a (held_by p ++ rest) s' w in
          rw e (failed error s'' ne v'')

  try_log-Ends :
      (left : ℕ)
      → ((s : Store)
          → Inv s (held_by p ++ rest)
          → FileEnds lib services right answers b rest p sound
              (try_logs lib services answers left p s))
      → (s : Store) → Inv s (held_by p ++ rest)
      → FileEnds lib services right answers b rest p sound
          (try_logs lib services answers (suc left) p s)
  unfolding try_logs
  try_log-Ends left later s v = elim (Bool-cases (answers.log_exists (999 - left))) [
    | inl there ↦ simp (try_logs, there) (again s v)
    | inr absent ↦
        simp (try_logs, absent)
          (named (services.new_string s) (right.new_string_lem (held_by p ++ rest) s v))
  ]
    where
      again :
          (s' : Store)
          → Inv s' (held_by p ++ rest)
          → FileEnds lib services right answers b rest p sound (
              if answers.log_name_fits (1000 - left)
              then try_logs lib services answers left p s'
              else no_file lib services answers p s')
      again s' w = elim (Bool-cases (answers.log_name_fits (1000 - left))) [
        | inl fits ↦ simp fits (later s' w)
        | inr long ↦ simp long (no_file-Ends lib services right answers b rest p sound s' w)
      ]

      created :
          (r : Answer ℕ)
          → Gives (held_by p ++ rest) unlocked_hold r
          → FileEnds lib services right answers b rest p sound (elim r [
            | none ↦ none
            | some (error', some f, s₂) ↦ some (some f, p, s₂)
            | some (error', none, s₂) ↦
                if is_already_exists error'
                then (if answers.log_name_fits (1000 - left)
                    then try_logs lib services answers left p s₂
                    else no_file lib services answers p s₂)
                else no_file lib services answers p s₂
          ])
      created r (given f s₂ w) = is_opened f s₂ w
      created r (failed error s₂ ne w) = elim (Bool-cases (is_already_exists error)) [
        | inl exists ↦ simp exists (again s₂ w)
        | inr other ↦ simp other (no_file-Ends lib services right answers b rest p sound s₂ w)
      ]

      named :
          (r : Answer ℕ)
          → GivesNew (held_by p ++ rest) s r
          → FileEnds lib services right answers b rest p sound (elim r [
            | none ↦ none
            | some (error, none, s₁) ↦ no_file lib services answers p s₁
            | some (error, some a, s₁) ↦
                elim (open_and_release lib services answers a create_new s₁) [
                  | none ↦ none
                  | some (error', some f, s₂) ↦ some (some f, p, s₂)
                  | some (error', none, s₂) ↦
                      if is_already_exists error'
                      then (if answers.log_name_fits (1000 - left)
                          then try_logs lib services answers left p s₂
                          else no_file lib services answers p s₂)
                      else no_file lib services answers p s₂
                ]
          ])
      named r (given_new a s₁ absent w) =
          created (open_and_release lib services answers a create_new s₁)
            (open_and_release-Gives a create_new s₁ w)
      named r (failed_new error s₁ ne w) =
          no_file-Ends lib services right answers b rest p sound s₁ w

  try_logs-Ends :
      (left : ℕ) (s : Store)
      → Inv s (held_by p ++ rest)
      → FileEnds lib services right answers b rest p sound (try_logs lib services answers left p s)
  unfolding try_logs
  try_logs-Ends zero s v = no_file-Ends lib services right answers b rest p sound s v
  try_logs-Ends (suc left) s v = try_log-Ends left (λ s' w. try_logs-Ends left s' w) s v

  pub individual_log-Ends :
      (s : Store)
      → Inv s (held_by p ++ rest)
      → FileEnds lib services right answers b rest p sound
          (prepare_individual_log lib services answers p s)
  unfolding prepare_individual_log
  individual_log-Ends s v = elim (Bool-cases (answers.log_name_fits 0)) [
    | inl fits ↦ simp (prepare_individual_log, fits) (try_logs-Ends 1000 s v)
    | inr long ↦
        simp (prepare_individual_log, long)
          (no_file-Ends lib services right answers b rest p sound s v)
  ]
