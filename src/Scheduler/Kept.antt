-- ===== src/Scheduler/Kept.antt =====
-- The members of a scheduler that stopping it and handling a change of its process leave alone
-- (src/redapid/program_scheduler.c).
use red_brick_apid.Base.{
  ℕ, Bool, true, false, not, ◌&&◌, ◌⊎◌, Option, none, some, List, if◌then◌else◌, ◌≡◌, refl,
  Bool-cases, Option-cases, inl, inr, ap, sym, subst, ◌∙◌,
}
use mathlib.Core.Option.{some-injective, none-ne-some}
use red_brick_apid.ApiError.{Errno}
use red_brick_apid.Store.Arrays.{ArrayLib}
use red_brick_apid.Store.{Store, Hold}
use red_brick_apid.Process.{is_alive}
use red_brick_apid.Scheduler.{
  Scheduler, SchedulerState, stopped, is_running, Config, Services, Answers, World, with_string,
  abort_observer, release_string, same_state, same_string, set_state, stop_timer, stop_cron, stop,
  handle_error,
}
use red_brick_apid.Scheduler.Events.{
  is_failure, is_always, start_timer, handle_process_state_change, kill_last, shut_down,
}

-- A member that no state, message, timer, cron entry or notice has a part in.
pub record IsKept {A : Type 0} (member : Scheduler → A) : Type 0 where
  pub of_state :
      (state : SchedulerState) (message : Option ℕ) (n : ℕ) (p : Scheduler)
      → member (record p { state = state; message = message; notices = n }) ≡ member p
  pub of_timer :
      (active runs : Bool) (p : Scheduler)
      → member (record p { timer_active = active; timer_runs = runs }) ≡ member p
  pub of_cron :
      (active entry : Bool) (p : Scheduler)
      → member (record p { cron_active = active; has_cron_entry = entry }) ≡ member p
  pub of_observer : (p : Scheduler) → member (abort_observer p) ≡ member p

pub last_spawned-IsKept : IsKept (λ p. p.last_spawned)
unfolding abort_observer
last_spawned-IsKept = record {
  of_state = λ state message n p. refl;
  of_timer = λ active runs p. refl;
  of_cron = λ active entry p. refl;
  of_observer = λ p. refl;
}

pub lost-IsKept : IsKept (λ p. p.lost)
unfolding abort_observer
lost-IsKept = record {
  of_state = λ state message n p. refl;
  of_timer = λ active runs p. refl;
  of_cron = λ active entry p. refl;
  of_observer = λ p. refl;
}

module _ {A : Type 0} (member : Scheduler → A) where
  -- A world in which the member is `x`, if it is one.
  abbrev pub Keeps : A → World → Type 0
  Keeps x none = Unit {0}
  Keeps x (some (p, s)) = member p ≡ x

  pub Keeps-some :
      (x : A) (p : Scheduler) (s : Store) (r : World) → r ≡ some (p, s) → Keeps x r → member p ≡ x
  Keeps-some x p s none e k = absurd (none-ne-some _ e)
  Keeps-some x p s (some (q, t)) e k =
      ap (λ (w : Scheduler × Store). member w.0) (sym (some-injective _ _ e)) ∙ k

  module _ (lib : ArrayLib ℕ) (kept : IsKept member) where
    set_state-Keeps :
        (state : SchedulerState) (m : Option ℕ) (p : Scheduler) (s : Store)
        → Keeps (member p) (set_state lib state m p s)
    unfolding set_state
    set_state-Keeps state m p s =
        elim (Bool-cases (same_state p.state state && same_string p.message m)) [
          | inl stays ↦ simp (set_state, stays) refl
          | inr changes ↦
              elim (Option-cases
                (if same_string p.message m then some s else release_string lib p.message s)) [
                  | inl never_returns ↦ simp (set_state, changes, never_returns) tt
                  | inr (s', e) ↦ simp (set_state, changes, e) (kept.of_state state m _ p)
                ]
        ]

    module _ (services : Services) (answers : Answers)
        (stays : (answers.timer_stop ≡ none)
          ⊎ ((lost : List Hold) (p : Scheduler)
              → member (record p { lost = lost }) ≡ member p)) where
      stop_timer-Keeps :
          (p : Scheduler) (s : Store) → Keeps (member p) (stop_timer lib services answers p s)
      unfolding stop_timer
      stop_timer-Keeps p s = elim (Bool-cases p.timer_active) [
        | inr off ↦ simp (stop_timer, off) refl
        | inl on ↦ elim (Option-cases answers.timer_stop) [
          | inl stops ↦ simp (stop_timer, on, stops) (kept.of_timer false false p)
          | inr (errno, fails) ↦ elim (Option-cases (services.new_string s)) [
            | inl e ↦ simp (stop_timer, on, fails, e) tt
            | inr ((error, message, s'), e) ↦
                simp (stop_timer, on, fails, e)
                  (subst
                    (λ b.
                      member (record p { timer_active = b; lost = with_string message p.lost })
                      ≡ member p)
                    on (loses errno fails (with_string message p.lost)))
          ]
        ]
      ]
        where
          loses :
              (errno : Errno)
              → answers.timer_stop ≡ some errno
              → (lost : List Hold) → member (record p { lost = lost }) ≡ member p
          loses errno fails lost = elim stays [
            | inl stops ↦ absurd (none-ne-some _ (sym stops ∙ fails))
            | inr any ↦ any lost p
          ]

      stop-Keeps :
          (m : Option ℕ) (p : Scheduler) (s : Store)
          → Keeps (member p) (stop lib services answers m p s)
      unfolding stop
      stop-Keeps m p s =
          elim (Option-cases (stop_timer lib services answers (abort_observer p) s)) [
            | inl e ↦ simp (stop, e) tt
            | inr ((q, s₁), e) ↦
                let first =
                  Keeps-some (member (abort_observer p)) q s₁ _ e
                    (stop_timer-Keeps (abort_observer p) s)
                  ∙ kept.of_observer p in
                simp (stop, e)
                  (subst
                    (λ x. Keeps x (set_state lib stopped m (stop_cron lib services answers q) s₁))
                    (kept.of_cron false _ q ∙ first)
                    (set_state-Keeps stopped m (stop_cron lib services answers q) s₁))
          ]

      handle_error-Keeps :
          (p : Scheduler) (s : Store) → Keeps (member p) (handle_error lib services answers p s)
      unfolding handle_error
      handle_error-Keeps p s = elim (Option-cases (services.new_string s)) [
        | inl e ↦ simp (handle_error, e) tt
        | inr ((error, message, s'), e) ↦ simp (handle_error, e) (stop-Keeps message p s')
      ]

      module _ (config : Config) where
        start_timer-Keeps :
            (p : Scheduler) (s : Store)
            → Keeps (member p) (start_timer lib services answers config p s)
        unfolding start_timer
        start_timer-Keeps p s = elim (Option-cases answers.timer_start) [
          | inl starts ↦ simp (start_timer, starts) (kept.of_timer true true p)
          | inr (errno, fails) ↦ simp (start_timer, fails) (handle_error-Keeps p s)
        ]

        pub handle_process_state_change-Keeps :
            (p : Scheduler) (s : Store)
            → Keeps (member p) (handle_process_state_change lib services answers config p s)
        unfolding handle_process_state_change
        handle_process_state_change-Keeps p s = elim (Bool-cases (is_running p.state)) [
          | inr idle ↦ simp (handle_process_state_change, idle) refl
          | inl runs ↦ elim (Option-cases p.last_spawned) [
            | inl missing ↦ simp (handle_process_state_change, runs, missing) tt
            | inr (q, e) ↦ elim (Bool-cases (is_alive q)) [
              | inl alive ↦ simp (handle_process_state_change, runs, e, alive) refl
              | inr dead ↦ elim (Bool-cases (is_failure q && not config.continue_after_error)) [
                | inl fails ↦
                    simp (handle_process_state_change, runs, e, dead, fails) (stop-Keeps none p s)
                | inr goes_on ↦ elim (Bool-cases (is_always config.start_mode)) [
                  | inl again ↦
                      simp (handle_process_state_change, runs, e, dead, goes_on, again)
                        (start_timer-Keeps p s)
                  | inr once ↦ simp (handle_process_state_change, runs, e, dead, goes_on, once) refl
                ]
              ]
            ]
          ]
        ]

-- A shutdown that can stop the timer loses nothing.
module _ (lib : ArrayLib ℕ) (services : Services) (answers : Answers) (config : Config)
    (stops : answers.timer_stop ≡ none) where
  shut_down-Keeps :
      (p : Scheduler) (s : Store)
      → Keeps (λ q. q.lost) p.lost (shut_down lib services answers config p s)
  unfolding shut_down kill_last
  shut_down-Keeps p s = elim (Bool-cases p.shutdown) [
    | inl down ↦ simp (shut_down, down) refl
    | inr up ↦
        elim (Option-cases (stop lib services answers none (record p { shutdown = true }) s)) [
          | inl e ↦ simp (shut_down, up, e) tt
          | inr ((q, s₁), e) ↦
              simp (shut_down, up, e)
                (Keeps-some (λ r. r.lost) p.lost q s₁ _ e
                  (stop-Keeps (λ r. r.lost) lib lost-IsKept services answers (inl stops) none
                    (record p { shutdown = true }) s))
        ]
  ]

  pub shut_down-lost :
      (p p' : Scheduler) (s s' : Store)
      → shut_down lib services answers config p s ≡ some (p', s')
      → p'.lost ≡ p.lost
  shut_down-lost p p' s s' e = Keeps-some (λ q. q.lost) p.lost p' s' _ e (shut_down-Keeps p s)
