-- ===== src/Scheduler/Stopping.antt =====
-- A scheduler stops in a sound state, and the counts stay right (src/redapid/program_scheduler.c).
use red_brick_apid.Base.{
  ℕ, ◌+◌, Bool, true, Option, none, some, List, [], ◌∷◌, ◌++◌, arith, ◌≡◌, refl, ◌≢◌, Bool-cases,
  inl, inr, ap, sym, ==→eq, ==-refl,
}
use red_brick_apid.Store.Arrays.{ArrayLib, tally, tally-append}
use red_brick_apid.Store.{Store, Hold}
use red_brick_apid.Object.Invariant.{Inv, locked_hold, unlock-Inv, reordered-Inv}
use red_brick_apid.Object.{unlock}
use red_brick_apid.Object.Cascade.{remove_internal_reference-Settled}
use red_brick_apid.StringObject.Creation.{unlock_and_release}
use red_brick_apid.Scheduler.{
  Scheduler, SchedulerState, stopped, Services, Answers, with_string, same_string, same_state,
  abort_observer, release_string, set_state, stop_cron,
}
use red_brick_apid.Scheduler.Holds.{held_by, IsSound, Ends, ends, held_by-tally, with_string-tally}

-- Two messages that are not the same string.
abbrev pub Different : Option ℕ → Option ℕ → Type 0
Different o m = (a : ℕ) → o ≡ some a → m ≢ some a

same_string-none :
    (o m : Option ℕ) → Different o m → same_string o m ≡ true → (o ≡ none) × (m ≡ none)
same_string-none none none d h = (refl, refl)
same_string-none none (some b) d h = cc
same_string-none (some a) none d h = cc
same_string-none (some a) (some b) d h = absurd (d a refl (ap some (sym (==→eq a b h))))

same_string_refl : (o : Option ℕ) → same_string o o ≡ true
same_string_refl none = refl
same_string_refl (some a) = ==-refl a

module _ (lib : ArrayLib ℕ) where
  pub unlock_and_release-Inv :
      (a : ℕ) (rest : List Hold) (s : Store)
      → Inv s (locked_hold a ∷ rest)
      → (s' : Store) × (unlock_and_release lib a s ≡ some s') × Inv s' rest
  unfolding unlock_and_release
  unlock_and_release-Inv a rest s v =
      let d = remove_internal_reference-Settled lib a rest (unlock a s) (unlock-Inv a rest s v) in
      (d.after, d.returned, d.inv)

  pub release_string-Inv :
      (o : Option ℕ) (rest : List Hold) (s : Store)
      → Inv s (with_string o rest)
      → (s' : Store) × (release_string lib o s ≡ some s') × Inv s' rest
  release_string-Inv none rest s v = (s, refl, v)
  release_string-Inv (some a) rest s v = unlock_and_release-Inv a rest s v

  module _ (b : Bool) (rest : List Hold) where
    abbrev pub moved : SchedulerState → Option ℕ → Scheduler → Scheduler
    moved state message p = record p { state = state; message = message; notices = p.notices + 1 }

    -- The sum of the holds, with another message.
    moved-tally :
        (f : Hold → ℕ) (state : SchedulerState) (m : Option ℕ) (p : Scheduler)
        → tally f (held_by (moved state m p) ++ rest) + tally f (with_string p.message [])
          ≡ tally f (with_string m (held_by p ++ rest))
    moved-tally f state m p = omega (
      arith,
      held_by-tally f p,
      held_by-tally f (moved state m p),
      tally-append f (held_by p) rest,
      tally-append f (held_by (moved state m p)) rest,
      with_string-tally f m (held_by p ++ rest),
    )

    -- The state is set, with a message that is held for the scheduler.
    pub set_state-Ends :
        (state : SchedulerState) (m : Option ℕ) (p : Scheduler) (s : Store)
        → Inv s (with_string m (held_by p ++ rest))
        → Different p.message m
        → IsSound b p
        → IsSound b (moved state m p)
        → Ends b rest (set_state lib state m p s)
    unfolding set_state
    set_state-Ends state m p s v d sound sound' = elim (Bool-cases (same_string p.message m)) [
      | inl same ↦
          let (o, e) = same_string-none p.message m d same in
          let empty = λ (f : Hold → ℕ). ap (λ (q : Option ℕ). tally f (with_string q [])) o in
          let empty' = λ (f : Hold → ℕ). ap (λ (q : Option ℕ). tally f (with_string q [])) e in
          elim (Bool-cases (same_state p.state state)) [
            | inl stays ↦
                rw (set_state, same, stays)
                  (ends p s (record {
                    inv =
                        reordered-Inv (with_string m (held_by p ++ rest)) (held_by p ++ rest)
                          (λ f. omega (arith, empty' f, with_string-tally f m (held_by p ++ rest)))
                          v;
                    sound = sound;
                  }))
            | inr changes ↦
                rw (set_state, same, changes)
                  (ends (moved state m p) s (record {
                    inv =
                        reordered-Inv (with_string m (held_by p ++ rest))
                          (held_by (moved state m p) ++ rest)
                          (λ f. omega (arith, empty f, moved-tally f state m p)) v;
                    sound = sound';
                  }))
          ]
      | inr other ↦
          let (s', released, v') =
            release_string-Inv p.message (held_by (moved state m p) ++ rest) s (
              reordered-Inv (with_string m (held_by p ++ rest))
                (with_string p.message (held_by (moved state m p) ++ rest))
                (λ f. omega (
                  arith,
                  moved-tally f state m p,
                  with_string-tally f p.message (held_by (moved state m p) ++ rest),
                ))
                v) in
          elim (Bool-cases (same_state p.state state)) [
            | inl stays ↦
                rw (set_state, other, stays, released)
                  (ends (moved state m p) s' (record { inv = v'; sound = sound' }))
            | inr changes ↦
                rw (set_state, other, changes, released)
                  (ends (moved state m p) s' (record { inv = v'; sound = sound' }))
          ]
    ]

    -- The state is set, with the message that the scheduler has.
    pub keep_message-Ends :
        (state : SchedulerState) (p : Scheduler) (s : Store)
        → Inv s (held_by p ++ rest)
        → IsSound b p
        → IsSound b (moved state p.message p)
        → Ends b rest (set_state lib state p.message p s)
    unfolding set_state
    keep_message-Ends state p s v sound sound' =
        let same = same_string_refl p.message in
        elim (Bool-cases (same_state p.state state)) [
          | inl stays ↦ rw (set_state, same, stays) (ends p s (record { inv = v; sound = sound }))
          | inr changes ↦
              rw (set_state, same, changes)
                (ends (moved state p.message p) s (record { inv = v; sound = sound' }))
        ]

    pub abort_observer-IsSound : (p : Scheduler) → IsSound b p → IsSound b (abort_observer p)
    unfolding abort_observer
    abort_observer-IsSound p sound = record {
      timer_known = sound.timer_known;
      cron_known = sound.cron_known;
      observer_known = λ h. ground (arith, sound.observer_known);
      cron_runs = sound.cron_runs;
      no_message = sound.no_message;
      halted = sound.halted;
      named = sound.named;
    }

    pub uncronned-IsSound :
        (lib : ArrayLib ℕ) (services : Services) (answers : Answers) (p : Scheduler)
        → IsSound b p
        → IsSound b (stop_cron lib services answers p)
    uncronned-IsSound lib services answers p sound = record {
      timer_known = sound.timer_known;
      cron_known = λ h. ground (arith, sound.cron_known);
      observer_known = sound.observer_known;
      cron_runs = λ h. cc;
      no_message = sound.no_message;
      halted = sound.halted;
      named = sound.named;
    }

    pub stop_cron-IsSound :
        (lib : ArrayLib ℕ) (services : Services) (answers : Answers) (m : Option ℕ) (p : Scheduler)
        → IsSound b p
        → IsSound b (moved stopped m (stop_cron lib services answers p))
    stop_cron-IsSound lib services answers m p sound = record {
      timer_known = sound.timer_known;
      cron_known = λ h. ground (arith, sound.cron_known);
      observer_known = sound.observer_known;
      cron_runs = λ h. cc;
      no_message = λ h. cc;
      halted = λ h. refl;
      named = sound.named;
    }
