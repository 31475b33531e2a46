-- ===== src/Monitor/Add.antt =====
-- `process_monitor_add_observer` on every path (src/redapid/process_monitor.c).
use red_brick_apid.Base.{
  append_nil, ℕ, ◌-◌, Bool, true, false, ◌&&◌, some, List, [], ◌∷◌, ◌++◌, arith, ◌≡◌, refl, length,
  length-append, get_elem?, set_at, same_name, same_name_refl, inl, inr, ap, sym, ◌∙◌, Bool-cases,
  subst,
}
use red_brick_apid.Store.Arrays.{ArrayLib, remove_at}
use red_brick_apid.Monitor.{
  ProcessObservation, Monitor, AddAttempts, is_found, is_failed, call, add_to, add_new,
  new_observation, with_observer, remove_new, add_observer,
}
use red_brick_apid.Monitor.Shape.{
  count_prefix, get_elem?-middle, set_at-middle, observation_index-cases, remove_at-middle,
}

-- An observation waits exactly as long as it has a timer.
abbrev pub IsTimed : List ProcessObservation → Type 0
IsTimed [] = Unit {0}
IsTimed (v ∷ rest) = (v.timer_runs ≡ v.waiting) × IsTimed rest

IsTimed-middle :
    (before after : List ProcessObservation) (v : ProcessObservation)
    → IsTimed (before ++ v ∷ after)
    → v.timer_runs ≡ v.waiting
IsTimed-middle [] after v (own, rest) = own
IsTimed-middle (w ∷ before) after v (own, rest) = IsTimed-middle before after v rest

module _ (lib : ArrayLib ℕ) (array : ArrayLib ProcessObservation)
    (function : ℕ → List ProcessObservation → List ProcessObservation) (prefix : List ℕ)
    (timeout o : ℕ) (m : Monitor) where
  -- The call fails and changes nothing, or the observer waits in the first observation for the command
  -- line, which has a timer, or it was called.
  pub data AddOutcome : Bool × Monitor → Type 0 where
    refused_observer : AddOutcome (false, m)
    awaited :
        (before after : List ProcessObservation) (v : ProcessObservation) (others : List ℕ)
        (m' : Monitor)
        → m'.observations ≡ before ++ v ∷ after
        → count_prefix prefix before ≡ 0
        → same_name v.cmdline_prefix prefix ≡ true
        → v.waiting ≡ true
        → v.timer_runs ≡ true
        → v.observers ≡ others ++ o ∷ []
        → m'.informed ≡ m.informed
        → AddOutcome (true, m')
    called_at_once : (m' : Monitor) → m'.informed ≡ o ∷ m.informed → AddOutcome (true, m')

  call-informed : (m' : Monitor) → (call lib array function o m').informed ≡ o ∷ m'.informed
  unfolding call
  call-informed m' = refl

  awaits :
      (before after : List ProcessObservation) (v : ProcessObservation) (m' : Monitor)
      → m'.observations ≡ before ++ with_observer lib o v ∷ after
      → count_prefix prefix before ≡ 0
      → same_name v.cmdline_prefix prefix ≡ true
      → v.waiting ≡ true
      → v.timer_runs ≡ true
      → m'.informed ≡ m.informed
      → AddOutcome (true, m')
  unfolding with_observer
  awaits before after v m' placed none_before same waits runs quiet =
      awaited before after (with_observer lib o v) v.observers m' placed none_before same waits runs
        (lib.append_lem v.observers o) quiet

  add_to-AddOutcome :
      (before after : List ProcessObservation) (v : ProcessObservation) (appended : Bool)
      → m.observations ≡ before ++ v ∷ after
      → count_prefix prefix before ≡ 0
      → same_name v.cmdline_prefix prefix ≡ true
      → v.timer_runs ≡ v.waiting
      → AddOutcome (add_to lib array function (length before) o appended m)
  unfolding add_to
  add_to-AddOutcome before after v false placed none_before same timed = refused_observer
  add_to-AddOutcome before after v true placed none_before same timed =
      let found_v : get_elem? m.observations (length before) ≡ some v =
        ap (λ w. get_elem? w (length before)) placed ∙ get_elem?-middle before after v in
      elim (Bool-cases v.waiting) [
        | inl waits ↦
            simp (add_to, found_v, waits)
              (awaits before after v _
                (ap (λ w. set_at w (length before) (with_observer lib o v)) placed
                  ∙ set_at-middle before after v (with_observer lib o v))
                none_before same waits (timed ∙ waits) refl)
        | inr over ↦ simp (add_to, found_v, over) (called_at_once _ (call-informed _))
      ]

  -- A new observation that leaves again leaves nothing behind.
  pub removed_again :
      (v : ProcessObservation)
      → remove_new lib array function (record m { observations = array.append m.observations v })
        ≡ m
  removed_again v =
      ap (λ w. record m { observations = w })
        (ap (λ w. array.remove w (length w - 1)) (array.append_lem m.observations v)
          ∙ array.remove_lem (m.observations ++ v ∷ []) (length (m.observations ++ v ∷ []) - 1)
          ∙ ap (remove_at (m.observations ++ v ∷ []))
              (omega (arith, length-append m.observations (v ∷ [])))
          ∙ remove_at-middle m.observations [] v
          ∙ append_nil m.observations)

  leaves : (m' : Monitor) → m' ≡ m → AddOutcome (false, m')
  leaves m' e = subst (λ w. AddOutcome (false, w)) (sym e) refused_observer

  add_new-AddOutcome :
      (attempts : AddAttempts)
      → count_prefix prefix m.observations ≡ 0
      → AddOutcome (add_new lib array function prefix timeout o attempts m)
  unfolding add_new
  add_new-AddOutcome attempts absent = elim (Bool-cases (is_failed attempts.result)) [
    | inl h ↦ simp (add_new, h) refused_observer
    | inr h₁ ↦ elim (Bool-cases attempts.observation_appended) [
      | inr h ↦ simp (add_new, h₁, h) refused_observer
      | inl h₂ ↦
          elim (Bool-cases (
            attempts.prefix_copied && (attempts.observers_created && attempts.observer_appended))) [
              | inr h ↦ simp (add_new, h₁, h₂, h) (leaves _ (removed_again _))
              | inl h₃ ↦ elim (Bool-cases (is_found attempts.result)) [
                | inl h ↦ simp (add_new, h₁, h₂, h₃, h) (called_at_once _ (call-informed _))
                | inr h₄ ↦ elim (Bool-cases (attempts.timer_created && attempts.timer_started)) [
                  | inr h ↦ simp (add_new, h₁, h₂, h₃, h₄, h) (leaves _ (removed_again _))
                  | inl h₅ ↦
                      simp (add_new, h₁, h₂, h₃, h₄, h₅)
                        (awaited m.observations []
                          (new_observation lib array function prefix timeout o true) [] _
                          (array.append_lem m.observations _) absent (same_name_refl prefix) refl
                          refl (lib.append_lem [] o) refl)
                ]
              ]
            ]
    ]
  ]

  -- When every observation has a timer exactly as long as it waits, `process_monitor_add_observer`
  -- either fails and leaves the monitor exactly as it was; or succeeds, and the observer is the
  -- last one of the first observation for the command line, which waits with its timer; or
  -- succeeds, and the observer was called at once.
  pub add_observer-AddOutcome :
      (attempts : AddAttempts)
      → IsTimed m.observations
      → AddOutcome (add_observer lib array function prefix timeout o attempts m)
  unfolding add_observer
  add_observer-AddOutcome attempts timed = elim (observation_index-cases prefix m.observations) [
    | inl (missing, absent) ↦ simp (add_observer, missing) (add_new-AddOutcome attempts absent)
    | inr (before, v, after, placed, index, none_before, same) ↦
        simp (add_observer, index)
          (add_to-AddOutcome before after v attempts.observer_appended placed none_before same
            (IsTimed-middle before after v (subst IsTimed placed timed)))
  ]
