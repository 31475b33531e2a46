-- ===== src/Monitor/Timed.antt =====
-- An observation has a timer exactly as long as it waits, through every operation
-- (src/redapid/process_monitor.c).
use red_brick_apid.Base.{
  ℕ, zero, suc, Bool, true, false, ◌&&◌, Option, none, some, List, [], ◌∷◌, ◌++◌, arith, ◌≡◌, ◌⊎◌,
  refl, get_elem?, set_at, same_name, inl, inr, sym, subst, ◌∙◌, Bool-cases, Option-cases,
}
use mathlib.Core.Option.{none-ne-some}
use red_brick_apid.Store.Arrays.{ArrayLib, index_of}
use red_brick_apid.Monitor.{
  ProcessObservation, Monitor, SearchResult, AddAttempts, after_search, finish_observation, call,
  inform, update_observation, remove_observer, with_observer, add_to, add_new, remove_new,
  add_observer, new_monitor, end_monitor, is_failed, is_found, observation_index,
}
use red_brick_apid.Monitor.Ticks.{after_search-timer_runs}
use red_brick_apid.Monitor.Add.{IsTimed, removed_again}

IsTimed-get :
    (observations : List ProcessObservation) (i : ℕ) (v : ProcessObservation)
    → IsTimed observations
    → get_elem? observations i ≡ some v
    → v.timer_runs ≡ v.waiting
IsTimed-get [] i v timed e = cc
IsTimed-get (w ∷ rest) zero v (own, others) e = ground arith
IsTimed-get (w ∷ rest) (suc i) v (own, others) e = IsTimed-get rest i v others e

IsTimed-set_at :
    (observations : List ProcessObservation) (i : ℕ) (v : ProcessObservation)
    → IsTimed observations
    → v.timer_runs ≡ v.waiting
    → IsTimed (set_at observations i v)
IsTimed-set_at [] i v timed own = tt
IsTimed-set_at (w ∷ rest) zero v (_, others) own = (own, others)
IsTimed-set_at (w ∷ rest) (suc i) v (first, others) own =
    (first, IsTimed-set_at rest i v others own)

IsTimed-append :
    (observations : List ProcessObservation) (v : ProcessObservation)
    → IsTimed observations
    → v.timer_runs ≡ v.waiting
    → IsTimed (observations ++ v ∷ [])
IsTimed-append [] v timed own = (own, tt)
IsTimed-append (w ∷ rest) v (first, others) own = (first, IsTimed-append rest v others own)

finish_observation-timed :
    (v : ProcessObservation)
    → v.waiting ≡ false
    → (finish_observation v).timer_runs ≡ (finish_observation v).waiting
unfolding finish_observation
finish_observation-timed v over = sym over

-- What a function of an observer does: it leaves the observations alone, or removes an observer of
-- some command line prefix.
abbrev pub OnlyRemoves :
    ArrayLib ℕ → (ℕ → List ProcessObservation → List ProcessObservation) → Type 0
OnlyRemoves lib function =
    (o : ℕ) (observations : List ProcessObservation)
    → (function o observations ≡ observations)
      ⊎ ((o' : ℕ) × (prefix : List ℕ) × (function o observations
            ≡ remove_observer lib prefix o' observations))

module _ (lib : ArrayLib ℕ) where
  with_observer-timed :
      (o : ℕ) (v : ProcessObservation)
      → v.timer_runs ≡ v.waiting
      → (with_observer lib o v).timer_runs ≡ (with_observer lib o v).waiting
  unfolding with_observer
  with_observer-timed o v own = own

  pub remove_observer-IsTimed :
      (prefix : List ℕ) (o : ℕ) (observations : List ProcessObservation)
      → IsTimed observations
      → IsTimed (remove_observer lib prefix o observations)
  unfolding remove_observer
  remove_observer-IsTimed prefix o [] timed = tt
  remove_observer-IsTimed prefix o (v ∷ rest) (own, others) =
      elim (Bool-cases (same_name v.cmdline_prefix prefix)) [
        | inr differs ↦
            simp (remove_observer, differs) (own, remove_observer-IsTimed prefix o rest others)
        | inl same ↦ elim (Option-cases (index_of o v.observers)) [
          | inl absent ↦
              simp (remove_observer, same, absent)
                (own, remove_observer-IsTimed prefix o rest others)
          | inr (k, e) ↦ simp (remove_observer, same, e) (own, others)
        ]
      ]

  module _ (array : ArrayLib ProcessObservation)
      (function : ℕ → List ProcessObservation → List ProcessObservation)
      (only : OnlyRemoves lib function) where
    -- The result has only such observations, if there is one.
    pub data Timed : Option Monitor → Type 0 where
      out_of_range : Timed none
      timed : (m : Monitor) → IsTimed m.observations → Timed (some m)

    call-IsTimed :
        (o : ℕ) (m : Monitor)
        → IsTimed m.observations
        → IsTimed (call lib array function o m).observations
    unfolding call
    call-IsTimed o m t = elim (only o m.observations) [
      | inl e ↦ subst IsTimed (sym e) t
      | inr (o', prefix, e) ↦
          subst IsTimed (sym e) (remove_observer-IsTimed prefix o' m.observations t)
    ]

    inform-Timed :
        (i k : ℕ) (m : Monitor) → IsTimed m.observations → Timed (inform lib array function i k m)
    unfolding inform
    inform-Timed i zero m t = timed m t
    inform-Timed i (suc k) m t = elim (Option-cases (get_elem? m.observations i)) [
      | inl e ↦ simp (inform, e) out_of_range
      | inr (v, e) ↦ elim (Option-cases (get_elem? v.observers k)) [
        | inl e' ↦ simp (inform, e, e') out_of_range
        | inr (o, e') ↦ simp (inform, e, e') (inform-Timed i k _ (call-IsTimed o m t))
      ]
    ]

    pub update_observation-Timed :
        (i : ℕ) (r : SearchResult) (m : Monitor)
        → IsTimed m.observations
        → Timed (update_observation lib array function i r m)
    unfolding update_observation
    update_observation-Timed i r m t = elim (Option-cases (get_elem? m.observations i)) [
      | inl e ↦ simp (update_observation, e) out_of_range
      | inr (v, e) ↦ elim (Bool-cases v.waiting) [
        | inr over ↦
            simp (update_observation, e, over)
              (timed _ (
                IsTimed-set_at m.observations i (finish_observation v) t
                  (finish_observation-timed v over)))
        | inl waits ↦ elim (Bool-cases (after_search r v).waiting) [
          | inl goes_on ↦
              simp (update_observation, e, waits, goes_on)
                (timed _ (
                  IsTimed-set_at m.observations i (after_search r v) t (
                    after_search-timer_runs r v
                    ∙ IsTimed-get m.observations i v t e
                    ∙ waits
                    ∙ sym goes_on)))
          | inr over ↦
              simp (update_observation, e, waits, over)
                (inform-Timed i _ _ (
                  IsTimed-set_at m.observations i (finish_observation (after_search r v)) t
                    (finish_observation-timed (after_search r v) over)))
        ]
      ]
    ]

    added_to-IsTimed :
        (i o : ℕ) (appended : Bool) (m : Monitor)
        → IsTimed m.observations
        → IsTimed (add_to lib array function i o appended m).1.observations
    unfolding add_to
    added_to-IsTimed i o false m t = t
    added_to-IsTimed i o true m t = elim (Option-cases (get_elem? m.observations i)) [
      | inl e ↦ simp (add_to, e) t
      | inr (v, e) ↦
          let own = IsTimed-get m.observations i v t e in
          let t' =
            IsTimed-set_at m.observations i (with_observer lib o v) t
              (with_observer-timed o v own) in
          elim (Bool-cases v.waiting) [
            | inl waits ↦ simp (add_to, e, waits) t'
            | inr over ↦ simp (add_to, e, over) (call-IsTimed o _ t')
          ]
    ]

    appended-IsTimed :
        (v : ProcessObservation) (m : Monitor)
        → IsTimed m.observations
        → v.timer_runs ≡ v.waiting
        → IsTimed (array.append m.observations v)
    appended-IsTimed v m t own =
        subst IsTimed (sym (array.append_lem m.observations v))
          (IsTimed-append m.observations v t own)

    removed-IsTimed :
        (v : ProcessObservation) (prefix : List ℕ) (timeout o : ℕ) (m : Monitor)
        → IsTimed m.observations
        → IsTimed
            (remove_new lib array function
              (record m { observations = array.append m.observations v })).observations
    removed-IsTimed v prefix timeout o m t =
        subst (λ w. IsTimed w.observations)
          (sym (removed_again lib array function prefix timeout o m v)) t

    add_new-IsTimed :
        (prefix : List ℕ) (timeout o : ℕ) (attempts : AddAttempts) (m : Monitor)
        → IsTimed m.observations
        → IsTimed (add_new lib array function prefix timeout o attempts m).1.observations
    unfolding add_new
    add_new-IsTimed prefix timeout o attempts m t = elim (Bool-cases (is_failed attempts.result)) [
      | inl h ↦ simp (add_new, h) t
      | inr h₁ ↦ elim (Bool-cases attempts.observation_appended) [
        | inr h ↦ simp (add_new, h₁, h) t
        | inl h₂ ↦
            elim (Bool-cases (
              attempts.prefix_copied
              && (attempts.observers_created && attempts.observer_appended))) [
                | inr h ↦ simp (add_new, h₁, h₂, h) (removed-IsTimed _ prefix timeout o m t)
                | inl h₃ ↦ elim (Bool-cases (is_found attempts.result)) [
                  | inl h ↦
                      simp (add_new, h₁, h₂, h₃, h) (call-IsTimed o _ (appended-IsTimed _ m t refl))
                  | inr h₄ ↦ elim (Bool-cases (attempts.timer_created && attempts.timer_started)) [
                    | inr h ↦
                        simp (add_new, h₁, h₂, h₃, h₄, h) (removed-IsTimed _ prefix timeout o m t)
                    | inl h₅ ↦ simp (add_new, h₁, h₂, h₃, h₄, h₅) (appended-IsTimed _ m t refl)
                  ]
                ]
              ]
      ]
    ]

    add_observer-IsTimed :
        (prefix : List ℕ) (timeout o : ℕ) (attempts : AddAttempts) (m : Monitor)
        → IsTimed m.observations
        → IsTimed (add_observer lib array function prefix timeout o attempts m).1.observations
    unfolding add_observer
    add_observer-IsTimed prefix timeout o attempts m t =
        elim (Option-cases (observation_index prefix m.observations)) [
          | inr (i, e) ↦
              simp (add_observer, e) (added_to-IsTimed i o attempts.observer_appended m t)
          | inl missing ↦
              simp (add_observer, missing) (add_new-IsTimed prefix timeout o attempts m t)
        ]

    -- What can happen to the monitor.
    pub data Next (m : Monitor) : Monitor → Type 0 where
      timer_called :
          (i : ℕ) (r : SearchResult) (m' : Monitor)
          → update_observation lib array function i r m ≡ some m'
          → Next m m'
      observer_added :
          (prefix : List ℕ) (timeout o : ℕ) (attempts : AddAttempts)
          → Next m (add_observer lib array function prefix timeout o attempts m).1
      observer_removed :
          (prefix : List ℕ) (o : ℕ)
          → Next m (record m { observations = remove_observer lib prefix o m.observations })
      ended : Next m (end_monitor m)

    -- The monitors that `process_monitor_init` and what happens afterwards lead to.
    pub data Reachable : Monitor → Type 0 where
      initial : Reachable new_monitor
      later : (m m' : Monitor) → Reachable m → Next m m' → Reachable m'

    of_some : (r : Option Monitor) (m : Monitor) → Timed r → r ≡ some m → IsTimed m.observations
    of_some none m t e = absurd (none-ne-some m e)
    of_some (some m') m (timed w t) e = subst kept e t
      where
        kept : Option Monitor → Type 0
        kept none = Unit {0}
        kept (some x) = IsTimed x.observations

    Next-IsTimed : (m m' : Monitor) → Next m m' → IsTimed m.observations → IsTimed m'.observations
    Next-IsTimed m m' (timer_called i r w e) t = of_some _ w (update_observation-Timed i r m t) e
    Next-IsTimed m m' (observer_added prefix timeout o attempts) t =
        add_observer-IsTimed prefix timeout o attempts m t
    Next-IsTimed m m' (observer_removed prefix o) t =
        remove_observer-IsTimed prefix o m.observations t
    Next-IsTimed m m' ended t = tt

    -- When a function of an observer leaves the observations alone or removes an observer of some
    -- command line, then in every monitor that the start, calls of timers, additions and removals
    -- of observers for any command lines and the end lead to, each observation has a timer exactly
    -- as long as it waits.
    pub Reachable-IsTimed : (m : Monitor) → Reachable m → IsTimed m.observations
    Reachable-IsTimed m initial = tt
    Reachable-IsTimed m (later m₀ m₁ reached next) =
        Next-IsTimed m₀ m₁ next (Reachable-IsTimed m₀ reached)
