-- ===== src/Monitor/Inform.antt =====
-- The loop over the observers of a finished observation (`process_monitor_update_observation`,
-- src/redapid/process_monitor.c).
use red_brick_apid.Base.{
  append_assoc, ℕ, zero, suc, true, Option, some, List, [], ◌∷◌, ◌++◌, arith, ◌==◌, if◌then◌else◌,
  ◌≡◌, refl, ◌⊎◌, ◌≤◌, length, length-append, get_elem?, same_name, inl, inr, ap, sym, ◌∙◌, subst,
}
use red_brick_apid.Store.Arrays.{ArrayLib, occurrences, tally-append}
use red_brick_apid.Monitor.{ProcessObservation, Monitor, remove_observer, call, inform}
use red_brick_apid.Monitor.Shape.{
  count_prefix, get_elem?-middle, remove_at-middle, last-cases, index_of-middle,
  remove_observer-middle,
}

module _ (lib : ArrayLib ℕ) (array : ArrayLib ProcessObservation)
    (function : ℕ → List ProcessObservation → List ProcessObservation) (prefix : List ℕ) where
  -- The function of an observer leaves the observations alone, or removes the observer.
  abbrev pub RemovesOnlyItself : Type 0
  RemovesOnlyItself =
      (o : ℕ) (observations : List ProcessObservation)
      → (function o observations ≡ observations)
        ⊎ (function o observations ≡ remove_observer lib prefix o observations)

  module _ (only : RemovesOnlyItself) (before after : List ProcessObservation)
      (v : ProcessObservation) (none_before : count_prefix prefix before ≡ 0)
      (same : same_name v.cmdline_prefix prefix ≡ true) where
    -- The monitor, with these observers at the place.
    abbrev pub WithObservers : List ℕ → Monitor → Type 0
    WithObservers observers m =
        m.observations ≡ before ++ record v { observers = observers } ∷ after

    -- The observers were called, the last one first; the rest may have left.
    pub record Informed (observers : List ℕ) (m : Monitor) (result : Option Monitor) : Type 0 where
      pub after_calls : Monitor
      pub left : List ℕ
      pub returned : result ≡ some after_calls
      pub placed : WithObservers left after_calls
      pub calls : after_calls.informed ≡ observers ++ m.informed

    call-informed : (o : ℕ) (m : Monitor) → (call lib array function o m).informed ≡ o ∷ m.informed
    unfolding call
    call-informed o m = refl

    called :
        (o : ℕ) (ys zs : List ℕ) (m : Monitor)
        → occurrences o ys ≡ 0
        → WithObservers (ys ++ o ∷ zs) m
        → (zs' : List ℕ) × WithObservers (ys ++ zs') (call lib array function o m)
    unfolding call
    called o ys zs m absent placed = elim (only o m.observations) [
      | inl unchanged ↦ (o ∷ zs, unchanged ∙ placed)
      | inr removed ↦ (
        zs,
        removed
            ∙ ap (remove_observer lib prefix o) placed
            ∙ remove_observer-middle lib prefix o (length ys) before after
                (record v { observers = ys ++ o ∷ zs }) none_before same
                (index_of-middle o ys zs absent)
            ∙ ap (λ w. before ++ record v { observers = w } ∷ after) (remove_at-middle ys zs o),
      )
    ]

    pub inform-Informed :
        (k : ℕ) (ys zs : List ℕ) (m : Monitor)
        → length ys ≡ k
        → ((o : ℕ) → occurrences o ys ≤ 1)
        → WithObservers (ys ++ zs) m
        → Informed ys m (inform lib array function (length before) k m)
    unfolding inform
    inform-Informed zero [] zs m size once placed = record {
      after_calls = m;
      left = zs;
      returned = refl;
      placed = placed;
      calls = refl;
    }
    inform-Informed zero (y ∷ ys) zs m size once placed = absurd (omega (arith, size))
    inform-Informed (suc k) ys zs m size once placed = elim (last-cases ys) [
      | inl e ↦ absurd (omega (arith, ap length e, size))
      | inr (xs, o, e) ↦
          let k_eq : length xs ≡ k = omega (arith, size, ap length e, length-append xs (o ∷ [])) in
          let placed' : WithObservers (xs ++ o ∷ zs) m =
            placed
            ∙ ap (λ w. before ++ record v { observers = w } ∷ after)
                (ap (λ w. w ++ zs) e ∙ append_assoc xs (o ∷ []) zs) in
          let both : occurrences o (xs ++ o ∷ []) ≤ 1 =
            subst (λ w. occurrences o w ≤ 1) e (once o) in
          let absent : occurrences o xs ≡ 0 =
            omega (arith, both, tally-append (λ b. if b == o then 1 else 0) xs (o ∷ []), own o) in
          let once' : (x : ℕ) → occurrences x xs ≤ 1 = λ x. omega (
            arith,
            subst (λ w. occurrences x w ≤ 1) e (once x),
            tally-append (λ b. if b == x then 1 else 0) xs (o ∷ []),
          ) in
          let at_k : get_elem? (xs ++ o ∷ zs) k ≡ some o =
            subst (λ n. get_elem? (xs ++ o ∷ zs) n ≡ some o) k_eq (get_elem?-middle xs zs o) in
          let (zs', after_call) = called o xs zs m absent placed' in
          let rest = inform-Informed k xs zs' (call lib array function o m) k_eq once' after_call in
          rw
            (
              inform,
              placed',
              get_elem?-middle before after (record v { observers = xs ++ o ∷ zs }),
              at_k,
            )
            (record {
              after_calls = rest.after_calls;
              left = rest.left;
              returned = rest.returned;
              placed = rest.placed;
              calls = one_more xs o ys m rest.after_calls e rest.calls;
            })
    ]
      where
        own : (x : ℕ) → occurrences x (x ∷ []) ≡ 1
        own x = ground arith

        one_more :
            (xs : List ℕ) (o : ℕ) (ys : List ℕ) (m m' : Monitor)
            → ys ≡ xs ++ o ∷ []
            → m'.informed ≡ xs ++ (call lib array function o m).informed
            → m'.informed ≡ ys ++ m.informed
        one_more xs o ys m m' e calls =
            calls
            ∙ ap (λ w. xs ++ w) (call-informed o m)
            ∙ sym (append_assoc xs (o ∷ []) m.informed)
            ∙ ap (λ w. w ++ m.informed) (sym e)
