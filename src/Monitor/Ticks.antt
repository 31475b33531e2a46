-- ===== src/Monitor/Ticks.antt =====
-- The timer of an observation (src/redapid/process_monitor.c): every search that does not find the
-- process takes 2 seconds off the timeout, so the observers are informed in the end.
use red_brick_apid.Base.{
  append_nil, ℕ, ◌+◌, ◌*◌, true, false, Option, some, List, [], ◌∷◌, ◌++◌, arith, ◌≡◌, refl, ◌≤◌,
  ◌<◌, length, set_at, same_name, inl, inr, ap, sym, ◌∙◌, Bool-cases, subst,
}
use red_brick_apid.Store.Arrays.{ArrayLib, occurrences}
use red_brick_apid.Monitor.{
  ProcessObservation, Monitor, SearchResult, found, not_found, search_failed, after_search,
  finish_observation, put, inform, update_observation, tick, ticks,
}
use red_brick_apid.Monitor.Shape.{count_prefix, get_elem?-middle, set_at-middle}
use red_brick_apid.Monitor.Inform.{RemovesOnlyItself, inform-Informed}

-- An observation that still waits has less time left.
after_search-waits :
    (r : SearchResult) (v : ProcessObservation)
    → (after_search r v).waiting ≡ true
    → ((after_search r v).remaining_timeout + 2 ≤ v.remaining_timeout)
      × (0 < (after_search r v).remaining_timeout)
unfolding after_search
after_search-waits found v h = absurd cc
after_search-waits not_found v h = (ground arith, ground arith)
after_search-waits search_failed v h = (ground arith, ground arith)

after_search-observers :
    (r : SearchResult) (v : ProcessObservation) → (after_search r v).observers ≡ v.observers
unfolding after_search
after_search-observers found v = refl
after_search-observers not_found v = refl
after_search-observers search_failed v = refl

after_search-cmdline_prefix :
    (r : SearchResult) (v : ProcessObservation)
    → (after_search r v).cmdline_prefix ≡ v.cmdline_prefix
unfolding after_search
after_search-cmdline_prefix found v = refl
after_search-cmdline_prefix not_found v = refl
after_search-cmdline_prefix search_failed v = refl

pub after_search-timer_runs :
    (r : SearchResult) (v : ProcessObservation) → (after_search r v).timer_runs ≡ v.timer_runs
unfolding after_search
after_search-timer_runs found v = refl
after_search-timer_runs not_found v = refl
after_search-timer_runs search_failed v = refl

module _ (lib : ArrayLib ℕ) (array : ArrayLib ProcessObservation)
    (function : ℕ → List ProcessObservation → List ProcessObservation) (prefix : List ℕ)
    (before after : List ProcessObservation) where
  -- The observation has ended, and its observers were called once, the last one first.
  pub record Finished (observers : List ℕ) (m : Monitor) (result : Option Monitor) : Type 0 where
    pub after_ticks : Monitor
    pub observation : ProcessObservation
    pub returned : result ≡ some after_ticks
    pub placed : after_ticks.observations ≡ before ++ observation ∷ after
    pub no_longer_waits : observation.waiting ≡ false
    pub has_no_timer : observation.timer_runs ≡ false
    pub calls : after_ticks.informed ≡ observers ++ m.informed

  -- Without a timer nothing happens.
  ticks-idle :
      (results : List SearchResult) (v : ProcessObservation) (m : Monitor)
      → m.observations ≡ before ++ v ∷ after
      → v.timer_runs ≡ false
      → ticks lib array function (length before) results m ≡ some m
  unfolding ticks tick
  ticks-idle [] v m placed stopped = refl
  ticks-idle (r ∷ results) v m placed stopped =
      simp (ticks, tick, placed, get_elem?-middle before after v, stopped)
        (ticks-idle results v m placed stopped)

  put-placed :
      (v w : ProcessObservation) (m : Monitor)
      → m.observations ≡ before ++ v ∷ after
      → (put lib array function (length before) w m).observations ≡ before ++ w ∷ after
  put-placed v w m placed =
      ap (λ o. set_at o (length before) w) placed ∙ set_at-middle before after v w

  tick-waits :
      (r : SearchResult) (v : ProcessObservation) (m : Monitor)
      → m.observations ≡ before ++ v ∷ after
      → v.waiting ≡ true
      → v.timer_runs ≡ true
      → (after_search r v).waiting ≡ true
      → tick lib array function (length before) r m
        ≡ some (put lib array function (length before) (after_search r v) m)
  unfolding tick update_observation
  tick-waits r v m placed waits runs goes_on =
      let found_v = get_elem?-middle before after v in
      simp (tick, placed, found_v, runs, update_observation, waits, goes_on) refl

  tick-ends :
      (r : SearchResult) (v : ProcessObservation) (m : Monitor)
      → m.observations ≡ before ++ v ∷ after
      → v.waiting ≡ true
      → v.timer_runs ≡ true
      → (after_search r v).waiting ≡ false
      → tick lib array function (length before) r m
        ≡ inform lib array function
            (length before)
            (length (after_search r v).observers)
            (put lib array function (length before) (finish_observation (after_search r v)) m)
  unfolding tick update_observation
  tick-ends r v m placed waits runs over =
      let found_v = get_elem?-middle before after v in
      simp (tick, placed, found_v, runs, update_observation, waits, over) refl

  ticks-first :
      (r : SearchResult) (results : List SearchResult) (m m' : Monitor)
      → tick lib array function (length before) r m ≡ some m'
      → ticks lib array function (length before) (r ∷ results) m
        ≡ ticks lib array function (length before) results m'
  unfolding ticks
  ticks-first r results m m' e = simp (ticks, e) refl

  module _ (only : RemovesOnlyItself lib array function prefix)
      (none_before : count_prefix prefix before ≡ 0) where
    -- When a function of an observer leaves the observations alone or removes that observer, an
    -- observation that waits with its timer, is the first one for its command line, and has each
    -- observer once, has ended after timer calls whose number is positive and at least half of its
    -- remaining timeout in seconds, whatever the searches answer: it no longer waits, it has no
    -- timer, and each of its observers was called exactly once, the last one first, also when
    -- observers removed themselves meanwhile.
    pub ticks-Finished :
        (results : List SearchResult) (v : ProcessObservation) (m : Monitor)
        → m.observations ≡ before ++ v ∷ after
        → same_name v.cmdline_prefix prefix ≡ true
        → v.waiting ≡ true
        → v.timer_runs ≡ true
        → ((o : ℕ) → occurrences o v.observers ≤ 1)
        → 0 < length results
        → v.remaining_timeout ≤ 2 * length results
        → Finished v.observers m (ticks lib array function (length before) results m)
    unfolding finish_observation
    ticks-Finished [] v m placed same waits runs once some_ticks enough =
        absurd (omega (arith, some_ticks))
    ticks-Finished (r ∷ results) v m placed same waits runs once some_ticks enough =
        elim (Bool-cases (after_search r v).waiting) [
          | inl goes_on ↦
              let (less, positive) = after_search-waits r v goes_on in
              let rest =
                ticks-Finished results (after_search r v) (put_w m)
                  (put-placed v (after_search r v) m placed) same_w goes_on
                  (after_search-timer_runs r v ∙ runs) once_w
                  (omega (arith, less, positive, enough)) (omega (arith, less, positive, enough)) in
              record {
                after_ticks = rest.after_ticks;
                observation = rest.observation;
                returned =
                    ticks-first r results m (put_w m) (tick-waits r v m placed waits runs goes_on)
                    ∙ rest.returned;
                placed = rest.placed;
                no_longer_waits = rest.no_longer_waits;
                has_no_timer = rest.has_no_timer;
                calls = rest.calls ∙ ap (λ o. o ++ m.informed) (after_search-observers r v);
              }
          | inr over ↦
              let d =
                inform-Informed lib array function prefix only before after
                  (finish_observation (after_search r v)) none_before same_w
                  (length (after_search r v).observers) (after_search r v).observers []
                  (put lib array function (length before) (finish_observation (after_search r v)) m)
                  refl once_w
                  (put-placed v (finish_observation (after_search r v)) m placed
                    ∙ ap
                        (λ o.
                          before
                          ++ record (finish_observation (after_search r v)) { observers = o }
                            ∷ after)
                        (sym (append_nil (after_search r v).observers))) in
              record {
                after_ticks = d.after_calls;
                observation = record (finish_observation (after_search r v)) { observers = d.left };
                returned =
                    ticks-first r results m d.after_calls
                      (tick-ends r v m placed waits runs over ∙ d.returned)
                    ∙ ticks-idle results _ d.after_calls d.placed refl;
                placed = d.placed;
                no_longer_waits = over;
                has_no_timer = refl;
                calls = d.calls ∙ ap (λ o. o ++ m.informed) (after_search-observers r v);
              }
        ]
      where
        put_w : Monitor → Monitor
        put_w m = put lib array function (length before) (after_search r v) m

        same_w : same_name (after_search r v).cmdline_prefix prefix ≡ true
        same_w = ap (λ c. same_name c prefix) (after_search-cmdline_prefix r v) ∙ same

        once_w : (o : ℕ) → occurrences o (after_search r v).observers ≤ 1
        once_w o = subst (λ xs. occurrences o xs ≤ 1) (sym (after_search-observers r v)) (once o)
