-- ===== src/Session/Expire.antt =====
-- Expiring a session (src/redapid/session.c) ends, returns every reference that the session owns,
-- and keeps the counts right.
use red_brick_apid.Base.{
  ℕ, zero, suc, ◌+◌, ◌&&◌, Option, none, some, List, [], ◌∷◌, arith, ◌==◌, if◌then◌else◌, ◌≡◌, refl,
  ◌<◌, length, Bool-cases, Option-cases, inl, inr, ap, ◌∙◌,
}
use native.Mathlib.Nat.{le_refl}
use red_brick_apid.Store.Arrays.{
  ArrayLib, index_of, tally, occurrences, remove_at, tally-remove_at, index_of-occurrences,
}
use red_brick_apid.Store.{Store, Hold, ExternalReference, with_session}
use red_brick_apid.Object.{count_down}
use red_brick_apid.Object.Invariant.{Inv, to_object, to_session, IsPositive, IsLive}
use red_brick_apid.Object.Cascade.{remove_object-Settled}
use red_brick_apid.Object.References.{Fewer, count_down-Inv}
use red_brick_apid.Session.{
  first_of_session, unlink_first, remove_reference, remove_external_references_from,
  remove_external_references, destroy, remove_session, expire,
}

first_of_session-none :
    (x : ℕ) (rs : List ExternalReference)
    → first_of_session x rs ≡ none
    → tally (to_session x) rs ≡ 0
first_of_session-none x [] h = refl
first_of_session-none x (q ∷ rs) h = ground (arith, first_of_session-none x rs)

length-unlink_first :
    (x : ℕ) (rs : List ExternalReference) (r : ExternalReference)
    → first_of_session x rs ≡ some r
    → length (unlink_first x rs) + 1 ≡ length rs
length-unlink_first x [] r h = cc
length-unlink_first x (q ∷ rs) r h = ground (arith, length-unlink_first x rs r)

unlink_first-object :
    (x b : ℕ) (rs : List ExternalReference) (r : ExternalReference)
    → first_of_session x rs ≡ some r
    → tally (to_object b) (unlink_first x rs) + (if r.object == b then r.count else 0)
      ≡ tally (to_object b) rs
unlink_first-object x b [] r h = cc
unlink_first-object x b (q ∷ rs) r h = ground (arith, unlink_first-object x b rs r)

unlink_first-session :
    (x y : ℕ) (rs : List ExternalReference) (r : ExternalReference)
    → first_of_session x rs ≡ some r
    → tally (to_session y) (unlink_first x rs) + (if x == y then r.count else 0)
      ≡ tally (to_session y) rs
unlink_first-session x y [] r h = cc
unlink_first-session x y (q ∷ rs) r h = ground (arith, unlink_first-session x y rs r)

unlink_first-IsPositive :
    (x : ℕ) (rs : List ExternalReference) → IsPositive rs → IsPositive (unlink_first x rs)
unlink_first-IsPositive x [] h = tt
unlink_first-IsPositive x (q ∷ rs) h = ground (arith, unlink_first-IsPositive x rs h.1)

first_positive :
    (x : ℕ) (rs : List ExternalReference) (r : ExternalReference)
    → IsPositive rs
    → first_of_session x rs ≡ some r
    → 0 < r.count
first_positive x [] r pos h = cc
first_positive x (q ∷ rs) r pos h = ground (arith, first_positive x rs r pos.1)

unlink_first-Fewer :
    (x : ℕ) (rs : List ExternalReference) (r : ExternalReference)
    → IsPositive rs
    → first_of_session x rs ≡ some r
    → Fewer r.object x r.count rs (unlink_first x rs)
unlink_first-Fewer x rs r pos h = record {
  fewer_of_object = λ b. unlink_first-object x b rs r h;
  fewer_of_session = λ y. unlink_first-session x y rs r h;
  left_positive = unlink_first-IsPositive x rs pos;
}

-- The session owns nothing any more.
pub record Released (x : ℕ) (s : Store) (pending : List Hold) (result : Option Store) : Type 0 where
  pub after : Store
  pub returned : result ≡ some after
  pub inv : Inv after pending
  pub none_left : tally (to_session x) after.references ≡ 0
  pub same_sessions : after.sessions ≡ s.sessions

module _ (lib : ArrayLib ℕ) (x : ℕ) (pending : List Hold) where
  record Rounded (s : Store) (result : Option Store) : Type 0 where
    after : Store
    returned : result ≡ some after
    inv : Inv after pending
    references_shorter : length after.references + 1 ≡ length s.references
    sessions_kept : after.sessions ≡ s.sessions

  remove_reference-Rounded :
      (r : ExternalReference) (s : Store)
      → Inv s pending
      → first_of_session x s.references ≡ some r
      → Rounded s (remove_reference lib x r s)
  unfolding remove_reference
  remove_reference-Rounded r s v h =
      let s₁ : Store =
        count_down r.object x r.count (record s { references = unlink_first x s.references }) in
      let fewer = unlink_first-Fewer x s.references r v.positive h in
      let v₁ : Inv s₁ pending = count_down-Inv r.object x r.count _ pending s v fewer in
      let owned : 0 < (s.object r.object).external_reference_count = ground (
        arith,
        v.external r.object,
        fewer.fewer_of_object r.object,
        first_positive x s.references r v.positive h,
      ) in
      let live : IsLive s r.object = v.external_live r.object owned in
      elim (Bool-cases (
        (s₁.object r.object).internal_reference_count == 0
        && (s₁.object r.object).external_reference_count == 0)) [
          | inl last ↦
              let d =
                remove_object-Settled lib r.object pending s₁ v₁ (ground arith) (ground arith)
                  (ground (arith, live)) in
              record {
                after = d.after;
                returned = rw last d.returned;
                inv = d.inv;
                references_shorter =
                    omega
                      (arith, ap length d.same_references, length-unlink_first x s.references r h);
                sessions_kept = d.same_sessions;
              }
          | inr more ↦ record {
            after = s₁;
            returned = rw more;
            inv = v₁;
            references_shorter = length-unlink_first x s.references r h;
            sessions_kept = refl;
          }
        ]

  remove_external_references_from-Released :
      (fuel : ℕ) (s : Store)
      → length s.references < fuel
      → Inv s pending
      → Released x s pending (remove_external_references_from lib fuel x s)
  unfolding remove_external_references_from
  remove_external_references_from-Released zero s lt v = absurd (omega arith)
  remove_external_references_from-Released (suc fuel) s lt v =
      elim (Option-cases (first_of_session x s.references)) [
        | inl e ↦ record {
          after = s;
          returned = ground arith;
          inv = v;
          none_left = first_of_session-none x s.references e;
          same_sessions = refl;
        }
        | inr (r, e) ↦
            let d = remove_reference-Rounded r s v e in
            let rest =
              remove_external_references_from-Released fuel d.after
                (omega (arith, d.references_shorter)) d.inv in
            record {
              after = rest.after;
              returned = step r e d.after d.returned ∙ rest.returned;
              inv = rest.inv;
              none_left = rest.none_left;
              same_sessions = rest.same_sessions ∙ d.sessions_kept;
            }
      ]
    where
      step :
          (r : ExternalReference)
          → first_of_session x s.references ≡ some r
          → (s' : Store) → remove_reference lib x r s ≡ some s'
          → remove_external_references_from lib (suc fuel) x s
            ≡ remove_external_references_from lib fuel x s'
      step r e s' e' = rw (e, e', remove_external_references_from)

  pub remove_external_references-Released :
      (s : Store) → Inv s pending → Released x s pending (remove_external_references lib x s)
  unfolding remove_external_references
  remove_external_references-Released s v =
      remove_external_references_from-Released (suc (length s.references)) s (le_refl _) v

module _ (lib : ArrayLib ℕ) (x : ℕ) (pending : List Hold) where
  -- The store without the session, whose timer is stopped.
  abbrev dropped : ℕ → Store → Store
  dropped i s =
      with_session x (λ e. record e { timer = none })
        (record s { sessions = remove_at s.sessions i })

  dropped-Inv :
      (i : ℕ) (s : Store)
      → Inv s pending
      → tally (to_session x) s.references ≡ 0
      → index_of x s.sessions ≡ some i
      → Inv (dropped i s) pending
  dropped-Inv i s v unowned found =
      let left = λ (y : ℕ). tally-remove_at (λ c. if c == y then 1 else 0) x s.sessions i found in
      record {
        internal = v.internal;
        locks = v.locks;
        internal_held = v.internal_held;
        locks_held = v.locks_held;
        held_live = v.held_live;
        once = v.once;
        typed = v.typed;
        session_once = λ y. ground (arith, v.session_once y, left y);
        external = v.external;
        of_sessions = λ y. ground (arith, v.of_sessions y);
        positive = v.positive;
        external_live = v.external_live;
        sessions_live = λ y p. ground (arith, v.sessions_live y, v.of_sessions y, left y);
      }

  -- The session is gone, and what it owned.
  pub record Expired (result : Option Store) : Type 0 where
    pub after : Store
    pub returned : result ≡ some after
    pub inv : Inv after pending
    pub owns_nothing : tally (to_session x) after.references ≡ 0
    pub is_gone : occurrences x after.sessions ≡ 0

  remove_session-Expired :
      (s : Store)
      → Inv s pending
      → tally (to_session x) s.references ≡ 0
      → 0 < occurrences x s.sessions
      → Expired (remove_session lib x s)
  unfolding remove_session destroy
  remove_session-Expired s v unowned live =
      let (i, found) = index_of-occurrences x s.sessions live in
      let d =
        remove_external_references-Released lib x pending (dropped i s)
          (dropped-Inv i s v unowned found) in
      let left = tally-remove_at (λ c. if c == x then 1 else 0) x s.sessions i found in
      record {
        after = d.after;
        returned = rw (found, remove_session, lib.remove_lem, destroy) d.returned;
        inv = d.inv;
        owns_nothing = d.none_left;
        is_gone = ground (arith, ap (occurrences x) d.same_sessions, left, v.session_once x);
      }

  -- In a store with right counts, expiring a session of the inventory ends, keeps the counts right,
  -- and leaves neither the session nor an external reference that it owns.
  pub expire-Expired :
      (s : Store) → Inv s pending → 0 < occurrences x s.sessions → Expired (expire lib x s)
  unfolding expire
  expire-Expired s v live =
      let d = remove_external_references-Released lib x pending s v in
      let e =
        remove_session-Expired d.after d.inv d.none_left
          (omega (arith, live, ap (occurrences x) d.same_sessions)) in
      record {
        after = e.after;
        returned = rw (d.returned, expire) e.returned;
        inv = e.inv;
        owns_nothing = e.owns_nothing;
        is_gone = e.is_gone;
      }
