-- ===== src/Object/Removal.antt =====
-- The steps of a destruction (src/redapid/object.c) keep the invariant: an internal reference goes,
-- and an object without references leaves its array with what it holds.
use red_brick_apid.Base.{
  ℕ, ◌+◌, ◌-◌, false, some, List, [], ◌∷◌, ◌++◌, arith, ◌==◌, if◌then◌else◌, ◌≡◌, refl, ◌≤◌, ◌<◌,
  Bool-cases, ==→eq, inl, inr, ap,
}
use native.Mathlib.Nat.{le_refl}
use red_brick_apid.Types.{ObjectType, Object}
use red_brick_apid.Store.Arrays.{
  index_of, tally, occurrences, tally-append, remove_at, tally-remove_at,
}
use red_brick_apid.Store.{
  Store, code, Hold, ExternalReference, with_object, with_array, code-injective, over_objects,
  over_objects-with_array, occurrences-le-all,
}
use red_brick_apid.Object.{detach, drop_counts, of_object, without}
use red_brick_apid.Object.Invariant.{
  Inv, on, locks_on, held, to_object, IsPositive, IsLive, unlocked_hold,
}

-- The store in which `a` has one internal reference fewer.
abbrev pub decremented : ℕ → Store → Store
decremented a s =
    with_object a (λ o. record o { internal_reference_count = o.internal_reference_count - 1 }) s

pub decremented-Inv :
    (a : ℕ) (pending : List Hold) (s : Store)
    → Inv s (unlocked_hold a ∷ pending)
    → Inv (decremented a s) pending
decremented-Inv a pending s v = record {
  internal = λ t. ground (arith, v.internal t);
  locks = λ t. ground (arith, v.locks t);
  internal_held = λ t l. ground (arith, v.internal_held t);
  locks_held = λ t l. ground (arith, v.locks_held t);
  held_live = λ t p. ground (arith, v.held_live t);
  once = v.once;
  external = λ b. ground (arith, v.external b);
  typed = λ b u p. ground (arith, v.typed b u);
  session_once = v.session_once;
  of_sessions = λ x. ground (arith, v.of_sessions x);
  positive = v.positive;
  external_live = λ b p. ground (arith, v.external_live b);
  sessions_live = λ x p. ground (arith, v.sessions_live x);
}

-- An object without external references has nothing to detach.
without-none :
    (a : ℕ) (rs : List ExternalReference)
    → IsPositive rs
    → tally (to_object a) rs ≡ 0
    → without (of_object a) rs ≡ rs
without-none a [] pos h = refl
without-none a (r ∷ rs) pos h = ground (arith, without-none a rs pos.1)

drop_counts-none :
    (a : ℕ) (rs : List ExternalReference) (s : Store)
    → IsPositive rs
    → tally (to_object a) rs ≡ 0
    → drop_counts a rs s ≡ s
drop_counts-none a [] s pos h = refl
drop_counts-none a (r ∷ rs) s pos h = ground (arith, drop_counts-none a rs s pos.1)

pub detach-none :
    (a : ℕ) (s : Store)
    → IsPositive s.references
    → tally (to_object a) s.references ≡ 0
    → detach a s ≡ s
unfolding detach
detach-none a s pos h =
    rw (without-none a s.references pos h) (drop_counts-none a s.references s pos h)

-- An unreferenced object has left its array: what it held is now pending.
module _ (a : ℕ) (pending : List Hold) (s : Store) (i : ℕ) where
  abbrev pub removed : Store
  removed = with_array (s.object a).type (remove_at (s.objects (s.object a).type) i) s

  pub over_objects-removed :
      (f : ℕ → ℕ)
      → index_of a (s.objects (s.object a).type) ≡ some i
      → over_objects f removed + f a ≡ over_objects f s
  over_objects-removed f found = omega (
    arith,
    over_objects-with_array f (s.object a).type (remove_at (s.objects (s.object a).type) i) s,
    tally-remove_at f a (s.objects (s.object a).type) i found,
  )

  occurrences-removed :
      (b : ℕ) (u : ObjectType)
      → index_of a (s.objects (s.object a).type) ≡ some i
      → (occurrences b (removed.objects u) ≤ occurrences b (s.objects u))
        × ((a == b) ≡ false → occurrences b (removed.objects u) ≡ occurrences b (s.objects u))
  occurrences-removed b u found = elim (Bool-cases (code u == code (s.object a).type)) [
    | inl same ↦
        let array : s.objects u ≡ s.objects (s.object a).type =
          ap s.objects (code-injective u (s.object a).type same) in
        let left =
          tally-remove_at (λ c. if c == b then 1 else 0) a (s.objects (s.object a).type) i found in
        rw (same, array) (ground (arith, left), λ ne. ground (arith, left))
    | inr other ↦ rw other (le_refl _, λ ne. refl)
  ]

  still-IsLive :
      (b : ℕ)
      → index_of a (s.objects (s.object a).type) ≡ some i
      → (a == b) ≡ false
      → IsLive s b
      → IsLive removed b
  still-IsLive b found ne l = omega (arith, (occurrences-removed b (s.object b).type found).1 ne)

  was_there :
      (b : ℕ) → index_of a (s.objects (s.object a).type) ≡ some i → IsLive removed b → IsLive s b
  was_there b found l = omega (arith, l, (occurrences-removed b (s.object b).type found).0)

  other_object :
      (b n : ℕ) (f : Object → ℕ)
      → f (s.object a) ≡ 0
      → 0 < n
      → n ≤ f (s.object b)
      → (a == b) ≡ false
  other_object b n f z p le = elim (Bool-cases (a == b)) [
    | inl same ↦
        let e : a ≡ b = ==→eq a b same in absurd (omega (arith, z, ap (λ c. f (s.object c)) e))
    | inr other ↦ other
  ]

  not_removed :
      (b : ℕ) (u : ObjectType)
      → index_of a (s.objects (s.object a).type) ≡ some i
      → 0 < occurrences b (removed.objects u)
      → Inv s pending
      → (a == b) ≡ false
  not_removed b u found p v = elim (Bool-cases (a == b)) [
    | inr other ↦ other
    | inl same ↦
        let none_left = over_objects-removed (λ c. if c == b then 1 else 0) found in
        absurd (ground (arith, none_left, v.once b, occurrences-le-all b u removed))
  ]

  pub removed-Inv :
      Inv s pending
      → index_of a (s.objects (s.object a).type) ≡ some i
      → (s.object a).internal_reference_count ≡ 0
      → (s.object a).external_reference_count ≡ 0
      → Inv removed (s.holds a ++ pending)
  removed-Inv v found none_internal none_external = record {
    internal = λ t. omega (
      arith,
      v.internal t,
      over_objects-removed (λ b. tally (on t) (s.holds b)) found,
      tally-append (on t) (s.holds a) pending,
    );
    locks = λ t. omega (
      arith,
      v.locks t,
      over_objects-removed (λ b. tally (locks_on t) (s.holds b)) found,
      tally-append (locks_on t) (s.holds a) pending,
    );
    internal_held = λ t l. omega (
      arith,
      v.internal_held t (was_there t found l),
      over_objects-removed (λ b. tally (on t) (s.holds b)) found,
      tally-append (on t) (s.holds a) pending,
    );
    locks_held = λ t l. omega (
      arith,
      v.locks_held t (was_there t found l),
      over_objects-removed (λ b. tally (locks_on t) (s.holds b)) found,
      tally-append (locks_on t) (s.holds a) pending,
    );
    held_live = λ t p.
        let total : 0 < tally (on t) pending + held t s = omega (
          arith,
          p,
          over_objects-removed (λ b. tally (on t) (s.holds b)) found,
          tally-append (on t) (s.holds a) pending,
        ) in
        still-IsLive t found
          (other_object t _ (λ o. o.internal_reference_count) none_internal total (v.internal t))
          (v.held_live t total);
    once = λ b. omega (arith, v.once b, over_objects-removed (λ c. if c == b then 1 else 0) found);
    external = v.external;
    typed = λ b u p.
        let before = (occurrences-removed b u found).0 in
        still-IsLive b found (not_removed b u found p v) (v.typed b u (omega (arith, p, before)));
    session_once = v.session_once;
    of_sessions = v.of_sessions;
    positive = v.positive;
    external_live = λ b p.
        still-IsLive b found
          (other_object b _ (λ o. o.external_reference_count) none_external p (le_refl _))
          (v.external_live b p);
    sessions_live = v.sessions_live;
  }
