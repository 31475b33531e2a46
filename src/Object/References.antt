-- ===== src/Object/References.antt =====
-- External references, and the holds that are taken: each call keeps the invariant
-- (src/redapid/object.c).
use red_brick_apid.Base.{
  ℕ, ◌+◌, Bool, true, false, ◌&&◌, some, List, [], ◌∷◌, ◌++◌, arith, ◌==◌, if◌then◌else◌, ◌≡◌, ◌≤◌,
  ◌<◌, Bool-cases, inl, inr, refl, sym, ◌∙◌, ==→eq, ==-refl, ap,
}
use native.Mathlib.Nat.{le_refl}
use red_brick_apid.ApiError.{ApiE, success, no_free_memory}
use red_brick_apid.Store.Arrays.{ArrayLib, tally, occurrences, tally-append}
use red_brick_apid.Store.{Store, Hold, ExternalReference, size}
use red_brick_apid.Object.{
  lock, add_internal_reference, any, of_both, increment, decrement, count_up, count_down,
  add_external_reference, remove_external_reference,
}
use red_brick_apid.Object.Invariant.{Inv, to_object, to_session, IsPositive, IsLive, locked_hold}
use red_brick_apid.Object.Cascade.{remove_object-Settled}

-- Taking a lock and an internal reference, as `string_acquire_and_lock` and the like do.
abbrev pub acquire_and_lock : ℕ → Store → Store
acquire_and_lock a s = lock a (add_internal_reference a s)

pub acquire_and_lock-Inv :
    (a : ℕ) (pending : List Hold) (s : Store)
    → Inv s pending
    → IsLive s a
    → Inv (acquire_and_lock a s) (locked_hold a ∷ pending)
unfolding lock add_internal_reference
acquire_and_lock-Inv a pending s v live = record {
  internal = λ t. ground (arith, v.internal t);
  locks = λ t. ground (arith, v.locks t);
  internal_held = λ t l. ground (arith, v.internal_held t);
  locks_held = λ t l. ground (arith, v.locks_held t);
  held_live = λ t p. ground (arith, v.held_live t, live);
  once = v.once;
  external = λ b. ground (arith, v.external b);
  typed = λ b u p. ground (arith, v.typed b u);
  session_once = v.session_once;
  of_sessions = v.of_sessions;
  positive = v.positive;
  external_live = λ b p. ground (arith, v.external_live b);
  sessions_live = v.sessions_live;
}

module _ (a x : ℕ) where
  increment-object :
      (b : ℕ) (rs : List ExternalReference)
      → any (of_both a x) rs ≡ true
      → tally (to_object b) (increment (of_both a x) rs)
        ≡ tally (to_object b) rs + (if a == b then 1 else 0)
  increment-object b [] h = cc
  increment-object b (r ∷ rs) h = ground (arith, increment-object b rs)

  increment-session :
      (y : ℕ) (rs : List ExternalReference)
      → any (of_both a x) rs ≡ true
      → tally (to_session y) (increment (of_both a x) rs)
        ≡ tally (to_session y) rs + (if x == y then 1 else 0)
  increment-session y [] h = cc
  increment-session y (r ∷ rs) h = ground (arith, increment-session y rs)

  increment-IsPositive :
      (rs : List ExternalReference) → IsPositive rs → IsPositive (increment (of_both a x) rs)
  increment-IsPositive [] h = tt
  increment-IsPositive (r ∷ rs) h = ground (arith, increment-IsPositive rs h.1)

  decrement-object :
      (b : ℕ) (rs : List ExternalReference)
      → IsPositive rs
      → any (of_both a x) rs ≡ true
      → tally (to_object b) (decrement (of_both a x) rs) + (if a == b then 1 else 0)
        ≡ tally (to_object b) rs
  decrement-object b [] pos h = cc
  decrement-object b (r ∷ rs) pos h = ground (arith, decrement-object b rs pos.1)

  decrement-session :
      (y : ℕ) (rs : List ExternalReference)
      → IsPositive rs
      → any (of_both a x) rs ≡ true
      → tally (to_session y) (decrement (of_both a x) rs) + (if x == y then 1 else 0)
        ≡ tally (to_session y) rs
  decrement-session y [] pos h = cc
  decrement-session y (r ∷ rs) pos h = ground (arith, decrement-session y rs pos.1)

  decrement-IsPositive :
      (rs : List ExternalReference) → IsPositive rs → IsPositive (decrement (of_both a x) rs)
  decrement-IsPositive [] h = tt
  decrement-IsPositive (r ∷ rs) h = ground (arith, decrement-IsPositive rs h.1)

IsPositive-append :
    (rs qs : List ExternalReference) → IsPositive rs → IsPositive qs → IsPositive (rs ++ qs)
IsPositive-append [] qs h k = k
IsPositive-append (r ∷ rs) qs h k = (h.0, IsPositive-append rs qs h.1 k)

-- References that count one more for `a` and `x`.
pub record OneMore (a x : ℕ) (rs rs' : List ExternalReference) : Type 0 where
  pub more_of_object :
      (b : ℕ) → tally (to_object b) rs' ≡ tally (to_object b) rs + (if a == b then 1 else 0)
  pub more_of_session :
      (y : ℕ) → tally (to_session y) rs' ≡ tally (to_session y) rs + (if x == y then 1 else 0)
  pub still_positive : IsPositive rs'

pub increment-OneMore :
    (a x : ℕ) (rs : List ExternalReference)
    → IsPositive rs
    → any (of_both a x) rs ≡ true
    → OneMore a x rs (increment (of_both a x) rs)
increment-OneMore a x rs pos h = record {
  more_of_object = λ b. increment-object a x b rs h;
  more_of_session = λ y. increment-session a x y rs h;
  still_positive = increment-IsPositive a x rs pos;
}

pub append-OneMore :
    (a x : ℕ) (rs : List ExternalReference)
    → IsPositive rs
    → OneMore a x rs (rs ++ record { object = a; session = x; count = 1 } ∷ [])
append-OneMore a x rs pos =
    let new : ExternalReference = record { object = a; session = x; count = 1 } in
    record {
      more_of_object = λ b. omega (arith, tally-append (to_object b) rs (new ∷ []));
      more_of_session = λ y. omega (arith, tally-append (to_session y) rs (new ∷ []));
      still_positive = IsPositive-append rs (new ∷ []) pos (omega arith, tt);
    }

pub count_up-Inv :
    (a x : ℕ) (rs : List ExternalReference) (pending : List Hold) (s : Store)
    → Inv s pending
    → OneMore a x s.references rs
    → IsLive s a
    → 0 < occurrences x s.sessions
    → Inv (count_up a x rs s) pending
count_up-Inv a x rs pending s v m live session_live = record {
  internal = λ t. ground (arith, v.internal t);
  locks = λ t. ground (arith, v.locks t);
  internal_held = λ t l. ground (arith, v.internal_held t);
  locks_held = λ t l. ground (arith, v.locks_held t);
  held_live = λ t p. ground (arith, v.held_live t);
  once = v.once;
  external = λ b. ground (arith, v.external b, m.more_of_object b);
  typed = λ b u p. ground (arith, v.typed b u);
  session_once = v.session_once;
  of_sessions = λ y. ground (arith, v.of_sessions y, m.more_of_session y);
  positive = m.still_positive;
  external_live = λ b p. ground (arith, v.external_live b, live);
  sessions_live = λ y p. ground (arith, v.sessions_live y, session_live);
}

-- In a store with right counts, `object_add_external_reference` on an object and a session of the
-- inventory keeps the counts right, whether or not a new reference can be allocated.
pub add_external_reference-Inv :
    (a x : ℕ) (memory : Bool) (pending : List Hold) (s : Store)
    → Inv s pending
    → IsLive s a
    → 0 < occurrences x s.sessions
    → Inv (add_external_reference a x memory s).1 pending
unfolding add_external_reference
add_external_reference-Inv a x memory pending s v live session_live =
    elim (Bool-cases (any (of_both a x) s.references)) [
      | inl old ↦ rw old (
          count_up-Inv a x _ pending s v (increment-OneMore a x s.references v.positive old) live
            session_live)
      | inr new ↦ rw new (fresh memory)
    ]
  where
    fresh :
        (m : Bool)
        → Inv
            (if◌then◌else◌ {A = ApiE × Store} m
              (
                success,
                count_up a x (s.references ++ record { object = a; session = x; count = 1 } ∷ []) s,
              )
              (no_free_memory, s)).1
            pending
    fresh true =
        count_up-Inv a x _ pending s v (append-OneMore a x s.references v.positive) live
          session_live
    fresh false = v

-- References that count `n` less for `a` and `x`.
pub record Fewer (a x n : ℕ) (rs rs' : List ExternalReference) : Type 0 where
  pub fewer_of_object :
      (b : ℕ) → tally (to_object b) rs' + (if a == b then n else 0) ≡ tally (to_object b) rs
  pub fewer_of_session :
      (y : ℕ) → tally (to_session y) rs' + (if x == y then n else 0) ≡ tally (to_session y) rs
  pub left_positive : IsPositive rs'

decrement-Fewer :
    (a x : ℕ) (rs : List ExternalReference)
    → IsPositive rs
    → any (of_both a x) rs ≡ true
    → Fewer a x 1 rs (decrement (of_both a x) rs)
decrement-Fewer a x rs pos h = record {
  fewer_of_object = λ b. decrement-object a x b rs pos h;
  fewer_of_session = λ y. decrement-session a x y rs pos h;
  left_positive = decrement-IsPositive a x rs pos;
}

pub count_down-Inv :
    (a x n : ℕ) (rs : List ExternalReference) (pending : List Hold) (s : Store)
    → Inv s pending
    → Fewer a x n s.references rs
    → Inv (count_down a x n (record s { references = rs })) pending
count_down-Inv a x n rs pending s v f = record {
  internal = λ t. ground (arith, v.internal t);
  locks = λ t. ground (arith, v.locks t);
  internal_held = λ t l. ground (arith, v.internal_held t);
  locks_held = λ t l. ground (arith, v.locks_held t);
  held_live = λ t p. ground (arith, v.held_live t);
  once = v.once;
  external = λ b. ground (arith, v.external b, f.fewer_of_object b);
  typed = λ b u p. ground (arith, v.typed b u);
  session_once = v.session_once;
  of_sessions = λ y. ground (arith, v.of_sessions y, f.fewer_of_session y);
  positive = f.left_positive;
  external_live = λ b p. ground (arith, v.external_live b);
  sessions_live = λ y p. ground (arith, v.sessions_live y);
}

-- Without a reference there is none to give up.
decrement-missing :
    (p : ExternalReference → Bool) (rs : List ExternalReference)
    → any p rs ≡ false
    → decrement p rs ≡ rs
decrement-missing p [] h = refl
decrement-missing p (r ∷ rs) h = ground (arith, decrement-missing p rs)

-- A reference that was added last is given up again.
pub decrement-appended :
    (a x : ℕ) (rs : List ExternalReference)
    → any (of_both a x) rs ≡ false
    → decrement (of_both a x) (rs ++ record { object = a; session = x; count = 1 } ∷ []) ≡ rs
decrement-appended a x [] h = rw (==-refl a, ==-refl x) refl
decrement-appended a x (r ∷ rs) h = elim (Bool-cases (r.object == a && r.session == x)) [
  | inl here ↦ absurd (ground (arith, h, here))
  | inr other ↦
      let rest = decrement-appended a x rs (ground (arith, h, other)) in
      rw other (ap (λ ys. r ∷ ys) rest)
]

pub unreferenced-any :
    (a x : ℕ) (rs : List ExternalReference)
    → IsPositive rs
    → tally (to_object a) rs ≡ 0
    → any (of_both a x) rs ≡ false
unreferenced-any a x [] v h = refl
unreferenced-any a x (r ∷ rs) (first, others) h =
    let left : tally (to_object a) rs ≡ 0 = omega (arith, h) in
    let rest = unreferenced-any a x rs others left in
    elim (Bool-cases (r.object == a)) [
      | inl same ↦ absurd (ground (arith, h, first))
      | inr other ↦ rw (other, rest) refl
    ]

module _ (lib : ArrayLib ℕ) where
  -- Giving up an external reference ends, whatever it destroys, and keeps the counts right.
  pub remove_external_reference-Inv :
      (a x : ℕ) (pending : List Hold) (s : Store)
      → Inv s pending
      → (s' : Store) × (remove_external_reference lib a x s ≡ some s')
        × Inv s' pending
        × (size s' ≤ size s)
        × (s'.references ≡ decrement (of_both a x) s.references)
  unfolding remove_external_reference
  remove_external_reference-Inv a x pending s v =
      elim (Bool-cases ((s.object a).external_reference_count == 0)) [
        | inl zero_count ↦
            let unreferenced =
              unreferenced-any a x s.references v.positive
                (sym (v.external a) ∙ ==→eq (s.object a).external_reference_count 0 zero_count) in
            (
              s,
              ground arith,
              v,
              le_refl _,
              sym (decrement-missing (of_both a x) s.references unreferenced),
            )
        | inr some_count ↦ elim (Bool-cases (any (of_both a x) s.references)) [
          | inr missing ↦ (
            s,
            ground arith,
            v,
            le_refl _,
            sym (decrement-missing (of_both a x) s.references missing),
          )
          | inl found ↦
              let s₁ : Store =
                count_down a x 1 (record s { references = decrement (of_both a x) s.references }) in
              let v₁ : Inv s₁ pending =
                count_down-Inv a x 1 _ pending s v
                  (decrement-Fewer a x s.references v.positive found) in
              let live : IsLive s a = v.external_live a (ground arith) in
              elim (Bool-cases (
                (s₁.object a).internal_reference_count == 0
                && (s₁.object a).external_reference_count == 0)) [
                  | inl last ↦
                      let d =
                        remove_object-Settled lib a pending s₁ v₁ (ground arith) (ground arith)
                          (ground (arith, live)) in
                      (d.after, ground (arith, d.returned), d.inv, d.no_larger, d.same_references)
                  | inr more ↦ (s₁, ground arith, v₁, le_refl _, refl)
                ]
        ]
      ]
