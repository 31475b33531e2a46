-- ===== src/Object/Create/Invariant.antt =====
-- A successful `object_create` keeps the invariant (src/redapid/object.c).
use red_brick_apid.Base.{
  ℕ, ◌+◌, Bool, true, false, not, ◌&&◌, List, [], ◌∷◌, ◌++◌, arith, ◌==◌, if◌then◌else◌, ◌≡◌, refl,
  ◌≤◌, Bool-cases, ==→eq, inl, inr, ap, subst, fun_ext,
}
use red_brick_apid.Types.{ObjectType}
use red_brick_apid.Store.Arrays.{tally, tally-append, occurrences}
use red_brick_apid.Store.{
  Store, code, code-injective, Hold, with_object, with_array, over_objects, over_objects-with_array,
}
use red_brick_apid.Object.{lock, add_internal_reference}
use red_brick_apid.Object.Invariant.{Inv, on, locks_on, held, held_locked, to_object, IsLive}

-- A cell that is in no array, such as `calloc` returns, and that holds nothing.
pub record IsFresh (a : ℕ) (s : Store) : Type 0 where
  pub in_no_array : (u : ObjectType) → occurrences a (s.objects u) ≡ 0
  pub holds_nothing : s.holds a ≡ []

locks_on-le-on : (t : ℕ) (hs : List Hold) → tally (locks_on t) hs ≤ tally (on t) hs
locks_on-le-on t [] = omega arith
locks_on-le-on t (h ∷ hs) = ground (arith, locks_on-le-on t hs)

tally_mono : (f g : ℕ → ℕ) (xs : List ℕ) → ((a : ℕ) → f a ≤ g a) → tally f xs ≤ tally g xs
tally_mono f g [] h = omega arith
tally_mono f g (x ∷ xs) h = omega (arith, h x, tally_mono f g xs h)

held_locked-le-held : (t : ℕ) (s : Store) → held_locked t s ≤ held t s
held_locked-le-held t s =
    let le = λ (u : ObjectType).
      tally_mono (λ a. tally (locks_on t) (s.holds a)) (λ a. tally (on t) (s.holds a)) (s.objects u)
        (λ a. locks_on-le-on t (s.holds a)) in
    omega (
      arith,
      le ObjectType.string,
      le ObjectType.list,
      le ObjectType.file,
      le ObjectType.directory,
      le ObjectType.process,
      le ObjectType.program,
    )

-- Nothing refers to a fresh cell.
pub record IsUnused (a : ℕ) (pending : List Hold) (s : Store) : Type 0 where
  pub not_held : tally (on a) pending + held a s ≡ 0
  pub not_locked : tally (locks_on a) pending + held_locked a s ≡ 0
  pub not_referenced : tally (to_object a) s.references ≡ 0

pub fresh-IsUnused :
    (a : ℕ) (pending : List Hold) (s : Store) → Inv s pending → IsFresh a s → IsUnused a pending s
fresh-IsUnused a pending s v fresh = record {
  not_held = ground (arith, v.held_live a, fresh.in_no_array (s.object a).type);
  not_locked = ground (
    arith,
    v.held_live a,
    fresh.in_no_array (s.object a).type,
    held_locked-le-held a s,
    locks_on-le-on a pending,
  );
  not_referenced =
      ground (arith, v.external_live a, fresh.in_no_array (s.object a).type, v.external a);
}

-- The holds that the creator has been given.
abbrev pub granted : ℕ → Bool → Bool → List Hold → List Hold
granted a internal locked pending =
    if internal then record { target = a; locked = locked } ∷ pending else pending

module _ (a : ℕ) (t : ObjectType) (n id : ℕ) (internal locked : Bool) (s : Store) where
  -- The object in its array, before any external reference.
  abbrev pub born : Store
  born = with_array t (s.objects t ++ a ∷ []) (
      with_object a
        (λ o. record {
          id = id;
          type = t;
          internal_reference_count = if internal then 1 else 0;
          external_reference_count = 0;
          lock_count = if locked then 1 else 0;
        })
        (record s { next_object_id = n }))

  over_objects-born : (f : ℕ → ℕ) → over_objects f born ≡ over_objects f s + f a
  over_objects-born f = omega (
    arith,
    over_objects-with_array f t (s.objects t ++ a ∷ []) s,
    tally-append f (s.objects t) (a ∷ []),
  )

  occurrences-born :
      (b : ℕ) (u : ObjectType)
      → occurrences b (born.objects u)
        ≡ occurrences b (s.objects u) + (if a == b && code u == code t then 1 else 0)
  occurrences-born b u = elim (Bool-cases (code u == code t)) [
    | inl same ↦
        let array : s.objects u ≡ s.objects t = ap s.objects (code-injective u t same) in
        let grown = tally-append (λ c. if c == b then 1 else 0) (s.objects t) (a ∷ []) in
        rw (same, array) (ground (arith, grown))
    | inr other ↦ rw other (ground arith)
  ]

  pub born-IsLive : IsLive born a
  born-IsLive = ground (arith, occurrences-born a t)

  module _ (pending : List Hold) (v : Inv s pending) (fresh : IsFresh a s)
      (unused : IsUnused a pending s) where
    stays-IsLive : (b : ℕ) → (a == b) ≡ false → IsLive s b → IsLive born b
    stays-IsLive b ne l = ground (arith, occurrences-born b (s.object b).type, l)

    nothing_held : (f : List Hold → ℕ) → f [] ≡ 0 → f (s.holds a) ≡ 0
    nothing_held f z = rw fresh.holds_nothing z

    nowhere : (b : ℕ) → (a == b) ≡ true → over_objects (λ c. if c == b then 1 else 0) s ≡ 0
    nowhere b e =
        let absent = λ (u : ObjectType).
          subst (λ c. occurrences c (s.objects u) ≡ 0) (==→eq a b e) (fresh.in_no_array u) in
        omega (
          arith,
          absent ObjectType.string,
          absent ObjectType.list,
          absent ObjectType.file,
          absent ObjectType.directory,
          absent ObjectType.process,
          absent ObjectType.program,
        )

    locked_once :
        (u : ℕ)
        → (a == u) ≡ true
        → (locked && not internal) ≡ false
        → (born.object u).lock_count
          ≤ tally (locks_on u) (granted a internal locked pending) + held_locked u born
    locked_once u here allowed = ground arith

    pub born-Inv : ((locked && not internal) ≡ false) → Inv born (granted a internal locked pending)
    born-Inv allowed =
        let same = λ (u : ℕ). over_objects-born (λ b. tally (on u) (s.holds b)) in
        let nothing = λ (u : ℕ). nothing_held (tally (on u)) refl in
        let same_locked = λ (u : ℕ). over_objects-born (λ b. tally (locks_on u) (s.holds b)) in
        let nothing_locked = λ (u : ℕ). nothing_held (tally (locks_on u)) refl in
        record {
          internal = λ u. ground (arith, v.internal u, unused.not_held, same u, nothing u);
          locks =
              λ u. ground (arith, v.locks u, unused.not_locked, same_locked u, nothing_locked u);
          internal_held = λ u l. elim (Bool-cases (a == u)) [
            | inl here ↦ ground arith
            | inr ne ↦
                ground (
                  arith,
                  v.internal_held u,
                  same u,
                  nothing u,
                  occurrences-born u (s.object u).type,
                )
          ];
          locks_held = λ u l. elim (Bool-cases (a == u)) [
            | inl here ↦ locked_once u here allowed
            | inr ne ↦ ground (
              arith,
              v.locks_held u,
              same_locked u,
              nothing_locked u,
              occurrences-born u (s.object u).type,
            )
          ];
          held_live = λ u p. elim (Bool-cases (a == u)) [
            | inl here ↦ subst (IsLive born) (==→eq a u here) born-IsLive
            | inr ne ↦ stays-IsLive u ne (v.held_live u (ground (arith, p, same u, nothing u)))
          ];
          once = λ b.
              ground (arith, v.once b, over_objects-born (λ c. if c == b then 1 else 0), nowhere b);
          external = λ b. ground (arith, v.external b, unused.not_referenced);
          typed = λ b u p. elim (Bool-cases (a == b)) [
            | inl here ↦ subst (IsLive born) (==→eq a b here) born-IsLive
            | inr ne ↦ stays-IsLive b ne (v.typed b u (ground (arith, p, occurrences-born b u)))
          ];
          session_once = v.session_once;
          of_sessions = v.of_sessions;
          positive = v.positive;
          external_live = λ b p. elim (Bool-cases (a == b)) [
            | inl here ↦ absurd (ground arith)
            | inr ne ↦ stays-IsLive b ne (v.external_live b (ground arith))
          ];
          sessions_live = v.sessions_live;
        }

-- A flag decides whether a count is raised.
pub add_internal_if :
    (b : Bool) (a : ℕ) (s : Store)
    → (if b then add_internal_reference a s else s)
      ≡ with_object a
          (λ o. record o {
            internal_reference_count = o.internal_reference_count + (if b then 1 else 0);
          })
          s
unfolding add_internal_reference
add_internal_if true a s = refl
add_internal_if false a s = ap (λ f. record s { object = f }) (fun_ext λ b. ground arith)

pub lock_if :
    (b : Bool) (a : ℕ) (s : Store)
    → (if b then lock a s else s)
      ≡ with_object a (λ o. record o { lock_count = o.lock_count + (if b then 1 else 0) }) s
unfolding lock
lock_if true a s = refl
lock_if false a s = ap (λ f. record s { object = f }) (fun_ext λ b. ground arith)
