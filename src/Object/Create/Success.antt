-- ===== src/Object/Create/Success.antt =====
-- A successful `object_create`, flag by flag (src/redapid/object.c).
use red_brick_apid.Base.{
  ℕ, ◌+◌, Bool, true, false, not, ◌&&◌, Option, none, some, List, [], ◌∷◌, ◌++◌, arith,
  if◌then◌else◌, ◌≡◌, ◌<◌, Bool-cases, inl, inr, fun_ext,
}
use mathlib.Core.Bool.{false≢true}
use red_brick_apid.ApiError.{Errno, is_success}
use red_brick_apid.Types.{ObjectType}
use red_brick_apid.Store.Arrays.{ArrayLib, occurrences}
use red_brick_apid.Store.{Store, Hold, ExternalReference, with_object, with_session, with_array}
use red_brick_apid.Inventory.{add_object}
use red_brick_apid.Inventory.Add.{added, add_object-Added}
use red_brick_apid.Object.{add_external_reference, count_up, any, of_both}
use red_brick_apid.Object.Invariant.{Inv}
use red_brick_apid.Object.References.{OneMore, count_up-Inv, increment-OneMore, append-OneMore}
use red_brick_apid.Object.Create.{
  with_header, has_flag, flag_internal, flag_external, flag_locked, Attempts, create_referenced,
  object_create, is_some,
}
use red_brick_apid.Object.Create.Invariant.{
  IsFresh, IsUnused, fresh-IsUnused, granted, born, born-IsLive, born-Inv, add_internal_if, lock_if,
}

module _ (lib : ArrayLib ℕ) (a : ℕ) (t : ObjectType) (internal locked : Bool) (s : Store)
    (pending : List Hold) (v : Inv s pending) (fresh : IsFresh a s)
    (allowed : (locked && not internal) ≡ false) where
  -- The header with the counts that the flags ask for.
  abbrev pub counted : Store
  counted =
      with_object a
        (λ o. record o {
          internal_reference_count = o.internal_reference_count + (if internal then 1 else 0);
        })
        (with_header a t s)

  abbrev pub with_lock : Store → Store
  with_lock =
      with_object a (λ o. record o { lock_count = o.lock_count + (if locked then 1 else 0) })

  added-born :
      (id next : ℕ) → added lib a (with_lock counted) id next ≡ born a t next id internal locked s
  added-born id next =
      let s' : Store = with_object a (λ o. record o { id = id }) (with_lock counted) in
      let same_type : (s'.object a).type ≡ t = ground arith in
      let same_object : s'.object ≡ (born a t next id internal locked s).object =
        fun_ext λ b. ground arith in
      λ i.
        with_array (same_type i) (s.objects (same_type i) ++ a ∷ [])
          (record s { object = same_object i; next_object_id = next })

  added-count_up :
      (x id next : ℕ) (rs : List ExternalReference)
      → added lib a (with_lock (count_up a x rs counted)) id next
        ≡ count_up a x rs (born a t next id internal locked s)
  added-count_up x id next rs =
      let s' : Store =
        with_object a (λ o. record o { id = id }) (with_lock (count_up a x rs counted)) in
      let same_type : (s'.object a).type ≡ t = ground arith in
      let same_object : s'.object ≡ (count_up a x rs (born a t next id internal locked s)).object =
        fun_ext λ b. ground arith in
      λ i. with_array (same_type i) (s.objects (same_type i) ++ a ∷ []) (
        with_session x (λ e. record e { external_reference_count = e.external_reference_count + 1 })
          (record s { object = same_object i; references = rs; next_object_id = next }))

  unused : IsUnused a pending s
  unused = fresh-IsUnused a pending s v fresh

  pub added-Inv :
      (failure : Option Errno)
      → is_success (add_object lib a failure (with_lock counted)).0 ≡ true
      → Inv (add_object lib a failure (with_lock counted)).1 (granted a internal locked pending)
  added-Inv failure ok =
      let d = add_object-Added lib a (with_lock counted) failure ok in
      rw (d.stored, added-born d.id d.next)
        (born-Inv a t d.next d.id internal locked s pending v fresh unused allowed)

  pub added-referenced-Inv :
      (x : ℕ) (rs : List ExternalReference) (failure : Option Errno)
      → OneMore a x s.references rs
      → 0 < occurrences x s.sessions
      → is_success (add_object lib a failure (with_lock (count_up a x rs counted))).0 ≡ true
      → Inv
          (add_object lib a failure (with_lock (count_up a x rs counted))).1
          (granted a internal locked pending)
  added-referenced-Inv x rs failure more session_live ok =
      let d = add_object-Added lib a (with_lock (count_up a x rs counted)) failure ok in
      rw (d.stored, added-count_up x d.id d.next rs)
        (count_up-Inv a x rs _ (born a t d.next d.id internal locked s)
          (born-Inv a t d.next d.id internal locked s pending v fresh unused allowed) more
          (born-IsLive a t d.next d.id internal locked s) session_live)

-- The session, if there is one, is known.
abbrev pub IsSession : Option ℕ → Store → Type 0
IsSession none s = Unit {0}
IsSession (some x) s = 0 < occurrences x s.sessions

module _ (lib : ArrayLib ℕ) (a : ℕ) (t : ObjectType) (flags : ℕ) (attempts : Attempts) (s : Store)
    (pending : List Hold) (v : Inv s pending) (fresh : IsFresh a s)
    (allowed : (has_flag flags flag_locked && not (has_flag flags flag_internal)) ≡ false) where
  abbrev Goal : Option ℕ → Type 0
  Goal session =
      is_success (create_referenced lib a flags session attempts (with_header a t s)).0 ≡ true
      → Inv (create_referenced lib a flags session attempts (with_header a t s)).1
          (granted a (has_flag flags flag_internal) (has_flag flags flag_locked) pending)

  create_unreferenced : Goal none
  unfolding create_referenced
  create_unreferenced =
      rw (add_internal_if (has_flag flags flag_internal) a (with_header a t s), lock_if)
        (added-Inv lib a t (has_flag flags flag_internal) (has_flag flags flag_locked) s pending v
          fresh allowed attempts.append_failure)

  create_for_session : (x : ℕ) → 0 < occurrences x s.sessions → Goal (some x)
  unfolding create_referenced add_external_reference
  create_for_session x live = elim (Bool-cases (has_flag flags flag_external)) [
    | inr internal_only ↦
        rw
          (
            add_internal_if (has_flag flags flag_internal) a (with_header a t s),
            internal_only,
            lock_if,
          )
          (added-Inv lib a t (has_flag flags flag_internal) (has_flag flags flag_locked) s pending v
            fresh allowed attempts.append_failure)
    | inl referenced ↦ elim (Bool-cases (any (of_both a x) s.references)) [
      | inl old ↦
          rw
            (
              add_internal_if (has_flag flags flag_internal) a (with_header a t s),
              referenced,
              old,
              lock_if,
            )
            (added-referenced-Inv lib a t (has_flag flags flag_internal)
              (has_flag flags flag_locked) s pending v fresh allowed x _ attempts.append_failure
              (increment-OneMore a x s.references v.positive old) live)
      | inr new ↦ elim (Bool-cases attempts.memory) [
        | inl enough ↦
            rw
              (
                add_internal_if (has_flag flags flag_internal) a (with_header a t s),
                referenced,
                new,
                enough,
                lock_if,
              )
              (added-referenced-Inv lib a t (has_flag flags flag_internal)
                (has_flag flags flag_locked) s pending v fresh allowed x _ attempts.append_failure
                (append-OneMore a x s.references v.positive) live)
        | inr short ↦
            rw
              (
                add_internal_if (has_flag flags flag_internal) a (with_header a t s),
                referenced,
                new,
                short,
              )
              (λ ok. cc)
      ]
    ]
  ]

-- What the checks of the flags let through.
pub checked :
    (lib : ArrayLib ℕ) (a : ℕ) (t : ObjectType) (session : Option ℕ) (flags : ℕ)
    (attempts : Attempts) (s : Store)
    → is_success (object_create lib a t session flags attempts s).0 ≡ true
    → ((has_flag flags flag_locked && not (has_flag flags flag_internal)) ≡ false)
      × (object_create lib a t session flags attempts s
          ≡ create_referenced lib a flags session attempts (with_header a t s))
unfolding object_create
checked lib a t session flags attempts s ok =
    elim (Bool-cases (not (has_flag flags flag_internal) && not (has_flag flags flag_external))) [
      | inl bad ↦ absurd (false≢true (rw (bad, object_create) at ok))
      | inr some_flag ↦ elim (Bool-cases (has_flag flags flag_external && not (is_some session))) [
        | inl bad ↦ absurd (false≢true (rw (some_flag, bad, object_create) at ok))
        | inr has_session ↦
            elim (Bool-cases (has_flag flags flag_locked && not (has_flag flags flag_internal))) [
              | inl bad ↦
                  absurd (false≢true (rw (some_flag, has_session, bad, object_create) at ok))
              | inr fine ↦ (fine, rw (some_flag, has_session, fine))
            ]
      ]
    ]

-- In a store with right counts, an `object_create` that answers success on a fresh cell, for a
-- session of the inventory or for none, keeps the counts right, with the internal reference and the
-- lock that the flags ask for given to the caller.
pub object_create-Inv :
    (lib : ArrayLib ℕ) (a : ℕ) (t : ObjectType) (session : Option ℕ) (flags : ℕ)
    (attempts : Attempts) (s : Store) (pending : List Hold)
    → Inv s pending
    → IsFresh a s
    → IsSession session s
    → is_success (object_create lib a t session flags attempts s).0 ≡ true
    → Inv
        (object_create lib a t session flags attempts s).1
        (granted a (has_flag flags flag_internal) (has_flag flags flag_locked) pending)
object_create-Inv lib a t none flags attempts s pending v fresh live ok =
    let (allowed, e) = checked lib a t none flags attempts s ok in
    rw e (create_unreferenced lib a t flags attempts s pending v fresh allowed (rw e at ok))
object_create-Inv lib a t (some x) flags attempts s pending v fresh live ok =
    let (allowed, e) = checked lib a t (some x) flags attempts s ok in
    rw e (create_for_session lib a t flags attempts s pending v fresh allowed x live (rw e at ok))
