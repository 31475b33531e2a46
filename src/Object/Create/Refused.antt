-- ===== src/Object/Create/Refused.antt =====
-- A failed `object_create` without an external reference (src/redapid/object.c) leaves nothing
-- behind.
use red_brick_apid.Base.{
  ℕ, ◌+◌, Bool, true, false, not, ◌&&◌, Option, none, some, List, arith, if◌then◌else◌, ◌≡◌, refl,
  Bool-cases, inl, inr,
}
use red_brick_apid.ApiError.{Errno, is_success, success}
use red_brick_apid.Types.{ObjectType, Object}
use red_brick_apid.Store.Arrays.{ArrayLib}
use red_brick_apid.Store.{Store, Hold, with_object}
use red_brick_apid.Inventory.{add_object, place_object, next_free_id, id_max, object_id_used}
use red_brick_apid.Object.{lock, add_internal_reference}
use red_brick_apid.Object.Invariant.{Inv}
use red_brick_apid.Object.Create.{
  with_header, has_flag, flag_internal, flag_external, flag_locked, Attempts, create_referenced,
  object_create, first_external,
}
use red_brick_apid.Object.Create.Invariant.{IsFresh, fresh-IsUnused}

-- The counts are right, and the cell is still of no object.
pub record Kept (a : ℕ) (pending : List Hold) (s : Store) : Type 0 where
  pub inv : Inv s pending
  pub fresh : IsFresh a s
  pub none_external : (s.object a).external_reference_count ≡ 0

module _ (a : ℕ) (pending : List Hold) where
  -- What is written to the header of a cell that is in no array.
  touched-Inv :
      (f : Object → Object) (s : Store)
      → Inv s pending
      → IsFresh a s
      → (f (s.object a)).external_reference_count ≡ 0
      → Inv (with_object a f s) pending
  touched-Inv f s v fresh z =
      let unused = fresh-IsUnused a pending s v fresh in
      record {
        internal = λ t. ground (arith, v.internal t, unused.not_held);
        locks = λ t. ground (arith, v.locks t, unused.not_locked);
        internal_held =
            λ t l. ground (arith, v.internal_held t, fresh.in_no_array (f (s.object a)).type, l);
        locks_held =
            λ t l. ground (arith, v.locks_held t, fresh.in_no_array (f (s.object a)).type, l);
        held_live = λ t p. ground (arith, v.held_live t, unused.not_held);
        once = v.once;
        external = λ b. ground (arith, v.external b, unused.not_referenced, z);
        of_sessions = v.of_sessions;
        positive = v.positive;
        external_live = λ b p. ground (arith, v.external_live b, z);
        typed = λ b u p. ground (arith, v.typed b u, fresh.in_no_array u);
        session_once = v.session_once;
        sessions_live = v.sessions_live;
      }

  next-Kept :
      (n : ℕ) (s : Store) → Kept a pending s → Kept a pending (record s { next_object_id = n })
  next-Kept n s k =
      let v = k.inv in
      record {
        inv = record {
          internal = v.internal;
          locks = v.locks;
          internal_held = v.internal_held;
          locks_held = v.locks_held;
          held_live = v.held_live;
          once = v.once;
          external = v.external;
          of_sessions = v.of_sessions;
          positive = v.positive;
          external_live = v.external_live;
          typed = v.typed;
          session_once = v.session_once;
          sessions_live = v.sessions_live;
        };
        fresh = record { in_no_array = k.fresh.in_no_array; holds_nothing = k.fresh.holds_nothing };
        none_external = k.none_external;
      }

  touched-Kept :
      (f : Object → Object) (s : Store)
      → Inv s pending
      → IsFresh a s
      → (f (s.object a)).external_reference_count ≡ 0
      → Kept a pending (with_object a f s)
  touched-Kept f s v fresh z = record {
    inv = touched-Inv f s v fresh z;
    fresh = record { in_no_array = fresh.in_no_array; holds_nothing = fresh.holds_nothing };
    none_external = ground (arith, z);
  }

  internal_if-Kept :
      (b : Bool) (s : Store)
      → Kept a pending s
      → Kept a pending (if b then add_internal_reference a s else s)
  unfolding add_internal_reference
  internal_if-Kept true s k =
      touched-Kept (λ o. record o { internal_reference_count = o.internal_reference_count + 1 }) s
        k.inv k.fresh k.none_external
  internal_if-Kept false s k = k

  lock_if-Kept :
      (b : Bool) (s : Store) → Kept a pending s → Kept a pending (if b then lock a s else s)
  unfolding lock
  lock_if-Kept true s k =
      touched-Kept (λ o. record o { lock_count = o.lock_count + 1 }) s k.inv k.fresh k.none_external
  lock_if-Kept false s k = k

  module _ (lib : ArrayLib ℕ) where
    placed-Kept :
        (failure : Option Errno) (id : Option ℕ) (s : Store)
        → Kept a pending s
        → is_success (place_object lib a failure id s).0 ≡ false
        → Kept a pending (place_object lib a failure id s).1
    unfolding place_object
    placed-Kept failure none s k bad = k
    placed-Kept (some errno) (some id) s k bad =
        touched-Kept (λ o. record o { id = id }) s k.inv k.fresh k.none_external
    placed-Kept none (some id) s k bad = cc

    first_external-none :
        (flags : ℕ) (session : Option ℕ) (memory : Bool) (s : Store)
        → has_flag flags flag_external ≡ false
        → first_external a flags session memory s ≡ (success, s)
    first_external-none flags none memory s h = refl
    first_external-none flags (some x) memory s h = rw h refl

    create_referenced-Kept :
        (flags : ℕ) (session : Option ℕ) (attempts : Attempts) (s : Store)
        → Kept a pending s
        → has_flag flags flag_external ≡ false
        → is_success (create_referenced lib a flags session attempts s).0 ≡ false
        → Kept a pending (create_referenced lib a flags session attempts s).1
    unfolding create_referenced add_object
    create_referenced-Kept flags session attempts s k internal_only bad =
        let s₁ : Store = if has_flag flags flag_internal then add_internal_reference a s else s in
        let s₂ : Store = if has_flag flags flag_locked then lock a s₁ else s₁ in
        let alone = first_external-none flags session attempts.memory s₁ internal_only in
        let k₂ =
          lock_if-Kept (has_flag flags flag_locked) s₁
            (internal_if-Kept (has_flag flags flag_internal) s k) in
        let (id, next) = next_free_id id_max (object_id_used s₂) s₂.next_object_id in
        rw (create_referenced, alone)
          (placed-Kept attempts.append_failure id _ (next-Kept next s₂ k₂)
            (rw (create_referenced, alone) at bad))

    -- A failed `object_create` without an external reference leaves the counts as they were.
    pub object_create-Kept :
        (t : ObjectType) (session : Option ℕ) (flags : ℕ) (attempts : Attempts) (s : Store)
        → Inv s pending
        → IsFresh a s
        → has_flag flags flag_external ≡ false
        → is_success (object_create lib a t session flags attempts s).0 ≡ false
        → Kept a pending (object_create lib a t session flags attempts s).1
    unfolding object_create
    object_create-Kept t session flags attempts s v fresh internal_only bad =
        let k =
          touched-Kept
            (λ o. record {
              id = 0;
              type = t;
              internal_reference_count = 0;
              external_reference_count = 0;
              lock_count = 0;
            })
            s v fresh refl in
        elim (Bool-cases
          (not (has_flag flags flag_internal) && not (has_flag flags flag_external))) [
            | inl no_flag ↦ rw (object_create, no_flag) k
            | inr some_flag ↦
                elim (Bool-cases
                  (has_flag flags flag_locked && not (has_flag flags flag_internal))) [
                    | inl wrong ↦ rw (object_create, some_flag, internal_only, wrong) k
                    | inr fine ↦
                        rw (object_create, some_flag, internal_only, fine)
                          (create_referenced-Kept flags session attempts (with_header a t s) k
                            internal_only
                            (rw (object_create, some_flag, internal_only, fine) at bad))
                  ]
          ]
