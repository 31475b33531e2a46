-- ===== src/Object/Create/Leak.antt =====
-- What a failed `object_create` leaves behind (src/redapid/object.c): the external reference that
-- it has added stays in the session's list, and the caller frees the object.
use red_brick_apid.Base.{
  ℕ, ◌+◌, true, false, not, ◌&&◌, Option, none, some, List, [], ◌∷◌, ◌++◌, arith, ◌≡◌, refl, ◌<◌,
}
use red_brick_apid.ApiError.{Errno, is_success}
use red_brick_apid.Types.{ObjectType}
use red_brick_apid.Store.Arrays.{ArrayLib, tally, tally-append, occurrences}
use red_brick_apid.Store.{Store, Hold, ExternalReference}
use red_brick_apid.Inventory.{add_object, place_object, next_free_id, id_max, object_id_used}
use red_brick_apid.Object.{add_external_reference, any, of_both}
use red_brick_apid.Object.Invariant.{Inv, IsPositive, to_object}
use red_brick_apid.Object.Create.{
  with_header, has_flag, flag_internal, flag_external, flag_locked, Attempts, create_referenced,
  object_create,
}
use red_brick_apid.Object.Create.Invariant.{IsFresh, fresh-IsUnused, add_internal_if, lock_if}

-- A failed `inventory_add_object` has put the object in no array.
add_object-failed :
    (lib : ArrayLib ℕ) (a : ℕ) (failure : Option Errno) (s : Store)
    → is_success (add_object lib a failure s).0 ≡ false
    → ((add_object lib a failure s).1.objects ≡ s.objects)
      × ((add_object lib a failure s).1.references ≡ s.references)
      × (((add_object lib a failure s).1.object a).external_reference_count
          ≡ (s.object a).external_reference_count)
unfolding add_object
add_object-failed lib a failure s bad =
    placed (next_free_id id_max (object_id_used s) s.next_object_id).0 failure
      (next_free_id id_max (object_id_used s) s.next_object_id).1 bad
  where
    placed :
        (r : Option ℕ) (f : Option Errno) (next : ℕ)
        → is_success (place_object lib a f r (record s { next_object_id = next })).0 ≡ false
        → ((place_object lib a f r (record s { next_object_id = next })).1.objects ≡ s.objects)
          × ((place_object lib a f r (record s { next_object_id = next })).1.references
              ≡ s.references)
          × (((place_object lib a f r (record s { next_object_id = next })).1.object
                a).external_reference_count
              ≡ (s.object a).external_reference_count)
    placed none f next bad = (refl, refl, refl)
    placed (some id) (some errno) next bad = (refl, refl, ground arith)
    placed (some id) none next bad = cc

any-none :
    (a x : ℕ) (rs : List ExternalReference)
    → IsPositive rs
    → tally (to_object a) rs ≡ 0
    → any (of_both a x) rs ≡ false
any-none a x [] pos h = refl
any-none a x (r ∷ rs) pos h = ground (arith, any-none a x rs pos.1)

-- The object is referenced and in no array: freeing it leaves a dangling pointer.
pub record Dangles (a : ℕ) (s : Store) : Type 0 where
  pub referenced : 0 < tally (to_object a) s.references
  pub in_no_array : (u : ObjectType) → occurrences a (s.objects u) ≡ 0

module _ (lib : ArrayLib ℕ) (a : ℕ) (t : ObjectType) (x flags : ℕ) (attempts : Attempts) (s : Store)
    (pending : List Hold) where
  abbrev reference : ExternalReference
  reference = record { object = a; session = x; count = 1 }

  referenced_lem :
      tally (to_object a) (s.references ++ reference ∷ []) ≡ tally (to_object a) s.references + 1
  referenced_lem = ground (arith, tally-append (to_object a) s.references (reference ∷ []))

  create_referenced-Dangles :
      Inv s pending
      → IsFresh a s
      → has_flag flags flag_external ≡ true
      → attempts.memory ≡ true
      → is_success (create_referenced lib a flags (some x) attempts (with_header a t s)).0 ≡ false
      → Dangles a (create_referenced lib a flags (some x) attempts (with_header a t s)).1
  unfolding create_referenced add_external_reference
  create_referenced-Dangles v fresh external memory =
      let unused = fresh-IsUnused a pending s v fresh in
      let new = any-none a x s.references v.positive unused.not_referenced in
      rw
        (
          add_internal_if (has_flag flags flag_internal) a (with_header a t s),
          external,
          new,
          memory,
          lock_if,
        )
        λ bad.
          let (objects, references, _) = add_object-failed lib a attempts.append_failure _ bad in
          record {
            referenced = rw references (omega (arith, referenced_lem));
            in_no_array = λ u. rw objects (fresh.in_no_array u);
          }

  passes :
      has_flag flags flag_external ≡ true
      → (has_flag flags flag_locked && not (has_flag flags flag_internal)) ≡ false
      → object_create lib a t (some x) flags attempts s
        ≡ create_referenced lib a flags (some x) attempts (with_header a t s)
  unfolding object_create
  passes external allowed = ground arith

  -- In a store with right counts, an `object_create` for a session with an allowed set of flags
  -- that ask for an external reference, on a fresh cell, for which the reference can be allocated,
  -- and which nevertheless fails, leaves an external reference to the cell, which is in no array of
  -- the inventory.
  pub object_create-Dangles :
      Inv s pending
      → IsFresh a s
      → has_flag flags flag_external ≡ true
      → (has_flag flags flag_locked && not (has_flag flags flag_internal)) ≡ false
      → attempts.memory ≡ true
      → is_success (object_create lib a t (some x) flags attempts s).0 ≡ false
      → Dangles a (object_create lib a t (some x) flags attempts s).1
  object_create-Dangles v fresh external allowed memory =
      rw (passes external allowed) (create_referenced-Dangles v fresh external memory)

-- The counts are not right while a reference dangles.
pub Dangles-not-Inv : (a : ℕ) (s : Store) (pending : List Hold) → Dangles a s → ¬ Inv s pending
Dangles-not-Inv a s pending d v =
    ground (arith, d.referenced, d.in_no_array (s.object a).type, v.external a, v.external_live a)
