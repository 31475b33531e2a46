-- ===== src/Object.antt =====
-- src/redapid/object.c, with the removal from the inventory (src/redapid/inventory.c) and the
-- destroy functions that it calls back: the reference and lock counts, and the cascade of
-- destructions.
pub mod Invariant
pub mod Client
pub mod Frame
pub mod Create
pub mod References
pub mod Removal
pub mod Cascade
pub mod Undo
use red_brick_apid.Base.{
  ℕ, zero, suc, ◌+◌, ◌-◌, Bool, true, false, ◌&&◌, ◌||◌, Option, none, some, List, [], ◌∷◌, ◌++◌,
  arith, ltb, ◌==◌, if◌then◌else◌, ◌≡◌, refl, ◌≤◌, ◌<◌,
}
use red_brick_apid.ApiError.{ApiE, success, invalid_operation, no_free_memory}
use red_brick_apid.Types.{
  ObjectType, Object, String, string, list, file, directory, process, program,
}
use red_brick_apid.Store.Arrays.{ArrayLib, index_of, tally}
use red_brick_apid.Store.{
  Store, Hold, ExternalReference, Session, with_object, with_session, with_array, size,
}

-- `object_lock`
unfoldable pub lock : ℕ → Store → Store
lock a = with_object a (λ o. record o { lock_count = o.lock_count + 1 })

-- `object_unlock`
unfoldable pub unlock : ℕ → Store → Store
unlock a s =
    if (s.object a).lock_count == 0
    then s
    else with_object a (λ o. record o { lock_count = o.lock_count - 1 }) s

-- `object_add_internal_reference`
unfoldable pub add_internal_reference : ℕ → Store → Store
add_internal_reference a =
    with_object a (λ o. record o { internal_reference_count = o.internal_reference_count + 1 })

abbrev pub of_object : ℕ → ExternalReference → Bool
of_object a r = r.object == a

abbrev pub of_session : ℕ → ExternalReference → Bool
of_session x r = r.session == x

-- The reference of an object to a session.
abbrev pub of_both : ℕ → ℕ → ExternalReference → Bool
of_both a x r = r.object == a && r.session == x

abbrev pub any : (ExternalReference → Bool) → List ExternalReference → Bool
any p [] = false
any p (r ∷ rs) = p r || any p rs

-- `r->count + 1` at the first reference that fits.
abbrev pub increment : (ExternalReference → Bool) → List ExternalReference → List ExternalReference
increment p [] = []
increment p (r ∷ rs) = if p r then record r { count = r.count + 1 } ∷ rs else r ∷ increment p rs

-- `r->count - 1` there; the reference is unlinked and freed when nothing is left of it.
abbrev pub decrement : (ExternalReference → Bool) → List ExternalReference → List ExternalReference
decrement p [] = []
decrement p (r ∷ rs) =
    if p r
    then (if r.count - 1 == 0 then rs else record r { count = r.count - 1 } ∷ rs)
    else r ∷ decrement p rs

-- One more external reference of `a`, of `x`, with `refs` for the references.
abbrev pub count_up : ℕ → ℕ → List ExternalReference → Store → Store
count_up a x refs s =
    with_session x (λ e. record e { external_reference_count = e.external_reference_count + 1 })
      (with_object a (λ o. record o { external_reference_count = o.external_reference_count + 1 })
        (record s { references = refs }))

-- `n` external references of `a`, of `x`, fewer.
abbrev pub count_down : ℕ → ℕ → ℕ → Store → Store
count_down a x n s =
    with_session x (λ e. record e { external_reference_count = e.external_reference_count - n })
      (with_object a (λ o. record o { external_reference_count = o.external_reference_count - n })
        s)

-- `object_add_external_reference`; `memory` says whether a new reference can be allocated.
unfoldable pub add_external_reference : ℕ → ℕ → Bool → Store → ApiE × Store
add_external_reference a x memory s =
    if any (of_both a x) s.references
    then (success, count_up a x (increment (of_both a x) s.references) s)
    else if memory
    then (
      success,
      count_up a x (s.references ++ record { object = a; session = x; count = 1 } ∷ []) s,
    )
    else (no_free_memory, s)

-- The references that do not fit.
abbrev pub without : (ExternalReference → Bool) → List ExternalReference → List ExternalReference
without p [] = []
without p (r ∷ rs) = if p r then without p rs else r ∷ without p rs

abbrev pub drop_counts : ℕ → List ExternalReference → Store → Store
drop_counts a [] s = s
drop_counts a (r ∷ rs) s =
    drop_counts a rs (if of_object a r then count_down r.object r.session r.count s else s)

-- The loop of `object_destroy`: each reference of the object is unlinked and freed.
unfoldable pub detach : ℕ → Store → Store
detach a s =
    drop_counts a s.references (record s { references = without (of_object a) s.references })

-- A destroy function: each hold is unlocked and released, in order.
unfoldable pub give_back : (ℕ → Store → Option Store) → List Hold → Store → Option Store
give_back release [] s = some s
give_back release (h ∷ hs) s = elim (release h.target (if h.locked then unlock h.target s else s)) [
  | none ↦ none
  | some s' ↦ give_back release hs s'
]

-- `object_destroy`: what the object holds is given back, in the order of its destroy function. A
-- program object's holds are those of its configuration and its scheduler; that the scheduler is shut
-- down first is in Scheduler/Destruction, and assumed to find a timer here that it can stop.
unfoldable pub destroy_with : (ℕ → Store → Option Store) → ℕ → Store → Option Store
destroy_with release a s = give_back release (s.holds a) (detach a s)

module _ (lib : ArrayLib ℕ) where
  -- `inventory_remove_object`: the object leaves its array and is destroyed. The destroy function is
  -- given to daemonlib's `array_remove`; it is assumed to call it when the item has left the array.
  unfoldable pub remove_object_with : (ℕ → Store → Option Store) → ℕ → Store → Option Store
  remove_object_with release a s =
      let t = (s.object a).type in
      elim (index_of a (s.objects t)) [
        | none ↦ some s
        | some i ↦ destroy_with release a (with_array t (lib.remove (s.objects t) i) s)
      ]

  -- `object_remove_internal_reference`; destroying an object can release others, on less fuel.
  unfoldable pub release : ℕ → ℕ → Store → Option Store
  release zero a s = none
  release (suc fuel) a s =
      if (s.object a).internal_reference_count == 0
      then some s
      else let s' =
          with_object a
            (λ o. record o { internal_reference_count = o.internal_reference_count - 1 }) s in
        if (s'.object a).internal_reference_count == 0
          && (s'.object a).external_reference_count == 0
        then remove_object_with (release fuel) a s'
        else some s'

  -- The fuel is one more than the number of objects that there are to destroy.
  unfoldable pub remove_internal_reference : ℕ → Store → Option Store
  remove_internal_reference a s = release (suc (size s)) a s

  unfoldable pub remove_object : ℕ → Store → Option Store
  remove_object a s = remove_object_with (release (suc (size s))) a s

  -- `object_remove_external_reference`
  unfoldable pub remove_external_reference : ℕ → ℕ → Store → Option Store
  remove_external_reference a x s =
      if (s.object a).external_reference_count == 0
      then some s
      else if any (of_both a x) s.references
      then (let s' =
            count_down a x 1 (record s { references = decrement (of_both a x) s.references }) in
          if (s'.object a).internal_reference_count == 0
            && (s'.object a).external_reference_count == 0
          then remove_object a s'
          else some s')
      else some s

  -- `object_release`, and the error code that the client is sent.
  unfoldable pub client_release : ℕ → ℕ → Store → Option (ApiE × Store)
  client_release a x s =
      if (s.object a).external_reference_count == 0
      then some (invalid_operation, s)
      else elim (remove_external_reference a x s) [ none ↦ none | some s' ↦ some (success, s') ]
