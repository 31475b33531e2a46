-- ===== src/Object/Create/Live.antt =====
-- A created object is in the inventory (src/redapid/object.c).
use red_brick_apid.Base.{
  ℕ, true, Option, [], ◌∷◌, arith, ◌==◌, if◌then◌else◌, ◌≡◌, Bool-cases, inl, inr, ==-refl,
}
use red_brick_apid.ApiError.{ApiE, is_success}
use red_brick_apid.Types.{ObjectType}
use red_brick_apid.Store.Arrays.{ArrayLib, tally-append}
use red_brick_apid.Store.{Store, code}
use red_brick_apid.Object.{lock, add_internal_reference}
use red_brick_apid.Object.Invariant.{IsLive}
use red_brick_apid.Inventory.Add.{added, add_object-Added}
use red_brick_apid.Object.Create.{
  Attempts, with_header, has_flag, flag_internal, flag_locked, first_external, create_referenced,
  object_create,
}
use red_brick_apid.Object.Create.Success.{checked}

module _ (lib : ArrayLib ℕ) (a : ℕ) where
  added-IsLive : (s : Store) (id next : ℕ) → IsLive (added lib a s id next) a
  added-IsLive s id next =
      let t : ObjectType = (if a == a then record (s.object a) { id = id } else s.object a).type in
      let more = tally-append (λ c. if c == a then 1 else 0) (s.objects t) (a ∷ []) in
      let here : (code t == code t) ≡ true = ==-refl (code t) in rw here (ground (arith, more))

  create_referenced-IsLive :
      (flags : ℕ) (session : Option ℕ) (attempts : Attempts) (s : Store)
      → is_success (create_referenced lib a flags session attempts s).0 ≡ true
      → IsLive (create_referenced lib a flags session attempts s).1 a
  unfolding create_referenced
  create_referenced-IsLive flags session attempts s ok =
      let s₁ : Store = if has_flag flags flag_internal then add_internal_reference a s else s in
      let r : ApiE × Store = first_external a flags session attempts.memory s₁ in
      elim (Bool-cases (is_success r.0)) [
        | inl good ↦
            let s₂ : Store = if has_flag flags flag_locked then lock a r.1 else r.1 in
            let d =
              add_object-Added lib a s₂ attempts.append_failure
                (rw (good, create_referenced) at ok) in
            rw (create_referenced, good, d.stored) (added-IsLive s₂ d.id d.next)
        | inr bad ↦ absurd (ground (arith, rw (bad, create_referenced) at ok))
      ]

  -- A successful `object_create` puts the object into the array of its type.
  pub object_create-IsLive :
      (t : ObjectType) (session : Option ℕ) (flags : ℕ) (attempts : Attempts) (s : Store)
      → is_success (object_create lib a t session flags attempts s).0 ≡ true
      → IsLive (object_create lib a t session flags attempts s).1 a
  object_create-IsLive t session flags attempts s ok =
      let (_, e) = checked lib a t session flags attempts s ok in
      rw e (create_referenced-IsLive flags session attempts (with_header a t s) (rw e at ok))
