-- ===== src/Object/Client.antt =====
-- What a client can do to an object with `object_release` (src/redapid/object.c): give back what
-- its session owns, and nothing that the daemon itself holds.
use red_brick_apid.Base.{
  ℕ, ◌+◌, Option, some, arith, ◌==◌, ◌≡◌, refl, ◌≤◌, ◌<◌, Bool-cases, inl, inr, List,
}
use red_brick_apid.ApiError.{ApiE, success, invalid_operation}
use red_brick_apid.Store.Arrays.{ArrayLib}
use red_brick_apid.Store.{Store, Hold}
use red_brick_apid.Object.{
  any, of_both, count_down, decrement, remove_external_reference, client_release,
}
use red_brick_apid.Object.Invariant.{Inv}
use red_brick_apid.Object.References.{remove_external_reference-Inv}

module _ (lib : ArrayLib ℕ) (a x : ℕ) (s : Store) where
  -- Nothing is destroyed, and no internal reference or lock is taken away.
  pub record Protected (result : Option (ApiE × Store)) : Type 0 where
    pub answer : ApiE
    pub after : Store
    pub returned : result ≡ some (answer, after)
    pub same_objects : after.objects ≡ s.objects
    pub same_internal :
        (b : ℕ) → (after.object b).internal_reference_count ≡ (s.object b).internal_reference_count
    pub same_locks : (b : ℕ) → (after.object b).lock_count ≡ (s.object b).lock_count
    pub at_most_one :
        (b : ℕ)
        → (s.object b).external_reference_count ≤ (after.object b).external_reference_count + 1

  -- `object_release` on an object with an internal reference returns, destroys nothing, takes no
  -- internal reference and no lock away from any object, and takes at most one external reference.
  pub client_release-Protected :
      0 < (s.object a).internal_reference_count → Protected (client_release lib a x s)
  unfolding client_release remove_external_reference
  client_release-Protected in_use = elim (Bool-cases ((s.object a).external_reference_count == 0)) [
    | inl unowned ↦ record {
      answer = invalid_operation;
      after = s;
      returned = ground arith;
      same_objects = refl;
      same_internal = λ b. refl;
      same_locks = λ b. refl;
      at_most_one = λ b. omega arith;
    }
    | inr owned ↦ elim (Bool-cases (any (of_both a x) s.references)) [
      | inr foreign ↦ record {
        answer = success;
        after = s;
        returned = ground arith;
        same_objects = refl;
        same_internal = λ b. refl;
        same_locks = λ b. refl;
        at_most_one = λ b. omega arith;
      }
      | inl mine ↦ record {
        answer = success;
        after = count_down a x 1 (record s { references = decrement (of_both a x) s.references });
        returned = ground arith;
        same_objects = refl;
        same_internal = λ b. ground arith;
        same_locks = λ b. ground arith;
        at_most_one = λ b. ground arith;
      }
    ]
  ]

  -- In a store with right counts, `object_release` on any object for any session returns, whatever
  -- it destroys, and keeps the counts right.
  pub client_release-Inv :
      (pending : List Hold)
      → Inv s pending
      → (r : ApiE × Store) × (client_release lib a x s ≡ some r) × Inv r.1 pending
  unfolding client_release
  client_release-Inv pending v = elim (Bool-cases ((s.object a).external_reference_count == 0)) [
    | inl unowned ↦ ((invalid_operation, s), ground arith, v)
    | inr owned ↦
        let (s', e, v', _, _) = remove_external_reference-Inv lib a x pending s v in
        ((success, s'), ground (arith, e), v')
  ]
