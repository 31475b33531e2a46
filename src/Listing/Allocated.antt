-- ===== src/Listing/Allocated.antt =====
-- The new list of a listing (`list_allocate` in src/redapid/list.c, as src/redapid/inventory.c calls it).
use red_brick_apid.Base.{
  subst, ==→eq, sym, ap, ◌∙◌, ==-refl, ℕ, Bool, true, false, some, List, [], arith, ◌==◌,
  if◌then◌else◌, ◌≡◌, refl, ◌<◌, Bool-cases, Option-cases, inl, inr, ◌≤◌, ◌∙◌, sym, ap, ==-refl,
}
use red_brick_apid.ApiError.{ApiE, is_success, get_error_code_from_errno-fails}
use red_brick_apid.Types.{ObjectType, list}
use red_brick_apid.Store.Arrays.{ArrayLib, occurrences}
use red_brick_apid.Store.{Store, code, Hold, update, over_objects, occurrences-le-all}
use red_brick_apid.Object.{decrement, of_both}
use red_brick_apid.Object.Invariant.{Inv, IsLive}
use red_brick_apid.Object.References.{unreferenced-any}
use red_brick_apid.Object.Create.{flag_external, object_create}
use red_brick_apid.Object.Create.Cell.{InNoArray, written-Inv, written-IsFresh}
use red_brick_apid.Object.Create.Success.{object_create-Inv}
use red_brick_apid.Object.Create.Live.{object_create-IsLive}
use red_brick_apid.ListObject.{ListAttempts, allocate, with_items}
use red_brick_apid.Object.Frame.{object_create-SameBodies}
use red_brick_apid.Inventory.Unique.{UniqueIds}
use red_brick_apid.Listing.Fresh.{created-UniqueIds, created-SameType, created-references}
use red_brick_apid.Listing.Items.{wanted_same, wanted, wanted}

-- A list that is allocated is in the inventory, with the counts right.
pub allocate-Inv :
    (lib : ArrayLib ℕ) (l x : ℕ) (attempts : ListAttempts) (pending : List Hold) (s : Store)
    → Inv s pending
    → InNoArray l s
    → 0 < occurrences x s.sessions
    → is_success (allocate lib l (some x) flag_external attempts s).0 ≡ true
    → Inv (allocate lib l (some x) flag_external attempts s).1 pending
      × IsLive (allocate lib l (some x) flag_external attempts s).1 l
unfolding allocate
allocate-Inv lib l x attempts pending s v absent session_live ok =
    elim (Bool-cases attempts.memory) [
      | inr short ↦ absurd (ground (arith, rw (short, allocate) at ok))
      | inl enough ↦ elim (Option-cases attempts.array_create_failure) [
        | inr (errno, h) ↦
            absurd (
              ground (arith, get_error_code_from_errno-fails errno, rw (enough, h, allocate) at ok))
        | inl made ↦
            let good = rw (enough, made, allocate) at ok in
            rw (allocate, enough, made)
              (
                object_create-Inv lib l list (some x) flag_external attempts.create
                    (with_items l [] s) pending (written-Inv l [] s.text s absent v)
                    (written-IsFresh l s.text s absent) session_live good,
                object_create-IsLive lib l list (some x) flag_external attempts.create
                    (with_items l [] s) good,
              )
      ]
    ]

update_same : (holds : ℕ → List Hold) (l : ℕ) (h : List Hold) → update holds l h l ≡ h
update_same holds l h = rw (==-refl l) refl

module _ (lib : ArrayLib ℕ) (l x : ℕ) (attempts : ListAttempts) (s : Store) where
  abbrev created : ApiE × Store
  created = object_create lib l list (some x) flag_external attempts.create (with_items l [] s)

  pub allocate-created :
      is_success (allocate lib l (some x) flag_external attempts s).0 ≡ true
      → allocate lib l (some x) flag_external attempts s ≡ created
  unfolding allocate
  allocate-created ok = elim (Bool-cases attempts.memory) [
    | inr short ↦ absurd (ground (arith, rw (short, allocate) at ok))
    | inl enough ↦ elim (Option-cases attempts.array_create_failure) [
      | inr (errno, h) ↦
          absurd
            (ground (arith, get_error_code_from_errno-fails errno, rw (enough, h, allocate) at ok))
      | inl made ↦ simp (allocate, enough, made) refl
    ]
  ]

  module _ (ok : is_success (allocate lib l (some x) flag_external attempts s).0 ≡ true) where
    created-ok : is_success created.0 ≡ true
    created-ok = subst (λ r. is_success r.0 ≡ true) (allocate-created ok) ok

    -- A new list is empty.
    pub allocate-empty : (allocate lib l (some x) flag_external attempts s).1.holds l ≡ []
    allocate-empty =
        let bodies =
          object_create-SameBodies lib l list (some x) flag_external attempts.create
            (with_items l [] s) in
        ap (λ r. r.1.holds l) (allocate-created ok)
        ∙ ap (λ holds. holds l) bodies.same_holds
        ∙ update_same s.holds l []

    module _ (unique : UniqueIds s) (bound : s.next_object_id < 65536)
        (absent : InNoArray l s) where
      unique_cell : UniqueIds (with_items l [] s)
      unique_cell = record { distinct = unique.distinct; nonzero = unique.nonzero }

      pub allocate-UniqueIds : UniqueIds (allocate lib l (some x) flag_external attempts s).1
      allocate-UniqueIds =
          subst (λ r. UniqueIds r.1) (sym (allocate-created ok))
            (created-UniqueIds lib l x attempts.create (with_items l [] s) unique_cell bound absent
              created-ok)

      -- The objects of another type that are listed are those from before.
      pub allocate-wanted :
          (referenced_only : Bool) (t : ObjectType)
          → (code t == code list) ≡ false
          → wanted referenced_only
              (allocate lib l (some x) flag_external attempts s).1.object
              ((allocate lib l (some x) flag_external attempts s).1.objects t)
            ≡ wanted referenced_only s.object (s.objects t)
      allocate-wanted referenced_only t other =
          let same =
            created-SameType lib l x attempts.create (with_items l [] s) unique_cell bound absent
              created-ok t other in
          ap (λ r. wanted referenced_only r.1.object (r.1.objects t)) (allocate-created ok)
          ∙ ap (wanted referenced_only created.1.object) same.same_array
          ∙ wanted_same referenced_only s.object created.1.object (s.objects t) same.same_counts

      pub allocate-references :
          (pending : List Hold)
          → Inv s pending
          → decrement (of_both l x) (allocate lib l (some x) flag_external attempts s).1.references
            ≡ s.references
      allocate-references pending v =
          let gone : (s.object l).external_reference_count ≡ 0 =
            elim (Bool-cases ((s.object l).external_reference_count == 0)) [
              | inl zero_count ↦ ==→eq (s.object l).external_reference_count 0 zero_count
              | inr some_count ↦ absurd (
                  omega (
                    arith,
                    v.external_live l (ground (arith, some_count)),
                    absent (s.object l).type,
                  ))
            ] in
          ap (λ r. decrement (of_both l x) r.1.references) (allocate-created ok)
          ∙ created-references lib l x attempts.create (with_items l [] s) unique_cell bound absent
              created-ok (unreferenced-any l x s.references v.positive (sym (v.external l) ∙ gone))

-- An array has no object twice.
pub once_in :
    (s : Store) (t : ObjectType) (b : ℕ)
    → over_objects (λ c. if c == b then 1 else 0) s ≤ 1
    → occurrences b (s.objects t) ≤ 1
once_in s t b h = omega (arith, h, occurrences-le-all b t s)
