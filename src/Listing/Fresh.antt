-- ===== src/Listing/Fresh.antt =====
-- A new list changes nothing of the objects that are there (src/redapid/object.c).
use red_brick_apid.Base.{
  ℕ, true, false, some, arith, ◌==◌, ◌≡◌, refl, ◌<◌, Bool-cases, inl, inr, sym, subst, ap, ==→eq,
  ◌∙◌,
}
use red_brick_apid.ApiError.{ApiE, is_success}
use red_brick_apid.Types.{list, ObjectType}
use red_brick_apid.Store.Arrays.{ArrayLib, occurrences}
use red_brick_apid.Store.{Store, code}
use red_brick_apid.Inventory.{add_object}
use red_brick_apid.Inventory.Add.{added, add_object-Added}
use red_brick_apid.Inventory.Unique.{UniqueIds, add_object-UniqueIds}
use red_brick_apid.Object.{add_external_reference, any, of_both, decrement}
use red_brick_apid.Object.References.{decrement-appended}
use red_brick_apid.Object.Create.{
  with_header, flag_external, Attempts, create_referenced, object_create,
}
use red_brick_apid.Object.Create.Cell.{InNoArray}

-- The cell is that of no object, and the objects are as they were.
pub record SameOthers (l : ℕ) (s s' : Store) : Type 0 where
  pub same_objects : s'.objects ≡ s.objects
  pub same_next : s'.next_object_id ≡ s.next_object_id
  pub same_ids : (b : ℕ) → (l == b) ≡ false → (s'.object b).id ≡ (s.object b).id
  pub same_counts :
      (b : ℕ)
      → (l == b) ≡ false
      → (s'.object b).internal_reference_count ≡ (s.object b).internal_reference_count
  pub is_list : (s'.object l).type ≡ list

module _ (lib : ArrayLib ℕ) (l x : ℕ) (attempts : Attempts) (s : Store) where
  referenced : ApiE × Store
  referenced = add_external_reference l x attempts.memory (with_header l list s)

  referenced-SameOthers : SameOthers l s referenced.1
  unfolding referenced add_external_reference
  referenced-SameOthers = record {
    same_objects = ground arith;
    same_next = ground arith;
    same_ids = λ b ne. ground arith;
    same_counts = λ b ne. ground arith;
    is_list = ground arith;
  }

  as_added :
      is_success (object_create lib l list (some x) flag_external attempts s).0 ≡ true
      → object_create lib l list (some x) flag_external attempts s
        ≡ add_object lib l attempts.append_failure referenced.1
  unfolding object_create create_referenced referenced
  as_added ok = elim (Bool-cases (is_success referenced.0)) [
    | inl good ↦ simp (object_create, create_referenced, good) refl
    | inr bad ↦ absurd (ground (arith, ok, bad))
  ]

  was_referenced :
      is_success (object_create lib l list (some x) flag_external attempts s).0 ≡ true
      → is_success referenced.0 ≡ true
  unfolding object_create create_referenced referenced
  was_referenced ok = elim (Bool-cases (is_success referenced.0)) [
    | inl good ↦ good
    | inr bad ↦ absurd (ground (arith, ok, bad))
  ]

  given_up :
      any (of_both l x) s.references ≡ false
      → is_success referenced.0 ≡ true
      → decrement (of_both l x) referenced.1.references ≡ s.references
  unfolding referenced add_external_reference
  given_up new good = elim (Bool-cases attempts.memory) [
    | inl enough ↦ rw (new, enough) (decrement-appended l x s.references new)
    | inr short ↦ absurd (ground (arith, good, new, short))
  ]

  -- A new cell is none of the objects of an array.
  apart :
      (b : ℕ) (t : ObjectType) → InNoArray l s → 0 < occurrences b (s.objects t) → (l == b) ≡ false
  apart b t absent p = elim (Bool-cases (l == b)) [
    | inl same ↦
        absurd (omega (arith, p, absent t, ap (λ c. occurrences c (s.objects t)) (==→eq l b same)))
    | inr other ↦ other
  ]

  module _ (unique : UniqueIds s) (bound : s.next_object_id < 65536) (absent : InNoArray l s)
      (ok : is_success (object_create lib l list (some x) flag_external attempts s).0 ≡ true) where
    pub created-UniqueIds : UniqueIds (object_create lib l list (some x) flag_external attempts s).1
    created-UniqueIds =
        let o = referenced-SameOthers in
        let at : (b : ℕ) (t : ObjectType)
            → 0 < occurrences b (referenced.1.objects t)
            → 0 < occurrences b (s.objects t) =
          λ b t p. subst (λ objects. 0 < occurrences b (objects t)) o.same_objects p in
        let ids : (b : ℕ) (t : ObjectType)
            → 0 < occurrences b (referenced.1.objects t)
            → (referenced.1.object b).id ≡ (s.object b).id =
          λ b t p. o.same_ids b (apart b t absent (at b t p)) in
        let before : UniqueIds referenced.1 = record {
          distinct = λ b c t u p q same.
              unique.distinct b c t u (at b t p) (at c u q) (sym (ids b t p) ∙ same ∙ ids c u q);
          nonzero = λ b t p. omega (arith, unique.nonzero b t (at b t p), ids b t p);
        } in
        subst (λ r. UniqueIds r.1) (sym (as_added ok))
          (add_object-UniqueIds lib l attempts.append_failure referenced.1 before
            (omega (arith, bound, o.same_next))
            (subst (λ r. is_success r.0 ≡ true) (as_added ok) ok))

    -- The arrays of the other types are the same, and so are the counts and the IDs of their objects.
    pub record SameType (t : ObjectType) (s' : Store) : Type 0 where
      pub same_array : s'.objects t ≡ s.objects t
      pub same_counts :
          (b : ℕ)
          → 0 < occurrences b (s.objects t)
          → (s'.object b).internal_reference_count ≡ (s.object b).internal_reference_count

    stored-SameType :
        (t : ObjectType)
        → (code t == code list) ≡ false
        → (id next : ℕ) → SameType t (added lib l referenced.1 id next)
    stored-SameType t other id next =
        let o = referenced-SameOthers in
        record {
          same_array = ground (arith, o.is_list, other, ap (λ objects. objects t) o.same_objects);
          same_counts =
              λ b p. let ne = apart b t absent p in ground (arith, ne, o.same_counts b ne);
        }

    pub created-SameType :
        (t : ObjectType)
        → (code t == code list) ≡ false
        → SameType t (object_create lib l list (some x) flag_external attempts s).1
    created-SameType t other =
        let d =
          add_object-Added lib l referenced.1 attempts.append_failure
            (subst (λ r. is_success r.0 ≡ true) (as_added ok) ok) in
        subst (λ r. SameType t r.1) (sym (as_added ok ∙ d.stored))
          (stored-SameType t other d.id d.next)

    -- Giving up the reference to the new list leaves the references as they were.
    pub created-references :
        any (of_both l x) s.references ≡ false
        → decrement
            (of_both l x)
            (object_create lib l list (some x) flag_external attempts s).1.references
          ≡ s.references
    created-references new =
        let d =
          add_object-Added lib l referenced.1 attempts.append_failure
            (subst (λ r. is_success r.0 ≡ true) (as_added ok) ok) in
        subst (λ r. decrement (of_both l x) r.1.references ≡ s.references)
          (sym (as_added ok ∙ d.stored)) (given_up new (was_referenced ok))
