-- ===== src/Object/Undo.antt =====
-- `object_remove_external_reference` takes back what `object_add_external_reference` has done
-- (src/redapid/object.c).
use red_brick_apid.Base.{
  ℕ, Bool, true, false, ◌&&◌, some, List, [], ◌∷◌, ◌++◌, arith, ◌==◌, ◌≡◌, ◌<◌, fun_ext, Bool-cases,
  inl, inr, ap,
}
use red_brick_apid.ApiError.{is_success}
use red_brick_apid.Store.Arrays.{ArrayLib}
use red_brick_apid.Store.{Store, ExternalReference}
use red_brick_apid.Object.{
  add_external_reference, remove_external_reference, any, of_both, increment, decrement, count_up,
  count_down,
}
use red_brick_apid.Object.Invariant.{IsPositive}

module _ (a x : ℕ) where
  abbrev added_reference : ExternalReference
  added_reference = record { object = a; session = x; count = 1 }

  any-increment :
      (rs : List ExternalReference)
      → any (of_both a x) rs ≡ true
      → any (of_both a x) (increment (of_both a x) rs) ≡ true
  any-increment [] h = cc
  any-increment (r ∷ rs) h = ground (arith, any-increment rs)

  decrement-increment :
      (rs : List ExternalReference)
      → IsPositive rs
      → any (of_both a x) rs ≡ true
      → decrement (of_both a x) (increment (of_both a x) rs) ≡ rs
  decrement-increment [] pos h = cc
  decrement-increment (r ∷ rs) pos h = ground (arith, decrement-increment rs pos.1, pos.0)

  any-append : (rs : List ExternalReference) → any (of_both a x) (rs ++ added_reference ∷ []) ≡ true
  any-append [] = ground arith
  any-append (r ∷ rs) = ground (arith, any-append rs)

  decrement-append :
      (rs : List ExternalReference)
      → any (of_both a x) rs ≡ false
      → decrement (of_both a x) (rs ++ added_reference ∷ []) ≡ rs
  decrement-append [] h = ground arith
  decrement-append (r ∷ rs) h = ground (arith, decrement-append rs)

  module _ (lib : ArrayLib ℕ) (s : Store) (held : 0 < (s.object a).internal_reference_count) where
    counted_back :
        (rs : List ExternalReference)
        → any (of_both a x) rs ≡ true
        → decrement (of_both a x) rs ≡ s.references
        → remove_external_reference lib a x (count_up a x rs s) ≡ some s
    unfolding remove_external_reference
    counted_back rs there back =
        let s₁ : Store = count_up a x rs s in
        let s₂ : Store = count_down a x 1 (record s₁ { references = decrement (of_both a x) rs }) in
        let same_object : s₂.object ≡ s.object = fun_ext λ b. ground arith in
        let same_session : s₂.session ≡ s.session = fun_ext λ y. ground arith in
        let same : s₂ ≡ s =
          λ i. record s { object = same_object i; session = same_session i; references = back i } in
        elim (Bool-cases (
          (s₂.object a).internal_reference_count == 0
          && (s₂.object a).external_reference_count == 0)) [
            | inl last ↦ absurd (ground (arith, held))
            | inr more ↦ ground (arith, there, more, ap some same)
          ]

    -- After an `object_add_external_reference` that answers success on an object with an internal
    -- reference, in a store whose references have positive counts,
    -- `object_remove_external_reference` leads back to exactly the same store.
    pub remove_external_reference-add_external_reference :
        (memory : Bool)
        → IsPositive s.references
        → is_success (add_external_reference a x memory s).0 ≡ true
        → remove_external_reference lib a x (add_external_reference a x memory s).1 ≡ some s
    unfolding add_external_reference
    remove_external_reference-add_external_reference memory pos ok =
        elim (Bool-cases (any (of_both a x) s.references)) [
          | inl old ↦
              rw (add_external_reference, old)
                (counted_back _ (any-increment s.references old)
                  (decrement-increment s.references pos old))
          | inr new ↦ elim (Bool-cases memory) [
            | inl enough ↦
                rw (add_external_reference, new, enough)
                  (counted_back _ (any-append s.references) (decrement-append s.references new))
            | inr short ↦ absurd (ground (arith, rw (add_external_reference, new, short) at ok))
          ]
        ]
