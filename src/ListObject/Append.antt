-- ===== src/ListObject/Append.antt =====
-- `list_append_to` on every path (src/redapid/list.c).
use red_brick_apid.Base.{
  ℕ, Option, none, some, List, [], ◌∷◌, ◌++◌, arith, ltb, ◌==◌, ◌≡◌, ◌≢◌, ◌≤◌, length,
  length-append, sym, ◌∙◌, Bool-cases, inl, inr, Option-cases,
}
use red_brick_apid.ApiError.{
  ApiE, Errno, success, unknown_object_id, get_error_code_from_errno-ne-success,
}
use red_brick_apid.Store.Arrays.{ArrayLib}
use red_brick_apid.Store.{Store, Hold}
use red_brick_apid.Inventory.{get_object}
use red_brick_apid.Inventory.Lookup.{get_object-found, get_object-missing}
use red_brick_apid.Object.Invariant.{Inv, IsLive}
use red_brick_apid.Object.{lock, add_internal_reference}
use red_brick_apid.ListObject.{uint16_max, item, append_item, append_to}
use red_brick_apid.ListObject.Items.{append_item-Inv}

unknown_is_error : unknown_object_id ≢ success
unknown_is_error e = cc

module _ (lib : ArrayLib ℕ) (items : ArrayLib Hold) (l item_id : ℕ) (failure : Option Errno)
    (s : Store) where
  -- The call appends an object that a lookup of the ID finds, or changes nothing.
  pub data Outcome : ApiE × Store → Type 0 where
    refused : (e : ApiE) → e ≢ success → Outcome (e, s)
    tried :
        (a : ℕ)
        → (get_object none item_id s).1 ≡ some a
        → length (s.holds l) ≢ uint16_max
        → (s.object l).lock_count ≡ 0
        → item_id ≢ (s.object l).id
        → Outcome (append_item lib items l a failure s)

  pub append_to-Outcome : Outcome (append_to lib items l item_id failure s)
  unfolding append_to
  append_to-Outcome = elim (Bool-cases (item_id == (s.object l).id)) [
    | inl itself ↦ rw itself (refused _ (λ e. cc))
    | inr other ↦ elim (Bool-cases (ltb 0 (s.object l).lock_count)) [
      | inl is_locked ↦ rw (other, is_locked) (refused _ (λ e. cc))
      | inr unlocked ↦ elim (Bool-cases (length (s.holds l) == uint16_max)) [
        | inl full ↦ rw (other, unlocked, full) (refused _ (λ e. cc))
        | inr room ↦ elim (Option-cases (get_object none item_id s).1) [
          | inl missing ↦
              rw (other, unlocked, room, missing)
                (refused _
                  (λ e. unknown_is_error (sym (get_object-missing none item_id s missing) ∙ e)))
          | inr (a, found) ↦
              rw (other, unlocked, room, found)
                (tried a found (ground arith) (ground arith) (ground arith))
        ]
      ]
    ]
  ]

  -- In a store with right counts, `list_append_to` on a list of the inventory keeps the counts
  -- right, whatever the item ID, the outcome of the append and the answer.
  pub append_to-Inv :
      (pending : List Hold)
      → Inv s pending
      → IsLive s l
      → Inv (append_to lib items l item_id failure s).1 pending
  append_to-Inv pending v live = from append_to-Outcome
    where
      from : {r : ApiE × Store} → Outcome r → Inv r.1 pending
      from (refused e ne) = v
      from (tried a found room unlocked other) =
          let (_, (u, p, _)) = get_object-found none item_id a s found in
          append_item-Inv lib items l a failure pending s v live (v.typed a u p)

  -- What a call has done that answers `success`.
  pub record Appended (after : Store) : Type 0 where
    pub appended : ℕ
    pub has_id : (s.object appended).id ≡ item_id
    pub is_item : after.holds l ≡ s.holds l ++ item appended ∷ []
    pub fits : length (s.holds l) ≤ uint16_max → length (after.holds l) ≤ uint16_max
    pub not_itself : item_id ≢ (s.object l).id

  Appended-from :
      (a : ℕ) (f : Option Errno)
      → (s.object a).id ≡ item_id
      → length (s.holds l) ≢ uint16_max
      → item_id ≢ (s.object l).id
      → (append_item lib items l a f s).0 ≡ success
      → Appended (append_item lib items l a f s).1
  unfolding append_item lock add_internal_reference
  Appended-from a (some errno) same room other good =
      absurd (get_error_code_from_errno-ne-success errno good)
  Appended-from a none same room other good =
      let grown = length-append (s.holds l) (item a ∷ []) in
      let append = items.append_lem (s.holds l) (item a) in
      record {
        appended = a;
        has_id = same;
        is_item = ground (arith, append);
        fits = λ h. ground (arith, append, grown);
        not_itself = other;
      }

  -- A `list_append_to` that answers success has appended, at the end, an object with the ID, which
  -- is not that of the list, and a list of at most 65535 items keeps to that bound.
  pub append_to-Appended :
      (append_to lib items l item_id failure s).0 ≡ success
      → Appended (append_to lib items l item_id failure s).1
  append_to-Appended = from append_to-Outcome
    where
      from : {r : ApiE × Store} → Outcome r → r.0 ≡ success → Appended r.1
      from (refused e ne) good = absurd (ne good)
      from (tried a found room unlocked other) good =
          let (_, (u, p, same)) = get_object-found none item_id a s found in
          Appended-from a failure same room other good
