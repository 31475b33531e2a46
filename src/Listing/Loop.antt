-- ===== src/Listing/Loop.antt =====
-- The loops of `inventory_get_processes` and `inventory_get_programs` (src/redapid/inventory.c).
use red_brick_apid.Base.{
  ℕ, Bool, true, false, ◌&&◌, Option, none, some, List, [], ◌∷◌, arith, ◌==◌, ◌≡◌, refl, ◌<◌,
  Bool-cases, inl, inr, ◌≢◌, ◌≤◌, ◌||◌, not, ltb, ◌++◌, ◌∙◌, sym, ap, append_assoc, append_nil,
}
use mathlib.Core.Bool.{false≢true}
use red_brick_apid.ApiError.{is_success-eq, ApiE, Errno, is_success, success}
use red_brick_apid.Types.{ObjectType}
use red_brick_apid.Store.Arrays.{ArrayLib, occurrences}
use red_brick_apid.Store.{Store, Hold}
use red_brick_apid.Object.{decrement, of_both, lock, add_internal_reference}
use red_brick_apid.Object.Invariant.{Inv, IsLive}
use red_brick_apid.Object.References.{remove_external_reference-Inv}
use red_brick_apid.ListObject.{append_to, append_item}
use red_brick_apid.ListObject.Append.{Outcome, refused, tried, append_to-Outcome, append_to-Inv}
use red_brick_apid.Listing.{append_each}
use red_brick_apid.Inventory.Unique.{UniqueIds}
use red_brick_apid.Process.Child.{targets}
use red_brick_apid.Listing.Items.{wanted, SameArrays, Grown, append_to-SameArrays, append_to-Grown}

module _ (lib : ArrayLib ℕ) (items : ArrayLib Hold) (l x : ℕ) (failures : ℕ → Option Errno)
    (pending : List Hold) where
  append_to-IsLive :
      (id : ℕ) (f : Option Errno) (s : Store)
      → IsLive s l
      → IsLive (append_to lib items l id f s).1 l
  unfolding append_item lock add_internal_reference
  append_to-IsLive id f s live = from (append_to-Outcome lib items l id f s)
    where
      kept : (a : ℕ) (g : Option Errno) → IsLive (append_item lib items l a g s).1 l
      kept a none = ground (arith, live)
      kept a (some errno) = live

      from : {r : ApiE × Store} → Outcome lib items l id f s r → IsLive r.1 l
      from (refused e ne) = live
      from (tried a found room unlocked other) = kept a f

  -- The call returns, with the counts right: with the wanted objects as items, or with one external
  -- reference of the session to the list fewer.
  pub record Looped (base s : Store) (referenced_only : Bool) (array : List ℕ)
      (result : Option (ApiE × Store)) : Type 0 where
    pub error : ApiE
    pub after : Store
    pub returned : result ≡ some (error, after)
    pub inv : Inv after pending
    pub same_ids : error ≡ success → (b : ℕ) → (after.object b).id ≡ (base.object b).id
    pub is_listed :
        error ≡ success
        → targets (after.holds l) ≡ targets (s.holds l) ++ wanted referenced_only base.object array
    pub given_back : error ≢ success → after.references ≡ decrement (of_both l x) base.references

  module _ (base : Store) (unique : UniqueIds base) (referenced_only : Bool) (t : ObjectType) where
    -- What is true of the rest of the array.
    pub record Ready (array : List ℕ) (s : Store) : Type 0 where
      pub inv : Inv s pending
      pub live : IsLive s l
      pub same : SameArrays base s
      pub once : (b : ℕ) → occurrences b array ≤ 1
      pub there : (b : ℕ) → 0 < occurrences b array → 0 < occurrences b (base.objects t)
      pub same_counts :
          (b : ℕ)
          → 0 < occurrences b array
          → (s.object b).internal_reference_count ≡ (base.object b).internal_reference_count

    skipped :
        (a : ℕ) (array : List ℕ) (s : Store) (r : Option (ApiE × Store))
        → (not referenced_only || ltb 0 (base.object a).internal_reference_count) ≡ false
        → Looped base s referenced_only array r
        → Looped base s referenced_only (a ∷ array) r
    skipped a array s r skip d = record {
      error = d.error;
      after = d.after;
      returned = d.returned;
      inv = d.inv;
      same_ids = d.same_ids;
      is_listed = λ good. rw skip (d.is_listed good);
      given_back = d.given_back;
    }

    taken :
        (a : ℕ) (array : List ℕ) (s s' : Store) (r : Option (ApiE × Store))
        → (not referenced_only || ltb 0 (base.object a).internal_reference_count) ≡ true
        → Grown l a s s'
        → Looped base s' referenced_only array r
        → Looped base s referenced_only (a ∷ array) r
    taken a array s s' r take grown d = record {
      error = d.error;
      after = d.after;
      returned = d.returned;
      inv = d.inv;
      same_ids = d.same_ids;
      is_listed = λ good. rw take (
          d.is_listed good
          ∙ ap (λ xs. xs ++ wanted referenced_only base.object array) grown.is_item
          ∙ append_assoc (targets (s.holds l)) (a ∷ []) (wanted referenced_only base.object array));
      given_back = d.given_back;
    }

    rest_Ready : (a : ℕ) (array : List ℕ) (s : Store) → Ready (a ∷ array) s → Ready array s
    rest_Ready a array s ready = record {
      inv = ready.inv;
      live = ready.live;
      same = ready.same;
      once = λ b. ground (arith, ready.once b);
      there = λ b p. ready.there b (ground (arith, p));
      same_counts = λ b p. ready.same_counts b (ground (arith, p));
    }

    next_Ready :
        (a : ℕ) (array : List ℕ) (s : Store)
        → Ready (a ∷ array) s
        → (append_to lib items l (s.object a).id (failures a) s).0 ≡ success
        → Grown l a s (append_to lib items l (s.object a).id (failures a) s).1
        → Ready array (append_to lib items l (s.object a).id (failures a) s).1
    next_Ready a array s ready good grown = record {
      inv = append_to-Inv lib items l (s.object a).id (failures a) s pending ready.inv ready.live;
      live = append_to-IsLive (s.object a).id (failures a) s ready.live;
      same = append_to-SameArrays lib items l base (s.object a).id (failures a) s ready.same;
      once = λ b. ground (arith, ready.once b);
      there = λ b p. ready.there b (ground (arith, p));
      same_counts = λ b p.
          grown.same_counts b (ground (arith, p, ready.once b))
          ∙ ready.same_counts b (ground (arith, p));
    }

    pub append_each-Looped :
        (array : List ℕ) (s : Store)
        → Ready array s
        → Looped base s referenced_only array
            (append_each lib items l x failures referenced_only array s)
    unfolding append_each
    append_each-Looped [] s ready = record {
      error = success;
      after = s;
      returned = refl;
      inv = ready.inv;
      same_ids = λ good b. ready.same.same_ids b;
      is_listed = λ good. sym (append_nil (targets (s.holds l)));
      given_back = λ bad. absurd (bad refl);
    }
    append_each-Looped (a ∷ array) s ready =
        let r : ApiE × Store = append_to lib items l (s.object a).id (failures a) s in
        let count = ready.same_counts a (ground arith) in
        elim (Bool-cases (referenced_only && ((s.object a).internal_reference_count == 0))) [
          | inl skip ↦
              rw (append_each, skip)
                (skipped a array s _ (ground (arith, skip, count))
                  (append_each-Looped array s (rest_Ready a array s ready)))
          | inr take ↦ elim (Bool-cases (is_success r.0)) [
            | inl good ↦
                let done = is_success-eq r.0 good in
                let grown =
                  append_to-Grown lib items l base a t (failures a) s unique ready.same
                    (ready.there a (ground arith)) done in
                rw (append_each, take, good)
                  (taken a array s r.1 _ (ground (arith, take, count)) grown
                    (append_each-Looped array r.1 (next_Ready a array s ready done grown)))
            | inr bad ↦
                let v' =
                  append_to-Inv lib items l (s.object a).id (failures a) s pending ready.inv
                    ready.live in
                let (s', e, v'', _, given) = remove_external_reference-Inv lib l x pending r.1 v' in
                let same =
                  append_to-SameArrays lib items l base (s.object a).id (failures a) s ready.same in
                rw (append_each, take, bad)
                  (record {
                    error = r.0;
                    after = s';
                    returned = rw e refl;
                    inv = v'';
                    same_ids = λ good. absurd (false≢true (sym bad ∙ ap is_success good));
                    is_listed = λ good. absurd (false≢true (sym bad ∙ ap is_success good));
                    given_back = λ error. given ∙ ap (decrement (of_both l x)) same.same_references;
                  })
          ]
        ]
