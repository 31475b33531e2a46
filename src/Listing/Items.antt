-- ===== src/Listing/Items.antt =====
-- What the loops of `inventory_get_processes` and `inventory_get_programs` append
-- (src/redapid/inventory.c).
use red_brick_apid.Base.{
  ℕ, Bool, false, not, ◌||◌, Option, none, some, List, [], ◌∷◌, ◌++◌, arith, ltb, ◌==◌,
  if◌then◌else◌, ◌≡◌, refl, ◌<◌, ap, sym, ◌∙◌, subst,
}
use red_brick_apid.ApiError.{ApiE, Errno, success, get_error_code_from_errno-ne-success}
use red_brick_apid.Types.{ObjectType, Object}
use red_brick_apid.Store.Arrays.{ArrayLib, occurrences}
use red_brick_apid.Store.{Store, Hold}
use red_brick_apid.Inventory.Lookup.{get_object-found}
use red_brick_apid.Inventory.Unique.{UniqueIds}
use red_brick_apid.Object.{lock, add_internal_reference}
use red_brick_apid.Process.Child.{targets}
use red_brick_apid.ListObject.{append_to, append_item, item}
use red_brick_apid.ListObject.Append.{Outcome, refused, tried, append_to-Outcome}

-- The objects of an array that are listed: all of them, or those that the daemon refers to.
abbrev pub wanted : Bool → (ℕ → Object) → List ℕ → List ℕ
wanted referenced_only object [] = []
wanted referenced_only object (a ∷ array) =
    let others = wanted referenced_only object array in
    if not referenced_only || ltb 0 (object a).internal_reference_count then a ∷ others else others

pub wanted_same :
    (referenced_only : Bool) (object object' : ℕ → Object) (array : List ℕ)
    → ((b : ℕ)
        → 0 < occurrences b array
        → (object' b).internal_reference_count ≡ (object b).internal_reference_count)
    → wanted referenced_only object' array ≡ wanted referenced_only object array
wanted_same referenced_only object object' [] same = refl
wanted_same referenced_only object object' (a ∷ array) same =
    let count = same a (ground arith) in
    let rest =
      wanted_same referenced_only object object' array (λ b p. same b (ground (arith, p))) in
    rw (count, rest) refl

pub targets-append : (xs ys : List Hold) → targets (xs ++ ys) ≡ targets xs ++ targets ys
targets-append [] ys = refl
targets-append (x ∷ xs) ys = ap (λ zs. x.target ∷ zs) (targets-append xs ys)

-- The arrays, the IDs and the external references are those of the store at the start.
pub record SameArrays (base s : Store) : Type 0 where
  pub same_objects : s.objects ≡ base.objects
  pub same_ids : (b : ℕ) → (s.object b).id ≡ (base.object b).id
  pub same_references : s.references ≡ base.references

-- Only the counts of `a` are others, and `a` is the last item.
pub record Grown (l a : ℕ) (s s' : Store) : Type 0 where
  pub is_item : targets (s'.holds l) ≡ targets (s.holds l) ++ a ∷ []
  pub same_counts :
      (b : ℕ)
      → (a == b) ≡ false
      → (s'.object b).internal_reference_count ≡ (s.object b).internal_reference_count

module _ (lib : ArrayLib ℕ) (items : ArrayLib Hold) (l : ℕ) (base : Store) where
  item-SameArrays :
      (a : ℕ) (f : Option Errno) (s : Store)
      → SameArrays base s
      → SameArrays base (append_item lib items l a f s).1
  unfolding append_item lock add_internal_reference
  item-SameArrays a none s same = record {
    same_objects = same.same_objects;
    same_ids = λ b. ground (arith, same.same_ids b);
    same_references = same.same_references;
  }
  item-SameArrays a (some errno) s same = same

  pub append_to-SameArrays :
      (id : ℕ) (f : Option Errno) (s : Store)
      → SameArrays base s
      → SameArrays base (append_to lib items l id f s).1
  append_to-SameArrays id f s same = from (append_to-Outcome lib items l id f s)
    where
      from : {r : ApiE × Store} → Outcome lib items l id f s r → SameArrays base r.1
      from (refused e ne) = same
      from (tried a found room unlocked other) = item-SameArrays a f s same

  item-Grown :
      (a : ℕ) (f : Option Errno) (s : Store)
      → (append_item lib items l a f s).0 ≡ success
      → Grown l a s (append_item lib items l a f s).1
  unfolding append_item lock add_internal_reference
  item-Grown a (some errno) s good = absurd (get_error_code_from_errno-ne-success errno good)
  item-Grown a none s good =
      let append = items.append_lem (s.holds l) (item a) in
      record {
        is_item = ground (arith, ap targets append ∙ targets-append (s.holds l) (item a ∷ []));
        same_counts = λ b ne. ground arith;
      }

  -- With IDs that tell the objects apart, the object of the array is appended.
  pub append_to-Grown :
      (a : ℕ) (t : ObjectType) (f : Option Errno) (s : Store)
      → UniqueIds base
      → SameArrays base s
      → 0 < occurrences a (base.objects t)
      → (append_to lib items l (s.object a).id f s).0 ≡ success
      → Grown l a s (append_to lib items l (s.object a).id f s).1
  append_to-Grown a t f s unique same there good =
      from (append_to-Outcome lib items l (s.object a).id f s) good
    where
      from :
          {r : ApiE × Store}
          → Outcome lib items l (s.object a).id f s r
          → r.0 ≡ success
          → Grown l a s r.1
      from (refused e ne) good = absurd (ne good)
      from (tried b found room unlocked other) good =
          let (_, (u, p, has_id)) = get_object-found none (s.object a).id b s found in
          let p' = subst (λ objects. 0 < occurrences b (objects u)) same.same_objects p in
          let e : b ≡ a =
            unique.distinct b a u t p' there (sym (same.same_ids b) ∙ has_id ∙ same.same_ids a) in
          subst (λ c. Grown l c s (append_item lib items l b f s).1) e (item-Grown b f s good)
