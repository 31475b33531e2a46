-- ===== src/Inventory/Lookup.antt =====
-- `inventory_get_object` answers with an object of the inventory that has the ID, exactly when
-- there is one (src/redapid/inventory.c).
use red_brick_apid.Base.{
  ℕ, false, Option, none, some, List, [], ◌∷◌, arith, ◌≡◌, refl, ◌<◌, ◌≢◌, ◌⊎◌, Option-cases, inl,
  inr, ap, ◌∙◌,
}
use mathlib.Core.Option.{none-ne-some}
use red_brick_apid.ApiError.{success, unknown_object_id}
use red_brick_apid.Types.{ObjectType}
use red_brick_apid.Store.Arrays.{occurrences}
use red_brick_apid.Store.{Store}
use red_brick_apid.Inventory.{find_id, find_in_types, get_object, searched, has_id}

-- What is found is there, and has the ID.
pub find_id-found :
    (id_of : ℕ → ℕ) (id a : ℕ) (xs : List ℕ)
    → find_id id_of id xs ≡ some a
    → (0 < occurrences a xs) × (id_of a ≡ id)
find_id-found id_of id a [] h = cc
find_id-found id_of id a (x ∷ xs) h = ground (arith, find_id-found id_of id a xs)

-- What is there is found, or something in front of it that has the ID too.
pub find_id_complete :
    (id_of : ℕ → ℕ) (a : ℕ) (xs : List ℕ) → 0 < occurrences a xs → find_id id_of (id_of a) xs ≢ none
find_id_complete id_of a [] h = absurd (omega arith)
find_id_complete id_of a (x ∷ xs) h = ground (arith, find_id_complete id_of a xs)

pub has_id-find_id :
    (id_of : ℕ → ℕ) (id : ℕ) (xs : List ℕ) → has_id id_of id xs ≡ false → find_id id_of id xs ≡ none
has_id-find_id id_of id [] h = refl
has_id-find_id id_of id (x ∷ xs) h = ground (arith, has_id-find_id id_of id xs)

-- Is it in the array of one of the types?
abbrev pub InTypes : Store → ℕ → List ObjectType → Type 0
InTypes s a [] = ⊥
InTypes s a (t ∷ ts) = (0 < occurrences a (s.objects t)) ⊎ InTypes s a ts

pub find_in_types-found :
    (s : Store) (id a : ℕ) (ts : List ObjectType)
    → find_in_types s id ts ≡ some a
    → (u : ObjectType) × (0 < occurrences a (s.objects u)) × ((s.object a).id ≡ id)
find_in_types-found s id a [] h = cc
find_in_types-found s id a (t ∷ ts) h =
    elim (Option-cases (find_id (λ b. (s.object b).id) id (s.objects t))) [
      | inl missing ↦ find_in_types-found s id a ts (rw (missing, find_in_types) at h)
      | inr (b, e) ↦
          let (p, q) = find_id-found (λ b. (s.object b).id) id b (s.objects t) e in
          (t, ground (arith, p), ground (arith, q))
    ]

pub find_in_types_complete :
    (s : Store) (a : ℕ) (ts : List ObjectType)
    → InTypes s a ts
    → find_in_types s (s.object a).id ts ≢ none
find_in_types_complete s a [] m = absurd m
find_in_types_complete s a (t ∷ ts) (inl here) =
    ground (arith, find_id_complete (λ b. (s.object b).id) a (s.objects t) here)
find_in_types_complete s a (t ∷ ts) (inr there) =
    ground (arith, find_in_types_complete s a ts there)

-- When a lookup answers an object, the error code is success, and the object is in an array of the
-- inventory and has the ID.
pub get_object-found :
    (wanted : Option ObjectType) (id a : ℕ) (s : Store)
    → (get_object wanted id s).1 ≡ some a
    → ((get_object wanted id s).0 ≡ success)
      × ((u : ObjectType) × (0 < occurrences a (s.objects u)) × ((s.object a).id ≡ id))
unfolding get_object
get_object-found wanted id a s h = elim (Option-cases (find_in_types s id (searched wanted))) [
  | inl missing ↦ absurd (none-ne-some a (rw (missing, get_object) at h))
  | inr (b, e) ↦
      let answer : some b ≡ some a = rw (e, get_object) at h in
      let same : b ≡ a = cc in
      (rw e, find_in_types-found s id a (searched wanted) (e ∙ ap some same))
]

-- An object that the lookup covers is answered, or one that has its ID too.
pub get_object_complete :
    (wanted : Option ObjectType) (a : ℕ) (s : Store)
    → InTypes s a (searched wanted)
    → (get_object wanted (s.object a).id s).1 ≢ none
unfolding get_object
get_object_complete wanted a s m = ground (arith, find_in_types_complete s a (searched wanted) m)

pub get_object-missing :
    (wanted : Option ObjectType) (id : ℕ) (s : Store)
    → (get_object wanted id s).1 ≡ none
    → (get_object wanted id s).0 ≡ unknown_object_id
unfolding get_object
get_object-missing wanted id s h = ground arith
