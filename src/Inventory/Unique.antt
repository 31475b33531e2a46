-- ===== src/Inventory/Unique.antt =====
-- IDs tell the objects of the inventory apart (src/redapid/inventory.c).
use red_brick_apid.Base.{
  ℕ, true, false, Option, some, List, [], ◌∷◌, arith, ◌==◌, if◌then◌else◌, ◌≡◌, refl, ◌<◌, ◌≢◌, ◌⊎◌,
  Option-cases, Bool-cases, inl, inr, ap, ◌∙◌,
}
use red_brick_apid.ApiError.{Errno, is_success, success}
use red_brick_apid.Types.{ObjectType, string, list, file, directory, process, program}
use red_brick_apid.Store.Arrays.{ArrayLib, tally-append, occurrences}
use red_brick_apid.Store.{Store, code, code-injective}
use red_brick_apid.Inventory.{has_id, object_id_used, add_object, get_object, id_max}
use red_brick_apid.Inventory.Add.{added, add_object-Added}
use red_brick_apid.Inventory.Ids.{next_free_id-free}
use red_brick_apid.Inventory.Lookup.{get_object-found, get_object_complete}

-- No two objects of the inventory have one ID, and none has ID zero.
pub record UniqueIds (s : Store) : Type 0 where
  pub distinct :
      (a b : ℕ) (t u : ObjectType)
      → 0 < occurrences a (s.objects t)
      → 0 < occurrences b (s.objects u)
      → (s.object a).id ≡ (s.object b).id
      → a ≡ b
  pub nonzero : (a : ℕ) (t : ObjectType) → 0 < occurrences a (s.objects t) → 0 < (s.object a).id

has_id-unused :
    (id_of : ℕ → ℕ) (id b : ℕ) (xs : List ℕ)
    → has_id id_of id xs ≡ false
    → 0 < occurrences b xs
    → id_of b ≢ id
has_id-unused id_of id b [] h p = absurd (omega arith)
has_id-unused id_of id b (x ∷ xs) h p = ground (arith, has_id-unused id_of id b xs)

-- An ID that is not in use is that of no object.
object_id_used-unused :
    (s : Store) (id b : ℕ) (u : ObjectType)
    → object_id_used s id ≡ false
    → 0 < occurrences b (s.objects u)
    → (s.object b).id ≢ id
object_id_used-unused s id b string h p =
    has_id-unused (λ c. (s.object c).id) id b (s.objects string) (ground arith) p
object_id_used-unused s id b list h p =
    has_id-unused (λ c. (s.object c).id) id b (s.objects list) (ground arith) p
object_id_used-unused s id b file h p =
    has_id-unused (λ c. (s.object c).id) id b (s.objects file) (ground arith) p
object_id_used-unused s id b directory h p =
    has_id-unused (λ c. (s.object c).id) id b (s.objects directory) (ground arith) p
object_id_used-unused s id b process h p =
    has_id-unused (λ c. (s.object c).id) id b (s.objects process) (ground arith) p
object_id_used-unused s id b program h p =
    has_id-unused (λ c. (s.object c).id) id b (s.objects program) (ground arith) p

module _ (lib : ArrayLib ℕ) (a : ℕ) (s : Store) (id next : ℕ) where
  -- Only `a` is new in the arrays.
  occurrences-added :
      (b : ℕ) (u : ObjectType)
      → (a == b) ≡ false
      → occurrences b ((added lib a s id next).objects u) ≡ occurrences b (s.objects u)
  occurrences-added b u ne =
      let t : ObjectType = (if a == a then record (s.object a) { id = id } else s.object a).type in
      elim (Bool-cases (code u == code t)) [
        | inl same ↦
            let array : s.objects u ≡ s.objects t = ap s.objects (code-injective u t same) in
            let grown = tally-append (λ c. if c == b then 1 else 0) (s.objects t) (a ∷ []) in
            rw (same, array) (ground (arith, grown))
        | inr other ↦ rw other refl
      ]

  added-UniqueIds :
      UniqueIds s → object_id_used s id ≡ false → 0 < id → UniqueIds (added lib a s id next)
  added-UniqueIds v free pos = record {
    distinct =
        λ b c t u p q same. by_cases b c t u p q same (Bool-cases (a == b)) (Bool-cases (a == c));
    nonzero = λ b t p. positive b t p (Bool-cases (a == b));
  }
    where
      by_cases :
          (b c : ℕ) (t u : ObjectType)
          → 0 < occurrences b ((added lib a s id next).objects t)
          → 0 < occurrences c ((added lib a s id next).objects u)
          → ((added lib a s id next).object b).id ≡ ((added lib a s id next).object c).id
          → ((a == b) ≡ true) ⊎ ((a == b) ≡ false)
          → ((a == c) ≡ true) ⊎ ((a == c) ≡ false)
          → b ≡ c
      by_cases b c t u p q same (inl e) (inl f) = ground arith
      by_cases b c t u p q same (inl e) (inr f) = absurd (
          object_id_used-unused s id c u free (omega (arith, q, occurrences-added c u f))
            (ground (arith, same)))
      by_cases b c t u p q same (inr e) (inl f) = absurd (
          object_id_used-unused s id b t free (omega (arith, p, occurrences-added b t e))
            (ground (arith, same)))
      by_cases b c t u p q same (inr e) (inr f) =
          v.distinct b c t u (omega (arith, p, occurrences-added b t e))
            (omega (arith, q, occurrences-added c u f)) (ground (arith, same))

      positive :
          (b : ℕ) (t : ObjectType)
          → 0 < occurrences b ((added lib a s id next).objects t)
          → ((a == b) ≡ true) ⊎ ((a == b) ≡ false)
          → 0 < ((added lib a s id next).object b).id
      positive b t p (inl e) = ground (arith, pos)
      positive b t p (inr e) =
          ground (arith, v.nonzero b t (omega (arith, p, occurrences-added b t e)))

-- When no two objects of the inventory share an ID, none has ID zero and the counter has 16 bits,
-- an `inventory_add_object` that answers success keeps it that no two share an ID and none has ID
-- zero.
pub add_object-UniqueIds :
    (lib : ArrayLib ℕ) (a : ℕ) (failure : Option Errno) (s : Store)
    → UniqueIds s
    → s.next_object_id < 65536
    → is_success (add_object lib a failure s).0 ≡ true
    → UniqueIds (add_object lib a failure s).1
add_object-UniqueIds lib a failure s v bound ok =
    let d = add_object-Added lib a s failure ok in
    let (free, pos, _, _) =
      next_free_id-free id_max (object_id_used s) s.next_object_id d.id d.next bound d.found in
    rw d.stored (added-UniqueIds lib a s d.id d.next v free pos)

-- When no two objects of the inventory share an ID, a lookup of the ID and the array of an object
-- answers success and that object.
pub get_object_unique :
    (a : ℕ) (u : ObjectType) (s : Store)
    → UniqueIds s
    → 0 < occurrences a (s.objects u)
    → get_object (some u) (s.object a).id s ≡ (success, some a)
get_object_unique a u s v p = elim (Option-cases (get_object (some u) (s.object a).id s).1) [
  | inl missing ↦ absurd (get_object_complete (some u) a s (inl p) missing)
  | inr (b, e) ↦
      let (good, (t, q, same)) = get_object-found (some u) (s.object a).id b s e in
      let found : b ≡ a = v.distinct b a t u q p same in λ i. (good i, (e ∙ ap some found) i)
]
