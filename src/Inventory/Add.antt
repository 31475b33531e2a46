-- ===== src/Inventory/Add.antt =====
-- What `inventory_add_object` does to the store when it succeeds (src/redapid/inventory.c).
use red_brick_apid.Base.{ℕ, true, Option, none, some, [], ◌∷◌, ◌++◌, arith, ◌≡◌, refl}
use red_brick_apid.ApiError.{ApiE, Errno, is_success, success, get_error_code_from_errno-fails}
use red_brick_apid.Store.Arrays.{ArrayLib}
use red_brick_apid.Store.{Store, with_object, with_array}
use red_brick_apid.Inventory.{add_object, next_free_id, id_max, object_id_used, place_object}

module _ (lib : ArrayLib ℕ) (a : ℕ) (s : Store) where
  -- The ID is set, the counter moves on, and the object comes last in the array of its type.
  abbrev pub added : ℕ → ℕ → Store
  added id next =
      let s' = with_object a (λ o. record o { id = id }) (record s { next_object_id = next }) in
      with_array (s'.object a).type (s.objects (s'.object a).type ++ a ∷ []) s'

  pub record Added (result : ApiE × Store) : Type 0 where
    pub id : ℕ
    pub next : ℕ
    pub found : next_free_id id_max (object_id_used s) s.next_object_id ≡ (some id, next)
    pub stored : result ≡ (success, added id next)

  placed :
      (failure : Option Errno) (r : Option ℕ) (next : ℕ)
      → is_success (place_object lib a failure r (record s { next_object_id = next })).0 ≡ true
      → (id : ℕ) × (r ≡ some id)
        × (place_object lib a failure r (record s { next_object_id = next })
            ≡ (success, added id next))
  unfolding place_object
  placed failure none next ok = cc
  placed (some errno) (some id) next ok =
      absurd (ground (arith, get_error_code_from_errno-fails errno))
  placed none (some id) next ok = (id, refl, rw lib.append_lem)

  pub add_object-Added :
      (failure : Option Errno)
      → is_success (add_object lib a failure s).0 ≡ true
      → Added (add_object lib a failure s)
  unfolding add_object
  add_object-Added failure ok =
      let answer : Option ℕ × ℕ = next_free_id id_max (object_id_used s) s.next_object_id in
      let (id, e, stored) = placed failure answer.0 answer.1 ok in
      record { id = id; next = answer.1; found = λ i. (e i, answer.1); stored = stored }
