-- ===== src/Inventory.antt =====
-- src/redapid/inventory.c: the IDs, the arrays of sessions and objects, and the lookups.
pub mod Ids
pub mod Unique
pub mod Lookup
pub mod Add
use red_brick_apid.Base.{
  ℕ, zero, suc, ◌+◌, ◌-◌, ◌%◌, ◌^◌, Bool, true, false, ◌&&◌, ◌||◌, Option, none, some, List, [],
  ◌∷◌, ◌++◌, arith, ltb, ◌==◌, if◌then◌else◌, ◌≡◌, refl, ◌≤◌, ◌<◌,
}
use red_brick_apid.ApiError.{
  ApiE, Errno, get_error_code_from_errno, success, no_free_session_id, no_free_object_id,
  unknown_session_id, unknown_object_id,
}
use red_brick_apid.Types.{
  ObjectType, Object, String, string, list, file, directory, process, program,
}
use red_brick_apid.Store.Arrays.{ArrayLib, index_of, tally}
use red_brick_apid.Store.{
  Store, Hold, ExternalReference, Session, with_object, with_session, with_array, size,
}

-- The loop of `inventory_get_next_session_id` and `inventory_get_next_object_id` over 16-bit IDs:
-- the ID, if one is free, and the next candidate. `used` is the inner loop.
unfoldable pub next_free_id : ℕ → (ℕ → Bool) → ℕ → Option ℕ × ℕ
next_free_id zero used next = (none, next)
next_free_id (suc rounds) used next =
    let candidate = if next == 0 then 1 else next in
    elim (used candidate) [
      | true ↦ next_free_id rounds used ((candidate + 1) % 2 ^ 16)
      | false ↦ (some candidate, (candidate + 1) % 2 ^ 16)
    ]

abbrev pub id_max : ℕ
id_max = 2 ^ 16 - 1

-- The loop over one array: is the ID that of an item?
abbrev pub has_id : (ℕ → ℕ) → ℕ → List ℕ → Bool
has_id id_of candidate [] = false
has_id id_of candidate (a ∷ array) = candidate == id_of a || has_id id_of candidate array

abbrev pub all_types : List ObjectType
all_types = string ∷ list ∷ file ∷ directory ∷ process ∷ program ∷ []

abbrev pub any_type : (ObjectType → Bool) → List ObjectType → Bool
any_type p [] = false
any_type p (t ∷ ts) = p t || any_type p ts

abbrev pub object_id_used : Store → ℕ → Bool
object_id_used s candidate =
    any_type (λ t. has_id (λ a. (s.object a).id) candidate (s.objects t)) all_types

abbrev pub session_id_used : Store → ℕ → Bool
session_id_used s candidate = has_id (λ x. (s.session x).id) candidate s.sessions

-- `inventory_get_next_session_id` and `inventory_get_next_object_id`
unfoldable pub get_next_session_id : Store → Option ℕ × Store
get_next_session_id s =
    let (id, next) = next_free_id id_max (session_id_used s) s.next_session_id in
    (id, record s { next_session_id = next })

unfoldable pub get_next_object_id : Store → Option ℕ × Store
get_next_object_id s =
    let (id, next) = next_free_id id_max (object_id_used s) s.next_object_id in
    (id, record s { next_object_id = next })

-- The first item with the ID.
abbrev pub find_id : (ℕ → ℕ) → ℕ → List ℕ → Option ℕ
find_id id_of id [] = none
find_id id_of id (a ∷ array) = if id_of a == id then some a else find_id id_of id array

abbrev pub find_in_types : Store → ℕ → List ObjectType → Option ℕ
find_in_types s id [] = none
find_in_types s id (t ∷ ts) = elim (find_id (λ a. (s.object a).id) id (s.objects t)) [
  | none ↦ find_in_types s id ts
  | some a ↦ some a
]

-- The arrays that a lookup goes through; `none` is OBJECT_TYPE_ANY.
abbrev pub searched : Option ObjectType → List ObjectType
searched none = all_types
searched (some t) = t ∷ []

abbrev pub found_object : Option ℕ → ApiE × Option ℕ
found_object none = (unknown_object_id, none)
found_object (some a) = (success, some a)

-- `inventory_get_object`
unfoldable pub get_object : Option ObjectType → ℕ → Store → ApiE × Option ℕ
get_object wanted id s = found_object (find_in_types s id (searched wanted))

-- `inventory_get_session`
unfoldable pub get_session : ℕ → Store → ApiE × Option ℕ
get_session id s = elim (find_id (λ x. (s.session x).id) id s.sessions) [
  | none ↦ (unknown_session_id, none)
  | some x ↦ (success, some x)
]

module _ (lib : ArrayLib ℕ) where
  -- `inventory_add_session` and `inventory_add_object` once they have asked for an ID; `failure`
  -- is what daemonlib's `array_append` may answer.
  unfoldable pub place_session : ℕ → Option Errno → Option ℕ → Store → ApiE × Store
  place_session x failure none s = (no_free_session_id, s)
  place_session x (some errno) (some id) s =
      (get_error_code_from_errno errno, with_session x (λ e. record e { id = id }) s)
  place_session x none (some id) s = (
    success,
    with_session x (λ e. record e { id = id }) (record s { sessions = lib.append s.sessions x }),
  )

  unfoldable pub place_object : ℕ → Option Errno → Option ℕ → Store → ApiE × Store
  place_object a failure none s = (no_free_object_id, s)
  place_object a (some errno) (some id) s =
      (get_error_code_from_errno errno, with_object a (λ o. record o { id = id }) s)
  place_object a none (some id) s =
      let s' = with_object a (λ o. record o { id = id }) s in
      let t = (s'.object a).type in (success, with_array t (lib.append (s'.objects t) a) s')

  -- `inventory_add_session`
  unfoldable pub add_session : ℕ → Option Errno → Store → ApiE × Store
  unfolding get_next_session_id place_session
  add_session x failure s = let (id, s') = get_next_session_id s in place_session x failure id s'

  -- `inventory_add_object`
  unfoldable pub add_object : ℕ → Option Errno → Store → ApiE × Store
  unfolding get_next_object_id place_object
  add_object a failure s = let (id, s') = get_next_object_id s in place_object a failure id s'
