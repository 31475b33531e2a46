-- ===== src/ListObject.antt =====
-- src/redapid/list.c: list objects. The items of a list are its holds, each with a lock.
pub mod Items
pub mod Append
use red_brick_apid.Base.{
  ℕ, zero, suc, ◌+◌, ◌-◌, ◌*◌, ◌%◌, ◌^◌, Bool, true, false, not, ◌&&◌, ◌||◌, Option, none, some,
  List, [], ◌∷◌, ◌++◌, arith, ltb, leb, ◌==◌, if◌then◌else◌, ◌≡◌, refl, ◌≤◌, ◌<◌, length, get_elem?,
}
use red_brick_apid.ApiError.{
  ApiE, Errno, is_success, success, out_of_range, no_free_memory, not_supported, object_is_locked,
  invalid_operation, wrong_list_item_type, get_error_code_from_errno,
}
use red_brick_apid.Types.{ObjectType, Object, list}
use red_brick_apid.Store.Arrays.{ArrayLib}
use red_brick_apid.Store.{Store, Hold, code, update}
use red_brick_apid.Inventory.{get_object}
use red_brick_apid.Object.{
  lock, unlock, add_internal_reference, remove_internal_reference, add_external_reference,
}
use red_brick_apid.Object.Create.{Attempts, object_create}

abbrev pub uint16_max : ℕ
uint16_max = 2 ^ 16 - 1

-- The list object's array of items, given anew.
abbrev pub with_items : ℕ → List Hold → Store → Store
with_items l items s = record s { holds = update s.holds l items }

abbrev pub item : ℕ → Hold
item a = record { target = a; locked = true }

-- The outcomes of the calls of `list_allocate` that can fail; `array_create` only fails for want of
-- memory for the items to come.
pub record ListAttempts : Type 0 where
  pub memory : Bool
  pub array_create_failure : Option Errno
  pub create : Attempts

-- `list_get_length`
unfoldable pub get_length : ℕ → Store → ApiE × ℕ
get_length l s = (success, length (s.holds l) % 2 ^ 16)

-- `list_get_item`: the item's ID and type, for an external reference of the session more.
unfoldable pub get_item : ℕ → ℕ → ℕ → Bool → Store → ApiE × Option (ℕ × ObjectType) × Store
get_item l index session memory s =
    if leb (length (s.holds l)) index
    then (out_of_range, none, s)
    else elim (get_elem? (s.holds l) index) [
      | none ↦ (out_of_range, none, s)
      | some h ↦
          let (error, s') = add_external_reference h.target session memory s in
          if is_success error
          then (success, some ((s'.object h.target).id, (s'.object h.target).type), s')
          else (error, none, s')
    ]

-- `list_ensure_item_type`
unfoldable pub ensure_item_type : ObjectType → List Hold → Store → ApiE
ensure_item_type t [] s = success
ensure_item_type t (h ∷ items) s =
    let rest = ensure_item_type t items s in
    if code (s.object h.target).type == code t then rest else wrong_list_item_type

-- `list_acquire_and_lock`
unfoldable pub acquire_and_lock : ℕ → Store → Store
acquire_and_lock l s = lock l (add_internal_reference l s)

-- `list_get_acquired_and_locked`
unfoldable pub get_acquired_and_locked : ℕ → ObjectType → Store → ApiE × Option ℕ × Store
get_acquired_and_locked id t s =
    let (error, found) = get_object (some list) id s in
    elim found [
      | none ↦ (error, none, s)
      | some l ↦
          let wrong = ensure_item_type t (s.holds l) s in
          if is_success wrong then (success, some l, acquire_and_lock l s) else (wrong, none, s)
    ]

module _ (lib : ArrayLib ℕ) where
  -- `list_allocate`, with the cell that `calloc` answers.
  unfoldable pub allocate : ℕ → Option ℕ → ℕ → ListAttempts → Store → ApiE × Store
  allocate l session flags attempts s =
      if not attempts.memory then (no_free_memory, s) else elim attempts.array_create_failure [
        | some errno ↦ (get_error_code_from_errno errno, s)
        | none ↦ object_create lib l list session flags attempts.create (with_items l [] s)
      ]

  -- `list_unlock_and_release`, and `list_unlock_and_release_item` on an item.
  unfoldable pub unlock_and_release : ℕ → Store → Option Store
  unlock_and_release a s = remove_internal_reference lib a (unlock a s)

module _ (lib : ArrayLib ℕ) (items : ArrayLib Hold) where
  -- The item is appended, acquired and locked.
  unfoldable pub append_item : ℕ → ℕ → Option Errno → Store → ApiE × Store
  append_item l a failure s = elim failure [
    | some errno ↦ (get_error_code_from_errno errno, s)
    | none ↦ (
      success,
      with_items l (items.append (s.holds l) (item a)) (lock a (add_internal_reference a s)),
    )
  ]

  -- `list_append_to`
  unfoldable pub append_to : ℕ → ℕ → Option Errno → Store → ApiE × Store
  append_to l item_id failure s =
      if item_id == (s.object l).id
      then (not_supported, s)
      else if ltb 0 (s.object l).lock_count
      then (object_is_locked, s)
      else if length (s.holds l) == uint16_max
      then (invalid_operation, s)
      else let (error, found) = get_object none item_id s in
        elim found [ none ↦ (error, s) | some a ↦ append_item l a failure s ]

  -- `list_remove_from`: the item leaves the list and is given back.
  unfoldable pub remove_from : ℕ → ℕ → Store → Option (ApiE × Store)
  remove_from l index s =
      if ltb 0 (s.object l).lock_count
      then some (object_is_locked, s)
      else if leb (length (s.holds l)) index
      then some (out_of_range, s)
      else elim (get_elem? (s.holds l) index) [
        | none ↦ some (out_of_range, s)
        | some h ↦
            elim (unlock_and_release lib h.target
              (with_items l (items.remove (s.holds l) index) s)) [
                | none ↦ none
                | some s' ↦ some (success, s')
              ]
      ]
