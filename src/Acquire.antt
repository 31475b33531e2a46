-- ===== src/Acquire.antt =====
-- How a call takes hold of the objects that it is given the IDs of, and gives them back:
-- `string_get_acquired_and_locked` (src/redapid/string.c), `file_get_acquired` and `file_release`
-- (src/redapid/file.c), and the cleanup by phases of the calls that use them.
pub mod Getters
pub mod Cleanup
pub mod Owner
use red_brick_apid.Base.{ℕ, Bool, Option, none, some, List, [], ◌∷◌}
use red_brick_apid.ApiError.{ApiE, success}
use red_brick_apid.Types.{string, file}
use red_brick_apid.Store.Arrays.{ArrayLib}
use red_brick_apid.Store.{Store, Hold}
use red_brick_apid.Inventory.{get_object}
use red_brick_apid.Object.{add_internal_reference, remove_internal_reference, give_back}
use red_brick_apid.StringObject.Creation.{acquire_and_lock}

-- An error code, the object that was found, and the store.
abbrev pub Lookup : Type 0
Lookup = ApiE × Option ℕ × Store

-- `string_get_acquired_and_locked`
unfoldable pub get_string : ℕ → Store → Lookup
get_string id s =
    let (error, found) = get_object (some string) id s in
    elim found [ none ↦ (error, none, s) | some a ↦ (success, some a, acquire_and_lock a s) ]

-- `file_get_acquired`
unfoldable pub get_file : ℕ → Store → Lookup
get_file id s =
    let (error, found) = get_object (some file) id s in
    elim found [ none ↦ (error, none, s) | some a ↦ (success, some a, add_internal_reference a s) ]

-- What a call answers: the error code, its result, and the store.
abbrev pub Answer : Type 0 → Type 0
Answer A = Option (ApiE × Option A × Store)

module _ (lib : ArrayLib ℕ) {A : Type 0} where
  -- The end of a call that fails, where the cases of the cleanup fall through from its phase: what
  -- it holds is given back, the latest first.
  unfoldable pub fail : Option A → ApiE → List Hold → Store → Answer A
  fail result error holds s = elim (give_back (remove_internal_reference lib) holds s) [
    | none ↦ none
    | some s' ↦ some (error, result, s')
  ]

  -- An object that was looked up is held, and the call goes on with it.
  abbrev pub after_lookup :
      Bool → List Hold → (ℕ → List Hold → Store → Answer A) → Lookup → Answer A
  after_lookup locked holds next (error, none, s) = fail none error holds s
  after_lookup locked holds next (error, some a, s) =
      next a (record { target = a; locked = locked } ∷ holds) s
