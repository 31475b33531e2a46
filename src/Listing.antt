-- ===== src/Listing.antt =====
-- `inventory_get_processes` and `inventory_get_programs` (src/redapid/inventory.c): a new list
-- object of the processes or the programs, for a session.
pub mod Fresh
pub mod Items
pub mod Allocated
pub mod Loop
pub mod Counts
use red_brick_apid.Base.{
  ℕ, Bool, true, false, not, ◌&&◌, Option, none, some, List, [], ◌∷◌, ◌==◌, if◌then◌else◌,
}
use red_brick_apid.ApiError.{ApiE, Errno, is_success, success}
use red_brick_apid.Types.{ObjectType, process, program}
use red_brick_apid.Store.Arrays.{ArrayLib}
use red_brick_apid.Store.{Store, Hold}
use red_brick_apid.Object.{remove_external_reference}
use red_brick_apid.Object.Create.{flag_external}
use red_brick_apid.ListObject.{ListAttempts, allocate, append_to}

module _ (lib : ArrayLib ℕ) (items : ArrayLib Hold) (l session : ℕ)
    (failures : ℕ → Option Errno) where
  -- What follows `list_append_to` in the loop: an error gives the list back and ends the call.
  abbrev pub after_append : (Store → Option (ApiE × Store)) → ApiE × Store → Option (ApiE × Store)
  after_append continue (error, s) =
      if is_success error then continue s else elim (remove_external_reference lib l session s) [
        | none ↦ none
        | some s' ↦ some (error, s')
      ]

  -- The loop over an array of objects; `referenced_only` skips those that only clients refer to, and
  -- `failures` has the outcome of `array_append` for each.
  unfoldable pub append_each : Bool → List ℕ → Store → Option (ApiE × Store)
  append_each referenced_only [] s = some (success, s)
  append_each referenced_only (a ∷ rest) s =
      elim (referenced_only && ((s.object a).internal_reference_count == 0)) [
        | true ↦ append_each referenced_only rest s
        | false ↦
            after_append (λ s'. append_each referenced_only rest s')
              (append_to lib items l (s.object a).id (failures a) s)
      ]

  -- The error code, the ID of the list, and the store.
  abbrev pub with_list_id : Option (ApiE × Store) → Option (ApiE × Option ℕ × Store)
  with_list_id none = none
  with_list_id (some (error, s)) =
      some (error, (if is_success error then some (s.object l).id else none), s)

  abbrev pub listed : Bool → ObjectType → ApiE × Store → Option (ApiE × Option ℕ × Store)
  listed referenced_only t (error, s) =
      if is_success error
      then with_list_id (append_each referenced_only (s.objects t) s)
      else some (error, none, s)

  -- `inventory_get_processes`
  unfoldable pub get_processes : ListAttempts → Store → Option (ApiE × Option ℕ × Store)
  get_processes attempts s =
      listed false process (allocate lib l (some session) flag_external attempts s)

  -- `inventory_get_programs`
  unfoldable pub get_programs : ListAttempts → Store → Option (ApiE × Option ℕ × Store)
  get_programs attempts s =
      listed true program (allocate lib l (some session) flag_external attempts s)
