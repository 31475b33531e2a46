-- ===== src/Session.antt =====
-- src/redapid/session.c: sessions, their expire timers, and the external references that they own.
pub mod Expire
pub mod Begin
use red_brick_apid.Base.{
  ℕ, zero, suc, ◌+◌, ◌-◌, ◌*◌, Bool, true, false, not, ◌&&◌, ◌||◌, Option, none, some, List, [],
  ◌∷◌, ◌++◌, arith, ltb, ◌==◌, if◌then◌else◌, ◌≡◌, refl, ◌≤◌, ◌<◌, length,
}
use red_brick_apid.ApiError.{
  ApiE, Errno, is_success, success, out_of_range, no_free_memory, get_error_code_from_errno,
}
use red_brick_apid.Types.{ObjectType, Object}
use red_brick_apid.Store.Arrays.{ArrayLib, index_of}
use red_brick_apid.Store.{
  Store, Hold, ExternalReference, Session, with_object, with_session, with_array,
}
use red_brick_apid.Inventory.{add_session}
use red_brick_apid.Object.{of_session, count_down, remove_object}

abbrev pub max_lifetime : ℕ
max_lifetime = 3600

-- The first reference of the session's list.
abbrev pub first_of_session : ℕ → List ExternalReference → Option ExternalReference
first_of_session x [] = none
first_of_session x (r ∷ rs) = if of_session x r then some r else first_of_session x rs

-- That reference, unlinked.
abbrev pub unlink_first : ℕ → List ExternalReference → List ExternalReference
unlink_first x [] = []
unlink_first x (r ∷ rs) = if of_session x r then rs else r ∷ unlink_first x rs

-- The outcomes of the calls of `session_create` that can fail.
pub record SessionAttempts : Type 0 where
  pub memory : Bool
  pub timer_create_failure : Option Errno
  pub timer_configure_failure : Option Errno
  pub append_failure : Option Errno

abbrev pub new_session : Session
new_session = record { id = 0; external_reference_count = 0; timer = none }

abbrev pub arm : ℕ → ℕ → Store → Store
arm x lifetime = with_session x (λ e. record e { timer = some (lifetime * 1000000) })

-- `session_keep_alive`
unfoldable pub keep_alive : ℕ → ℕ → Option Errno → Store → ApiE × Store
keep_alive x lifetime failure s =
    if ltb max_lifetime lifetime then (out_of_range, s) else elim failure [
      | some errno ↦ (get_error_code_from_errno errno, s)
      | none ↦ (success, arm x lifetime s)
    ]

module _ (lib : ArrayLib ℕ) where
  -- One round of the loop of `session_remove_external_references`: the reference goes, and the
  -- object with its last reference.
  unfoldable pub remove_reference : ℕ → ExternalReference → Store → Option Store
  remove_reference x r s =
      let s' =
        count_down r.object x r.count (record s { references = unlink_first x s.references }) in
      if (s'.object r.object).internal_reference_count == 0
        && (s'.object r.object).external_reference_count == 0
      then remove_object lib r.object s'
      else some s'

  -- The loop, with fuel for each reference that there is.
  unfoldable pub remove_external_references_from : ℕ → ℕ → Store → Option Store
  remove_external_references_from zero x s = none
  remove_external_references_from (suc fuel) x s = elim (first_of_session x s.references) [
    | none ↦ some s
    | some r ↦ elim (remove_reference x r s) [
      | none ↦ none
      | some s' ↦ remove_external_references_from fuel x s'
    ]
  ]

  -- `session_remove_external_references`
  unfoldable pub remove_external_references : ℕ → Store → Option Store
  remove_external_references x s = remove_external_references_from (suc (length s.references)) x s

  -- `session_destroy`, without the log of what the session still refers to.
  unfoldable pub destroy : ℕ → Store → Option Store
  destroy x s = remove_external_references x (with_session x (λ e. record e { timer = none }) s)

  -- `inventory_remove_session`
  unfoldable pub remove_session : ℕ → Store → Option Store
  remove_session x s = elim (index_of x s.sessions) [
    | none ↦ some s
    | some i ↦ destroy x (record s { sessions = lib.remove s.sessions i })
  ]

  -- `session_expire_helper`, for `session_expire` and for the timer.
  unfoldable pub expire : ℕ → Store → Option Store
  expire x s = elim (remove_external_references x s) [ none ↦ none | some s' ↦ remove_session x s' ]

  -- `session_create`: the error code, the ID of the session, and the store.
  unfoldable pub create : ℕ → ℕ → SessionAttempts → Store → ApiE × Option ℕ × Store
  create x lifetime attempts s =
      if ltb max_lifetime lifetime
      then (out_of_range, none, s)
      else if not attempts.memory
      then (no_free_memory, none, s)
      else elim attempts.timer_create_failure [
        | some errno ↦ (get_error_code_from_errno errno, none, with_session x (λ e. new_session) s)
        | none ↦ elim attempts.timer_configure_failure [
          | some errno ↦
              (get_error_code_from_errno errno, none, with_session x (λ e. new_session) s)
          | none ↦
              let (error, s') =
                add_session lib x attempts.append_failure
                  (arm x lifetime (with_session x (λ e. new_session) s)) in
              if is_success error
              then (success, some (s'.session x).id, s')
              else (error, none, with_session x (λ e. record e { timer = none }) s')
        ]
      ]
