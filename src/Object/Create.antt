-- ===== src/Object/Create.antt =====
-- `object_create` (src/redapid/object.c): the header of a new object, its first references, its ID.
pub mod Invariant
pub mod Cell
pub mod Leak
pub mod Success
pub mod Live
pub mod Refused
use red_brick_apid.Base.{
  ℕ, zero, suc, ◌+◌, ◌-◌, ◌/◌, ◌%◌, Bool, true, false, not, ◌&&◌, ◌||◌, Option, none, some, List,
  [], ◌∷◌, ◌++◌, arith, ltb, ◌==◌, if◌then◌else◌, ◌≡◌, refl, ◌≤◌, ◌<◌, Bool-cases, ==→eq, inl, inr,
  sym, ap, subst, ◌∙◌,
}
use red_brick_apid.ApiError.{ApiE, Errno, is_success, success, internal_error}
use red_brick_apid.Types.{ObjectType, Object}
use red_brick_apid.Store.Arrays.{ArrayLib}
use red_brick_apid.Store.{
  Store, Hold, ExternalReference, Session, with_object, with_session, with_array,
}
use red_brick_apid.Inventory.{add_object}
use red_brick_apid.Object.{lock, add_internal_reference, add_external_reference}

-- OBJECT_CREATE_FLAG_INTERNAL, OBJECT_CREATE_FLAG_EXTERNAL and OBJECT_CREATE_FLAG_LOCKED
abbrev pub flag_internal : ℕ
flag_internal = 1

abbrev pub flag_external : ℕ
flag_external = 2

abbrev pub flag_locked : ℕ
flag_locked = 4

-- `(flags & flag) != 0` for a flag of one bit
abbrev pub has_flag : ℕ → ℕ → Bool
has_flag flags flag = (flags / flag) % 2 == 1

-- The header as it is before the flags are read.
abbrev pub with_header : ℕ → ObjectType → Store → Store
with_header a t = with_object a (λ o. record {
  id = 0;
  type = t;
  internal_reference_count = 0;
  external_reference_count = 0;
  lock_count = 0;
})

-- The outcomes of the calls that can fail: the memory for a reference, and `array_append`.
pub record Attempts : Type 0 where
  pub memory : Bool
  pub append_failure : Option Errno

abbrev pub is_some : Option ℕ → Bool
is_some none = false
is_some (some _) = true

-- The external reference, if the flags ask for one.
abbrev pub first_external : ℕ → ℕ → Option ℕ → Bool → Store → ApiE × Store
first_external a flags none memory s = (success, s)
first_external a flags (some x) memory s =
    if has_flag flags flag_external then add_external_reference a x memory s else (success, s)

module _ (lib : ArrayLib ℕ) where
  -- The part behind the checks of the flags.
  unfoldable pub create_referenced : ℕ → ℕ → Option ℕ → Attempts → Store → ApiE × Store
  create_referenced a flags session attempts s =
      let s₁ = if has_flag flags flag_internal then add_internal_reference a s else s in
      let (error, s₂) = first_external a flags session attempts.memory s₁ in
      if is_success error
      then add_object lib a attempts.append_failure
          (if has_flag flags flag_locked then lock a s₂ else s₂)
      else (error, s₂)

  -- `object_create`
  unfoldable pub object_create : ℕ → ObjectType → Option ℕ → ℕ → Attempts → Store → ApiE × Store
  object_create a t session flags attempts s =
      let s₁ = with_header a t s in
      if not (has_flag flags flag_internal) && not (has_flag flags flag_external)
      then (internal_error, s₁)
      else if has_flag flags flag_external && not (is_some session)
      then (internal_error, s₁)
      else if has_flag flags flag_locked && not (has_flag flags flag_internal)
      then (internal_error, s₁)
      else create_referenced a flags session attempts s₁
