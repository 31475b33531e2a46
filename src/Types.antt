-- ===== src/Types.antt =====
-- The data that src/redapid/object.h, src/redapid/session.h and src/redapid/string.h declare.
use red_brick_apid.Base.{ℕ, ◌^◌, ◌-◌}
use red_brick_apid.Memory.{Block}

pub data ObjectType : Type 0 where
  string list file directory process program : ObjectType

-- The header that every object begins with. The list of its external references is kept in
-- `Store`, and its functions are told apart by `type`.
pub record Object : Type 0 where
  pub id : ℕ
  pub type : ObjectType
  pub internal_reference_count : ℕ
  pub external_reference_count : ℕ
  pub lock_count : ℕ

pub record String : Type 0 where
  pub buffer : Block
  pub length : ℕ
  pub allocated : ℕ

abbrev pub int32_max : ℕ
int32_max = 2 ^ 31 - 1

abbrev pub uint32_mod : ℕ
uint32_mod = 2 ^ 32
