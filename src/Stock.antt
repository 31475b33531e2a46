-- ===== src/Stock.antt =====
-- The stock strings of src/redapid/inventory.c: string objects that are shared by all that ask for
-- a fixed text. The inventory keeps an internal reference and a lock on each.
pub mod Frame
pub mod Get
use red_brick_apid.Base.{
  ℕ, zero, suc, ◌+◌, Bool, true, false, ◌&&◌, Option, none, some, List, [], ◌∷◌, ◌++◌, ◌==◌, map,
  if◌then◌else◌, ◌≡◌,
}
use red_brick_apid.ApiError.{ApiE, Errno, is_success, success, get_error_code_from_errno}
use red_brick_apid.Types.{String}
use red_brick_apid.Store.Arrays.{ArrayLib}
use red_brick_apid.Store.{Store}
use red_brick_apid.Object.Create.{flag_internal, flag_locked}
use red_brick_apid.StringObject.{Growth}
use red_brick_apid.StringObject.Creation.{
  StringAttempts, wrap, acquire_and_lock, unlock_and_release,
}

-- `strcmp(buffer, text) == 0`, for a text without zeros.
abbrev pub same_text : List ℕ → (ℕ → ℕ) → Bool
same_text [] buffer = buffer 0 == 0
same_text (c ∷ text) buffer = buffer 0 == c && same_text text (λ i. buffer (suc i))

-- The loop over the stock strings.
abbrev pub find_text : List ℕ → List ℕ → (ℕ → String) → Option ℕ
find_text text [] texts = none
find_text text (a ∷ stock) texts =
    if same_text text (texts a).buffer.byte then some a else find_text text stock texts

-- The outcomes of the calls that can fail.
pub record StockAttempts : Type 0 where
  pub wrap : StringAttempts
  pub append_failure : Option Errno

-- The error code, the string object if there is one, and the store; `none` is undefined behaviour.
abbrev pub StockResult : Type 0
StockResult = Option (ApiE × Option ℕ × Store)

module _ (lib : ArrayLib ℕ) where
  -- The new string joins the stock, and the caller gets a hold of its own.
  unfoldable pub add_stock : ℕ → Option Errno → Store → StockResult
  add_stock a failure s = elim failure [
    | some errno ↦ elim (unlock_and_release lib a s) [
      | none ↦ none
      | some s' ↦ some (get_error_code_from_errno errno, none, s')
    ]
    | none ↦ some (
      success,
      some a,
      acquire_and_lock a (record s { stock_strings = lib.append s.stock_strings a }),
    )
  ]

  abbrev pub after_wrap : ℕ → Option Errno → Option (ApiE × Store) → StockResult
  after_wrap a failure none = none
  after_wrap a failure (some (error, s)) =
      if is_success error then add_stock a failure s else some (error, none, s)

  -- `inventory_get_stock_string`, with the cell that `calloc` would answer.
  unfoldable pub get_stock_string : Growth → ℕ → List ℕ → StockAttempts → Store → StockResult
  get_stock_string growth a text attempts s = elim (find_text text s.stock_strings s.text) [
    | some b ↦ some (success, some b, acquire_and_lock b s)
    | none ↦
        after_wrap a attempts.append_failure
          (wrap growth lib a text none (flag_internal + flag_locked) attempts.wrap s)
  ]
