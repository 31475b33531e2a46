-- ===== src/Stock/Get.antt =====
-- `inventory_get_stock_string` on every path (src/redapid/inventory.c).
use red_brick_apid.Base.{
  ℕ, suc, ◌+◌, true, Option, none, some, List, [], ◌∷◌, arith, ◌==◌, if◌then◌else◌, ◌≡◌, refl, ◌≢◌,
  ◌<◌, ◌≤◌, length, Bool-cases, Option-cases, inl, inr, ap, sym, ◌∙◌,
}
use red_brick_apid.ApiError.{
  ApiE, Errno, is_success, is_success-eq, success, get_error_code_from_errno-ne-success,
}
use red_brick_apid.Memory.{NoZero, c_string}
use red_brick_apid.Types.{String, int32_max}
use red_brick_apid.Store.Arrays.{ArrayLib, tally-append, occurrences}
use red_brick_apid.Store.{Store, Hold}
use red_brick_apid.Object.{lock, add_internal_reference}
use red_brick_apid.Object.Invariant.{Inv, locked_hold}
use red_brick_apid.Object.References.{acquire_and_lock-Inv}
use red_brick_apid.Object.Create.{flag_internal, flag_locked}
use red_brick_apid.Object.Create.Cell.{InNoArray}
use red_brick_apid.StringObject.{Growth}
use red_brick_apid.StringObject.Creation.{wrap, acquire_and_lock, unlock_and_release}
use red_brick_apid.Scheduler.Stopping.{unlock_and_release-Inv}
use red_brick_apid.StringObject.Creation.Refused.{Wrapped, wrapped, refused, wrap-Wrapped}
use red_brick_apid.StringObject.Creation.Calls.{wrap-Holds}
use red_brick_apid.Stock.{
  same_text, find_text, StockAttempts, StockResult, add_stock, after_wrap, get_stock_string,
}

-- The inventory takes over the hold on a string that is added to the stock.
stocked-Inv :
    (lib : ArrayLib ℕ) (a : ℕ) (s : Store) (pending : List Hold)
    → Inv s (locked_hold a ∷ pending)
    → Inv (record s { stock_strings = lib.append s.stock_strings a }) pending
stocked-Inv lib a s pending v =
    let more : (t : ℕ)
        → occurrences t (lib.append s.stock_strings a)
          ≡ occurrences t s.stock_strings + (if a == t then 1 else 0) =
      λ t.
        rw (lib.append_lem s.stock_strings a)
          (omega (arith, tally-append (λ b. if b == t then 1 else 0) s.stock_strings (a ∷ []))) in
    record {
      internal = λ t. ground (arith, v.internal t, more t);
      locks = λ t. ground (arith, v.locks t, more t);
      internal_held = λ t l. ground (arith, v.internal_held t l, more t);
      locks_held = λ t l. ground (arith, v.locks_held t l, more t);
      held_live = λ t h. v.held_live t (ground (arith, h, more t));
      once = v.once;
      external = v.external;
      of_sessions = v.of_sessions;
      positive = v.positive;
      external_live = v.external_live;
      typed = v.typed;
      session_once = v.session_once;
      sessions_live = v.sessions_live;
    }

find_text-found :
    (text : List ℕ) (b : ℕ) (stock : List ℕ) (texts : ℕ → String)
    → find_text text stock texts ≡ some b
    → (same_text text (texts b).buffer.byte ≡ true) × (0 < occurrences b stock)
find_text-found text b [] texts h = cc
find_text-found text b (a ∷ stock) texts h =
    elim (Bool-cases (same_text text (texts a).buffer.byte)) [
      | inl here ↦ ground arith
      | inr there ↦ ground (arith, find_text-found text b stock texts)
    ]

same_text-holds :
    (text : List ℕ) (buffer : ℕ → ℕ)
    → ((i : ℕ) → i < length text → buffer i ≡ c_string text i)
    → buffer (length text) ≡ 0
    → same_text text buffer ≡ true
same_text-holds [] buffer same end = ground arith
same_text-holds (c ∷ text) buffer same end = ground (
  arith,
  same 0,
  same_text-holds text (λ i. buffer (suc i)) (λ i lt. same (suc i) (omega arith)) end,
)

module _ (lib : ArrayLib ℕ) (text : List ℕ) (pending : List Hold) where
  -- The caller has a hold on a stock string of the text.
  pub record IsStocked (b : ℕ) (after : Store) : Type 0 where
    pub inv : Inv after (locked_hold b ∷ pending)
    pub same : same_text text (after.text b).buffer.byte ≡ true
    pub in_stock : 0 < occurrences b after.stock_strings

  pub data StockOutcome : StockResult → Type 0 where
    stocked :
        (b : ℕ) (after : Store) → IsStocked b after → StockOutcome (some (success, some b, after))
    failed :
        (error : ApiE) (after : Store)
        → error ≢ success
        → Inv after pending
        → StockOutcome (some (error, none, after))

  from_stock :
      (b : ℕ) (s : Store)
      → Inv s pending
      → find_text text s.stock_strings s.text ≡ some b
      → IsStocked b (acquire_and_lock b s)
  unfolding acquire_and_lock lock add_internal_reference
  from_stock b s v h =
      let (same, there) = find_text-found text b s.stock_strings s.text h in
      let live = v.held_live b (omega (arith, there)) in
      record { inv = acquire_and_lock-Inv b pending s v live; same = same; in_stock = there }

  added_stock :
      (a : ℕ) (s : Store)
      → Inv s (locked_hold a ∷ pending)
      → same_text text (s.text a).buffer.byte ≡ true
      → IsStocked a (acquire_and_lock a (record s { stock_strings = lib.append s.stock_strings a }))
  unfolding acquire_and_lock lock add_internal_reference
  added_stock a s v same =
      let live = v.held_live a (ground arith) in
      record {
        inv =
            acquire_and_lock-Inv a pending
              (record s { stock_strings = lib.append s.stock_strings a })
              (stocked-Inv lib a s pending v) live;
        same = same;
        in_stock =
            rw (lib.append_lem s.stock_strings a) (
              ground (arith, tally-append (λ b. if b == a then 1 else 0) s.stock_strings (a ∷ [])));
      }

  add_stock-Outcome :
      (a : ℕ) (failure : Option Errno) (s : Store)
      → Inv s (locked_hold a ∷ pending)
      → same_text text (s.text a).buffer.byte ≡ true
      → StockOutcome (add_stock lib a failure s)
  unfolding add_stock unlock_and_release
  add_stock-Outcome a none s v same = stocked a _ (added_stock a s v same)
  add_stock-Outcome a (some errno) s v same =
      let (s', e, v') = unlock_and_release-Inv lib a pending s v in
      rw (add_stock, e) (failed _ s' (get_error_code_from_errno-ne-success errno) v')

  module _ (growth : Growth) (a : ℕ) (attempts : StockAttempts) (s : Store) where
    abbrev new_string : Option (ApiE × Store)
    new_string = wrap growth lib a text none (flag_internal + flag_locked) attempts.wrap s

    same_wrapped :
        (s' : Store)
        → new_string ≡ some (success, s')
        → NoZero text
        → length text ≤ int32_max
        → Inv s pending
        → InNoArray a s
        → same_text text (s'.text a).buffer.byte ≡ true
    same_wrapped s' made nonzero small v absent =
        let (t, _) =
          wrap-Holds growth lib a attempts.wrap s text none (flag_internal + flag_locked) pending s'
            nonzero small v absent tt made in
        same_text-holds text (s'.text a).buffer.byte (λ i lt. t.same_bytes i lt)
          (ap (s'.text a).buffer.byte (sym t.same_length) ∙ t.valid.terminated)

    after_wrap-Outcome :
        (r : Option (ApiE × Store))
        → Wrapped a pending r
        → ((s' : Store) → r ≡ some (success, s') → same_text text (s'.text a).buffer.byte ≡ true)
        → StockOutcome (after_wrap lib a attempts.append_failure r)
    after_wrap-Outcome r (wrapped s' v') same =
        add_stock-Outcome a attempts.append_failure s' v' (same s' refl)
    after_wrap-Outcome r (refused error s' ne v') same = elim (Bool-cases (is_success error)) [
      | inr bad ↦ rw bad (failed error s' ne v')
      | inl good ↦ absurd (ne (is_success-eq error good))
    ]

    -- When the counts are right, `inventory_get_stock_string` of a text without zeros of at most
    -- INT32_MAX bytes, with a new cell, returns: either success and a stock string with exactly
    -- that text, on which the caller has an internal reference and a lock of its own; or an error.
    -- Either way the counts are right.
    pub get_stock_string-StockOutcome :
        NoZero text
        → length text ≤ int32_max
        → Inv s pending
        → InNoArray a s
        → StockOutcome (get_stock_string lib growth a text attempts s)
    unfolding get_stock_string
    get_stock_string-StockOutcome nonzero small v absent =
        elim (Option-cases (find_text text s.stock_strings s.text)) [
          | inr (b, found) ↦ rw (get_stock_string, found) (stocked b _ (from_stock b s v found))
          | inl missing ↦
              rw (missing, get_stock_string)
                (after_wrap-Outcome new_string
                  (wrap-Wrapped growth lib a text attempts.wrap s pending v absent nonzero small)
                  (λ s' made. same_wrapped s' made nonzero small v absent))
        ]
