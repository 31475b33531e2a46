-- ===== src/Acquire/Getters.antt =====
-- What a call holds once it has looked an object up: `string_get_acquired_and_locked`
-- (src/redapid/string.c), `list_get_acquired_and_locked` (src/redapid/list.c) and
-- `file_get_acquired` (src/redapid/file.c).
use red_brick_apid.Base.{
  ℕ, Bool, true, false, none, some, List, ◌∷◌, arith, ◌≡◌, ◌≢◌, Option-cases, Bool-cases, inl, inr,
  sym, ap, ◌∙◌,
}
use mathlib.Core.Bool.{false≢true}
use red_brick_apid.ApiError.{ApiE, is_success, success, unknown_object_id}
use red_brick_apid.Types.{ObjectType, Object, string, file, list}
use red_brick_apid.Store.{Store, Hold}
use red_brick_apid.Object.{add_internal_reference}
use red_brick_apid.Object.Invariant.{Inv, IsLive, unlocked_hold}
use red_brick_apid.Object.References.{acquire_and_lock-Inv}
use red_brick_apid.Inventory.{get_object}
use red_brick_apid.Inventory.Lookup.{get_object-found, get_object-missing}
use red_brick_apid.StringObject.Creation.{acquire_and_lock}
use red_brick_apid.ListObject.{get_acquired_and_locked, ensure_item_type}
use red_brick_apid.Acquire.{Lookup, get_string, get_file}

pub add_internal_reference-Inv :
    (a : ℕ) (pending : List Hold) (s : Store)
    → Inv s pending
    → IsLive s a
    → Inv (add_internal_reference a s) (unlocked_hold a ∷ pending)
unfolding add_internal_reference
add_internal_reference-Inv a pending s v live = record {
  internal = λ t. ground (arith, v.internal t);
  locks = λ t. ground (arith, v.locks t);
  internal_held = λ t l. ground (arith, v.internal_held t);
  locks_held = λ t l. ground (arith, v.locks_held t);
  held_live = λ t p. ground (arith, v.held_live t, live);
  once = v.once;
  external = λ b. ground (arith, v.external b);
  typed = λ b u p. ground (arith, v.typed b u);
  session_once = v.session_once;
  of_sessions = v.of_sessions;
  positive = v.positive;
  external_live = λ b p. ground (arith, v.external_live b);
  sessions_live = v.sessions_live;
}

module _ (locked : Bool) (pending : List Hold) (s : Store) where
  -- The object that has the ID is held, or nothing has changed.
  pub data Acquired : Lookup → Type 0 where
    missing : (error : ApiE) → error ≢ success → Acquired (error, none, s)
    acquired :
        (a : ℕ) (object : ℕ → Object)
        → Inv (record s { object = object }) (record { target = a; locked = locked } ∷ pending)
        → Acquired (success, some a, record s { object = object })

module _ (pending : List Hold) (s : Store) (v : Inv s pending) where
  unknown : (error : ApiE) → error ≡ unknown_object_id → error ≢ success
  unknown error e h = let clash : unknown_object_id ≡ success = sym e ∙ h in cc

  found-IsLive : (t : ObjectType) (id a : ℕ) → (get_object (some t) id s).1 ≡ some a → IsLive s a
  found-IsLive t id a h = let (_, (u, p, _)) = get_object-found (some t) id a s h in v.typed a u p

  pub get_string-Acquired : (id : ℕ) → Acquired true pending s (get_string id s)
  unfolding get_string acquire_and_lock red_brick_apid.Object.lock
      red_brick_apid.Object.add_internal_reference
  get_string-Acquired id = elim (Option-cases (get_object (some string) id s).1) [
    | inl h ↦ rw (get_string, h) (missing _ (unknown _ (get_object-missing (some string) id s h)))
    | inr (a, h) ↦
        let live = found-IsLive string id a h in
        let v' = acquire_and_lock-Inv a pending s v live in rw (get_string, h) (acquired a _ v')
  ]

  pub get_file-Acquired : (id : ℕ) → Acquired false pending s (get_file id s)
  unfolding get_file add_internal_reference
  get_file-Acquired id = elim (Option-cases (get_object (some file) id s).1) [
    | inl h ↦ rw (get_file, h) (missing _ (unknown _ (get_object-missing (some file) id s h)))
    | inr (a, h) ↦
        let v' = add_internal_reference-Inv a pending s v (found-IsLive file id a h) in
        rw (get_file, h) (acquired a _ v')
  ]

  pub get_list-Acquired :
      (id : ℕ) (t : ObjectType) → Acquired true pending s (get_acquired_and_locked id t s)
  unfolding get_acquired_and_locked red_brick_apid.Object.add_internal_reference
      red_brick_apid.Object.lock red_brick_apid.ListObject.acquire_and_lock
  get_list-Acquired id t = elim (Option-cases (get_object (some list) id s).1) [
    | inl h ↦
        rw (get_acquired_and_locked, h)
          (missing _ (unknown _ (get_object-missing (some list) id s h)))
    | inr (a, h) ↦ elim (Bool-cases (is_success (ensure_item_type t (s.holds a) s))) [
      | inr wrong ↦
          rw (get_acquired_and_locked, h, wrong)
            (missing _ (λ e. false≢true (sym wrong ∙ ap is_success e)))
      | inl fine ↦
          let v' = acquire_and_lock-Inv a pending s v (found-IsLive list id a h) in
          rw (get_acquired_and_locked, h, fine) (acquired a _ v')
    ]
  ]
