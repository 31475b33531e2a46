-- ===== src/Session/Begin.antt =====
-- `session_create` (src/redapid/session.c) on every path.
use red_brick_apid.Base.{
  ℕ, ◌*◌, false, Option, none, some, List, [], ◌∷◌, ◌++◌, arith, ltb, ◌==◌, if◌then◌else◌, ◌≡◌,
  refl, ◌≢◌, ◌<◌, ◌≤◌, Bool-cases, Option-cases, inl, inr, sym, ◌∙◌, subst,
}
use red_brick_apid.ApiError.{
  ApiE, Errno, is_success, success, get_error_code_from_errno-ne-success,
  get_error_code_from_errno-fails,
}
use red_brick_apid.Store.Arrays.{ArrayLib, tally-append, occurrences}
use red_brick_apid.Store.{Store, Session, Hold, with_session}
use red_brick_apid.Inventory.{
  has_id, next_free_id, get_next_session_id, id_max, session_id_used, place_session, add_session,
}
use red_brick_apid.Inventory.Ids.{next_free_id-free}
use red_brick_apid.Object.Invariant.{Inv}
use red_brick_apid.Session.{SessionAttempts, max_lifetime, new_session, arm, create}

module _ (lib : ArrayLib ℕ) (x : ℕ) (pending : List Hold) where
  -- What is written to the cell of a session that is not in the inventory.
  renewed-Inv :
      (e : Session) (next : ℕ) (s : Store)
      → Inv s pending
      → occurrences x s.sessions ≡ 0
      → e.external_reference_count ≡ 0
      → Inv (with_session x (λ old. e) (record s { next_session_id = next })) pending
  renewed-Inv e next s v absent none_owned = record {
    internal = v.internal;
    locks = v.locks;
    internal_held = v.internal_held;
    locks_held = v.locks_held;
    held_live = v.held_live;
    once = v.once;
    external = v.external;
    of_sessions = λ y. ground (arith, v.of_sessions y, v.sessions_live y);
    positive = v.positive;
    external_live = v.external_live;
    typed = v.typed;
    session_once = v.session_once;
    sessions_live = λ y p. ground (arith, v.sessions_live y);
  }

  -- The session joins the inventory.
  joined-Inv :
      (s : Store)
      → Inv s pending
      → occurrences x s.sessions ≡ 0
      → Inv (record s { sessions = s.sessions ++ x ∷ [] }) pending
  joined-Inv s v absent =
      let more = λ (y : ℕ). tally-append (λ b. if b == y then 1 else 0) s.sessions (x ∷ []) in
      record {
        internal = v.internal;
        locks = v.locks;
        internal_held = v.internal_held;
        locks_held = v.locks_held;
        held_live = v.held_live;
        once = v.once;
        external = v.external;
        of_sessions = v.of_sessions;
        positive = v.positive;
        external_live = v.external_live;
        typed = v.typed;
        session_once = λ y. ground (arith, v.session_once y, more y);
        sessions_live = λ y p. ground (arith, v.sessions_live y, more y);
      }

module _ (lib : ArrayLib ℕ) (x lifetime : ℕ) (pending : List Hold) (s : Store) where
  -- A new session with an ID that was free and with its timer started, or an error.
  pub data CreateOutcome : ApiE × Option ℕ × Store → Type 0 where
    created :
        (id : ℕ) (after : Store)
        → lifetime ≤ max_lifetime
        → (after.session x).timer ≡ some (lifetime * 1000000)
        → (after.session x).id ≡ id
        → (session_id_used s id ≡ false) × (0 < id)
        → 0 < occurrences x after.sessions
        → Inv after pending
        → CreateOutcome (success, some id, after)
    refused :
        (error : ApiE) (after : Store)
        → error ≢ success
        → after.sessions ≡ s.sessions
        → Inv after pending
        → CreateOutcome (error, none, after)

  module _ (v : Inv s pending) (absent : occurrences x s.sessions ≡ 0)
      (bound : s.next_session_id < 65536) where
    abbrev zeroed : Store
    zeroed = with_session x (λ e. new_session) s

    abbrev armed : Store
    armed = arm x lifetime zeroed

    zeroed-Inv : Inv zeroed pending
    zeroed-Inv = renewed-Inv lib x pending new_session s.next_session_id s v absent refl

    armed-Inv : Inv armed pending
    armed-Inv =
        renewed-Inv lib x pending (record (zeroed.session x) { timer = some (lifetime * 1000000) })
          s.next_session_id zeroed zeroed-Inv absent (ground arith)

    unseen_ids :
        (xs : List ℕ) (id : ℕ)
        → occurrences x xs ≡ 0
        → has_id (λ y. (armed.session y).id) id xs ≡ has_id (λ y. (s.session y).id) id xs
    unseen_ids [] id h = refl
    unseen_ids (y ∷ xs) id h = ground (arith, unseen_ids xs id)

    -- The end of the call, once an ID was asked for.
    abbrev finish : ApiE × Store → ApiE × Option ℕ × Store
    finish (error, s') =
        if is_success error
        then (success, some (s'.session x).id, s')
        else (error, none, with_session x (λ e. record e { timer = none }) s')

    placed-Outcome :
        (small : lifetime ≤ max_lifetime) (failure : Option Errno) (r : Option ℕ) (next : ℕ)
        → next_free_id id_max (session_id_used armed) s.next_session_id ≡ (r, next)
        → CreateOutcome
            (finish (place_session lib x failure r (record armed { next_session_id = next })))
    unfolding place_session
    placed-Outcome small failure none next h =
        refused _ _ (λ e. cc) refl
          (renewed-Inv lib x pending _ next armed armed-Inv absent (ground arith))
    placed-Outcome small (some errno) (some id) next h =
        let identified : Store =
          with_session x (λ e. record e { id = id }) (record armed { next_session_id = next }) in
        let v' : Inv identified pending =
          renewed-Inv lib x pending (record (armed.session x) { id = id }) next armed armed-Inv
            absent (ground arith) in
        rw (get_error_code_from_errno-fails errno) (
          refused _ _ (get_error_code_from_errno-ne-success errno) refl (
            renewed-Inv lib x pending (record (identified.session x) { timer = none }) next
              identified v' absent (ground arith)))
    placed-Outcome small none (some id) next h =
        let (free, pos, _, _) =
          next_free_id-free id_max (session_id_used armed) s.next_session_id id next bound h in
        let identified : Store =
          with_session x (λ e. record e { id = id }) (record armed { next_session_id = next }) in
        let same : (identified.session x).id ≡ id = ground arith in
        rw lib.append_lem (
          created _ _ small (ground arith) refl
            (subst (λ k. (session_id_used s k ≡ false) × (0 < k)) (sym same)
              (sym (unseen_ids s.sessions id absent) ∙ free, pos))
            (ground (arith, tally-append (λ b. if b == x then 1 else 0) s.sessions (x ∷ [])))
            (joined-Inv lib x pending _
              (renewed-Inv lib x pending _ next armed armed-Inv absent (ground arith)) absent))

    -- In a store with right counts and a 16-bit counter, `session_create` in a cell that is no
    -- session of the inventory keeps the counts right and either answers success for a lifetime of
    -- at most 3600 seconds, with an ID that is not zero and that no other session had, the timer
    -- started with the lifetime in microseconds and the session in the inventory; or it answers an
    -- error, without an ID, and leaves the sessions of the inventory alone.
    pub create-CreateOutcome :
        (attempts : SessionAttempts) → CreateOutcome (create lib x lifetime attempts s)
    unfolding create add_session get_next_session_id
    create-CreateOutcome attempts = elim (Bool-cases (ltb max_lifetime lifetime)) [
      | inl long ↦ rw (create, long) (refused _ _ (λ e. cc) refl v)
      | inr fine ↦ elim (Bool-cases attempts.memory) [
        | inr short ↦ rw (create, fine, short) (refused _ _ (λ e. cc) refl v)
        | inl enough ↦ elim (Option-cases attempts.timer_create_failure) [
          | inr (errno, h) ↦
              rw (create, fine, enough, h)
                (refused _ _ (get_error_code_from_errno-ne-success errno) refl zeroed-Inv)
          | inl timer ↦ elim (Option-cases attempts.timer_configure_failure) [
            | inr (errno, h) ↦
                rw (create, fine, enough, timer, h)
                  (refused _ _ (get_error_code_from_errno-ne-success errno) refl zeroed-Inv)
            | inl started ↦
                rw (create, fine, enough, timer, started)
                  (placed-Outcome (ground arith) attempts.append_failure
                    (next_free_id id_max (session_id_used armed) s.next_session_id).0
                    (next_free_id id_max (session_id_used armed) s.next_session_id).1 refl)
          ]
        ]
      ]
    ]
