-- ===== src/Acquire/Owner.antt =====
-- What a call holds becomes what a new object holds (the end of `process_spawn` in
-- src/redapid/process.c, and of the other calls that make objects).
use red_brick_apid.Base.{ℕ, List, [], ◌++◌, arith, ◌≡◌, ap}
use red_brick_apid.Store.Arrays.{tally, tally-append}
use red_brick_apid.Store.{Store, Hold}
use red_brick_apid.Object.Invariant.{Inv, IsLive, on, locks_on}
use red_brick_apid.ListObject.{with_items}
use red_brick_apid.ListObject.Items.{over_objects-more}

pub moved_in-Inv :
    (l : ℕ) (holds pending : List Hold) (s : Store)
    → Inv s (holds ++ pending)
    → IsLive s l
    → s.holds l ≡ []
    → Inv (with_items l holds s) pending
moved_in-Inv l holds pending s v live nothing =
    let more = λ (t : ℕ).
      over_objects-more l holds s live (v.once l) (tally (on t)) (tally (on t) holds)
        (omega (arith, ap (tally (on t)) nothing)) in
    let more_locked = λ (t : ℕ).
      over_objects-more l holds s live (v.once l) (tally (locks_on t)) (tally (locks_on t) holds)
        (omega (arith, ap (tally (locks_on t)) nothing)) in
    let both = λ (f : Hold → ℕ). tally-append f holds pending in
    record {
      internal = λ t. omega (arith, v.internal t, more t, both (on t));
      locks = λ t. omega (arith, v.locks t, more_locked t, both (locks_on t));
      internal_held = λ t l. omega (arith, v.internal_held t l, more t, both (on t));
      locks_held = λ t l. omega (arith, v.locks_held t l, more_locked t, both (locks_on t));
      held_live = λ t p. v.held_live t (omega (arith, p, more t, both (on t)));
      once = v.once;
      typed = v.typed;
      session_once = v.session_once;
      external = v.external;
      of_sessions = v.of_sessions;
      positive = v.positive;
      external_live = v.external_live;
      sessions_live = v.sessions_live;
    }
