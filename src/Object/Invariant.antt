-- ===== src/Object/Invariant.antt =====
-- What the reference and lock counts of src/redapid/object.c mean, at every moment of a cascade of
-- destructions: `pending` are the holds of objects that are being destroyed.
use red_brick_apid.Base.{
  ℕ, ◌+◌, true, false, ◌&&◌, List, [], ◌∷◌, arith, ◌==◌, if◌then◌else◌, ◌≡◌, ◌≤◌, ◌<◌,
}
use red_brick_apid.Types.{ObjectType}
use red_brick_apid.Store.Arrays.{tally, occurrences}
use red_brick_apid.Store.{Store, Hold, ExternalReference, over_objects}
use red_brick_apid.Object.{unlock}

-- Is it a hold on `t`, and one that locks `t`?
abbrev pub on : ℕ → Hold → ℕ
on t h = if h.target == t then 1 else 0

abbrev pub locks_on : ℕ → Hold → ℕ
locks_on t h = if h.target == t && h.locked then 1 else 0

-- What the objects of the inventory hold of `t`, and the inventory itself: each stock string once,
-- with a lock.
abbrev pub held : ℕ → Store → ℕ
held t s = over_objects (λ a. tally (on t) (s.holds a)) s + occurrences t s.stock_strings

abbrev pub held_locked : ℕ → Store → ℕ
held_locked t s =
    over_objects (λ a. tally (locks_on t) (s.holds a)) s + occurrences t s.stock_strings

abbrev pub to_object : ℕ → ExternalReference → ℕ
to_object a r = if r.object == a then r.count else 0

abbrev pub to_session : ℕ → ExternalReference → ℕ
to_session x r = if r.session == x then r.count else 0

abbrev pub IsPositive : List ExternalReference → Type 0
IsPositive [] = Unit {0}
IsPositive (r ∷ rs) = (0 < r.count) × IsPositive rs

-- The object is in the array of its type.
abbrev pub IsLive : Store → ℕ → Type 0
IsLive s a = 0 < occurrences a (s.objects (s.object a).type)

-- The counts of an object in the inventory are what is held of it, nothing that is held or referenced
-- is gone, and no object is in an array twice.
pub record Inv (s : Store) (pending : List Hold) : Type 0 where
  pub internal : (t : ℕ) → tally (on t) pending + held t s ≤ (s.object t).internal_reference_count
  pub locks : (t : ℕ) → tally (locks_on t) pending + held_locked t s ≤ (s.object t).lock_count
  pub internal_held :
      (t : ℕ) → IsLive s t → (s.object t).internal_reference_count ≤ tally (on t) pending + held t s
  pub locks_held :
      (t : ℕ) → IsLive s t → (s.object t).lock_count ≤ tally (locks_on t) pending + held_locked t s
  pub held_live : (t : ℕ) → 0 < tally (on t) pending + held t s → IsLive s t
  pub once : (a : ℕ) → over_objects (λ b. if b == a then 1 else 0) s ≤ 1
  pub external : (a : ℕ) → (s.object a).external_reference_count ≡ tally (to_object a) s.references
  pub of_sessions :
      (x : ℕ) → (s.session x).external_reference_count ≡ tally (to_session x) s.references
  pub positive : IsPositive s.references
  pub external_live : (a : ℕ) → 0 < (s.object a).external_reference_count → IsLive s a
  pub typed : (a : ℕ) (u : ObjectType) → 0 < occurrences a (s.objects u) → IsLive s a
  pub session_once : (x : ℕ) → occurrences x s.sessions ≤ 1
  pub sessions_live :
      (x : ℕ) → 0 < (s.session x).external_reference_count → 0 < occurrences x s.sessions

abbrev pub unlocked_hold : ℕ → Hold
unlocked_hold a = record { target = a; locked = false }

abbrev pub locked_hold : ℕ → Hold
locked_hold a = record { target = a; locked = true }

-- Giving back the lock of a hold.
pub unlock-Inv :
    (a : ℕ) (pending : List Hold) (s : Store)
    → Inv s (locked_hold a ∷ pending)
    → Inv (unlock a s) (unlocked_hold a ∷ pending)
unfolding unlock
unlock-Inv a pending s v = record {
  internal = λ t. ground (arith, v.internal t);
  locks = λ t. ground (arith, v.locks t);
  internal_held = λ t l. ground (arith, v.internal_held t);
  locks_held = λ t l. ground (arith, v.locks_held t);
  held_live = λ t p. ground (arith, v.held_live t);
  once = λ b. ground (arith, v.once b);
  external = λ b. ground (arith, v.external b);
  typed = λ b u p. ground (arith, v.typed b u);
  session_once = λ x. ground (arith, v.session_once x);
  of_sessions = λ x. ground (arith, v.of_sessions x);
  positive = ground (arith, v.positive);
  external_live = λ b p. ground (arith, v.external_live b);
  sessions_live = λ x p. ground (arith, v.sessions_live x);
}

-- Holds in another order.
pub reordered-Inv :
    {s : Store} (p q : List Hold) → ((f : Hold → ℕ) → tally f p ≡ tally f q) → Inv s p → Inv s q
reordered-Inv p q same v = record {
  internal = λ t. omega (arith, v.internal t, same (on t));
  locks = λ t. omega (arith, v.locks t, same (locks_on t));
  internal_held = λ t l. omega (arith, v.internal_held t l, same (on t));
  locks_held = λ t l. omega (arith, v.locks_held t l, same (locks_on t));
  held_live = λ t h. v.held_live t (omega (arith, h, same (on t)));
  once = v.once;
  external = v.external;
  of_sessions = v.of_sessions;
  positive = v.positive;
  external_live = v.external_live;
  typed = v.typed;
  session_once = v.session_once;
  sessions_live = v.sessions_live;
}
