-- ===== src/Object/Create/Cell.antt =====
-- What is written to a cell before `object_create` (src/redapid/string.c, src/redapid/list.c)
-- cannot be seen from the inventory.
use red_brick_apid.Base.{ℕ, List, [], ◌∷◌, arith, ◌≡◌, refl}
use red_brick_apid.Types.{ObjectType, String}
use red_brick_apid.Store.Arrays.{tally, occurrences}
use red_brick_apid.Store.{Store, Hold, update, over_objects}
use red_brick_apid.Object.Invariant.{Inv, on, locks_on}
use red_brick_apid.Object.Create.Invariant.{IsFresh}

abbrev pub InNoArray : ℕ → Store → Type 0
InNoArray a s = (u : ObjectType) → occurrences a (s.objects u) ≡ 0

tally-update_unseen :
    (f : List Hold → ℕ) (holds : ℕ → List Hold) (a : ℕ) (hs : List Hold) (xs : List ℕ)
    → occurrences a xs ≡ 0
    → tally (λ b. f (update holds a hs b)) xs ≡ tally (λ b. f (holds b)) xs
tally-update_unseen f holds a hs [] h = refl
tally-update_unseen f holds a hs (x ∷ xs) h = ground (arith, tally-update_unseen f holds a hs xs)

module _ (a : ℕ) (hs : List Hold) (text : ℕ → String) (s : Store) (absent : InNoArray a s) where
  abbrev pub written : Store
  written = record s { holds = update s.holds a hs; text = text }

  over_objects-written :
      (f : List Hold → ℕ)
      → over_objects (λ b. f (update s.holds a hs b)) s ≡ over_objects (λ b. f (s.holds b)) s
  over_objects-written f =
      let at = λ (u : ObjectType). tally-update_unseen f s.holds a hs (s.objects u) (absent u) in
      omega (
        arith,
        at ObjectType.string,
        at ObjectType.list,
        at ObjectType.file,
        at ObjectType.directory,
        at ObjectType.process,
        at ObjectType.program,
      )

  pub written-Inv : {pending : List Hold} → Inv s pending → Inv written pending
  written-Inv v = record {
    internal = λ t. omega (arith, v.internal t, over_objects-written (tally (on t)));
    locks = λ t. omega (arith, v.locks t, over_objects-written (tally (locks_on t)));
    internal_held = λ t l. omega (arith, v.internal_held t l, over_objects-written (tally (on t)));
    locks_held = λ t l. omega (arith, v.locks_held t l, over_objects-written (tally (locks_on t)));
    held_live = λ t p. v.held_live t (omega (arith, p, over_objects-written (tally (on t))));
    once = v.once;
    typed = v.typed;
    session_once = v.session_once;
    external = v.external;
    of_sessions = v.of_sessions;
    positive = v.positive;
    external_live = v.external_live;
    sessions_live = v.sessions_live;
  }

-- The texts of strings are no matter of the counts.
pub text-Inv :
    (text : ℕ → String) (s : Store) {pending : List Hold}
    → Inv s pending
    → Inv (record s { text = text }) pending
text-Inv text s v = record {
  internal = v.internal;
  locks = v.locks;
  internal_held = v.internal_held;
  locks_held = v.locks_held;
  held_live = v.held_live;
  once = v.once;
  typed = v.typed;
  session_once = v.session_once;
  external = v.external;
  of_sessions = v.of_sessions;
  positive = v.positive;
  external_live = v.external_live;
  sessions_live = v.sessions_live;
}

pub written-IsFresh :
    (a : ℕ) (text : ℕ → String) (s : Store)
    → InNoArray a s
    → IsFresh a (record s { holds = update s.holds a []; text = text })
written-IsFresh a text s absent = record { in_no_array = absent; holds_nothing = ground arith }
