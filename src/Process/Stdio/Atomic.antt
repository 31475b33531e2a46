-- ===== src/Process/Stdio/Atomic.antt =====
-- Referencing the members of a process is all or nothing (src/redapid/process.c).
use red_brick_apid.Base.{
  ℕ, Bool, false, Option, none, some, List, [], ◌∷◌, arith, ◌==◌, ◌≡◌, refl, ◌≢◌, ◌<◌, ◌≤◌,
  Bool-cases, inl, inr, map, sym, ap, ◌∙◌, subst,
}
use mathlib.Core.Bool.{false≢true}
use red_brick_apid.ApiError.{ApiE, is_success, is_success-eq, success}
use red_brick_apid.Types.{ObjectType}
use red_brick_apid.Store.Arrays.{ArrayLib, tally, occurrences}
use red_brick_apid.Store.{Store, Hold, over_objects}
use red_brick_apid.Object.{add_external_reference}
use red_brick_apid.Object.Invariant.{Inv, IsLive, on}
use red_brick_apid.Object.References.{add_external_reference-Inv}
use red_brick_apid.Object.Undo.{remove_external_reference-add_external_reference}
use red_brick_apid.Process.Stdio.{
  Members, holds_of, take_back, reference_all, with_ids, get_command, get_stdio,
}

-- One object's part of a sum.
tally-ge : (f : ℕ → ℕ) (a : ℕ) (xs : List ℕ) → 0 < occurrences a xs → f a ≤ tally f xs
tally-ge f a [] h = absurd (omega arith)
tally-ge f a (x ∷ xs) h = elim (Bool-cases (x == a)) [
  | inl here ↦ ground arith
  | inr there ↦ let more = tally-ge f a xs (ground arith) in omega (arith, more)
]

over_objects-ge :
    (f : ℕ → ℕ) (a : ℕ) (u : ObjectType) (s : Store)
    → 0 < occurrences a (s.objects u)
    → f a ≤ over_objects f s
over_objects-ge f a ObjectType.string s h =
    omega (arith, tally-ge f a (s.objects ObjectType.string) h)
over_objects-ge f a ObjectType.list s h = omega (arith, tally-ge f a (s.objects ObjectType.list) h)
over_objects-ge f a ObjectType.file s h = omega (arith, tally-ge f a (s.objects ObjectType.file) h)
over_objects-ge f a ObjectType.directory s h =
    omega (arith, tally-ge f a (s.objects ObjectType.directory) h)
over_objects-ge f a ObjectType.process s h =
    omega (arith, tally-ge f a (s.objects ObjectType.process) h)
over_objects-ge f a ObjectType.program s h =
    omega (arith, tally-ge f a (s.objects ObjectType.program) h)

-- An object that a live object holds.
pub record IsHeld (s : Store) (a : ℕ) : Type 0 where
  pub counted : 0 < (s.object a).internal_reference_count
  pub live : IsLive s a

Inv-IsHeld :
    (p t : ℕ) (pending : List Hold) (s : Store)
    → Inv s pending
    → IsLive s p
    → 0 < tally (on t) (s.holds p)
    → IsHeld s t
Inv-IsHeld p t pending s v live h =
    let part = over_objects-ge (λ a. tally (on t) (s.holds a)) p (s.object p).type s live in
    record {
      counted = omega (arith, part, v.internal t);
      live = v.held_live t (omega (arith, part));
    }

AreHeld : Store → List (ℕ × Bool) → Type 0
AreHeld s [] = Unit {0}
AreHeld s (a ∷ rest) = IsHeld s a.0 × AreHeld s rest

module _ (lib : ArrayLib ℕ) (session : ℕ) where
  -- Taking back from `s` leads to `start`.
  abbrev LeadsTo : Store → List ℕ → Store → Type 0
  LeadsTo start taken s = take_back lib session taken s ≡ some start

  module _ (start : Store) (pending : List Hold) where
    -- Every object is referenced, or the store is what it was.
    pub data AllOrNothing : Option (ApiE × Store) → Type 0 where
      all : (after : Store) → Inv after pending → AllOrNothing (some (success, after))
      nothing : (error : ApiE) → error ≢ success → AllOrNothing (some (error, start))

    kept-IsHeld :
        (a b : ℕ) (memory : Bool) (s : Store)
        → IsHeld s b
        → IsHeld (add_external_reference a session memory s).1 b
    unfolding add_external_reference
    kept-IsHeld a b memory s h = record {
      counted = ground (arith, h.counted);
      live = ground (arith, h.live);
    }

    kept-AreHeld :
        (a : ℕ) (memory : Bool) (s : Store) (rest : List (ℕ × Bool))
        → AreHeld s rest
        → AreHeld (add_external_reference a session memory s).1 rest
    unfolding AreHeld
    kept-AreHeld a memory s [] h = tt
    kept-AreHeld a memory s (b ∷ rest) h =
        (kept-IsHeld a b.0 memory s h.0, kept-AreHeld a memory s rest h.1)

    known-after :
        (a : ℕ) (memory : Bool) (s : Store)
        → 0 < occurrences session s.sessions
        → 0 < occurrences session (add_external_reference a session memory s).1.sessions
    unfolding add_external_reference
    known-after a memory s h = ground (arith, h)

    untouched :
        (a : ℕ) (memory : Bool) (s : Store)
        → is_success (add_external_reference a session memory s).0 ≡ false
        → (add_external_reference a session memory s).1 ≡ s
    unfolding add_external_reference
    untouched a memory s bad = ground arith

    reference_all-AllOrNothing :
        (rest : List (ℕ × Bool)) (taken : List ℕ) (s : Store)
        → Inv s pending
        → AreHeld s rest
        → 0 < occurrences session s.sessions
        → LeadsTo start taken s
        → AllOrNothing (reference_all lib session rest taken s)
    unfolding reference_all take_back AreHeld
    reference_all-AllOrNothing [] taken s v h known back = all s v
    reference_all-AllOrNothing ((a, memory) ∷ rest) taken s v h known back =
        let s' : Store = (add_external_reference a session memory s).1 in
        elim (Bool-cases (is_success (add_external_reference a session memory s).0)) [
          | inl good ↦
              let undone =
                remove_external_reference-add_external_reference a session lib s h.0.counted memory
                  v.positive good in
              let back' : LeadsTo start (a ∷ taken) s' = rw (take_back, undone) back in
              rw (reference_all, good)
                (reference_all-AllOrNothing rest (a ∷ taken) s'
                  (add_external_reference-Inv a session memory pending s v h.0.live known)
                  (kept-AreHeld a memory s rest h.1) (known-after a memory s known) back')
          | inr bad ↦
              let back' : LeadsTo start taken s' =
                subst (LeadsTo start taken) (sym (untouched a memory s bad)) back in
              rw (reference_all, bad, back')
                (nothing _ (λ e. false≢true (sym bad ∙ ap is_success e)))
        ]

  module _ (pending : List Hold) (s : Store) where
    -- The IDs of the objects are told, and the session has referenced each; or nothing has changed.
    pub data Told (objects : List ℕ) : Option (ApiE × Option (List ℕ) × Store) → Type 0 where
      told :
          (after : Store)
          → Inv after pending
          → Told objects (some (success, some (map (λ a. (after.object a).id) objects), after))
      refused : (error : ApiE) → error ≢ success → Told objects (some (error, none, s))

    with_ids-Told :
        (objects : List ℕ) (r : Option (ApiE × Store))
        → AllOrNothing s pending r
        → Told objects (with_ids lib session objects r)
    with_ids-Told objects r (all after v) = told after v
    with_ids-Told objects r (nothing error ne) = elim (Bool-cases (is_success error)) [
      | inl good ↦ absurd (ne (is_success-eq error good))
      | inr bad ↦ rw bad (refused error ne)
    ]

    module _ (p : ℕ) (m : Members) (v : Inv s pending) (live : IsLive s p)
        (same : s.holds p ≡ holds_of m) (known : 0 < occurrences session s.sessions) where
      member : (t : ℕ) → 0 < tally (on t) (holds_of m) → IsHeld s t
      member t h = Inv-IsHeld p t pending s v live (subst (λ hs. 0 < tally (on t) hs) (sym same) h)

      -- In a store with right counts, for a process of the inventory that holds its members and a
      -- session of the inventory, `process_get_command` and `process_get_stdio` each either answer
      -- success, the IDs of the members in order and a store with right counts, or answer an error
      -- and leave the store exactly as it was, whichever reference there was no memory for.
      pub members-Told :
          (memory_x memory_l memory_e memory_d memory_i memory_o memory_r : Bool)
          → Told
              (m.executable ∷ m.arguments ∷ m.environment ∷ m.working_directory ∷ [])
              (get_command lib session m memory_x memory_l memory_e memory_d s)
            × Told
                (m.stdin ∷ m.stdout ∷ m.stderr ∷ [])
                (get_stdio lib session m memory_i memory_o memory_r s)
      unfolding get_command get_stdio AreHeld take_back
      members-Told memory_x memory_l memory_e memory_d memory_i memory_o memory_r = (
        with_ids-Told _ _ (
            reference_all-AllOrNothing s pending _ [] s v
              (
                member m.executable (ground arith),
                (
                  member m.arguments (ground arith),
                  (
                    member m.environment (ground arith),
                    (member m.working_directory (ground arith), tt),
                  ),
                ),
              )
              known refl),
        with_ids-Told _ _ (
            reference_all-AllOrNothing s pending _ [] s v
              (
                member m.stdin (ground arith),
                (member m.stdout (ground arith), (member m.stderr (ground arith), tt)),
              )
              known refl),
      )
