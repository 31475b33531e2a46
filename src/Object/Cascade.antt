-- ===== src/Object/Cascade.antt =====
-- A cascade of destructions ends, and keeps the invariant (src/redapid/object.c).
use red_brick_apid.Base.{
  ℕ, zero, suc, false, ◌&&◌, Option, some, List, [], ◌∷◌, ◌++◌, arith, ◌==◌, if◌then◌else◌, ◌≡◌,
  refl, ◌≤◌, ◌<◌, Bool-cases, inl, inr, sym, subst, ◌∙◌,
}
use Prim.Native.Nat.{suc-le-suc}
use native.Mathlib.Nat.{le_refl, le_trans}
use red_brick_apid.Store.Arrays.{ArrayLib, index_of-occurrences}
use red_brick_apid.Store.{Store, Hold, size}
use red_brick_apid.Object.{
  unlock, give_back, destroy_with, remove_object_with, release, remove_object,
  remove_internal_reference,
}
use red_brick_apid.Object.Invariant.{Inv, IsLive, unlocked_hold, unlock-Inv}
use red_brick_apid.Object.Removal.{
  decremented, decremented-Inv, detach-none, removed, over_objects-removed, removed-Inv,
}

-- What a step of a cascade ends in.
pub record Settled (s : Store) (pending : List Hold) (result : Option Store) : Type 0 where
  pub after : Store
  pub returned : result ≡ some after
  pub inv : Inv after pending
  pub no_larger : size after ≤ size s
  pub same_references : after.references ≡ s.references
  pub same_sessions : after.sessions ≡ s.sessions
  pub same_holds : after.holds ≡ s.holds

-- `release` is good for stores of less than `n` objects.
abbrev pub Good : ℕ → (ℕ → Store → Option Store) → Type 0
Good n release =
    (a : ℕ) (pending : List Hold) (s : Store)
    → size s < n
    → Inv s (unlocked_hold a ∷ pending)
    → Settled s pending (release a s)

-- A store with the same references and sessions, that is no larger.
pub record Below (s₁ s : Store) : Type 0 where
  pub smaller : size s₁ ≤ size s
  pub references_kept : s₁.references ≡ s.references
  pub sessions_kept : s₁.sessions ≡ s.sessions
  pub holds_kept : s₁.holds ≡ s.holds

pub unlock-Below : (a : ℕ) (s : Store) → Below (unlock a s) s
unfolding unlock
unlock-Below a s = ground arith

pub Settled-from :
    {s s₁ : Store} {pending : List Hold} {result : Option Store}
    → Below s₁ s
    → Settled s₁ pending result
    → Settled s pending result
Settled-from b d = record {
  after = d.after;
  returned = d.returned;
  inv = d.inv;
  no_larger = le_trans d.no_larger b.smaller;
  same_references = d.same_references ∙ b.references_kept;
  same_sessions = d.same_sessions ∙ b.sessions_kept;
  same_holds = d.same_holds ∙ b.holds_kept;
}

Settled-Below :
    {s : Store} {pending : List Hold} {result : Option Store} (d : Settled s pending result)
    → Below d.after s
Settled-Below d = record {
  smaller = d.no_larger;
  references_kept = d.same_references;
  sessions_kept = d.same_sessions;
  holds_kept = d.same_holds;
}

give_back_step :
    (n : ℕ) (release : ℕ → Store → Option Store) (h : Hold) (pending : List Hold) (s : Store)
    → Good n release
    → size s < n
    → Inv s (h ∷ pending)
    → Settled s pending (release h.target (if h.locked then unlock h.target s else s))
give_back_step n release h pending s good lt v = elim (Bool-cases h.locked) [
  | inl is_locked ↦ rw is_locked (
      Settled-from (unlock-Below h.target s) (
        good h.target pending (unlock h.target s)
          (le_trans (suc-le-suc (unlock-Below h.target s).smaller) lt)
          (unlock-Inv h.target pending s
            (subst (λ l. Inv s (record { target = h.target; locked = l } ∷ pending)) is_locked v))))
  | inr not_locked ↦ rw not_locked (
      good h.target pending s lt
        (subst (λ l. Inv s (record { target = h.target; locked = l } ∷ pending)) not_locked v))
]

-- A destroy function that gives back its holds.
pub give_back-Settled :
    (n : ℕ) (release : ℕ → Store → Option Store) (hs pending : List Hold) (s : Store)
    → Good n release
    → size s < n
    → Inv s (hs ++ pending)
    → Settled s pending (give_back release hs s)
unfolding give_back
give_back-Settled n release [] pending s good lt v = record {
  after = s;
  returned = refl;
  inv = v;
  no_larger = le_refl _;
  same_references = refl;
  same_sessions = refl;
  same_holds = refl;
}
give_back-Settled n release (h ∷ hs) pending s good lt v =
    let first = give_back_step n release h (hs ++ pending) s good lt v in
    rw (first.returned, give_back)
      (Settled-from (Settled-Below first) (
        give_back-Settled n release hs pending first.after good
          (le_trans (suc-le-suc first.no_larger) lt) first.inv))

module _ (lib : ArrayLib ℕ) where
  -- An object that nobody refers to is destroyed, with all that only it kept alive.
  pub remove_object_with-Settled :
      (release : ℕ → Store → Option Store) (a : ℕ) (pending : List Hold) (s : Store)
      → Good (size s) release
      → Inv s pending
      → (s.object a).internal_reference_count ≡ 0
      → (s.object a).external_reference_count ≡ 0
      → IsLive s a
      → Settled s pending (remove_object_with lib release a s)
  unfolding remove_object_with destroy_with
  remove_object_with-Settled release a pending s good v none_internal none_external live =
      let (i, found) = index_of-occurrences a (s.objects (s.object a).type) live in
      let smaller = over_objects-removed a pending s i (λ b. 1) found in
      let left = removed-Inv a pending s i v found none_internal none_external in
      let quiet =
        detach-none a (removed a pending s i) v.positive (sym (v.external a) ∙ none_external) in
      rw (found, remove_object_with, lib.remove_lem, destroy_with, quiet)
        (Settled-from
          (record {
            smaller = omega (arith, smaller);
            references_kept = refl;
            sessions_kept = refl;
            holds_kept = refl;
          })
          (give_back-Settled (size s) release (s.holds a) pending (removed a pending s i) good
            (omega (arith, smaller)) left))

  release-last :
      (fuel a : ℕ) (s : Store)
      → (s.object a).internal_reference_count ≡ 1
      → (s.object a).external_reference_count ≡ 0
      → release lib (suc fuel) a s ≡ remove_object_with lib (release lib fuel) a (decremented a s)
  unfolding release
  release-last fuel a s one none_external = ground arith

  release-more :
      (fuel a : ℕ) (s : Store)
      → 0 < (s.object a).internal_reference_count
      → (((s.object a).internal_reference_count == 1)
          && ((s.object a).external_reference_count == 0))
        ≡ false
      → release lib (suc fuel) a s ≡ some (decremented a s)
  unfolding release
  release-more fuel a s pos more = ground arith

  release_step :
      (fuel a : ℕ) (pending : List Hold) (s : Store)
      → Good fuel (release lib fuel)
      → size s < suc fuel
      → Inv s (unlocked_hold a ∷ pending)
      → Settled s pending (release lib (suc fuel) a s)
  release_step fuel a pending s good lt v =
      let held_once : 0 < (s.object a).internal_reference_count = ground (arith, v.internal a) in
      let v' = decremented-Inv a pending s v in
      let live = v.held_live a (ground arith) in
      elim (Bool-cases (
        (s.object a).internal_reference_count == 1 && (s.object a).external_reference_count == 0)) [
          | inl last ↦ rw (release-last fuel a s (ground arith) (ground arith)) (
              Settled-from
                (record {
                  smaller = le_refl _;
                  references_kept = refl;
                  sessions_kept = refl;
                  holds_kept = refl;
                })
                (remove_object_with-Settled (release lib fuel) a pending (decremented a s)
                  (λ b p s₁ lt₁ v₁. good b p s₁ (le_trans lt₁ (omega arith)) v₁) v' (ground arith)
                  (ground arith) (ground (arith, live))))
          | inr more ↦ rw (release-more fuel a s held_once more) (record {
            after = decremented a s;
            returned = refl;
            inv = v';
            no_larger = le_refl _;
            same_references = refl;
            same_sessions = refl;
            same_holds = refl;
          })
        ]

  release-Good : (fuel : ℕ) → Good fuel (release lib fuel)
  release-Good zero = λ a pending s lt v. absurd (omega arith)
  release-Good (suc fuel) =
      λ a pending s lt v. release_step fuel a pending s (release-Good fuel) lt v

  -- In a store with right counts, giving up an internal reference that was held ends, whatever it
  -- destroys in turn, keeps the counts right, makes the inventory no larger, and leaves the
  -- external references and the sessions alone.
  pub remove_internal_reference-Settled :
      (a : ℕ) (pending : List Hold) (s : Store)
      → Inv s (unlocked_hold a ∷ pending)
      → Settled s pending (remove_internal_reference lib a s)
  unfolding remove_internal_reference
  remove_internal_reference-Settled a pending s v =
      release-Good (suc (size s)) a pending s (le_refl _) v

  pub remove_object-Settled :
      (a : ℕ) (pending : List Hold) (s : Store)
      → Inv s pending
      → (s.object a).internal_reference_count ≡ 0
      → (s.object a).external_reference_count ≡ 0
      → IsLive s a
      → Settled s pending (remove_object lib a s)
  unfolding remove_object
  remove_object-Settled a pending s v none_internal none_external live =
      remove_object_with-Settled (release lib (suc (size s))) a pending s
        (λ b p s₁ lt₁ v₁. release-Good (suc (size s)) b p s₁ (omega arith) v₁) v none_internal
        none_external live
