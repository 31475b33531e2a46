-- ===== src/Process/Spawning.antt =====
-- `process_spawn` on every path (src/redapid/process.c).
use red_brick_apid.Base.{
  ℕ, true, false, Option, none, some, List, [], ◌∷◌, ◌++◌, arith, ◌≡◌, refl, ◌≢◌, ◌<◌, Bool-cases,
  inl, inr, ==-refl, sym, ap, subst, ◌∙◌,
}
use mathlib.Core.Bool.{false≢true}
use red_brick_apid.ApiError.{ApiE, is_success, success}
use red_brick_apid.Types.{Object, process}
use red_brick_apid.Store.Arrays.{ArrayLib, occurrences, tally-append}
use red_brick_apid.Store.{Store, Hold}
use red_brick_apid.Object.Invariant.{Inv, IsLive, reordered-Inv}
use red_brick_apid.Object.Frame.{object_create-SameBodies}
use red_brick_apid.Object.Create.{
  object_create, has_flag, flag_internal, flag_external, flag_locked,
}
use red_brick_apid.Object.Create.Invariant.{granted, IsFresh}
use red_brick_apid.Object.Create.Cell.{InNoArray, written-Inv, written-IsFresh}
use red_brick_apid.Object.Create.Success.{IsSession, object_create-Inv}
use red_brick_apid.Object.Create.Live.{object_create-IsLive}
use red_brick_apid.Object.Create.Refused.{object_create-Kept}
use red_brick_apid.ListObject.{with_items}
use red_brick_apid.Acquire.{Answer}
use red_brick_apid.Acquire.Cleanup.{Refused, fail-Refused}
use red_brick_apid.Acquire.Owner.{moved_in-Inv}
use red_brick_apid.Process.Stdio.{Members, holds_of}
use red_brick_apid.Process.Child.{pointers, targets}
use red_brick_apid.Process.Spawn.{
  Request, SpawnAttempts, Spawned, spawned, child_killed, with_internal, new_process, create_object,
}

with_internal-internal : (flags : ℕ) → has_flag (with_internal flags) flag_internal ≡ true
with_internal-internal flags = ground arith

with_internal-external :
    (flags : ℕ) → has_flag (with_internal flags) flag_external ≡ has_flag flags flag_external
with_internal-external flags = ground arith

pub fails-ne : (e : ApiE) → is_success e ≡ false → e ≢ success
fails-ne e bad h = false≢true (sym bad ∙ ap is_success h)

still_known :
    (session : Option ℕ) (s s' : Store)
    → s'.sessions ≡ s.sessions
    → IsSession session s
    → IsSession session s'
still_known none s s' same live = tt
still_known (some x) s s' same live = subst (λ xs. 0 < occurrences x xs) (sym same) live

module _ (lib : ArrayLib ℕ) (request : Request) (attempts : SpawnAttempts) (a : ℕ)
    (pending : List Hold) (s : Store) where
  -- The seven objects that a process holds, and the arguments and the environment that are made of
  -- the executable and the two lists.
  pub record Passed (argv envp : List (Option ℕ)) (holds : List Hold) : Type 0 where
    pub members : Members
    pub held : holds ≡ holds_of members
    pub same_arguments : argv ≡ pointers (members.executable ∷ targets (s.holds members.arguments))
    pub same_environment : envp ≡ pointers (targets (s.holds members.environment))

  -- The process object is in the inventory, and holds what it was made of.
  pub record Started (argv envp : List (Option ℕ)) (after : Store) : Type 0 where
    pub inv : Inv after (
        record { target = a; locked = has_flag (with_internal request.flags) flag_locked }
        ∷ pending)
    pub live : IsLive after a
    pub passed : Passed argv envp (after.holds a)

  -- `object_create` has failed for this call.
  abbrev pub NotCreated : Type 0
  NotCreated =
      (object : ℕ → Object) × (is_success
          (object_create lib a process request.session (with_internal request.flags) attempts.create
            (with_items a [] (record s { object = object }))).0
        ≡ false)

  pub data SpawnOutcome : Answer Spawned → Type 0 where
    started :
        (argv envp : List (Option ℕ)) (after : Store)
        → Started argv envp after
        → SpawnOutcome
            (some (success, some (spawned (new_process lib request attempts a) argv envp), after))
    refused : (answer : Answer Spawned) → Refused lib pending answer → SpawnOutcome answer
    unreported :
        (after : Store)
        → attempts.event_source ≡ false
        → Inv after pending
        → SpawnOutcome (some (success, some (child_killed attempts.pid), after))
    abandoned :
        (answer : Answer Spawned)
        → has_flag request.flags flag_external ≡ true
        → NotCreated
        → SpawnOutcome answer

  module _ (absent : InNoArray a s) (session_live : IsSession request.session s) where
    abbrev pub at : (ℕ → Object) → Store
    at object = record s { object = object }

    owned :
        (argv envp : List (Option ℕ)) (holds : List Hold) (s' : Store)
        → Inv s' (
            granted a
              (has_flag (with_internal request.flags) flag_internal)
              (has_flag (with_internal request.flags) flag_locked)
              (holds ++ pending))
        → IsLive s' a
        → s'.holds a ≡ []
        → Passed argv envp holds
        → Started argv envp (with_items a holds s')
    owned argv envp holds s' v live nothing p =
        let mine : Hold = record {
          target = a;
          locked = has_flag (with_internal request.flags) flag_locked;
        } in
        let v' : Inv s' (mine ∷ holds ++ pending) =
          subst
            (λ b.
              Inv s' (
                granted a b (has_flag (with_internal request.flags) flag_locked)
                  (holds ++ pending)))
            (with_internal-internal request.flags) v in
        record {
          inv =
              moved_in-Inv a holds (mine ∷ pending) s'
                (reordered-Inv (mine ∷ holds ++ pending) (holds ++ mine ∷ pending)
                  (λ f.
                    omega
                      (arith, tally-append f holds pending, tally-append f holds (mine ∷ pending)))
                  v')
                live nothing;
          live = live;
          passed = rw (==-refl a) p;
        }

    pub create_object-Outcome :
        (argv envp : List (Option ℕ)) (holds : List Hold) (object : ℕ → Object)
        → Inv (at object) (holds ++ pending)
        → Passed argv envp holds
        → SpawnOutcome (create_object lib request attempts a argv envp holds (at object))
    unfolding create_object
    create_object-Outcome argv envp holds object v p =
        let cell : Store = with_items a [] (at object) in
        let cell-Inv : Inv cell (holds ++ pending) = written-Inv a [] s.text (at object) absent v in
        let fresh : IsFresh a cell = written-IsFresh a s.text (at object) absent in
        elim (Bool-cases (
          is_success
            (object_create lib a process request.session (with_internal request.flags)
              attempts.create cell).0)) [
                | inl good ↦
                    rw (create_object, good)
                      (started argv envp _ (
                        owned argv envp holds _
                          (object_create-Inv lib a process request.session
                            (with_internal request.flags) attempts.create cell (holds ++ pending)
                            cell-Inv fresh (still_known request.session s cell refl session_live)
                            good)
                          (object_create-IsLive lib a process request.session
                            (with_internal request.flags) attempts.create cell good)
                          (ap (λ (f : ℕ → List Hold). f a)
                              (object_create-SameBodies lib a process request.session
                                (with_internal request.flags) attempts.create cell).same_holds
                            ∙ fresh.holds_nothing)
                          p))
                | inr bad ↦ elim (Bool-cases (has_flag request.flags flag_external)) [
                  | inl external ↦ abandoned _ external (object, bad)
                  | inr internal_only ↦
                      rw (create_object, bad)
                        (refused _ (
                          fail-Refused lib pending _ _ holds _ (fails-ne _ bad)
                            (object_create-Kept a (holds ++ pending) lib process request.session
                              (with_internal request.flags) attempts.create cell cell-Inv fresh
                              (with_internal-external request.flags ∙ internal_only) bad).inv))
                ]
              ]
