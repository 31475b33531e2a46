-- ===== src/Process/Changes.antt =====
-- The changes of a child process's state, from the thread that waits for it to the process object
-- (`process_wait` and `process_handle_state_change`, src/redapid/process.c).
use red_brick_apid.Base.{
  ℕ, true, false, not, ◌&&◌, Option, some, List, [], ◌∷◌, ◌++◌, arith, if◌then◌else◌, ltb, ◌≡◌,
  refl, ◌<◌, Bool-cases, inl, inr, subst, ◌∙◌,
}
use red_brick_apid.Store.Arrays.{ArrayLib, tally-append}
use red_brick_apid.Store.{Store, Hold}
use red_brick_apid.Object.Invariant.{Inv, unlocked_hold, reordered-Inv}
use red_brick_apid.Object.Cascade.{remove_internal_reference-Settled}
use red_brick_apid.Process.{
  Change, Process, Notice, Wait, WaitStatus, wait, wait_failed, answered, change_of, state_is_alive,
  is_alive, changed, after_state_changed, handle_state_change, handle_all, if_exited, if_signaled,
  if_stopped, if_continued, otherwise, state_changed_callback,
}

-- Only the last change is the death of the child, and every exit code is a byte.
abbrev pub AreChanges : List Change → Type 0
AreChanges [] = Unit {0}
AreChanges (c ∷ []) = c.exit_code < 256
AreChanges (c ∷ d ∷ cs) =
    (c.exit_code < 256) × (state_is_alive c.state ≡ true) × AreChanges (d ∷ cs)

change_of-byte : (time : ℕ) (status : WaitStatus) → (change_of time status).exit_code < 256
unfolding change_of
change_of-byte time (if_exited status) = omega arith
change_of-byte time (if_signaled signal) = omega arith
change_of-byte time (if_stopped signal) = omega arith
change_of-byte time if_continued = omega arith
change_of-byte time otherwise = omega arith

change_first :
    (c : Change) (cs : List Change)
    → c.exit_code < 256
    → state_is_alive c.state ≡ true
    → AreChanges cs
    → AreChanges (c ∷ cs)
change_first c [] byte alive h = byte
change_first c (d ∷ cs) byte alive h = (byte, alive, h)

-- Whatever `waitpid` answers, every exit code that `process_wait` writes to the pipe is a byte, and
-- every change but the last has a state in which the child process is alive.
pub wait-AreChanges : (waits : List Wait) → AreChanges (wait waits)
unfolding wait
wait-AreChanges [] = tt
wait-AreChanges (wait_failed ∷ waits) = tt
wait-AreChanges (answered time status false ∷ waits) = tt
wait-AreChanges (answered time status true ∷ waits) =
    let byte = change_of-byte time status in
    elim (Bool-cases (state_is_alive (change_of time status).state)) [
      | inl alive ↦
          rw (wait, alive)
            (change_first (change_of time status) (wait waits) byte alive (wait-AreChanges waits))
      | inr dead ↦ rw (wait, dead) byte
    ]

-- The reference that is given up when the process dies.
abbrev pub owed : Process → List Hold
owed p = if p.release_on_death then unlocked_hold p.cell ∷ [] else []

-- A dead process has no process ID and keeps no reference to itself.
pub record IsTidy (p : Process) : Type 0 where
  pub no_pid : is_alive p ≡ false → p.pid ≡ 0
  pub released : is_alive p ≡ false → p.release_on_death ≡ false

abbrev told : Process → Store → List Notice
told p s =
    if ltb 0 (s.object p.cell).external_reference_count
    then state_changed_callback (s.object p.cell).id p.state p.timestamp p.exit_code ∷ []
    else []

-- After a change the reference is there or given up, and the process is tidy.
record Left (lib : ArrayLib ℕ) (pending : List Hold) (p : Process) (s : Store) : Type 0 where
  process : Process
  notices : List Notice
  after : Store
  returned : after_state_changed lib p s ≡ some (process, notices, after)
  inv : Inv after (owed process ++ pending)
  tidy : IsTidy process
  same_cell : process.cell ≡ p.cell

released_at_death :
    (lib : ArrayLib ℕ) (pending : List Hold) (p : Process) (s : Store)
    → Inv s (owed p ++ pending)
    → (is_alive p ≡ false → p.pid ≡ 0)
    → Left lib pending p s
unfolding after_state_changed is_alive
released_at_death lib pending p s v no_pid =
    elim (Bool-cases (p.release_on_death && not (is_alive p))) [
      | inr stays ↦ record {
        process = p;
        notices = told p s;
        after = s;
        returned = rw (after_state_changed, stays) refl;
        inv = v;
        tidy = record { no_pid = no_pid; released = λ dead. ground arith };
        same_cell = refl;
      }
      | inl dies ↦
          let owes : p.release_on_death ≡ true = ground arith in
          let d = remove_internal_reference-Settled lib p.cell pending s (
            subst (λ b. Inv s ((if b then unlocked_hold p.cell ∷ [] else []) ++ pending)) owes v) in
          record {
            process = record p { release_on_death = false };
            notices = told p s;
            after = d.after;
            returned = rw (after_state_changed, dies, d.returned) refl;
            inv = d.inv;
            tidy = record { no_pid = no_pid; released = λ dead. refl };
            same_cell = refl;
          }
    ]

-- Two groups of holds in the other order.
swapped : (a b c : List Hold) (s : Store) → Inv s (a ++ (b ++ c)) → Inv s (b ++ (a ++ c))
swapped a b c s v =
    reordered-Inv (a ++ (b ++ c)) (b ++ (a ++ c))
      (λ f. omega (
        arith,
        tally-append f a (b ++ c),
        tally-append f b c,
        tally-append f b (a ++ c),
        tally-append f a c,
      ))
      v

module _ (lib : ArrayLib ℕ) {C : Type 0} (state_changed : Process → C → Store → Option (C × Store))
    (cell : ℕ) (holds : C → List Hold) (Valid : C → Type 0) where
  -- The creator's function returns, and the counts stay what is held: `holds` is what the creator
  -- holds, and `Valid` is what is true of its state.
  pub record Kept (pending : List Hold) (result : Option (C × Store)) : Type 0 where
    pub creator : C
    pub after : Store
    pub returned : result ≡ some (creator, after)
    pub inv : Inv after (holds creator ++ pending)
    pub valid : Valid creator

  abbrev pub KeepsCounts : Type 0
  KeepsCounts =
      (p : Process) (k : C) (pending : List Hold) (s : Store)
      → p.cell ≡ cell
      → Valid k
      → Inv s (holds k ++ pending)
      → Kept pending (state_changed p k s)

  -- The changes were handled.
  pub record Handled (pending : List Hold) (result : Option (Process × List Notice × C × Store))
      : Type 0 where
    pub process : Process
    pub notices : List Notice
    pub creator : C
    pub after : Store
    pub returned : result ≡ some (process, notices, creator, after)
    pub inv : Inv after (owed process ++ (holds creator ++ pending))
    pub valid : Valid creator
    pub tidy : IsTidy process
    pub same_cell : process.cell ≡ cell

  module _ (pending : List Hold) (keeps : KeepsCounts) where
    handle_state_change-Handled :
        (c : Change) (p : Process) (k : C) (s : Store)
        → p.cell ≡ cell
        → Valid k
        → Inv s (owed p ++ (holds k ++ pending))
        → Handled pending (handle_state_change lib state_changed (some c) p k s)
    unfolding handle_state_change is_alive
    handle_state_change-Handled c p k s own valid v =
        let called =
          keeps (changed c p) k (owed p ++ pending) s own valid
            (swapped (owed p) (holds k) pending s v) in
        let h =
          released_at_death lib (holds called.creator ++ pending) (changed c p) called.after
            (swapped (holds called.creator) (owed p) pending called.after called.inv)
            (λ dead. no_pid dead) in
        record {
          process = h.process;
          notices = h.notices;
          creator = called.creator;
          after = h.after;
          returned = rw (handle_state_change, called.returned, h.returned) refl;
          inv = h.inv;
          valid = called.valid;
          tidy = h.tidy;
          same_cell = h.same_cell ∙ own;
        }
      where
        no_pid : is_alive (changed c p) ≡ false → (changed c p).pid ≡ 0
        no_pid dead = ground arith

    -- For any state of the creator with what it holds and what is true of it: when the creator's
    -- function returns, keeps this true and keeps the counts right, and the counts are right with
    -- what the creator holds and with a reference to the process exactly if it is to be released on
    -- death, then handling any changes of the process's state returns with all of this true again,
    -- so that the reference is given up exactly when `release_on_death` is cleared; and afterwards
    -- a dead process has the process ID 0 and is released.
    pub handle_all-Handled :
        (cs : List Change) (p : Process) (k : C) (s : Store)
        → p.cell ≡ cell
        → Valid k
        → Inv s (owed p ++ (holds k ++ pending))
        → IsTidy p
        → Handled pending (handle_all lib state_changed cs p k s)
    unfolding handle_all
    handle_all-Handled [] p k s own valid v tidy = record {
      process = p;
      notices = [];
      creator = k;
      after = s;
      returned = refl;
      inv = v;
      valid = valid;
      tidy = tidy;
      same_cell = own;
    }
    handle_all-Handled (c ∷ cs) p k s own valid v tidy =
        let h = handle_state_change-Handled c p k s own valid v in
        let r =
          handle_all-Handled cs h.process h.creator h.after h.same_cell h.valid h.inv h.tidy in
        record {
          process = r.process;
          notices = h.notices ++ r.notices;
          creator = r.creator;
          after = r.after;
          returned = rw (handle_all, h.returned, r.returned) refl;
          inv = r.inv;
          valid = r.valid;
          tidy = r.tidy;
          same_cell = r.same_cell;
        }
