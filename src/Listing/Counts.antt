-- ===== src/Listing/Counts.antt =====
-- The lists of processes and programs (src/redapid/inventory.c): what is listed, and the counts.
use red_brick_apid.Base.{
  ℕ, Bool, true, false, Option, none, some, List, ◌==◌, if◌then◌else◌, ◌≡◌, refl, ◌<◌, Bool-cases,
  inl, inr, ◌≢◌, ◌++◌, ◌∙◌, ap,
}
use red_brick_apid.ApiError.{is_success-eq, ApiE, Errno, is_success, success}
use red_brick_apid.Types.{ObjectType, list, process, program}
use red_brick_apid.Store.Arrays.{ArrayLib, occurrences}
use red_brick_apid.Store.{Store, code, Hold}
use red_brick_apid.Object.Invariant.{Inv}
use red_brick_apid.Object.Create.{flag_external}
use red_brick_apid.Object.Create.Cell.{InNoArray}
use red_brick_apid.ListObject.{ListAttempts, allocate}
use red_brick_apid.Listing.{listed, get_processes, get_programs}
use red_brick_apid.Inventory.Unique.{UniqueIds}
use red_brick_apid.Process.Child.{targets}
use red_brick_apid.Listing.Items.{wanted}
use red_brick_apid.Listing.Allocated.{
  allocate-Inv, allocate-empty, allocate-UniqueIds, allocate-wanted, allocate-references, once_in,
}
use red_brick_apid.Listing.Loop.{append_each-Looped}

module _ (lib : ArrayLib ℕ) (items : ArrayLib Hold) (l x : ℕ) (failures : ℕ → Option Errno)
    (pending : List Hold) where
  -- The answer of a call: the ID of a list whose items are the wanted objects of the type, in
  -- order; or an error, with the external references as they were.
  pub record IsListed (s : Store) (referenced_only : Bool) (t : ObjectType)
      (result : Option (ApiE × Option ℕ × Store)) : Type 0 where
    pub answer : ApiE
    pub id : Option ℕ
    pub after : Store
    pub returned : result ≡ some (answer, id, after)
    pub inv : Inv after pending
    pub own_id : answer ≡ success → id ≡ some (after.object l).id
    pub is_listed :
        answer ≡ success → targets (after.holds l) ≡ wanted referenced_only s.object (s.objects t)
    pub no_id : answer ≢ success → id ≡ none
    pub given_back : answer ≢ success → after.references ≡ s.references

  module _ (attempts : ListAttempts) (s : Store) (v : Inv s pending) (unique : UniqueIds s)
      (bound : s.next_object_id < 65536) (absent : InNoArray l s)
      (session_live : 0 < occurrences x s.sessions)
      (ok : is_success (allocate lib l (some x) flag_external attempts s).0 ≡ true) where
    -- The store with the new list.
    abbrev allocated : Store
    allocated = (allocate lib l (some x) flag_external attempts s).1

    listed-IsListed :
        (referenced_only : Bool) (t : ObjectType)
        → (code t == code list) ≡ false
        → IsListed s referenced_only t (
            listed lib items l x failures referenced_only t
              (allocate lib l (some x) flag_external attempts s))
    listed-IsListed referenced_only t other =
        let (v', live) = allocate-Inv lib l x attempts pending s v absent session_live ok in
        let d =
          append_each-Looped lib items l x failures pending allocated
            (allocate-UniqueIds lib l x attempts s ok unique bound absent) referenced_only t
            (allocated.objects t) allocated
            (record {
              inv = v';
              live = live;
              same = record { same_objects = refl; same_ids = λ b. refl; same_references = refl };
              once = λ b. once_in allocated t b (v'.once b);
              there = λ b p. p;
              same_counts = λ b p. refl;
            }) in
        record {
          answer = d.error;
          id = if is_success d.error then some (d.after.object l).id else none;
          after = d.after;
          returned = rw (ok, d.returned) refl;
          inv = d.inv;
          own_id = λ good. rw good refl;
          is_listed = λ good.
              d.is_listed good
              ∙ ap
                  (λ holds.
                    targets holds ++ wanted referenced_only allocated.object (allocated.objects t))
                  (allocate-empty lib l x attempts s ok)
              ∙ allocate-wanted lib l x attempts s ok unique bound absent referenced_only t other;
          no_id = λ bad. elim (Bool-cases (is_success d.error)) [
            | inl good ↦ absurd (bad (is_success-eq d.error good))
            | inr fails ↦ rw fails refl
          ];
          given_back = λ bad.
              d.given_back bad
              ∙ allocate-references lib l x attempts s ok unique bound absent pending v;
        }

    -- The same for `inventory_get_processes`, which lists every process.
    pub get_processes-IsListed :
        IsListed s false process (get_processes lib items l x failures attempts s)
    unfolding get_processes
    get_processes-IsListed = listed-IsListed false process refl

    -- In a store with right counts, in which no two objects share an ID, none has ID zero and the
    -- counter has 16 bits, with a new cell and a session of the inventory, an
    -- `inventory_get_programs` that could allocate its list returns and keeps the counts right,
    -- whatever the outcome of the appends. On success it answers the ID of the list, whose items
    -- are exactly the programs with an internal reference, in the order of the inventory; on an
    -- error it answers no ID and leaves the external references as they were.
    pub get_programs-IsListed :
        IsListed s true program (get_programs lib items l x failures attempts s)
    unfolding get_programs
    get_programs-IsListed = listed-IsListed true program refl
