-- ===== src/ListObject/Items.antt =====
-- An item that is appended to a list is kept alive and locked by it, and given back when it is
-- removed (src/redapid/list.c).
use red_brick_apid.Base.{
  ℕ, zero, suc, ◌+◌, ◌*◌, Option, none, some, List, [], ◌∷◌, ◌++◌, arith, ◌==◌, if◌then◌else◌, ◌≡◌,
  ◌≤◌, ◌<◌, length, get_elem?, fun_ext, ap, sym, ◌∙◌, Bool-cases, inl, inr, ==→eq,
}
use red_brick_apid.ApiError.{ApiE, Errno, success}
use red_brick_apid.Types.{ObjectType}
use red_brick_apid.Store.Arrays.{ArrayLib, tally, tally-append, occurrences, remove_at}
use red_brick_apid.Store.{Store, Hold, update, over_objects}
use red_brick_apid.Object.{lock, unlock, add_internal_reference}
use red_brick_apid.Object.Cascade.{
  Settled, Settled-from, unlock-Below, remove_internal_reference-Settled,
}
use red_brick_apid.Object.References.{acquire_and_lock-Inv}
use red_brick_apid.Object.Invariant.{Inv, on, locks_on, IsLive, locked_hold, unlock-Inv}
use red_brick_apid.ListObject.{with_items, item, append_item, remove_from, unlock_and_release}

-- A sum over the objects in which one of them counts `k` more.
module _ (l k : ℕ) (f : ℕ → ℕ) where
  abbrev raised : ℕ → ℕ
  raised b = f b + (if b == l then k else 0)

  tally-raised : (xs : List ℕ) → tally raised xs ≡ tally f xs + k * occurrences l xs
  tally-raised [] = omega arith
  tally-raised (x ∷ xs) = ground (arith, tally-raised xs)

  over_objects-raised :
      (s : Store)
      → over_objects raised s ≡ over_objects f s + k * over_objects (λ b. if b == l then 1 else 0) s
  over_objects-raised s =
      let at = λ (u : ObjectType). tally-raised (s.objects u) in
      omega (
        arith,
        at ObjectType.string,
        at ObjectType.list,
        at ObjectType.file,
        at ObjectType.directory,
        at ObjectType.process,
        at ObjectType.program,
      )

-- A live object is in one array, and there once.
occurs_once :
    (l : ℕ) (u : ObjectType) (s : Store)
    → 0 < occurrences l (s.objects u)
    → over_objects (λ b. if b == l then 1 else 0) s ≤ 1
    → over_objects (λ b. if b == l then 1 else 0) s ≡ 1
occurs_once l ObjectType.string s p q = omega arith
occurs_once l ObjectType.list s p q = omega arith
occurs_once l ObjectType.file s p q = omega arith
occurs_once l ObjectType.directory s p q = omega arith
occurs_once l ObjectType.process s p q = omega arith
occurs_once l ObjectType.program s p q = omega arith

module _ (l : ℕ) (hs : List Hold) (s : Store) (live : IsLive s l)
    (v : over_objects (λ b. if b == l then 1 else 0) s ≤ 1) where
  pub over_objects-more :
      (f : List Hold → ℕ) (k : ℕ)
      → f hs ≡ f (s.holds l) + k
      → over_objects (λ b. f (update s.holds l hs b)) s ≡ over_objects (λ b. f (s.holds b)) s + k
  over_objects-more f k e =
      let pointwise : (b : ℕ) → f (update s.holds l hs b) ≡ raised l k (λ c. f (s.holds c)) b =
        λ b. at b in
      rw (fun_ext pointwise) (
        omega (
          arith,
          over_objects-raised l k (λ c. f (s.holds c)) s,
          ap (λ (n : ℕ). k * n) (occurs_once l (s.object l).type s live v),
        ))
    where
      at : (b : ℕ) → f (update s.holds l hs b) ≡ raised l k (λ c. f (s.holds c)) b
      at b = elim (Bool-cases (b == l)) [
        | inl same ↦ let q = ==→eq b l same in rw (same, q) e
        | inr other ↦ rw other (omega arith)
      ]

  pub over_objects-less :
      (f : List Hold → ℕ) (k : ℕ)
      → f hs + k ≡ f (s.holds l)
      → over_objects (λ b. f (update s.holds l hs b)) s + k ≡ over_objects (λ b. f (s.holds b)) s
  over_objects-less f k e =
      let pointwise : (b : ℕ) → f (s.holds b) ≡ raised l k (λ c. f (update s.holds l hs c)) b =
        λ b. at b in
      sym (
        rw (fun_ext pointwise) (
          omega (
            arith,
            over_objects-raised l k (λ c. f (update s.holds l hs c)) s,
            ap (λ (n : ℕ). k * n) (occurs_once l (s.object l).type s live v),
          )))
    where
      at : (b : ℕ) → f (s.holds b) ≡ raised l k (λ c. f (update s.holds l hs c)) b
      at b = elim (Bool-cases (b == l)) [
        | inl same ↦ let q = ==→eq b l same in rw (same, q) (sym e)
        | inr other ↦ rw other (omega arith)
      ]

tally-get_elem :
    (f : Hold → ℕ) (xs : List Hold) (i : ℕ) (h : Hold)
    → get_elem? xs i ≡ some h
    → tally f (remove_at xs i) + f h ≡ tally f xs
tally-get_elem f [] i h e = cc
tally-get_elem f (x ∷ xs) zero h e = ground arith
tally-get_elem f (x ∷ xs) (suc i) h e = omega (arith, tally-get_elem f xs i h e)

module _ (l : ℕ) (pending : List Hold) (s : Store) where
  -- A hold that is pending becomes an item of the list.
  move_in-Inv :
      (h : Hold)
      → Inv s (h ∷ pending)
      → IsLive s l
      → Inv (with_items l (s.holds l ++ h ∷ []) s) pending
  move_in-Inv h v live =
      let more = λ (t : ℕ).
        over_objects-more l (s.holds l ++ h ∷ []) s live (v.once l) (tally (on t)) (on t h)
          (omega (arith, tally-append (on t) (s.holds l) (h ∷ []))) in
      let more_locked = λ (t : ℕ).
        over_objects-more l (s.holds l ++ h ∷ []) s live (v.once l) (tally (locks_on t))
          (locks_on t h) (omega (arith, tally-append (locks_on t) (s.holds l) (h ∷ []))) in
      record {
        internal = λ t. omega (arith, v.internal t, more t);
        locks = λ t. omega (arith, v.locks t, more_locked t);
        internal_held = λ t l. omega (arith, v.internal_held t l, more t);
        locks_held = λ t l. omega (arith, v.locks_held t l, more_locked t);
        held_live = λ t p. v.held_live t (omega (arith, p, more t));
        once = v.once;
        typed = v.typed;
        session_once = v.session_once;
        external = v.external;
        of_sessions = v.of_sessions;
        positive = v.positive;
        external_live = v.external_live;
        sessions_live = v.sessions_live;
      }

  -- An item that leaves the list is pending.
  move_out-Inv :
      (h : Hold) (i : ℕ)
      → Inv s pending
      → IsLive s l
      → get_elem? (s.holds l) i ≡ some h
      → Inv (with_items l (remove_at (s.holds l) i) s) (h ∷ pending)
  move_out-Inv h i v live e =
      let less = λ (t : ℕ).
        over_objects-less l (remove_at (s.holds l) i) s live (v.once l) (tally (on t)) (on t h)
          (tally-get_elem (on t) (s.holds l) i h e) in
      let less_locked = λ (t : ℕ).
        over_objects-less l (remove_at (s.holds l) i) s live (v.once l) (tally (locks_on t))
          (locks_on t h) (tally-get_elem (locks_on t) (s.holds l) i h e) in
      record {
        internal = λ t. omega (arith, v.internal t, less t);
        locks = λ t. omega (arith, v.locks t, less_locked t);
        internal_held = λ t l. omega (arith, v.internal_held t l, less t);
        locks_held = λ t l. omega (arith, v.locks_held t l, less_locked t);
        held_live = λ t p. v.held_live t (omega (arith, p, less t));
        once = v.once;
        typed = v.typed;
        session_once = v.session_once;
        external = v.external;
        of_sessions = v.of_sessions;
        positive = v.positive;
        external_live = v.external_live;
        sessions_live = v.sessions_live;
      }

module _ (lib : ArrayLib ℕ) (items : ArrayLib Hold) where
  -- Appending keeps the counts right: the list holds the item, and its lock.
  pub append_item-Inv :
      (l a : ℕ) (failure : Option Errno) (pending : List Hold) (s : Store)
      → Inv s pending
      → IsLive s l
      → IsLive s a
      → Inv (append_item lib items l a failure s).1 pending
  unfolding append_item lock add_internal_reference
  append_item-Inv l a (some errno) pending s v live item_live = v
  append_item-Inv l a none pending s v live item_live = rw items.append_lem (
      move_in-Inv l pending (lock a (add_internal_reference a s)) (item a)
        (acquire_and_lock-Inv a pending s v item_live) (ground (arith, live)))

  -- Giving a lock and an internal reference back.
  pub unlock_and_release-Settled :
      (a : ℕ) (pending : List Hold) (s : Store)
      → Inv s (locked_hold a ∷ pending)
      → Settled s pending (unlock_and_release lib a s)
  unfolding unlock_and_release
  unlock_and_release-Settled a pending s v =
      Settled-from (unlock-Below a s)
        (remove_internal_reference-Settled lib a pending (unlock a s) (unlock-Inv a pending s v))

  -- What an item was held for ends when it is removed from an unlocked list.
  pub record Removed (l index : ℕ) (pending : List Hold) (s : Store)
      (result : Option (ApiE × Store)) : Type 0 where
    pub after : Store
    pub returned : result ≡ some (success, after)
    pub inv : Inv after pending
    pub items_left : after.holds l ≡ remove_at (s.holds l) index

  -- In a store with right counts, `list_remove_from` on an unlocked list of the inventory, at an
  -- index with a locked item, returns success, takes exactly that item out of the list, and keeps
  -- the counts right, whatever the release of the item destroys.
  pub remove_from-Removed :
      (l index a : ℕ) (pending : List Hold) (s : Store)
      → Inv s pending
      → IsLive s l
      → (s.object l).lock_count ≡ 0
      → index < length (s.holds l)
      → get_elem? (s.holds l) index ≡ some (item a)
      → Removed l index pending s (remove_from lib items l index s)
  unfolding remove_from
  remove_from-Removed l index a pending s v live unlocked within e =
      let s₁ : Store = with_items l (remove_at (s.holds l) index) s in
      let d =
        unlock_and_release-Settled a pending s₁
          (move_out-Inv l pending s (item a) index v live e) in
      record {
        after = d.after;
        returned = ground (arith, d.returned, items.remove_lem (s.holds l) index);
        inv = d.inv;
        items_left = ap (λ (f : ℕ → List Hold). f l) d.same_holds ∙ ground arith;
      }
