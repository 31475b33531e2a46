-- ===== src/Object/Frame.antt =====
-- What `object_create` leaves alone (src/redapid/object.c): the bodies of the objects.
use red_brick_apid.Base.{
  Bool, true, false, Option, none, some, ℕ, arith, ◌≡◌, refl, if◌then◌else◌, Bool-cases, inl, inr,
  ◌∙◌,
}
use red_brick_apid.ApiError.{ApiE, Errno, is_success}
use red_brick_apid.Types.{ObjectType}
use red_brick_apid.Store.Arrays.{ArrayLib}
use red_brick_apid.Store.{Store}
use red_brick_apid.Inventory.{add_object, place_object, next_free_id, id_max, object_id_used}
use red_brick_apid.Object.{lock, add_internal_reference, add_external_reference}
use red_brick_apid.Object.Create.{
  with_header, Attempts, first_external, create_referenced, object_create, has_flag, flag_internal,
  flag_locked,
}

-- The texts, the holds and the stock strings of two stores agree.
pub record SameBodies (s s' : Store) : Type 0 where
  pub same_text : s'.text ≡ s.text
  pub same_holds : s'.holds ≡ s.holds
  pub same_stock : s'.stock_strings ≡ s.stock_strings

placed :
    (lib : ArrayLib ℕ) (a : ℕ) (f : Option Errno) (r : Option ℕ) (s : Store)
    → SameBodies s (place_object lib a f r s).1
unfolding place_object
placed lib a f none s = record { same_text = refl; same_holds = refl; same_stock = refl }
placed lib a (some errno) (some id) s = record {
  same_text = refl;
  same_holds = refl;
  same_stock = refl;
}
placed lib a none (some id) s = record { same_text = refl; same_holds = refl; same_stock = refl }

add_object-SameBodies :
    (lib : ArrayLib ℕ) (a : ℕ) (f : Option Errno) (s : Store)
    → SameBodies s (add_object lib a f s).1
unfolding add_object
add_object-SameBodies lib a f s =
    let p =
      placed lib a f (next_free_id id_max (object_id_used s) s.next_object_id).0 (record s {
        next_object_id = (next_free_id id_max (object_id_used s) s.next_object_id).1;
      }) in
    record { same_text = p.same_text; same_holds = p.same_holds; same_stock = p.same_stock }

SameBodies-trans : {s s₁ s₂ : Store} → SameBodies s s₁ → SameBodies s₁ s₂ → SameBodies s s₂
SameBodies-trans p q = record {
  same_text = q.same_text ∙ p.same_text;
  same_holds = q.same_holds ∙ p.same_holds;
  same_stock = q.same_stock ∙ p.same_stock;
}

add_if : (b : Bool) (a : ℕ) (s : Store) → SameBodies s (if b then add_internal_reference a s else s)
unfolding add_internal_reference
add_if true a s = record { same_text = refl; same_holds = refl; same_stock = refl }
add_if false a s = record { same_text = refl; same_holds = refl; same_stock = refl }

lock_if : (b : Bool) (a : ℕ) (s : Store) → SameBodies s (if b then lock a s else s)
unfolding lock
lock_if true a s = record { same_text = refl; same_holds = refl; same_stock = refl }
lock_if false a s = record { same_text = refl; same_holds = refl; same_stock = refl }

first_external-SameBodies :
    (a flags : ℕ) (session : Option ℕ) (memory : Bool) (s : Store)
    → SameBodies s (first_external a flags session memory s).1
unfolding add_external_reference
first_external-SameBodies a flags none memory s = record {
  same_text = refl;
  same_holds = refl;
  same_stock = refl;
}
first_external-SameBodies a flags (some x) memory s = record {
  same_text = ground arith;
  same_holds = ground arith;
  same_stock = ground arith;
}

finished :
    (lib : ArrayLib ℕ) (a flags : ℕ) (f : Option Errno) (r : ApiE × Store)
    → SameBodies r.1
        (if◌then◌else◌ {A = ApiE × Store}
          (is_success r.0)
          (add_object lib a f (if has_flag flags flag_locked then lock a r.1 else r.1))
          (r.0, r.1)).1
finished lib a flags f r = elim (Bool-cases (is_success r.0)) [
  | inl good ↦ rw good (
      SameBodies-trans (lock_if (has_flag flags flag_locked) a r.1)
        (add_object-SameBodies lib a f (if has_flag flags flag_locked then lock a r.1 else r.1)))
  | inr bad ↦ rw bad (record { same_text = refl; same_holds = refl; same_stock = refl })
]

create_referenced-SameBodies :
    (lib : ArrayLib ℕ) (a flags : ℕ) (session : Option ℕ) (attempts : Attempts) (s : Store)
    → SameBodies s (create_referenced lib a flags session attempts s).1
unfolding create_referenced
create_referenced-SameBodies lib a flags session attempts s =
    let s₁ = if has_flag flags flag_internal then add_internal_reference a s else s in
    SameBodies-trans (add_if (has_flag flags flag_internal) a s) (
      SameBodies-trans (first_external-SameBodies a flags session attempts.memory s₁) (
        finished lib a flags attempts.append_failure
          (first_external a flags session attempts.memory s₁)))

pub object_create-SameBodies :
    (lib : ArrayLib ℕ) (a : ℕ) (t : ObjectType) (session : Option ℕ) (flags : ℕ)
    (attempts : Attempts) (s : Store)
    → SameBodies s (object_create lib a t session flags attempts s).1
unfolding object_create
object_create-SameBodies lib a t session flags attempts s =
    let p = create_referenced-SameBodies lib a flags session attempts (with_header a t s) in
    record {
      same_text = ground (arith, p.same_text);
      same_holds = ground (arith, p.same_holds);
      same_stock = ground (arith, p.same_stock);
    }
