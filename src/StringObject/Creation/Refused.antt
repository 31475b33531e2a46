-- ===== src/StringObject/Creation/Refused.antt =====
-- A `string_wrap` for the daemon's own use, with an internal reference and a lock, on every path
-- (src/redapid/string.c).
use red_brick_apid.Base.{
  ℕ, ◌+◌, false, Option, none, some, List, [], ◌∷◌, arith, ◌≡◌, refl, ◌≢◌, ◌≤◌, length, Bool-cases,
  Option-cases, inl, inr, ap, sym, subst, ◌∙◌,
}
use mathlib.Core.Bool.{false≢true}
use mathlib.Core.Option.{some-injective, none-ne-some}
use red_brick_apid.ApiError.{ApiE, is_success, is_success-eq, success}
use red_brick_apid.Memory.{NoZero, c_string}
use red_brick_apid.Types.{String, string, int32_max}
use red_brick_apid.Store.Arrays.{ArrayLib}
use red_brick_apid.Store.{Store, Hold}
use red_brick_apid.Object.Invariant.{Inv, locked_hold}
use red_brick_apid.Object.Create.{flag_internal, flag_locked}
use red_brick_apid.Object.Create.Cell.{InNoArray, written-Inv, written-IsFresh}
use red_brick_apid.Object.Create.Refused.{object_create-Kept}
use red_brick_apid.StringObject.{Growth, Run, returns, undefined}
use red_brick_apid.StringObject.Creation.{
  StringAttempts, wrap, filled, create, create_buffer, fill_text, after_fill, with_text,
}
use red_brick_apid.StringObject.Creation.Calls.{wrap-filled, wrap-ne-none, wrap-Holds}

-- The new string is held and locked for the caller, or the counts are as they were.
pub data Wrapped (a : ℕ) (pending : List Hold) : Option (ApiE × Store) → Type 0 where
  wrapped : (s' : Store) → Inv s' (locked_hold a ∷ pending) → Wrapped a pending (some (success, s'))
  refused :
      (error : ApiE) (s' : Store)
      → error ≢ success
      → Inv s' pending
      → Wrapped a pending (some (error, s'))

fill_text-success :
    (t t' : String) (source : ℕ → ℕ) (n : ℕ) (error : ApiE)
    → fill_text t source n ≡ returns error t'
    → error ≡ success
unfolding fill_text
fill_text-success t t' source n error h = ground arith

module _ (growth : Growth) (lib : ArrayLib ℕ) (a : ℕ) (text : List ℕ) (attempts : StringAttempts)
    (s : Store) (pending : List Hold) (v : Inv s pending) (absent : InNoArray a s) where
  abbrev flags : ℕ
  flags = flag_internal + flag_locked

  create-Inv :
      is_success (create growth lib a (length text) none none flags attempts s).0 ≡ false
      → Inv (create growth lib a (length text) none none flags attempts s).1 pending
  unfolding create
  create-Inv = elim (Option-cases (create_buffer growth (length text) none attempts.buffer).1) [
    | inl none_made ↦ rw (create, none_made) (λ bad. v)
    | inr (t, made) ↦ elim (Bool-cases attempts.memory) [
      | inr short ↦ rw (create, made, short) (λ bad. v)
      | inl enough ↦
          rw (create, made, enough)
            (λ bad.
              (object_create-Kept a pending lib string none flags attempts.create (with_text a t s)
                (written-Inv a [] _ s absent v) (written-IsFresh a _ s absent) refl bad).inv)
    ]
  ]

  filled-success :
      (r : Run) (t : String) (source : ℕ → ℕ) (n : ℕ) (s₁ s' : Store) (error : ApiE)
      → fill_text t source n ≡ r
      → after_fill a s₁ r ≡ some (error, s')
      → error ≡ success
  filled-success undefined t source n s₁ s' error e h = absurd (none-ne-some _ h)
  filled-success (returns error' t') t source n s₁ s' error e h =
      ap (λ (q : ApiE × Store). q.0) (sym (some-injective _ _ h))
      ∙ fill_text-success t t' source n error' e

  module _ (nonzero : NoZero text) (small : length text ≤ int32_max) where
    from_create :
        (c : ApiE × Store) (error : ApiE) (s' : Store)
        → (is_success c.0 ≡ false → Inv c.1 pending)
        → error ≢ success
        → filled growth lib a (c_string text) (length text) c ≡ some (error, s')
        → Inv s' pending
    unfolding filled
    from_create (e, s₁) error s' kept ne h = elim (Bool-cases (is_success e)) [
      | inl good ↦ absurd (
          ne (
            filled-success (fill_text (s₁.text a) (c_string text) (length text)) (s₁.text a)
              (c_string text) (length text) s₁ s' error refl (rw (filled, good) at h)))
      | inr bad ↦
          let same : some (e, s₁) ≡ some (error, s') = rw (filled, bad) at h in
          subst (λ (q : ApiE × Store). Inv q.1 pending) (some-injective _ _ same) (kept bad)
    ]

    with_result :
        (r : Option (ApiE × Store))
        → wrap growth lib a text none flags attempts s ≡ r
        → Wrapped a pending r
    with_result none e =
        absurd
          (wrap-ne-none growth lib a attempts s text none flags nonzero (omega (arith, small)) e)
    with_result (some (error, s')) e = elim (Bool-cases (is_success error)) [
      | inl good ↦
          let made : wrap growth lib a text none flags attempts s ≡ some (success, s') =
            subst (λ c. wrap growth lib a text none flags attempts s ≡ some (c, s'))
              (is_success-eq error good) e in
          let (t, v') =
            wrap-Holds growth lib a attempts s text none flags pending s' nonzero small v absent tt
              made in
          subst (λ c. Wrapped a pending (some (c, s'))) (sym (is_success-eq error good))
            (wrapped s' v')
      | inr bad ↦
          let ne : error ≢ success = λ h. false≢true (sym bad ∙ ap is_success h) in
          refused error s' ne (
            from_create (create growth lib a (length text) none none flags attempts s) error s'
              (λ b. create-Inv b) ne
              (sym (wrap-filled growth lib a attempts s text none flags small) ∙ e))
    ]

    pub wrap-Wrapped : Wrapped a pending (wrap growth lib a text none flags attempts s)
    wrap-Wrapped = with_result _ refl
