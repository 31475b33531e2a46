-- ===== src/Stock/Frame.antt =====
-- Wrapping a text (src/redapid/string.c) leaves the stock strings of src/redapid/inventory.c alone.
use red_brick_apid.Base.{
  ℕ, ◌%◌, none, some, List, ltb, ◌≡◌, refl, length, Bool-cases, Option-cases, inl, inr, ap, sym,
  ◌∙◌,
}
use mathlib.Core.Option.{some-injective}
use red_brick_apid.ApiError.{ApiE, is_success, out_of_range}
use red_brick_apid.Memory.{c_string}
use red_brick_apid.Types.{string, int32_max, uint32_mod}
use red_brick_apid.Store.Arrays.{ArrayLib}
use red_brick_apid.Store.{Store}
use red_brick_apid.Object.Frame.{object_create-SameBodies}
use red_brick_apid.StringObject.{Growth, Run, returns, undefined}
use red_brick_apid.StringObject.Creation.{
  StringAttempts, wrap, filled, create, fill_text, after_fill, with_text, create_buffer,
}

module _ (growth : Growth) (lib : ArrayLib ℕ) (a : ℕ) where
  after_fill-stock :
      (s s' : Store) (error : ApiE) (r : Run)
      → after_fill a s r ≡ some (error, s')
      → s'.stock_strings ≡ s.stock_strings
  after_fill-stock s s' error undefined h = cc
  after_fill-stock s s' error (returns e t) h =
      ap (λ (r : ApiE × Store). r.1.stock_strings) (sym (some-injective _ _ h))

  filled-stock :
      (source : ℕ → ℕ) (n : ℕ) (r : ApiE × Store) (s' : Store) (error : ApiE)
      → filled growth lib a source n r ≡ some (error, s')
      → s'.stock_strings ≡ r.1.stock_strings
  unfolding filled
  filled-stock source n (e, s) s' error h = elim (Bool-cases (is_success e)) [
    | inl good ↦
        after_fill-stock s s' error (fill_text (s.text a) source n) (rw (good, filled) at h)
    | inr bad ↦
        let same : some (e, s) ≡ some (error, s') = rw (bad, filled) at h in
        ap (λ (r : ApiE × Store). r.1.stock_strings) (sym (some-injective _ _ same))
  ]

  create-stock :
      (n : ℕ) (flags : ℕ) (attempts : StringAttempts) (s : Store)
      → (create growth lib a n none none flags attempts s).1.stock_strings ≡ s.stock_strings
  unfolding create
  create-stock n flags attempts s =
      elim (Option-cases (create_buffer growth n none attempts.buffer).1) [
        | inl refused ↦ rw (refused, create) refl
        | inr (t, made) ↦ elim (Bool-cases attempts.memory) [
          | inr short ↦ rw (made, create, short) refl
          | inl enough ↦
              rw (made, create, enough)
                (object_create-SameBodies lib a string none flags attempts.create
                  (with_text a t s)).same_stock
        ]
      ]

  pub wrap-stock :
      (text : List ℕ) (flags : ℕ) (attempts : StringAttempts) (s s' : Store) (error : ApiE)
      → wrap growth lib a text none flags attempts s ≡ some (error, s')
      → s'.stock_strings ≡ s.stock_strings
  unfolding wrap
  wrap-stock text flags attempts s s' error h =
      elim (Bool-cases (ltb int32_max (length text % uint32_mod))) [
        | inl long ↦
            let same : some (out_of_range, s) ≡ some (error, s') = rw (long, wrap) at h in
            ap (λ (r : ApiE × Store). r.1.stock_strings) (sym (some-injective _ _ same))
        | inr short ↦
            filled-stock (c_string text) (length text % uint32_mod) _ s' error
              (rw (short, wrap) at h)
            ∙ create-stock (length text % uint32_mod) flags attempts s
      ]
