-- ===== src/Inventory/Ids.antt =====
-- The ID loops of src/redapid/inventory.c find a free ID exactly when there is one.
use red_brick_apid.Base.{
  ℕ, zero, suc, ◌+◌, ◌-◌, ◌%◌, ◌^◌, Bool, true, false, none, some, arith, ◌==◌, if◌then◌else◌, ◌≡◌,
  ◌<◌, ◌↔◌, Bool-cases, inl, inr, subst, Option-cases, sym, ◌∙◌,
}
use mathlib.Core.Bool.{false≢true}
use red_brick_apid.Inventory.{next_free_id, id_max}

-- The candidate of round `k`, when the counter stands at `next`: 1 to 65535, in a circle.
abbrev pub candidate_at : ℕ → ℕ → ℕ
candidate_at next k = ((if next == 0 then 1 else next) - 1 + k) % 65535 + 1

candidate-suc :
    (next k : ℕ)
    → next < 65536
    → candidate_at (((if next == 0 then 1 else next) + 1) % 2 ^ 16) k ≡ candidate_at next (suc k)
candidate-suc next k h = ground arith

candidate-zero : (next : ℕ) → next < 65536 → candidate_at next 0 ≡ (if next == 0 then 1 else next)
candidate-zero next h = ground arith

-- An answer is a valid ID that is not in use.
pub next_free_id-free :
    (rounds : ℕ) (used : ℕ → Bool) (next id next' : ℕ)
    → next < 65536
    → next_free_id rounds used next ≡ (some id, next')
    → (used id ≡ false) × (0 < id) × (id < 65536) × (next' ≡ (id + 1) % 65536)
unfolding next_free_id
next_free_id-free zero used next id next' b h = cc
next_free_id-free (suc rounds) used next id next' b h =
    elim (Bool-cases (used (if next == 0 then 1 else next))) [
      | inl taken ↦
          next_free_id-free rounds used (((if next == 0 then 1 else next) + 1) % 2 ^ 16) id next'
            (omega arith) (rw (taken, next_free_id) at h)
      | inr free ↦ ground arith
    ]

-- No answer means that every candidate was in use.
pub next_free_id-none :
    (rounds : ℕ) (used : ℕ → Bool) (next next' : ℕ)
    → next < 65536
    → next_free_id rounds used next ≡ (none, next')
    → (k : ℕ) → k < rounds
    → used (candidate_at next k) ≡ true
unfolding next_free_id
next_free_id-none zero used next next' b h k lt = absurd (omega arith)
next_free_id-none (suc rounds) used next next' b h k lt =
    elim (Bool-cases (used (if next == 0 then 1 else next))) [
      | inl taken ↦ step k lt taken (
          next_free_id-none rounds used (((if next == 0 then 1 else next) + 1) % 2 ^ 16) next'
            (omega arith) (rw (taken, next_free_id) at h))
      | inr free ↦ ground arith
    ]
  where
    step :
        (k : ℕ)
        → k < suc rounds
        → used (if next == 0 then 1 else next) ≡ true
        → ((j : ℕ)
            → j < rounds
            → used (candidate_at (((if next == 0 then 1 else next) + 1) % 2 ^ 16) j) ≡ true)
        → used (candidate_at next k) ≡ true
    step zero lt taken ih = rw (candidate-zero next b) taken
    step (suc k) lt taken ih = rw (← candidate-suc next k b) (ih k (omega arith))

-- Every ID from 1 to 65535 is the candidate of some round.
round_of :
    (next id : ℕ)
    → next < 65536
    → 0 < id
    → id < 65536
    → (k : ℕ) × (k < id_max) × (candidate_at next k ≡ id)
round_of next id b pos lt =
    ((id + 65535 - (if next == 0 then 1 else next)) % 65535, omega arith, ground arith)

-- From any 16-bit counter, the 65535 rounds of the ID loop give up exactly when every ID from 1 to
-- 65535 is in use.
pub next_free_id_lem :
    (used : ℕ → Bool) (next : ℕ)
    → next < 65536
    → ((next_free_id id_max used next).0 ≡ none) ↔ ((id : ℕ) → 0 < id → id < 65536 → used id ≡ true)
next_free_id_lem used next b = (
  (λ h id pos lt.
      let (k, below, e) = round_of next id b pos lt in
      subst (λ c. used c ≡ true) e
        (next_free_id-none id_max used next (next_free_id id_max used next).1 b (ground (arith, h))
          k below)),
  λ all. elim (Option-cases (next_free_id id_max used next).0) [
    | inl e ↦ e
    | inr (id, e) ↦
        let (free, pos, lt, _) =
          next_free_id-free id_max used next id (next_free_id id_max used next).1 b
            (ground (arith, e)) in
        absurd (false≢true (sym free ∙ all id pos lt))
  ],
)
