-- ===== src/Store/Arrays.antt =====
-- daemonlib's arrays, as the sequences of their items: the operations are parameters, and the laws
-- say what the code relies on.
use red_brick_apid.Base.{
  ℕ, zero, suc, ◌+◌, Option, none, some, List, [], ◌∷◌, ◌++◌, arith, ◌==◌, if◌then◌else◌, ◌≡◌, refl,
  ◌<◌, Bool-cases, inl, inr,
}

abbrev pub remove_at {ℓ} : {A : Type ℓ} → List A → ℕ → List A
remove_at [] i = []
remove_at (x ∷ xs) zero = xs
remove_at (x ∷ xs) (suc i) = x ∷ remove_at xs i

pub record ArrayLib {ℓ} (A : Type ℓ) : Type ℓ where
  pub append : List A → A → List A
  pub remove : List A → ℕ → List A
  pub append_lem : (xs : List A) (x : A) → append xs x ≡ xs ++ x ∷ []
  pub remove_lem : (xs : List A) (i : ℕ) → remove xs i ≡ remove_at xs i

-- The place of an address, as a loop over an array finds it.
abbrev pub index_of : ℕ → List ℕ → Option ℕ
index_of a [] = none
index_of a (x ∷ xs) =
    if x == a then some 0 else elim (index_of a xs) [ none ↦ none | some i ↦ some (suc i) ]

abbrev pub tally {ℓ} : {A : Type ℓ} → (A → ℕ) → List A → ℕ
tally f [] = 0
tally f (x ∷ xs) = f x + tally f xs

abbrev pub occurrences : ℕ → List ℕ → ℕ
occurrences a = tally (λ b. if b == a then 1 else 0)

pub tally-append {ℓ} :
    {A : Type ℓ} (f : A → ℕ) (xs ys : List A) → tally f (xs ++ ys) ≡ tally f xs + tally f ys
tally-append f [] ys = omega arith
tally-append f (x ∷ xs) ys = omega (arith, tally-append f xs ys)

-- Taking the place of `a` out takes away its part of every sum.
pub tally-remove_at :
    (f : ℕ → ℕ) (a : ℕ) (xs : List ℕ) (i : ℕ)
    → index_of a xs ≡ some i
    → tally f (remove_at xs i) + f a ≡ tally f xs
tally-remove_at f a [] i h = cc
tally-remove_at f a (x ∷ xs) zero h = ground arith
tally-remove_at f a (x ∷ xs) (suc i) h = ground (arith, tally-remove_at f a xs i)

pub index_of-occurrences :
    (a : ℕ) (xs : List ℕ) → 0 < occurrences a xs → (i : ℕ) × (index_of a xs ≡ some i)
index_of-occurrences a [] h = absurd (omega arith)
index_of-occurrences a (x ∷ xs) h = elim (Bool-cases (x == a)) [
  | inl here ↦ (0, ground arith)
  | inr there ↦ let (i, e) = index_of-occurrences a xs (ground arith) in (suc i, ground arith)
]

-- An address that is not found does not occur.
pub occurrences-index_of : (a : ℕ) (xs : List ℕ) → index_of a xs ≡ none → occurrences a xs ≡ 0
occurrences-index_of a [] h = refl
occurrences-index_of a (x ∷ xs) h = ground (arith, occurrences-index_of a xs)
