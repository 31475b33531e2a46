-- ===== src/Monitor/Shape.antt =====
-- An observation among the others (src/redapid/process_monitor.c): where the loops over the
-- observations find it, and what removing an observer does to it.
use red_brick_apid.Base.{
  ℕ, true, none, some, List, [], ◌∷◌, ◌++◌, arith, if◌then◌else◌, ◌≡◌, refl, ◌⊎◌, length, get_elem?,
  set_at, same_name, Bool-cases, inl, inr, ap,
}
use red_brick_apid.Store.Arrays.{ArrayLib, remove_at, index_of, tally, occurrences}
use red_brick_apid.Monitor.{ProcessObservation, observation_index, remove_observer}

-- How many of the observations are for the command line?
abbrev pub count_prefix : List ℕ → List ProcessObservation → ℕ
count_prefix prefix = tally (λ v. if same_name v.cmdline_prefix prefix then 1 else 0)

module _ {ℓ} {A : Type ℓ} where
  pub get_elem?-middle : (xs ys : List A) (y : A) → get_elem? (xs ++ y ∷ ys) (length xs) ≡ some y
  get_elem?-middle [] ys y = refl
  get_elem?-middle (x ∷ xs) ys y = get_elem?-middle xs ys y

  pub set_at-middle :
      (xs ys : List A) (y z : A) → set_at (xs ++ y ∷ ys) (length xs) z ≡ xs ++ z ∷ ys
  set_at-middle [] ys y z = refl
  set_at-middle (x ∷ xs) ys y z = ap (λ w. x ∷ w) (set_at-middle xs ys y z)

  pub remove_at-middle : (xs ys : List A) (y : A) → remove_at (xs ++ y ∷ ys) (length xs) ≡ xs ++ ys
  remove_at-middle [] ys y = refl
  remove_at-middle (x ∷ xs) ys y = ap (λ w. x ∷ w) (remove_at-middle xs ys y)

  -- A list is empty or has a last item.
  pub last-cases : (xs : List A) → (xs ≡ []) ⊎ ((ys : List A) × (y : A) × (xs ≡ ys ++ y ∷ []))
  last-cases [] = inl refl
  last-cases (x ∷ xs) = elim (last-cases xs) [
    | inl e ↦ inr ([], x, ap (λ w. x ∷ w) e)
    | inr (ys, y, e) ↦ inr (x ∷ ys, y, ap (λ w. x ∷ w) e)
  ]

pub index_of-middle :
    (a : ℕ) (xs ys : List ℕ) → occurrences a xs ≡ 0 → index_of a (xs ++ a ∷ ys) ≡ some (length xs)
index_of-middle a [] ys h = ground arith
index_of-middle a (x ∷ xs) ys h = ground (arith, index_of-middle a xs ys)

module _ (lib : ArrayLib ℕ) where
  -- Removing an observer of the only observation for the command line changes that one only.
  pub remove_observer-middle :
      (prefix : List ℕ) (o k : ℕ) (before after : List ProcessObservation) (v : ProcessObservation)
      → count_prefix prefix before ≡ 0
      → same_name v.cmdline_prefix prefix ≡ true
      → index_of o v.observers ≡ some k
      → remove_observer lib prefix o (before ++ v ∷ after)
        ≡ before ++ record v { observers = remove_at v.observers k } ∷ after
  unfolding remove_observer
  remove_observer-middle prefix o k [] after v none_before same found =
      ground (arith, lib.remove_lem v.observers k)
  remove_observer-middle prefix o k (w ∷ before) after v none_before same found =
      ground (arith, remove_observer-middle prefix o k before after v)

-- The first observation for a command line, if there is one.
pub observation_index-cases :
    (prefix : List ℕ) (observations : List ProcessObservation)
    → ((observation_index prefix observations ≡ none) × (count_prefix prefix observations ≡ 0))
      ⊎ ((before : List ProcessObservation) × (v : ProcessObservation) × (after : List
            ProcessObservation)
          × (observations ≡ before ++ v ∷ after)
          × (observation_index prefix observations ≡ some (length before))
          × (count_prefix prefix before ≡ 0)
          × (same_name v.cmdline_prefix prefix ≡ true))
observation_index-cases prefix [] = inl (refl, refl)
observation_index-cases prefix (w ∷ rest) = elim (Bool-cases (same_name w.cmdline_prefix prefix)) [
  | inl same ↦ inr ([], w, rest, refl, ground arith, refl, same)
  | inr differs ↦ elim (observation_index-cases prefix rest) [
    | inl (absent, zero_of) ↦ inl (ground arith, ground arith)
    | inr (before, v, after, e, index, zero_of, same) ↦
        inr (w ∷ before, v, after, ap (λ o. w ∷ o) e, ground arith, ground arith, same)
  ]
]
