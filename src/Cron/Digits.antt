-- ===== src/Cron/Digits.antt =====
-- The names of cron files tell the programs apart (src/redapid/cron.c).
use red_brick_apid.Base.{
  ℕ, zero, suc, ◌+◌, ◌-◌, ◌*◌, ◌/◌, ◌%◌, ◌^◌, true, false, none, List, [], ◌∷◌, ◌++◌, arith, ltb,
  ◌≡◌, refl, ◌<◌, ap, sym, ◌∙◌, Bool-cases, inl, inr, same_name, same_name-eq,
}
use mathlib.Core.Bool.{false≢true}
use red_brick_apid.Cron.{CronFile, digits, format_filename, without_file, find_file}

-- The number that digits stand for, behind `n`.
abbrev value : ℕ → List ℕ → ℕ
value n [] = n
value n (d ∷ ds) = value (10 * n + (d - 48)) ds

value-append : (n d : ℕ) (ds : List ℕ) → value n (ds ++ d ∷ []) ≡ 10 * value n ds + (d - 48)
value-append n d [] = refl
value-append n d (e ∷ ds) = value-append (10 * n + (e - 48)) d ds

value-digits : (places n : ℕ) → n < 10 ^ places → value 0 (digits places n) ≡ n
unfolding digits
value-digits zero n h = omega arith
value-digits (suc places) n h = elim (Bool-cases (ltb n 10)) [
  | inl small ↦ rw small (ground arith)
  | inr large ↦
      rw (large, value-append 0 (48 + n % 10) (digits places (n / 10)))
        (omega (arith, value-digits places (n / 10) (omega arith)))
]

-- What is left of a list behind its first `n` items.
abbrev behind : ℕ → List ℕ → List ℕ
behind zero xs = xs
behind (suc n) [] = []
behind (suc n) (x ∷ xs) = behind n xs

-- The file names of different programs differ.
pub format_filename-injective :
    (p q : ℕ)
    → p < 65536
    → q < 65536
    → same_name (format_filename p) (format_filename q) ≡ true
    → p ≡ q
unfolding format_filename
format_filename-injective p q hp hq h =
    let same : digits 5 p ≡ digits 5 q =
      ap (behind 25) (same_name-eq (format_filename p) (format_filename q) h) in
    sym (value-digits 5 p (omega arith)) ∙ ap (value 0) same ∙ value-digits 5 q (omega arith)

not_same :
    (xs ys zs : List ℕ) → same_name xs zs ≡ true → same_name ys zs ≡ false → same_name xs ys ≡ false
not_same xs ys zs e ne = elim (Bool-cases (same_name xs ys)) [
  | inr differ ↦ differ
  | inl same ↦
      let p = same_name-eq xs ys same in
      absurd (false≢true (sym ne ∙ (ap (λ w. same_name w zs) (sym p) ∙ e)))
]

pub find_file-without_file :
    (name : List ℕ) (other : List ℕ) (files : List (List ℕ × CronFile))
    → same_name other name ≡ false
    → find_file other (without_file name files) ≡ find_file other files
find_file-without_file name other [] h = refl
find_file-without_file name other (f ∷ files) h = elim (Bool-cases (same_name f.0 name)) [
  | inl gone ↦
      let different = not_same f.0 other name gone h in
      ground (arith, find_file-without_file name other files h)
  | inr kept ↦ ground (arith, find_file-without_file name other files h)
]

pub find_file-none :
    (name : List ℕ) (files : List (List ℕ × CronFile))
    → find_file name (without_file name files) ≡ none
find_file-none name [] = refl
find_file-none name (f ∷ files) = ground (arith, find_file-none name files)
