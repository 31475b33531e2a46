-- ===== src/FileObject/Bytes.antt =====
-- The first bytes of a file (src/redapid/file.c), and the bytes behind them.
use red_brick_apid.Base.{
  ℕ, zero, suc, ◌+◌, List, [], ◌∷◌, ◌++◌, arith, ◌≡◌, refl, ◌≤◌, length, ap, ◌∙◌,
}

abbrev pub take : ℕ → List ℕ → List ℕ
take zero xs = []
take (suc n) [] = []
take (suc n) (x ∷ xs) = x ∷ take n xs

abbrev pub drop : ℕ → List ℕ → List ℕ
drop zero xs = xs
drop (suc n) [] = []
drop (suc n) (x ∷ xs) = drop n xs

pub length-take : (n : ℕ) (xs : List ℕ) → n ≤ length xs → length (take n xs) ≡ n
length-take zero xs h = refl
length-take (suc n) [] h = absurd (omega (arith, h))
length-take (suc n) (x ∷ xs) h = ap suc (length-take n xs (omega (arith, h)))

pub take_nil : (n : ℕ) → take n [] ≡ []
take_nil zero = refl
take_nil (suc n) = refl

pub take_split : (k n : ℕ) (xs : List ℕ) → take (k + n) xs ≡ take k xs ++ take n (drop k xs)
take_split zero n xs = ap (λ m. take m xs) (omega arith)
take_split (suc k) zero [] = take_nil (suc k + 0)
take_split (suc k) (suc n) [] = take_nil (suc k + suc n)
take_split (suc k) n (x ∷ xs) =
    let e : suc k + n ≡ suc (k + n) = omega arith in
    ap (λ m. take m (x ∷ xs)) e ∙ ap (λ ys. x ∷ ys) (take_split k n xs)
