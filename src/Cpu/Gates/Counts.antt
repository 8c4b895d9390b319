-- ===== src/Cpu/Gates/Counts.antt =====
-- Counting the workers that are in certain phases.
use rapidbench.Prelude.{
  ℕ, zero, suc, ◌+◌, ◌≤◌, ◌<◌, ◌≡◌, refl, ap, Bool, true, false, some, List, [], ◌∷◌, ◌++◌, arith,
  length, get_elem?, set, if◌then◌else◌, All, Bool-cases, inl, inr,
}

abbrev pub weight : Bool → ℕ
weight b = if b then 1 else 0

module _ {A : Type 0} (p : A → Bool) where
  abbrev pub tally : List A → ℕ
  tally [] = 0
  tally (x ∷ xs) = weight (p x) + tally xs

  pub tally-le : (xs : List A) → tally xs ≤ length xs
  tally-le [] = omega arith
  tally-le (x ∷ xs) = ground (arith, tally-le xs)

  pub tally-append : (xs : List A) (a : A) → tally (xs ++ (a ∷ [])) ≡ tally xs + weight (p a)
  tally-append [] a = omega arith
  tally-append (x ∷ xs) a = omega (arith, tally-append xs a)

  -- One worker goes from one phase to another.
  pub tally-set :
      (xs : List A) (i : ℕ) (a b : A)
      → get_elem? xs i ≡ some a
      → tally (set xs i b) + weight (p a) ≡ tally xs + weight (p b)
  tally-set [] i a b e = cc
  tally-set (x ∷ xs) zero a b e =
      let same : x ≡ a = cc in let bit = ap (λ c. weight (p c)) same in omega (arith, bit)
  tally-set (x ∷ xs) (suc i) a b e = omega (arith, tally-set xs i a b e)

  pub tally-full : (xs : List A) → tally xs ≡ length xs → All (λ x. p x ≡ true) xs
  tally-full [] e = tt
  tally-full (x ∷ xs) e = (ground (arith, tally-le xs), tally-full xs (ground (arith, tally-le xs)))

  -- Where not all are counted, one is not.
  pub tally-missing :
      (xs : List A)
      → tally xs < length xs
      → (i : ℕ) × (a : A) × (get_elem? xs i ≡ some a) × (p a ≡ false)
  tally-missing [] h = absurd (omega arith)
  tally-missing (x ∷ xs) h = elim (Bool-cases (p x)) [
    | inl e ↦ let (i, a, g, f) = tally-missing xs (ground arith) in (suc i, a, g, f)
    | inr e ↦ (0, x, refl, e)
  ]

module _ {A : Type 0} where
  pub length-append_one : (xs : List A) (a : A) → length (xs ++ (a ∷ [])) ≡ length xs + 1
  length-append_one [] a = omega arith
  length-append_one (x ∷ xs) a = omega (arith, length-append_one xs a)

module _ {A : Type 0} (p : A → Bool) where
  pub tally-none : (xs : List A) → tally p xs ≡ 0 → All (λ x. p x ≡ false) xs
  tally-none [] e = tt
  tally-none (x ∷ xs) e = (ground arith, tally-none xs (omega arith))

  pub tally-some :
      (xs : List A) (i : ℕ) (a : A) → get_elem? xs i ≡ some a → p a ≡ true → 0 < tally p xs
  tally-some [] i a e f = cc
  tally-some (x ∷ xs) zero a e f =
      let same : x ≡ a = cc in let bit = ap (λ c. weight (p c)) same in ground (arith, bit)
  tally-some (x ∷ xs) (suc i) a e f = omega (arith, tally-some xs i a e f)
