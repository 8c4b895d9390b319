-- ===== src/Workload/Radix/Tally.antt =====
-- The counts of a radix pass.
use rapidbench.Prelude.{
  ℕ, zero, suc, ◌+◌, ◌<◌, ◌≡◌, refl, sym, ap, ◌∙◌, List, [], ◌∷◌, arith, ltb, leb, ◌==◌, ◌&&◌,
  if◌then◌else◌, length, keep_if, get_or, set, replicate,
}
use mathlib.Core.Path.{ap₂}
use rapidbench.Workload.Radix.{digit, count_digits}

abbrev pub sum : List ℕ → ℕ
sum [] = 0
sum (x ∷ xs) = x + sum xs

module _ (shift : ℕ) where
  -- The values with a digit, in order.
  abbrev pub bucket : ℕ → List ℕ → List ℕ
  bucket k = keep_if (λ v. digit shift v == k)

  pub bucket-hit : (k v : ℕ) (vs : List ℕ) → digit shift v ≡ k → bucket k (v ∷ vs) ≡ v ∷ bucket k vs
  bucket-hit k v vs e = ground arith

  pub bucket-before : (k v : ℕ) (vs : List ℕ) → digit shift v < k → bucket k (v ∷ vs) ≡ bucket k vs
  bucket-before k v vs h = ground arith

  pub bucket-after : (k v : ℕ) (vs : List ℕ) → k < digit shift v → bucket k (v ∷ vs) ≡ bucket k vs
  bucket-after k v vs h = ground arith

  -- The sizes of the buckets of n digits, from k on.
  unfoldable pub tally : ℕ → ℕ → List ℕ → List ℕ
  tally k zero vs = []
  tally k (suc n) vs = length (bucket k vs) ∷ tally (k + 1) n vs

  -- The values of a list, before those of another, in reverse.
  back_onto : List ℕ → List ℕ → List ℕ
  back_onto [] us = us
  back_onto (v ∷ vs) us = back_onto vs (v ∷ us)

  size-back_onto :
      (k : ℕ) (vs us : List ℕ)
      → length (bucket k (back_onto vs us)) ≡ length (bucket k vs) + length (bucket k us)
  unfolding back_onto
  size-back_onto k [] us = omega arith
  size-back_onto k (v ∷ vs) us = ground (arith, size-back_onto k vs (v ∷ us))

  tally-back_onto : (k n : ℕ) (vs : List ℕ) → tally k n (back_onto vs []) ≡ tally k n vs
  unfolding tally
  tally-back_onto k zero vs = refl
  tally-back_onto k (suc n) vs =
      ap₂ ◌∷◌ (size-back_onto k vs [] ∙ omega arith) (tally-back_onto (k + 1) n vs)

  tally-other : (k n v : ℕ) (us : List ℕ) → digit shift v < k → tally k n (v ∷ us) ≡ tally k n us
  unfolding tally
  tally-other k zero v us h = refl
  tally-other k (suc n) v us h = ground (arith, tally-other (k + 1) n v us)

  tally-bump :
      (k n d v : ℕ) (us : List ℕ)
      → digit shift v ≡ k + d
      → d < n
      → set (tally k n us) d (get_or (tally k n us) d 0 + 1) ≡ tally k n (v ∷ us)
  unfolding tally
  tally-bump k zero d v us e h = absurd (omega arith)
  tally-bump k (suc n) zero v us e h = ground (arith, tally-other (k + 1) n v us)
  tally-bump k (suc n) (suc d) v us e h = ground (arith, tally-bump (k + 1) n d v us)

  count_digits-tally :
      (vs us : List ℕ) → count_digits shift vs (tally 0 256 us) ≡ tally 0 256 (back_onto vs us)
  unfolding count_digits back_onto
  count_digits-tally [] us = refl
  count_digits-tally (v ∷ vs) us =
      ap (count_digits shift vs) (tally-bump 0 256 (digit shift v) v us (omega arith) (omega arith))
      ∙ count_digits-tally vs (v ∷ us)

  tally-nil : (k n : ℕ) → tally k n [] ≡ replicate n 0
  unfolding tally
  tally-nil k zero = refl
  tally-nil k (suc n) = ap (◌∷◌ 0) (tally-nil (k + 1) n)

  -- The counting loop counts the values of each digit.
  pub count_digits-lem : (vs : List ℕ) → count_digits shift vs (replicate 256 0) ≡ tally 0 256 vs
  count_digits-lem vs =
      ap (count_digits shift vs) (sym (tally-nil 0 256))
      ∙ count_digits-tally vs []
      ∙ tally-back_onto 0 256 vs

  sum-tally-cons :
      (k n v : ℕ) (vs : List ℕ)
      → sum (tally k n (v ∷ vs))
        ≡ sum (tally k n vs)
          + (if leb k (digit shift v) && ltb (digit shift v) (k + n) then 1 else 0)
  unfolding tally
  sum-tally-cons k zero v vs = ground arith
  sum-tally-cons k (suc n) v vs = ground (arith, sum-tally-cons (k + 1) n v vs)

  sum-tally-nil : (k n : ℕ) → sum (tally k n []) ≡ 0
  unfolding tally
  sum-tally-nil k zero = refl
  sum-tally-nil k (suc n) = omega (arith, sum-tally-nil (k + 1) n)

  -- Every value is counted.
  pub sum-tally : (vs : List ℕ) → sum (tally 0 256 vs) ≡ length vs
  sum-tally [] = sum-tally-nil 0 256
  sum-tally (v ∷ vs) = ground (arith, sum-tally-cons 0 256 v vs, sum-tally vs)
