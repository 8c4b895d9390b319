-- ===== src/Workload/Radix/Stable.antt =====
-- A stable pass of ReferenceSort over one digit more leaves the values in order by one digit more.
use rapidbench.Prelude.{
  ℕ, zero, suc, ◌+◌, ◌≤◌, ◌<◌, ◌≡◌, Bool, false, List, [], ◌∷◌, ◌++◌, arith, ltb, ◌==◌, All,
  All-map, All-append, Bool-cases, inl, inr,
}
use rapidbench.Prelude.Sort.{IsSorted}
use rapidbench.Workload.Radix.{digit}
use rapidbench.Workload.Radix.Tally.{bucket}
use rapidbench.Workload.Radix.Pass.{buckets}
use rapidbench.Workload.Radix.Order.{bucket-digits, buckets-digits}

-- The order by a key.
abbrev pub by : (ℕ → ℕ) → ℕ → ℕ → Bool
by key a b = ltb (key a) (key b)

module _ (lt : ℕ → ℕ → Bool) where
  -- Nothing of the second list comes before anything of the first.
  abbrev Apart : List ℕ → List ℕ → Type 0
  Apart xs ys = All (λ x. All (λ y. lt y x ≡ false) ys) xs

  append-IsSorted :
      (xs ys : List ℕ) → IsSorted lt xs → IsSorted lt ys → Apart xs ys → IsSorted lt (xs ++ ys)
  append-IsSorted [] ys s t h = t
  append-IsSorted (x ∷ xs) ys s t h =
      (All-append (λ y. lt y x ≡ false) xs ys s.0 h.0, append-IsSorted xs ys s.1 t h.1)

module _ (shift : ℕ) (low high : ℕ → ℕ)
    (ties : (a b : ℕ) → digit shift a ≡ digit shift b → by low b a ≡ false → by high b a ≡ false)
    (digits : (a b : ℕ) → digit shift a < digit shift b → by high b a ≡ false) where
  bucket-after-first :
      (k v : ℕ) (vs : List ℕ)
      → digit shift v ≡ k
      → All (λ y. by low y v ≡ false) vs
      → All (λ y. by high y v ≡ false) (bucket shift k vs)
  bucket-after-first k v [] e h = tt
  bucket-after-first k v (y ∷ ys) e h = elim (Bool-cases (digit shift y == k)) [
    | inl d ↦
        let same : digit shift v ≡ digit shift y = ground arith in
        rw d (ties v y same h.0, bucket-after-first k v ys e h.1)
    | inr d ↦ rw d (bucket-after-first k v ys e h.1)
  ]

  bucket-IsSorted :
      (k : ℕ) (vs : List ℕ) → IsSorted (by low) vs → IsSorted (by high) (bucket shift k vs)
  bucket-IsSorted k [] s = tt
  bucket-IsSorted k (v ∷ vs) s = elim (Bool-cases (digit shift v == k)) [
    | inl d ↦
        let e : digit shift v ≡ k = ground arith in
        rw d (bucket-after-first k v vs e s.0, bucket-IsSorted k vs s.1)
    | inr d ↦ rw d (bucket-IsSorted k vs s.1)
  ]

  -- The pass sorts by the digit, and leaves ties in the order they had.
  pub buckets-IsSorted :
      (k n : ℕ) (vs : List ℕ) → IsSorted (by low) vs → IsSorted (by high) (buckets shift k n vs)
  unfolding buckets
  buckets-IsSorted k zero vs s = tt
  buckets-IsSorted k (suc n) vs s =
      append-IsSorted (by high) (bucket shift k vs) (buckets shift (k + 1) n vs)
        (bucket-IsSorted k vs s) (buckets-IsSorted (k + 1) n vs s)
        (All-map (λ v. digit shift v ≡ k)
          (λ v. All (λ y. by high y v ≡ false) (buckets shift (k + 1) n vs))
          (λ v e.
            All-map (λ y. k + 1 ≤ digit shift y) (λ y. by high y v ≡ false)
              (λ y h. digits v y (omega arith)) (buckets shift (k + 1) n vs)
              (buckets-digits shift (k + 1) n vs))
          (bucket shift k vs) (bucket-digits shift k vs))
