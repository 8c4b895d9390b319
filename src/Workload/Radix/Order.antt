-- ===== src/Workload/Radix/Order.antt =====
-- What a pass of ReferenceSort keeps of the order and of the values.
use rapidbench.Prelude.{
  ℕ, zero, suc, ◌+◌, ◌≤◌, ◌≡◌, ap, List, [], ◌∷◌, arith, ltb, leb, ◌==◌, ◌&&◌, if◌then◌else◌, All,
  count, count-append, All-map, All-append, Bool-cases, inl, inr,
}
use rapidbench.Workload.Radix.{digit}
use rapidbench.Workload.Radix.Tally.{bucket}
use rapidbench.Workload.Radix.Pass.{buckets}

module _ (shift : ℕ) where
  count-bucket :
      (x k : ℕ) (vs : List ℕ)
      → count x (bucket shift k vs) ≡ (if digit shift x == k then count x vs else 0)
  count-bucket x k [] = ground arith
  count-bucket x k (v ∷ vs) = elim (Bool-cases (v == x)) [
    | inl e ↦
        let same : v ≡ x = ground arith in
        ground (arith, count-bucket x k vs, ap (digit shift) same)
    | inr e ↦ ground (arith, count-bucket x k vs)
  ]

  count-buckets :
      (x k n : ℕ) (vs : List ℕ)
      → count x (buckets shift k n vs)
        ≡ (if leb k (digit shift x) && ltb (digit shift x) (k + n) then count x vs else 0)
  unfolding buckets
  count-buckets x k zero vs = ground arith
  count-buckets x k (suc n) vs = ground (
    arith,
    count-append x (bucket shift k vs) (buckets shift (k + 1) n vs),
    count-bucket x k vs,
    count-buckets x (k + 1) n vs,
  )

  -- A pass neither loses a value nor makes one.
  pub count-pass : (x : ℕ) (vs : List ℕ) → count x (buckets shift 0 256 vs) ≡ count x vs
  count-pass x vs = ground (arith, count-buckets x 0 256 vs)

  pub bucket-All {κ} : (P : ℕ → Type κ) (k : ℕ) (vs : List ℕ) → All P vs → All P (bucket shift k vs)
  bucket-All P k [] h = tt
  bucket-All P k (v ∷ vs) h = elim (Bool-cases (digit shift v == k)) [
    | inl e ↦ rw e (h.0, bucket-All P k vs h.1)
    | inr e ↦ rw e (bucket-All P k vs h.1)
  ]

  pub buckets-All {κ} :
      (P : ℕ → Type κ) (k n : ℕ) (vs : List ℕ) → All P vs → All P (buckets shift k n vs)
  unfolding buckets
  buckets-All P k zero vs h = tt
  buckets-All P k (suc n) vs h =
      All-append P (bucket shift k vs) (buckets shift (k + 1) n vs) (bucket-All P k vs h)
        (buckets-All P (k + 1) n vs h)

  pub bucket-digits : (k : ℕ) (vs : List ℕ) → All (λ v. digit shift v ≡ k) (bucket shift k vs)
  bucket-digits k [] = tt
  bucket-digits k (v ∷ vs) = elim (Bool-cases (digit shift v == k)) [
    | inl e ↦ rw e (ground arith, bucket-digits k vs)
    | inr e ↦ rw e (bucket-digits k vs)
  ]

  pub buckets-digits : (k n : ℕ) (vs : List ℕ) → All (λ v. k ≤ digit shift v) (buckets shift k n vs)
  unfolding buckets
  buckets-digits k zero vs = tt
  buckets-digits k (suc n) vs =
      All-append (λ v. k ≤ digit shift v) (bucket shift k vs) (buckets shift (k + 1) n vs)
        (All-map (λ v. digit shift v ≡ k) (λ v. k ≤ digit shift v) (λ v e. omega arith)
          (bucket shift k vs) (bucket-digits k vs))
        (All-map (λ v. k + 1 ≤ digit shift v) (λ v. k ≤ digit shift v) (λ v e. omega arith)
          (buckets shift (k + 1) n vs) (buckets-digits (k + 1) n vs))
