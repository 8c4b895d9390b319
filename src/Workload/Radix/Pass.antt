-- ===== src/Workload/Radix/Pass.antt =====
-- One pass of ReferenceSort puts the values into the scratch vector bucket by bucket.
use mathlib.Core.Path.{ap₂}
use rapidbench.Prelude.{
  ℕ, zero, suc, ◌+◌, ◌≤◌, ◌≡◌, refl, sym, ap, ◌∙◌, List, [], ◌∷◌, ◌++◌, arith, length,
  length-append, take, drop, take-append-drop, length-take, length-drop,
}
use rapidbench.Workload.Radix.{accumulate, radix_pass, scatter}
use rapidbench.Workload.Radix.Tally.{bucket, tally, sum, count_digits-lem, sum-tally}
use rapidbench.Workload.Radix.Segments.{Segment, flat, starts, fill, Fits, scatter-fill}

-- A vector cut into empty segments of the given sizes.
abbrev carve : List ℕ → List ℕ → List Segment
carve [] scratch = []
carve (c ∷ cs) scratch = record { written = []; room = take c scratch } ∷ carve cs (drop c scratch)

flat-carve : (cs scratch : List ℕ) → sum cs ≡ length scratch → flat (carve cs scratch) ≡ scratch
flat-carve [] [] e = refl
flat-carve [] (x ∷ xs) e = absurd (omega arith)
flat-carve (c ∷ cs) scratch e =
    ap (◌++◌ (take c scratch))
      (flat-carve cs (drop c scratch) (omega (arith, length-drop c scratch)))
    ∙ take-append-drop c scratch

starts-carve :
    (o : ℕ) (cs scratch : List ℕ)
    → sum cs ≤ length scratch
    → starts o (carve cs scratch) ≡ accumulate o cs
unfolding accumulate
starts-carve o [] scratch h = refl
starts-carve o (c ∷ cs) scratch h =
    let here : o + 0 ≡ o = omega arith in
    let next : o + 0 + length (take c scratch) ≡ o + c = omega (arith, length-take c scratch) in
    ap₂ ◌∷◌ here (
      ap (λ k. starts k (carve cs (drop c scratch))) next
      ∙ starts-carve (o + c) cs (drop c scratch) (omega (arith, length-drop c scratch)))

length-carve : (cs scratch : List ℕ) → length (carve cs scratch) ≡ length cs
length-carve [] scratch = refl
length-carve (c ∷ cs) scratch = ap suc (length-carve cs (drop c scratch))

drop-take : (n : ℕ) (xs : List ℕ) → drop n (take n xs) ≡ []
drop-take zero xs = refl
drop-take (suc n) [] = refl
drop-take (suc n) (x ∷ xs) = drop-take n xs

module _ (shift : ℕ) where
  -- The values of n digits, from k on, digit by digit.
  unfoldable pub buckets : ℕ → ℕ → List ℕ → List ℕ
  buckets k zero vs = []
  buckets k (suc n) vs = bucket shift k vs ++ buckets (k + 1) n vs

  length-buckets-sum : (k n : ℕ) (vs : List ℕ) → length (buckets k n vs) ≡ sum (tally shift k n vs)
  unfolding buckets tally
  length-buckets-sum k zero vs = refl
  length-buckets-sum k (suc n) vs = omega (
    arith,
    length-append (bucket shift k vs) (buckets (k + 1) n vs),
    length-buckets-sum (k + 1) n vs,
  )

  pub length-buckets : (vs : List ℕ) → length (buckets 0 256 vs) ≡ length vs
  length-buckets vs = length-buckets-sum 0 256 vs ∙ sum-tally shift vs

  length-tally : (k n : ℕ) (vs : List ℕ) → length (tally shift k n vs) ≡ n
  unfolding tally
  length-tally k zero vs = refl
  length-tally k (suc n) vs = ap suc (length-tally (k + 1) n vs)

  Fits-carve :
      (k n : ℕ) (vs scratch : List ℕ)
      → sum (tally shift k n vs) ≤ length scratch
      → Fits shift k vs (carve (tally shift k n vs) scratch)
  unfolding tally
  Fits-carve k zero vs scratch h = tt
  Fits-carve k (suc n) vs scratch h =
      let size = length (bucket shift k vs) in
      (
        omega (arith, length-take size scratch),
        Fits-carve (k + 1) n vs (drop size scratch) (omega (arith, length-drop size scratch)),
      )

  flat-fill :
      (k n : ℕ) (vs scratch : List ℕ)
      → flat (fill shift k vs (carve (tally shift k n vs) scratch)) ≡ buckets k n vs
  unfolding tally buckets
  flat-fill k zero vs scratch = refl
  flat-fill k (suc n) vs scratch =
      let size = length (bucket shift k vs) in
      ap (◌++◌ (bucket shift k vs))
        (ap₂ ◌++◌ (drop-take size scratch) (flat-fill (k + 1) n vs (drop size scratch)))

  -- A pass sorts the values into their buckets, whatever the scratch vector held.
  pub radix_pass-lem :
      (vs scratch : List ℕ)
      → length scratch ≡ length vs
      → radix_pass shift (vs, scratch) ≡ (buckets 0 256 vs, vs)
  unfolding radix_pass
  radix_pass-lem vs scratch e =
      let counts = tally shift 0 256 vs in
      let segments = carve counts scratch in
      let total : sum counts ≡ length scratch = omega (arith, sum-tally shift vs) in
      let positions =
        ap (accumulate 0) (count_digits-lem shift vs)
        ∙ sym (starts-carve 0 counts scratch (omega arith)) in
      ap (λ l. (l, vs))
        (ap₂ (scatter shift vs) positions (sym (flat-carve counts scratch total))
          ∙ scatter-fill shift vs segments (Fits-carve 0 256 vs scratch (omega arith))
              (length-carve counts scratch ∙ length-tally 0 256 vs)
          ∙ flat-fill 0 256 vs scratch)
