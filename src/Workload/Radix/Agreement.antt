-- ===== src/Workload/Radix/Agreement.antt =====
-- ReferenceSort sorts: the four passes leave the values in the order that std::sort leaves.
use mathlib.Core.Path.{ap₂}
use rapidbench.Prelude.{
  ℕ, count, ◌%◌, ◌<◌, ◌≡◌, refl, sym, ap, ◌∙◌, false, List, [], ◌∷◌, arith, ltb, All, length,
  replicate, length-replicate,
}
use rapidbench.Prelude.Sort.{IsSorted, sort, insert, sort-IsSorted, ltb-StrictWeak}
use rapidbench.Workload.Words.{u32_mod}
use rapidbench.Workload.Radix.{radix_pass, reference_sort}
use rapidbench.Workload.Radix.Pass.{buckets, length-buckets, radix_pass-lem}
use rapidbench.Workload.Radix.Order.{count-pass, buckets-All}
use rapidbench.Workload.Radix.Stable.{by, buckets-IsSorted}

count-lower :
    (x : ℕ) (ys : List ℕ) → All (λ y. ltb y x ≡ false) ys → (z : ℕ) → z < x → count z ys ≡ 0
count-lower x [] h z l = refl
count-lower x (y ∷ ys) h z l = ground (arith, count-lower x ys h.1 z l)

-- Two lists in order that hold the same values as often are the same list.
IsSorted-unique :
    (xs ys : List ℕ)
    → IsSorted ltb xs
    → IsSorted ltb ys
    → ((x : ℕ) → count x xs ≡ count x ys)
    → xs ≡ ys
IsSorted-unique [] [] s t e = refl
IsSorted-unique [] (y ∷ ys) s t e = absurd (ground (arith, e y))
IsSorted-unique (x ∷ xs) [] s t e = absurd (ground (arith, e x))
IsSorted-unique (x ∷ xs) (y ∷ ys) s t e =
    let below = count-lower x xs s.0 y in
    let above = count-lower y ys t.0 x in
    let head : x ≡ y = ground (arith, e x, e y, below, above) in
    ap₂ ◌∷◌ head (IsSorted-unique xs ys s.1 t.1 (λ z. ground (arith, e z, head)))

count-insert : (z x : ℕ) (xs : List ℕ) → count z (insert ltb x xs) ≡ count z (x ∷ xs)
unfolding insert
count-insert z x [] = refl
count-insert z x (y ∷ ys) = ground (arith, count-insert z x ys)

count-sort : (z : ℕ) (xs : List ℕ) → count z (sort ltb xs) ≡ count z xs
unfolding sort
count-sort z [] = refl
count-sort z (x ∷ xs) = ground (arith, count-insert z x (sort ltb xs), count-sort z xs)

unsorted : (xs : List ℕ) → IsSorted (by (λ x. 0)) xs
unsorted [] = tt
unsorted (x ∷ xs) = (anything xs, unsorted xs)
  where
    anything : (ys : List ℕ) → All (λ y. by (λ z. 0) y x ≡ false) ys
    anything [] = tt
    anything (y ∷ ys) = (refl, anything ys)

full-IsSorted :
    (xs : List ℕ)
    → All (λ x. x < u32_mod) xs
    → IsSorted (by (λ x. x % 4294967296)) xs
    → IsSorted ltb xs
full-IsSorted [] b s = tt
full-IsSorted (x ∷ xs) b s = (after xs b.1 s.0, full-IsSorted xs b.1 s.1)
  where
    after :
        (ys : List ℕ)
        → All (λ y. y < u32_mod) ys
        → All (λ y. by (λ z. z % 4294967296) y x ≡ false) ys
        → All (λ y. ltb y x ≡ false) ys
    after [] c h = tt
    after (y ∷ ys) c h = (ground arith, after ys c.1 h.1)

four_passes : List ℕ → List ℕ
four_passes vs = buckets 24 0 256 (buckets 16 0 256 (buckets 8 0 256 (buckets 0 0 256 vs)))

four_passes-IsSorted : (vs : List ℕ) → IsSorted (by (λ x. x % 4294967296)) (four_passes vs)
unfolding four_passes
four_passes-IsSorted vs =
    let p0 = buckets 0 0 256 vs in
    let p1 = buckets 8 0 256 p0 in
    let p2 = buckets 16 0 256 p1 in
    let s0 =
      buckets-IsSorted 0 (λ x. 0) (λ x. x % 256) (λ a b e h. ground arith) (λ a b h. ground arith) 0
        256 vs (unsorted vs) in
    let s1 =
      buckets-IsSorted 8 (λ x. x % 256) (λ x. x % 65536) (λ a b e h. ground arith)
        (λ a b h. ground arith) 0 256 p0 s0 in
    let s2 =
      buckets-IsSorted 16 (λ x. x % 65536) (λ x. x % 16777216) (λ a b e h. ground arith)
        (λ a b h. ground arith) 0 256 p1 s1 in
    buckets-IsSorted 24 (λ x. x % 16777216) (λ x. x % 4294967296) (λ a b e h. ground arith)
      (λ a b h. ground arith) 0 256 p2 s2

four_passes-All :
    (vs : List ℕ) → All (λ x. x < u32_mod) vs → All (λ x. x < u32_mod) (four_passes vs)
unfolding four_passes
four_passes-All vs h =
    let P : ℕ → Type 0 = λ x. x < u32_mod in
    let p0 = buckets 0 0 256 vs in
    let p1 = buckets 8 0 256 p0 in
    let p2 = buckets 16 0 256 p1 in
    buckets-All 24 P 0 256 p2
      (buckets-All 16 P 0 256 p1 (buckets-All 8 P 0 256 p0 (buckets-All 0 P 0 256 vs h)))

count-four_passes : (x : ℕ) (vs : List ℕ) → count x (four_passes vs) ≡ count x vs
unfolding four_passes
count-four_passes x vs =
    let p0 = buckets 0 0 256 vs in
    let p1 = buckets 8 0 256 p0 in
    let p2 = buckets 16 0 256 p1 in
    count-pass 24 x p2 ∙ count-pass 16 x p1 ∙ count-pass 8 x p0 ∙ count-pass 0 x vs

reference_sort-four_passes : (vs : List ℕ) → reference_sort vs ≡ four_passes vs
unfolding reference_sort four_passes
reference_sort-four_passes vs =
    let p0 = buckets 0 0 256 vs in
    let p1 = buckets 8 0 256 p0 in
    let p2 = buckets 16 0 256 p1 in
    let l0 = length-buckets 0 vs in
    let l1 = length-buckets 8 p0 in
    let l2 = length-buckets 16 p1 in
    let e0 =
      radix_pass-lem 0 vs (replicate (length vs) 0) (length-replicate {A = ℕ} (length vs) 0) in
    let e1 = ap (radix_pass 8) e0 ∙ radix_pass-lem 8 p0 vs (sym l0) in
    let e2 = ap (radix_pass 16) e1 ∙ radix_pass-lem 16 p1 p0 (sym l1) in
    let e3 = ap (radix_pass 24) e2 ∙ radix_pass-lem 24 p2 p1 (sym l2) in ap (λ p. p.0) e3

-- For any list of 32-bit words, the list that the radix sort ReferenceSort returns is that which a
-- sort by `<` returns: its four passes over the digits, with their counts, their positions and
-- their reused scratch vector, put every word into its place.
pub reference_sort-sort :
    (vs : List ℕ) → All (λ x. x < u32_mod) vs → reference_sort vs ≡ sort ltb vs
reference_sort-sort vs h =
    reference_sort-four_passes vs
    ∙ IsSorted-unique (four_passes vs) (sort ltb vs)
        (full-IsSorted (four_passes vs) (four_passes-All vs h) (four_passes-IsSorted vs))
        (sort-IsSorted ltb ltb-StrictWeak vs) (λ x. count-four_passes x vs ∙ sym (count-sort x vs))
