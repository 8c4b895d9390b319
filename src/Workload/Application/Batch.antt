-- ===== src/Workload/Application/Batch.antt =====
-- Every batch of a workload that the constructor made has the result that the constructor expects.
use rapidbench.Prelude.{
  ℕ, zero, suc, ◌+◌, ◌*◌, ◌^◌, ◌≤◌, ◌≡◌, refl, sym, ap, ◌∙◌, subst, true, some, List, [], ◌-◌, ◌∷◌,
  ◌++◌, arith, length, replicate, drop, length-replicate, ltb,
}
use mathlib.Core.List.{append-nil}
use rapidbench.Prelude.Sort.{sort, length-sort}
use rapidbench.Workload.Json.{JsonRecordSummary, summary_eq, parse_application_json, ◌>>=◌}
use rapidbench.Workload.Json.Generated.{json_corpus-parses}
use rapidbench.Workload.Sobel.{reference_sobel, reference_rows, reference_cells, reference_value}
use rapidbench.Workload.Sobel.Rows.{length-reference_cells}
use rapidbench.Workload.Sobel.Agreement.{application-reference_sobel}
use rapidbench.Workload.Radix.Agreement.{reference_sort-sort}
use rapidbench.Workload.Application.{
  CpuApplicationTest, CpuApplicationWorkload, Sizes, k_sort, k_json, k_sobel, k_other, create,
  run_work, run_batch, validate, validate_output, list_eq, units_of, units_per_batch, copy_into,
  random_seed, image_corpus, random_keys, with_endpoints,
}
use rapidbench.Workload.Application.Inputs.{keys-All, length-image_corpus}

-- What the constructor leaves, and every batch keeps.
abbrev ReadyFor : CpuApplicationTest → CpuApplicationWorkload → Type 0
ReadyFor k_sort w = (w.reference_keys ≡ sort ltb w.keys) × (length w.sorted ≡ length w.keys)
ReadyFor k_json w =
    (old : JsonRecordSummary) → parse_application_json w.json old ≡ (true, w.reference_json)
ReadyFor k_sobel w =
    (w.reference_image ≡ reference_sobel w.image w.side)
    × (3 ≤ w.side)
    × (w.side * w.side ≤ 2 ^ 32)
    × (length w.image ≡ w.side * w.side)
    × (length w.filtered ≡ length w.image)
ReadyFor k_other w = ⊥

-- The state behind a batch.
abbrev finished : CpuApplicationTest → CpuApplicationWorkload → CpuApplicationWorkload
finished k_sort w = record w { sorted = w.reference_keys }
finished k_json w = record w { parse_valid = true; parsed = w.reference_json }
finished k_sobel w = record w { filtered = w.reference_image }
finished k_other w = w

drop-all : (n : ℕ) (xs : List ℕ) → length xs ≤ n → drop n xs ≡ []
drop-all zero [] h = refl
drop-all zero (x ∷ xs) h = absurd (omega arith)
drop-all (suc n) [] h = refl
drop-all (suc n) (x ∷ xs) h = drop-all n xs (omega arith)

copy_into-full :
    (source target : List ℕ) → length target ≡ length source → copy_into source target ≡ source
copy_into-full source target e =
    ap (◌++◌ source) (drop-all (length source) target (omega arith)) ∙ append-nil source

list_eq_self : (xs : List ℕ) → list_eq xs xs ≡ true
unfolding list_eq
list_eq_self [] = refl
list_eq_self (x ∷ xs) = ground (arith, list_eq_self xs)

summary_eq_self : (s : JsonRecordSummary) → summary_eq s s ≡ true
unfolding summary_eq
summary_eq_self s = ground arith

some-injective {ℓ} : {A : Type ℓ} {a b : A} → some a ≡ some b → a ≡ b
some-injective e = cc

run_work-finished :
    (t : CpuApplicationTest) (w : CpuApplicationWorkload)
    → ReadyFor t w
    → run_work t w ≡ some (finished t w)
unfolding run_work
run_work-finished k_sort w (r, l) =
    ap (λ ks. some (record w { sorted = sort ltb ks })) (copy_into-full w.keys w.sorted l)
    ∙ ap (λ ks. some (record w { sorted = ks })) (sym r)
run_work-finished k_json w r =
    ap (λ p. some (record w { parse_valid = p.0; parsed = p.1 })) (r w.parsed)
run_work-finished k_sobel w (r, s, b, l, o) =
    ap (λ p. p >>= λ f. some (record w { filtered = f }))
      (application-reference_sobel w.image w.side w.filtered s b l o ∙ ap some (sym r))
run_work-finished k_other w r = absurd r

-- A batch changes nothing that says which workload it is.
finished-same :
    (t : CpuApplicationTest) (w : CpuApplicationWorkload)
    → ((finished t w).test ≡ w.test) × (units_of t (finished t w) ≡ units_of t w)
unfolding units_of
finished-same k_sort w = (refl, refl)
finished-same k_json w = (refl, refl)
finished-same k_sobel w = (refl, refl)
finished-same k_other w = (refl, refl)

finished-twice :
    (t : CpuApplicationTest) (w : CpuApplicationWorkload) → finished t (finished t w) ≡ finished t w
finished-twice k_sort w = refl
finished-twice k_json w = refl
finished-twice k_sobel w = refl
finished-twice k_other w = refl

length-reference_rows :
    (input : List ℕ) (side left y : ℕ) (out : List ℕ)
    → length (reference_rows input side left y out) ≡ length out
unfolding reference_rows
length-reference_rows input side zero y out = refl
length-reference_rows input side (suc left) y out =
    length-reference_rows input side left (y + 1)
      (reference_cells (side - 2) 1 (y * side) (reference_value input side y) out)
    ∙ length-reference_cells (side - 2) 1 (y * side) (reference_value input side y) out

length-reference_sobel :
    (input : List ℕ) (side : ℕ) → length (reference_sobel input side) ≡ length input
unfolding reference_sobel
length-reference_sobel input side =
    length-reference_rows input side (side - 2) 1 (replicate {A = ℕ} (length input) 0)
    ∙ length-replicate {A = ℕ} (length input) 0

finished-ReadyFor :
    (t : CpuApplicationTest) (w : CpuApplicationWorkload) → ReadyFor t w → ReadyFor t (finished t w)
finished-ReadyFor k_sort w (r, l) = (r, ap length r ∙ length-sort ltb w.keys)
finished-ReadyFor k_json w r = r
finished-ReadyFor k_sobel w (r, s, b, l, o) =
    (r, s, b, l, ap length r ∙ length-reference_sobel w.image w.side)
finished-ReadyFor k_other w r = r

finished-validate :
    (t : CpuApplicationTest) (w : CpuApplicationWorkload)
    → ReadyFor t w
    → validate_output t (finished t w) ≡ true
unfolding validate_output
finished-validate k_sort w r = list_eq_self w.reference_keys
finished-validate k_json w r = summary_eq_self w.reference_json
finished-validate k_sobel w r = list_eq_self w.reference_image
finished-validate k_other w r = absurd r

create-ReadyFor :
    (t : CpuApplicationTest) (sizes : Sizes) (w : CpuApplicationWorkload)
    → 4 ≤ sizes.sort_keys
    → 3 ≤ sizes.image_side
    → sizes.image_side * sizes.image_side ≤ 2 ^ 32
    → sizes.json_rows ≤ 2 ^ 32
    → create t sizes ≡ some w
    → (w.test ≡ t) × ReadyFor t w
unfolding create
create-ReadyFor k_sort sizes w k h b j e =
    let keys = with_endpoints (random_keys sizes.sort_keys random_seed) in
    subst (λ v. (v.test ≡ k_sort) × ReadyFor k_sort v) (some-injective e)
      (
        refl,
        (
          reference_sort-sort keys (keys-All sizes.sort_keys random_seed (omega arith)),
          length-replicate {A = ℕ} (length keys) 0,
        ),
      )
create-ReadyFor k_json sizes w k h b j e =
    subst (λ v. (v.test ≡ k_json) × ReadyFor k_json v) (some-injective e)
      (refl, λ old. json_corpus-parses sizes.json_rows random_seed old j)
create-ReadyFor k_sobel sizes w k h b j e =
    let image = image_corpus sizes.image_side random_seed in
    subst (λ v. (v.test ≡ k_sobel) × ReadyFor k_sobel v) (some-injective e)
      (
        refl,
        (
          refl,
          h,
          b,
          length-image_corpus sizes.image_side random_seed,
          length-replicate {A = ℕ} (length image) 0,
        ),
      )
create-ReadyFor k_other sizes w k h b j e = cc

ready-run_batch :
    (t : CpuApplicationTest) (w : CpuApplicationWorkload)
    → w.test ≡ t
    → ReadyFor t w
    → (run_batch w ≡ some (units_per_batch w, finished t w)) × (validate (finished t w) ≡ true)
unfolding run_batch
ready-run_batch t w e r =
    let (same, units) = finished-same t w in
    (
      ap (λ s. run_work s w >>= λ v. some (units_per_batch v, v)) e
          ∙ ap (λ o. o >>= λ v. some (units_per_batch v, v)) (run_work-finished t w r)
          ∙ ap (λ u. some (u, finished t w))
              (ap (λ s. units_of s (finished t w)) (same ∙ e)
                ∙ units
                ∙ ap (λ s. units_of s w) (sym e)),
      ap (λ s. validate_output s (finished t w)) (same ∙ e) ∙ finished-validate t w r,
    )

-- For every workload that the constructor makes, of at least four keys, of at least three pixels a
-- side and at most 2^32 in all, and of at most 2^32 rows of JSON: a batch returns without an exception, counts UnitsPerBatch units and leaves a
-- state that Validate accepts, and a further batch returns the same count and leaves that state as
-- it is.
pub create-run_batch :
    (t : CpuApplicationTest) (sizes : Sizes) (w : CpuApplicationWorkload)
    → 4 ≤ sizes.sort_keys
    → 3 ≤ sizes.image_side
    → sizes.image_side * sizes.image_side ≤ 2 ^ 32
    → sizes.json_rows ≤ 2 ^ 32
    → create t sizes ≡ some w
    → (v : CpuApplicationWorkload) × (run_batch w ≡ some (units_per_batch w, v))
      × (validate v ≡ true)
      × (run_batch v ≡ some (units_per_batch w, v))
create-run_batch t sizes w k h b j e =
    let (test, ready) = create-ReadyFor t sizes w k h b j e in
    let (ran, valid) = ready-run_batch t w test ready in
    let (same, units) = finished-same t w in
    let again = ready-run_batch t (finished t w) (same ∙ test) (finished-ReadyFor t w ready) in
    let counted : units_per_batch (finished t w) ≡ units_per_batch w =
      ap (λ s. units_of s (finished t w)) (same ∙ test)
      ∙ units
      ∙ ap (λ s. units_of s w) (sym test) in
    (
      finished t w,
      ran,
      valid,
      again.0
          ∙ ap (λ u. some (u, finished t (finished t w))) counted
          ∙ ap (λ v. some (units_per_batch w, v)) (finished-twice t w),
    )
