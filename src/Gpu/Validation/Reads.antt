-- ===== src/Gpu/Validation/Reads.antt =====
-- No read of ValidateGpuOutput is out of bounds.
use rapidbench.Prelude.{
  ℕ, zero, suc, ◌+◌, ◌*◌, ◌/◌, ◌%◌, ◌^◌, ◌≤◌, ◌<◌, ◌≡◌, sym, ap, subst, true, false, not, ◌&&◌,
  if◌then◌else◌, if_intro, List, [], ◌∷◌, All, All-append, arith, Bool-cases, inl, inr,
}
use rapidbench.Prelude.Bits.{has_bit}
use rapidbench.Gpu.Validation.{
  GpuValidationRequest, is_memory, required_bytes, is_bad_memory, is_rejected, invocations_of,
  lanes_of, lane_words, sample_words, region_words, words_read, gpu_sample_indices,
  gpu_region_bytes, gpu_compute_invocations, gpu_output_regions,
}

-- The samples are invocations, also where the product in the seventh wraps around.
pub gpu_sample_indices-All : (n : ℕ) → 0 < n → n < 2 ^ 32 → All (λ s. s < n) (gpu_sample_indices n)
unfolding gpu_sample_indices
gpu_sample_indices-All n h k = ground arith

lane_words-All :
    (limit base lane left : ℕ)
    → base + lane + left ≤ limit
    → All (λ w. w < limit) (lane_words base lane left)
unfolding lane_words
lane_words-All limit base lane zero h = tt
lane_words-All limit base lane (suc left) h =
    (omega arith, lane_words-All limit base (lane + 1) left (omega arith))

-- A sample's words lie below those of the invocation behind it.
sample_words-All :
    (r : GpuValidationRequest) (limit region lanes n : ℕ) (samples : List ℕ)
    → lanes_of r ≡ lanes
    → ((s : ℕ) → s < n → region * gpu_region_bytes / 4 + s * lanes + lanes ≤ limit)
    → All (λ s. s < n) samples
    → All (λ w. w < limit) (sample_words r region samples)
unfolding sample_words
sample_words-All r limit region lanes n [] e h a = tt
sample_words-All r limit region lanes n (s ∷ ss) e h a = rw e (
    All-append (λ w. w < limit) (lane_words (region * gpu_region_bytes / 4 + s * lanes) 0 lanes)
      (sample_words r region ss)
      (lane_words-All limit (region * gpu_region_bytes / 4 + s * lanes) 0 lanes
        (omega (arith, h s a.0)))
      (sample_words-All r limit region lanes n ss e h a.1))

region_words-All :
    (r : GpuValidationRequest) (limit n lanes region left : ℕ)
    → lanes_of r ≡ lanes
    → ((k s : ℕ) → k < region + left → s < n → k * gpu_region_bytes / 4 + s * lanes + lanes ≤ limit)
    → All (λ s. s < n) (gpu_sample_indices (invocations_of r))
    → All (λ w. w < limit) (region_words r region left)
unfolding region_words
region_words-All r limit n lanes region zero e h a = tt
region_words-All r limit n lanes region (suc left) e h a =
    let rest =
      region_words-All r limit n lanes (region + 1) left e (λ k s b. h k s (omega arith)) a in
    if_intro (All (λ w. w < limit))
      (not (is_memory r.test) && not (has_bit r.written_regions region)) _ _ (λ skipped. rest)
      (λ read.
        All-append (λ w. w < limit) (sample_words r region (gpu_sample_indices (invocations_of r)))
          (region_words r (region + 1) left)
          (sample_words-All r limit region lanes n (gpu_sample_indices (invocations_of r)) e
            (λ s. h region s (omega arith)) a)
          rest)

memory_words-All :
    (bytes : ℕ) (r : GpuValidationRequest)
    → is_memory r.test ≡ true
    → is_rejected bytes r ≡ false
    → All (λ w. w < bytes / 4) (words_read r)
unfolding words_read is_rejected is_bad_memory required_bytes invocations_of
memory_words-All bytes r m ok =
    let n = invocations_of r in
    let counted : n ≡ r.memory_input_bytes / 256 % 2 ^ 32 =
      ap (λ b. if b then r.memory_input_bytes / 256 % 2 ^ 32 else gpu_compute_invocations) m in
    let lanes : lanes_of r ≡ 1 = ap (λ b. if b then 1 else 4) m in
    let fits : r.memory_input_bytes / 64 ≤ bytes = ground arith in
    let some_input : 0 < r.memory_input_bytes / 64 = ground arith in
    let aligned : r.memory_input_bytes % 16384 ≡ 0 = ground arith in
    let small : r.memory_input_bytes / 16 < 2 ^ 32 = ground arith in
    let path : 1 ≡ (if is_memory r.test then 1 else gpu_output_regions) =
      ap (λ b. if b then 1 else gpu_output_regions) (sym m) in
    subst (λ left. All (λ w. w < bytes / 4) (region_words r 0 left)) path
      (region_words-All r (bytes / 4) n 1 0 1 lanes (λ k s b c. omega arith)
        (gpu_sample_indices-All n (omega arith) (omega arith)))

compute_words-All :
    (bytes : ℕ) (r : GpuValidationRequest)
    → is_memory r.test ≡ false
    → is_rejected bytes r ≡ false
    → All (λ w. w < bytes / 4) (words_read r)
unfolding words_read is_rejected required_bytes invocations_of
compute_words-All bytes r m ok =
    let n = invocations_of r in
    let counted : n ≡ gpu_compute_invocations =
      ap (λ b. if b then r.memory_input_bytes / 256 % 2 ^ 32 else gpu_compute_invocations) m in
    let lanes : lanes_of r ≡ 4 = ap (λ b. if b then 1 else 4) m in
    let fits : gpu_region_bytes * gpu_output_regions ≤ bytes = ground arith in
    let path : gpu_output_regions ≡ (if is_memory r.test then 1 else gpu_output_regions) =
      ap (λ b. if b then 1 else gpu_output_regions) (sym m) in
    subst (λ left. All (λ w. w < bytes / 4) (region_words r 0 left)) path
      (region_words-All r (bytes / 4) n 4 0 gpu_output_regions lanes (λ k s b c. omega arith)
        (gpu_sample_indices-All n (omega arith) (omega arith)))

-- Whatever request ValidateGpuOutput does not turn down, every word that it reads lies inside the
-- buffer of the given size.
pub words_read-All :
    (bytes : ℕ) (r : GpuValidationRequest)
    → is_rejected bytes r ≡ false
    → All (λ w. w < bytes / 4) (words_read r)
words_read-All bytes r ok = elim (Bool-cases (is_memory r.test)) [
  | inl m ↦ memory_words-All bytes r m ok
  | inr m ↦ compute_words-All bytes r m ok
]
