-- ===== src/Gpu/Validation.antt =====
-- native/benchmark_core/src/gpu_validation.cpp: which regions and which samples of the output are
-- checked. The comparison of one value, which is floating-point arithmetic, is not modelled.
pub mod Reads
use Prim.Native.Nat.{bit_and}
use rapidbench.Prelude.{
  ℕ, zero, suc, ◌+◌, ◌-◌, ◌*◌, ◌/◌, ◌%◌, ◌^◌, Bool, true, false, not, ◌||◌, ◌&&◌, leb, ltb, ◌==◌,
  if◌then◌else◌, List, [], ◌∷◌, ◌++◌, map, min,
}
use rapidbench.Prelude.Bits.{has_bit, set_bit}

abbrev pub gpu_compute_invocations : ℕ
gpu_compute_invocations = 65536

abbrev pub gpu_output_regions : ℕ
gpu_output_regions = 16

abbrev pub gpu_region_bytes : ℕ
gpu_region_bytes = gpu_compute_invocations * 16

unfoldable pub gpu_output_region : ℕ → ℕ → ℕ
gpu_output_region ring repetition = (ring * 7 % 2 ^ 32 + repetition) % 2 ^ 32 % gpu_output_regions

-- `for (index = …; …; ++index) mask |= 1U << GpuOutputRegion(ring, index)`.
unfoldable pub mark_regions : ℕ → ℕ → ℕ → ℕ → ℕ
mark_regions ring zero index mask = mask
mark_regions ring (suc left) index mask =
    mark_regions ring left (index + 1) (set_bit mask (gpu_output_region ring index))

unfoldable pub gpu_written_regions : ℕ → ℕ → ℕ
gpu_written_regions ring repetitions = mark_regions ring (min repetitions gpu_output_regions) 0 0

unfoldable pub gpu_sample_indices : ℕ → List ℕ
gpu_sample_indices invocations =
    let last = if invocations == 0 then 0 else invocations - 1 in
    0
    ∷ min 1 last
    ∷ min 63 last
    ∷ min 64 last
    ∷ invocations / 4
    ∷ invocations / 2
    ∷ invocations * 3 % 2 ^ 32 / 4
    ∷ last
    ∷ []

pub data GpuTest : Type 0 where
  k_none : GpuTest
  k_fp32 : GpuTest
  k_fp16 : GpuTest
  k_int32 : GpuTest
  k_mixed : GpuTest
  k_memory_bandwidth : GpuTest
  k_all : GpuTest

abbrev pub is_memory : GpuTest → Bool
is_memory k_none = false
is_memory k_fp32 = false
is_memory k_fp16 = false
is_memory k_int32 = false
is_memory k_mixed = false
is_memory k_memory_bandwidth = true
is_memory k_all = false

abbrev pub is_fp : GpuTest → Bool
is_fp k_none = false
is_fp k_fp32 = true
is_fp k_fp16 = true
is_fp k_int32 = false
is_fp k_mixed = false
is_fp k_memory_bandwidth = false
is_fp k_all = false

abbrev pub is_integer_or_mixed : GpuTest → Bool
is_integer_or_mixed k_none = false
is_integer_or_mixed k_fp32 = false
is_integer_or_mixed k_fp16 = false
is_integer_or_mixed k_int32 = true
is_integer_or_mixed k_mixed = true
is_integer_or_mixed k_memory_bandwidth = false
is_integer_or_mixed k_all = false

pub record GpuValidationRequest : Type 0 where
  pub test : GpuTest
  pub fp_accumulators : ℕ
  pub native_fp16 : Bool
  pub written_regions : ℕ
  pub memory_input_bytes : ℕ
  pub memory_element_offset : ℕ

unfoldable pub required_bytes : GpuValidationRequest → ℕ
required_bytes r =
    if is_memory r.test then r.memory_input_bytes / 64 else gpu_region_bytes * gpu_output_regions

-- The conditions of a memory test.
unfoldable pub is_bad_memory : GpuValidationRequest → Bool
is_bad_memory r =
    not ((r.memory_input_bytes % (256 * 64)) == 0)
    || ltb (2 ^ 32 - 1) (r.memory_input_bytes / 16)
    || leb (r.memory_input_bytes / 16) r.memory_element_offset
    || not ((r.memory_element_offset % 16) == 0)

-- The conditions of the first `if`, the pointer being valid: the request is turned down.
unfoldable pub is_rejected : ℕ → GpuValidationRequest → Bool
is_rejected bytes r =
    let memory = is_memory r.test in
    ltb bytes (required_bytes r)
    || (required_bytes r == 0)
    || (not (is_fp r.test) && not memory && not (is_integer_or_mixed r.test))
    || (is_fp r.test
        && not (r.fp_accumulators == 8)
        && not (r.fp_accumulators == 12)
        && not (r.fp_accumulators == 16))
    || (not memory && ((r.written_regions == 0) || leb (2 ^ 16) r.written_regions))
    || (memory && is_bad_memory r)

unfoldable pub invocations_of : GpuValidationRequest → ℕ
invocations_of r =
    if is_memory r.test then r.memory_input_bytes / 256 % 2 ^ 32 else gpu_compute_invocations

abbrev pub lanes_of : GpuValidationRequest → ℕ
lanes_of r = if is_memory r.test then 1 else 4

-- The loop over the lanes, with those that are left: the words that are read.
unfoldable pub lane_words : ℕ → ℕ → ℕ → List ℕ
lane_words base lane zero = []
lane_words base lane (suc left) = (base + lane) ∷ lane_words base (lane + 1) left

-- The loop over the samples.
unfoldable pub sample_words : GpuValidationRequest → ℕ → List ℕ → List ℕ
sample_words r region [] = []
sample_words r region (sample ∷ samples) =
    lane_words (region * gpu_region_bytes / 4 + sample * lanes_of r) 0 (lanes_of r)
    ++ sample_words r region samples

-- The loop over the regions, with those that are left.
unfoldable pub region_words : GpuValidationRequest → ℕ → ℕ → List ℕ
region_words r region zero = []
region_words r region (suc left) =
    let rest = region_words r (region + 1) left in
    if not (is_memory r.test) && not (has_bit r.written_regions region)
    then rest
    else sample_words r region (gpu_sample_indices (invocations_of r)) ++ rest

-- Every word that ValidateGpuOutput reads when no comparison fails; one that fails ends the loops.
unfoldable pub words_read : GpuValidationRequest → List ℕ
words_read r = region_words r 0 (if is_memory r.test then 1 else gpu_output_regions)
