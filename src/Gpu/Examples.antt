-- ===== src/Gpu/Examples.antt =====
-- Runs of the GPU checks at small inputs, and their theorems at such inputs.
use rapidbench.Prelude.{◌/◌, ◌<◌, ◌≡◌, refl, false, All}
use rapidbench.Gpu.Validation.{
  GpuValidationRequest, k_int32, gpu_written_regions, mark_regions, gpu_output_region, is_rejected,
  required_bytes, words_read,
}
use rapidbench.Gpu.Validation.Reads.{words_read-All}

marks_two : gpu_written_regions 1 2 ≡ 384
unfolding gpu_written_regions mark_regions gpu_output_region
marks_two = refl

abbrev integers : GpuValidationRequest
integers = record {
  test = k_int32;
  fp_accumulators = 8;
  native_fp16 = false;
  written_regions = 384;
  memory_input_bytes = 0;
  memory_element_offset = 0;
}

words_read-All_example : All (λ w. w < 16777216 / 4) (words_read integers)
unfolding is_rejected required_bytes
words_read-All_example = words_read-All 16777216 integers refl
