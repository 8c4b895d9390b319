-- ===== src/Workload/Radix.antt =====
-- native/benchmark_core/src/cpu_application_workload.cpp: ReferenceSort, the radix sort in four
-- passes of eight bits that std::sort is checked against.
pub mod Tally
pub mod Segments
pub mod Pass
pub mod Order
pub mod Stable
pub mod Agreement
use rapidbench.Prelude.{ℕ, ◌+◌, ◌/◌, ◌%◌, ◌^◌, List, [], ◌∷◌, length, get_or, set, replicate}

-- `(value >> shift) & 255U`.
abbrev pub digit : ℕ → ℕ → ℕ
digit shift value = value / 2 ^ shift % 256

-- `++positions[digit]` for every value.
unfoldable pub count_digits : ℕ → List ℕ → List ℕ → List ℕ
count_digits shift [] positions = positions
count_digits shift (v ∷ vs) positions =
    let d = digit shift v in count_digits shift vs (set positions d (get_or positions d 0 + 1))

-- Each count becomes the sum of those before it.
unfoldable pub accumulate : ℕ → List ℕ → List ℕ
accumulate offset [] = []
accumulate offset (count ∷ counts) = offset ∷ accumulate (offset + count) counts

-- `scratch[positions[digit]++] = value` for every value.
unfoldable pub scatter : ℕ → List ℕ → List ℕ → List ℕ → List ℕ
scatter shift [] positions scratch = scratch
scatter shift (v ∷ vs) positions scratch =
    let d = digit shift v in
    let p = get_or positions d 0 in scatter shift vs (set positions d (p + 1)) (set scratch p v)

-- A pass gives the two vectors, swapped.
unfoldable pub radix_pass : ℕ → List ℕ × List ℕ → List ℕ × List ℕ
radix_pass shift (values, scratch) =
    let positions = accumulate 0 (count_digits shift values (replicate 256 0)) in
    (scatter shift values positions scratch, values)

unfoldable pub reference_sort : List ℕ → List ℕ
reference_sort values =
    let start : List ℕ × List ℕ = (values, replicate (length values) 0) in
    (radix_pass 24 (radix_pass 16 (radix_pass 8 (radix_pass 0 start)))).0
