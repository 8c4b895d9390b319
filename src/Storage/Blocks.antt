-- ===== src/Storage/Blocks.antt =====
-- native/benchmark_core/src/storage_engine.cpp: ChooseFileMiB, DetectDirectAlignment, FillPattern,
-- MakeRandomOffsets, and the regions of RunThreadedTest.
pub mod Offsets
use Prim.Native.Nat.{bit_and, bit_xor}
use rapidbench.Prelude.{
  ℕ, zero, suc, ◌+◌, ◌-◌, ◌*◌, ◌/◌, ◌%◌, ◌^◌, Bool, true, false, not, ◌||◌, leb, ltb, ◌==◌,
  if◌then◌else◌, Option, none, some, List, [], ◌∷◌, ◌++◌, min, max, take,
}

abbrev pub k_mi_b : ℕ
k_mi_b = 1048576

abbrev pub k_sequential_block : ℕ
k_sequential_block = 1048576

abbrev pub k_random_block : ℕ
k_random_block = 4096

abbrev pub k_random_thread_count : ℕ
k_random_thread_count = 4

-- `statvfs`, on the directory: the free blocks and their size, or nothing on an error.
unfoldable pub choose_file_mi_b : Option (ℕ × ℕ) → ℕ → ℕ
choose_file_mi_b info override_mib =
    if not (override_mib == 0) then max 16 (min override_mib 512) else elim info [
      | none ↦ 0
      | some (bavail, frsize) ↦
          let free_bytes = bavail * frsize % 2 ^ 64 in
          if leb (2 * 1024 * k_mi_b) free_bytes
          then 512
          else if leb (1024 * k_mi_b) free_bytes
          then 256
          else if leb (512 * k_mi_b) free_bytes
          then 128
          else 0
    ]

-- `statx`: the alignments of memory and of offsets, or nothing on an error or where it is missing.
unfoldable pub detect_direct_alignment : Option (ℕ × ℕ) → ℕ
detect_direct_alignment info =
    let alignment : ℕ = elim info [
      | none ↦ 4096
      | some (memory, offset) ↦ max 4096 (max memory offset)
    ] in
    if not (bit_and alignment (alignment - 1) == 0) then 0 else alignment

unfoldable pub pattern_next : ℕ → ℕ
pattern_next x =
    let a = bit_xor x (x * 2 ^ 13 % 2 ^ 64) in
    let b = bit_xor a (a / 2 ^ 7) in bit_xor b (b * 2 ^ 17 % 2 ^ 64)

-- The bytes of a word, lowest first.
unfoldable pub bytes_of : ℕ → ℕ → List ℕ
bytes_of zero x = []
bytes_of (suc n) x = x % 256 ∷ bytes_of n (x / 256)

-- The loop over the offsets, on the bytes that are left; every round takes one at least.
unfoldable pub fill_loop : ℕ → ℕ → ℕ → List ℕ
fill_loop zero left x = []
fill_loop (suc fuel) left x =
    let x' = pattern_next x in
    let count = min 8 left in
    let rest = fill_loop fuel (left - count) x' in
    if left == 0 then [] else take count (bytes_of 8 x') ++ rest

unfoldable pub fill_pattern : ℕ → ℕ → List ℕ
fill_pattern size seed = fill_loop size size seed

-- `for (offset = …; offset + kRandomBlock <= end; offset += kRandomBlock)`, on 64-bit words, with fuel.
unfoldable pub offsets_loop : ℕ → ℕ → ℕ → List ℕ
offsets_loop zero offset end = []
offsets_loop (suc fuel) offset end =
    let next = (offset + k_random_block) % 2 ^ 64 in
    let rest = offsets_loop fuel next end in if leb next end then offset ∷ rest else []

abbrev pub block_floor : ℕ → ℕ
block_floor n = n / k_random_block * k_random_block

-- `std::shuffle` with the generator of a seed is the parameter. There is a round for every block and
-- one more for the end.
unfoldable pub make_random_offsets : (ℕ → List ℕ → List ℕ) → ℕ → ℕ → ℕ → ℕ → List ℕ
make_random_offsets shuffle file_size seed begin end =
    let limit = if (end == 0) || ltb file_size end then file_size else end in
    let first = block_floor begin in
    let last = block_floor limit in
    shuffle seed (offsets_loop ((last - first) / k_random_block + 1) first last)

-- The blocks of one worker of RunThreadedTest.
unfoldable pub worker_offsets : (ℕ → List ℕ → List ℕ) → ℕ → ℕ → List ℕ
worker_offsets shuffle file_size worker =
    let region_size = file_size / k_random_thread_count in
    let begin = region_size * worker in
    let end =
      if (worker + 1) == k_random_thread_count then file_size else region_size * (worker + 1) in
    make_random_offsets shuffle file_size ((10723151780598845931 + worker) % 2 ^ 64) begin end
