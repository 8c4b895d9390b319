-- ===== src/Memory/Buffer.antt =====
-- native/benchmark_core/src/memory_engine.cpp: the size of the buffer, its allocation, and the regions
-- of it that the workers get.
pub mod Regions
pub mod Refused
use rapidbench.Prelude.{
  ℕ, zero, suc, ◌+◌, ◌-◌, ◌*◌, ◌/◌, ◌%◌, ◌^◌, Bool, true, false, List, [], ◌∷◌, leb, ltb, min, max,
  if◌then◌else◌,
}
use rapidbench.Memory.Types.{MemoryTest, is_copy}

abbrev pub target_buffer_bytes : ℕ
target_buffer_bytes = 268435456

abbrev pub minimum_buffer_bytes : ℕ
minimum_buffer_bytes = 33554432

abbrev pub alignment_bytes : ℕ
alignment_bytes = 128

unfoldable pub round_down : ℕ → ℕ → ℕ
round_down value alignment = value - value % alignment

-- `available` is what /proc/meminfo says, 0 if it says nothing.
unfoldable pub target_bytes : ℕ → ℕ
target_bytes available =
    max (if ltb 0 available then min target_buffer_bytes (available / 8) else target_buffer_bytes)
      minimum_buffer_bytes

unfoldable pub granularity : ℕ → ℕ
granularity thread_count = max alignment_bytes (thread_count * alignment_bytes * 2)

unfoldable pub choose_buffer_bytes : ℕ → ℕ → ℕ
choose_buffer_bytes available thread_count =
    round_down (target_bytes available) (granularity thread_count)

-- The sizes that were asked for, first to last, and the one that was granted.
pub data Allocation : Type 0 where
  allocated : List ℕ → ℕ → Allocation
  refused : List ℕ → Allocation
  unfinished : Allocation

abbrev pub after_refusal : ℕ → Allocation → Allocation
after_refusal size (allocated asked got) = allocated (size ∷ asked) got
after_refusal size (refused asked) = refused (size ∷ asked)
after_refusal size unfinished = unfinished

-- The loop of AllocateBuffer, on fuel; `grants` says which sizes the system allocates.
unfoldable pub allocate_loop : ℕ → (ℕ → Bool) → ℕ → Allocation
allocate_loop zero grants requested = unfinished
allocate_loop (suc fuel) grants requested =
    let size = round_down requested alignment_bytes in
    let later = allocate_loop fuel grants (size / 2) in
    if leb minimum_buffer_bytes requested
    then (if grants size then allocated (size ∷ []) size else after_refusal size later)
    else refused []

-- A size of the buffer of at most 64 bits is halved that often at most.
unfoldable pub allocate_buffer : (ℕ → Bool) → ℕ → Allocation
allocate_buffer grants byte_count = allocate_loop 65 grants byte_count

unfoldable pub active_bytes : MemoryTest → ℕ → ℕ
active_bytes test buffer_bytes = if is_copy test then buffer_bytes / 2 else buffer_bytes

unfoldable pub region_bytes : MemoryTest → ℕ → ℕ → ℕ
region_bytes test buffer_bytes thread_count =
    round_down (active_bytes test buffer_bytes / thread_count) alignment_bytes

-- Where a worker reads and writes, as offsets into the buffer.
unfoldable pub source_offset : MemoryTest → ℕ → ℕ → ℕ → ℕ
source_offset test buffer_bytes thread_count index =
    index * region_bytes test buffer_bytes thread_count

unfoldable pub destination_offset : MemoryTest → ℕ → ℕ → ℕ → ℕ
destination_offset test buffer_bytes thread_count index =
    let offset = index * region_bytes test buffer_bytes thread_count in
    if is_copy test then active_bytes test buffer_bytes + offset else offset
