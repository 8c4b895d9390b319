-- ===== src/Storage/Prepare.antt =====
-- native/benchmark_core/src/storage_engine.cpp: OpenAndPrepareRawFile, as it runs on Linux. The system
-- answers each call; the file is the list of the offsets whose blocks have been written since it was
-- last opened, since opening truncates it.
pub mod Writes
use Prim.Native.Nat.{bit_and}
use rapidbench.Prelude.{
  ℕ, zero, suc, ◌+◌, ◌-◌, ◌*◌, ◌/◌, ◌%◌, ◌^◌, Bool, true, false, not, ◌||◌, ◌&&◌, leb, ltb, ◌==◌,
  if◌then◌else◌, Option, none, some, List, [], ◌∷◌, ◌++◌,
}
use rapidbench.Prelude.Int.{ℤ, pos, negsuc}
use rapidbench.Storage.Types.{StorageIoMode, k_unavailable, k_direct, k_buffered_compatibility}
use rapidbench.Storage.Tests.{is_direct}
use rapidbench.Storage.Blocks.{
  choose_file_mi_b, detect_direct_alignment, k_mi_b, k_sequential_block, k_random_block,
}

abbrev pub error_insufficient_storage : ℤ
error_insufficient_storage = negsuc 29

abbrev pub error_directory : ℤ
error_directory = negsuc 30

abbrev pub error_open : ℤ
error_open = negsuc 31

abbrev pub error_allocation : ℤ
error_allocation = negsuc 34

abbrev pub error_io : ℤ
error_io = negsuc 35

-- What a pwrite of a block comes to: written, refused with an error that tells that direct I/O is not
-- supported, or anything else.
pub data Written : Type 0 where
  wrote : Written
  unsupported : Written
  broken : Written

-- The answers of the system, and of the stop flag, to the calls of the function, those in the loop by
-- the number of the round.
pub record FileSystem : Type 0 where
  pub directory_made : Bool
  pub statvfs : Option (ℕ × ℕ)
  pub opens_direct : Bool
  pub statx : Option (ℕ × ℕ)
  pub opens_buffered : Bool
  pub allocates : Bool
  pub truncates : Bool
  pub stop_requested : ℕ → Bool
  pub pwrite : ℕ → ℕ → Written
  pub reopens : Bool
  pub retruncates : Bool
  pub syncs : Bool

-- Mode and alignment, once the file is open.
unfoldable pub open_file : FileSystem → Option (StorageIoMode × ℕ)
open_file fs =
    let alignment = detect_direct_alignment fs.statx in
    let fits =
      fs.opens_direct
      && not (
          (alignment == 0)
          || ltb k_random_block alignment
          || not ((k_random_block % alignment) == 0)) in
    if fits
    then some (k_direct, alignment)
    else if fs.opens_buffered
    then some (k_buffered_compatibility, 4096)
    else none

-- How the loop over the blocks ends: with the mode, the alignment and the blocks that are in the file,
-- with an error, or because of the stop flag.
pub data Blocks : Type 0 where
  all_written : StorageIoMode → ℕ → List ℕ → Blocks
  write_failed : ℤ → Blocks
  write_stopped : Blocks
  write_exhausted : Blocks

-- What follows a pwrite: the next round, the loop anew, or an error.
unfoldable pub after_write : Written → FileSystem → StorageIoMode → Blocks → Blocks → Blocks
after_write wrote fs mode onward again = onward
after_write unsupported fs mode onward again =
    if is_direct mode
    then if not fs.reopens || not fs.retruncates then write_failed error_open else again
    else write_failed error_io
after_write broken fs mode onward again = write_failed error_io

-- The loop. A file that refuses direct I/O is opened anew without it, and the offset is set so that
-- the loop's own increment wraps it to zero.
unfoldable pub write_blocks : FileSystem → ℕ → ℕ → ℕ → StorageIoMode → ℕ → ℕ → List ℕ → Blocks
write_blocks fs zero round size mode alignment offset file = write_exhausted
write_blocks fs (suc fuel) round size mode alignment offset file =
    let onward =
      write_blocks fs fuel (round + 1) size mode alignment ((offset + k_sequential_block) % 2 ^ 64)
        (file ++ (offset ∷ [])) in
    let again =
      write_blocks fs fuel (round + 1) size k_buffered_compatibility 4096
        ((2 ^ 64 - k_sequential_block + k_sequential_block) % 2 ^ 64) [] in
    if not (ltb offset size)
    then all_written mode alignment file
    else if fs.stop_requested round
    then write_stopped
    else after_write (fs.pwrite round offset) fs mode onward again

pub data Preparation : Type 0 where
  file_ready : ℕ → StorageIoMode → ℕ → List ℕ → Preparation
  file_failed : Option ℤ → Preparation

-- Twice as many rounds as blocks, and one more for each of the two ends.
abbrev pub write_fuel : ℕ → ℕ
write_fuel mib = 2 * mib + 2

unfoldable pub after_blocks : FileSystem → ℕ → Blocks → Preparation
after_blocks fs size (all_written mode alignment file) =
    if fs.syncs then file_ready size mode alignment file else file_failed (some error_io)
after_blocks fs size (write_failed error) = file_failed (some error)
after_blocks fs size write_stopped = file_failed none
after_blocks fs size write_exhausted = file_failed none

unfoldable pub after_open : FileSystem → ℕ → Option (StorageIoMode × ℕ) → Preparation
after_open fs file_mib none = file_failed (some error_open)
after_open fs file_mib (some (mode, alignment)) =
    let size = file_mib * k_mi_b in
    let blocks = write_blocks fs (write_fuel file_mib) 0 size mode alignment 0 [] in
    if not fs.allocates
    then file_failed (some error_allocation)
    else if not fs.truncates
    then file_failed (some error_io)
    else after_blocks fs size blocks

unfoldable pub open_and_prepare_raw_file : FileSystem → ℕ → Preparation
open_and_prepare_raw_file fs file_size_mib_override =
    let file_mib = choose_file_mi_b fs.statvfs file_size_mib_override in
    if not fs.directory_made
    then file_failed (some error_directory)
    else if file_mib == 0
    then file_failed (some error_insufficient_storage)
    else after_open fs file_mib (open_file fs)
