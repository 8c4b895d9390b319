-- ===== src/Storage/Blocks/Offsets.antt =====
-- The blocks that the random tests visit.
use rapidbench.Prelude.{
  ℕ, count, zero, suc, ◌+◌, ◌-◌, ◌*◌, ◌/◌, ◌%◌, ◌^◌, ◌≤◌, ◌<◌, ◌≡◌, ◌∙◌, ◌||◌, ◌&&◌, leb, ltb, ◌==◌,
  if◌then◌else◌, List, arith, min,
}
use rapidbench.Storage.Blocks.{
  offsets_loop, make_random_offsets, worker_offsets, block_floor, k_random_block,
}

-- The loop gives every whole block between its bounds once, and nothing else.
count-offsets_loop :
    (fuel n offset end x : ℕ)
    → offset % 4096 ≡ 0
    → end ≡ offset + n * 4096
    → n < fuel
    → end + 4096 < 2 ^ 64
    → count x (offsets_loop fuel offset end)
      ≡ (if ((x % 4096) == 0) && leb offset x && ltb x end then 1 else 0)
unfolding offsets_loop
count-offsets_loop zero n offset end x a e h b = absurd (omega arith)
count-offsets_loop (suc fuel) zero offset end x a e h b =
    let next : (offset + k_random_block) % 2 ^ 64 ≡ offset + 4096 = omega arith in
    ground (arith, next)
count-offsets_loop (suc fuel) (suc n) offset end x a e h b =
    let next : (offset + k_random_block) % 2 ^ 64 ≡ offset + 4096 = omega arith in
    rw next (
      ground (
        arith,
        count-offsets_loop fuel n (offset + 4096) end x (omega arith) (omega arith) (omega arith) b,
      ))

-- A reordering keeps how often each value stands in the list, as std::shuffle does.
abbrev pub Reorders : (ℕ → List ℕ → List ℕ) → Type 0
Reorders shuffle = (seed x : ℕ) (xs : List ℕ) → count x (shuffle seed xs) ≡ count x xs

-- Where MakeRandomOffsets ends: the end of the file where none is given, or one that lies beyond it.
abbrev pub end_within : ℕ → ℕ → ℕ
end_within file_size end = if end == 0 then file_size else min end file_size

-- The offsets of a random test, in whatever order they are visited: each whole block of the file
-- between the bounds is there once, rounded down to whole blocks, and nothing else is there. No upper
-- bound (0), or one beyond the file, stands for the end of the file. The lower bound is not above the
-- upper one, and the file is more than a block shorter than 2^64 bytes.
pub count-make_random_offsets :
    (shuffle : ℕ → List ℕ → List ℕ)
    → Reorders shuffle
    → (file_size seed begin end x : ℕ) → begin ≤ end_within file_size end
    → file_size + 4096 < 2 ^ 64
    → count x (make_random_offsets shuffle file_size seed begin end) ≡ (
        if ((x % 4096) == 0)
          && leb (block_floor begin) x
          && ltb x (block_floor (end_within file_size end))
        then 1
        else 0)
unfolding make_random_offsets
count-make_random_offsets shuffle reorders file_size seed begin end x h k =
    let limit = end_within file_size end in
    let same : (if (end == 0) || ltb file_size end then file_size else end) ≡ limit =
      ground arith in
    let first = block_floor begin in
    let last = block_floor limit in
    let inside : limit ≤ file_size = ground arith in
    rw same (
      reorders seed x (offsets_loop ((last - first) / k_random_block + 1) first last)
      ∙ count-offsets_loop ((last - first) / k_random_block + 1) ((last - first) / 4096) first last
          x (omega arith) (omega arith) (omega arith) (omega arith))

-- The four workers of a threaded test share the file out: on a file of whole mebibytes, of less than
-- 2^64 bytes, each block of the file is visited by just one of them, and is once in that one's list.
pub count-worker_offsets :
    (shuffle : ℕ → List ℕ → List ℕ)
    → Reorders shuffle
    → (mib x : ℕ) → 0 < mib
    → mib * 1048576 < 2 ^ 64
    → count x (worker_offsets shuffle (mib * 1048576) 0)
        + count x (worker_offsets shuffle (mib * 1048576) 1)
        + count x (worker_offsets shuffle (mib * 1048576) 2)
        + count x (worker_offsets shuffle (mib * 1048576) 3)
      ≡ (if ((x % 4096) == 0) && ltb x (mib * 1048576) then 1 else 0)
unfolding worker_offsets
count-worker_offsets shuffle reorders mib x h b =
    let size = mib * 1048576 in
    let region = size / 4 in
    ground (
      arith,
      count-make_random_offsets shuffle reorders size ((10723151780598845931 + 0) % 2 ^ 64)
          (region * 0) (region * (0 + 1)) x (ground arith) (omega arith),
      count-make_random_offsets shuffle reorders size ((10723151780598845931 + 1) % 2 ^ 64)
          (region * 1) (region * (1 + 1)) x (ground arith) (omega arith),
      count-make_random_offsets shuffle reorders size ((10723151780598845931 + 2) % 2 ^ 64)
          (region * 2) (region * (2 + 1)) x (ground arith) (omega arith),
      count-make_random_offsets shuffle reorders size ((10723151780598845931 + 3) % 2 ^ 64)
          (region * 3) size x (ground arith) (omega arith),
    )
