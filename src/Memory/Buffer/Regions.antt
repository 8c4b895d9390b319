-- ===== src/Memory/Buffer/Regions.antt =====
-- The workers' regions lie in the buffer and do not meet.
use native.Mathlib.Nat.{mul-le-mul_left, mul-le-mul_right, suc-mul, mul-div-le}
use rapidbench.Prelude.{ℕ, ◌+◌, ◌-◌, ◌*◌, ◌/◌, ◌%◌, ◌≤◌, ◌<◌, ◌≡◌, true, arith}
use rapidbench.Memory.Types.{MemoryTest, is_copy}
use rapidbench.Memory.Buffer.{
  round_down, active_bytes, region_bytes, source_offset, destination_offset, alignment_bytes,
}

next_region : (i j r : ℕ) → i < j → i * r + r ≤ j * r
next_region i j r h = omega (arith, mul-le-mul_right r h, suc-mul i r)

regions_fit : (test : MemoryTest) (b n : ℕ) → n * region_bytes test b n ≤ active_bytes test b
unfolding region_bytes round_down
regions_fit test b n =
    let share = active_bytes test b / n in
    omega (
      arith,
      mul-le-mul_left {m = share - share % 128} {n = share} n (omega arith),
      mul-div-le (active_bytes test b) n,
    )

-- Of any number of workers, one reads and writes inside the buffer only, in whole lines of 128 bytes;
-- what it reads lies before what the workers after it read, and what it writes before what they
-- write; and of a copy, all that is read lies before all that is written.
pub regions_apart :
    (test : MemoryTest) (b n i : ℕ)
    → i < n
    → let r = region_bytes test b n in
      (r % alignment_bytes ≡ 0)
      × (source_offset test b n i + r ≤ b)
      × (destination_offset test b n i + r ≤ b)
      × ((j : ℕ)
          → i < j
          → (source_offset test b n i + r ≤ source_offset test b n j)
            × (destination_offset test b n i + r ≤ destination_offset test b n j))
      × (is_copy test ≡ true
          → (j : ℕ) → source_offset test b n i + r ≤ destination_offset test b n j)
unfolding source_offset destination_offset active_bytes
regions_apart test b n i l =
    let r = region_bytes test b n in
    let fit = regions_fit test b n in
    let own = next_region i n r l in
    let next = λ (j : ℕ) (h : i < j). next_region i j r h in
    (
      unfold region_bytes round_down in omega arith,
      ground (arith, fit, own),
      ground (arith, fit, own),
      λ j h. (next j h, ground (arith, next j h)),
      λ copy j. ground (arith, fit, own, copy),
    )
