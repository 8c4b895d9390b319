-- ===== src/Cpu/Workload.antt =====
-- native/benchmark_core/src/cpu_workload.cpp: the work that the CPU engine's workers do.
use Prim.Native.Nat.{bit_or, bit_xor}
use rapidbench.Prelude.{ℕ, zero, suc, ◌+◌, ◌-◌, ◌*◌, ◌/◌, ◌%◌, ◌^◌, List, [], ◌∷◌, get_or}

abbrev pub float_count : ℕ
float_count = 128

-- The operations on `float`: a word as a number, n / 2 ^ k, and the word that a number is kept as.
pub record Floats : Type 1 where
  pub Float : Type 0
  pub of_word : ℕ → Float
  pub dyadic : ℕ → ℕ → Float
  pub sum : Float → Float → Float
  pub product : Float → Float → Float
  pub quotient : Float → Float → Float
  pub bits : Float → ℕ

unfoldable pub rotate_left32 : ℕ → ℕ → ℕ
rotate_left32 value count = bit_or (value * 2 ^ count % 2 ^ 32) (value / 2 ^ (32 - count))

unfoldable pub rotate_left64 : ℕ → ℕ → ℕ
rotate_left64 value count = bit_or (value * 2 ^ count % 2 ^ 64) (value / 2 ^ (64 - count))

-- SplitMix64: the value and the new state.
unfoldable pub split_mix64 : ℕ → ℕ × ℕ
split_mix64 state =
    let next = (state + 11400714819323198485) % 2 ^ 64 in
    let a = bit_xor next (next / 2 ^ 30) * 13787848793156543929 % 2 ^ 64 in
    let b = bit_xor a (a / 2 ^ 27) * 10723151780598845931 % 2 ^ 64 in (bit_xor b (b / 2 ^ 31), next)

unfoldable pub mix_integer : ℕ → ℕ → ℕ → ℕ
mix_integer round_salt index integer =
    let a = (integer + round_salt + index * 2246822507 % 2 ^ 32) % 2 ^ 32 in
    let b = bit_xor a (a / 2 ^ 16) * 2246822507 % 2 ^ 32 in
    let c = bit_xor b (b / 2 ^ 13) * 3266489909 % 2 ^ 32 in
    let d = bit_xor c (c / 2 ^ 16) in
    bit_xor (rotate_left32 d 7) (rotate_left32 ((d + round_salt) % 2 ^ 32) 17)

unfoldable pub mix_integers : ℕ → ℕ → List ℕ → List ℕ
mix_integers round_salt index [] = []
mix_integers round_salt index (x ∷ xs) =
    mix_integer round_salt index x ∷ mix_integers round_salt (index + 1) xs

-- The loop over the words, four at a time.
unfoldable pub checksum_loop : List ℕ → ℕ → ℕ
checksum_loop (a ∷ b ∷ c ∷ d ∷ rest) checksum =
    let first = bit_or a (b * 2 ^ 32) in
    let second = bit_or c (d * 2 ^ 32) in
    let mixed = bit_xor checksum ((first + rotate_left64 second 23) % 2 ^ 64) in
    checksum_loop rest (rotate_left64 mixed 11 * 15485907386658061715 % 2 ^ 64)
checksum_loop xs checksum = checksum

unfoldable pub floating_index : ℕ → ℕ
floating_index checksum = checksum % float_count

module _ (num : Floats) where
  pub record CpuWorkloadState : Type 0 where
    pub integers : List ℕ
    pub floating_point : List num.Float
    pub checksum : ℕ

  unfoldable pub seed_integer : ℕ → ℕ
  seed_integer value = bit_xor value (value / 2 ^ 32) % 2 ^ 32

  unfoldable pub seed_float : ℕ → num.Float
  seed_float value =
      num.sum (num.dyadic 1 2)
        (num.quotient (num.of_word (value / 2 ^ 16 % 65536)) (num.of_word 65536))

  -- The loop of InitializeCpuWorkload: the cells and the generator after them.
  unfoldable pub seed_cells : ℕ → ℕ → List ℕ × List num.Float × ℕ
  seed_cells zero generator = ([], [], generator)
  seed_cells (suc n) generator =
      let (value, next) = split_mix64 generator in
      let (integers, floats, last) = seed_cells n next in
      (seed_integer value ∷ integers, seed_float value ∷ floats, last)

  unfoldable pub initialize_cpu_workload : ℕ → CpuWorkloadState
  initialize_cpu_workload seed =
      let (integers, floats, generator) = seed_cells float_count seed in
      record { integers = integers; floating_point = floats; checksum = (split_mix64 generator).0 }

  unfoldable pub mix_float : ℕ → num.Float → num.Float
  mix_float integer value =
      let low = num.product (num.of_word (integer % 65536)) (num.dyadic 1 16) in
      let high = num.product (num.of_word (integer / 2 ^ 16)) (num.dyadic 1 16) in
      let a =
        num.sum (num.product value (num.dyadic 4095 12)) (num.product low (num.dyadic 1 11)) in
      num.sum (num.product a (num.dyadic 8193 13)) (num.product high (num.dyadic 1 12))

  unfoldable pub mix_floats : List ℕ → List num.Float → List num.Float
  mix_floats [] fs = []
  mix_floats (x ∷ xs) [] = []
  mix_floats (x ∷ xs) (f ∷ fs) = mix_float x f ∷ mix_floats xs fs

  unfoldable pub round_salt_of : ℕ → ℕ
  round_salt_of round = (2654435769 + round * 2135587861 % 2 ^ 32) % 2 ^ 32

  unfoldable pub mix_round : ℕ → CpuWorkloadState → CpuWorkloadState
  mix_round round s =
      let integers = mix_integers (round_salt_of round) 0 s.integers in
      record s { integers = integers; floating_point = mix_floats integers s.floating_point }

  -- The rounds that are left, from the given one on.
  unfoldable pub mix_rounds : ℕ → ℕ → CpuWorkloadState → CpuWorkloadState
  mix_rounds zero round s = s
  mix_rounds (suc n) round s = mix_rounds n (round + 1) (mix_round round s)

  unfoldable pub run_cpu_workload_batch : CpuWorkloadState → CpuWorkloadState
  run_cpu_workload_batch s =
      let mixed = mix_rounds 8 0 s in
      let checksum = checksum_loop mixed.integers mixed.checksum in
      let chosen = get_or mixed.floating_point (floating_index checksum) (num.dyadic 0 0) in
      record mixed { checksum = bit_xor checksum (num.bits chosen * 2 ^ 17 % 2 ^ 64) }
