-- ===== src/Workload/Words.antt =====
-- native/benchmark_core/src/cpu_application_workload.cpp: Next and Hash, on words kept as numbers.
use Prim.Native.Nat.{bit_xor}
use rapidbench.Prelude.{ℕ, ◌*◌, ◌/◌, ◌%◌, ◌^◌, List, [], ◌∷◌}

abbrev pub u32_mod : ℕ
u32_mod = 2 ^ 32

abbrev pub u64_mod : ℕ
u64_mod = 2 ^ 64

-- The xorshift step of the corpus generator.
unfoldable pub next : ℕ → ℕ
next state =
    let a = bit_xor state (state * 2 ^ 13 % u32_mod) in
    let b = bit_xor a (a / 2 ^ 17) in bit_xor b (b * 2 ^ 5 % u32_mod)

-- FNV-1a, on 64-bit words.
unfoldable pub hash : ℕ → List ℕ → ℕ
hash h [] = h
hash h (c ∷ cs) = hash (bit_xor h c * 1099511628211 % u64_mod) cs

abbrev pub hash_seed : ℕ
hash_seed = 14695981039346656037
