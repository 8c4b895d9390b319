-- ===== src/Prelude/Bits.antt =====
-- Single bits of a word kept as a number: `word |= 1 << k`, `word &= ~(1 << k)`, `word & (1 << k)`.
use rapidbench.Prelude.Tests.{◌==◌}
use Prim.Native.Nat.{ℕ, ◌+◌, ◌-◌, ◌*◌, ◌/◌, ◌%◌, ◌^◌}
use mathlib.Core.Bool.{Bool}

abbrev pub has_bit : ℕ → ℕ → Bool
has_bit x k = (x / 2 ^ k % 2) == 1

abbrev pub set_bit : ℕ → ℕ → ℕ
set_bit x k = x + (1 - x / 2 ^ k % 2) * 2 ^ k

abbrev pub clear_bit : ℕ → ℕ → ℕ
clear_bit x k = x - x / 2 ^ k % 2 * 2 ^ k
