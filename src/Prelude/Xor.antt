-- ===== src/Prelude/Xor.antt =====
-- The exclusive or of two words is a word.
use Prim.Native.Nat.{
  ℕ, zero, suc, ◌/◌, ◌%◌, ◌^◌, ◌≤◌, ◌<◌, bit_xor, bit_xor-bitwise, digits, differ,
}
use mathlib.Core.Path.{subst, sym}
use native.Mathlib.Omega.{arith}

differ-le : (x y : ℕ) → x ≤ 1 → y ≤ 1 → differ x y ≤ 1
differ-le zero y h k = k
differ-le (suc x) zero h k = h
differ-le (suc x) (suc y) h k = differ-le x y (omega arith) (omega arith)

-- An operation on binary digits gives no digit above those of its arguments.
module _ (f : ℕ → ℕ → ℕ) (f-le : (x y : ℕ) → x ≤ 1 → y ≤ 1 → f x y ≤ 1) where
  digits-lt : (n k a b : ℕ) → a < 2 ^ k → b < 2 ^ k → digits (λ d. d) f n a b < 2 ^ k
  digits-lt zero k a b h l = l
  digits-lt (suc n) k zero b h l = l
  digits-lt (suc n) zero (suc a) b h l = absurd (omega arith)
  digits-lt (suc n) (suc k) (suc a) b h l =
      let rest = digits-lt n k (suc a / 2) (b / 2) (omega arith) (omega arith) in
      omega (arith, f-le (suc a % 2) (b % 2) (omega arith) (omega arith))

pub bit_xor-lt : (k a b : ℕ) → a < 2 ^ k → b < 2 ^ k → bit_xor a b < 2 ^ k
bit_xor-lt k a b h l =
    subst (λ n. n < 2 ^ k) (sym (bit_xor-bitwise a b)) (digits-lt differ differ-le a k a b h l)
