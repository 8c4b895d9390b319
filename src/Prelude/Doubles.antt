-- ===== src/Prelude/Doubles.antt =====
-- The operations on `double` that the engines use; the arithmetic is the machine's.
use rapidbench.Prelude.Tests.{if◌then◌else◌, ltb}
use Prim.Native.Nat.{ℕ, ◌-◌, ◌*◌, ◌/◌}
use mathlib.Core.Bool.{Bool}

pub record Doubles : Type 1 where
  pub Double : Type 0
  pub of_word : ℕ → Double
  pub product : Double → Double → Double
  pub quotient : Double → Double → Double
  pub difference : Double → Double → Double
  pub less : Double → Double → Bool

module _ (num : Doubles) where
  abbrev pub zero_double : num.Double
  zero_double = num.of_word 0

  abbrev pub is_positive : num.Double → Bool
  is_positive a = num.less zero_double a

  -- `std::max` and `std::min`.
  abbrev pub larger : num.Double → num.Double → num.Double
  larger a b = if num.less a b then b else a

  abbrev pub smaller : num.Double → num.Double → num.Double
  smaller a b = if num.less b a then b else a

-- Whole numbers in place of floating-point ones.
abbrev pub whole : Doubles
whole = record {
  Double = ℕ;
  of_word = λ n. n;
  product = λ a b. a * b;
  quotient = λ a b. a / b;
  difference = λ a b. a - b;
  less = λ a b. ltb a b;
}
