-- ===== src/Topology/CpuList/Print.antt =====
-- The kernel's way to write a list of CPUs, which ParseCpuList reads: ranges "first-last", or a
-- single number, separated by commas.
use rapidbench.Prelude.{
  ℕ, ◌-◌, ◌^◌, ◌≤◌, ◌<◌, Bool, false, ◌&&◌, ◌||◌, List, [], ◌∷◌, ◌++◌, leb, ◌==◌, if◌then◌else◌,
}
use rapidbench.Prelude.Decimal.{to_string}

pub record CpuRange : Type 0 where
  pub first : ℕ
  pub last : ℕ

-- A range that ParseCpuList takes and whose loop ends.
pub record IsReadable (r : CpuRange) : Type 0 where
  pub ordered : r.first ≤ r.last
  pub short : r.last - r.first < 4096
  pub below_max : r.last < 2 ^ 32 - 1

unfoldable pub upper_text : CpuRange → List ℕ
upper_text r = if r.first == r.last then [] else b'-' ∷ to_string r.last

unfoldable pub range_text : CpuRange → List ℕ
range_text r = to_string r.first ++ upper_text r

unfoldable pub following_text : List CpuRange → List ℕ
following_text [] = []
following_text (r ∷ rs) = b',' ∷ (range_text r ++ following_text rs)

unfoldable pub print_list : List CpuRange → List ℕ
print_list [] = []
print_list (r ∷ rs) = range_text r ++ following_text rs

abbrev pub covers : ℕ → List CpuRange → Bool
covers k [] = false
covers k (r ∷ rs) = (leb r.first k && leb k r.last) || covers k rs
