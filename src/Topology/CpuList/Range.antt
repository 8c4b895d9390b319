-- ===== src/Topology/CpuList/Range.antt =====
-- The loop of ParseCpuList that pushes the CPUs of one range.
use rapidbench.Prelude.{
  ℕ, zero, suc, ◌+◌, ◌-◌, ◌^◌, ◌≤◌, ◌<◌, ◌≡◌, refl, ◌&&◌, none, some, List, [], ◌∷◌, arith, leb,
  ltb, ◌%◌, Bool-cases, inl, inr,
}
use rapidbench.Prelude.Sort.{contains}
use rapidbench.Topology.CpuList.{push_range, cpus_of_range}

-- `count` numbers from `low` on.
unfoldable pub numbers : ℕ → ℕ → List ℕ
numbers zero low = []
numbers (suc count) low = low ∷ numbers count (low + 1)

pub contains-numbers :
    (k count low : ℕ) → contains k (numbers count low) ≡ (leb low k && leb (k + 1) (low + count))
unfolding contains numbers
contains-numbers k zero low = ground arith
contains-numbers k (suc count) low = ground (arith, contains-numbers k count (low + 1))

push_range-numbers :
    (fuel count cpu last : ℕ)
    → cpu + count ≡ last + 1
    → count < fuel
    → last < 2 ^ 32 - 1
    → push_range fuel cpu last ≡ some (numbers count cpu)
unfolding push_range numbers
push_range-numbers zero count cpu last e h b = absurd (omega arith)
push_range-numbers (suc fuel) zero cpu last e h b = ground arith
push_range-numbers (suc fuel) (suc count) cpu last e h b =
    ground (arith, push_range-numbers fuel count (cpu + 1) last)

-- A range that passes the guard and ends below the largest word is pushed whole.
pub cpus_of_range-numbers :
    (first last : ℕ)
    → first ≤ last
    → last - first < 4096
    → last < 2 ^ 32 - 1
    → cpus_of_range first last ≡ some (numbers (last + 1 - first) first)
unfolding cpus_of_range
cpus_of_range-numbers first last h g b =
    ground (arith, push_range-numbers 4097 (last + 1 - first) first last)

-- Below the largest word the loop ends, whatever the range.
pub cpus_of_range-total :
    (first last : ℕ) → last < 2 ^ 32 - 1 → (xs : List ℕ) × (cpus_of_range first last ≡ some xs)
unfolding cpus_of_range
cpus_of_range-total first last b = elim (Bool-cases (leb first last && ltb (last - first) 4096)) [
  | inl e ↦ (
    numbers (last + 1 - first) first,
    cpus_of_range-numbers first last (ground arith) (ground arith) b,
  )
  | inr e ↦ ([], rw (e, cpus_of_range))
]

-- If a range ends at the largest 32-bit word, the loop of ParseCpuList that pushes its CPUs never
-- ends: its counter wraps to 0 and is never above the end, so that no number of rounds is enough.
pub push_range_endless : (fuel cpu : ℕ) → cpu < 2 ^ 32 → push_range fuel cpu (2 ^ 32 - 1) ≡ none
unfolding push_range
push_range_endless zero cpu h = refl
push_range_endless (suc fuel) cpu h =
    ground (arith, push_range_endless fuel ((cpu + 1) % 2 ^ 32) (omega arith))
