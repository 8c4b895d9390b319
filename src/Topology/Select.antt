-- ===== src/Topology/Select.antt =====
-- native/benchmark_core/src/topology.cpp: SelectCpuCandidates and its two callers, and
-- native/benchmark_core/src/cpu_application_engine.cpp: SelectCpuApplicationCpus, and
-- native/benchmark_core/src/engine.cpp: the selections that the CPU engine makes.
pub mod Best
use rapidbench.Prelude.{
  ℕ, ◌≡◌, Bool, true, false, not, ◌&&◌, ◌||◌, List, [], ◌∷◌, map, ltb, ◌==◌, if◌then◌else◌, length,
  keep_if, take,
}
use rapidbench.Prelude.Int.{ℤ, word32}
use rapidbench.Prelude.Sort.{sort, unique, contains}
use rapidbench.Topology.Types.{CpuInfo, Topology}
use rapidbench.Topology.Rank.{RankSource, common_rank_source, performance_rank}

abbrev pub is_candidate : Bool → CpuInfo → Bool
is_candidate include_all c = include_all || (c.online && c.allowed)

-- `left != right ? left > right : lhs->logical_cpu < rhs->logical_cpu`.
abbrev pub candidate_lt : RankSource → CpuInfo → CpuInfo → Bool
candidate_lt r c d =
    let left = performance_rank c r in
    let right = performance_rank d r in
    if not (left == right) then ltb right left else ltb c.logical_cpu d.logical_cpu

unfoldable pub sorted_candidates : Topology → Bool → List CpuInfo
sorted_candidates t include_all =
    sort (candidate_lt (common_rank_source t)) (keep_if (is_candidate include_all) t.cpus)

-- `resize` to the requested number, unless that is 0 or no less than what is there.
unfoldable pub limited : ℕ → List CpuInfo → List CpuInfo
limited requested cs =
    if not (requested == 0) && ltb requested (length cs) then take requested cs else cs

abbrev pub numbers_of : List CpuInfo → List ℕ
numbers_of = map (λ c. c.logical_cpu)

unfoldable pub select_cpu_candidates : Topology → ℕ → Bool → List ℕ
select_cpu_candidates t requested include_all =
    numbers_of (limited requested (sorted_candidates t include_all))

unfoldable pub select_benchmark_cpus : Topology → ℕ → List ℕ
unfolding select_cpu_candidates
select_benchmark_cpus t requested = select_cpu_candidates t requested false

unfoldable pub select_present_cpu_benchmark_cpus : Topology → ℕ → List ℕ
unfolding select_cpu_candidates
select_present_cpu_benchmark_cpus t requested = select_cpu_candidates t requested true

-- SelectCpuApplicationCpus.
abbrev one_if : Bool → ℕ → List ℕ
one_if found n = if found then n ∷ [] else []

unfoldable pub select_cpu_application_cpus : Topology → Bool → List ℕ
select_cpu_application_cpus t multi =
    let cpus = unique (sort ltb (numbers_of t.cpus)) in
    let preferred = word32 t.preferred_single_cpu in
    if not multi
    then one_if (contains preferred cpus) preferred
    else if ltb 64 (length cpus)
    then []
    else cpus

-- IsSelectableCpu, SelectPerformanceGroupCpus and PerformanceGroupForCpu of the CPU engine.
unfoldable pub is_selectable_cpu : List CpuInfo → ℕ → Bool
is_selectable_cpu [] n = false
is_selectable_cpu (c ∷ cs) n = (c.logical_cpu == n) || is_selectable_cpu cs n

unfoldable pub select_performance_group_cpus : Topology → ℕ → List ℕ
select_performance_group_cpus t group =
    sort ltb (numbers_of (keep_if (λ c. c.performance_group == group) t.cpus))

unfoldable pub performance_group_for_cpu : List CpuInfo → ℕ → ℕ
performance_group_for_cpu [] n = 16
performance_group_for_cpu (c ∷ cs) n =
    if c.logical_cpu == n then c.performance_group else performance_group_for_cpu cs n
