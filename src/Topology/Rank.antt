-- ===== src/Topology/Rank.antt =====
-- native/benchmark_core/src/topology.cpp: CommonRankSource, PerformanceRank and
-- PerformanceGroupIdentity.
use rapidbench.Prelude.{ℕ, ◌+◌, ◌*◌, ◌^◌, ltb, if◌then◌else◌, all, is_empty}
use rapidbench.Prelude.Int.{ℤ, signed64}
use rapidbench.Topology.Types.{CpuInfo, Topology}

pub data RankSource : Type 0 where
  from_capacity from_frequency unknown : RankSource

unfoldable pub common_rank_source : Topology → RankSource
common_rank_source t =
    if is_empty t.cpus
    then unknown
    else if all (λ c. ltb 0 c.capacity) t.cpus
    then from_capacity
    else if all (λ c. ltb 0 c.max_frequency_khz) t.cpus
    then from_frequency
    else unknown

-- The shift leaves the low 32 bits clear, so that `|` with a 32-bit frequency is a sum.
unfoldable pub performance_rank : CpuInfo → RankSource → ℕ
performance_rank c from_capacity = c.capacity * 2 ^ 32 + c.max_frequency_khz
performance_rank c from_frequency = c.max_frequency_khz
performance_rank c unknown = 0

pub data GroupSource : Type 0 where
  from_cluster from_frequency_policy from_performance_rank : GroupSource

unfoldable pub group_identity : CpuInfo → GroupSource → RankSource → ℤ
group_identity c from_cluster r = c.cluster_id
group_identity c from_frequency_policy r = c.frequency_policy_id
group_identity c from_performance_rank r = signed64 (performance_rank c r)
