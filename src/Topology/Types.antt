-- ===== src/Topology/Types.antt =====
-- native/benchmark_core/include/benchmark/topology.h: the records and the quality flags.
use rapidbench.Prelude.{ℕ, Bool, List}
use rapidbench.Prelude.Int.{ℤ}

-- The quality flags, by the number of their bit.
abbrev pub quality_capacity_missing : ℕ
quality_capacity_missing = 0

abbrev pub quality_max_frequency_missing : ℕ
quality_max_frequency_missing = 1

abbrev pub quality_cluster_id_missing : ℕ
quality_cluster_id_missing = 2

abbrev pub quality_affinity_unavailable : ℕ
quality_affinity_unavailable = 3

abbrev pub quality_topology_truncated : ℕ
quality_topology_truncated = 4

abbrev pub quality_performance_groups_inferred : ℕ
quality_performance_groups_inferred = 5

abbrev pub quality_single_cpu_inferred : ℕ
quality_single_cpu_inferred = 6

abbrev pub quality_single_cpu_unknown : ℕ
quality_single_cpu_unknown = 7

pub record CpuInfo : Type 0 where
  pub logical_cpu : ℕ
  pub online : Bool
  pub allowed : Bool
  pub cluster_id : ℤ
  pub core_id : ℤ
  pub frequency_policy_id : ℤ
  pub max_frequency_khz : ℕ
  pub capacity : ℕ
  pub performance_group : ℕ

pub record FrequencyResidency : Type 0 where
  pub frequency_khz : ℕ
  pub residency : ℕ

pub record Topology : Type 0 where
  pub cpus : List CpuInfo
  pub online_count : ℕ
  pub allowed_count : ℕ
  pub performance_group_count : ℕ
  pub preferred_single_cpu : ℤ
  pub quality_flags : ℕ
