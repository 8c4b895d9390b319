-- ===== src/Cpu/Types.antt =====
-- native/benchmark_core/include/benchmark/engine.h: the types that the engines for the CPU share.
use rapidbench.Prelude.{ℕ, Bool, true, false, List, replicate}
use rapidbench.Prelude.Doubles.{Doubles, zero_double}
use rapidbench.Prelude.Int.{ℤ, pos, negsuc}

abbrev pub maximum_benchmark_threads : ℕ
maximum_benchmark_threads = 64

abbrev pub maximum_telemetry_performance_groups : ℕ
maximum_telemetry_performance_groups = 16

pub data State : Type 0 where
  k_idle : State
  k_preparing : State
  k_warming_up : State
  k_measuring : State
  k_completed : State
  k_cancelled : State
  k_error : State

pub data Phase : Type 0 where
  k_none : Phase
  k_warm_up : Phase
  k_measure : Phase
  k_finalize : Phase

-- The enumerators, and any other value that an integer is cast to.
pub data TestId : Type 0 where
  k_phase1_workload : TestId
  k_cpu_single : TestId
  k_cpu_multi : TestId
  k_other_test : TestId

pub record Request : Type 0 where
  pub test_id : TestId
  pub duration_ms : ℕ
  pub warmup_ms : ℕ
  pub requested_threads : ℕ
  pub flags : ℕ

module _ (num : Doubles) where
  pub record Snapshot : Type 0 where
    pub run_id : ℕ
    pub state : State
    pub phase : Phase
    pub test_id : TestId
    pub thread_count : ℕ
    pub quality_flags : ℕ
    pub elapsed_ns : ℕ
    pub completed_work : ℕ
    pub current_value : num.Double
    pub progress : num.Double
    pub score_variation : num.Double
    pub peak_score : num.Double
    pub error_code : ℤ
    pub selected_cpu : ℤ
    pub affinity_failures : ℕ
    pub telemetry : ℕ
    pub peak_frequency_group_count : ℕ
    pub peak_frequency_khz_by_group : List ℕ

  -- `Snapshot{}`.
  abbrev pub no_snapshot : Snapshot
  no_snapshot = record {
    run_id = 0;
    state = k_idle;
    phase = k_none;
    test_id = k_cpu_single;
    thread_count = 0;
    quality_flags = 0;
    elapsed_ns = 0;
    completed_work = 0;
    current_value = zero_double num;
    progress = zero_double num;
    score_variation = zero_double num;
    peak_score = zero_double num;
    error_code = pos 0;
    selected_cpu = negsuc 0;
    affinity_failures = 0;
    telemetry = 0;
    peak_frequency_group_count = 0;
    peak_frequency_khz_by_group = replicate 16 0;
  }

-- IsRunning.
abbrev pub is_running : State → Bool
is_running k_idle = false
is_running k_preparing = true
is_running k_warming_up = true
is_running k_measuring = true
is_running k_completed = false
is_running k_cancelled = false
is_running k_error = false

abbrev pub is_cpu_test : TestId → Bool
is_cpu_test k_phase1_workload = true
is_cpu_test k_cpu_single = true
is_cpu_test k_cpu_multi = true
is_cpu_test k_other_test = false
