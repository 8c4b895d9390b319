-- ===== src/CpuApplication/Types.antt =====
-- native/benchmark_core/include/benchmark/cpu_application_engine.h: the types.
use rapidbench.Prelude.{ℕ}
use rapidbench.Prelude.Doubles.{Doubles, zero_double}
use rapidbench.Prelude.Int.{ℤ, pos, negsuc}
use rapidbench.Cpu.Types.{State, k_idle}
use rapidbench.Workload.Application.{CpuApplicationTest, k_sort}

pub record CpuApplicationRequest : Type 0 where
  pub test : CpuApplicationTest
  pub duration_ms : ℕ
  pub warmup_ms : ℕ
  pub requested_threads : ℕ

module _ (num : Doubles) where
  pub record CpuApplicationSnapshot : Type 0 where
    pub run_id : ℕ
    pub state : State
    pub test : CpuApplicationTest
    pub thread_count : ℕ
    pub flags : ℕ
    pub error_code : ℤ
    pub affinity_failures : ℕ
    pub input_bytes : ℕ
    pub completed_units : ℕ
    pub elapsed_ns : ℕ
    pub units_per_second : num.Double
    pub progress : num.Double
    pub checksum : ℕ
    pub requested_threads : ℕ
    pub selected_cpu : ℤ

  -- `CpuApplicationSnapshot{}`.
  abbrev pub no_snapshot : CpuApplicationSnapshot
  no_snapshot = record {
    run_id = 0;
    state = k_idle;
    test = k_sort;
    thread_count = 0;
    flags = 0;
    error_code = pos 0;
    affinity_failures = 0;
    input_bytes = 0;
    completed_units = 0;
    elapsed_ns = 0;
    units_per_second = zero_double num;
    progress = zero_double num;
    checksum = 0;
    requested_threads = 1;
    selected_cpu = negsuc 0;
  }
