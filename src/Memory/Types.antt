-- ===== src/Memory/Types.antt =====
-- native/benchmark_core/include/benchmark/memory_engine.h: the types.
use rapidbench.Prelude.{ℕ, Bool, true, false, List, []}
use rapidbench.Prelude.Doubles.{Doubles, zero_double}
use rapidbench.Prelude.Int.{ℤ, pos}

-- The enumerators, and any other value that an integer is cast to.
pub data MemoryTest : Type 0 where
  k_none : MemoryTest
  k_read : MemoryTest
  k_write : MemoryTest
  k_copy : MemoryTest
  k_other : MemoryTest

abbrev pub is_copy : MemoryTest → Bool
is_copy k_none = false
is_copy k_read = false
is_copy k_write = false
is_copy k_copy = true
is_copy k_other = false

-- A test that can be started.
abbrev pub is_memory_test : MemoryTest → Bool
is_memory_test k_none = false
is_memory_test k_read = true
is_memory_test k_write = true
is_memory_test k_copy = true
is_memory_test k_other = false

pub record MemoryRequest : Type 0 where
  pub test : MemoryTest
  pub duration_ms : ℕ
  pub warmup_ms : ℕ

-- The constants for `state`.
pub data MemoryState : Type 0 where
  k_idle : MemoryState
  k_preparing : MemoryState
  k_warming_up : MemoryState
  k_measuring : MemoryState
  k_completed : MemoryState
  k_cancelled : MemoryState
  k_error : MemoryState

abbrev pub is_over : MemoryState → Bool
is_over k_idle = true
is_over k_preparing = false
is_over k_warming_up = false
is_over k_measuring = false
is_over k_completed = true
is_over k_cancelled = true
is_over k_error = true

module _ (num : Doubles) where
  pub record MemorySnapshot : Type 0 where
    pub run_id : ℕ
    pub state : MemoryState
    pub test : MemoryTest
    pub thread_count : ℕ
    pub error_code : ℤ
    pub affinity_failures : ℕ
    pub performance_request_failures : ℕ
    pub buffer_bytes : ℕ
    pub elapsed_ns : ℕ
    pub processed_bytes : ℕ
    pub bandwidth_gbps : num.Double
    pub progress : num.Double
    pub present_cpus : ℕ
    pub online_cpus : ℕ
    pub allowed_cpus : ℕ
    pub preparation_attempts : ℕ
    pub topology_unstable : Bool
    pub selected_cpus : List ℕ

  -- `MemorySnapshot{}`.
  abbrev pub no_snapshot : MemorySnapshot
  no_snapshot = record {
    run_id = 0;
    state = k_idle;
    test = k_none;
    thread_count = 0;
    error_code = pos 0;
    affinity_failures = 0;
    performance_request_failures = 0;
    buffer_bytes = 0;
    elapsed_ns = 0;
    processed_bytes = 0;
    bandwidth_gbps = zero_double num;
    progress = zero_double num;
    present_cpus = 0;
    online_cpus = 0;
    allowed_cpus = 0;
    preparation_attempts = 0;
    topology_unstable = false;
    selected_cpus = [];
  }
