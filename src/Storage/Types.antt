-- ===== src/Storage/Types.antt =====
-- native/benchmark_core/include/benchmark/storage_engine.h: the types of the storage engine.
use rapidbench.Prelude.{ℕ, Bool, false, ◌==◌, List, replicate}
use rapidbench.Prelude.Doubles.{Doubles}
use rapidbench.Prelude.Int.{ℤ, pos}

pub data StorageTest : Type 0 where
  k_none : StorageTest
  k_sequential_read : StorageTest
  k_sequential_write : StorageTest
  k_random4_k_q1_t1_read : StorageTest
  k_random4_k_q1_t1_write : StorageTest
  k_random4_k_q8_t1_read : StorageTest
  k_random4_k_q8_t1_write : StorageTest
  k_random4_k_q1_t4_read : StorageTest
  k_random4_k_q1_t4_write : StorageTest
  k_sqlite_insert : StorageTest
  k_sqlite_delete : StorageTest
  k_sqlite_update : StorageTest
  k_all : StorageTest

-- The enumerator's value.
abbrev pub test_number : StorageTest → ℕ
test_number k_none = 0
test_number k_sequential_read = 1
test_number k_sequential_write = 2
test_number k_random4_k_q1_t1_read = 3
test_number k_random4_k_q1_t1_write = 4
test_number k_random4_k_q8_t1_read = 5
test_number k_random4_k_q8_t1_write = 6
test_number k_random4_k_q1_t4_read = 7
test_number k_random4_k_q1_t4_write = 8
test_number k_sqlite_insert = 9
test_number k_sqlite_delete = 10
test_number k_sqlite_update = 11
test_number k_all = 12

abbrev pub same_test : StorageTest → StorageTest → Bool
same_test a b = test_number a == test_number b

pub data StorageState : Type 0 where
  k_idle : StorageState
  k_preparing : StorageState
  k_warming_up : StorageState
  k_measuring : StorageState
  k_flushing : StorageState
  k_stopping : StorageState
  k_completed : StorageState
  k_stopped : StorageState
  k_error : StorageState

pub data StoragePhase : Type 0 where
  k_no_phase : StoragePhase
  k_prepare : StoragePhase
  k_warm_up : StoragePhase
  k_measure : StoragePhase
  k_flush : StoragePhase

pub data StorageIoMode : Type 0 where
  k_unavailable : StorageIoMode
  k_direct : StorageIoMode
  k_buffered_compatibility : StorageIoMode
  k_sqlite : StorageIoMode

pub record StorageRequest : Type 0 where
  pub test : StorageTest
  pub duration_ms : ℕ
  pub warmup_ms : ℕ
  pub file_size_mib_override : ℕ

module _ (num : Doubles) where
  pub record StorageResult : Type 0 where
    pub test : StorageTest
    pub valid : Bool
    pub stopped : Bool
    pub io_mode : StorageIoMode
    pub error_code : ℤ
    pub thread_count : ℕ
    pub queue_depth : ℕ
    pub max_outstanding : ℕ
    pub elapsed_ns : ℕ
    pub completed_bytes : ℕ
    pub completed_io : ℕ
    pub completed_rows : ℕ
    pub mbps : num.Double
    pub iops : num.Double
    pub rows_per_second : num.Double

  -- `StorageResult{}`.
  abbrev pub no_result : StorageResult
  no_result = record {
    test = k_none;
    valid = false;
    stopped = false;
    io_mode = k_unavailable;
    error_code = pos 0;
    thread_count = 0;
    queue_depth = 0;
    max_outstanding = 0;
    elapsed_ns = 0;
    completed_bytes = 0;
    completed_io = 0;
    completed_rows = 0;
    mbps = num.of_word 0;
    iops = num.of_word 0;
    rows_per_second = num.of_word 0;
  }

  pub record StorageSnapshot : Type 0 where
    pub run_id : ℕ
    pub state : StorageState
    pub phase : StoragePhase
    pub active_test : StorageTest
    pub io_mode : StorageIoMode
    pub error_code : ℤ
    pub alignment : ℕ
    pub test_file_mib : ℕ
    pub block_size : ℕ
    pub queue_depth : ℕ
    pub thread_count : ℕ
    pub current_outstanding : ℕ
    pub max_outstanding : ℕ
    pub elapsed_ns : ℕ
    pub completed_bytes : ℕ
    pub completed_io : ℕ
    pub completed_rows : ℕ
    pub current_mbps : num.Double
    pub current_iops : num.Double
    pub current_rows_per_second : num.Double
    pub progress : num.Double
    pub results : List StorageResult

  -- `StorageSnapshot{}`.
  abbrev pub no_snapshot : StorageSnapshot
  no_snapshot = record {
    run_id = 0;
    state = k_idle;
    phase = k_no_phase;
    active_test = k_none;
    io_mode = k_unavailable;
    error_code = pos 0;
    alignment = 0;
    test_file_mib = 0;
    block_size = 0;
    queue_depth = 0;
    thread_count = 0;
    current_outstanding = 0;
    max_outstanding = 0;
    elapsed_ns = 0;
    completed_bytes = 0;
    completed_io = 0;
    completed_rows = 0;
    current_mbps = num.of_word 0;
    current_iops = num.of_word 0;
    current_rows_per_second = num.of_word 0;
    progress = num.of_word 0;
    results = replicate 11 no_result;
  }
