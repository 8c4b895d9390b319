-- ===== src/Storage/Tests.antt =====
-- native/benchmark_core/src/storage_engine.cpp and include/benchmark/storage_execution.h: the tests on
-- enumerators, and SelectStorageExecution.
use rapidbench.Prelude.{ℕ, ◌-◌, Bool, true, false, ◌||◌, ◌&&◌, leb, if◌then◌else◌}
use rapidbench.Storage.Types.{
  StorageTest, test_number, same_test, StorageState, StorageIoMode, k_direct, k_unavailable,
  k_buffered_compatibility, k_sqlite, k_idle, k_preparing, k_warming_up, k_measuring, k_flushing,
  k_stopping, k_completed, k_stopped, k_error, k_sequential_read, k_sequential_write,
  k_random4_k_q1_t1_read, k_random4_k_q1_t1_write, k_random4_k_q8_t1_read, k_random4_k_q8_t1_write,
  k_random4_k_q1_t4_read, k_random4_k_q1_t4_write,
}

abbrev pub is_terminal : StorageState → Bool
is_terminal k_idle = true
is_terminal k_preparing = false
is_terminal k_warming_up = false
is_terminal k_measuring = false
is_terminal k_flushing = false
is_terminal k_stopping = false
is_terminal k_completed = true
is_terminal k_stopped = true
is_terminal k_error = true

unfoldable pub is_raw_test : StorageTest → Bool
is_raw_test t =
    leb (test_number k_sequential_read) (test_number t)
    && leb (test_number t) (test_number k_random4_k_q1_t4_write)

unfoldable pub is_write_test : StorageTest → Bool
is_write_test t =
    same_test t k_sequential_write
    || same_test t k_random4_k_q1_t1_write
    || same_test t k_random4_k_q8_t1_write
    || same_test t k_random4_k_q1_t4_write

unfoldable pub is_random_test : StorageTest → Bool
is_random_test t =
    leb (test_number k_random4_k_q1_t1_read) (test_number t)
    && leb (test_number t) (test_number k_random4_k_q1_t4_write)

-- `ResultIndex`, of a test that is not `kNone`.
abbrev pub result_index : StorageTest → ℕ
result_index t = test_number t - 1

pub data StorageExecution : Type 0 where
  k_sync : StorageExecution
  k_aio : StorageExecution
  k_threaded : StorageExecution
  k_no_execution : StorageExecution

abbrev pub is_direct : StorageIoMode → Bool
is_direct k_unavailable = false
is_direct k_direct = true
is_direct k_buffered_compatibility = false
is_direct k_sqlite = false

unfoldable pub select_storage_execution : StorageTest → StorageIoMode → StorageExecution
select_storage_execution t mode =
    let sequential = same_test t k_sequential_read || same_test t k_sequential_write in
    let q8 = same_test t k_random4_k_q8_t1_read || same_test t k_random4_k_q8_t1_write in
    if sequential || q8
    then if is_direct mode then k_aio else if sequential then k_sync else k_no_execution
    else if same_test t k_random4_k_q1_t4_read || same_test t k_random4_k_q1_t4_write
    then k_threaded
    else k_sync
