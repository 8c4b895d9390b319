-- ===== src/Storage/Examples.antt =====
-- Runs of the storage engine at small inputs, and its theorems at such inputs.
use rapidbench.Prelude.{
  count, ◌+◌, ◌*◌, ◌%◌, ◌≡◌, refl, Bool, true, false, ◌&&◌, none, some, [], ◌∷◌, ◌==◌,
  if◌then◌else◌, leb, ltb, arith, All,
}
use rapidbench.Prelude.Int.{ℤ, pos, negsuc}
use rapidbench.Prelude.Doubles.{whole}
use rapidbench.Storage.Types.{
  k_sequential_read, k_random4_k_q8_t1_read, k_all, StorageRequest, StorageSnapshot, no_snapshot,
  k_completed, k_direct, k_buffered_compatibility,
}
use rapidbench.Storage.Tests.{select_storage_execution, k_aio, k_no_execution}
use rapidbench.Storage.Engine.{
  StorageEngine, check, after_check, launch, start, is_valid_request, initial_snapshot,
  initial_results, request_stop, may_stop, make_engine,
}
use rapidbench.Storage.Engine.Runs.{
  System, s_none, s_passed, s_begun, Steps, checks, begins, launches, here, then_step, was_started,
}
use rapidbench.Storage.Engine.Race.{at_rest, start-alone, request_stop-stuck}
use rapidbench.Storage.Run.{StorageTests, Fields, Measured, ready, tests_of, run}
use rapidbench.Storage.Run.Results.{HasResult, run_complete}
use rapidbench.Storage.Blocks.{make_random_offsets, worker_offsets, offsets_loop, block_floor}
use rapidbench.Storage.Blocks.Offsets.{count-make_random_offsets, count-worker_offsets}
use rapidbench.Storage.Prepare.{FileSystem, wrote, unsupported, open_and_prepare_raw_file}
use rapidbench.Storage.Prepare.Writes.{IsPrepared, open_and_prepare_raw_file-IsPrepared}

q8_needs_direct :
    (select_storage_execution k_random4_k_q8_t1_read k_direct ≡ k_aio)
    × (select_storage_execution k_random4_k_q8_t1_read k_buffered_compatibility ≡ k_no_execution)
unfolding select_storage_execution
q8_needs_direct = (refl, refl)

abbrev request : StorageRequest
request = record {
  test = k_sequential_read;
  duration_ms = 3000;
  warmup_ms = 750;
  file_size_mib_override = 0;
}

abbrev engine : StorageEngine whole
engine = make_engine whole (b'd' ∷ [])

starts_at_once : (start whole true true request engine).0 ≡ (pos 0, some 1)
unfolding start after_check check launch is_valid_request initial_snapshot initial_results
starts_at_once = refl

stops_its_run : (request_stop whole 1 (start whole true true request engine).1).0 ≡ pos 0
unfolding start after_check check launch is_valid_request initial_snapshot initial_results
    request_stop may_stop
stops_its_run = refl

offsets_of_a_region : make_random_offsets (λ seed xs. xs) 65536 1 4100 12288 ≡ 4096 ∷ 8192 ∷ []
unfolding make_random_offsets offsets_loop
offsets_of_a_region = refl

abbrev started : StorageEngine whole
started = (start whole true true request engine).1

abbrev under_way : System whole
under_way = record {
  engine = started;
  coordinator = some 1;
  starting = s_none;
  copies = [];
  raised = [];
}

abbrev checked : System whole
checked = record (at_rest whole (b'd' ∷ [])) {
  starting = s_passed request (no_snapshot whole).results;
}

abbrev announced : System whole
announced = record under_way {
  coordinator = none;
  starting = s_begun (initial_snapshot whole request (no_snapshot whole).results engine);
}

start-alone_example :
    (under_way.starting ≡ s_none)
    × ((o h : Bool) (r : StorageRequest)
        → (status : ℤ) × (check whole o r under_way.engine ≡ some status)
          × (start whole o h r under_way.engine ≡ ((status, none), under_way.engine)))
unfolding start after_check check launch is_valid_request initial_snapshot initial_results
start-alone_example =
    start-alone whole (b'd' ∷ []) under_way 1
      (then_step (at_rest whole (b'd' ∷ [])) checked under_way
        (checks (at_rest whole (b'd' ∷ [])) true request refl)
        (then_step checked announced under_way
          (begins checked request (no_snapshot whole).results refl refl)
          (then_step announced under_way under_way
            (launches announced announced.engine.snapshot refl) (here under_way))))
      refl

abbrev last_snapshot : StorageSnapshot whole
last_snapshot = record (no_snapshot whole) { run_id = 1; state = k_completed }

request_stop-stuck_example :
    (z : System whole) × Steps whole under_way z
    × ((w : System whole)
        → Steps whole z w
        → (w.coordinator ≡ none)
          × ((o h : Bool) (r : StorageRequest)
              → was_started whole (start whole o h r w.engine) ≡ false))
unfolding start after_check check launch is_valid_request initial_snapshot initial_results may_stop
request_stop-stuck_example =
    request_stop-stuck whole under_way 1 last_snapshot refl refl refl refl refl

abbrev every_test : StorageRequest
every_test = record request { test = k_all }

abbrev untouched_fields : Fields whole
untouched_fields = record {
  state = (no_snapshot whole).state;
  phase = (no_snapshot whole).phase;
  active_test = (no_snapshot whole).active_test;
  io_mode = (no_snapshot whole).io_mode;
  alignment = (no_snapshot whole).alignment;
  test_file_mib = (no_snapshot whole).test_file_mib;
  block_size = (no_snapshot whole).block_size;
  queue_depth = (no_snapshot whole).queue_depth;
  thread_count = (no_snapshot whole).thread_count;
  current_outstanding = (no_snapshot whole).current_outstanding;
  max_outstanding = (no_snapshot whole).max_outstanding;
  elapsed_ns = (no_snapshot whole).elapsed_ns;
  completed_bytes = (no_snapshot whole).completed_bytes;
  completed_io = (no_snapshot whole).completed_io;
  completed_rows = (no_snapshot whole).completed_rows;
  current_mbps = (no_snapshot whole).current_mbps;
  current_iops = (no_snapshot whole).current_iops;
  current_rows_per_second = (no_snapshot whole).current_rows_per_second;
  progress = (no_snapshot whole).progress;
}

-- Measurements of which those of SQLite fail.
abbrev measurement : Measured whole
measurement = record {
  fields = untouched_fields;
  valid = true;
  tells_stop = true;
  error_code = pos 0;
  elapsed_ns = 1000;
  completed_bytes = 4096;
  completed_io = 1;
  completed_rows = 0;
}

abbrev measurements : StorageTests whole
measurements = record {
  prepare = λ r s. (ready, untouched_fields);
  run_raw = λ t r s. measurement;
  run_sqlite = λ t r s. record measurement { valid = false; error_code = negsuc 37 };
}

run_complete_example :
    ((run whole measurements every_test (λ k. false) 1 (no_snapshot whole)).1.state ≡ k_completed)
    × All
        (HasResult whole
          (run whole measurements every_test (λ k. false) 1 (no_snapshot whole)).1.results)
        (tests_of whole every_test)
run_complete_example =
    run_complete whole measurements every_test (λ k. false) 1 (no_snapshot whole) (λ k. refl) refl
      refl

count-make_random_offsets_example :
    count 8192 (make_random_offsets (λ seed xs. xs) 65536 1 4100 0) ≡ (
      if ((8192 % 4096) == 0) && leb (block_floor 4100) 8192 && ltb 8192 (block_floor 65536)
      then 1
      else 0)
count-make_random_offsets_example =
    count-make_random_offsets (λ seed xs. xs) (λ seed x xs. refl) 65536 1 4100 0 8192 (omega arith)
      (omega arith)

count-worker_offsets_example :
    count 8192 (worker_offsets (λ seed xs. xs) (16 * 1048576) 0)
      + count 8192 (worker_offsets (λ seed xs. xs) (16 * 1048576) 1)
      + count 8192 (worker_offsets (λ seed xs. xs) (16 * 1048576) 2)
      + count 8192 (worker_offsets (λ seed xs. xs) (16 * 1048576) 3)
    ≡ (if ((8192 % 4096) == 0) && ltb 8192 (16 * 1048576) then 1 else 0)
count-worker_offsets_example =
    count-worker_offsets (λ seed xs. xs) (λ seed x xs. refl) 16 8192 (omega arith) (omega arith)

-- A system that takes direct I/O back at the third block.
abbrev refuses_third : FileSystem
refuses_third = record {
  directory_made = true;
  statvfs = some (1000000, 4096);
  opens_direct = true;
  statx = none;
  opens_buffered = true;
  allocates = true;
  truncates = true;
  stop_requested = λ k. false;
  pwrite = λ round offset. if round == 2 then unsupported else wrote;
  reopens = true;
  retruncates = true;
  syncs = true;
}

open_and_prepare_raw_file-IsPrepared_example :
    IsPrepared refuses_third (open_and_prepare_raw_file refuses_third 16)
open_and_prepare_raw_file-IsPrepared_example = open_and_prepare_raw_file-IsPrepared refuses_third 16
