-- ===== src/Storage/Engine.antt =====
-- native/benchmark_core/src/storage_engine.cpp: Start, RequestStop and Publish of StorageEngine. A
-- call is a function of the engine's fields. Start's wait for an earlier coordinator changes none
-- of them, since it comes behind the look at a terminal state.
pub mod Race
pub mod Runs
use rapidbench.Prelude.{
  ℕ, ◌+◌, ◌%◌, ◌^◌, Bool, true, false, not, ◌||◌, ◌&&◌, leb, ltb, ◌==◌, if◌then◌else◌, Option, none,
  some, List, is_empty, set, replicate,
}
use rapidbench.Prelude.Int.{ℤ, pos, negsuc}
use rapidbench.Prelude.Doubles.{Doubles}
use rapidbench.Storage.Types.{
  StorageTest, k_sequential_read, k_all, test_number, same_test, StorageState, k_preparing,
  k_stopping, k_error, k_idle, StoragePhase, k_prepare, StorageRequest, StorageResult, no_result,
  StorageSnapshot, no_snapshot,
}
use rapidbench.Storage.Tests.{is_terminal, result_index}

abbrev pub status_ok : ℤ
status_ok = pos 0

abbrev pub status_invalid_argument : ℤ
status_invalid_argument = negsuc 0

abbrev pub status_busy : ℤ
status_busy = negsuc 1

abbrev pub status_internal_error : ℤ
status_internal_error = negsuc 2

module _ (num : Doubles) where
  pub record StorageEngine : Type 0 where
    pub directory : List ℕ
    pub snapshot : StorageSnapshot num
    pub stop_requested : Bool
    pub next_run_id : ℕ

  -- The constructor.
  abbrev pub make_engine : List ℕ → StorageEngine
  make_engine directory = record {
    directory = directory;
    snapshot = no_snapshot num;
    stop_requested = false;
    next_run_id = 1;
  }

  abbrev pub publish : StorageSnapshot num → StorageEngine → StorageEngine
  publish s e = record e { snapshot = s }

  unfoldable pub is_valid_request : StorageEngine → StorageRequest → Bool
  is_valid_request e r = not (
      is_empty e.directory
      || ltb r.duration_ms 250
      || ltb 30000 r.duration_ms
      || ltb 5000 r.warmup_ms
      || (ltb (test_number r.test) (test_number k_sequential_read)
          || ltb (test_number k_all) (test_number r.test)))

  -- The results that a run begins with.
  unfoldable pub initial_results :
      StorageRequest → List (StorageResult num) → List (StorageResult num)
  initial_results r results =
      if same_test r.test k_all
      then replicate 11 (no_result num)
      else set results (result_index r.test) (record (no_result num) { test = r.test })

  -- The first snapshot of a run, with the results that Start has read.
  unfoldable pub initial_snapshot :
      StorageRequest → List (StorageResult num) → StorageEngine → StorageSnapshot num
  initial_snapshot r results e = record (no_snapshot num) {
    run_id = e.next_run_id;
    state = k_preparing;
    phase = k_prepare;
    active_test = r.test;
    results = initial_results r results;
  }

  -- Start up to the end of its first lock: the status it refuses with, or nothing. `has_out` says that
  -- the caller's pointer is not null.
  unfoldable pub check : Bool → StorageRequest → StorageEngine → Option ℤ
  check has_out r e =
      if not (has_out && is_valid_request e r)
      then some status_invalid_argument
      else if not (is_terminal e.snapshot.state)
      then some status_busy
      else none

  -- From behind the join up to Publish. A RequestStop that raises the flag between the store and Publish
  -- might as well raise it behind Publish.
  abbrev pub begun : StorageRequest → List (StorageResult num) → StorageEngine → StorageEngine
  begun r results e = record e {
    snapshot = initial_snapshot r results e;
    stop_requested = false;
    next_run_id = (e.next_run_id + 1) % 2 ^ 64;
  }

  -- The thread of the coordinator could not be made.
  abbrev pub unable : StorageSnapshot num → StorageEngine → StorageEngine
  unable initial e =
      publish (record initial { state = k_error; error_code = status_internal_error }) e

  -- The rest of Start, by whether the thread could be made: the status, the run's number where it is
  -- written, and the fields.
  unfoldable pub launch :
      Bool → StorageSnapshot num → StorageEngine → (ℤ × Option ℕ) × StorageEngine
  launch has_thread initial e =
      if has_thread
      then ((status_ok, some initial.run_id), e)
      else ((status_internal_error, none), unable initial e)

  unfoldable pub after_check :
      Bool → StorageRequest → StorageEngine → Option ℤ → (ℤ × Option ℕ) × StorageEngine
  after_check has_thread r e (some status) = ((status, none), e)
  after_check has_thread r e none =
      launch has_thread (initial_snapshot r e.snapshot.results e) (begun r e.snapshot.results e)

  -- A Start with nothing in between.
  unfoldable pub start :
      Bool → Bool → StorageRequest → StorageEngine → (ℤ × Option ℕ) × StorageEngine
  start has_out has_thread r e = after_check has_thread r e (check has_out r e)

  -- What RequestStop finds out from the copy that GetSnapshot gives it.
  unfoldable pub may_stop : ℕ → StorageSnapshot num → Bool
  may_stop run_id s = not ((run_id == 0) || not (s.run_id == run_id) || is_terminal s.state)

  -- What it then does with that copy: the store, and Publish.
  abbrev pub raise_stop : StorageEngine → StorageEngine
  raise_stop e = record e { stop_requested = true }

  unfoldable pub publish_stopping : StorageSnapshot num → StorageEngine → StorageEngine
  publish_stopping copy e = publish (record copy { state = k_stopping }) e

  -- The call, when nothing comes in between.
  unfoldable pub request_stop : ℕ → StorageEngine → ℤ × StorageEngine
  request_stop run_id e =
      if may_stop run_id e.snapshot
      then (status_ok, publish_stopping e.snapshot (raise_stop e))
      else (status_invalid_argument, e)
