-- ===== src/Storage/Run.antt =====
-- native/benchmark_core/src/storage_engine.cpp: StorageEngine::Run, the coordinator of a run. What it
-- calls to prepare the file and to measure is an interface; the stop flag, which another thread sets,
-- is the answer to each look at it.
pub mod Results
use rapidbench.Prelude.{
  ℕ, zero, suc, ◌+◌, ◌*◌, ◌≡◌, Bool, true, false, not, ◌||◌, ◌&&◌, ◌==◌, if◌then◌else◌, Option,
  none, some, List, [], ◌∷◌, ◌++◌, set,
}
use rapidbench.Prelude.Int.{ℤ, pos, negsuc, eqb_ℤ}
use rapidbench.Prelude.Doubles.{Doubles, is_positive}
use rapidbench.Storage.Types.{
  StorageTest, k_none, k_sequential_read, k_sequential_write, k_random4_k_q1_t1_read,
  k_random4_k_q1_t1_write, k_random4_k_q8_t1_read, k_random4_k_q8_t1_write, k_random4_k_q1_t4_read,
  k_random4_k_q1_t4_write, k_sqlite_insert, k_sqlite_update, k_sqlite_delete, k_all, same_test,
  StorageState, k_completed, k_stopped, k_error, StoragePhase, StorageIoMode, k_no_phase,
  StorageRequest, StorageResult, StorageSnapshot,
}
use rapidbench.Storage.Tests.{is_raw_test, result_index}

module _ (num : Doubles) where
  -- `MakeResult`.
  unfoldable pub make_result :
      StorageSnapshot num → StorageTest → Bool → Bool → ℤ → ℕ → ℕ → ℕ → ℕ → StorageResult num
  make_result s test valid stopped error elapsed bytes io rows =
      let seconds = num.quotient (num.of_word elapsed) (num.of_word 1000000000) in
      let some_time = is_positive num seconds in
      let zero_rate = num.of_word 0 in
      record {
        test = test;
        valid = valid;
        stopped = stopped;
        io_mode = s.io_mode;
        error_code = error;
        thread_count = s.thread_count;
        queue_depth = s.queue_depth;
        max_outstanding = s.max_outstanding;
        elapsed_ns = elapsed;
        completed_bytes = bytes;
        completed_io = io;
        completed_rows = rows;
        mbps =
            if some_time
            then num.quotient (num.quotient (num.of_word bytes) (num.of_word 1000000)) seconds
            else zero_rate;
        iops = if some_time then num.quotient (num.of_word io) seconds else zero_rate;
        rows_per_second = if some_time then num.quotient (num.of_word rows) seconds else zero_rate;
      }

  -- What SetState, UpdateProgress and the code around them write into the context's snapshot while a
  -- file is prepared or a test measured.
  pub record Fields : Type 0 where
    pub state : StorageState
    pub phase : StoragePhase
    pub active_test : StorageTest
    pub io_mode : StorageIoMode
    pub alignment : ℕ
    pub test_file_mib : ℕ
    pub block_size : ℕ
    pub queue_depth : ℕ
    pub thread_count : ℕ
    pub current_outstanding : ℕ
    pub max_outstanding : ℕ
    pub elapsed_ns : ℕ
    pub completed_bytes : ℕ
    pub completed_io : ℕ
    pub completed_rows : ℕ
    pub current_mbps : num.Double
    pub current_iops : num.Double
    pub current_rows_per_second : num.Double
    pub progress : num.Double

  abbrev pub set_fields : Fields → StorageSnapshot num → StorageSnapshot num
  set_fields f s = record s {
    state = f.state;
    phase = f.phase;
    active_test = f.active_test;
    io_mode = f.io_mode;
    alignment = f.alignment;
    test_file_mib = f.test_file_mib;
    block_size = f.block_size;
    queue_depth = f.queue_depth;
    thread_count = f.thread_count;
    current_outstanding = f.current_outstanding;
    max_outstanding = f.max_outstanding;
    elapsed_ns = f.elapsed_ns;
    completed_bytes = f.completed_bytes;
    completed_io = f.completed_io;
    completed_rows = f.completed_rows;
    current_mbps = f.current_mbps;
    current_iops = f.current_iops;
    current_rows_per_second = f.current_rows_per_second;
    progress = f.progress;
  }

  -- What OpenAndPrepareRawFile answers: the error that it stores, if it stores one, or that the file
  -- is ready.
  pub data Prepared : Type 0 where
    ready : Prepared
    failed : Option ℤ → Prepared

  -- How a measurement comes back: it is `return MakeResult(context, test, …)` at every place, with
  -- these arguments, and `stopped` is false or the answer to a look at the stop flag.
  pub record Measured : Type 0 where
    pub fields : Fields
    pub valid : Bool
    pub tells_stop : Bool
    pub error_code : ℤ
    pub elapsed_ns : ℕ
    pub completed_bytes : ℕ
    pub completed_io : ℕ
    pub completed_rows : ℕ

  -- What the system lets OpenAndPrepareRawFile, RunRawTest and RunSqliteTest come to.
  pub record StorageTests : Type 0 where
    pub prepare : StorageRequest → StorageSnapshot num → Prepared × Fields
    pub run_raw : StorageTest → StorageRequest → StorageSnapshot num → Measured
    pub run_sqlite : StorageTest → StorageRequest → StorageSnapshot num → Measured

  -- The return of a measurement, with the answer to its look at the flag.
  unfoldable pub measured :
      StorageTest → Bool → StorageSnapshot num → Measured → StorageResult num × StorageSnapshot num
  measured t stop s m =
      let s' = set_fields m.fields s in
      (
        make_result s' t m.valid (m.tells_stop && stop) m.error_code m.elapsed_ns m.completed_bytes
            m.completed_io m.completed_rows,
        s',
      )

  -- The variables of Run, with the snapshots that it has published itself.
  pub record Progress : Type 0 where
    pub snapshot : StorageSnapshot num
    pub raw_prepared : Bool
    pub raw_unavailable : Bool
    pub final_error : ℤ
    pub published : List (StorageSnapshot num)

  unfoldable pub tests_of : StorageRequest → List StorageTest
  tests_of r =
      if same_test r.test k_all
      then k_sequential_write ∷ k_sequential_read ∷ k_random4_k_q1_t1_read ∷ k_random4_k_q1_t1_write
        ∷ k_random4_k_q8_t1_read ∷ k_random4_k_q8_t1_write ∷ k_random4_k_q1_t4_read
        ∷ k_random4_k_q1_t4_write ∷ k_sqlite_insert ∷ k_sqlite_update ∷ k_sqlite_delete ∷ []
      else r.test ∷ []

  module _ (tests : StorageTests) (r : StorageRequest) where
    unfoldable pub after_prepare : Prepared → Progress → Progress
    after_prepare ready p = record p { raw_prepared = true }
    after_prepare (failed none) p = record p { raw_unavailable = true }
    after_prepare (failed (some error)) p = record p { raw_unavailable = true; final_error = error }

    -- The file is made once, for the first test that needs it.
    unfoldable pub prepare_raw : Progress → Progress
    prepare_raw p =
        if p.raw_prepared || p.raw_unavailable
        then p
        else (let (outcome, fields) = tests.prepare r p.snapshot in
            after_prepare outcome (record p { snapshot = set_fields fields p.snapshot }))

    -- Whether the preparation has just failed: only then is the flag looked at again.
    unfoldable pub just_failed : Progress → Progress → Bool
    just_failed before after = not before.raw_unavailable && after.raw_unavailable

    unfoldable pub run_one : StorageTest → Bool → Progress → StorageResult num × StorageSnapshot num
    run_one t stop p =
        if is_raw_test t
        then if p.raw_prepared
          then measured t stop p.snapshot (tests.run_raw t r p.snapshot)
          else (make_result p.snapshot t false false p.final_error 0 0 0 0, p.snapshot)
        else measured t stop p.snapshot (tests.run_sqlite t r p.snapshot)

    -- `if (result.test == StorageTest::kNone)`.
    unfoldable pub named : StorageTest → ℤ → StorageResult num → StorageResult num
    named t error result =
        if same_test result.test k_none
        then record result { test = t; error_code = error }
        else result

    -- The result is stored and published, and its error kept.
    unfoldable pub keep_result :
        StorageTest → StorageResult num → StorageSnapshot num → Progress → Progress
    keep_result t result s p =
        let s' = record s { results = set s.results (result_index t) result } in
        record p {
          snapshot = s';
          final_error =
              if eqb_ℤ result.error_code (pos 0) then p.final_error else result.error_code;
          published = p.published ++ (s' ∷ []);
        }

    -- Whether the loop is left behind a result.
    unfoldable pub leaves : Bool → StorageResult num → Bool
    leaves stop result =
        (not (eqb_ℤ result.error_code (pos 0)) && not (same_test r.test k_all))
        || result.stopped
        || stop

    -- The body from the measurement on.
    unfoldable pub measure_test : StorageTest → Bool → Progress → StorageResult num × Progress
    measure_test t stop p =
        let (raw, s) = run_one t stop p in
        let result = named t p.final_error raw in (result, keep_result t result s p)

    unfoldable pub prepared_for : StorageTest → Progress → Progress
    prepared_for t p = if is_raw_test t then prepare_raw p else p

    -- The loop over the tests. `stop k` is the answer to the k-th look at the flag; where a
    -- condition is decided before it comes to its look, that answer is passed over.
    unfoldable pub run_tests : (ℕ → Bool) → ℕ → List StorageTest → Progress → ℕ × Progress
    run_tests stop k [] p = (k, p)
    run_tests stop k (t ∷ ts) p =
        let q = prepared_for t p in
        let looked = if just_failed p q then k + 2 else k + 1 in
        let (result, q') = measure_test t (stop looked) q in
        let rest = run_tests stop (looked + 2) ts q' in
        if stop k
        then (k + 1, p)
        else if just_failed p q && stop (k + 1)
        then (k + 2, q)
        else if leaves (stop (looked + 1)) result
        then (looked + 2, q')
        else rest

    -- The last snapshot.
    unfoldable pub final_snapshot : Bool → Progress → StorageSnapshot num
    final_snapshot stop p =
        let s = record p.snapshot {
          active_test = k_none;
          phase = k_no_phase;
          current_outstanding = 0;
          progress = num.of_word 1;
        } in
        if stop
        then record s { state = k_stopped }
        else if not (eqb_ℤ p.final_error (pos 0)) && not (same_test r.test k_all)
        then record s { state = k_error; error_code = p.final_error }
        else record s { state = k_completed }

    -- The run, from what GetSnapshot gives: the snapshots that Run publishes, in order.
    unfoldable pub run :
        (ℕ → Bool) → ℕ → StorageSnapshot num → List (StorageSnapshot num) × StorageSnapshot num
    run stop run_id s =
        let begun : Progress = record {
          snapshot = record s { run_id = run_id };
          raw_prepared = false;
          raw_unavailable = false;
          final_error = pos 0;
          published = [];
        } in
        let (k, p) = run_tests stop 0 (tests_of r) begun in (p.published, final_snapshot (stop k) p)
