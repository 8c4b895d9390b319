-- ===== src/CpuApplication/Engine.antt =====
-- native/benchmark_core/src/cpu_application_engine.cpp: Start and Stop of CpuApplicationEngine::Impl.
use rapidbench.Prelude.{
  ℕ, ◌+◌, ◌%◌, ◌^◌, Bool, true, false, not, ◌||◌, ltb, ◌==◌, if◌then◌else◌, Option, none, some,
}
use rapidbench.Prelude.Doubles.{Doubles}
use rapidbench.Prelude.Int.{ℤ, pos, negsuc}
use rapidbench.Cpu.Types.{is_running, k_preparing, k_error}
use rapidbench.Workload.Application.{CpuApplicationTest, k_sort, k_json, k_sobel, k_other}
use rapidbench.CpuApplication.Types.{CpuApplicationRequest, CpuApplicationSnapshot, no_snapshot}

-- A test that can be started.
abbrev pub is_application_test : CpuApplicationTest → Bool
is_application_test k_sort = true
is_application_test k_json = true
is_application_test k_sobel = true
is_application_test k_other = false

unfoldable pub is_invalid : CpuApplicationRequest → Bool
is_invalid r =
    not (is_application_test r.test)
    || ltb r.duration_ms 100
    || ltb 60000 r.duration_ms
    || ltb 30000 r.warmup_ms
    || ltb 1 r.requested_threads

module _ (num : Doubles) where
  pub record CpuApplicationEngine : Type 0 where
    pub snapshot : CpuApplicationSnapshot num
    pub stop : Bool
    pub next_id : ℕ

  unfoldable pub first_snapshot :
      CpuApplicationRequest → CpuApplicationEngine → CpuApplicationSnapshot num
  first_snapshot r e = record (no_snapshot num) {
    run_id = e.next_id;
    state = k_preparing;
    test = r.test;
    requested_threads = r.requested_threads;
  }

  -- The fields when a run begins; `failed`: its thread could not be made.
  unfoldable pub begun : Bool → CpuApplicationRequest → CpuApplicationEngine → CpuApplicationEngine
  begun failed r e =
      let s = first_snapshot r e in
      record {
        snapshot = if failed then record s { state = k_error; error_code = negsuc 10 } else s;
        stop = false;
        next_id = (e.next_id + 1) % 2 ^ 64;
      }

  -- The run's number is written before the thread is made.
  unfoldable pub start :
      Bool
      → Bool
      → CpuApplicationRequest
      → CpuApplicationEngine
      → (ℤ × Option ℕ) × CpuApplicationEngine
  start has_id has_thread r e =
      if not has_id || is_invalid r
      then ((negsuc 0, none), e)
      else if is_running e.snapshot.state
      then ((negsuc 1, none), e)
      else ((if has_thread then pos 0 else negsuc 10, some e.next_id), begun (not has_thread) r e)

  unfoldable pub stop_run : ℕ → CpuApplicationEngine → ℤ × CpuApplicationEngine
  stop_run id e =
      if (id == 0) || not (id == e.snapshot.run_id)
      then (negsuc 0, e)
      else if is_running e.snapshot.state
      then (pos 0, record e { stop = true })
      else (pos 0, e)
