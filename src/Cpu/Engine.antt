-- ===== src/Cpu/Engine.antt =====
-- native/benchmark_core/src/engine.cpp: Start, RequestStop and the Publish functions of Engine::Impl,
-- as functions of its fields. RequestStop and each Publish act under one lock. Start checks under one
-- lock and, once the last coordinator is joined, writes under another: `check` and `begin`.
pub mod Runs
pub mod Alone
use Prim.Native.Nat.{bit_or}
use rapidbench.Prelude.{
  ℕ, ◌+◌, ◌*◌, ◌%◌, ◌^◌, Bool, true, false, not, ◌||◌, ◌&&◌, Option, none, some, List, ltb, min,
  ◌==◌, if◌then◌else◌,
}
use rapidbench.Prelude.Doubles.{Doubles, zero_double, smaller, larger}
use rapidbench.Prelude.Int.{ℤ, pos, negsuc}
use rapidbench.Cpu.Types.{
  State, k_preparing, k_error, Phase, k_none, TestId, Request, Snapshot, no_snapshot, is_running,
  is_cpu_test, maximum_telemetry_performance_groups, maximum_benchmark_threads,
}
use rapidbench.Cpu.Telemetry.{Totals, Peaks, pack_telemetry, utilization_of}

abbrev pub k_ok : ℤ
k_ok = pos 0

abbrev pub k_invalid_argument : ℤ
k_invalid_argument = negsuc 0

abbrev pub k_busy : ℤ
k_busy = negsuc 1

abbrev pub quality_affinity_failed : ℕ
quality_affinity_failed = 65536

module _ (num : Doubles) where
  pub record Engine : Type 0 where
    pub snapshot : Snapshot num
    pub stop_requested : Bool
    pub next_run_id : ℕ
    pub checksum_sink : ℕ

  abbrev pub new_engine : Engine
  new_engine = record {
    snapshot = no_snapshot num;
    stop_requested = false;
    next_run_id = 1;
    checksum_sink = 0;
  }

  unfoldable pub is_invalid : Request → Bool
  is_invalid r =
      not (is_cpu_test r.test_id)
      || ltb r.duration_ms 100
      || ltb 60000 r.duration_ms
      || ltb 30000 r.warmup_ms
      || ltb maximum_benchmark_threads r.requested_threads

  -- The fields when a run begins.
  abbrev pub begun : Request → Engine → Engine
  begun r e = record e {
    snapshot = record (no_snapshot num) {
      run_id = e.next_run_id;
      state = k_preparing;
      test_id = r.test_id;
    };
    stop_requested = false;
    next_run_id = (e.next_run_id + 1) % 2 ^ 64;
  }

  -- How Start comes back: with a status and the run's number where it is written, or by an exception
  -- of std::thread.
  pub data Started : Type 0 where
    returns : ℤ → Option ℕ → Started
    throws : ℕ → Started

  -- Start up to the end of its first lock: the status it refuses with, or nothing. `has_out`: the
  -- caller's pointer is not null.
  unfoldable pub check : Bool → Request → Engine → Option ℤ
  check has_out r e =
      if not has_out || is_invalid r
      then some k_invalid_argument
      else if is_running e.snapshot.state
      then some k_busy
      else none

  -- Start from behind the join on. `has_thread`: a thread can be made. The flag and the number, which it
  -- writes before its second lock, are written by nobody else while no run is under way.
  unfoldable pub begin : Bool → Request → Engine → Started × Engine
  begin has_thread r e =
      if has_thread
      then (returns k_ok (some e.next_run_id), begun r e)
      else (throws e.next_run_id, begun r e)

  unfoldable pub after_check : Bool → Request → Engine → Option ℤ → Started × Engine
  after_check has_thread r e (some status) = (returns status none, e)
  after_check has_thread r e none = begin has_thread r e

  -- A Start with nothing in between.
  unfoldable pub start : Bool → Bool → Request → Engine → Started × Engine
  start has_out has_thread r e = after_check has_thread r e (check has_out r e)

  unfoldable pub request_stop : ℕ → Engine → ℤ × Engine
  request_stop run_id e =
      if (run_id == 0) || not (run_id == e.snapshot.run_id)
      then (k_invalid_argument, e)
      else if is_running e.snapshot.state
      then (k_ok, record e { stop_requested = true })
      else (k_ok, e)

  -- What is published is for a run; if another one has taken its place, nothing changes.
  unfoldable pub update : ℕ → (Engine → Engine) → Engine → Engine
  update run_id f e = if not (e.snapshot.run_id == run_id) then e else f e

  unfoldable pub publish_configuration : ℕ → TestId → ℕ → ℤ → ℕ → Engine → Engine
  publish_configuration run_id test_id thread_count selected_cpu quality_flags = update run_id λ e.
      record e {
        snapshot = record e.snapshot {
          test_id = test_id;
          thread_count = thread_count;
          selected_cpu = selected_cpu;
          quality_flags = quality_flags;
        };
      }

  unfoldable pub publish_affinity : ℕ → ℕ → Engine → Engine
  publish_affinity run_id failures = update run_id λ e. record e {
    snapshot = record e.snapshot {
      affinity_failures = failures;
      quality_flags =
          if failures == 0
          then e.snapshot.quality_flags
          else bit_or e.snapshot.quality_flags quality_affinity_failed;
    };
  }

  unfoldable pub publish_telemetry : ℕ → Peaks → ℕ → Totals → ℕ → Bool → Bool → Engine → Engine
  publish_telemetry run_id peaks group_count totals worker_count hint_active request_active =
      update run_id λ e. record e {
        snapshot = record e.snapshot {
          telemetry =
              pack_telemetry peaks.highest (utilization_of totals worker_count) hint_active
                (not (totals.affinity_checks == 0)) request_active;
          peak_frequency_group_count = min group_count maximum_telemetry_performance_groups;
          peak_frequency_khz_by_group = peaks.by_group;
        };
      }

  unfoldable pub add_quality_flag : ℕ → ℕ → Engine → Engine
  add_quality_flag run_id flag = update run_id λ e. record e {
    snapshot = record e.snapshot { quality_flags = bit_or e.snapshot.quality_flags flag };
  }

  unfoldable pub publish_state : ℕ → State → Phase → Engine → Engine
  publish_state run_id state phase =
      update run_id λ e. record e { snapshot = record e.snapshot { state = state; phase = phase } }

  unfoldable pub publish_measurement :
      ℕ → ℕ → ℕ → num.Double → num.Double → num.Double → num.Double → ℕ → Engine → Engine
  publish_measurement run_id elapsed_ns work score progress variation peak checksum =
      update run_id λ e. record e {
        snapshot = record e.snapshot {
          elapsed_ns = elapsed_ns;
          completed_work = work;
          current_value = score;
          progress = smaller num (larger num progress (zero_double num)) (num.of_word 1);
          score_variation = variation;
          peak_score = peak;
        };
        checksum_sink = checksum;
      }

  unfoldable pub publish_error : ℕ → ℤ → Engine → Engine
  publish_error run_id code = update run_id λ e. record e {
    snapshot = record e.snapshot { state = k_error; phase = k_none; error_code = code };
  }
