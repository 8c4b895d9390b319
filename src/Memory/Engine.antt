-- ===== src/Memory/Engine.antt =====
-- native/benchmark_core/src/memory_engine.cpp: Start and RequestStop on the fields of MemoryEngine.
pub mod Calls
use rapidbench.Prelude.{
  ℕ, ◌+◌, ◌%◌, ◌^◌, Bool, true, false, not, ◌||◌, ltb, ◌==◌, if◌then◌else◌, Option, none, some,
}
use rapidbench.Prelude.Doubles.{Doubles}
use rapidbench.Prelude.Int.{ℤ, pos, negsuc}
use rapidbench.Memory.Types.{
  MemoryRequest, MemorySnapshot, no_snapshot, is_memory_test, is_over, k_preparing, k_error,
}

abbrev pub status_ok : ℤ
status_ok = pos 0

abbrev pub status_invalid_argument : ℤ
status_invalid_argument = negsuc 0

abbrev pub status_busy : ℤ
status_busy = negsuc 1

abbrev pub status_internal_error : ℤ
status_internal_error = negsuc 2

unfoldable pub is_invalid : MemoryRequest → Bool
is_invalid r =
    ltb r.duration_ms 250
    || ltb 30000 r.duration_ms
    || ltb 5000 r.warmup_ms
    || not (is_memory_test r.test)

module _ (num : Doubles) where
  pub record MemoryEngine : Type 0 where
    pub snapshot : MemorySnapshot num
    pub stop_requested : Bool
    pub next_run_id : ℕ

  unfoldable pub initial_snapshot : MemoryRequest → MemoryEngine → MemorySnapshot num
  initial_snapshot r e = record (no_snapshot num) {
    run_id = e.next_run_id;
    state = k_preparing;
    test = r.test;
  }

  -- The fields when a run begins, and when its thread cannot be made.
  unfoldable pub begun : MemoryRequest → MemoryEngine → MemoryEngine
  begun r e = record {
    snapshot = initial_snapshot r e;
    stop_requested = false;
    next_run_id = (e.next_run_id + 1) % 2 ^ 64;
  }

  unfoldable pub unable : MemoryRequest → MemoryEngine → MemoryEngine
  unable r e = record (begun r e) {
    snapshot = record (initial_snapshot r e) {
      state = k_error;
      error_code = status_internal_error;
    };
  }

  -- `has_out`: the caller's pointer is not null; `has_thread`: a thread can be made.
  unfoldable pub start : Bool → Bool → MemoryRequest → MemoryEngine → (ℤ × Option ℕ) × MemoryEngine
  start has_out has_thread r e =
      if not has_out || is_invalid r
      then ((status_invalid_argument, none), e)
      else if not (is_over e.snapshot.state)
      then ((status_busy, none), e)
      else if has_thread
      then ((status_ok, some e.next_run_id), begun r e)
      else ((status_internal_error, none), unable r e)

  unfoldable pub request_stop : ℕ → MemoryEngine → ℤ × MemoryEngine
  request_stop run_id e =
      if (run_id == 0) || not (e.snapshot.run_id == run_id)
      then (status_invalid_argument, e)
      else (status_ok, record e { stop_requested = true })
