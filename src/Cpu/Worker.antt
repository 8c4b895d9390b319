-- ===== src/Cpu/Worker.antt =====
-- native/benchmark_core/src/engine.cpp: RunWorker, PinWorkerWithRetry and CheckWorkerCpu.
pub mod Work
use Prim.Native.Nat.{bit_xor}
use rapidbench.Prelude.{
  ℕ, zero, suc, ◌+◌, ◌-◌, ◌*◌, ◌%◌, ◌^◌, Bool, true, false, List, [], ◌∷◌, leb, if◌then◌else◌,
}
use rapidbench.Prelude.Int.{ℤ, pos, negsuc, signed32, eqb_ℤ}
use rapidbench.Cpu.Telemetry.{WorkerContext}
use rapidbench.Cpu.Workload.{
  Floats, CpuWorkloadState, initialize_cpu_workload, run_cpu_workload_batch,
}

abbrev pub batches_per_scheduling_check : ℕ
batches_per_scheduling_check = 8

abbrev pub affinity_check_batches : ℕ
affinity_check_batches = 256

abbrev pub affinity_pin_attempts : ℕ
affinity_pin_attempts = 4

abbrev pub work_units_per_batch : ℕ
work_units_per_batch = 1024

-- `pins` says which attempts to pin the thread succeed.
unfoldable pub pin_attempts : ℕ → ℕ → (ℕ → Bool) → Bool
pin_attempts zero attempt pins = false
pin_attempts (suc n) attempt pins =
    let later = pin_attempts n (attempt + 1) pins in if pins attempt then true else later

unfoldable pub pin_worker_with_retry : (ℕ → Bool) → WorkerContext → WorkerContext
pin_worker_with_retry pins w = record w { affinity_ok = pin_attempts affinity_pin_attempts 0 pins }

-- `actual_cpu` is the CPU that the thread runs on, negative if it is unknown.
unfoldable pub check_worker_cpu : ℤ → (ℕ → Bool) → WorkerContext → WorkerContext
check_worker_cpu (negsuc n) pins w = w
check_worker_cpu (pos actual_cpu) pins w =
    let checked = record w { affinity_checks = (w.affinity_checks + 1) % 2 ^ 32 } in
    if eqb_ℤ (pos actual_cpu) (signed32 w.logical_cpu)
    then checked
    else pin_worker_with_retry pins (record checked { affinity_violated = true })

-- What the system answers in one round of a loop: for the pinning of a worker that is not pinned, and
-- for the check.
pub record Round : Type 0 where
  pub pins : ℕ → Bool
  pub actual_cpu : ℤ
  pub check_pins : ℕ → Bool

unfoldable pub check_or_pin : Round → WorkerContext → WorkerContext
check_or_pin r w =
    if w.affinity_ok
    then check_worker_cpu r.actual_cpu r.check_pins w
    else pin_worker_with_retry r.check_pins w

-- Every 256 batches the scheduling is checked; `since` counts the batches since then.
unfoldable pub check_if_due : Round → ℕ → WorkerContext → WorkerContext × ℕ
check_if_due r since w =
    let batches = since + batches_per_scheduling_check in
    if leb affinity_check_batches batches then (check_or_pin r w, 0) else (w, batches)

unfoldable pub repin : Round → WorkerContext → WorkerContext
repin r w = if w.affinity_ok then w else pin_worker_with_retry r.pins w

unfoldable pub with_work : ℕ → WorkerContext → WorkerContext
with_work work w = record w { completed_work = work }

module _ (num : Floats) where
  unfoldable pub run_batches : ℕ → CpuWorkloadState num → CpuWorkloadState num
  run_batches zero s = s
  run_batches (suc n) s = run_batches n (run_cpu_workload_batch num s)

  -- A worker in one of its loops.
  pub record Working : Type 0 where
    pub context : WorkerContext
    pub workload : CpuWorkloadState num
    pub since : ℕ
    pub local_work : ℕ

  -- The loops, on what the system answers in each of their rounds.
  unfoldable pub warm_up : List Round → Working → Working
  warm_up [] y = y
  warm_up (r ∷ rs) y =
      let (context, since) = check_if_due r y.since (repin r y.context) in
      warm_up rs (record y {
        context = context;
        workload = run_batches batches_per_scheduling_check y.workload;
        since = since;
      })

  unfoldable pub measure_rounds : List Round → Working → Working
  measure_rounds [] y = y
  measure_rounds (r ∷ rs) y =
      let work = (y.local_work + work_units_per_batch * batches_per_scheduling_check) % 2 ^ 64 in
      let (context, since) = check_if_due r y.since (with_work work y.context) in
      measure_rounds rs (record {
        context = context;
        workload = run_batches batches_per_scheduling_check y.workload;
        since = since;
        local_work = work;
      })

  -- A whole run, as the system and the coordinator determine it; times are nanoseconds.
  pub record Course : Type 0 where
    pub performance_request_ok : Bool
    pub first : Round
    pub warm_up_rounds : List Round
    pub stopped_before_pin : Bool
    pub middle : Round
    pub stopped_at_gate : Bool
    pub measurement_rounds : List Round
    pub measurement_start : ℕ
    pub end : ℕ
    pub cpu_time_start : ℕ
    pub cpu_time_end : ℕ
    pub last : Round

  -- Before the first gate.
  unfoldable pub prepare_worker : Course → WorkerContext → WorkerContext
  prepare_worker c w =
      let asked = record w { performance_request_ok = c.performance_request_ok } in
      let pinned = pin_worker_with_retry c.first.pins asked in
      if pinned.affinity_ok
      then check_worker_cpu c.first.actual_cpu c.first.check_pins pinned
      else pinned

  unfoldable pub cpu_time : Course → WorkerContext → WorkerContext
  cpu_time c w =
      if leb c.cpu_time_start c.cpu_time_end
      then record w { thread_cpu_time_ns = c.cpu_time_end - c.cpu_time_start }
      else w

  unfoldable pub last_check : Course → WorkerContext → WorkerContext
  last_check c w =
      if w.affinity_ok then check_worker_cpu c.last.actual_cpu c.last.check_pins w else w

  unfoldable pub with_checksum : ℕ → WorkerContext → WorkerContext
  with_checksum checksum w = record w { checksum = checksum }

  -- After the measuring loop.
  unfoldable pub publish_worker : Course → Working → WorkerContext
  publish_worker c y =
      let done = record y.context {
        completed_work = y.local_work;
        elapsed_ns = c.end - c.measurement_start;
      } in
      with_checksum y.workload.checksum (last_check c (cpu_time c done))

  -- At the end of the warm-up.
  unfoldable pub warmed : Course → ℕ → WorkerContext → Working
  warmed c seed w = warm_up c.warm_up_rounds (record {
    context = prepare_worker c w;
    workload = initialize_cpu_workload num (bit_xor seed w.logical_cpu);
    since = 0;
    local_work = 0;
  })

  unfoldable pub pinned_again : Course → WorkerContext → WorkerContext
  pinned_again c w = if c.stopped_before_pin then w else pin_worker_with_retry c.middle.pins w

  unfoldable pub measured : Course → Working → Working
  measured c y = measure_rounds c.measurement_rounds (record y {
    context = record (pinned_again c y.context) { affinity_violated = false };
    since = 0;
  })

  -- What the worker has published when it returns, and whether it counts itself as finished.
  unfoldable pub run_worker : Course → ℕ → WorkerContext → WorkerContext × Bool
  run_worker c seed w =
      let warm = warmed c seed w in
      if c.stopped_at_gate
      then (with_checksum warm.workload.checksum (pinned_again c warm.context), false)
      else (publish_worker c (measured c warm), true)
