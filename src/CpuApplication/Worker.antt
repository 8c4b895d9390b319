-- ===== src/CpuApplication/Worker.antt =====
-- native/benchmark_core/src/cpu_application_engine.cpp: RunWorker on a workload.
pub mod Valid
use rapidbench.Prelude.{
  ℕ, zero, suc, ◌+◌, ◌-◌, ◌%◌, ◌^◌, Bool, true, false, not, ◌&&◌, ◌||◌, List, [], ◌∷◌, leb, ◌==◌,
  if◌then◌else◌, Option, none, some,
}
use rapidbench.Prelude.Int.{ℤ, pos, negsuc, signed32, eqb_ℤ, ltb_ℤ}
use rapidbench.Workload.Json.{◌>>=◌}
use rapidbench.Workload.Application.{CpuApplicationWorkload, run_batch, validate}

-- What a worker keeps; its failures are added to the gate by Fail.
pub record Worker : Type 0 where
  pub cpu : ℕ
  pub workload : CpuApplicationWorkload
  pub units : ℕ
  pub elapsed : ℕ
  pub last_batch_ns : ℕ
  pub affinity_failed : Bool
  pub performance_requested : Bool

-- What the system answers around one measured batch; times are nanoseconds of one clock.
pub record Round : Type 0 where
  pub batch_start : ℕ
  pub last_end : ℕ
  pub actual_cpu : ℤ
  pub pins : Bool

-- Of a whole run. A worker passes a gate if it finds it open and no stop requested.
pub record Course : Type 0 where
  pub performance_requested : Bool
  pub pins : Bool
  pub passes_first_gate : Bool
  pub warm_up_batches : ℕ
  pub passes_second_gate : Bool
  pub start : ℕ
  pub rounds : List Round

-- The loop of the measurement.
pub record Measuring : Type 0 where
  pub worker : Worker
  pub pinned : Bool
  pub next_affinity_check : ℕ
  pub last_end : ℕ
  pub units : ℕ

unfoldable pub warm_up : ℕ → CpuApplicationWorkload → Option CpuApplicationWorkload
warm_up zero w = some w
warm_up (suc n) w = run_batch w >>= λ (units, v). warm_up n v

unfoldable pub is_astray : Round → Measuring → Bool
is_astray r y =
    not y.pinned
    || (not (ltb_ℤ r.actual_cpu (pos 0)) && not (eqb_ℤ r.actual_cpu (signed32 y.worker.cpu)))

unfoldable pub check_affinity : Round → Measuring → Measuring
check_affinity r y =
    let checked = record y { next_affinity_check = r.last_end + 100000000 } in
    if not (leb y.next_affinity_check r.last_end)
    then y
    else if is_astray r y
    then record checked { worker = record y.worker { affinity_failed = true }; pinned = r.pins }
    else checked

-- What a measured batch leaves.
unfoldable pub after_batch : Round → ℕ → CpuApplicationWorkload → Measuring → Measuring
after_batch r units v y =
    let sum = (y.units + units) % 2 ^ 64 in
    check_affinity r (record y {
      worker = record y.worker {
        workload = v;
        units = sum;
        last_batch_ns = r.last_end - r.batch_start;
      };
      last_end = r.last_end;
      units = sum;
    })

unfoldable pub measure : List Round → Measuring → Option Measuring
measure [] y = some y
measure (r ∷ rs) y =
    run_batch y.worker.workload >>= λ (units, v). measure rs (after_batch r units v y)

unfoldable pub with_elapsed : ℕ → Measuring → Worker
with_elapsed start y = record y.worker { elapsed = if y.units == 0 then 0 else y.last_end - start }

-- The beginning of the loop.
abbrev pub starting : Course → Worker → Measuring
starting c w = record {
  worker = w;
  pinned = c.pins;
  next_affinity_check = c.start;
  last_end = c.start;
  units = 0;
}

unfoldable pub after_second_gate : Course → Worker → Option Worker
after_second_gate c w =
    let measured = measure c.rounds (starting c w) in
    if c.passes_second_gate then (measured >>= λ y. some (with_elapsed c.start y)) else some w

-- From the first gate on; none is an exception.
unfoldable pub after_first_gate : Course → Worker → Option Worker
after_first_gate c w =
    warm_up c.warm_up_batches w.workload >>= λ v. after_second_gate c (record w { workload = v })

-- Past the first gate, with what comes of it.
unfoldable pub concluded : Worker → Option Worker → Worker × ℤ
concluded ready none = (ready, negsuc 31)
concluded ready (some last) = (last, pos 0)

-- After the first batch. A failure to validate requests a stop, so that the gate is not passed.
unfoldable pub after_first_batch :
    Course → Worker → Option (ℕ × CpuApplicationWorkload) → Worker × ℤ
after_first_batch c w none = (w, negsuc 31)
after_first_batch c w (some (units, v)) =
    let ready = record w { workload = v } in
    let outcome = concluded ready (after_first_gate c ready) in
    if not (validate v)
    then (ready, negsuc 29)
    else if c.passes_first_gate
    then outcome
    else (ready, pos 0)

-- The worker when it is done, and the error that it reports, 0 for none.
unfoldable pub run_worker : Course → Worker → Worker × ℤ
run_worker c w =
    after_first_batch c
      (record w { performance_requested = c.performance_requested; affinity_failed = not c.pins })
      (run_batch w.workload)
