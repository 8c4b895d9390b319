-- ===== src/Cpu/Examples.antt =====
-- Runs of the CPU engine's parts at small inputs, and its theorems at such inputs.
use rapidbench.Prelude.{
  ℕ, ◌+◌, ◌*◌, ◌/◌, ◌%◌, ◌^◌, ◌≤◌, ◌<◌, ◌≡◌, refl, Bool, true, false, none, some, [], ◌∷◌, length,
  ltb, arith,
}
use rapidbench.Prelude.Int.{ℤ, pos, negsuc}
use rapidbench.Prelude.Sort.{ltb-StrictWeak}
use rapidbench.Prelude.Doubles.{whole}
use rapidbench.Topology.Types.{CpuInfo, Topology}
use rapidbench.Cpu.Types.{Request, k_cpu_multi, is_running, maximum_benchmark_threads}
use rapidbench.Cpu.Gates.{
  SharedRun, Steps, here, then_step, new_run, c_checked, c_measures, w_starting, w_at_warmup,
  w_warming, w_at_measurement, c_waits_ready, c_waits_warm, creates, created, arrives, opens_warmup,
  warms, is_warm, passes_check,
}
use rapidbench.Cpu.Gates.Lost.{stop_request-lost}
use rapidbench.Cpu.Gates.Progress.{Ends, run-Ends}
use rapidbench.Cpu.Telemetry.{Peaks, sample_frequencies, update_highest_frequencies_since}
use rapidbench.Cpu.Telemetry.Fields.{Raises, frequency_peaks-Raises}
use rapidbench.Cpu.Engine.{returns, check, begin, after_check, start, is_invalid, new_engine, k_ok}
use rapidbench.Cpu.Engine.Runs.{System, checks, begins}
use rapidbench.Cpu.Engine.Runs
use rapidbench.Cpu.Engine.Alone.{at_rest, start-alone_while_running, start-throws_for_good}
use rapidbench.Cpu.Workload.{Floats, split_mix64}
use rapidbench.Cpu.Telemetry.{WorkerContext}
use rapidbench.Cpu.Worker.{
  Round, Course, run_worker, check_worker_cpu, pin_worker_with_retry, pin_attempts,
}
use rapidbench.Cpu.Worker.Work.{worked, run_worker-work}
use rapidbench.Cpu.Selection.{select_cpus}
use rapidbench.Cpu.Selection.Within.{AllPresent, select_cpus_within}
use rapidbench.Cpu.Measure.{Plan, Observation, measure_and_finish}
use rapidbench.Cpu.Measure.Peak.{Told, measure_and_finish-peak}

-- A run on one CPU, up to its look at the stop flag.
abbrev one_created : SharedRun
one_created = record (new_run 1) { workers = w_starting ∷ [] }

abbrev one_waited : SharedRun
one_waited = record one_created { run = c_waits_ready }

abbrev one_ready : SharedRun
one_ready = record one_waited { workers = w_at_warmup ∷ []; ready = 1 }

abbrev one_opened : SharedRun
one_opened = record one_ready { warmup_started = true; run = c_waits_warm }

abbrev one_warming : SharedRun
one_warming = record one_opened { workers = w_warming ∷ [] }

abbrev one_warm : SharedRun
one_warm = record one_warming { workers = w_at_measurement ∷ []; warmup_done = 1 }

abbrev one_checked : SharedRun
one_checked = record one_warm { run = c_checked }

to_check : Steps (new_run 1) one_checked
to_check = then_step (new_run 1) one_created one_checked (creates (new_run 1) refl (omega arith)) (
    then_step one_created one_waited one_checked (created one_created refl refl) (
      then_step one_waited one_ready one_checked (arrives one_waited 0 refl) (
        then_step one_ready one_opened one_checked (opens_warmup one_ready refl refl) (
          then_step one_opened one_warming one_checked (warms one_opened 0 refl refl) (
            then_step one_warming one_warm one_checked (is_warm one_warming 0 refl) (
              then_step one_warm one_checked one_checked (passes_check one_warm refl refl refl)
                (here one_checked)))))))

stop_request-lost_example :
    (z : SharedRun) × Steps one_checked z
    × (z.stop_requested ≡ true)
    × ((w : SharedRun) → Steps z w → w.run ≡ c_measures)
stop_request-lost_example = stop_request-lost 1 one_checked to_check refl (omega arith)

run-Ends_example : Ends one_checked
run-Ends_example = run-Ends 1 one_checked to_check

abbrev no_peaks : Peaks
no_peaks = record { highest = 0; by_group = 0 ∷ 0 ∷ [] }

frequency_peaks-Raises_example : Raises no_peaks (
    update_highest_frequencies_since
      (λ cpu. [])
      []
      (sample_frequencies ((0, 1800000) ∷ (1, 2400000) ∷ []) no_peaks))
frequency_peaks-Raises_example =
    frequency_peaks-Raises (λ cpu. []) [] ((0, 1800000) ∷ (1, 2400000) ∷ []) no_peaks
      (omega arith, (omega arith, tt))

abbrev request : Request
request = record {
  test_id = k_cpu_multi;
  duration_ms = 5000;
  warmup_ms = 1000;
  requested_threads = 0;
  flags = 0;
}

abbrev under_way : System whole
under_way = record {
  engine = (start whole true true request (new_engine whole)).1;
  coordinator = some 1;
  starting = none;
}

abbrev checked : System whole
checked = record (at_rest whole) { starting = some request }

starts_at_once : (start whole true true request (new_engine whole)).0 ≡ returns k_ok (some 1)
unfolding start after_check check begin is_invalid
starts_at_once = refl

start-alone_while_running_example :
    (under_way.engine.snapshot.run_id ≡ 1)
    × (under_way.starting ≡ none)
    × ((o h : Bool) (r : Request)
        → (status : ℤ) × (check whole o r under_way.engine ≡ some status)
          × (start whole o h r under_way.engine ≡ (returns status none, under_way.engine)))
unfolding start after_check check begin is_invalid
start-alone_while_running_example =
    start-alone_while_running whole under_way 1
      (Runs.then_step (at_rest whole) checked under_way (checks (at_rest whole) true request refl) (
        Runs.then_step checked under_way under_way (begins checked true request refl refl)
          (Runs.here under_way)))
      refl

-- A Start whose thread cannot be made.
abbrev thrown : System whole
thrown = record {
  engine = (start whole true false request (new_engine whole)).1;
  coordinator = none;
  starting = none;
}

start-throws_for_good_example :
    (thrown.coordinator ≡ none)
    × (is_running thrown.engine.snapshot.state ≡ true)
    × ((o h : Bool) (s : Request)
        → (status : ℤ) × (check whole o s thrown.engine ≡ some status)
          × (start whole o h s thrown.engine ≡ (returns status none, thrown.engine)))
unfolding start after_check check begin is_invalid
start-throws_for_good_example =
    start-throws_for_good whole (at_rest whole) thrown request refl refl refl (Runs.here thrown)

abbrev cpu : ℕ → CpuInfo
cpu n = record {
  logical_cpu = n;
  online = true;
  allowed = true;
  cluster_id = pos 0;
  core_id = pos 0;
  frequency_policy_id = pos 0;
  max_frequency_khz = 2000000;
  capacity = 1024;
  performance_group = n / 2;
}

abbrev topology : Topology
topology = record {
  cpus = cpu 0 ∷ cpu 1 ∷ cpu 2 ∷ [];
  online_count = 3;
  allowed_count = 3;
  performance_group_count = 2;
  preferred_single_cpu = negsuc 0;
  quality_flags = 0;
}

select_cpus_within_example :
    AllPresent topology (select_cpus topology request).cpus
    × (length (select_cpus topology request).cpus ≤ maximum_benchmark_threads)
    × (true ≡ true → 0 < length topology.cpus → 0 < length (select_cpus topology request).cpus)
select_cpus_within_example = select_cpus_within topology request (λ n e. cc)

abbrev plan : Plan
plan = record {
  run_id = 1;
  measurement_start = 20000000;
  requested_duration_ns = 300000000;
  hint_update_ns = 20000000;
  cpu_groups = 0 ∷ [];
  group_count = 1;
  worker_count = 1;
  request_active = false;
}

abbrev seen : Observation
seen = record {
  now = 400000000;
  workers = [];
  frequencies = 1800000 ∷ [];
  hint_active = false;
  finished = true;
}

measure_and_finish-peak_example :
    Told whole ltb-StrictWeak false (
      measure_and_finish whole plan [] (λ cpu. []) (seen ∷ []) seen false no_peaks under_way.engine)
unfolding start after_check check begin is_invalid
measure_and_finish-peak_example =
    measure_and_finish-peak whole ltb-StrictWeak plan [] (λ cpu. []) (seen ∷ []) seen false no_peaks
      under_way.engine refl

-- Whole numbers in place of `float`.
abbrev whole_floats : Floats
whole_floats = record {
  Float = ℕ;
  of_word = λ n. n;
  dyadic = λ n k. n / 2 ^ k;
  sum = λ a b. a + b;
  product = λ a b. a * b;
  quotient = λ a b. a / b;
  bits = λ a. a % 2 ^ 32;
}

-- The first value of the generator from 0.
first_of_zero : (split_mix64 0).0 ≡ 16294208416658607535
unfolding split_mix64
first_of_zero = refl

abbrev third : WorkerContext
third = record {
  logical_cpu = 3;
  completed_work = 0;
  elapsed_ns = 0;
  thread_cpu_time_ns = 0;
  affinity_checks = 0;
  affinity_violated = false;
  affinity_ok = true;
  performance_request_ok = false;
  checksum = 0;
}

-- A thread that is found elsewhere and can be pinned at the third attempt.
moved :
    check_worker_cpu (pos 5) (λ k. ltb 1 k) third
    ≡ record third { affinity_checks = 1; affinity_violated = true }
unfolding check_worker_cpu pin_worker_with_retry pin_attempts
moved = refl

abbrev quiet : Round
quiet = record { pins = λ k. true; actual_cpu = pos 3; check_pins = λ k. true }

abbrev course : Course whole_floats
course = record {
  performance_request_ok = true;
  first = quiet;
  warm_up_rounds = quiet ∷ [];
  stopped_before_pin = false;
  middle = quiet;
  stopped_at_gate = false;
  measurement_rounds = quiet ∷ quiet ∷ [];
  measurement_start = 1000;
  end = 3000;
  cpu_time_start = 10;
  cpu_time_end = 1910;
  last = quiet;
}

run_worker-work_example :
    let (published, counted) = run_worker whole_floats course 9 third in
    (false ≡ false
      → (published.completed_work ≡ 8192 * 2 % 2 ^ 64)
        × (published.checksum ≡ (worked whole_floats 9 third (1 + 2)).checksum)
        × (counted ≡ true))
    × (false ≡ true
        → (published.completed_work ≡ 0)
          × (published.checksum ≡ (worked whole_floats 9 third 1).checksum)
          × (counted ≡ false))
run_worker-work_example = run_worker-work whole_floats course 9 third
