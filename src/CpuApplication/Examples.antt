-- ===== src/CpuApplication/Examples.antt =====
-- The application engine's parts at small inputs, and its theorems at such inputs.
use rapidbench.Prelude.{◌≡◌, refl, true, false, some, [], ◌∷◌, arith}
use rapidbench.Prelude.Doubles.{whole}
use rapidbench.Prelude.Int.{pos, negsuc}
use rapidbench.Workload.Radix.{reference_sort}
use rapidbench.Workload.Application.{
  CpuApplicationWorkload, Sizes, k_sort, untouched, create, random_keys, random_seed,
  with_endpoints, units_per_batch,
}
use rapidbench.CpuApplication.Types.{CpuApplicationRequest, no_snapshot}
use rapidbench.CpuApplication.Engine.{CpuApplicationEngine, start, is_invalid}
use rapidbench.CpuApplication.Worker.{Worker, Course, run_worker}
use rapidbench.CpuApplication.Worker.Valid.{Fine, run_worker-Fine}
use rapidbench.CpuApplication.Report.{report}
use rapidbench.CpuApplication.Report.Verified.{IsHonest, report-IsHonest}

abbrev request : CpuApplicationRequest
request = record { test = k_sort; duration_ms = 3000; warmup_ms = 700; requested_threads = 1 }

abbrev engine : CpuApplicationEngine whole
engine = record { snapshot = no_snapshot whole; stop = false; next_id = 1 }

-- The number is written although the thread cannot be made.
fails_with_a_number : (start whole true false request engine).0 ≡ (negsuc 10, some 1)
unfolding start is_invalid
fails_with_a_number = refl

abbrev tiny : Sizes
tiny = record { sort_keys = 4; json_rows = 1; image_side = 3 }

abbrev tiny_sort : CpuApplicationWorkload
tiny_sort =
    let keys = with_endpoints (random_keys 4 random_seed) in
    record (untouched k_sort tiny) {
      keys = keys;
      sorted = 0 ∷ 0 ∷ 0 ∷ 0 ∷ [];
      reference_keys = reference_sort keys;
    }

abbrev worker : Worker
worker = record {
  cpu = 0;
  workload = tiny_sort;
  units = 0;
  elapsed = 0;
  last_batch_ns = 0;
  affinity_failed = false;
  performance_requested = false;
}

abbrev course : Course
course = record {
  performance_requested = true;
  pins = true;
  passes_first_gate = true;
  warm_up_batches = 1;
  passes_second_gate = true;
  start = 1000;
  rounds = record { batch_start = 1000; last_end = 1500; actual_cpu = pos 0; pins = true } ∷ [];
}

run_worker-Fine_example : Fine course (units_per_batch tiny_sort) (run_worker course worker)
unfolding create with_endpoints random_keys
run_worker-Fine_example =
    run_worker-Fine k_sort tiny course worker (omega arith) (omega arith) (omega arith)
      (omega arith) refl refl

report-IsHonest_example :
    IsHonest whole
      (worker ∷ [])
      (report whole request (pos 0) false (worker ∷ []) (no_snapshot whole))
report-IsHonest_example =
    report-IsHonest whole request (pos 0) false (worker ∷ []) (no_snapshot whole)
