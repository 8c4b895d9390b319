-- ===== src/Memory/Examples.antt =====
-- Runs of the memory engine's parts at small inputs, and its theorems at such inputs.
use rapidbench.Prelude.{
  ℕ, ◌+◌, ◌%◌, ◌^◌, ◌≤◌, ◌<◌, ◌≡◌, refl, Bool, true, false, some, List, [], ◌∷◌, All, leb, arith,
}
use rapidbench.Prelude.Int.{pos}
use rapidbench.Prelude.Doubles.{whole}
use rapidbench.Topology.Types.{Topology, CpuInfo}
use rapidbench.Memory.Types.{MemoryRequest, k_read, k_copy, no_snapshot}
use rapidbench.Memory.Buffer.{
  round_down, granularity, choose_buffer_bytes, allocate_buffer, allocate_loop, allocated, refused,
  region_bytes, source_offset, destination_offset,
}
use rapidbench.Memory.Buffer.Refused.{IsSound, allocate_buffer-IsSound, choose_buffer_bytes-refused}
use rapidbench.Memory.Buffer.Regions.{regions_apart}
use rapidbench.Memory.Engine.{MemoryEngine, start}
use rapidbench.Memory.Engine.Calls.{Outcome, start_honest}
use rapidbench.Memory.Run.{MemoryWorkerCompletion, Answers, summarize_memory_measurement, run, Ran}
use rapidbench.Memory.Run.Timing.{IsDoneBy, IsAttained, summarize_memory_measurement_exact}
use rapidbench.Memory.Run.Ends.{Ends, run-EndsOver}

-- A system that grants 100 MB at most.
abbrev grants : ℕ → Bool
grants size = leb size 100000000

halved_twice :
    allocate_buffer grants 268435456 ≡ allocated (268435456 ∷ 134217728 ∷ 67108864 ∷ []) 67108864
unfolding allocate_buffer allocate_loop round_down
halved_twice = refl

allocate_buffer-IsSound_example : IsSound grants 268435456 (allocate_buffer grants 268435456)
allocate_buffer-IsSound_example = allocate_buffer-IsSound grants 268435456 (omega arith)

-- 200 MiB are available, and there are six threads.
choose_buffer_bytes-refused_example :
    allocate_buffer (λ size. true) (choose_buffer_bytes 209715200 6) ≡ refused []
unfolding granularity
choose_buffer_bytes-refused_example =
    choose_buffer_bytes-refused (λ size. true) 209715200 6 (omega arith) (omega arith)
      (λ e. omega (arith, e))

regions_apart_example :
    let r = region_bytes k_copy 33554432 3 in
    (r % 128 ≡ 0)
    × (source_offset k_copy 33554432 3 1 + r ≤ 33554432)
    × (destination_offset k_copy 33554432 3 1 + r ≤ 33554432)
    × ((j : ℕ)
        → 1 < j
        → (source_offset k_copy 33554432 3 1 + r ≤ source_offset k_copy 33554432 3 j)
          × (destination_offset k_copy 33554432 3 1 + r ≤ destination_offset k_copy 33554432 3 j))
    × (true ≡ true
        → (j : ℕ) → source_offset k_copy 33554432 3 1 + r ≤ destination_offset k_copy 33554432 3 j)
regions_apart_example = regions_apart k_copy 33554432 3 1 (omega arith)

abbrev request : MemoryRequest
request = record { test = k_read; duration_ms = 3000; warmup_ms = 750 }

abbrev engine : MemoryEngine whole
engine = record { snapshot = no_snapshot whole; stop_requested = false; next_run_id = 1 }

start_honest_example : Outcome whole engine (start whole true false request engine)
start_honest_example = start_honest whole true false request engine

abbrev completions : List MemoryWorkerCompletion
completions =
    record { bytes = 4096; completed_at_ns = 2500 }
    ∷ record { bytes = 0; completed_at_ns = 9000 }
    ∷ record { bytes = 8192; completed_at_ns = 2000 }
    ∷ []

summarize_memory_measurement_exact_example :
    let m = summarize_memory_measurement whole 1000 completions in
    (m.bytes ≡ 12288 % 2 ^ 64)
    × All (IsDoneBy (1000 + m.elapsed_ns)) completions
    × IsAttained 1000 (1000 + m.elapsed_ns) completions
summarize_memory_measurement_exact_example =
    summarize_memory_measurement_exact whole 1000 completions

abbrev core : ℕ → CpuInfo
core n = record {
  logical_cpu = n;
  online = true;
  allowed = true;
  cluster_id = pos 0;
  core_id = pos 0;
  frequency_policy_id = pos 0;
  max_frequency_khz = 2000000;
  capacity = 1024;
  performance_group = 0;
}

abbrev cores : List CpuInfo → Topology
cores cs = record {
  cpus = cs;
  online_count = 2;
  allowed_count = 2;
  performance_group_count = 1;
  preferred_single_cpu = pos 0;
  quality_flags = 0;
}

-- A second core is there from the second attempt on.
abbrev answers : ℕ → Answers
answers attempt = record {
  available = 0;
  grants = λ size. true;
  created = 2;
  affinity_failures = 0;
  request_failures = 0;
  stopped_while_warm = false;
  refreshed = some (cores (core 0 ∷ core 1 ∷ []));
  measure_start_ns = 1000;
  samples = [];
  completions = completions;
  last_affinity_failures = 0;
  last_request_failures = 0;
  ready_ends = true;
  warm_ends = true;
  join_ends = true;
  stopped = false;
}

run-EndsOver_example :
    (x : Ran whole) × (run whole request 1 (some (cores (core 0 ∷ []))) answers ≡ some x)
    × (x.ended ≡ true)
    × Ends whole 1 x.published
run-EndsOver_example =
    run-EndsOver whole request 1 (cores (core 0 ∷ [])) answers (λ k. (refl, refl, refl))
