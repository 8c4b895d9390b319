-- ===== src/Memory/Run.antt =====
-- native/benchmark_core/src/memory_engine.cpp: Run and RunAttempt, with SummarizeMemoryMeasurement of
-- memory_timing.h.
pub mod Ends
pub mod Timing
use rapidbench.Prelude.{
  ℕ, zero, suc, ◌+◌, ◌-◌, ◌*◌, ◌/◌, ◌%◌, ◌^◌, Bool, true, false, not, ◌&&◌, ◌||◌, List, [], ◌∷◌,
  ◌++◌, length, is_empty, ltb, ◌==◌, min, max, if◌then◌else◌, Option, none, some,
}
use rapidbench.Prelude.Doubles.{Doubles, zero_double, smaller}
use rapidbench.Prelude.Int.{ℤ, negsuc}
use rapidbench.Prelude.Sort.{sort}
use rapidbench.Topology.Types.{Topology}
use rapidbench.Topology.Select.{select_benchmark_cpus}
use rapidbench.Workload.Application.{list_eq}
use rapidbench.Memory.Types.{
  MemoryRequest, MemorySnapshot, no_snapshot, k_preparing, k_warming_up, k_measuring, k_completed,
  k_cancelled, k_error,
}
use rapidbench.Memory.Buffer.{
  Allocation, allocated, refused, unfinished, allocate_buffer, choose_buffer_bytes, region_bytes,
}

abbrev pub error_allocation_failed : ℤ
error_allocation_failed = negsuc 19

abbrev pub error_no_cpu_available : ℤ
error_no_cpu_available = negsuc 20

abbrev pub error_thread_creation_failed : ℤ
error_thread_creation_failed = negsuc 21

-- What a worker leaves.
pub record MemoryWorkerCompletion : Type 0 where
  pub bytes : ℕ
  pub completed_at_ns : ℕ

pub record Totalled : Type 0 where
  pub bytes : ℕ
  pub finished_at_ns : ℕ

-- The loop of SummarizeMemoryMeasurement.
unfoldable pub add_completions : List MemoryWorkerCompletion → Totalled → Totalled
add_completions [] t = t
add_completions (c ∷ cs) t = add_completions cs (
    if c.bytes == 0 then t else record {
      bytes = (t.bytes + c.bytes) % 2 ^ 64;
      finished_at_ns = max t.finished_at_ns c.completed_at_ns;
    })

unfoldable pub total_completions : ℕ → List MemoryWorkerCompletion → Totalled
total_completions started_at_ns cs =
    add_completions cs (record { bytes = 0; finished_at_ns = started_at_ns })

-- The CPUs of an attempt.
unfoldable pub attempt_cpus : Topology → List ℕ
attempt_cpus t = sort ltb (select_benchmark_cpus t 0)

-- A round of the loop that publishes while the workers measure.
pub record Sample : Type 0 where
  pub now_ns : ℕ
  pub total_bytes : ℕ
  pub affinity_failures : ℕ
  pub request_failures : ℕ

-- What the system answers in an attempt. `created` is how many threads could be made, `request_failures`
-- what is left of the failures once the hints are counted in. The waits for the workers, to be ready,
-- to be warm and to return, end or do not.
pub record Answers : Type 0 where
  pub available : ℕ
  pub grants : ℕ → Bool
  pub created : ℕ
  pub affinity_failures : ℕ
  pub request_failures : ℕ
  pub stopped_while_warm : Bool
  pub refreshed : Option Topology
  pub measure_start_ns : ℕ
  pub samples : List Sample
  pub completions : List MemoryWorkerCompletion
  pub last_affinity_failures : ℕ
  pub last_request_failures : ℕ
  pub ready_ends : Bool
  pub warm_ends : Bool
  pub join_ends : Bool
  pub stopped : Bool

module _ (num : Doubles) where
  pub record MemoryMeasurement : Type 0 where
    pub bytes : ℕ
    pub elapsed_ns : ℕ
    pub gbps : num.Double

  unfoldable pub gbps_of : ℕ → ℕ → num.Double
  gbps_of bytes elapsed_ns =
      if elapsed_ns == 0
      then zero_double num
      else num.quotient (num.of_word bytes) (num.of_word elapsed_ns)

  unfoldable pub summarize_memory_measurement : ℕ → List MemoryWorkerCompletion → MemoryMeasurement
  summarize_memory_measurement started_at_ns cs =
      let t = total_completions started_at_ns cs in
      let elapsed_ns = t.finished_at_ns - started_at_ns in
      record { bytes = t.bytes; elapsed_ns = elapsed_ns; gbps = gbps_of t.bytes elapsed_ns }

  -- What an attempt publishes, first to last, the topology for the next one, and whether it comes to
  -- its end.
  pub record Attempted : Type 0 where
    pub published : List (MemorySnapshot num)
    pub again : Option Topology
    pub ended : Bool

  -- A wait that does not end.
  abbrev pub hung : List (MemorySnapshot num) → Attempted
  hung published = record { published = published; again = none; ended = false }

  abbrev pub gives_up : ℤ → MemorySnapshot num → Attempted
  gives_up code s = record {
    published = record s { state = k_error; error_code = code } ∷ [];
    again = none;
    ended = true;
  }

  unfoldable pub attempt_snapshot : MemoryRequest → ℕ → Topology → ℕ → MemorySnapshot num
  attempt_snapshot r run_id t attempt = record (no_snapshot num) {
    run_id = run_id;
    state = k_preparing;
    test = r.test;
    preparation_attempts = attempt + 1;
    present_cpus = length t.cpus % 2 ^ 32;
    online_cpus = t.online_count;
    allowed_cpus = t.allowed_count;
    selected_cpus = attempt_cpus t;
  }

  unfoldable pub progress_of : ℕ → ℕ → num.Double
  progress_of elapsed_ns duration_ms =
      smaller num (num.of_word 1)
        (num.quotient (num.of_word elapsed_ns) (num.of_word (duration_ms * 1000000)))

  unfoldable pub sampled : MemoryRequest → ℕ → Sample → MemorySnapshot num → MemorySnapshot num
  sampled r measure_start_ns o s =
      let elapsed = o.now_ns - measure_start_ns in
      record s {
        elapsed_ns = elapsed;
        processed_bytes = o.total_bytes;
        bandwidth_gbps = gbps_of o.total_bytes elapsed;
        progress = progress_of elapsed r.duration_ms;
        affinity_failures = o.affinity_failures;
        performance_request_failures = o.request_failures;
      }

  -- The loop: the snapshots that it publishes, and the last one.
  unfoldable pub sample_loop :
      MemoryRequest
      → ℕ
      → List Sample
      → MemorySnapshot num
      → List (MemorySnapshot num) × MemorySnapshot num
  sample_loop r start [] s = ([], s)
  sample_loop r start (o ∷ os) s =
      let next = sampled r start o s in
      let (published, last) = sample_loop r start os next in (next ∷ published, last)

  -- The last snapshot.
  unfoldable pub concluded :
      MemoryRequest → Answers → Bool → MemorySnapshot num → MemorySnapshot num
  concluded r a creation_failed s =
      let m = summarize_memory_measurement a.measure_start_ns a.completions in
      let told = record s {
        elapsed_ns = m.elapsed_ns;
        processed_bytes = m.bytes;
        bandwidth_gbps = m.gbps;
        progress =
            if m.elapsed_ns == 0 then zero_double num else progress_of m.elapsed_ns r.duration_ms;
        affinity_failures = a.last_affinity_failures;
        performance_request_failures = a.last_request_failures;
      } in
      if creation_failed
      then record told { state = k_error; error_code = error_thread_creation_failed }
      else if a.stopped
      then record told { state = k_cancelled }
      else record told { state = k_completed; progress = num.of_word 1 }

  -- The measurement, up to the join: what it publishes, and the snapshot then.
  unfoldable pub measured_attempt :
      MemoryRequest → Answers → MemorySnapshot num → List (MemorySnapshot num) × MemorySnapshot num
  measured_attempt r a s =
      let measuring = record s {
        state = k_measuring;
        elapsed_ns = 0;
        progress = zero_double num;
      } in
      let (published, last) = sample_loop r a.measure_start_ns a.samples measuring in
      (measuring ∷ published, last)

  unfoldable pub goes_on :
      MemoryRequest → Answers → Bool → MemorySnapshot num → MemorySnapshot num → Attempted
  goes_on r a creation_failed warming s =
      let (during, last) = measured_attempt r a s in
      if a.join_ends
      then record {
        published = (warming ∷ during) ++ (concluded r a creation_failed last ∷ []);
        again = none;
        ended = true;
      }
      else hung (warming ∷ during)

  -- The return of the attempt for another one, behind the join of its workers.
  abbrev pub tries_again : Answers → MemorySnapshot num → Topology → Attempted
  tries_again a warming refreshed =
      if a.join_ends
      then record { published = warming ∷ []; again = some refreshed; ended = true }
      else hung (warming ∷ [])

  -- The second look at the topology: another attempt, or the measurement.
  unfoldable pub after_refresh :
      MemoryRequest → ℕ → Answers → MemorySnapshot num → Option Topology → Attempted
  after_refresh r attempt a warming none =
      goes_on r a false warming (record warming { topology_unstable = true })
  after_refresh r attempt a warming (some refreshed) =
      let differs = not (list_eq (attempt_cpus refreshed) warming.selected_cpus) in
      let updated = record warming {
        present_cpus = length refreshed.cpus % 2 ^ 32;
        online_cpus = refreshed.online_count;
        allowed_cpus = refreshed.allowed_count;
        topology_unstable = differs;
      } in
      if differs && ltb attempt 2
      then tries_again a warming refreshed
      else goes_on r a false warming updated

  -- From the creation of the workers on, with the buffer at hand.
  unfoldable pub with_buffer : MemoryRequest → ℕ → Answers → MemorySnapshot num → Attempted
  with_buffer r attempt a s =
      let creation_failed = ltb a.created s.thread_count in
      let warming = record s {
        thread_count = min a.created s.thread_count;
        state = k_warming_up;
        affinity_failures = a.affinity_failures;
        performance_request_failures = a.request_failures;
      } in
      if not a.ready_ends
      then hung []
      else if not a.warm_ends
      then hung (warming ∷ [])
      else if not creation_failed && not a.stopped_while_warm
      then after_refresh r attempt a warming a.refreshed
      else goes_on r a creation_failed warming warming

  unfoldable pub after_allocation :
      MemoryRequest → ℕ → Answers → MemorySnapshot num → Allocation → Attempted
  after_allocation r attempt a s (refused asked) = gives_up error_allocation_failed s
  after_allocation r attempt a s unfinished = gives_up error_allocation_failed s
  after_allocation r attempt a s (allocated asked buffer_bytes) =
      let threads = length s.selected_cpus in
      let filled = record s { buffer_bytes = buffer_bytes; thread_count = threads % 2 ^ 32 } in
      if region_bytes r.test buffer_bytes threads == 0
      then gives_up error_allocation_failed filled
      else with_buffer r attempt a filled

  unfoldable pub run_attempt : MemoryRequest → ℕ → Topology → ℕ → Answers → Attempted
  run_attempt r run_id t attempt a =
      let s = attempt_snapshot r run_id t attempt in
      let threads = length s.selected_cpus in
      let allocation = allocate_buffer a.grants (choose_buffer_bytes a.available threads) in
      if is_empty s.selected_cpus
      then gives_up error_no_cpu_available s
      else after_allocation r attempt a s allocation

  -- What is published in all, and whether Run comes to its end.
  pub record Ran : Type 0 where
    pub published : List (MemorySnapshot num)
    pub ended : Bool

  -- An attempt, if another one follows and if not.
  unfoldable pub continued : Attempted → (Topology → Ran) → Option Topology → Ran
  continued made later none = record { published = made.published; ended = made.ended }
  continued made later (some next) =
      let rest = later next in
      record { published = made.published ++ rest.published; ended = rest.ended }

  -- The loop of Run: `left` attempts from `attempt` on.
  unfoldable pub attempts : ℕ → MemoryRequest → ℕ → Topology → ℕ → (ℕ → Answers) → Ran
  attempts zero r run_id t attempt answers = record { published = []; ended = true }
  attempts (suc left) r run_id t attempt answers =
      let made = run_attempt r run_id t attempt (answers attempt) in
      continued made (λ next. attempts left r run_id next (attempt + 1) answers) made.again

  -- With what the first reading of the topology gives. An exception there is caught nowhere, so that it
  -- ends the process.
  unfoldable pub run : MemoryRequest → ℕ → Option Topology → (ℕ → Answers) → Option Ran
  run r run_id none answers = none
  run r run_id (some t) answers = some (attempts 3 r run_id t 0 answers)
