-- ===== src/Cpu/Measure.antt =====
-- native/benchmark_core/src/engine.cpp: the measuring part of Engine::Impl::Run, from the first window to
-- the last snapshot.
pub mod Peak
use rapidbench.Prelude.{
  ℕ, ◌+◌, ◌-◌, ◌*◌, ◌/◌, ◌%◌, ◌^◌, Bool, true, false, not, ◌&&◌, ◌||◌, List, [], ◌∷◌, ◌++◌, ◌==◌,
  ltb, leb, if◌then◌else◌, length, get_or, max, min,
}
use rapidbench.Prelude.Doubles.{Doubles, zero_double, larger, is_positive}
use rapidbench.Prelude.Int.{ℤ, pos, negsuc}
use rapidbench.Prelude.Sort.{sort}
use rapidbench.Topology.Types.{FrequencyResidency}
use rapidbench.Cpu.Types.{k_cancelled, k_completed, k_none, k_finalize}
use rapidbench.Cpu.Telemetry.{
  WorkerContext, Totals, read_totals, count_measurement_affinity_failures, Peaks,
  sample_frequencies, FrequencyResidencyBaseline, update_highest_frequencies_since,
}
use rapidbench.Cpu.Windows.{
  Windows, no_windows, score_from, close_window, close_final_window, score_windows,
}
use rapidbench.Cpu.Engine.{
  Engine, publish_affinity, publish_telemetry, publish_measurement, publish_state, add_quality_flag,
}

abbrev pub quality_high_score_variation : ℕ
quality_high_score_variation = 2 ^ 18

-- What does not change while a run measures; times are nanoseconds of one clock.
pub record Plan : Type 0 where
  pub run_id : ℕ
  pub measurement_start : ℕ
  pub requested_duration_ns : ℕ
  pub hint_update_ns : ℕ
  pub cpu_groups : List ℕ
  pub group_count : ℕ
  pub worker_count : ℕ
  pub request_active : Bool

-- `std::clamp` of the rate that the session prefers, where it has one.
unfoldable pub hint_update_of : ℤ → ℕ
hint_update_of (pos n) = min (max (if n == 0 then 20000000 else n) 20000000) 100000000
hint_update_of (negsuc n) = 20000000

-- What one round of the loop sees: the clock, what the workers have published, the frequency of each
-- selected CPU, and whether all workers are done.
pub record Observation : Type 0 where
  pub now : ℕ
  pub workers : List WorkerContext
  pub frequencies : List ℕ
  pub hint_active : Bool
  pub finished : Bool

-- When the session was last told, when it will be, and the durations it was told, last first.
pub record Hints : Type 0 where
  pub last_report : ℕ
  pub next_report : ℕ
  pub reported : List ℕ

unfoldable pub report_if_due : ℕ → ℕ → Hints → Hints
report_if_due hint_update_ns now h =
    if leb h.next_report now
    then record {
      last_report = now;
      next_report = now + hint_update_ns;
      reported = max 1 (now - h.last_report) ∷ h.reported;
    }
    else h

unfoldable pub in_groups : List ℕ → List ℕ → List (ℕ × ℕ)
in_groups [] frequencies = []
in_groups (g ∷ gs) [] = []
in_groups (g ∷ gs) (f ∷ fs) = (g, f) ∷ in_groups gs fs

module _ (num : Doubles) where
  pub record Measuring : Type 0 where
    pub engine : Engine num
    pub windows : Windows num
    pub peaks : Peaks
    pub hints : Hints
    pub next_publish : ℕ
    pub next_frequency_sample : ℕ

  unfoldable pub sample_if_due : Plan → Observation → Measuring → Measuring
  sample_if_due p o m =
      let sampled = sample_frequencies (in_groups p.cpu_groups o.frequencies) m.peaks in
      let failures = count_measurement_affinity_failures o.workers in
      if leb m.next_frequency_sample o.now
      then record m {
        peaks = sampled;
        engine =
            publish_telemetry num p.run_id sampled p.group_count (read_totals o.workers)
              p.worker_count o.hint_active p.request_active
              (publish_affinity num p.run_id failures m.engine);
        next_frequency_sample = o.now + 200000000;
      }
      else m

  -- The share of the requested time that has gone.
  unfoldable pub progress_of : ℕ → ℕ → num.Double
  progress_of elapsed_ns requested_duration_ns =
      num.quotient (num.of_word elapsed_ns) (num.of_word requested_duration_ns)

  unfoldable pub publish_if_due : Plan → Observation → Measuring → Measuring
  publish_if_due p o m =
      let live_elapsed_ns = o.now - p.measurement_start in
      let t = read_totals o.workers in
      if leb m.next_publish o.now
      then record m {
        engine =
            publish_measurement num p.run_id live_elapsed_ns t.work
              (score_from num t.work live_elapsed_ns)
              (progress_of live_elapsed_ns p.requested_duration_ns) (zero_double num)
              m.windows.peak_score t.checksum m.engine;
        next_publish = o.now + 50000000;
      }
      else m

  unfoldable pub observe : Plan → Observation → Measuring → Measuring
  observe p o m =
      let reported = record m { hints = report_if_due p.hint_update_ns o.now m.hints } in
      let sampled = sample_if_due p o reported in
      let closed = record sampled {
        windows =
            close_window num p.requested_duration_ns (o.now - p.measurement_start)
              (read_totals o.workers).work sampled.windows;
      } in
      publish_if_due p o closed

  -- The loop, on what its rounds see; it ends with the first that sees all workers done.
  unfoldable pub measure : Plan → List Observation → Measuring → Measuring
  measure p [] m = m
  measure p (o ∷ os) m =
      let seen = observe p o m in
      let later = measure p os seen in if o.finished then seen else later

  -- Of a run that was stopped, and of one that was not.
  unfoldable pub publish_cancelled : Plan → Totals → Windows num → Engine num → Engine num
  publish_cancelled p t w e =
      let score = score_from num t.work t.elapsed_ns in
      publish_state num p.run_id k_cancelled k_none (
        publish_measurement num p.run_id t.elapsed_ns t.work score
          (progress_of t.elapsed_ns p.requested_duration_ns) (zero_double num)
          (larger num w.peak_score score) t.checksum e)

  unfoldable pub publish_completed : Plan → Totals → Windows num → Engine num → Engine num
  publish_completed p t w e =
      let s = score_windows num t w in
      let flagged =
        if num.less (num.quotient (num.of_word 7) (num.of_word 100)) s.variation
        then add_quality_flag num p.run_id quality_high_score_variation e
        else e in
      publish_state num p.run_id k_completed k_finalize (
        publish_measurement num p.run_id t.elapsed_ns t.work s.final_score (num.of_word 1)
          s.variation s.peak_score t.checksum flagged)

  -- After the workers have been joined: `o` is what is then seen, `read` the residencies, `stopped` the
  -- stop flag.
  unfoldable pub finish :
      Plan
      → List FrequencyResidencyBaseline
      → (ℕ → List FrequencyResidency)
      → Observation
      → Bool
      → Measuring
      → Engine num
  finish p baselines read o stopped m =
      let peaks =
        update_highest_frequencies_since read baselines
          (sample_frequencies (in_groups p.cpu_groups o.frequencies) m.peaks) in
      let t = read_totals o.workers in
      let told =
        publish_telemetry num p.run_id peaks p.group_count t p.worker_count o.hint_active
          p.request_active
          (publish_affinity num p.run_id (count_measurement_affinity_failures o.workers)
            m.engine) in
      let w = close_final_window num t m.windows in
      if stopped then publish_cancelled p t w told else publish_completed p t w told

  -- Where the loop begins.
  abbrev pub starting : Plan → Peaks → Engine num → Measuring
  starting p peaks e = record {
    engine = e;
    windows = no_windows num;
    peaks = peaks;
    hints = record {
      last_report = p.measurement_start;
      next_report = p.measurement_start + p.hint_update_ns;
      reported = [];
    };
    next_publish = p.measurement_start;
    next_frequency_sample = p.measurement_start;
  }

  -- All of it.
  unfoldable pub measure_and_finish :
      Plan
      → List FrequencyResidencyBaseline
      → (ℕ → List FrequencyResidency)
      → List Observation
      → Observation
      → Bool
      → Peaks
      → Engine num
      → Engine num
  measure_and_finish p baselines read os o stopped peaks e =
      finish p baselines read o stopped (measure p os (starting p peaks e))
