-- ===== src/Cpu/Windows.antt =====
-- native/benchmark_core/src/engine.cpp: the windows of a measurement, and the score that they give.
pub mod Highest
use rapidbench.Prelude.{
  ℕ, ◌+◌, ◌-◌, ◌*◌, ◌/◌, ◌%◌, ◌^◌, Bool, ◌&&◌, List, [], ◌∷◌, ◌++◌, ◌==◌, ltb, leb, if◌then◌else◌,
  length, get_or,
}
use rapidbench.Prelude.Doubles.{Doubles, zero_double, larger, is_positive}
use rapidbench.Prelude.Sort.{sort}
use rapidbench.Cpu.Telemetry.{Totals}

abbrev pub window_count : ℕ
window_count = 3

module _ (num : Doubles) where
  unfoldable pub score_from : ℕ → ℕ → num.Double
  score_from work elapsed_ns =
      if elapsed_ns == 0
      then zero_double num
      else num.quotient
          (num.quotient (num.of_word work)
            (num.quotient (num.of_word elapsed_ns) (num.of_word 1000000000)))
          (num.of_word 1000)

  pub record Windows : Type 0 where
    pub boundary_index : ℕ
    pub previous_work : ℕ
    pub previous_elapsed : ℕ
    pub scores : List num.Double
    pub peak_score : num.Double

  abbrev pub no_windows : Windows
  no_windows = record {
    boundary_index = 1;
    previous_work = 0;
    previous_elapsed = 0;
    scores = [];
    peak_score = zero_double num;
  }

  abbrev pub minus64 : ℕ → ℕ → ℕ
  minus64 a b = (a + (2 ^ 64 - b)) % 2 ^ 64

  unfoldable pub is_window_over : ℕ → ℕ → Windows → Bool
  is_window_over requested_duration_ns live_elapsed_ns w =
      ltb w.boundary_index window_count
      && leb (requested_duration_ns * w.boundary_index % 2 ^ 64 / window_count) live_elapsed_ns

  -- Close the window if it is over.
  unfoldable pub close_window : ℕ → ℕ → ℕ → Windows → Windows
  close_window requested_duration_ns live_elapsed_ns work w =
      let window_score =
        score_from (minus64 work w.previous_work) (minus64 live_elapsed_ns w.previous_elapsed) in
      if is_window_over requested_duration_ns live_elapsed_ns w
      then record {
        boundary_index = w.boundary_index + 1;
        previous_work = work;
        previous_elapsed = live_elapsed_ns;
        scores = w.scores ++ (window_score ∷ []);
        peak_score = larger num w.peak_score window_score;
      }
      else w

  -- The last window, which ends with the last worker.
  unfoldable pub close_final_window : Totals → Windows → Windows
  close_final_window t w =
      let score = score_from (t.work - w.previous_work) (t.elapsed_ns - w.previous_elapsed) in
      if ltb w.previous_elapsed t.elapsed_ns && leb w.previous_work t.work
      then record w {
        scores = w.scores ++ (score ∷ []);
        peak_score = larger num w.peak_score score;
      }
      else w

  -- The score of a run and how it was found.
  pub record Score : Type 0 where
    pub final_score : num.Double
    pub variation : num.Double
    pub peak_score : num.Double

  unfoldable pub middle : List num.Double → num.Double
  middle xs = get_or xs (length xs / 2) (zero_double num)

  unfoldable pub last_of : List num.Double → num.Double
  last_of xs = get_or xs (length xs - 1) (zero_double num)

  unfoldable pub score_windows : Totals → Windows → Score
  score_windows t w =
      let sorted = sort num.less w.scores in
      let median = middle sorted in
      let overall = score_from t.work t.elapsed_ns in
      if leb window_count (length w.scores)
      then record {
        final_score = median;
        variation =
            if is_positive num median
            then num.quotient (num.difference (last_of sorted) (get_or sorted 0 (zero_double num)))
                median
            else zero_double num;
        peak_score = w.peak_score;
      }
      else record {
        final_score = overall;
        variation = zero_double num;
        peak_score = larger num w.peak_score overall;
      }
