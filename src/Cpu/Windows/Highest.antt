-- ===== src/Cpu/Windows/Highest.antt =====
-- The peak of the windows is not below any of their scores.
use rapidbench.Prelude.{
  ℕ, zero, suc, ◌/◌, ◌<◌, ◌≡◌, true, false, ◌&&◌, List, [], ◌∷◌, ◌++◌, ltb, leb, if_intro, length,
  get_or, All, All-map, All-append, Bool-cases, inl, inr, arith,
}
use rapidbench.Prelude.Doubles.{Doubles, zero_double, larger}
use rapidbench.Prelude.Sort.{sort, sort-All, length-sort, StrictWeak}
use rapidbench.Cpu.Telemetry.{Totals}
use rapidbench.Cpu.Windows.{
  Windows, score_from, is_window_over, close_window, close_final_window, score_windows, middle,
  window_count,
}

module _ (num : Doubles) (order : StrictWeak num.less) where
  pub less_irrefl : (a : num.Double) → num.less a a ≡ false
  less_irrefl a = elim (Bool-cases (num.less a a)) [ inl e ↦ order.asymm a a e | inr e ↦ e ]

  pub larger-left : (a b : num.Double) → num.less (larger num a b) a ≡ false
  larger-left a b =
      if_intro (λ m. num.less m a ≡ false) (num.less a b) b a (order.asymm a b) (λ n. less_irrefl a)

  pub larger-right : (a b : num.Double) → num.less (larger num a b) b ≡ false
  larger-right a b =
      if_intro (λ m. num.less m b ≡ false) (num.less a b) b a (λ y. less_irrefl b) (λ n. n)

  -- The peak is not below any score.
  abbrev pub Above : num.Double → List num.Double → Type 0
  Above peak = All (λ s. num.less peak s ≡ false)

  Above-larger :
      (peak b : num.Double) (scores : List num.Double)
      → Above peak scores
      → Above (larger num peak b) scores
  Above-larger peak b scores =
      All-map _ _ (λ s low. order.trans s peak (larger num peak b) low (larger-left peak b)) scores

  Above-push :
      (peak b : num.Double) (scores : List num.Double)
      → Above peak scores
      → Above (larger num peak b) (scores ++ (b ∷ []))
  Above-push peak b scores h =
      All-append _ scores (b ∷ []) (Above-larger peak b scores h) (larger-right peak b, tt)

  unfoldable pub Highest : Windows num → Type 0
  Highest w = Above w.peak_score w.scores

  pub close_window-Highest :
      (duration live work : ℕ) (w : Windows num)
      → Highest w
      → Highest (close_window num duration live work w)
  unfolding Highest close_window
  close_window-Highest duration live work w h =
      elim (Bool-cases (is_window_over num duration live w)) [
        | inl e ↦ rw e (Above-push w.peak_score _ w.scores h)
        | inr e ↦ rw e h
      ]

  pub close_final_window-Highest :
      (t : Totals) (w : Windows num) → Highest w → Highest (close_final_window num t w)
  unfolding Highest close_final_window
  close_final_window-Highest t w h =
      elim (Bool-cases (ltb w.previous_elapsed t.elapsed_ns && leb w.previous_work t.work)) [
        | inl e ↦ rw e (Above-push w.peak_score _ w.scores h)
        | inr e ↦ rw e h
      ]

  All-get_or {κ} :
      (P : num.Double → Type κ) (xs : List num.Double) (i : ℕ) (d : num.Double)
      → i < length xs
      → All P xs
      → P (get_or xs i d)
  All-get_or P [] i d h a = absurd (omega (arith, h))
  All-get_or P (x ∷ xs) zero d h a = a.0
  All-get_or P (x ∷ xs) (suc i) d h a = All-get_or P xs i d (omega (arith, h)) a.1

  middle-low :
      (peak : num.Double) (scores : List num.Double)
      → leb window_count (length scores) ≡ true
      → Above peak scores
      → num.less peak (middle num (sort num.less scores)) ≡ false
  unfolding middle
  middle-low peak scores enough h =
      let sorted = sort num.less scores in
      let size = length-sort num.less scores in
      All-get_or (λ s. num.less peak s ≡ false) sorted (length sorted / 2) (zero_double num)
        (half (length sorted) (length scores) size enough)
        (sort-All num.less (λ s. num.less peak s ≡ false) scores h)
    where
      half : (m n : ℕ) → m ≡ n → leb 3 n ≡ true → m / 2 < m
      half m n e h = ground arith

  pub score_windows-high :
      (t : Totals) (w : Windows num)
      → Highest w
      → num.less (score_windows num t w).peak_score (score_windows num t w).final_score ≡ false
  unfolding score_windows Highest
  score_windows-high t w h = elim (Bool-cases (leb window_count (length w.scores))) [
    | inl e ↦ rw e (middle-low w.peak_score w.scores e h)
    | inr e ↦ rw e (larger-right w.peak_score (score_from num t.work t.elapsed_ns))
  ]
