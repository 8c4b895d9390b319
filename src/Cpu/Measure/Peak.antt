-- ===== src/Cpu/Measure/Peak.antt =====
-- The last snapshot of a measured run: its state, and its peak beside its score.
use rapidbench.Prelude.{
  ℕ, ◌≡◌, refl, sym, ap, ◌∙◌, subst, Bool, true, false, List, [], ◌∷◌, leb, if◌then◌else◌, if_intro,
  Bool-cases, inl, inr, ==_iff,
}
use rapidbench.Prelude.Doubles.{Doubles, larger}
use rapidbench.Prelude.Sort.{StrictWeak}
use rapidbench.Topology.Types.{FrequencyResidency}
use rapidbench.Cpu.Types.{State, Phase, k_none, k_finalize, k_cancelled, k_completed}
use rapidbench.Cpu.Telemetry.{Totals, Peaks, FrequencyResidencyBaseline, read_totals}
use rapidbench.Cpu.Engine.{
  Engine, update, publish_affinity, publish_telemetry, publish_measurement, publish_state,
  add_quality_flag,
}
use rapidbench.Cpu.Windows.{Windows, score_from, score_windows}
use rapidbench.Cpu.Measure.{
  Plan, Observation, Measuring, observe, measure, sample_if_due, publish_if_due, publish_cancelled,
  publish_completed, finish, starting, measure_and_finish, quality_high_score_variation,
  report_if_due,
}
use rapidbench.Cpu.Windows.Highest.{
  larger-right, Highest, close_window-Highest, close_final_window-Highest, score_windows-high,
}

module _ (num : Doubles) (order : StrictWeak num.less) where
  -- The snapshot is the run's.
  Owned : ℕ → Engine num → Type 0
  Owned n e = e.snapshot.run_id ≡ n

  update_own :
      (n : ℕ) (f : Engine num → Engine num) (e : Engine num) → Owned n e → update num n f e ≡ f e
  unfolding update Owned
  update_own n f e own = rw ((==_iff e.snapshot.run_id n).1 own) refl

  update-Owned :
      (n : ℕ) (f : Engine num → Engine num) (e : Engine num)
      → Owned n (f e)
      → Owned n e
      → Owned n (update num n f e)
  update-Owned n f e keeps own = subst (Owned n) (sym (update_own n f e own)) keeps

  told-Owned :
      (p : Plan) (peaks : Peaks) (t : Totals) (hint : Bool) (failures : ℕ) (e : Engine num)
      → Owned p.run_id e
      → Owned p.run_id (
          publish_telemetry num p.run_id peaks p.group_count t p.worker_count hint p.request_active
            (publish_affinity num p.run_id failures e))
  unfolding publish_affinity publish_telemetry Owned
  told-Owned p peaks t hint failures e own =
      let counted = update-Owned p.run_id _ e own own in
      update-Owned p.run_id _ (publish_affinity num p.run_id failures e) counted counted

  abbrev Sound : Plan → Measuring num → Type 0
  Sound p m = Highest num order m.windows × Owned p.run_id m.engine

  sample_if_due-Sound :
      (p : Plan) (o : Observation) (m : Measuring num)
      → Sound p m
      → Sound p (sample_if_due num p o m)
  unfolding sample_if_due
  sample_if_due-Sound p o m (high, own) = elim (Bool-cases (leb m.next_frequency_sample o.now)) [
    | inl e ↦ rw e (high, told-Owned p _ (read_totals o.workers) o.hint_active _ m.engine own)
    | inr e ↦ rw e (high, own)
  ]

  measured-Owned :
      (n elapsed work : ℕ) (score progress variation peak : num.Double) (checksum : ℕ)
      (e : Engine num)
      → Owned n e
      → Owned n (publish_measurement num n elapsed work score progress variation peak checksum e)
  unfolding publish_measurement Owned
  measured-Owned n elapsed work score progress variation peak checksum e own =
      update-Owned n _ e own own

  publish_if_due-Sound :
      (p : Plan) (o : Observation) (m : Measuring num)
      → Sound p m
      → Sound p (publish_if_due num p o m)
  unfolding publish_if_due
  publish_if_due-Sound p o m (high, own) = elim (Bool-cases (leb m.next_publish o.now)) [
    | inl e ↦ rw e (high, measured-Owned p.run_id _ _ _ _ _ _ _ m.engine own)
    | inr e ↦ rw e (high, own)
  ]

  observe-Sound :
      (p : Plan) (o : Observation) (m : Measuring num) → Sound p m → Sound p (observe num p o m)
  unfolding observe
  observe-Sound p o m (high, own) =
      let reported = record m { hints = report_if_due p.hint_update_ns o.now m.hints } in
      let (high_sampled, own_sampled) = sample_if_due-Sound p o reported (high, own) in
      publish_if_due-Sound p o _ (close_window-Highest num order _ _ _ _ high_sampled, own_sampled)

  measure-Sound :
      (p : Plan) (os : List Observation) (m : Measuring num)
      → Sound p m
      → Sound p (measure num p os m)
  unfolding measure
  measure-Sound p [] m s = s
  measure-Sound p (o ∷ os) m s =
      let seen = observe-Sound p o m s in
      if_intro (Sound p) o.finished _ _ (λ over. seen)
        (λ more. measure-Sound p os (observe num p o m) seen)

  -- What the last snapshot of a run says.
  abbrev pub Told : Bool → Engine num → Type 0
  Told stopped e =
      (e.snapshot.state ≡ (if stopped then k_cancelled else k_completed))
      × (num.less e.snapshot.peak_score e.snapshot.current_value ≡ false)

  update-twice :
      (n : ℕ) (f g : Engine num → Engine num) (e : Engine num)
      → Owned n (f e)
      → Owned n e
      → update num n g (update num n f e) ≡ g (f e)
  update-twice n f g e keeps own =
      ap (update num n g) (update_own n f e own) ∙ update_own n g (f e) keeps

  -- The end of a run: a measurement and a state.
  ended-Told :
      (n elapsed work : ℕ) (score progress variation peak : num.Double) (checksum : ℕ)
      → (stopped : Bool) (s : State) (phase : Phase) (e : Engine num) → Owned n e
      → s ≡ (if stopped then k_cancelled else k_completed)
      → num.less peak score ≡ false
      → Told stopped (
          publish_state num n s phase
            (publish_measurement num n elapsed work score progress variation peak checksum e))
  unfolding publish_state publish_measurement Owned
  ended-Told n elapsed work score progress variation peak checksum stopped s phase e own same low =
      let both = update-twice n _ _ e own own in
      (
        ap (λ e. e.snapshot.state) both ∙ same,
        ap (λ e. num.less e.snapshot.peak_score e.snapshot.current_value) both ∙ low,
      )

  publish_cancelled-Told :
      (p : Plan) (t : Totals) (w : Windows num) (e : Engine num)
      → Owned p.run_id e
      → Told true (publish_cancelled num p t w e)
  unfolding publish_cancelled
  publish_cancelled-Told p t w e own =
      let score = score_from num t.work t.elapsed_ns in
      ended-Told p.run_id t.elapsed_ns t.work score _ _ (larger num w.peak_score score) _ true
        k_cancelled k_none e own refl (larger-right num order w.peak_score score)

  add_quality_flag-Owned :
      (n flag : ℕ) (e : Engine num) → Owned n e → Owned n (add_quality_flag num n flag e)
  unfolding add_quality_flag Owned
  add_quality_flag-Owned n flag e own = update-Owned n _ e own own

  publish_completed-Told :
      (p : Plan) (t : Totals) (w : Windows num) (e : Engine num)
      → Highest num order w
      → Owned p.run_id e
      → Told false (publish_completed num p t w e)
  unfolding publish_completed
  publish_completed-Told p t w e high own =
      let s = score_windows num t w in
      let flagged =
        if_intro (Owned p.run_id)
          (num.less (num.quotient (num.of_word 7) (num.of_word 100)) s.variation)
          (add_quality_flag num p.run_id quality_high_score_variation e) e
          (λ y. add_quality_flag-Owned p.run_id _ e own) (λ n. own) in
      ended-Told p.run_id t.elapsed_ns t.work s.final_score _ _ s.peak_score _ false k_completed
        k_finalize _ flagged refl (score_windows-high num order t w high)

  finish-Told :
      (p : Plan) (baselines : List FrequencyResidencyBaseline) (read : ℕ → List FrequencyResidency)
      (o : Observation) (stopped : Bool) (m : Measuring num)
      → Sound p m
      → Told stopped (finish num p baselines read o stopped m)
  unfolding finish
  finish-Told p baselines read o true m (high, own) =
      publish_cancelled-Told p _ _ _ (told-Owned p _ _ _ _ m.engine own)
  finish-Told p baselines read o false m (high, own) =
      publish_completed-Told p _ _ _ (close_final_window-Highest num order _ m.windows high)
        (told-Owned p _ _ _ _ m.engine own)

  -- The last snapshot of a run that measures shows whether it was stopped, and never a peak below the
  -- score beside it: if the order of the numbers is a strict weak one, as it is without NaN, and the
  -- snapshot is the run's, whatever the rounds of the loop see, the run ends as cancelled or completed
  -- by the stop flag, and the published peak score is not less than the published score.
  pub measure_and_finish-peak :
      (p : Plan) (baselines : List FrequencyResidencyBaseline) (read : ℕ → List FrequencyResidency)
      (os : List Observation) (o : Observation) (stopped : Bool) (peaks : Peaks) (e : Engine num)
      → e.snapshot.run_id ≡ p.run_id
      → Told stopped (measure_and_finish num p baselines read os o stopped peaks e)
  unfolding measure_and_finish Highest Owned
  measure_and_finish-peak p baselines read os o stopped peaks e own =
      finish-Told p baselines read o stopped (measure num p os (starting num p peaks e))
        (measure-Sound p os (starting num p peaks e) (tt, own))
