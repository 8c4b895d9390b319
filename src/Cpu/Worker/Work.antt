-- ===== src/Cpu/Worker/Work.antt =====
-- What a worker publishes is what it has done.
use Prim.Native.Nat.{bit_xor}
use rapidbench.Prelude.{
  ℕ, zero, suc, ◌+◌, ◌*◌, ◌%◌, ◌^◌, ◌<◌, ◌≡◌, refl, sym, ap, ◌∙◌, Bool, true, false, List, [], ◌∷◌,
  leb, if_intro, length, arith,
}
use rapidbench.Prelude.Int.{ℤ, pos, negsuc, signed32, eqb_ℤ}
use rapidbench.Cpu.Telemetry.{WorkerContext}
use rapidbench.Cpu.Workload.{
  Floats, CpuWorkloadState, initialize_cpu_workload, run_cpu_workload_batch,
}
use rapidbench.Cpu.Worker.{
  pin_worker_with_retry, check_worker_cpu, Round, check_or_pin, check_if_due, repin, run_batches,
  Working, warm_up, measure_rounds, Course, prepare_worker, warmed, pinned_again, measured,
  cpu_time, last_check, publish_worker, run_worker, with_checksum,
}

-- Pinning and checking leave the work alone.
check_worker_cpu-work :
    (actual_cpu : ℤ) (pins : ℕ → Bool) (w : WorkerContext)
    → (check_worker_cpu actual_cpu pins w).completed_work ≡ w.completed_work
unfolding check_worker_cpu pin_worker_with_retry
check_worker_cpu-work (negsuc n) pins w = refl
check_worker_cpu-work (pos n) pins w =
    if_intro (λ (v : WorkerContext). v.completed_work ≡ w.completed_work)
      (eqb_ℤ (pos n) (signed32 w.logical_cpu)) _ _ (λ y. refl) (λ n. refl)

last_check-work :
    (num : Floats) (c : Course num) (w : WorkerContext)
    → (last_check num c w).completed_work ≡ w.completed_work
unfolding last_check
last_check-work num c w =
    if_intro (λ (v : WorkerContext). v.completed_work ≡ w.completed_work) w.affinity_ok _ _
      (λ y. check_worker_cpu-work c.last.actual_cpu c.last.check_pins w) (λ n. refl)

check_if_due-work :
    (r : Round) (since : ℕ) (w : WorkerContext)
    → (check_if_due r since w).0.completed_work ≡ w.completed_work
unfolding check_if_due check_or_pin pin_worker_with_retry
check_if_due-work r since w =
    if_intro (λ (p : WorkerContext × ℕ). p.0.completed_work ≡ w.completed_work)
      (leb 256 (since + 8)) _ _
      (λ due.
        if_intro (λ (v : WorkerContext). v.completed_work ≡ w.completed_work) w.affinity_ok _ _
          (λ y. check_worker_cpu-work r.actual_cpu r.check_pins w) (λ n. refl))
      (λ early. refl)

repin-work : (r : Round) (w : WorkerContext) → (repin r w).completed_work ≡ w.completed_work
unfolding repin pin_worker_with_retry
repin-work r w =
    if_intro (λ (v : WorkerContext). v.completed_work ≡ w.completed_work) w.affinity_ok _ _
      (λ y. refl) (λ n. refl)

module _ (num : Floats) where
  run_batches-add :
      (m n : ℕ) (s : CpuWorkloadState num)
      → run_batches num (m + n) s ≡ run_batches num n (run_batches num m s)
  unfolding run_batches
  run_batches-add zero n s =
      let same : 0 + n ≡ n = omega arith in ap (λ k. run_batches num k s) same
  run_batches-add (suc m) n s =
      let same : suc m + n ≡ suc (m + n) = omega arith in
      ap (λ k. run_batches num k s) same ∙ run_batches-add m n (run_cpu_workload_batch num s)

  warm_up-work :
      (rs : List Round) (y : Working num)
      → ((warm_up num rs y).context.completed_work ≡ y.context.completed_work)
        × ((warm_up num rs y).workload ≡ run_batches num (8 * length rs) y.workload)
        × ((warm_up num rs y).local_work ≡ y.local_work)
  unfolding warm_up
  warm_up-work [] y = (refl, unfold run_batches in refl, refl)
  warm_up-work (r ∷ rs) y =
      let (work, batches, same) = warm_up-work rs _ in
      (
        work ∙ check_if_due-work r y.since (repin r y.context) ∙ repin-work r y.context,
        batches
            ∙ sym (run_batches-add 8 (8 * length rs) y.workload)
            ∙ ap (λ k. run_batches num k y.workload) (omega arith),
        same,
      )

  mod_lt : (n : ℕ) → n % 2 ^ 64 < 2 ^ 64
  mod_lt n = omega arith

  measure_rounds-work :
      (rs : List Round) (y : Working num)
      → y.local_work < 2 ^ 64
      → ((measure_rounds num rs y).local_work ≡ (y.local_work + 8192 * length rs) % 2 ^ 64)
        × ((measure_rounds num rs y).workload ≡ run_batches num (8 * length rs) y.workload)
  unfolding measure_rounds
  measure_rounds-work [] y h = (omega (arith, h), unfold run_batches in refl)
  measure_rounds-work (r ∷ rs) y h =
      let (work, batches) = measure_rounds-work rs _ (mod_lt (y.local_work + 1024 * 8)) in
      (
        omega (arith, work),
        batches
            ∙ sym (run_batches-add 8 (8 * length rs) y.workload)
            ∙ ap (λ k. run_batches num k y.workload) (omega arith),
      )

  prepare_worker-work :
      (c : Course num) (w : WorkerContext)
      → (prepare_worker num c w).completed_work ≡ w.completed_work
  unfolding prepare_worker
  prepare_worker-work c w =
      let asked = record w { performance_request_ok = c.performance_request_ok } in
      let pinned = pin_worker_with_retry c.first.pins asked in
      if_intro (λ (v : WorkerContext). v.completed_work ≡ w.completed_work) pinned.affinity_ok _ _
        (λ y.
          check_worker_cpu-work c.first.actual_cpu c.first.check_pins pinned
          ∙ unfold pin_worker_with_retry in refl)
        (λ n. unfold pin_worker_with_retry in refl)

  -- The workload that a worker of this seed has after so many rounds.
  abbrev pub worked : ℕ → WorkerContext → ℕ → CpuWorkloadState num
  worked seed w rounds =
      run_batches num (8 * rounds) (initialize_cpu_workload num (bit_xor seed w.logical_cpu))

  pinned_again-work :
      (c : Course num) (w : WorkerContext)
      → (pinned_again num c w).completed_work ≡ w.completed_work
  unfolding pinned_again pin_worker_with_retry
  pinned_again-work c w =
      if_intro (λ (v : WorkerContext). v.completed_work ≡ w.completed_work) c.stopped_before_pin _ _
        (λ y. refl) (λ n. refl)

  cpu_time-work :
      (c : Course num) (w : WorkerContext) → (cpu_time num c w).completed_work ≡ w.completed_work
  unfolding cpu_time
  cpu_time-work c w =
      if_intro (λ (v : WorkerContext). v.completed_work ≡ w.completed_work)
        (leb c.cpu_time_start c.cpu_time_end) _ _ (λ y. refl) (λ n. refl)

  publish_worker-work :
      (c : Course num) (y : Working num)
      → ((publish_worker num c y).completed_work ≡ y.local_work)
        × ((publish_worker num c y).checksum ≡ y.workload.checksum)
  unfolding publish_worker with_checksum
  publish_worker-work c y = (last_check-work num c _ ∙ cpu_time-work c _, refl)

  warmed-work :
      (c : Course num) (seed : ℕ) (w : WorkerContext)
      → ((warmed num c seed w).context.completed_work ≡ w.completed_work)
        × ((warmed num c seed w).workload ≡ worked seed w (length c.warm_up_rounds))
        × ((warmed num c seed w).local_work ≡ 0)
  unfolding warmed
  warmed-work c seed w =
      let (work, batches, none) = warm_up-work c.warm_up_rounds _ in
      (work ∙ prepare_worker-work c w, batches, none)

  measured-work :
      (c : Course num) (y : Working num)
      → y.local_work ≡ 0
      → ((measured num c y).local_work ≡ 8192 * length c.measurement_rounds % 2 ^ 64)
        × ((measured num c y).workload
            ≡ run_batches num (8 * length c.measurement_rounds) y.workload)
  unfolding measured
  measured-work c y none =
      let (work, batches) =
        measure_rounds-work c.measurement_rounds
          (record y {
            context = record (pinned_again num c y.context) { affinity_violated = false };
            since = 0;
          })
          (omega (arith, none)) in
      (omega (arith, work, none), batches)

  -- A worker that is not stopped at the second gate counts itself as finished, publishes 8192 units of
  -- work (modulo 2 ^ 64) for every round of the measurement and none for the warm-up, and as its
  -- checksum that of a workload after the 8 batches of each round of both. One that is stopped there
  -- publishes the warm-up's checksum, leaves the work it had published, and does not count itself.
  pub run_worker-work :
      (c : Course num) (seed : ℕ) (w : WorkerContext)
      → let (published, counted) = run_worker num c seed w in
        let warm = length c.warm_up_rounds in
        let rounds = length c.measurement_rounds in
        (c.stopped_at_gate ≡ false
          → (published.completed_work ≡ 8192 * rounds % 2 ^ 64)
            × (published.checksum ≡ (worked seed w (warm + rounds)).checksum)
            × (counted ≡ true))
        × (c.stopped_at_gate ≡ true
            → (published.completed_work ≡ w.completed_work)
              × (published.checksum ≡ (worked seed w warm).checksum)
              × (counted ≡ false))
  unfolding run_worker with_checksum
  run_worker-work c seed w =
      let warm = warmed num c seed w in
      let stopped : WorkerContext × Bool =
        (with_checksum num warm.workload.checksum (pinned_again num c warm.context), false) in
      let finished : WorkerContext × Bool = (publish_worker num c (measured num c warm), true) in
      let (before, batches, none) = warmed-work c seed w in
      let (work, more) = measured-work c warm none in
      let (published, checksum) = publish_worker-work c (measured num c warm) in
      (
        λ go.
            if_intro
              (λ (o : WorkerContext × Bool).
                (o.0.completed_work ≡ 8192 * length c.measurement_rounds % 2 ^ 64)
                × (o.0.checksum
                    ≡ (worked seed w
                        (length c.warm_up_rounds + length c.measurement_rounds)).checksum)
                × (o.1 ≡ true))
              c.stopped_at_gate stopped finished (λ stop. absurd (ground (arith, stop, go)))
              (λ on. (
                published ∙ work,
                checksum
                    ∙ ap (λ s. s.checksum)
                        (more
                          ∙ ap (run_batches num (8 * length c.measurement_rounds)) batches
                          ∙ sym (run_batches-add _ _ _)
                          ∙ ap
                              (λ k.
                                run_batches num k
                                  (initialize_cpu_workload num (bit_xor seed w.logical_cpu)))
                              (omega arith)),
                refl,
              )),
        λ stop.
            if_intro
              (λ (o : WorkerContext × Bool).
                (o.0.completed_work ≡ w.completed_work)
                × (o.0.checksum ≡ (worked seed w (length c.warm_up_rounds)).checksum)
                × (o.1 ≡ false))
              c.stopped_at_gate stopped finished
              (λ yes.
                (pinned_again-work c warm.context ∙ before, ap (λ s. s.checksum) batches, refl))
              (λ go. absurd (ground (arith, stop, go))),
      )
