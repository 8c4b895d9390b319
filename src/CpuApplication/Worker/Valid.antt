-- ===== src/CpuApplication/Worker/Valid.antt =====
-- A worker on a workload of the constructor reports no error and leaves valid output.
use native.Mathlib.Nat.{mul-suc}
use rapidbench.Prelude.{
  ℕ, zero, suc, ◌+◌, ◌*◌, ◌%◌, ◌^◌, ◌≤◌, ◌<◌, ◌≡◌, refl, sym, ap, ◌∙◌, subst, Bool, true, not, List,
  [], ◌∷◌, length, leb, if_intro, Option, some, arith,
}
use rapidbench.Prelude.Int.{ℤ, pos}
use rapidbench.Workload.Json.{◌>>=◌}
use rapidbench.Workload.Application.{
  CpuApplicationTest, CpuApplicationWorkload, Sizes, create, run_batch, validate, units_per_batch,
}
use rapidbench.Workload.Application.Batch.{create-run_batch}
use rapidbench.CpuApplication.Worker.{
  Worker, Round, Course, Measuring, warm_up, is_astray, check_affinity, after_batch, starting,
  measure, with_elapsed, after_second_gate, after_first_gate, concluded, after_first_batch,
  run_worker,
}

-- A batch leaves the workload as it is, and counts so many units.
abbrev IsStable : ℕ → CpuApplicationWorkload → Type 0
IsStable u v = run_batch v ≡ some (u, v)

warm_up-IsStable : (n u : ℕ) (v : CpuApplicationWorkload) → IsStable u v → warm_up n v ≡ some v
unfolding warm_up
warm_up-IsStable zero u v s = refl
warm_up-IsStable (suc n) u v s =
    ap (λ o. o >>= λ (units, w). warm_up n w) s ∙ warm_up-IsStable n u v s

-- In the loop: the workload is the stable one, and what is published is what was counted.
abbrev Counts : CpuApplicationWorkload → ℕ → Measuring → Type 0
Counts v units y = (y.worker.workload ≡ v) × (y.units ≡ units) × (y.worker.units ≡ units)

check_affinity-Counts :
    (v : CpuApplicationWorkload) (units : ℕ) (r : Round) (y : Measuring)
    → Counts v units y
    → Counts v units (check_affinity r y)
unfolding check_affinity
check_affinity-Counts v units r y c =
    if_intro (Counts v units) (not (leb y.next_affinity_check r.last_end)) _ _ (λ early. c)
      (λ due. if_intro (Counts v units) (is_astray r y) _ _ (λ astray. c) (λ right. c))

after_batch-Counts :
    (r : Round) (u n : ℕ) (v : CpuApplicationWorkload) (y : Measuring)
    → y.units ≡ n
    → Counts v ((n + u) % 2 ^ 64) (after_batch r u v y)
unfolding after_batch
after_batch-Counts r u n v y e =
    let sum = ap (λ k. (k + u) % 2 ^ 64) e in check_affinity-Counts v _ r _ (refl, sum, sum)

measure-Counts :
    (rs : List Round) (u n : ℕ) (v : CpuApplicationWorkload) (y : Measuring)
    → IsStable u v
    → n < 2 ^ 64
    → Counts v n y
    → (z : Measuring) × (measure rs y ≡ some z) × Counts v ((n + u * length rs) % 2 ^ 64) z
unfolding measure
measure-Counts [] u n v y s l (w, a, b) =
    let same : n ≡ (n + u * 0) % 2 ^ 64 = omega (arith, l) in (y, refl, (w, a ∙ same, b ∙ same))
measure-Counts (r ∷ rs) u n v y s l (w, a, b) =
    let next = after_batch r u v y in
    let sum = (n + u) % 2 ^ 64 in
    let (z, e, (c, d, f)) =
      measure-Counts rs u sum v next s (omega arith) (after_batch-Counts r u n v y a) in
    let same : (sum + u * length rs) % 2 ^ 64 ≡ (n + u * suc (length rs)) % 2 ^ 64 =
      omega (arith, mul-suc u (length rs)) in
    (
      z,
      ap (λ o. o >>= λ (units, x). measure rs (after_batch r units x y)) (ap run_batch w ∙ s) ∙ e,
      (c, d ∙ same, f ∙ same),
    )

-- What comes of a worker past the first gate.
abbrev FineOption : CpuApplicationWorkload → ℕ → Bool → Option Worker → Type 0
FineOption v units measured o =
    (w : Worker) × (o ≡ some w) × (w.workload ≡ v) × (measured ≡ true → w.units ≡ units)

after_second_gate-FineOption :
    (c : Course) (u : ℕ) (v : CpuApplicationWorkload) (w : Worker)
    → IsStable u v
    → w.workload ≡ v
    → w.units ≡ 0
    → FineOption v (u * length c.rounds % 2 ^ 64) c.passes_second_gate (after_second_gate c w)
unfolding after_second_gate with_elapsed
after_second_gate-FineOption c u v w s e none =
    let (z, path, (a, b, d)) =
      measure-Counts c.rounds u 0 v (starting c w) s (omega arith) (e, refl, none) in
    if_intro (λ o. FineOption v (u * length c.rounds % 2 ^ 64) c.passes_second_gate o)
      c.passes_second_gate _ _
      (λ through. (
        with_elapsed c.start z,
        ap (λ o. o >>= λ y. some (with_elapsed c.start y)) path,
        a,
        λ m. d ∙ omega arith,
      ))
      (λ stopped. (w, refl, e, λ m. absurd (ground (arith, m, stopped))))

after_first_gate-FineOption :
    (c : Course) (u : ℕ) (v : CpuApplicationWorkload) (w : Worker)
    → IsStable u v
    → w.workload ≡ v
    → w.units ≡ 0
    → FineOption v (u * length c.rounds % 2 ^ 64) c.passes_second_gate (after_first_gate c w)
unfolding after_first_gate
after_first_gate-FineOption c u v w s e none =
    let warm = ap (warm_up c.warm_up_batches) e ∙ warm_up-IsStable c.warm_up_batches u v s in
    let passed = ap (λ o. o >>= λ x. after_second_gate c (record w { workload = x })) warm in
    subst (FineOption v (u * length c.rounds % 2 ^ 64) c.passes_second_gate) (sym passed)
      (after_second_gate-FineOption c u v (record w { workload = v }) s refl none)

-- What a whole run of a worker comes to, for units of a batch.
abbrev pub Fine : Course → ℕ → Worker × ℤ → Type 0
Fine c u p =
    (p.1 ≡ pos 0)
    × (validate p.0.workload ≡ true)
    × (c.passes_first_gate ≡ true
        → c.passes_second_gate ≡ true
        → p.0.units ≡ u * length c.rounds % 2 ^ 64)

after_first_batch-Fine :
    (c : Course) (u units : ℕ) (v : CpuApplicationWorkload) (w : Worker)
    → IsStable u v
    → validate v ≡ true
    → w.units ≡ 0
    → Fine c u (after_first_batch c w (some (units, v)))
unfolding after_first_batch concluded
after_first_batch-Fine c u units v w s valid none =
    let ready = record w { workload = v } in
    let (last, e, same, counted) = after_first_gate-FineOption c u v ready s refl none in
    if_intro (Fine c u) (not (validate v)) _ _ (λ invalid. absurd (ground (arith, invalid, valid)))
      (λ fine.
        if_intro (Fine c u) c.passes_first_gate (concluded ready (after_first_gate c ready)) _
          (λ through.
            subst (λ o. Fine c u (concluded ready o)) (sym e)
              (refl, ap validate same ∙ valid, λ first second. counted second))
          (λ stopped. (refl, valid, λ first. absurd (ground (arith, first, stopped)))))

-- A worker whose workload the constructor made, of at least four keys, of at least three pixels a
-- side and at most 2^32 in all, and of at most 2^32 rows of JSON, never reports an error, whatever the gates, the deadlines and the scheduler do, and
-- when it is done its workload passes Validate; if it passed both gates, it has counted the units of
-- one batch for every measured batch, modulo 2 ^ 64, and none for the first batch and the warm-up.
pub run_worker-Fine :
    (t : CpuApplicationTest) (sizes : Sizes) (c : Course) (w : Worker)
    → 4 ≤ sizes.sort_keys
    → 3 ≤ sizes.image_side
    → sizes.image_side * sizes.image_side ≤ 2 ^ 32
    → sizes.json_rows ≤ 2 ^ 32
    → create t sizes ≡ some w.workload
    → w.units ≡ 0
    → Fine c (units_per_batch w.workload) (run_worker c w)
unfolding run_worker
run_worker-Fine t sizes c w k h b j made none =
    let (v, ran, valid, again) = create-run_batch t sizes w.workload k h b j made in
    let pinned = record w {
      performance_requested = c.performance_requested;
      affinity_failed = not c.pins;
    } in
    subst (λ o. Fine c (units_per_batch w.workload) (after_first_batch c pinned o)) (sym ran)
      (after_first_batch-Fine c (units_per_batch w.workload) _ v pinned again valid none)
