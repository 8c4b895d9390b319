-- ===== src/Cpu/Gates/Progress.antt =====
-- A run of the CPU engine can always go on, but where its stop is lost.
use rapidbench.Prelude.{
  ℕ, zero, suc, ◌+◌, ◌<◌, ◌≡◌, ◌⊎◌, inl, inr, refl, sym, ap, ◌∙◌, Bool, true, false, [], ◌∷◌, ◌++◌,
  arith, ◌==◌, length, Bool-cases,
}
use rapidbench.Cpu.Gates.{
  WorkerPhase, w_starting, w_at_warmup, w_warming, w_at_measurement, w_measuring, w_left,
  w_finished, RunPhase, c_creating, c_waits_ready, c_waits_warm, c_checked, c_measures, c_joins,
  c_ended, SharedRun, new_run, AtPhase, has_returned, creates, created, opens_warmup, passes_check,
  cancels, opens_measurement, sees_finished, joined, Steps, here, then_step, IsQuiet,
}
use rapidbench.Cpu.Gates.Counts.{
  tally, tally-le, tally-full, tally-missing, tally-some, length-append_one,
}
use rapidbench.Cpu.Gates.Invariant.{
  is_ready, is_finished, is_left, was_warm, has_all, opened_warmup, opened_measurement,
  IsConsistent, Step-IsConsistent, Steps-IsConsistent, new_run-IsConsistent,
}
use rapidbench.Cpu.Gates.Lost.{IsLost}
use rapidbench.Cpu.Gates.Rank.{run_rank, rank, GoesOn, ranks-append, worker-GoesOn}

-- A phase that is not counted yet: the worker has not returned, and which gates it may stand at.
unready : (a : WorkerPhase) → is_ready a ≡ false → a ≡ w_starting
unready w_starting e = refl
unready w_at_warmup e = cc
unready w_warming e = cc
unready w_at_measurement e = cc
unready w_measuring e = cc
unready w_left e = cc
unready w_finished e = cc

unwarm : (a : WorkerPhase) → was_warm a ≡ false → has_returned a ≡ false
unwarm w_starting e = refl
unwarm w_at_warmup e = refl
unwarm w_warming e = refl
unwarm w_at_measurement e = cc
unwarm w_measuring e = cc
unwarm w_left e = cc
unwarm w_finished e = cc

returned_or_left :
    (a : WorkerPhase) → is_finished a ≡ false → (has_returned a ≡ false) ⊎ (is_left a ≡ true)
returned_or_left w_starting e = inl refl
returned_or_left w_at_warmup e = inl refl
returned_or_left w_warming e = inl refl
returned_or_left w_at_measurement e = inl refl
returned_or_left w_measuring e = inl refl
returned_or_left w_left e = inr refl
returned_or_left w_finished e = cc

all_or_one :
    (p : WorkerPhase → Bool) (y : SharedRun)
    → (tally p y.workers ≡ length y.workers)
      ⊎ ((i : ℕ) × (a : WorkerPhase) × AtPhase y i a × (p a ≡ false))
all_or_one p y = elim (Bool-cases (tally p y.workers == length y.workers)) [
  | inl e ↦ inl (ground arith)
  | inr e ↦ inr (tally-missing p y.workers (ground (arith, tally-le p y.workers)))
]

run-GoesOn :
    (y : SharedRun) (r : RunPhase)
    → y.run ≡ r
    → IsConsistent y
    → (r ≡ c_ended) ⊎ (IsLost y ⊎ GoesOn y)
run-GoesOn y c_creating e h = elim (Bool-cases (length y.workers == y.selected)) [
  | inl full ↦ inr (
      inr (
        record y { run = c_waits_ready },
        created y e (ground arith),
        refl,
        omega (arith, ap run_rank e),
        refl,
      ))
  | inr l ↦ inr (
      inr (
        record y { workers = y.workers ++ (w_starting ∷ []) },
        creates y e (ground arith),
        refl,
        ground (arith, ranks-append y.workers, length-append_one y.workers w_starting),
        refl,
      ))
]
run-GoesOn y c_waits_ready e h = elim (all_or_one is_ready y) [
  | inl all ↦ inr (
      inr (
        record y { warmup_started = true; run = c_waits_warm },
        opens_warmup y e (ground (arith, ap has_all e)),
        refl,
        omega (arith, ap run_rank e),
        refl,
      ))
  | inr (i, a, g, f) ↦
      let at_start = unready a f in
      inr (
        inr (
          worker-GoesOn y i a g (ap has_returned at_start)
            (λ w. absurd (ground (arith, f, ap is_ready w)))
            (λ w. absurd (ground (arith, f, ap is_ready w)))))
]
run-GoesOn y c_waits_warm e h = elim (all_or_one was_warm y) [
  | inl all ↦ elim (Bool-cases y.stop_requested) [
    | inl stop ↦ inr (
        inr (
          record y { measurement_started = true; run = c_joins },
          cancels y e (ground (arith, ap has_all e)) stop,
          refl,
          omega (arith, ap run_rank e),
          refl,
        ))
    | inr go ↦ inr (
        inr (
          record y { run = c_checked },
          passes_check y e (ground (arith, ap has_all e)) go,
          refl,
          omega (arith, ap run_rank e),
          refl,
        ))
  ]
  | inr (i, a, g, f) ↦ inr (
      inr (
        worker-GoesOn y i a g (unwarm a f) (λ w. ground (arith, ap opened_warmup e))
          (λ w. absurd (ground (arith, f, ap was_warm w)))))
]
run-GoesOn y c_checked e h = inr (
    inr (
      record y { measurement_started = true; run = c_measures },
      opens_measurement y e,
      refl,
      omega (arith, ap run_rank e),
      refl,
    ))
run-GoesOn y c_measures e h = elim (all_or_one is_finished y) [
  | inl all ↦ inr (
      inr (
        record y { run = c_joins },
        sees_finished y e (ground (arith, ap has_all e)),
        refl,
        omega (arith, ap run_rank e),
        refl,
      ))
  | inr (i, a, g, f) ↦ elim (returned_or_left a f) [
    | inl on ↦ inr (
        inr (
          worker-GoesOn y i a g on (λ w. ground (arith, ap opened_warmup e))
            (λ w. ground (arith, ap opened_measurement e))))
    | inr left ↦ inr (inl (e, tally-some is_left y.workers i a g left))
  ]
]
run-GoesOn y c_joins e h = elim (all_or_one has_returned y) [
  | inl all ↦ inr (
      inr (
        record y { run = c_ended },
        joined y e (tally-full has_returned y.workers all),
        refl,
        omega (arith, ap run_rank e),
        refl,
      ))
  | inr (i, a, g, f) ↦ inr (
      inr (
        worker-GoesOn y i a g f (λ w. ground (arith, ap opened_warmup e))
          (λ w. ground (arith, ap opened_measurement e))))
]
run-GoesOn y c_ended e h = inl refl

-- Where a run can be led to without a further stop.
abbrev pub Ends : SharedRun → Type 0
Ends y =
    (z : SharedRun) × (path : Steps y z) × IsQuiet y z path
    × ((z.run ≡ c_ended) ⊎ (IsLost z × (y.stop_requested ≡ true)))

lost-stopped : (y : SharedRun) → IsConsistent y → IsLost y → y.stop_requested ≡ true
lost-stopped y h (m, k) = elim (Bool-cases y.stop_requested) [
  | inl stop ↦ stop
  | inr go ↦ absurd (ground arith)
]

Ends-in : (fuel : ℕ) (y : SharedRun) → rank y < fuel → IsConsistent y → Ends y
Ends-in zero y l h = absurd (omega arith)
Ends-in (suc fuel) y l h = elim (run-GoesOn y y.run refl h) [
  | inl e ↦ (y, here y, tt, inl e)
  | inr (inl lost) ↦ (y, here y, tt, inr (lost, lost-stopped y h lost))
  | inr (inr (x, step, quiet, lower, same)) ↦
      let (z, rest, calm, result) = Ends-in fuel x (omega arith) (Step-IsConsistent y x step h) in
      (
        z,
        then_step y x z step rest,
        (quiet, calm),
        elim result [ inl e ↦ inl e | inr (lost, s) ↦ inr (lost, sym same ∙ s) ],
      )
]

-- The gates never hold each other up but in that one case: every state that a run comes to can be led,
-- by actions of Run and the workers that ask for no stop and create every thread, to the end of Run,
-- or a stop was requested before and it can be led so to where Run waits for a worker that left
-- uncounted.
pub run-Ends : (n : ℕ) (y : SharedRun) → Steps (new_run n) y → Ends y
run-Ends n y path =
    Ends-in (rank y + 1) y (omega arith)
      (Steps-IsConsistent (new_run n) y path (new_run-IsConsistent n))
