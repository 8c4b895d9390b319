-- ===== src/Cpu/Gates/Rank.antt =====
-- How many actions a run has still to take, and that a worker that can act takes one.
use rapidbench.Prelude.{
  ℕ, zero, suc, ◌+◌, ◌-◌, ◌*◌, ◌<◌, ◌≡◌, inl, inr, refl, ap, true, false, ◌||◌, some, List, [], ◌∷◌,
  ◌++◌, arith, length, length-set, get_elem?, set, Bool-cases,
}
use rapidbench.Cpu.Gates.{
  WorkerPhase, w_starting, w_at_warmup, w_warming, w_at_measurement, w_measuring, w_left,
  w_finished, RunPhase, c_creating, c_waits_ready, c_waits_warm, c_checked, c_measures, c_joins,
  c_ended, SharedRun, AtPhase, has_returned, Step, asks_no_stop, arrives, warms, is_warm, leaves,
  measures, finishes,
}

-- The actions that a worker, or Run, has still to take at most.
abbrev pub worker_rank : WorkerPhase → ℕ
worker_rank w_starting = 5
worker_rank w_at_warmup = 4
worker_rank w_warming = 3
worker_rank w_at_measurement = 2
worker_rank w_measuring = 1
worker_rank w_left = 0
worker_rank w_finished = 0

abbrev pub run_rank : RunPhase → ℕ
run_rank c_creating = 6
run_rank c_waits_ready = 5
run_rank c_waits_warm = 4
run_rank c_checked = 3
run_rank c_measures = 2
run_rank c_joins = 1
run_rank c_ended = 0

abbrev pub ranks : List WorkerPhase → ℕ
ranks [] = 0
ranks (w ∷ ws) = worker_rank w + ranks ws

abbrev pub rank : SharedRun → ℕ
rank y = 6 * (y.selected - length y.workers) + ranks y.workers + run_rank y.run

pub ranks-set :
    (xs : List WorkerPhase) (i : ℕ) (a b : WorkerPhase)
    → get_elem? xs i ≡ some a
    → ranks (set xs i b) + worker_rank a ≡ ranks xs + worker_rank b
ranks-set [] i a b e = cc
ranks-set (x ∷ xs) zero a b e = let same : x ≡ a = cc in omega (arith, ap worker_rank same)
ranks-set (x ∷ xs) (suc i) a b e = omega (arith, ranks-set xs i a b e)

pub ranks-append : (xs : List WorkerPhase) → ranks (xs ++ (w_starting ∷ [])) ≡ ranks xs + 5
ranks-append [] = refl
ranks-append (x ∷ xs) = omega (arith, ranks-append xs)

-- One action that brings the end nearer, asks for no stop and leaves the stop flag alone.
abbrev pub GoesOn : SharedRun → Type 0
GoesOn y =
    (z : SharedRun) × (s : Step y z) × (asks_no_stop y z s ≡ true)
    × (rank z < rank y)
    × (z.stop_requested ≡ y.stop_requested)

-- A worker that takes one action lowers the rank.
pub rank-set :
    (y : SharedRun) (i : ℕ) (a b : WorkerPhase)
    → AtPhase y i a
    → worker_rank b < worker_rank a
    → 6 * (y.selected - length (set y.workers i b)) + ranks (set y.workers i b) + run_rank y.run
      < rank y
rank-set y i a b g l = omega (arith, ranks-set y.workers i a b g, length-set y.workers i b)

-- A worker that has not returned can act, if the gate it stands at is open for it.
pub worker-GoesOn :
    (y : SharedRun) (i : ℕ) (a : WorkerPhase)
    → AtPhase y i a
    → has_returned a ≡ false
    → (a ≡ w_at_warmup → (y.warmup_started || y.stop_requested) ≡ true)
    → (a ≡ w_at_measurement → (y.measurement_started || y.stop_requested) ≡ true)
    → GoesOn y
worker-GoesOn y i w_starting g r o m = (
  record y { workers = set y.workers i w_at_warmup; ready = y.ready + 1 },
  arrives y i g,
  refl,
  rank-set y i w_starting w_at_warmup g (omega arith),
  refl,
)
worker-GoesOn y i w_at_warmup g r o m = (
  record y { workers = set y.workers i w_warming },
  warms y i g (o refl),
  refl,
  rank-set y i w_at_warmup w_warming g (omega arith),
  refl,
)
worker-GoesOn y i w_warming g r o m = (
  record y { workers = set y.workers i w_at_measurement; warmup_done = y.warmup_done + 1 },
  is_warm y i g,
  refl,
  rank-set y i w_warming w_at_measurement g (omega arith),
  refl,
)
worker-GoesOn y i w_at_measurement g r o m = elim (Bool-cases y.stop_requested) [
  | inl stop ↦ (
    record y { workers = set y.workers i w_left },
    leaves y i g stop,
    refl,
    rank-set y i w_at_measurement w_left g (omega arith),
    refl,
  )
  | inr go ↦ (
    record y { workers = set y.workers i w_measuring },
    measures y i g (ground (arith, m refl)) go,
    refl,
    rank-set y i w_at_measurement w_measuring g (omega arith),
    refl,
  )
]
worker-GoesOn y i w_measuring g r o m = (
  record y { workers = set y.workers i w_finished; finished = y.finished + 1 },
  finishes y i g,
  refl,
  rank-set y i w_measuring w_finished g (omega arith),
  refl,
)
worker-GoesOn y i w_left g r o m = cc
worker-GoesOn y i w_finished g r o m = cc
