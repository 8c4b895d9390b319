-- ===== src/Cpu/Gates.antt =====
-- native/benchmark_core/src/engine.cpp: the gates between Impl::Run and the threads of RunWorker.
-- `SharedRun` and the stop flag are the shared state; what a thread does between two gates is one
-- phase. A thread acts when its wait is over, in any order with the others.
pub mod Counts
pub mod Invariant
pub mod Lost
pub mod Rank
pub mod Progress
use rapidbench.Prelude.{
  ℕ, ◌+◌, ◌<◌, ◌≡◌, Bool, true, false, ◌||◌, ◌&&◌, Option, none, some, List, [], ◌∷◌, ◌++◌, length,
  get_elem?, set, All,
}

-- Where RunWorker is: before its first gate, waiting at it, in the warm-up, waiting at the second gate,
-- in the measurement; returned without a count, or with one.
pub data WorkerPhase : Type 0 where
  w_starting : WorkerPhase
  w_at_warmup : WorkerPhase
  w_warming : WorkerPhase
  w_at_measurement : WorkerPhase
  w_measuring : WorkerPhase
  w_left : WorkerPhase
  w_finished : WorkerPhase

-- Where Run is: creating the threads, waiting for them to be ready and to be warm, past its look at the
-- stop flag, in the loop of the measurement, in JoinAll, or returned.
pub data RunPhase : Type 0 where
  c_creating : RunPhase
  c_waits_ready : RunPhase
  c_waits_warm : RunPhase
  c_checked : RunPhase
  c_measures : RunPhase
  c_joins : RunPhase
  c_ended : RunPhase

pub record SharedRun : Type 0 where
  pub stop_requested : Bool
  pub ready : ℕ
  pub warmup_done : ℕ
  pub finished : ℕ
  pub warmup_started : Bool
  pub measurement_started : Bool
  pub selected : ℕ
  pub workers : List WorkerPhase
  pub run : RunPhase

-- Run begins, with the number of its CPUs.
abbrev pub new_run : ℕ → SharedRun
new_run selected = record {
  stop_requested = false;
  ready = 0;
  warmup_done = 0;
  finished = 0;
  warmup_started = false;
  measurement_started = false;
  selected = selected;
  workers = [];
  run = c_creating;
}

abbrev pub has_returned : WorkerPhase → Bool
has_returned w_starting = false
has_returned w_at_warmup = false
has_returned w_warming = false
has_returned w_at_measurement = false
has_returned w_measuring = false
has_returned w_left = true
has_returned w_finished = true

abbrev pub AtPhase : SharedRun → ℕ → WorkerPhase → Type 0
AtPhase y i w = get_elem? y.workers i ≡ some w

pub data Step : SharedRun → SharedRun → Type 0 where
  -- Run.
  creates :
      (y : SharedRun)
      → y.run ≡ c_creating
      → length y.workers < y.selected
      → Step y (record y { workers = y.workers ++ (w_starting ∷ []) })
  created :
      (y : SharedRun)
      → y.run ≡ c_creating
      → length y.workers ≡ y.selected
      → Step y (record y { run = c_waits_ready })
  creation_fails :
      (y : SharedRun)
      → y.run ≡ c_creating
      → Step y (record y {
        stop_requested = true;
        warmup_started = true;
        measurement_started = true;
        run = c_joins;
      })
  opens_warmup :
      (y : SharedRun)
      → y.run ≡ c_waits_ready
      → y.ready ≡ y.selected
      → Step y (record y { warmup_started = true; run = c_waits_warm })
  passes_check :
      (y : SharedRun)
      → y.run ≡ c_waits_warm
      → y.warmup_done ≡ y.selected
      → y.stop_requested ≡ false
      → Step y (record y { run = c_checked })
  cancels :
      (y : SharedRun)
      → y.run ≡ c_waits_warm
      → y.warmup_done ≡ y.selected
      → y.stop_requested ≡ true
      → Step y (record y { measurement_started = true; run = c_joins })
  opens_measurement :
      (y : SharedRun)
      → y.run ≡ c_checked
      → Step y (record y { measurement_started = true; run = c_measures })
  sees_finished :
      (y : SharedRun)
      → y.run ≡ c_measures
      → y.finished ≡ y.selected
      → Step y (record y { run = c_joins })
  joined :
      (y : SharedRun)
      → y.run ≡ c_joins
      → All (λ w. has_returned w ≡ true) y.workers
      → Step y (record y { run = c_ended })
  -- RequestStop.
  stops : (y : SharedRun) → Step y (record y { stop_requested = true })
  -- A worker.
  arrives :
      (y : SharedRun) (i : ℕ)
      → AtPhase y i w_starting
      → Step y (record y { workers = set y.workers i w_at_warmup; ready = y.ready + 1 })
  warms :
      (y : SharedRun) (i : ℕ)
      → AtPhase y i w_at_warmup
      → (y.warmup_started || y.stop_requested) ≡ true
      → Step y (record y { workers = set y.workers i w_warming })
  is_warm :
      (y : SharedRun) (i : ℕ)
      → AtPhase y i w_warming
      → Step y
          (record y { workers = set y.workers i w_at_measurement; warmup_done = y.warmup_done + 1 })
  leaves :
      (y : SharedRun) (i : ℕ)
      → AtPhase y i w_at_measurement
      → y.stop_requested ≡ true
      → Step y (record y { workers = set y.workers i w_left })
  measures :
      (y : SharedRun) (i : ℕ)
      → AtPhase y i w_at_measurement
      → y.measurement_started ≡ true
      → y.stop_requested ≡ false
      → Step y (record y { workers = set y.workers i w_measuring })
  finishes :
      (y : SharedRun) (i : ℕ)
      → AtPhase y i w_measuring
      → Step y (record y { workers = set y.workers i w_finished; finished = y.finished + 1 })

-- Neither a stop request nor a thread that could not be created, which asks for a stop as well.
abbrev pub asks_no_stop : (y z : SharedRun) → Step y z → Bool
asks_no_stop y z (creates _ c l) = true
asks_no_stop y z (created _ c l) = true
asks_no_stop y z (creation_fails _ c) = false
asks_no_stop y z (opens_warmup _ c r) = true
asks_no_stop y z (passes_check _ c w s) = true
asks_no_stop y z (cancels _ c w s) = true
asks_no_stop y z (opens_measurement _ c) = true
asks_no_stop y z (sees_finished _ c f) = true
asks_no_stop y z (joined _ c a) = true
asks_no_stop y z (stops _) = false
asks_no_stop y z (arrives _ i g) = true
asks_no_stop y z (warms _ i g o) = true
asks_no_stop y z (is_warm _ i g) = true
asks_no_stop y z (leaves _ i g s) = true
asks_no_stop y z (measures _ i g m s) = true
asks_no_stop y z (finishes _ i g) = true

pub data Steps : SharedRun → SharedRun → Type 0 where
  here : (y : SharedRun) → Steps y y
  then_step : (x y z : SharedRun) → Step x y → Steps y z → Steps x z

-- No step of the path asks for a stop.
abbrev pub IsQuiet : (y z : SharedRun) → Steps y z → Type 0
IsQuiet y z (here _) = Unit
IsQuiet y z (then_step _ x _ s rest) = (asks_no_stop y x s ≡ true) × IsQuiet x z rest
