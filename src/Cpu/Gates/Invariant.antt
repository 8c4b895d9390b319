-- ===== src/Cpu/Gates/Invariant.antt =====
-- What holds in every state that the gates can come to.
use rapidbench.Prelude.{
  ℕ, ◌+◌, ◌≤◌, ◌≡◌, refl, ap, Bool, true, false, some, List, [], ◌∷◌, ◌++◌, arith, length,
  length-set, get_elem?, set,
}
use rapidbench.Cpu.Gates.{
  WorkerPhase, w_starting, w_at_warmup, w_warming, w_at_measurement, w_measuring, w_left,
  w_finished, RunPhase, c_creating, c_waits_ready, c_waits_warm, c_checked, c_measures, c_joins,
  c_ended, SharedRun, new_run, Step, creates, created, creation_fails, opens_warmup, passes_check,
  cancels, opens_measurement, sees_finished, joined, stops, arrives, warms, is_warm, leaves,
  measures, finishes, Steps, here, then_step,
}
use rapidbench.Cpu.Gates.Counts.{
  tally, tally-le, weight, tally-set, tally-append, length-append_one,
}

abbrev pub is_ready : WorkerPhase → Bool
is_ready w_starting = false
is_ready w_at_warmup = true
is_ready w_warming = true
is_ready w_at_measurement = true
is_ready w_measuring = true
is_ready w_left = true
is_ready w_finished = true

-- Behind the count of the warm-up.
abbrev pub was_warm : WorkerPhase → Bool
was_warm w_starting = false
was_warm w_at_warmup = false
was_warm w_warming = false
was_warm w_at_measurement = true
was_warm w_measuring = true
was_warm w_left = true
was_warm w_finished = true

abbrev pub is_finished : WorkerPhase → Bool
is_finished w_starting = false
is_finished w_at_warmup = false
is_finished w_warming = false
is_finished w_at_measurement = false
is_finished w_measuring = false
is_finished w_left = false
is_finished w_finished = true

abbrev pub is_left : WorkerPhase → Bool
is_left w_starting = false
is_left w_at_warmup = false
is_left w_warming = false
is_left w_at_measurement = false
is_left w_measuring = false
is_left w_left = true
is_left w_finished = false

-- In the measurement or behind it.
abbrev pub has_measured : WorkerPhase → Bool
has_measured w_starting = false
has_measured w_at_warmup = false
has_measured w_warming = false
has_measured w_at_measurement = false
has_measured w_measuring = true
has_measured w_left = false
has_measured w_finished = true

-- All threads have been made.
abbrev pub has_all : RunPhase → Bool
has_all c_creating = false
has_all c_waits_ready = true
has_all c_waits_warm = true
has_all c_checked = true
has_all c_measures = true
has_all c_joins = false
has_all c_ended = false

abbrev pub opened_warmup : RunPhase → Bool
opened_warmup c_creating = false
opened_warmup c_waits_ready = false
opened_warmup c_waits_warm = true
opened_warmup c_checked = true
opened_warmup c_measures = true
opened_warmup c_joins = true
opened_warmup c_ended = true

abbrev pub opened_measurement : RunPhase → Bool
opened_measurement c_creating = false
opened_measurement c_waits_ready = false
opened_measurement c_waits_warm = false
opened_measurement c_checked = false
opened_measurement c_measures = true
opened_measurement c_joins = true
opened_measurement c_ended = true

abbrev pub is_checked : RunPhase → Bool
is_checked c_creating = false
is_checked c_waits_ready = false
is_checked c_waits_warm = false
is_checked c_checked = true
is_checked c_measures = false
is_checked c_joins = false
is_checked c_ended = false

-- The counters are right, and the gates are open just where Run has opened them.
abbrev pub IsConsistent : SharedRun → Type 0
IsConsistent y =
    (length y.workers ≤ y.selected)
    × (has_all y.run ≡ true → length y.workers ≡ y.selected)
    × (y.ready ≡ tally is_ready y.workers)
    × (y.warmup_done ≡ tally was_warm y.workers)
    × (y.finished ≡ tally is_finished y.workers)
    × (y.warmup_started ≡ opened_warmup y.run)
    × (y.measurement_started ≡ opened_measurement y.run)
    × (opened_measurement y.run ≡ false → tally has_measured y.workers ≡ 0)
    × (y.stop_requested ≡ false → tally is_left y.workers ≡ 0)
    × (is_checked y.run ≡ true → y.warmup_done ≡ y.selected)

pub new_run-IsConsistent : (n : ℕ) → IsConsistent (new_run n)
new_run-IsConsistent n = ground arith

-- What moving one worker does to the counts.
moved :
    (xs : List WorkerPhase) (i : ℕ) (a b : WorkerPhase)
    → get_elem? xs i ≡ some a
    → (tally is_ready (set xs i b) + weight (is_ready a) ≡ tally is_ready xs + weight (is_ready b))
      × (tally was_warm (set xs i b) + weight (was_warm a)
          ≡ tally was_warm xs + weight (was_warm b))
      × (tally is_finished (set xs i b) + weight (is_finished a)
          ≡ tally is_finished xs + weight (is_finished b))
      × (tally has_measured (set xs i b) + weight (has_measured a)
          ≡ tally has_measured xs + weight (has_measured b))
      × (tally is_left (set xs i b) + weight (is_left a) ≡ tally is_left xs + weight (is_left b))
      × (length (set xs i b) ≡ length xs)
moved xs i a b e = (
  tally-set is_ready xs i a b e,
  tally-set was_warm xs i a b e,
  tally-set is_finished xs i a b e,
  tally-set has_measured xs i a b e,
  tally-set is_left xs i a b e,
  length-set xs i b,
)

-- What a new worker does to them.
added :
    (xs : List WorkerPhase)
    → (tally is_ready (xs ++ (w_starting ∷ [])) ≡ tally is_ready xs + 0)
      × (tally was_warm (xs ++ (w_starting ∷ [])) ≡ tally was_warm xs + 0)
      × (tally is_finished (xs ++ (w_starting ∷ [])) ≡ tally is_finished xs + 0)
      × (tally has_measured (xs ++ (w_starting ∷ [])) ≡ tally has_measured xs + 0)
      × (tally is_left (xs ++ (w_starting ∷ [])) ≡ tally is_left xs + 0)
      × (length (xs ++ (w_starting ∷ [])) ≡ length xs + 1)
added xs = (
  tally-append is_ready xs w_starting,
  tally-append was_warm xs w_starting,
  tally-append is_finished xs w_starting,
  tally-append has_measured xs w_starting,
  tally-append is_left xs w_starting,
  length-append_one xs w_starting,
)

-- What Run's phase says about the gates.
Facts : RunPhase → RunPhase → Type 0
Facts r q =
    (has_all r ≡ has_all q)
    × (opened_warmup r ≡ opened_warmup q)
    × (opened_measurement r ≡ opened_measurement q)
    × (is_checked r ≡ is_checked q)

facts : (r q : RunPhase) → r ≡ q → Facts r q
unfolding Facts
facts r q e = (ap has_all e, ap opened_warmup e, ap opened_measurement e, ap is_checked e)

checked_later : (r : RunPhase) → is_checked r ≡ true → has_all r ≡ true
checked_later c_creating e = cc
checked_later c_waits_ready e = cc
checked_later c_waits_warm e = cc
checked_later c_checked e = refl
checked_later c_measures e = cc
checked_later c_joins e = cc
checked_later c_ended e = cc

pub Step-IsConsistent : (y z : SharedRun) → Step y z → IsConsistent y → IsConsistent z
unfolding Facts
Step-IsConsistent y z (creates _ c l) h = ground (arith, facts y.run c_creating c, added y.workers)
Step-IsConsistent y z (created _ c l) h = ground (arith, facts y.run c_creating c)
Step-IsConsistent y z (creation_fails _ c) h = ground (arith, facts y.run c_creating c)
Step-IsConsistent y z (opens_warmup _ c r) h = ground (arith, facts y.run c_waits_ready c)
Step-IsConsistent y z (passes_check _ c w s) h = ground (arith, facts y.run c_waits_warm c)
Step-IsConsistent y z (cancels _ c w s) h = ground (arith, facts y.run c_waits_warm c)
Step-IsConsistent y z (opens_measurement _ c) h = ground (arith, facts y.run c_checked c)
Step-IsConsistent y z (sees_finished _ c f) h = ground (arith, facts y.run c_measures c)
Step-IsConsistent y z (joined _ c a) h = ground (arith, facts y.run c_joins c)
Step-IsConsistent y z (stops _) h = ground arith
Step-IsConsistent y z (arrives _ i g) h = ground (arith, moved y.workers i w_starting w_at_warmup g)
Step-IsConsistent y z (warms _ i g o) h = ground (arith, moved y.workers i w_at_warmup w_warming g)
Step-IsConsistent y z (is_warm _ i g) h = ground (
  arith,
  moved y.workers i w_warming w_at_measurement g,
  tally-le was_warm (set y.workers i w_at_measurement),
  checked_later y.run,
)
Step-IsConsistent y z (leaves _ i g s) h =
    ground (arith, moved y.workers i w_at_measurement w_left g)
Step-IsConsistent y z (measures _ i g m s) h =
    ground (arith, moved y.workers i w_at_measurement w_measuring g)
Step-IsConsistent y z (finishes _ i g) h =
    ground (arith, moved y.workers i w_measuring w_finished g)

pub Steps-IsConsistent : (y z : SharedRun) → Steps y z → IsConsistent y → IsConsistent z
Steps-IsConsistent y z (here _) h = h
Steps-IsConsistent y z (then_step _ x _ s rest) h =
    Steps-IsConsistent x z rest (Step-IsConsistent y x s h)
