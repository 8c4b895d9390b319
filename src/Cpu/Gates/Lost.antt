-- ===== src/Cpu/Gates/Lost.antt =====
-- A stop that comes between Run's look at the flag and the workers' own look.
use rapidbench.Prelude.{
  ℕ, ◌+◌, ◌≤◌, ◌<◌, ◌≡◌, refl, sym, ap, ◌∙◌, true, false, some, List, [], ◌∷◌, arith, ◌⊎◌, inl, inr,
  length, get_elem?, set, All,
}
use rapidbench.Cpu.Gates.{
  WorkerPhase, w_starting, w_at_warmup, w_warming, w_at_measurement, w_measuring, w_left,
  w_finished, RunPhase, c_creating, c_waits_ready, c_waits_warm, c_checked, c_measures, c_joins,
  c_ended, SharedRun, new_run, Step, creates, created, creation_fails, opens_warmup, passes_check,
  cancels, opens_measurement, sees_finished, joined, stops, arrives, warms, is_warm, leaves,
  measures, finishes, Steps, here, then_step,
}
use rapidbench.Cpu.Gates.Counts.{tally, tally-set, tally-full, tally-none}
use rapidbench.Cpu.Gates.Invariant.{
  is_finished, is_left, was_warm, has_measured, has_all, is_checked, opened_measurement,
  IsConsistent, Step-IsConsistent, Steps-IsConsistent, new_run-IsConsistent,
}

left_or_finished : (xs : List WorkerPhase) → tally is_left xs + tally is_finished xs ≤ length xs
left_or_finished [] = omega arith
left_or_finished (w_starting ∷ xs) = omega (arith, left_or_finished xs)
left_or_finished (w_at_warmup ∷ xs) = omega (arith, left_or_finished xs)
left_or_finished (w_warming ∷ xs) = omega (arith, left_or_finished xs)
left_or_finished (w_at_measurement ∷ xs) = omega (arith, left_or_finished xs)
left_or_finished (w_measuring ∷ xs) = omega (arith, left_or_finished xs)
left_or_finished (w_left ∷ xs) = omega (arith, left_or_finished xs)
left_or_finished (w_finished ∷ xs) = omega (arith, left_or_finished xs)

-- Run waits for a worker that has returned without being counted.
abbrev pub IsLost : SharedRun → Type 0
IsLost y = (y.run ≡ c_measures) × (0 < tally is_left y.workers)

phase_number : RunPhase → ℕ
phase_number c_creating = 0
phase_number c_waits_ready = 1
phase_number c_waits_warm = 2
phase_number c_checked = 3
phase_number c_measures = 4
phase_number c_joins = 5
phase_number c_ended = 6

differ : (y : SharedRun) (r : RunPhase) → y.run ≡ r → y.run ≡ c_measures → phase_number r ≡ 4
unfolding phase_number
differ y r e f = ap phase_number (sym e ∙ f)

Step-IsLost : (y z : SharedRun) → Step y z → IsConsistent y → IsLost y → IsLost z
unfolding phase_number
Step-IsLost y z (creates _ c l) h (m, k) = absurd (omega (arith, differ y c_creating c m))
Step-IsLost y z (created _ c l) h (m, k) = absurd (omega (arith, differ y c_creating c m))
Step-IsLost y z (creation_fails _ c) h (m, k) = absurd (omega (arith, differ y c_creating c m))
Step-IsLost y z (opens_warmup _ c r) h (m, k) = absurd (omega (arith, differ y c_waits_ready c m))
Step-IsLost y z (passes_check _ c w s) h (m, k) = absurd (omega (arith, differ y c_waits_warm c m))
Step-IsLost y z (cancels _ c w s) h (m, k) = absurd (omega (arith, differ y c_waits_warm c m))
Step-IsLost y z (opens_measurement _ c) h (m, k) = absurd (omega (arith, differ y c_checked c m))
Step-IsLost y z (sees_finished _ c f) h (m, k) =
    absurd (ground (arith, ap has_all m, left_or_finished y.workers))
Step-IsLost y z (joined _ c a) h (m, k) = absurd (omega (arith, differ y c_joins c m))
Step-IsLost y z (stops _) h lost = lost
Step-IsLost y z (arrives _ i g) h (m, k) =
    (m, omega (arith, tally-set is_left y.workers i w_starting w_at_warmup g))
Step-IsLost y z (warms _ i g o) h (m, k) =
    (m, omega (arith, tally-set is_left y.workers i w_at_warmup w_warming g))
Step-IsLost y z (is_warm _ i g) h (m, k) =
    (m, omega (arith, tally-set is_left y.workers i w_warming w_at_measurement g))
Step-IsLost y z (leaves _ i g s) h (m, k) =
    (m, omega (arith, tally-set is_left y.workers i w_at_measurement w_left g))
Step-IsLost y z (measures _ i g o s) h (m, k) =
    (m, omega (arith, tally-set is_left y.workers i w_at_measurement w_measuring g))
Step-IsLost y z (finishes _ i g) h (m, k) =
    (m, omega (arith, tally-set is_left y.workers i w_measuring w_finished g))

Steps-IsLost : (y z : SharedRun) → Steps y z → IsConsistent y → IsLost y → IsLost z
Steps-IsLost y z (here _) h lost = lost
Steps-IsLost y z (then_step _ x _ s rest) h lost =
    Steps-IsLost x z rest (Step-IsConsistent y x s h) (Step-IsLost y x s h lost)

-- Once Run is past its look, a worker waits at the second gate or has left.
first_worker :
    (xs : List WorkerPhase)
    → 0 < length xs
    → All (λ w. was_warm w ≡ true) xs
    → All (λ w. has_measured w ≡ false) xs
    → (get_elem? xs 0 ≡ some w_at_measurement) ⊎ (0 < tally is_left xs)
first_worker [] l a b = absurd (omega arith)
first_worker (w_starting ∷ xs) l a b = cc
first_worker (w_at_warmup ∷ xs) l a b = cc
first_worker (w_warming ∷ xs) l a b = cc
first_worker (w_at_measurement ∷ xs) l a b = inl refl
first_worker (w_measuring ∷ xs) l a b = cc
first_worker (w_left ∷ xs) l a b = inr (omega arith)
first_worker (w_finished ∷ xs) l a b = cc

stuck_after :
    (y : SharedRun)
    → IsConsistent y
    → y.run ≡ c_measures
    → y.stop_requested ≡ true
    → (get_elem? y.workers 0 ≡ some w_at_measurement) ⊎ (0 < tally is_left y.workers)
    → (z : SharedRun) × Steps y z
      × (z.stop_requested ≡ true)
      × ((w : SharedRun) → Steps z w → w.run ≡ c_measures)
stuck_after y h m s (inr k) = (y, here y, s, λ w rest. (Steps-IsLost y w rest h (m, k)).0)
stuck_after y h m s (inl g) =
    let z : SharedRun = record y { workers = set y.workers 0 w_left } in
    let step = leaves y 0 g s in
    (
      z,
      then_step y z z step (here z),
      s,
      λ w rest.
          (Steps-IsLost z w rest (Step-IsConsistent y z step h)
            (m, omega (arith, tally-set is_left y.workers 0 w_at_measurement w_left g))).0,
    )

-- A stop can make a run of the CPU engine endless. From every state that a run of at least one CPU
-- comes to with its look at the stop flag behind it and the second gate not yet open, a RequestStop
-- and the workers' waking can lead to a state from which Run never gets out of its loop, whatever is
-- done: a worker that sees the flag at the gate returns without counting itself as finished.
pub stop_request-lost :
    (n : ℕ) (y : SharedRun)
    → Steps (new_run n) y
    → y.run ≡ c_checked
    → 0 < y.selected
    → (z : SharedRun) × Steps y z
      × (z.stop_requested ≡ true)
      × ((w : SharedRun) → Steps z w → w.run ≡ c_measures)
stop_request-lost n y path c k =
    let h = Steps-IsConsistent (new_run n) y path (new_run-IsConsistent n) in
    let stopped : SharedRun = record y { stop_requested = true } in
    let opened : SharedRun = record stopped { measurement_started = true; run = c_measures } in
    let s1 = stops y in
    let s2 = opens_measurement stopped c in
    let warm = tally-full was_warm y.workers (ground (arith, ap has_all c, ap is_checked c)) in
    let none_yet = tally-none has_measured y.workers (ground (arith, ap opened_measurement c)) in
    let (z, rest, s, forever) =
      stuck_after opened (Step-IsConsistent stopped opened s2 (Step-IsConsistent y stopped s1 h))
        refl refl (first_worker y.workers (ground (arith, ap has_all c)) warm none_yet) in
    (z, then_step y stopped z s1 (then_step stopped opened z s2 rest), s, forever)
