-- ===== src/Cpu/Engine/Alone.antt =====
-- What holds of Start and of a coordinator's run when the engine's actions interleave, also when no
-- thread can be made.
use rapidbench.Prelude.{
  ℕ, ◌≡◌, refl, sym, ap, ◌∙◌, subst, Bool, true, false, not, ◌||◌, inl, inr, Option, none, some,
  ◌==◌, if_intro, Bool-cases,
}
use mathlib.Core.Option.{some-injective}
use rapidbench.Prelude.Doubles.{Doubles}
use rapidbench.Prelude.Int.{ℤ}
use rapidbench.Cpu.Types.{Request, is_running}
use rapidbench.Cpu.Engine.{
  Engine, new_engine, returns, throws, check, begin, after_check, start, begun, is_invalid, k_busy,
  k_invalid_argument, request_stop, update, publish_configuration, publish_affinity,
  publish_telemetry, add_quality_flag, publish_state, publish_measurement,
}
use rapidbench.Cpu.Engine.Runs.{
  System, coordinator_of, passed, Step, Steps, checks, begins, stops, configures, counts_failures,
  tells, flags, goes_on, measures, ends, fails, here, then_step,
}

module _ (num : Doubles) where
  abbrev pub at_rest : System num
  at_rest = record { engine = new_engine num; coordinator = none; starting = none }

  abbrev Shows : ℕ → Engine num → Type 0
  Shows n e = (e.snapshot.run_id ≡ n) × (is_running e.snapshot.state ≡ true)

  -- A coordinator at work finds its run in the snapshot, and the snapshot says that it runs.
  abbrev Guarded : Option ℕ → Engine num → Type 0
  Guarded c e = (n : ℕ) → c ≡ some n → Shows n e

  -- And no Start is between its two parts.
  abbrev IsGuarded : System num → Type 0
  IsGuarded y =
      Guarded y.coordinator y.engine × ((n : ℕ) → y.coordinator ≡ some n → y.starting ≡ none)

  check_busy :
      (o : Bool) (r : Request) (e : Engine num)
      → is_running e.snapshot.state ≡ true
      → (status : ℤ) × (check num o r e ≡ some status)
  unfolding check
  check_busy o r e busy = elim (Bool-cases (not o || is_invalid num r)) [
    | inl v ↦ (k_invalid_argument, rw v refl)
    | inr v ↦ (k_busy, rw (v, busy) refl)
  ]

  start_busy :
      (o h : Bool) (r : Request) (e : Engine num)
      → is_running e.snapshot.state ≡ true
      → (status : ℤ) × (check num o r e ≡ some status)
        × (start num o h r e ≡ (returns status none, e))
  unfolding start after_check
  start_busy o h r e busy =
      let (status, refused) = check_busy o r e busy in
      (status, refused, ap (after_check num h r e) refused)

  passed_busy :
      (o : Bool) (r : Request) (e : Engine num)
      → is_running e.snapshot.state ≡ true
      → passed num r (check num o r e) ≡ none
  passed_busy o r e busy = ap (passed num r) (check_busy o r e busy).1

  -- A publication that leaves the run's number alone, and the state of a run that is under way running.
  update-Shows :
      (n : ℕ) (f : Engine num → Engine num) (e : Engine num)
      → (Shows n e → Shows n (f e))
      → Shows n e
      → Shows n (update num n f e)
  unfolding update
  update-Shows n f e keeps g =
      if_intro (Shows n) (not (e.snapshot.run_id == n)) e (f e) (λ other. g) (λ same. keeps g)

  -- Of a publication by the coordinator of the run c.
  update-Guarded :
      (n : ℕ) (f : Engine num → Engine num) (c : Option ℕ) (e : Engine num)
      → ((m : ℕ) → Shows m e → Shows m (f e))
      → c ≡ some n
      → Guarded c e
      → Guarded c (update num n f e)
  update-Guarded n f c e keeps at g m is =
      let same : n ≡ m = some-injective _ _ (sym at ∙ is) in
      subst (λ k. Shows m (update num k f e)) (sym same) (update-Shows m f e (keeps m) (g m is))

  begin-Guarded :
      (h : Bool) (r : Request) (c : Option ℕ) (e : Engine num)
      → c ≡ none
      → Guarded (coordinator_of num c (begin num h r e).0) (begin num h r e).1
  unfolding begin
  begin-Guarded true r c e idle n is = (some-injective _ _ is, refl)
  begin-Guarded false r c e idle n is = cc

  request_stop-Shows :
      (n run_id : ℕ) (e : Engine num) → Shows n e → Shows n (request_stop num run_id e).1
  unfolding request_stop
  request_stop-Shows n run_id e g =
      if_intro (λ (p : ℤ × Engine num). Shows n p.1)
        ((run_id == 0) || not (run_id == e.snapshot.run_id)) _ _ (λ wrong. g)
        (λ right.
          if_intro (λ (p : ℤ × Engine num). Shows n p.1) (is_running e.snapshot.state) _ _
            (λ busy. g) (λ idle. g))

  step-Guarded : (y z : System num) → Step num y z → IsGuarded y → IsGuarded z
  unfolding publish_configuration publish_affinity publish_telemetry add_quality_flag publish_state
      publish_measurement
  step-Guarded y z (checks _ o r idle) (g, free) = (g, λ n at. passed_busy o r y.engine (g n at).1)
  step-Guarded y z (begins _ h r asked idle) (g, free) =
      (begin-Guarded h r y.coordinator y.engine idle, λ n at. refl)
  step-Guarded y z (stops _ run_id) (g, free) =
      (λ n is. request_stop-Shows n run_id y.engine (g n is), free)
  step-Guarded y z (configures _ n t threads cpu fs at) (g, free) =
      (update-Guarded n _ y.coordinator y.engine (λ m s. s) at g, free)
  step-Guarded y z (counts_failures _ n failures at) (g, free) =
      (update-Guarded n _ y.coordinator y.engine (λ m s. s) at g, free)
  step-Guarded y z (tells _ n p groups t workers hint request at) (g, free) =
      (update-Guarded n _ y.coordinator y.engine (λ m s. s) at g, free)
  step-Guarded y z (flags _ n flag at) (g, free) =
      (update-Guarded n _ y.coordinator y.engine (λ m s. s) at g, free)
  step-Guarded y z (goes_on _ n s p at runs) (g, free) =
      (update-Guarded n _ y.coordinator y.engine (λ m k. (k.0, runs)) at g, free)
  step-Guarded y z (measures _ n elapsed work score progress variation peak checksum at) (g, free) =
      (update-Guarded n _ y.coordinator y.engine (λ m s. s) at g, free)
  step-Guarded y z (ends _ n s p at over) g = ((λ m is. cc), (λ m is. cc))
  step-Guarded y z (fails _ n code at) g = ((λ m is. cc), (λ m is. cc))

  Steps-Guarded : (y z : System num) → Steps num y z → IsGuarded y → IsGuarded z
  Steps-Guarded y z (here _) g = g
  Steps-Guarded y z (then_step _ x _ s rest) g = Steps-Guarded x z rest (step-Guarded y x s g)

  -- A run keeps the engine until it has published its end. Calls of Start do not overlap each other;
  -- the check of a Start and its beginning are two actions, and RequestStop and what a coordinator
  -- publishes may come between any two actions. In every order of these on a new engine, while the
  -- coordinator of a run is at work the snapshot is this run's, so that what it publishes is not
  -- dropped, no Start is past its check, and the check of every Start refuses, so that Start changes
  -- nothing.
  pub start-alone_while_running :
      (y : System num) (n : ℕ)
      → Steps num at_rest y
      → y.coordinator ≡ some n
      → (y.engine.snapshot.run_id ≡ n)
        × (y.starting ≡ none)
        × ((o h : Bool) (r : Request)
            → (status : ℤ) × (check num o r y.engine ≡ some status)
              × (start num o h r y.engine ≡ (returns status none, y.engine)))
  start-alone_while_running y n path at =
      let (g, free) = Steps-Guarded at_rest y path ((λ m is. cc), (λ m is. cc)) in
      let (id, busy) = g n at in (id, free n at, λ o h r. start_busy o h r y.engine busy)

  -- No coordinator and no Start past its check, and a state that says that one is at work.
  abbrev Stuck : System num → Type 0
  Stuck y =
      (y.coordinator ≡ none) × (y.starting ≡ none) × (is_running y.engine.snapshot.state ≡ true)

  request_stop-state :
      (run_id : ℕ) (e : Engine num)
      → is_running e.snapshot.state ≡ true
      → is_running (request_stop num run_id e).1.snapshot.state ≡ true
  request_stop-state run_id e busy = (request_stop-Shows e.snapshot.run_id run_id e (refl, busy)).1

  nobody {ℓ} : {A : Type ℓ} (n : ℕ) (c : Option ℕ) → c ≡ none → c ≡ some n → A
  nobody n c idle at = cc

  step-Stuck : (y z : System num) → Step num y z → Stuck y → Stuck z
  step-Stuck y z (checks _ o r free) (idle, none_yet, busy) =
      (idle, passed_busy o r y.engine busy, busy)
  step-Stuck y z (begins _ h r asked at) (idle, none_yet, busy) = cc
  step-Stuck y z (stops _ run_id) (idle, none_yet, busy) =
      (idle, none_yet, request_stop-state run_id y.engine busy)
  step-Stuck y z (configures _ n t threads cpu fs at) (idle, free, k) =
      nobody n y.coordinator idle at
  step-Stuck y z (counts_failures _ n failures at) (idle, free, k) = nobody n y.coordinator idle at
  step-Stuck y z (tells _ n p groups t workers hint request at) (idle, free, k) =
      nobody n y.coordinator idle at
  step-Stuck y z (flags _ n flag at) (idle, free, k) = nobody n y.coordinator idle at
  step-Stuck y z (goes_on _ n s p at runs) (idle, free, k) = nobody n y.coordinator idle at
  step-Stuck y z (measures _ n elapsed work score progress variation peak checksum at)
        (idle, free, k) =
      nobody n y.coordinator idle at
  step-Stuck y z (ends _ n s p at over) (idle, free, k) = nobody n y.coordinator idle at
  step-Stuck y z (fails _ n code at) (idle, free, k) = nobody n y.coordinator idle at

  Steps-Stuck : (y z : System num) → Steps num y z → Stuck y → Stuck z
  Steps-Stuck y z (here _) stuck = stuck
  Steps-Stuck y z (then_step _ x _ s rest) stuck = Steps-Stuck x z rest (step-Stuck y x s stuck)

  -- After a Start that fails to make its thread, the engine refuses every Start for good: if no run is
  -- under way, the request is valid and std::thread throws, then in every state that can follow there
  -- is no coordinator, the snapshot says that a run is under way, and every Start is refused and
  -- changes nothing.
  pub start-throws_for_good :
      (y w : System num) (r : Request)
      → y.coordinator ≡ none
      → is_running y.engine.snapshot.state ≡ false
      → is_invalid num r ≡ false
      → Steps num
          (record {
            engine = (start num true false r y.engine).1;
            coordinator = coordinator_of num y.coordinator (start num true false r y.engine).0;
            starting = none;
          })
          w
      → (w.coordinator ≡ none)
        × (is_running w.engine.snapshot.state ≡ true)
        × ((o h : Bool) (s : Request)
            → (status : ℤ) × (check num o s w.engine ≡ some status)
              × (start num o h s w.engine ≡ (returns status none, w.engine)))
  unfolding start after_check check begin
  start-throws_for_good y w r idle rest_state valid path =
      let thrown : start num true false r y.engine
          ≡ (throws y.engine.next_run_id, begun num r y.engine) =
        rw (valid, rest_state) refl in
      let (none_yet, free, busy) = Steps-Stuck _ w path (
        ap (λ p. coordinator_of num y.coordinator p.0) thrown ∙ idle,
        refl,
        ap (λ p. is_running p.1.snapshot.state) thrown,
      ) in
      (none_yet, busy, λ o h s. start_busy o h s w.engine busy)
