-- ===== src/Memory/Run/Ends.antt =====
-- How a run of the memory engine ends.
use rapidbench.Prelude.{
  ℕ, zero, suc, ◌+◌, ◌%◌, ◌^◌, ◌≤◌, ◌<◌, ◌≡◌, refl, sym, ap, subst, Bool, true, false, not, ◌&&◌,
  List, [], ◌∷◌, ◌++◌, length, is_empty, ltb, ◌==◌, if_intro, Option, none, some, ◌⊎◌, inl, inr,
  arith,
}
use rapidbench.Prelude.Doubles.{Doubles}
use rapidbench.Prelude.Int.{ℤ}
use rapidbench.Topology.Types.{Topology}
use rapidbench.Workload.Application.{list_eq}
use rapidbench.Memory.Types.{MemoryRequest, MemorySnapshot, is_over, k_measuring}
use rapidbench.Memory.Buffer.{Allocation, allocated, refused, unfinished, region_bytes}
use rapidbench.Memory.Run.{
  Sample, Answers, Attempted, attempt_cpus, attempt_snapshot, sampled, sample_loop, concluded,
  measured_attempt, goes_on, tries_again, Ran, after_refresh, with_buffer, after_allocation,
  run_attempt, continued, attempts, run, gives_up, error_no_cpu_available, error_allocation_failed,
}

module _ (num : Doubles) where
  -- A snapshot of the run, made in the attempt of this number.
  abbrev pub IsOf : ℕ → ℕ → MemorySnapshot num → Type 0
  IsOf run_id attempt s = (s.run_id ≡ run_id) × (s.preparation_attempts ≡ attempt + 1)

  -- The list ends with a snapshot that says that the run is over.
  pub EndsOver : ℕ → ℕ → List (MemorySnapshot num) → Type 0
  EndsOver run_id attempt xs =
      (before : List (MemorySnapshot num)) × (s : MemorySnapshot num) × (xs ≡ before ++ (s ∷ []))
      × (is_over s.state ≡ true)
      × IsOf run_id attempt s

  EndsOver-cons :
      (run_id attempt : ℕ) (x : MemorySnapshot num) (xs : List (MemorySnapshot num))
      → EndsOver run_id attempt xs
      → EndsOver run_id attempt (x ∷ xs)
  unfolding EndsOver
  EndsOver-cons n a x xs (before, s, e, over, is) = (x ∷ before, s, ap (λ l. x ∷ l) e, over, is)

  sample_loop-IsOf :
      (n a : ℕ) (r : MemoryRequest) (start : ℕ) (os : List Sample) (s : MemorySnapshot num)
      → IsOf n a s
      → IsOf n a (sample_loop num r start os s).1
  unfolding sample_loop sampled
  sample_loop-IsOf n a r start [] s is = is
  sample_loop-IsOf n a r start (o ∷ os) s is =
      sample_loop-IsOf n a r start os (sampled num r start o s) is

  abbrev OverOf : ℕ → ℕ → MemorySnapshot num → Type 0
  OverOf n a s = (is_over s.state ≡ true) × IsOf n a s

  concluded-OverOf :
      (n a : ℕ) (r : MemoryRequest) (w : Answers) (failed : Bool) (s : MemorySnapshot num)
      → IsOf n a s
      → OverOf n a (concluded num r w failed s)
  unfolding concluded
  concluded-OverOf n a r w failed s is =
      if_intro (OverOf n a) failed _ _ (λ f. (refl, is))
        (λ made. if_intro (OverOf n a) w.stopped _ _ (λ y. (refl, is)) (λ n. (refl, is)))

  -- The waits for the workers of an attempt end.
  abbrev pub WaitsEnd : Answers → Type 0
  WaitsEnd w = (w.ready_ends ≡ true) × (w.warm_ends ≡ true) × (w.join_ends ≡ true)

  no_wait {ℓ} : {A : Type ℓ} (b : Bool) → b ≡ true → b ≡ false → A
  no_wait b ends hangs = cc

  no_wait_not {ℓ} : {A : Type ℓ} (b : Bool) → b ≡ true → not b ≡ true → A
  no_wait_not true ends hangs = cc
  no_wait_not false ends hangs = cc

  -- What an attempt comes to.
  Comes : ℕ → ℕ → Attempted num → Type 0
  Comes n a x =
      ((x.again ≡ none) × (x.ended ≡ true) × EndsOver n a x.published)
      ⊎ ((a < 2) × ((next : Topology) × (x.again ≡ some next)))

  gives_up-Comes :
      (n a : ℕ) (code : ℤ) (s : MemorySnapshot num) → IsOf n a s → Comes n a (gives_up num code s)
  unfolding Comes EndsOver
  gives_up-Comes n a code s is = inl (refl, refl, ([], _, refl, refl, is))

  goes_on-Comes :
      (n a : ℕ) (r : MemoryRequest) (w : Answers) (failed : Bool) (warming s : MemorySnapshot num)
      → WaitsEnd w
      → IsOf n a s
      → Comes n a (goes_on num r w failed warming s)
  unfolding Comes EndsOver goes_on measured_attempt
  goes_on-Comes n a r w failed warming s (ready, warm, join) is =
      let last =
        sample_loop-IsOf n a r w.measure_start_ns w.samples
          (record s { state = k_measuring; elapsed_ns = 0; progress = num.of_word 0 }) is in
      let (over, of) = concluded-OverOf n a r w failed _ last in
      if_intro (Comes n a) w.join_ends _ _
        (λ ends. inl (refl, refl, (warming ∷ _ ∷ _, _, refl, over, of))) (no_wait w.join_ends join)

  tries_again-Comes :
      (n a : ℕ) (w : Answers) (warming : MemorySnapshot num) (t : Topology)
      → WaitsEnd w
      → a < 2
      → Comes n a (tries_again num w warming t)
  unfolding Comes
  tries_again-Comes n a w warming t (ready, warm, join) few =
      if_intro (Comes n a) w.join_ends _ _ (λ ends. inr (few, (t, refl))) (no_wait w.join_ends join)

  both_left : (b : Bool) (a : ℕ) → (b && ltb a 2) ≡ true → a < 2
  both_left b a h = ground (arith, h)

  after_refresh-Comes :
      (n a : ℕ) (r : MemoryRequest) (w : Answers) (warming : MemorySnapshot num)
      (o : Option Topology)
      → WaitsEnd w
      → IsOf n a warming
      → Comes n a (after_refresh num r a w warming o)
  unfolding after_refresh
  after_refresh-Comes n a r w warming none e is = goes_on-Comes n a r w false warming _ e is
  after_refresh-Comes n a r w warming (some t) e is =
      if_intro (Comes n a) (not (list_eq (attempt_cpus t) warming.selected_cpus) && ltb a 2) _ _
        (λ both.
          tries_again-Comes n a w warming t e
            (both_left (not (list_eq (attempt_cpus t) warming.selected_cpus)) a both))
        (λ same. goes_on-Comes n a r w false warming _ e is)

  with_buffer-Comes :
      (n a : ℕ) (r : MemoryRequest) (w : Answers) (s : MemorySnapshot num)
      → WaitsEnd w
      → IsOf n a s
      → Comes n a (with_buffer num r a w s)
  unfolding with_buffer
  with_buffer-Comes n a r w s e is =
      if_intro (Comes n a) (not w.ready_ends) _ _ (no_wait_not w.ready_ends e.0) (λ ready.
        if_intro (Comes n a) (not w.warm_ends) _ _ (no_wait_not w.warm_ends e.1) (λ warm.
          if_intro (Comes n a) (not (ltb w.created s.thread_count) && not w.stopped_while_warm) _ _
            (λ on. after_refresh-Comes n a r w _ w.refreshed e is)
            (λ off. goes_on-Comes n a r w (ltb w.created s.thread_count) _ _ e is)))

  after_allocation-Comes :
      (n a : ℕ) (r : MemoryRequest) (w : Answers) (s : MemorySnapshot num) (x : Allocation)
      → WaitsEnd w
      → IsOf n a s
      → Comes n a (after_allocation num r a w s x)
  unfolding after_allocation
  after_allocation-Comes n a r w s (refused asked) e is = gives_up-Comes n a _ s is
  after_allocation-Comes n a r w s unfinished e is = gives_up-Comes n a _ s is
  after_allocation-Comes n a r w s (allocated asked bytes) e is =
      if_intro (Comes n a) (region_bytes r.test bytes (length s.selected_cpus) == 0) _ _
        (λ none_left.
          gives_up-Comes n a error_allocation_failed
            (record s { buffer_bytes = bytes; thread_count = length s.selected_cpus % 2 ^ 32 }) is)
        (λ some_left. with_buffer-Comes n a r w _ e is)

  run_attempt-Comes :
      (n a : ℕ) (r : MemoryRequest) (t : Topology) (w : Answers)
      → WaitsEnd w
      → Comes n a (run_attempt num r n t a w)
  unfolding run_attempt attempt_snapshot
  run_attempt-Comes n a r t w e =
      if_intro (Comes n a) (is_empty (attempt_cpus t)) _ _
        (λ none_there.
          gives_up-Comes n a error_no_cpu_available (attempt_snapshot num r n t a) (refl, refl))
        (λ some_there. after_allocation-Comes n a r w _ _ e (refl, refl))

  -- How the attempts from this one on end.
  abbrev pub Ends : ℕ → List (MemorySnapshot num) → Type 0
  Ends n xs = (k : ℕ) × (k ≤ 2) × EndsOver n k xs

  EndsOver-append :
      (n k : ℕ) (xs ys : List (MemorySnapshot num)) → EndsOver n k ys → EndsOver n k (xs ++ ys)
  EndsOver-append n k [] ys h = h
  EndsOver-append n k (x ∷ xs) ys h = EndsOver-cons n k x (xs ++ ys) (EndsOver-append n k xs ys h)

  -- The run comes to its end, with a last snapshot.
  abbrev pub IsOver : ℕ → Ran num → Type 0
  IsOver n x = (x.ended ≡ true) × Ends n x.published

  continued-IsOver :
      (n a : ℕ) (x : Attempted num) (later : Topology → Ran num)
      → a ≤ 2
      → Comes n a x
      → (a < 2 → (next : Topology) → IsOver n (later next))
      → IsOver n (continued num x later x.again)
  unfolding Comes continued
  continued-IsOver n a x later l (inl (over, ended, ends)) more =
      subst (λ o. IsOver n (continued num x later o)) (sym over) (ended, (a, l, ends))
  continued-IsOver n a x later l (inr (few, (next, again))) more =
      let (ended, (k, low, ends)) = more few next in
      subst (λ o. IsOver n (continued num x later o)) (sym again)
        (ended, (k, low, EndsOver-append n k x.published (later next).published ends))

  attempts-IsOver :
      (left n a : ℕ) (r : MemoryRequest) (t : Topology) (answers : ℕ → Answers)
      → ((k : ℕ) → WaitsEnd (answers k))
      → left + a ≡ 2
      → IsOver n (attempts num (suc left) r n t a answers)
  unfolding attempts
  attempts-IsOver zero n a r t answers w e =
      continued-IsOver n a (run_attempt num r n t a (answers a)) _ (omega (arith, e))
        (run_attempt-Comes n a r t (answers a) (w a)) (λ few. absurd (omega (arith, e, few)))
  attempts-IsOver (suc left) n a r t answers w e =
      continued-IsOver n a (run_attempt num r n t a (answers a)) _ (omega (arith, e))
        (run_attempt-Comes n a r t (answers a) (w a))
        (λ few next. attempts-IsOver left n (a + 1) r next answers w (omega (arith, e)))

  -- If the first reading of the topology throws no exception and the waits for the workers end, a run
  -- of the memory engine comes to its end with a last snapshot of its own, whichever of its branches
  -- the system's other answers lead to: the list of what Run publishes ends with a snapshot that has
  -- the run's number, a terminal state, and 1, 2 or 3 as its number of attempts.
  pub run-EndsOver :
      (r : MemoryRequest) (run_id : ℕ) (t : Topology) (answers : ℕ → Answers)
      → ((k : ℕ) → WaitsEnd (answers k))
      → (x : Ran num) × (run num r run_id (some t) answers ≡ some x)
        × (x.ended ≡ true)
        × Ends run_id x.published
  unfolding run
  run-EndsOver r n t answers w =
      let (ended, ends) = attempts-IsOver 2 n 0 r t answers w (omega arith) in
      (attempts num 3 r n t 0 answers, refl, ended, ends)
