-- ===== src/Storage/Run/Results.antt =====
-- What a run of every test leaves in the snapshot.
use rapidbench.Prelude.{
  ℕ, ◌+◌, ◌<◌, ◌≡◌, refl, sym, ap, ◌∙◌, subst, Bool, true, false, ◌||◌, ◌&&◌, ◌==◌, if◌then◌else◌,
  none, some, List, [], ◌∷◌, set, get_elem?, length, length-set, All, Bool-cases, inl, inr,
  get_elem?-set_self, get_elem?-set_ne, arith,
}
use rapidbench.Prelude.Int.{ℤ, pos, eqb_ℤ}
use rapidbench.Prelude.Doubles.{Doubles}
use rapidbench.Storage.Types.{
  StorageTest, k_none, k_all, same_test, test_number, k_completed, StorageRequest, StorageResult,
  StorageSnapshot,
}
use rapidbench.Storage.Tests.{is_raw_test, result_index}
use rapidbench.Storage.Run.{
  make_result, set_fields, measured, after_prepare, StorageTests, Prepared, ready, failed, Progress,
  tests_of, prepare_raw, just_failed, run_one, named, keep_result, leaves, measure_test,
  prepared_for, run_tests, final_snapshot, run,
}

module _ (num : Doubles) where
  -- The result of a test stands in its place.
  abbrev pub HasResult : List (StorageResult num) → StorageTest → Type 0
  HasResult results t =
      (result : StorageResult num) × (get_elem? results (result_index t) ≡ some result)
      × (test_number result.test ≡ test_number t)

  -- A test that has a place.
  abbrev pub IsMeasured : StorageTest → Type 0
  IsMeasured t = (0 < test_number t) × (test_number t < 12)

  module _ (tests : StorageTests num) (r : StorageRequest) where
    after_prepare-results :
        (o : Prepared num) (p : Progress num)
        → (after_prepare num tests r o p).snapshot.results ≡ p.snapshot.results
    unfolding after_prepare
    after_prepare-results ready p = refl
    after_prepare-results (failed none) p = refl
    after_prepare-results (failed (some error)) p = refl

    prepare_raw-results :
        (p : Progress num) → (prepare_raw num tests r p).snapshot.results ≡ p.snapshot.results
    unfolding prepare_raw
    prepare_raw-results p = elim (Bool-cases (p.raw_prepared || p.raw_unavailable)) [
      | inl e ↦ rw e refl
      | inr e ↦
          let (outcome, fields) = tests.prepare r p.snapshot in
          rw e (
            after_prepare-results outcome
              (record p { snapshot = set_fields num fields p.snapshot }))
    ]

    run_one-results :
        (t : StorageTest) (stop : Bool) (p : Progress num)
        → (run_one num tests r t stop p).1.results ≡ p.snapshot.results
    unfolding run_one measured
    run_one-results t stop p = elim (Bool-cases (is_raw_test t)) [
      | inl e ↦ elim (Bool-cases p.raw_prepared) [ inl f ↦ rw (e, f) refl | inr f ↦ rw (e, f) refl ]
      | inr e ↦ rw e refl
    ]

    unasked : (b : Bool) → (b && false) ≡ false
    unasked b = ground arith

    run_one-honest :
        (t : StorageTest) (p : Progress num)
        → ((run_one num tests r t false p).0.test ≡ t)
          × ((run_one num tests r t false p).0.stopped ≡ false)
    unfolding run_one measured make_result
    run_one-honest t p = elim (Bool-cases (is_raw_test t)) [
      | inl e ↦ elim (Bool-cases p.raw_prepared) [
        | inl f ↦ rw (e, f) (refl, unasked (tests.run_raw t r p.snapshot).tells_stop)
        | inr f ↦ rw (e, f) (refl, refl)
      ]
      | inr e ↦ rw e (refl, unasked (tests.run_sqlite t r p.snapshot).tells_stop)
    ]

    named-honest :
        (t : StorageTest) (error : ℤ) (result : StorageResult num)
        → result.test ≡ t
        → result.stopped ≡ false
        → ((named num tests r t error result).test ≡ t)
          × ((named num tests r t error result).stopped ≡ false)
    unfolding named
    named-honest t error result e s = elim (Bool-cases (same_test result.test k_none)) [
      | inl f ↦ rw f (refl, s)
      | inr f ↦ rw f (e, s)
    ]

    prepared_for-results :
        (t : StorageTest) (p : Progress num)
        → (prepared_for num tests r t p).snapshot.results ≡ p.snapshot.results
    unfolding prepared_for
    prepared_for-results t p = elim (Bool-cases (is_raw_test t)) [
      | inl e ↦ rw e (prepare_raw-results p)
      | inr e ↦ rw e refl
    ]

    -- The results after one test: one entry is new, and it is that test's.
    measure_test-results :
        (t : StorageTest) (p : Progress num)
        → ((measure_test num tests r t false p).1.snapshot.results
            ≡ set p.snapshot.results (result_index t) (measure_test num tests r t false p).0)
          × ((measure_test num tests r t false p).0.test ≡ t)
          × ((measure_test num tests r t false p).0.stopped ≡ false)
    unfolding measure_test keep_result
    measure_test-results t p =
        let (same, on) = run_one-honest t p in
        let (name, goes) = named-honest t p.final_error (run_one num tests r t false p).0 same on in
        (
          ap
              (λ l.
                set l (result_index t)
                  (named num tests r t p.final_error (run_one num tests r t false p).0))
              (run_one-results t false p),
          name,
          goes,
        )

    HasResult-set :
        (results : List (StorageResult num)) (t u : StorageTest) (result : StorageResult num)
        → length results ≡ 11
        → IsMeasured t
        → IsMeasured u
        → result.test ≡ t
        → HasResult results u
        → HasResult (set results (result_index t) result) u
    HasResult-set results t u result l (a, b) (c, d) e (old, f, g) =
        elim (Bool-cases (result_index t == result_index u)) [
          | inl same ↦
              let place : result_index t ≡ result_index u = ground arith in
              (
                result,
                subst (λ i. get_elem? (set results (result_index t) result) i ≡ some result) place
                    (get_elem?-set_self results (result_index t) result (omega arith)),
                ap test_number e ∙ omega arith,
              )
          | inr other ↦ (
            old,
            get_elem?-set_ne results (result_index t) (result_index u) result
                  (λ same. absurd (ground arith))
                ∙ f,
            g,
          )
        ]

    module _ (stop : ℕ → Bool) (never : (k : ℕ) → stop k ≡ false)
        (every : same_test r.test k_all ≡ true) where
      goes_on :
          (k : ℕ) (result : StorageResult num)
          → result.stopped ≡ false
          → leaves num tests r (stop k) result ≡ false
      unfolding leaves
      goes_on k result e =
          ground (arith, e, every, never k, Bool-cases (eqb_ℤ result.error_code (pos 0)))

      -- One round of the loop.
      abbrev round : StorageTest → Progress num → Progress num
      round t p = (measure_test num tests r t false (prepared_for num tests r t p)).1

      run_tests-round :
          (k : ℕ) (t : StorageTest) (ts : List StorageTest) (p : Progress num)
          → (next : ℕ) × (run_tests num tests r stop k (t ∷ ts) p
              ≡ run_tests num tests r stop next ts (round t p))
      unfolding run_tests
      run_tests-round k t ts p =
          let q = prepared_for num tests r t p in
          let failed_now = just_failed num tests r p q in
          let looked = if failed_now then k + 2 else k + 1 in
          let on =
            goes_on (looked + 1) (measure_test num tests r t false q).0
              (measure_test-results t q).2 in
          let still : (failed_now && stop (k + 1)) ≡ false = ground (arith, never (k + 1)) in
          (looked + 2, rw (never k, never looked, still, on) refl)

      round-HasResult :
          (t u : StorageTest) (p : Progress num)
          → length p.snapshot.results ≡ 11
          → IsMeasured t
          → IsMeasured u
          → HasResult p.snapshot.results u
          → HasResult (round t p).snapshot.results u
      round-HasResult t u p l m n h =
          let q = prepared_for num tests r t p in
          let same = prepared_for-results t p in
          let (new, name, on) = measure_test-results t q in
          subst (λ l. HasResult l u)
            (sym
              (new ∙ ap (λ l. set l (result_index t) (measure_test num tests r t false q).0) same))
            (HasResult-set p.snapshot.results t u (measure_test num tests r t false q).0 l m n name
              h)

      length-round :
          (t : StorageTest) (p : Progress num)
          → length (round t p).snapshot.results ≡ length p.snapshot.results
      length-round t p =
          let q = prepared_for num tests r t p in
          ap length (measure_test-results t q).0
          ∙ length-set q.snapshot.results (result_index t) _
          ∙ ap length (prepared_for-results t p)

      round-own :
          (t : StorageTest) (p : Progress num)
          → length p.snapshot.results ≡ 11
          → IsMeasured t
          → HasResult (round t p).snapshot.results t
      round-own t p l (a, b) =
          let q = prepared_for num tests r t p in
          let (new, name, on) = measure_test-results t q in
          let size = ap length (prepared_for-results t p) in
          (
            (measure_test num tests r t false q).0,
            ap (λ l. get_elem? l (result_index t)) new
                ∙ get_elem?-set_self q.snapshot.results (result_index t) _ (omega (arith, size)),
            ap test_number name,
          )

      run_tests-kept :
          (k : ℕ) (ts : List StorageTest) (p : Progress num) (u : StorageTest)
          → length p.snapshot.results ≡ 11
          → All IsMeasured ts
          → IsMeasured u
          → HasResult p.snapshot.results u
          → HasResult (run_tests num tests r stop k ts p).1.snapshot.results u
      unfolding run_tests
      run_tests-kept k [] p u l m n h = h
      run_tests-kept k (t ∷ ts) p u l m n h =
          let (next, same) = run_tests-round k t ts p in
          subst (λ x. HasResult x.1.snapshot.results u) (sym same)
            (run_tests-kept next ts (round t p) u (length-round t p ∙ l) m.1 n
              (round-HasResult t u p l m.0 n h))

      run_tests-filled :
          (k : ℕ) (ts : List StorageTest) (p : Progress num)
          → length p.snapshot.results ≡ 11
          → All IsMeasured ts
          → All (HasResult (run_tests num tests r stop k ts p).1.snapshot.results) ts
      run_tests-filled k [] p l m = tt
      run_tests-filled k (t ∷ ts) p l m =
          let (next, same) = run_tests-round k t ts p in
          let size = length-round t p ∙ l in
          subst (λ x. All (HasResult x.1.snapshot.results) (t ∷ ts)) (sym same)
            (
              run_tests-kept next ts (round t p) t size m.1 m.0 (round-own t p l m.0),
              run_tests-filled next ts (round t p) size m.1,
            )

  tests_of-IsMeasured :
      (r : StorageRequest) → same_test r.test k_all ≡ true → All IsMeasured (tests_of num r)
  unfolding tests_of
  tests_of-IsMeasured r e = rw e (ground arith)

  final_snapshot-completed :
      (tests : StorageTests num) (r : StorageRequest) (p : Progress num) (stop : Bool)
      → stop ≡ false
      → same_test r.test k_all ≡ true
      → ((final_snapshot num tests r stop p).state ≡ k_completed)
        × ((final_snapshot num tests r stop p).results ≡ p.snapshot.results)
  unfolding final_snapshot
  final_snapshot-completed tests r p stop still every =
      elim (Bool-cases (eqb_ℤ p.final_error (pos 0))) [
        | inl e ↦ rw (still, e) (refl, refl)
        | inr e ↦ rw (still, e, every) (refl, refl)
      ]

  -- A run of every test that nobody stops ends as completed, whatever the preparation of the file and
  -- the measurements come to, and its last snapshot has a result of each of the eleven tests, in that
  -- test's own place.
  pub run_complete :
      (tests : StorageTests num)
      → (r : StorageRequest) (stop : ℕ → Bool) (run_id : ℕ) (s : StorageSnapshot num)
      → ((k : ℕ) → stop k ≡ false)
      → same_test r.test k_all ≡ true
      → length s.results ≡ 11
      → ((run num tests r stop run_id s).1.state ≡ k_completed)
        × All (HasResult (run num tests r stop run_id s).1.results) (tests_of num r)
  unfolding run
  run_complete tests r stop run_id s never every size =
      let begun : Progress num = record {
        snapshot = record s { run_id = run_id };
        raw_prepared = false;
        raw_unavailable = false;
        final_error = pos 0;
        published = [];
      } in
      let ts = tests_of num r in
      let last = run_tests num tests r stop 0 ts begun in
      let filled =
        run_tests-filled tests r stop never every 0 ts begun size (tests_of-IsMeasured r every) in
      let (state, results) =
        final_snapshot-completed tests r last.1 (stop last.0) (never last.0) every in
      (state, subst (λ l. All (HasResult l) ts) (sym results) filled)
