-- ===== src/Storage/Engine/Runs.antt =====
-- The engine and its coordinator as one system, between whose actions those of others may come.
use rapidbench.Prelude.{ℕ, ◌≡◌, Bool, true, false, Option, none, some, List, ◌∷◌, ◌++◌}
use rapidbench.Prelude.Int.{ℤ}
use rapidbench.Prelude.Doubles.{Doubles}
use rapidbench.Storage.Types.{StorageRequest, StorageSnapshot, StorageResult}
use rapidbench.Storage.Tests.{is_terminal}
use rapidbench.Storage.Engine.{
  StorageEngine, check, begun, initial_snapshot, unable, may_stop, raise_stop, publish_stopping,
  publish,
}

module _ (num : Doubles) where
  -- Where the one call of Start that is under way stands, if there is one: past its check, with the
  -- results that it read, or past its Publish.
  pub data Starting : Type 0 where
    s_none : Starting
    s_passed : StorageRequest → List (StorageResult num) → Starting
    s_begun : StorageSnapshot num → Starting

  -- The number of the run whose coordinator has not published its last snapshot; what calls of
  -- RequestStop have read, before and after they have stored the flag.
  pub record System : Type 0 where
    pub engine : StorageEngine num
    pub coordinator : Option ℕ
    pub starting : Starting
    pub copies : List (StorageSnapshot num)
    pub raised : List (StorageSnapshot num)

  -- What a Start that has made its check goes on with.
  abbrev pub passed : StorageRequest → List (StorageResult num) → Option ℤ → Starting
  passed r results (some status) = s_none
  passed r results none = s_passed r results

  abbrev pub was_started : (ℤ × Option ℕ) × StorageEngine num → Bool
  was_started ((status, none), e) = false
  was_started ((status, some n), e) = true

  -- One atomic action: of a Start, of which there is one at most, of a RequestStop, of which there may
  -- be any number, or of the coordinator.
  pub data Step : System → System → Type 0 where
    checks :
        (y : System) (has_out : Bool) (r : StorageRequest)
        → y.starting ≡ s_none
        → Step y (record y {
          starting = passed r y.engine.snapshot.results (check num has_out r y.engine);
        })
    -- Behind the join.
    begins :
        (y : System) (r : StorageRequest) (results : List (StorageResult num))
        → y.starting ≡ s_passed r results
        → y.coordinator ≡ none
        → Step y (record y {
          engine = begun num r results y.engine;
          starting = s_begun (initial_snapshot num r results y.engine);
        })
    launches :
        (y : System) (initial : StorageSnapshot num)
        → y.starting ≡ s_begun initial
        → Step y (record y { coordinator = some initial.run_id; starting = s_none })
    cannot_launch :
        (y : System) (initial : StorageSnapshot num)
        → y.starting ≡ s_begun initial
        → Step y (record y { engine = unable num initial y.engine; starting = s_none })
    looks :
        (y : System) (run_id : ℕ)
        → may_stop num run_id y.engine.snapshot ≡ true
        → Step y (record y { copies = y.engine.snapshot ∷ y.copies })
    raises :
        (y : System) (before after : List (StorageSnapshot num)) (c : StorageSnapshot num)
        → y.copies ≡ before ++ (c ∷ after)
        → Step y (record y {
          engine = raise_stop num y.engine;
          copies = before ++ after;
          raised = c ∷ y.raised;
        })
    stops :
        (y : System) (before after : List (StorageSnapshot num)) (c : StorageSnapshot num)
        → y.raised ≡ before ++ (c ∷ after)
        → Step y (record y { engine = publish_stopping num c y.engine; raised = before ++ after })
    publishes :
        (y : System) (n : ℕ) (s : StorageSnapshot num)
        → y.coordinator ≡ some n
        → s.run_id ≡ n
        → is_terminal s.state ≡ false
        → Step y (record y { engine = publish num s y.engine })
    ends :
        (y : System) (n : ℕ) (s : StorageSnapshot num)
        → y.coordinator ≡ some n
        → s.run_id ≡ n
        → is_terminal s.state ≡ true
        → Step y (record y { engine = publish num s y.engine; coordinator = none })

  pub data Steps : System → System → Type 0 where
    here : (y : System) → Steps y y
    then_step : (x y z : System) → Step x y → Steps y z → Steps x z
