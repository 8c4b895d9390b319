-- ===== src/Cpu/Engine/Runs.antt =====
-- The engine and its coordinator as one system, in any order of their actions.
use rapidbench.Prelude.{ℕ, ◌≡◌, Bool, true, false, Option, none, some}
use rapidbench.Prelude.Doubles.{Doubles}
use rapidbench.Prelude.Int.{ℤ}
use rapidbench.Cpu.Types.{State, Phase, TestId, Request, is_running}
use rapidbench.Cpu.Telemetry.{Totals, Peaks}
use rapidbench.Cpu.Engine.{
  Engine, Started, returns, throws, check, begin, request_stop, publish_configuration,
  publish_affinity, publish_telemetry, add_quality_flag, publish_state, publish_measurement,
  publish_error,
}

module _ (num : Doubles) where
  -- The number of the run whose coordinator is at work, and the request of a Start that has passed its
  -- check and not begun its run yet.
  pub record System : Type 0 where
    pub engine : Engine num
    pub coordinator : Option ℕ
    pub starting : Option Request

  -- What a Start that has made its check goes on with.
  abbrev pub passed : Request → Option ℤ → Option Request
  passed r (some status) = none
  passed r none = some r

  -- Who is at work behind a Start.
  abbrev pub coordinator_of : Option ℕ → Started num → Option ℕ
  coordinator_of before (returns status none) = before
  coordinator_of before (returns status (some n)) = some n
  coordinator_of before (throws n) = before

  abbrev pub act : (Engine num → Engine num) → System → System
  act f y = record y { engine = f y.engine }

  pub data Step : System → System → Type 0 where
    -- The two locked parts of Start, of which one call is under way at most. The second one follows on
    -- the join.
    checks :
        (y : System) (has_out : Bool) (r : Request)
        → y.starting ≡ none
        → Step y (record y { starting = passed r (check num has_out r y.engine) })
    begins :
        (y : System) (has_thread : Bool) (r : Request)
        → y.starting ≡ some r
        → y.coordinator ≡ none
        → Step y (record {
          engine = (begin num has_thread r y.engine).1;
          coordinator = coordinator_of y.coordinator (begin num has_thread r y.engine).0;
          starting = none;
        })
    stops : (y : System) (run_id : ℕ) → Step y (act (λ e. (request_stop num run_id e).1) y)
    configures :
        (y : System) (n : ℕ) (test : TestId) (threads : ℕ) (cpu : ℤ) (flags : ℕ)
        → y.coordinator ≡ some n
        → Step y (act (publish_configuration num n test threads cpu flags) y)
    counts_failures :
        (y : System) (n failures : ℕ)
        → y.coordinator ≡ some n
        → Step y (act (publish_affinity num n failures) y)
    tells :
        (y : System) (n : ℕ) (p : Peaks) (groups : ℕ) (t : Totals) (workers : ℕ)
        (hint request : Bool)
        → y.coordinator ≡ some n
        → Step y (act (publish_telemetry num n p groups t workers hint request) y)
    flags :
        (y : System) (n flag : ℕ)
        → y.coordinator ≡ some n
        → Step y (act (add_quality_flag num n flag) y)
    goes_on :
        (y : System) (n : ℕ) (s : State) (p : Phase)
        → y.coordinator ≡ some n
        → is_running s ≡ true
        → Step y (act (publish_state num n s p) y)
    measures :
        (y : System) (n elapsed work : ℕ) (score progress variation peak : num.Double)
        (checksum : ℕ)
        → y.coordinator ≡ some n
        → Step y
            (act (publish_measurement num n elapsed work score progress variation peak checksum) y)
    ends :
        (y : System) (n : ℕ) (s : State) (p : Phase)
        → y.coordinator ≡ some n
        → is_running s ≡ false
        → Step y (record y { engine = publish_state num n s p y.engine; coordinator = none })
    fails :
        (y : System) (n : ℕ) (code : ℤ)
        → y.coordinator ≡ some n
        → Step y (record y { engine = publish_error num n code y.engine; coordinator = none })

  pub data Steps : System → System → Type 0 where
    here : (y : System) → Steps y y
    then_step : (x y z : System) → Step x y → Steps y z → Steps x z
