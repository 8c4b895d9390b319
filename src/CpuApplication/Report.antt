-- ===== src/CpuApplication/Report.antt =====
-- native/benchmark_core/src/cpu_application_engine.cpp: the end of CpuApplicationEngine::Impl::Run, when
-- all workers have been joined.
pub mod Verified
use Prim.Native.Nat.{bit_xor}
use rapidbench.Prelude.{
  ℕ, ◌+◌, ◌*◌, ◌%◌, ◌^◌, Bool, true, false, not, ◌&&◌, ◌||◌, List, [], ◌∷◌, is_empty, ◌==◌,
  if◌then◌else◌, max,
}
use rapidbench.Prelude.Doubles.{Doubles, zero_double, smaller}
use rapidbench.Prelude.Int.{ℤ, pos, negsuc, eqb_ℤ}
use rapidbench.Prelude.Bits.{set_bit, clear_bit}
use rapidbench.Cpu.Types.{k_error, k_cancelled, k_completed}
use rapidbench.Workload.Application.{validate, digest}
use rapidbench.CpuApplication.Types.{CpuApplicationRequest, CpuApplicationSnapshot}
use rapidbench.CpuApplication.Worker.{Worker}

-- kApplicationValidated, by the number of its bit.
abbrev pub application_validated : ℕ
application_validated = 0

-- The sums over the workers, with the gate's error and the stop flag.
pub record Sums : Type 0 where
  pub completed_units : ℕ
  pub elapsed_ns : ℕ
  pub affinity_failures : ℕ
  pub checksum : ℕ
  pub validated : Bool
  pub error : ℤ
  pub stop : Bool

abbrev pub is_no_error : ℤ → Bool
is_no_error code = eqb_ℤ code (pos 0)

-- Fail: the first error stays.
unfoldable pub fail : ℤ → Sums → Sums
fail code s = record s { error = if is_no_error s.error then code else s.error; stop = true }

unfoldable pub has_worked : Worker → Bool
has_worked w = not (w.units == 0)

unfoldable pub add_worker : Sums → Worker → Sums
add_worker s w =
    let failed = has_worked w && not (validate w.workload) in
    let checked = if failed then fail (negsuc 29) s else s in
    let own = if has_worked w then digest w.workload else 0 in
    record checked {
      completed_units = (s.completed_units + w.units) % 2 ^ 64;
      elapsed_ns = max s.elapsed_ns w.elapsed;
      affinity_failures = (s.affinity_failures + (if w.affinity_failed then 1 else 0)) % 2 ^ 32;
      checksum = bit_xor (s.checksum * 1099511628211 % 2 ^ 64) own;
      validated = s.validated && not failed;
    }

unfoldable pub add_workers : List Worker → Sums → Sums
add_workers [] s = s
add_workers (w ∷ ws) s = add_workers ws (add_worker s w)

unfoldable pub sums_of : ℤ → Bool → ℕ → List Worker → Sums
sums_of error stop affinity_failures ws = add_workers ws (record {
  completed_units = 0;
  elapsed_ns = 0;
  affinity_failures = affinity_failures;
  checksum = 0;
  validated = not (is_empty ws);
  error = error;
  stop = stop;
})

-- The error of the run.
unfoldable pub final_error : Sums → ℤ
final_error s =
    if not s.stop && (not s.validated || (s.completed_units == 0)) then negsuc 29 else s.error

module _ (num : Doubles) where
  unfoldable pub units_per_second_of : ℕ → ℕ → num.Double
  units_per_second_of units elapsed_ns =
      if elapsed_ns == 0
      then zero_double num
      else num.quotient (num.product (num.of_word units) (num.of_word 1000000000))
          (num.of_word elapsed_ns)

  -- The share of the requested time that has gone.
  unfoldable pub progress_of : CpuApplicationRequest → ℕ → num.Double
  progress_of r elapsed_ns = smaller num (num.of_word 1) (
      num.quotient (num.of_word elapsed_ns)
        (num.product (num.of_word r.duration_ms) (num.of_word 1000000)))

  -- By whether there was an error, and whether a stop was requested.
  unfoldable pub closed :
      CpuApplicationRequest
      → Sums
      → Bool
      → Bool
      → CpuApplicationSnapshot num
      → CpuApplicationSnapshot num
  closed r t true stop s = record s {
    state = k_error;
    units_per_second = zero_double num;
    flags = clear_bit s.flags application_validated;
    progress = progress_of r t.elapsed_ns;
  }
  closed r t false true s = record s { state = k_cancelled; progress = progress_of r t.elapsed_ns }
  closed r t false false s = record s { state = k_completed; progress = num.of_word 1 }

  unfoldable pub summed : Sums → CpuApplicationSnapshot num → CpuApplicationSnapshot num
  summed t s = record s {
    completed_units = t.completed_units;
    elapsed_ns = t.elapsed_ns;
    affinity_failures = t.affinity_failures;
    checksum = t.checksum;
    error_code = final_error t;
    units_per_second = units_per_second_of t.completed_units t.elapsed_ns;
    flags =
        if t.validated && not (t.completed_units == 0)
        then set_bit s.flags application_validated
        else s.flags;
  }

  -- The last snapshot: `error` and `stop` are the gate's error and the stop flag when the workers have
  -- been joined.
  unfoldable pub report :
      CpuApplicationRequest
      → ℤ
      → Bool
      → List Worker
      → CpuApplicationSnapshot num
      → CpuApplicationSnapshot num
  report r error stop ws s =
      let t = sums_of error stop s.affinity_failures ws in
      closed r t (not (is_no_error (final_error t))) t.stop (summed t s)
