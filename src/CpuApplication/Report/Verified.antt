-- ===== src/CpuApplication/Report/Verified.antt =====
-- What the last snapshot of an application run vouches for.
use rapidbench.Prelude.{
  ℕ, ◌≡◌, ◌≢◌, refl, ap, Bool, true, false, not, ◌&&◌, List, [], ◌∷◌, is_empty, ◌==◌, if_intro, All,
  arith,
}
use rapidbench.Prelude.Doubles.{Doubles, zero_double}
use rapidbench.Prelude.Bits.{has_bit, set_bit, clear_bit}
use rapidbench.Prelude.Int.{ℤ, pos, eqb_ℤ→eq}
use rapidbench.Cpu.Types.{k_error, k_completed}
use rapidbench.Workload.Application.{validate}
use rapidbench.CpuApplication.Types.{CpuApplicationRequest, CpuApplicationSnapshot}
use rapidbench.CpuApplication.Worker.{Worker}
use rapidbench.CpuApplication.Report.{
  application_validated, Sums, is_no_error, has_worked, add_worker, add_workers, sums_of,
  final_error, closed, summed, report,
}

-- Where a worker has measured, its output is valid.
abbrev pub IsVerified : Worker → Type 0
IsVerified w = has_worked w ≡ true → validate w.workload ≡ true

validated_before :
    (s : Sums) (w : Worker)
    → (add_worker s w).validated ≡ true
    → (s.validated ≡ true) × IsVerified w
unfolding add_worker
validated_before s w e = (ground (arith, e), λ h. ground (arith, e, h))

add_workers-IsVerified :
    (ws : List Worker) (s : Sums)
    → (add_workers ws s).validated ≡ true
    → (s.validated ≡ true) × All IsVerified ws
unfolding add_workers
add_workers-IsVerified [] s e = (e, tt)
add_workers-IsVerified (w ∷ ws) s e =
    let (before, rest) = add_workers-IsVerified ws (add_worker s w) e in
    let (first, own) = validated_before s w before in (first, (own, rest))

final_error-none :
    (s : Sums)
    → is_no_error (final_error s) ≡ true
    → s.stop ≡ false
    → (s.validated ≡ true) × ((s.completed_units == 0) ≡ false)
unfolding final_error
final_error-none s e go = (ground (arith, e, go), ground (arith, e, go))

set_bit-on : (x : ℕ) → has_bit (set_bit x 0) 0 ≡ true
set_bit-on x = ground arith

clear_bit-off : (x : ℕ) → has_bit (clear_bit x 0) 0 ≡ false
clear_bit-off x = ground arith

unless : (b : Bool) → not b ≡ false → b ≡ true
unless b h = ground arith

module _ (num : Doubles) where
  -- What the last snapshot of a run may say.
  abbrev pub IsHonest : List Worker → CpuApplicationSnapshot num → Type 0
  IsHonest ws s =
      (s.state ≡ k_completed
        → (s.error_code ≡ pos 0)
          × (has_bit s.flags application_validated ≡ true)
          × (s.completed_units ≢ 0)
          × All IsVerified ws)
      × (s.state ≡ k_error
          → (s.error_code ≢ pos 0)
            × (has_bit s.flags application_validated ≡ false)
            × (s.units_per_second ≡ zero_double num))

  closed-IsHonest :
      (ws : List Worker) (r : CpuApplicationRequest) (t : Sums) (failed stop : Bool)
      (s : CpuApplicationSnapshot num)
      → not (is_no_error (final_error t)) ≡ failed
      → t.stop ≡ stop
      → (t.validated ≡ true → All IsVerified ws)
      → IsHonest ws (closed num r t failed stop (summed num t s))
  unfolding closed summed
  closed-IsHonest ws r t true stop s f p v = (
    λ e. cc,
    λ e. (λ none. absurd (ground (arith, f, ap is_no_error none)), clear_bit-off _, refl),
  )
  closed-IsHonest ws r t false true s f p v = (λ e. cc, λ e. cc)
  closed-IsHonest ws r t false false s f p v = (
    λ e.
        let none = unless (is_no_error (final_error t)) f in
        let (validated, some_units) = final_error-none t none p in
        (
          eqb_ℤ→eq (final_error t) (pos 0) none,
          if_intro (λ flags. has_bit flags application_validated ≡ true)
              (t.validated && not (t.completed_units == 0)) (set_bit s.flags application_validated)
              s.flags (λ y. set_bit-on s.flags)
              (λ n. absurd (ground (arith, n, validated, some_units))),
          λ zero_units. absurd (ground (arith, zero_units, some_units)),
          v validated,
        ),
    λ e. cc,
  )

  -- What the last snapshot of an application run vouches for. If it says completed, there was no error,
  -- its flag for validated output is set, it counts at least one unit, and the output of every worker
  -- that measured anything passes Validate. If it says error, its error is not 0, that flag is cleared
  -- and its rate is 0.
  pub report-IsHonest :
      (r : CpuApplicationRequest) (error : ℤ) (stop : Bool) (ws : List Worker)
      (s : CpuApplicationSnapshot num)
      → IsHonest ws (report num r error stop ws s)
  unfolding report sums_of
  report-IsHonest r error stop ws s =
      let t = sums_of error stop s.affinity_failures ws in
      closed-IsHonest ws r t _ _ s refl refl (λ e. (sums_verified e).1)
    where
      sums_verified :
          (sums_of error stop s.affinity_failures ws).validated ≡ true
          → (not (is_empty ws) ≡ true) × All IsVerified ws
      sums_verified e = add_workers-IsVerified ws _ e
