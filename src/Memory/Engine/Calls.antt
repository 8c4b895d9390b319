-- ===== src/Memory/Engine/Calls.antt =====
-- What Start and RequestStop of the memory engine leave behind.
use rapidbench.Prelude.{
  ℕ, ◌≡◌, refl, Bool, true, false, not, ◌||◌, ◌⊎◌, inl, inr, Option, none, some, if_intro, arith,
}
use rapidbench.Prelude.Doubles.{Doubles}
use rapidbench.Prelude.Int.{ℤ}
use rapidbench.Memory.Types.{MemoryRequest, is_over, k_preparing}
use rapidbench.Memory.Engine.{
  MemoryEngine, is_invalid, begun, unable, initial_snapshot, start, status_ok,
  status_invalid_argument, status_busy, status_internal_error,
}

module _ (num : Doubles) where
  -- How the calls of Start may come out.
  abbrev pub Outcome : MemoryEngine num → (ℤ × Option ℕ) × MemoryEngine num → Type 0
  Outcome e p =
      ((p.0.1 ≡ none) × (is_over p.1.snapshot.state ≡ is_over e.snapshot.state))
      ⊎ ((p.0 ≡ (status_ok, some e.next_run_id))
          × (is_over e.snapshot.state ≡ true)
          × (p.1.snapshot.state ≡ k_preparing)
          × (p.1.snapshot.run_id ≡ e.next_run_id)
          × (p.1.stop_requested ≡ false))

  -- Start of the memory engine never leaves it busy without a run: if it gives no number, also when no
  -- thread can be made, then afterwards the engine is free if and only if it was before; if it gives
  -- one, then the engine was free, the number is the next one, and the snapshot shows that run as
  -- preparing, with no stop requested.
  pub start_honest :
      (has_out has_thread : Bool) (r : MemoryRequest) (e : MemoryEngine num)
      → Outcome e (start num has_out has_thread r e)
  unfolding start begun unable initial_snapshot
  start_honest o h r e =
      if_intro (Outcome e) (not o || is_invalid r) ((status_invalid_argument, none), e) _
        (λ invalid. inl (refl, refl))
        (λ valid.
          if_intro (Outcome e) (not (is_over e.snapshot.state)) ((status_busy, none), e) _
            (λ busy. inl (refl, refl))
            (λ free.
              let over = negated (is_over e.snapshot.state) free in
              if_intro (Outcome e) h ((status_ok, some e.next_run_id), begun num r e)
                ((status_internal_error, none), unable num r e)
                (λ made. inr (refl, over, refl, refl, refl))
                (λ failed. inl (refl, ground (arith, over)))))
    where
      negated : (b : Bool) → not b ≡ false → b ≡ true
      negated b n = ground arith
