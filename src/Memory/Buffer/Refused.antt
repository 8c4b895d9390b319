-- ===== src/Memory/Buffer/Refused.antt =====
-- The allocation of the buffer: it ends, and it is not tried below the minimum.
use rapidbench.Prelude.{
  ℕ, zero, suc, ◌-◌, ◌*◌, ◌/◌, ◌%◌, ◌^◌, ◌≤◌, ◌<◌, ◌≡◌, ◌≢◌, refl, ap, Bool, true, false, [], ◌∷◌,
  leb, if_intro, All, arith,
}
use rapidbench.Memory.Buffer.{
  round_down, target_bytes, granularity, choose_buffer_bytes, Allocation, allocated, refused,
  unfinished, after_refusal, allocate_loop, allocate_buffer, minimum_buffer_bytes, alignment_bytes,
}

-- What an allocation of so many bytes must come to.
abbrev pub IsSound : (ℕ → Bool) → ℕ → Allocation → Type 0
IsSound grants byte_count (allocated asked got) =
    (grants got ≡ true)
    × (minimum_buffer_bytes ≤ got)
    × (got ≤ byte_count)
    × (got % alignment_bytes ≡ 0)
IsSound grants byte_count (refused asked) = All (λ size. grants size ≡ false) asked
IsSound grants byte_count unfinished = ⊥

after_refusal-IsSound :
    (grants : ℕ → Bool) (byte_count size : ℕ) (a : Allocation)
    → grants size ≡ false
    → size ≤ byte_count
    → IsSound grants (size / 2) a
    → IsSound grants byte_count (after_refusal size a)
after_refusal-IsSound grants b size (allocated asked got) denied l (granted, low, high, even) =
    (granted, low, omega (arith, high, l), even)
after_refusal-IsSound grants b size (refused asked) denied l all = (denied, all)
after_refusal-IsSound grants b size unfinished denied l never = never

round_down-lem :
    (r : ℕ)
    → (round_down r 128 ≤ r)
      × (round_down r 128 % 128 ≡ 0)
      × (2 ^ 25 ≤ r → 2 ^ 25 ≤ round_down r 128)
unfolding round_down
round_down-lem r = (omega arith, omega arith, λ h. omega (arith, h))

allocate_loop-IsSound :
    (n : ℕ) (grants : ℕ → Bool) (requested : ℕ)
    → requested < 2 ^ 25 * 2 ^ n
    → IsSound grants requested (allocate_loop (suc n) grants requested)
unfolding allocate_loop
allocate_loop-IsSound zero grants r l =
    if_intro (IsSound grants r) (leb minimum_buffer_bytes r) _ _
      (λ enough. absurd (ground (arith, l, enough))) (λ small. tt)
allocate_loop-IsSound (suc n) grants r l =
    let (low, even, high) = round_down-lem r in
    let size = round_down r 128 in
    let later = allocate_loop-IsSound n grants (size / 2) (omega (arith, low, l)) in
    if_intro (IsSound grants r) (leb minimum_buffer_bytes r) _ _
      (λ enough.
        if_intro (IsSound grants r) (grants size) (allocated (size ∷ []) size) _
          (λ granted. (granted, high (ground (arith, enough)), low, even))
          (λ denied. after_refusal-IsSound grants r size _ denied low later))
      (λ small. tt)

-- AllocateBuffer ends for every size of 64 bits, whatever the system grants: with a buffer that the
-- system granted, of at least 32 MiB, at most the size asked for and a multiple of 128 bytes, or
-- without one, and then every size that was asked for has been refused.
pub allocate_buffer-IsSound :
    (grants : ℕ → Bool) (byte_count : ℕ)
    → byte_count < 2 ^ 64
    → IsSound grants byte_count (allocate_buffer grants byte_count)
unfolding allocate_buffer
allocate_buffer-IsSound grants b l = allocate_loop-IsSound 64 grants b (omega (arith, l))

chosen_small :
    (available n : ℕ)
    → 0 < available
    → available ≤ 268435456
    → minimum_buffer_bytes % granularity n ≢ 0
    → leb minimum_buffer_bytes (choose_buffer_bytes available n) ≡ false
unfolding choose_buffer_bytes target_bytes round_down
chosen_small available n some_bytes few uneven =
    let target : target_bytes available ≡ minimum_buffer_bytes = ground arith in
    let rest = minimum_buffer_bytes % granularity n in
    below rest (choose_buffer_bytes available n) (ap (λ t. t - t % granularity n) target) uneven
  where
    below :
        (rest chosen : ℕ)
        → chosen ≡ minimum_buffer_bytes - rest
        → rest ≢ 0
        → leb minimum_buffer_bytes chosen ≡ false
    below rest chosen e h = ground (arith, e, h)

-- Where at most 256 MiB are available, the buffer may be refused without a single allocation: if
-- 32 MiB is no multiple of the granularity for the number of threads, the size that is chosen lies
-- below the minimum, and AllocateBuffer gives up at once, whatever the system would grant.
pub choose_buffer_bytes-refused :
    (grants : ℕ → Bool) (available thread_count : ℕ)
    → 0 < available
    → available ≤ 268435456
    → minimum_buffer_bytes % granularity thread_count ≢ 0
    → allocate_buffer grants (choose_buffer_bytes available thread_count) ≡ refused []
unfolding allocate_buffer allocate_loop
choose_buffer_bytes-refused grants available n some_bytes few uneven =
    let small = chosen_small available n some_bytes few uneven in
    if_intro (λ a. a ≡ refused []) (leb minimum_buffer_bytes (choose_buffer_bytes available n)) _ _
      (λ enough. absurd (ground (arith, small, enough))) (λ below. refl)
