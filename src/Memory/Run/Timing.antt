-- ===== src/Memory/Run/Timing.antt =====
-- What SummarizeMemoryMeasurement gives.
use rapidbench.Prelude.{
  ℕ, ◌+◌, ◌-◌, ◌%◌, ◌^◌, ◌≤◌, ◌<◌, ◌≡◌, refl, sym, ap, ◌∙◌, subst, In, ◌⊎◌, List, [], ◌∷◌, ◌==◌,
  max, if◌then◌else◌, if_intro, All, arith, inl, inr,
}
use rapidbench.Prelude.Doubles.{Doubles}
use rapidbench.Memory.Run.{
  MemoryWorkerCompletion, Totalled, add_completions, total_completions,
  summarize_memory_measurement,
}

-- All that the workers did.
abbrev pub all_bytes : List MemoryWorkerCompletion → ℕ
all_bytes [] = 0
all_bytes (c ∷ cs) = c.bytes + all_bytes cs

-- A worker that did something was done by then.
abbrev pub IsDoneBy : ℕ → MemoryWorkerCompletion → Type 0
IsDoneBy time c = 0 < c.bytes → c.completed_at_ns ≤ time

abbrev add_one : MemoryWorkerCompletion → Totalled → Totalled
add_one c t = if c.bytes == 0 then t else record {
  bytes = (t.bytes + c.bytes) % 2 ^ 64;
  finished_at_ns = max t.finished_at_ns c.completed_at_ns;
}

-- The last of those that did something, or the start.
abbrev pub IsAttained : ℕ → ℕ → List MemoryWorkerCompletion → Type 0
IsAttained start time cs =
    (time ≡ start)
    ⊎ ((c : MemoryWorkerCompletion) × In c cs × (0 < c.bytes) × (c.completed_at_ns ≡ time))

abbrev Added : MemoryWorkerCompletion → Totalled → Totalled → Type 0
Added c t u =
    (u.bytes ≡ (t.bytes + c.bytes) % 2 ^ 64)
    × (t.finished_at_ns ≤ u.finished_at_ns)
    × IsDoneBy u.finished_at_ns c
    × ((u.finished_at_ns ≡ t.finished_at_ns)
        ⊎ ((0 < c.bytes) × (c.completed_at_ns ≡ u.finished_at_ns)))

max_cases : (a b : ℕ) → (max a b ≡ a) ⊎ (b ≡ max a b)
max_cases a b = ground arith

add_one-Added :
    (c : MemoryWorkerCompletion) (t : Totalled) → t.bytes < 2 ^ 64 → Added c t (add_one c t)
add_one-Added c t l =
    if_intro (Added c t) (c.bytes == 0) t
      (record {
        bytes = (t.bytes + c.bytes) % 2 ^ 64;
        finished_at_ns = max t.finished_at_ns c.completed_at_ns;
      })
      (λ nothing. (
        ground (arith, l, nothing),
        omega arith,
        λ h. absurd (ground (arith, h, nothing)),
        inl refl,
      ))
      (λ something. (
        refl,
        omega arith,
        λ h. omega arith,
        elim (max_cases t.finished_at_ns c.completed_at_ns) [
          | inl e ↦ inl e
          | inr e ↦ inr (ground (arith, something), e)
        ],
      ))

add_completions-lem :
    (cs : List MemoryWorkerCompletion) (t : Totalled)
    → t.bytes < 2 ^ 64
    → let u = add_completions cs t in
      (u.bytes ≡ (t.bytes + all_bytes cs) % 2 ^ 64)
      × (t.finished_at_ns ≤ u.finished_at_ns)
      × All (IsDoneBy u.finished_at_ns) cs
      × IsAttained t.finished_at_ns u.finished_at_ns cs
unfolding add_completions
add_completions-lem [] t l = (omega (arith, l), omega arith, tt, inl refl)
add_completions-lem (c ∷ cs) t l =
    let (bytes, later, done, own) = add_one-Added c t l in
    let (all, last, rest, attained) = add_completions-lem cs (add_one c t) (omega (arith, bytes)) in
    (
      omega (arith, bytes, all),
      omega (arith, later, last),
      (λ h. omega (arith, done h, last), rest),
      elim attained [
        | inl same ↦ elim own [
          | inl kept ↦ inl (same ∙ kept)
          | inr (some_bytes, e) ↦ inr (c, inl refl, some_bytes, e ∙ sym same)
        ]
        | inr (d, i, some_bytes, e) ↦ inr (d, inr i, some_bytes, e)
      ],
    )

-- The summary of a measurement counts every byte that the workers report, modulo 2 ^ 64, and its time
-- is the shortest that holds all their work: it ends no earlier than any worker that did something,
-- and where it is not 0 one of them ends with it, so that the subtraction does not wrap around.
pub summarize_memory_measurement_exact :
    (num : Doubles) (started_at_ns : ℕ) (cs : List MemoryWorkerCompletion)
    → let m = summarize_memory_measurement num started_at_ns cs in
      (m.bytes ≡ all_bytes cs % 2 ^ 64)
      × All (IsDoneBy (started_at_ns + m.elapsed_ns)) cs
      × IsAttained started_at_ns (started_at_ns + m.elapsed_ns) cs
unfolding summarize_memory_measurement total_completions
summarize_memory_measurement_exact num start cs =
    let begin : Totalled = record { bytes = 0; finished_at_ns = start } in
    let u = add_completions cs begin in
    let (bytes, later, done, attained) = add_completions-lem cs begin (omega arith) in
    let end : u.finished_at_ns ≡ start + (u.finished_at_ns - start) = omega (arith, later) in
    (
      bytes ∙ ap (λ k. k % 2 ^ 64) (omega arith),
      subst (λ k. All (IsDoneBy k) cs) end done,
      subst (λ k. IsAttained start k cs) end attained,
    )
