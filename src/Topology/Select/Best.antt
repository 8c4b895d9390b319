-- ===== src/Topology/Select/Best.antt =====
-- The selections of CPUs take the best ones.
use mathlib.Core.List.{Perm, append-nil}
use rapidbench.Prelude.{
  ℕ, zero, suc, ◌≤◌, ◌<◌, ◌≡◌, refl, sym, ap, ◌∙◌, Bool, true, false, List, [], ◌∷◌, ◌++◌, arith,
  ltb, if◌then◌else◌, length, keep_if, take, drop, take-append-drop, length-take, All, All-map,
  Bool-cases, ◌⊎◌, inl, inr, subst, min,
}
use rapidbench.Prelude.Sort.{
  sort, IsSorted, StrictWeak, sort-IsSorted, sort-perm, length-sort, Ascending, contains,
  contains-sort, contains-unique, unique, unique-Ascending, ltb-StrictWeak,
}
use rapidbench.Prelude.Int.{word32}
use rapidbench.Topology.Types.{CpuInfo, Topology}
use rapidbench.Topology.Rank.{RankSource, common_rank_source, performance_rank}
use rapidbench.Topology.Select.{
  is_candidate, candidate_lt, sorted_candidates, limited, numbers_of, select_cpu_candidates,
  select_cpu_application_cpus,
}

candidate_lt-StrictWeak : (r : RankSource) → StrictWeak (candidate_lt r)
candidate_lt-StrictWeak r = record {
  asymm = λ a b h. ground arith;
  trans = λ a b c h k. ground arith;
}

-- How many CPUs a request takes of those that are there: all of them if it asks for 0.
abbrev pub granted : ℕ → ℕ → ℕ
granted zero available = available
granted (suc n) available = min (suc n) available

module _ {A : Type 0} (lt : A → A → Bool) where
  -- Of the two parts of a sorted list, none of the second goes before one of the first.
  abbrev NoneBefore : List A → List A → Type 0
  NoneBefore rest = All (λ c. All (λ d. lt d c ≡ false) rest)

  NoneBefore-split : (xs ys : List A) → IsSorted lt (xs ++ ys) → IsSorted lt xs × NoneBefore ys xs
  NoneBefore-split [] ys s = (tt, tt)
  NoneBefore-split (x ∷ xs) ys s =
      let (sorted, before) = NoneBefore-split xs ys s.1 in
      let (own, later) = All-split xs ys s.0 in ((own, sorted), (later, before))
    where
      All-split :
          (us vs : List A)
          → All (λ d. lt d x ≡ false) (us ++ vs)
          → All (λ d. lt d x ≡ false) us × All (λ d. lt d x ≡ false) vs
      All-split [] vs h = (tt, h)
      All-split (u ∷ us) vs h = let (a, b) = All-split us vs h.1 in ((h.0, a), b)

-- A higher rank goes first, and of the same rank the lower number.
abbrev pub Before : RankSource → CpuInfo → CpuInfo → Type 0
Before r c d =
    (performance_rank d r < performance_rank c r)
    ⊎ ((performance_rank c r ≡ performance_rank d r) × (c.logical_cpu ≤ d.logical_cpu))

not_lt-Before : (r : RankSource) (c d : CpuInfo) → candidate_lt r d c ≡ false → Before r c d
not_lt-Before r c d e = ground arith

-- Every CPU of the list stands before all that follow it.
abbrev pub InOrder : RankSource → List CpuInfo → Type 0
InOrder r [] = Unit
InOrder r (c ∷ cs) = All (Before r c) cs × InOrder r cs

sorted-InOrder : (r : RankSource) (cs : List CpuInfo) → IsSorted (candidate_lt r) cs → InOrder r cs
sorted-InOrder r [] h = tt
sorted-InOrder r (c ∷ cs) h = (
  All-map (λ d. candidate_lt r d c ≡ false) (Before r c) (not_lt-Before r c) cs h.0,
  sorted-InOrder r cs h.1,
)

limited-few : (n : ℕ) (cs : List CpuInfo) → suc n < length cs → limited (suc n) cs ≡ take (suc n) cs
unfolding limited
limited-few n cs h = ground arith

limited-many : (n : ℕ) (cs : List CpuInfo) → length cs ≤ suc n → limited (suc n) cs ≡ cs
unfolding limited
limited-many n cs h = ground arith

limited-none : (cs : List CpuInfo) → limited 0 cs ≡ cs
unfolding limited
limited-none cs = refl

at_least : (n : ℕ) (cs : List CpuInfo) → ltb (suc n) (length cs) ≡ false → length cs ≤ suc n
at_least n cs e = ground arith

limited-parts :
    (requested : ℕ) (cs : List CpuInfo)
    → (rest : List CpuInfo) × (limited requested cs ++ rest ≡ cs)
      × (length (limited requested cs) ≡ granted requested (length cs))
limited-parts zero cs = ([], rw (limited-none cs) (append-nil cs), ap length (limited-none cs))
limited-parts (suc n) cs = elim (Bool-cases (ltb (suc n) (length cs))) [
  | inl e ↦
      let few = limited-few n cs (ground arith) in
      (
        drop (suc n) cs,
        ap (λ l. l ++ drop (suc n) cs) few ∙ take-append-drop (suc n) cs,
        ap length few ∙ length-take (suc n) cs,
      )
  | inr e ↦
      let many = limited-many n cs (ground arith) in
      ([], append-nil (limited (suc n) cs) ∙ many, ap length many ∙ omega (arith, at_least n cs e))
]

-- The selection for a benchmark is a part of the CPUs that may be selected (those online and
-- allowed, or all), of the size that the request grants. The chosen CPUs are in order, with a higher
-- rank first and, of the same rank, a lower number, and stand in this order before all those that
-- are left out.
pub select_cpu_candidates-best :
    (t : Topology) (requested : ℕ) (include_all : Bool)
    → let candidates = keep_if (is_candidate include_all) t.cpus in
      let source = common_rank_source t in
      (chosen rest : List CpuInfo) × (select_cpu_candidates t requested include_all
        ≡ numbers_of chosen)
      × Perm (chosen ++ rest) candidates
      × (length chosen ≡ granted requested (length candidates))
      × InOrder source chosen
      × All (λ c. All (Before source c) rest) chosen
unfolding select_cpu_candidates sorted_candidates
select_cpu_candidates-best t requested include_all =
    let candidates = keep_if (is_candidate include_all) t.cpus in
    let source = common_rank_source t in
    let lt = candidate_lt source in
    let ordered = sort lt candidates in
    let chosen = limited requested ordered in
    let (rest, split, size) = limited-parts requested ordered in
    let in_order =
      subst (IsSorted lt) (sym split)
        (sort-IsSorted lt (candidate_lt-StrictWeak (common_rank_source t)) candidates) in
    let (sorted, before) = NoneBefore-split lt chosen rest in_order in
    (
      chosen,
      rest,
      refl,
      subst (λ l. Perm l candidates) (sym split) (sort-perm lt candidates),
      size ∙ ap (granted requested) (length-sort lt candidates),
      sorted-InOrder source chosen sorted,
      All-map (λ c. All (λ d. lt d c ≡ false) rest) (λ c. All (Before source c) rest)
          (λ c. All-map (λ d. lt d c ≡ false) (Before source c) (not_lt-Before source c) rest)
          chosen before,
    )

-- Let xs be the numbers of the topology's CPUs, in strictly ascending order. The selection for all
-- cores of an application run is xs, if these are at most 64, and else none. The selection for a
-- single core is the preferred CPU if the topology has it, and else none.
pub select_cpu_application_cpus-all :
    (t : Topology)
    → (xs : List ℕ) × Ascending 0 xs
      × ((k : ℕ) → contains k xs ≡ contains k (numbers_of t.cpus))
      × (select_cpu_application_cpus t true ≡ (if ltb 64 (length xs) then [] else xs))
      × (select_cpu_application_cpus t false ≡ (
          if contains (word32 t.preferred_single_cpu) (numbers_of t.cpus)
          then word32 t.preferred_single_cpu ∷ []
          else []))
unfolding select_cpu_application_cpus
select_cpu_application_cpus-all t =
    let numbers = numbers_of t.cpus in
    let found = λ (k : ℕ). contains-unique k (sort ltb numbers) ∙ contains-sort k numbers in
    (
      unique (sort ltb numbers),
      unique-Ascending (sort ltb numbers) (sort-IsSorted ltb ltb-StrictWeak numbers),
      found,
      refl,
      rw (found (word32 t.preferred_single_cpu)) refl,
    )
