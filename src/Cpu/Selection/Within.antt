-- ===== src/Cpu/Selection/Within.antt =====
-- What the engine's choice of CPUs gives.
use rapidbench.Prelude.{
  ℕ, zero, suc, ◌≤◌, ◌<◌, ◌≡◌, refl, sym, ap, ◌∙◌, subst, Bool, true, false, not, ◌&&◌, List, [],
  ◌∷◌, ◌==◌, ltb, if_intro, length, is_empty, take, keep_if, All, All-In, In, Bool-cases, inl, inr,
  length-take, length-map, arith,
}
use rapidbench.Prelude.Int.{ℤ, pos, negsuc}
use rapidbench.Prelude.Sort.{sort, sort-All}
use rapidbench.Topology.Types.{CpuInfo, Topology}
use rapidbench.Topology.Rank.{common_rank_source}
use rapidbench.Topology.Select.{
  select_present_cpu_benchmark_cpus, is_selectable_cpu, select_performance_group_cpus, limited,
  sorted_candidates, candidate_lt, is_candidate, numbers_of, select_cpu_candidates,
}
use rapidbench.Topology.Select.Best.{select_cpu_candidates-best, granted}
use rapidbench.Cpu.Types.{Request, maximum_benchmark_threads}
use rapidbench.Cpu.Selection.{
  Selection, select_cpus, select_multi, select_single, truncated, one_cpu, or_none, is_cpu_multi,
  is_cpu_single, requested_cpu, is_single_cpu_explicit, requested_group, is_multi_group_explicit,
}

-- The CPUs of the list are in the topology.
abbrev pub AllPresent : Topology → List ℕ → Type 0
AllPresent t = All (λ n. is_selectable_cpu t.cpus n ≡ true)

-- The preferred CPU is one of the topology's, or unknown.
abbrev pub IsPreferredPresent : Topology → Type 0
IsPreferredPresent t = (n : ℕ) → t.preferred_single_cpu ≡ pos n → is_selectable_cpu t.cpus n ≡ true

In-selectable :
    (cs : List CpuInfo) (c : CpuInfo) → In c cs → is_selectable_cpu cs c.logical_cpu ≡ true
unfolding is_selectable_cpu
In-selectable [] c i = absurd i
In-selectable (d ∷ cs) c (inl e) = rw e (ground arith)
In-selectable (d ∷ cs) c (inr i) = let later = In-selectable cs c i in ground arith

keep_if-All {κ} :
    {A : Type 0} (P : A → Type κ) (f : A → Bool) (xs : List A) → All P xs → All P (keep_if f xs)
keep_if-All P f [] h = tt
keep_if-All P f (x ∷ xs) (h, hs) =
    if_intro (All P) (f x) (x ∷ keep_if f xs) (keep_if f xs) (λ y. (h, keep_if-All P f xs hs))
      (λ n. keep_if-All P f xs hs)

take-All {κ} : {A : Type 0} (P : A → Type κ) (n : ℕ) (xs : List A) → All P xs → All P (take n xs)
take-All P zero xs h = tt
take-All P (suc n) [] h = tt
take-All P (suc n) (x ∷ xs) (h, hs) = (h, take-All P n xs hs)

-- Numbers of CPUs of the topology.
abbrev Held : Topology → List CpuInfo → Type 0
Held t = All (λ c. is_selectable_cpu t.cpus c.logical_cpu ≡ true)

Held-all : (t : Topology) → Held t t.cpus
Held-all t = All-In _ t.cpus (In-selectable t.cpus)

numbers_of-AllPresent :
    (t : Topology) (cs : List CpuInfo) → Held t cs → AllPresent t (numbers_of cs)
numbers_of-AllPresent t [] h = tt
numbers_of-AllPresent t (c ∷ cs) (h, hs) = (h, numbers_of-AllPresent t cs hs)

present-AllPresent : (t : Topology) (n : ℕ) → AllPresent t (select_present_cpu_benchmark_cpus t n)
unfolding select_present_cpu_benchmark_cpus select_cpu_candidates sorted_candidates limited
present-AllPresent t n =
    let P = λ (c : CpuInfo). is_selectable_cpu t.cpus c.logical_cpu ≡ true in
    let cs = sort (candidate_lt (common_rank_source t)) (keep_if (is_candidate true) t.cpus) in
    let all =
      sort-All (candidate_lt (common_rank_source t)) P _
        (keep_if-All P (is_candidate true) t.cpus (Held-all t)) in
    numbers_of-AllPresent t (limited n cs) (
      if_intro (Held t) (not (n == 0) && ltb n (length cs)) (take n cs) cs
        (λ few. take-All P n cs all) (λ many. all))

group-AllPresent : (t : Topology) (g : ℕ) → AllPresent t (select_performance_group_cpus t g)
unfolding select_performance_group_cpus
group-AllPresent t g =
    sort-All ltb (λ n. is_selectable_cpu t.cpus n ≡ true) _
      (numbers_of-AllPresent t (keep_if (λ c. c.performance_group == g) t.cpus)
        (keep_if-All _ _ t.cpus (Held-all t)))

keep_all : (cs : List CpuInfo) → length (keep_if (is_candidate true) cs) ≡ length cs
keep_all [] = refl
keep_all (c ∷ cs) = ap suc (keep_all cs)

granted_some : (n m : ℕ) → 0 < m → 0 < granted n m
granted_some zero m h = h
granted_some (suc n) m h = ground arith

present_some :
    (t : Topology) (n : ℕ) → 0 < length t.cpus → 0 < length (select_present_cpu_benchmark_cpus t n)
unfolding select_present_cpu_benchmark_cpus
present_some t n some_cpu =
    let (chosen, rest, e, perm, size, sorted, before) = select_cpu_candidates-best t n true in
    subst (λ k. 0 < k)
      (sym (
        ap length e
        ∙ length-map (λ c. c.logical_cpu) chosen
        ∙ size
        ∙ ap (granted n) (keep_all t.cpus)))
      (granted_some n (length t.cpus) some_cpu)

-- What a choice must be like, for a topology with a CPU where `many` holds.
abbrev Fits : Topology → Bool → Selection → Type 0
Fits t many s = AllPresent t s.cpus × (many ≡ true → 0 < length t.cpus → 0 < length s.cpus)

some_element {ℓ} : {A : Type ℓ} (xs : List A) → is_empty xs ≡ false → 0 < length xs
some_element [] e = cc
some_element (x ∷ xs) e = omega arith

select_multi-Fits : (t : Topology) (r : Request) → Fits t true (select_multi t r)
unfolding select_multi
select_multi-Fits t r =
    let present : AllPresent t (select_present_cpu_benchmark_cpus t r.requested_threads)
        × (true ≡ true
            → 0 < length t.cpus
            → 0 < length (select_present_cpu_benchmark_cpus t r.requested_threads)) =
      (present-AllPresent t r.requested_threads, λ many. present_some t r.requested_threads) in
    let group = select_performance_group_cpus t (requested_group r) in
    if_intro (Fits t true) (is_multi_group_explicit r) _ _
      (λ explicit.
        if_intro (Fits t true) (is_empty group) _ _ (λ none. present)
          (λ some_cpu.
            (group-AllPresent t (requested_group r), λ many has. some_element group some_cpu)))
      (λ implicit. if_intro (Fits t true) _ _ _ (λ few. present) (λ enough. present))

preferred-AllPresent :
    (t : Topology) (p : ℤ)
    → ((n : ℕ) → p ≡ pos n → is_selectable_cpu t.cpus n ≡ true)
    → AllPresent t (one_cpu (or_none p))
preferred-AllPresent t (pos n) known = (known n refl, tt)
preferred-AllPresent t (negsuc n) known = tt

select_single-Fits :
    (t : Topology) (r : Request) → IsPreferredPresent t → Fits t false (select_single t r)
unfolding select_single
select_single-Fits t r known =
    let asked = is_cpu_single r.test_id && is_single_cpu_explicit r in
    elim (Bool-cases (asked && is_selectable_cpu t.cpus (requested_cpu r))) [
      | inl e ↦ rw e ((selectable asked _ e, tt), λ many. cc)
      | inr e ↦ rw e (preferred-AllPresent t t.preferred_single_cpu known, λ many. cc)
    ]
  where
    selectable : (a b : Bool) → (a && b) ≡ true → b ≡ true
    selectable a b e = ground arith

truncated-Fits :
    (t : Topology) (many : Bool) (s : Selection)
    → Fits t many s
    → Fits t many (truncated s) × (length (truncated s).cpus ≤ maximum_benchmark_threads)
unfolding truncated
truncated-Fits t many s (present, has) =
    if_intro (λ u. Fits t many u × (length u.cpus ≤ maximum_benchmark_threads))
      (ltb maximum_benchmark_threads (length s.cpus)) _ s
      (λ long.
        let size = length-take maximum_benchmark_threads s.cpus in
        (
          (
            take-All (λ n. is_selectable_cpu t.cpus n ≡ true) maximum_benchmark_threads s.cpus
                present,
            λ m h. omega (arith, size, has m h),
          ),
          omega (arith, size),
        ))
      (λ short. ((present, has), ground (arith, short)))

-- If the preferred CPU is one of the topology's or unknown, the engine chooses at most 64 CPUs, all of
-- them of the topology; and for a run on many CPUs it chooses one at least whenever the topology has
-- one, whatever group and number of threads the request asks for.
pub select_cpus_within :
    (t : Topology) (r : Request)
    → IsPreferredPresent t
    → AllPresent t (select_cpus t r).cpus
      × (length (select_cpus t r).cpus ≤ maximum_benchmark_threads)
      × (is_cpu_multi r.test_id ≡ true → 0 < length t.cpus → 0 < length (select_cpus t r).cpus)
unfolding select_cpus
select_cpus_within t r known =
    let ((present, has), short) =
      if_intro
        (λ s.
          Fits t (is_cpu_multi r.test_id) (truncated s)
          × (length (truncated s).cpus ≤ maximum_benchmark_threads))
        (is_cpu_multi r.test_id) (select_multi t r) (select_single t r)
        (λ multi.
          truncated-Fits t _ _
            (subst (λ b. Fits t b (select_multi t r)) (sym multi) (select_multi-Fits t r)))
        (λ single. truncated-Fits t _ _ (
          subst (λ b. Fits t b (select_single t r)) (sym single) (select_single-Fits t r known))) in
    (present, short, has)
