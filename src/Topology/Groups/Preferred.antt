-- ===== src/Topology/Groups/Preferred.antt =====
-- The CPU that AssignPerformanceGroups prefers for a single-threaded run.
use rapidbench.Prelude.{
  ◌^◌, ◌≤◌, ◌<◌, ◌≡◌, ◌≢◌, refl, ap, ◌∙◌, Bool, true, false, ◌&&◌, List, [], ◌∷◌, arith, All, In,
  inl, inr, ◌⊎◌,
}
use rapidbench.Prelude.Int.{pos}
use rapidbench.Topology.Types.{CpuInfo, Topology}
use rapidbench.Topology.Rank.{RankSource, common_rank_source, performance_rank}
use rapidbench.Topology.Groups.{
  Choice, no_choice, prefer, prefer_all, tie_better, is_unknown, assign_performance_groups,
}

abbrev pub available : CpuInfo → Bool
available c = c.online && c.allowed

-- The CPU c is no worse a choice than d: its rank is higher; or the ranks are equal and, if the
-- source of the ranks is unknown, c is available where d is not; or else c has no higher number.
abbrev pub NoWorse : RankSource → CpuInfo → CpuInfo → Type 0
NoWorse r c d =
    (performance_rank d r < performance_rank c r)
    ⊎ ((performance_rank d r ≡ performance_rank c r)
        × ((is_unknown r ≡ true) × (available c ≡ true) × (available d ≡ false)
            ⊎ ((is_unknown r ≡ false) ⊎ (available c ≡ available d))
              × (c.logical_cpu ≤ d.logical_cpu)))

-- A choice that stands for a CPU.
abbrev chosen : RankSource → CpuInfo → Choice
chosen r c = record {
  preferred = pos c.logical_cpu;
  best_rank = performance_rank c r;
  best_available = available c;
}

abbrev pub Fits : CpuInfo → Type 0
Fits c = c.logical_cpu < 2 ^ 31

NoWorse-refl : (r : RankSource) (c : CpuInfo) → NoWorse r c c
NoWorse-refl r c = inr (refl, inr (inr refl, omega arith))

NoWorse-trans : (r : RankSource) (b c d : CpuInfo) → NoWorse r b c → NoWorse r c d → NoWorse r b d
NoWorse-trans r b c d h k = ground arith

-- A step keeps the CPU that the choice stands for, or takes the new one, whichever is no worse.
prefer-NoWorse :
    (r : RankSource) (c d : CpuInfo)
    → Fits c
    → Fits d
    → (prefer r (chosen r c) d ≡ chosen r c) × NoWorse r c d
      ⊎ (prefer r (chosen r c) d ≡ chosen r d) × NoWorse r d c
unfolding prefer tie_better
prefer-NoWorse r c d hc hd = ground arith

-- The loop, from a choice that stands for c.
prefer_all-chosen :
    (r : RankSource) (c : CpuInfo) (cpus : List CpuInfo)
    → Fits c
    → All Fits cpus
    → (b : CpuInfo) × ((b ≡ c) ⊎ In b cpus)
      × (prefer_all r (chosen r c) cpus ≡ chosen r b)
      × NoWorse r b c
      × All (NoWorse r b) cpus
unfolding prefer_all
prefer_all-chosen r c [] hc h = (c, inl refl, refl, NoWorse-refl r c, tt)
prefer_all-chosen r c (d ∷ ds) hc h = elim (prefer-NoWorse r c d hc h.0) [
  | inl (e, better) ↦
      let (b, m, eq, over, rest) = prefer_all-chosen r c ds hc h.1 in
      (
        b,
        elim m [ inl same ↦ inl same | inr later ↦ inr (inr later) ],
        ap (λ s. prefer_all r s ds) e ∙ eq,
        over,
        (NoWorse-trans r b c d over better, rest),
      )
  | inr (e, better) ↦
      let (b, m, eq, over, rest) = prefer_all-chosen r d ds h.0 h.1 in
      (
        b,
        elim m [ inl same ↦ inr (inl same) | inr later ↦ inr (inr later) ],
        ap (λ s. prefer_all r s ds) e ∙ eq,
        NoWorse-trans r b d c over better,
        (over, rest),
      )
]

prefer-first : (r : RankSource) (c : CpuInfo) → Fits c → prefer r no_choice c ≡ chosen r c
unfolding prefer
prefer-first r c h = ground arith

prefer_all-best :
    (r : RankSource) (cpus : List CpuInfo)
    → cpus ≢ []
    → All Fits cpus
    → (b : CpuInfo) × In b cpus
      × (prefer_all r no_choice cpus ≡ chosen r b)
      × All (NoWorse r b) cpus
unfolding prefer_all
prefer_all-best r [] n h = absurd (n refl)
prefer_all-best r (c ∷ cs) n h =
    let (b, m, eq, over, rest) = prefer_all-chosen r c cs h.0 h.1 in
    (b, m, ap (λ s. prefer_all r s cs) (prefer-first r c h.0) ∙ eq, (over, rest))

-- The CPU that AssignPerformanceGroups prefers for a single-threaded run is one of the topology's
-- (if it has any, and their numbers fit an int32_t), and no CPU of the topology, online and allowed
-- or not, is a better choice: none has a higher rank; where ranks are equal and known, none has a lower number; where no rank
-- is known, an available CPU goes before one that is not, and otherwise the lower number decides.
pub preferred_single_cpu-best :
    (t : Topology)
    → t.cpus ≢ []
    → All Fits t.cpus
    → (b : CpuInfo) × In b t.cpus
      × ((assign_performance_groups t).preferred_single_cpu ≡ pos b.logical_cpu)
      × All (NoWorse (common_rank_source t) b) t.cpus
unfolding assign_performance_groups
preferred_single_cpu-best t n h =
    let (b, m, e, best) = prefer_all-best (common_rank_source t) t.cpus n h in
    (b, m, ap (λ (s : Choice). s.preferred) e, best)
