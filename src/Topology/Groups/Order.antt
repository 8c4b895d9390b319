-- ===== src/Topology/Groups/Order.antt =====
-- What AssignPerformanceGroups promises of the groups.
use mathlib.Core.Option.{some-injective}
use rapidbench.Prelude.{
  ℕ, ◌≤◌, ◌<◌, ◌≡◌, sym, ap, ◌∙◌, none, some, arith, length, In-get_elem?, get_elem?, get_elem?-map,
  min,
}
use rapidbench.Prelude.Int.{ℤ}
use rapidbench.Topology.Types.{CpuInfo, Topology}
use rapidbench.Topology.Rank.{common_rank_source, group_identity}
use rapidbench.Topology.Groups.{
  group_source, ordered_groups, number_groups, place, assign_performance_groups, lookup,
}
use rapidbench.Topology.Groups.Keys.{Placed, placed, Placed-same, Placed-order, best_from}

-- By what the function tells the groups apart.
abbrev pub identity_in : Topology → CpuInfo → ℤ
identity_in t c = group_identity c (group_source t).0 (common_rank_source t)

-- The highest rank of a CPU with the same identity.
abbrev pub group_rank : Topology → CpuInfo → ℕ
group_rank t c =
    elim (best_from (group_source t).0 (common_rank_source t) (identity_in t c) none t.cpus) [
      | none ↦ 0
      | some b ↦ b
    ]

-- How many identities there are.
abbrev pub identity_count : Topology → ℕ
identity_count t = length (ordered_groups (group_source t).0 (common_rank_source t) t.cpus)

abbrev PlacedIn : Topology → CpuInfo → Type 0
PlacedIn t c = Placed (group_source t).0 (common_rank_source t) t.cpus (identity_in t c)

placed_in : (t : Topology) (i : ℕ) (c : CpuInfo) → get_elem? t.cpus i ≡ some c → PlacedIn t c
placed_in t i c e = placed _ _ t.cpus c (In-get_elem? t.cpus i c e)

place-Placed :
    (t : Topology) (i : ℕ) (c : CpuInfo)
    → (p : PlacedIn t c) → get_elem? t.cpus i ≡ some c
    → get_elem? (assign_performance_groups t).cpus i
      ≡ some (record c { performance_group = min p.index 15 })
unfolding assign_performance_groups place
place-Placed t i c p e =
    get_elem?-map
      (place (group_source t).0 (common_rank_source t)
        (number_groups 0 (ordered_groups (group_source t).0 (common_rank_source t) t.cpus)))
      t.cpus i c e
    ∙ ap some (rw (p.numbered, place))

-- AssignPerformanceGroups keeps every CPU in its place with all its other fields, and gives it a
-- group below the count of groups, which is at most 16.
pub assign_performance_groups-within :
    (t : Topology) (i : ℕ) (c : CpuInfo)
    → get_elem? t.cpus i ≡ some c
    → (n : ℕ) × (get_elem? (assign_performance_groups t).cpus i
        ≡ some (record c { performance_group = n }))
      × (n < (assign_performance_groups t).performance_group_count)
      × ((assign_performance_groups t).performance_group_count ≤ 16)
unfolding assign_performance_groups
assign_performance_groups-within t i c e =
    let p = placed_in t i c e in
    let within = p.within in (min p.index 15, place-Placed t i c p e, omega arith, omega arith)

group_rank-Placed : (t : Topology) (c : CpuInfo) (p : PlacedIn t c) → group_rank t c ≡ p.rank
group_rank-Placed t c p = rw (p.is_best, group_rank)

group-Placed :
    (t : Topology) (i : ℕ) (c c' : CpuInfo) (p : PlacedIn t c)
    → get_elem? t.cpus i ≡ some c
    → get_elem? (assign_performance_groups t).cpus i ≡ some c'
    → c'.performance_group ≡ min p.index 15
group-Placed t i c c' p e e' =
    ap (λ (x : CpuInfo). x.performance_group) (some-injective _ _ (sym e' ∙ place-Placed t i c p e))

same-number :
    (t : Topology) (c d : CpuInfo) (p : PlacedIn t c) (q : PlacedIn t d)
    → identity_in t c ≡ identity_in t d
    → min p.index 15 ≡ min q.index 15
same-number t c d p q e = some-injective _ _ (
    sym p.numbered
    ∙ ap
        (λ k.
          lookup k
            (number_groups 0 (ordered_groups (group_source t).0 (common_rank_source t) t.cpus)))
        e
    ∙ q.numbered)

-- Let the CPUs c and d of a topology come out of AssignPerformanceGroups as c' and d'. If they have
-- the same identity they are in the same group. If the best rank among the CPUs with c's identity
-- is below the best among those with d's, then the group of c is no later than that of d. Where
-- there are at most 16 identities, the groups of two CPUs are the same only if their identities
-- are, and the order of the groups is strict.
pub assign_performance_groups-order :
    (t : Topology) (i j : ℕ) (c d c' d' : CpuInfo)
    → get_elem? t.cpus i ≡ some c
    → get_elem? t.cpus j ≡ some d
    → get_elem? (assign_performance_groups t).cpus i ≡ some c'
    → get_elem? (assign_performance_groups t).cpus j ≡ some d'
    → (identity_in t c ≡ identity_in t d → c'.performance_group ≡ d'.performance_group)
      × (group_rank t c < group_rank t d → c'.performance_group ≤ d'.performance_group)
      × (identity_count t ≤ 16
          → c'.performance_group ≡ d'.performance_group
          → identity_in t c ≡ identity_in t d)
      × (identity_count t ≤ 16
          → group_rank t c < group_rank t d
          → c'.performance_group < d'.performance_group)
assign_performance_groups-order t i j c d c' d' e f e' f' =
    let p = placed_in t i c e in
    let q = placed_in t j d f in
    let at_c = group-Placed t i c c' p e e' in
    let at_d = group-Placed t j d d' q f f' in
    let rank_c = group_rank-Placed t c p in
    let rank_d = group_rank-Placed t d q in
    let before = Placed-order _ _ t.cpus (identity_in t c) (identity_in t d) p q in
    let in_c = p.within in
    let in_d = q.within in
    (
      λ same. at_c ∙ same-number t c d p q same ∙ sym at_d,
      λ less. omega (arith, before (omega arith)),
      λ few equal. (Placed-same _ _ t.cpus (identity_in t c) (identity_in t d) p q (omega arith)).0,
      λ few less. omega (arith, before (omega arith)),
    )
