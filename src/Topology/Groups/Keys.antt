-- ===== src/Topology/Groups/Keys.antt =====
-- The map from identities to ranks, its order, and the numbers given to the identities.
use mathlib.Core.Path.{subst₂}
use mathlib.Core.Option.{some-injective}
use rapidbench.Prelude.{
  In, ℕ, zero, suc, ◌+◌, ◌≤◌, ◌<◌, ◌≡◌, refl, sym, ap, ◌∙◌, true, false, Option, none, some, List,
  [], ◌∷◌, arith, ltb, if◌then◌else◌, length, All, Bool-cases, inl, inr, max, min, get_elem?,
}
use rapidbench.Prelude.Int.{ℤ, eqb_ℤ, eqb_ℤ→eq}
use rapidbench.Prelude.Sort.{sort, insert, IsSorted, StrictWeak, sort-IsSorted}
use rapidbench.Topology.Types.{CpuInfo}
use rapidbench.Topology.Rank.{RankSource, GroupSource, group_identity, performance_rank}
use rapidbench.Topology.Groups.{
  Ranked, lookup, emplace_max, group_ranks, ranked_lt, ordered_groups, number_groups,
}

-- No key stands twice.
abbrev pub HasUniqueKeys : Ranked → Type 0
HasUniqueKeys [] = Unit {0}
HasUniqueKeys ((k, r) ∷ m) = (lookup k m ≡ none) × HasUniqueKeys m

-- The rank that a key ends up with, over the CPUs that have it.
abbrev pub larger : Option ℕ → ℕ → ℕ
larger none r = r
larger (some s) r = max s r

abbrev pub best_from : GroupSource → RankSource → ℤ → Option ℕ → List CpuInfo → Option ℕ
best_from g r k best [] = best
best_from g r k best (c ∷ cs) =
    best_from g r k
      (if eqb_ℤ (group_identity c g r) k then some (larger best (performance_rank c r)) else best)
      cs

lookup-emplace_max :
    (k j : ℤ) (r : ℕ) (m : Ranked)
    → lookup k (emplace_max j r m)
      ≡ (if eqb_ℤ j k then some (larger (lookup k m) r) else lookup k m)
unfolding lookup emplace_max
lookup-emplace_max k j r [] = ground arith
lookup-emplace_max k j r ((i, s) ∷ m) = ground (arith, lookup-emplace_max k j r m)

emplace_max-HasUniqueKeys :
    (j : ℤ) (r : ℕ) (m : Ranked) → HasUniqueKeys m → HasUniqueKeys (emplace_max j r m)
unfolding emplace_max lookup
emplace_max-HasUniqueKeys j r [] u = ground arith
emplace_max-HasUniqueKeys j r ((i, s) ∷ m) u =
    ground (arith, lookup-emplace_max i j r m, emplace_max-HasUniqueKeys j r m u.1)

group_ranks-HasUniqueKeys :
    (g : GroupSource) (r : RankSource) (m : Ranked) (cpus : List CpuInfo)
    → HasUniqueKeys m
    → HasUniqueKeys (group_ranks g r m cpus)
unfolding group_ranks
group_ranks-HasUniqueKeys g r m [] u = u
group_ranks-HasUniqueKeys g r m (c ∷ cs) u =
    group_ranks-HasUniqueKeys g r (emplace_max (group_identity c g r) (performance_rank c r) m) cs
      (emplace_max-HasUniqueKeys _ _ m u)

pub lookup-group_ranks :
    (g : GroupSource) (r : RankSource) (k : ℤ) (m : Ranked) (cpus : List CpuInfo)
    → lookup k (group_ranks g r m cpus) ≡ best_from g r k (lookup k m) cpus
unfolding group_ranks
lookup-group_ranks g r k m [] = refl
lookup-group_ranks g r k m (c ∷ cs) =
    lookup-group_ranks g r k (emplace_max (group_identity c g r) (performance_rank c r) m) cs
    ∙ ap (λ b. best_from g r k b cs) (lookup-emplace_max k (group_identity c g r) _ m)

lookup-insert :
    (k j : ℤ) (r : ℕ) (m : Ranked)
    → lookup j m ≡ none
    → lookup k (insert ranked_lt (j, r) m) ≡ (if eqb_ℤ j k then some r else lookup k m)
unfolding lookup insert
lookup-insert k j r [] h = refl
lookup-insert k j r ((i, s) ∷ m) h = ground (arith, lookup-insert k j r m)

insert-HasUniqueKeys :
    (j : ℤ) (r : ℕ) (m : Ranked)
    → lookup j m ≡ none
    → HasUniqueKeys m
    → HasUniqueKeys (insert ranked_lt (j, r) m)
unfolding lookup insert
insert-HasUniqueKeys j r [] h u = (refl, tt)
insert-HasUniqueKeys j r ((i, s) ∷ m) h u =
    ground (arith, lookup-insert i j r m, insert-HasUniqueKeys j r m)

pub lookup-sort : (k : ℤ) (m : Ranked) → HasUniqueKeys m → lookup k (sort ranked_lt m) ≡ lookup k m
unfolding lookup sort
lookup-sort k [] u = refl
lookup-sort k ((j, r) ∷ m) u =
    ground (arith, lookup-insert k j r (sort ranked_lt m), lookup-sort j m u.1, lookup-sort k m u.1)

ranked_lt-StrictWeak : StrictWeak ranked_lt
ranked_lt-StrictWeak = record { asymm = λ a b h. ground arith; trans = λ a b c h k. ground arith }

-- An element further on is not less than one in front of it.
IsSorted-order :
    (m : Ranked) (i j : ℕ) (a b : ℤ × ℕ)
    → IsSorted ranked_lt m
    → i < j
    → get_elem? m i ≡ some a
    → get_elem? m j ≡ some b
    → ranked_lt b a ≡ false
IsSorted-order [] i j a b s h p q = cc
IsSorted-order (x ∷ m) i zero a b s h p q = absurd (omega arith)
IsSorted-order (x ∷ m) zero (suc j) a b s h p q = after m j s.0 q
  where
    after :
        (rest : Ranked) (n : ℕ)
        → All (λ y. ranked_lt y x ≡ false) rest
        → get_elem? rest n ≡ some b
        → ranked_lt b a ≡ false
    after [] n all e = cc
    after (y ∷ ys) zero all e =
        subst₂ (λ u v. ranked_lt u v ≡ false) (some-injective _ _ e) (some-injective _ _ p) all.0
    after (y ∷ ys) (suc n) all e = after ys n all.1 e
IsSorted-order (x ∷ m) (suc i) (suc j) a b s h p q = IsSorted-order m i j a b s.1 (omega arith) p q

-- A key of the map has a place, and its number is that place, or the last group's.
lookup-number_groups :
    (k : ℤ) (r index : ℕ) (m : Ranked)
    → lookup k m ≡ some r
    → (n : ℕ) × (get_elem? m n ≡ some (k, r))
      × (n < length m)
      × (lookup k (number_groups index m) ≡ some (min (index + n) 15))
unfolding lookup number_groups
lookup-number_groups k r index [] e = cc
lookup-number_groups k r index ((j, s) ∷ m) e = elim (Bool-cases (eqb_ℤ j k)) [
  | inl h ↦ (0, ground (arith, eqb_ℤ→eq j k), omega arith, ground arith)
  | inr h ↦
      let (n, at, below, found) = lookup-number_groups k r (index + 1) m (ground arith) in
      (suc n, at, omega arith, ground arith)
]

-- Where an identity that some CPU has stands in the order of the groups.
pub record Placed (g : GroupSource) (r : RankSource) (cpus : List CpuInfo) (k : ℤ) : Type 0 where
  pub index : ℕ
  pub rank : ℕ
  pub at : get_elem? (ordered_groups g r cpus) index ≡ some (k, rank)
  pub within : index < length (ordered_groups g r cpus)
  pub numbered : lookup k (number_groups 0 (ordered_groups g r cpus)) ≡ some (min index 15)
  pub is_best : best_from g r k none cpus ≡ some rank

ordered_groups-lookup :
    (g : GroupSource) (r : RankSource) (k : ℤ) (cpus : List CpuInfo)
    → lookup k (ordered_groups g r cpus) ≡ best_from g r k none cpus
unfolding ordered_groups lookup
ordered_groups-lookup g r k cpus =
    lookup-sort k (group_ranks g r [] cpus) (group_ranks-HasUniqueKeys g r [] cpus tt)
    ∙ lookup-group_ranks g r k [] cpus

pub ordered_groups-IsSorted :
    (g : GroupSource) (r : RankSource) (cpus : List CpuInfo)
    → IsSorted ranked_lt (ordered_groups g r cpus)
unfolding ordered_groups
ordered_groups-IsSorted g r cpus =
    sort-IsSorted ranked_lt ranked_lt-StrictWeak (group_ranks g r [] cpus)

-- A rank that is there already only grows.
best_from-some :
    (g : GroupSource) (r : RankSource) (k : ℤ) (s : ℕ) (cpus : List CpuInfo)
    → (b : ℕ) × (best_from g r k (some s) cpus ≡ some b) × (s ≤ b)
best_from-some g r k s [] = (s, refl, omega arith)
best_from-some g r k s (c ∷ cs) = elim (Bool-cases (eqb_ℤ (group_identity c g r) k)) [
  | inl e ↦
      let (b, h, le) = best_from-some g r k (max s (performance_rank c r)) cs in
      (b, rw e h, omega arith)
  | inr e ↦ let (b, h, le) = best_from-some g r k s cs in (b, rw e h, le)
]

eqb_ℤ-refl : (a : ℤ) → eqb_ℤ a a ≡ true
eqb_ℤ-refl a = ground arith

le-larger : (best : Option ℕ) (r b : ℕ) → larger best r ≤ b → r ≤ b
le-larger none r b h = h
le-larger (some s) r b h = omega arith

-- The rank of a group is no less than that of any of its CPUs.
pub best_from-In :
    (g : GroupSource) (r : RankSource) (best : Option ℕ) (c : CpuInfo) (cpus : List CpuInfo)
    → In c cpus
    → (b : ℕ) × (best_from g r (group_identity c g r) best cpus ≡ some b)
      × (performance_rank c r ≤ b)
best_from-In g r best c [] m = absurd m
best_from-In g r best c (d ∷ ds) (inr m) =
    best_from-In g r
      (if eqb_ℤ (group_identity d g r) (group_identity c g r)
        then some (larger best (performance_rank d r))
        else best)
      c ds m
best_from-In g r best c (d ∷ ds) (inl e) =
    rw (← e, eqb_ℤ-refl (group_identity c g r))
      (let (b, h, le) =
          best_from-some g r (group_identity c g r) (larger best (performance_rank c r)) ds in
        (b, h, le-larger best (performance_rank c r) b le))

pub placed :
    (g : GroupSource) (r : RankSource) (cpus : List CpuInfo) (c : CpuInfo)
    → In c cpus
    → Placed g r cpus (group_identity c g r)
placed g r cpus c m =
    let (b, h, _) = best_from-In g r none c cpus m in
    let (n, at, below, found) =
      lookup-number_groups (group_identity c g r) b 0 (ordered_groups g r cpus)
        (ordered_groups-lookup g r (group_identity c g r) cpus ∙ h) in
    record {
      index = n;
      rank = b;
      at = at;
      within = below;
      numbered = found ∙ ap some (omega arith);
      is_best = h;
    }

-- Equal places hold equal identities.
pub Placed-same :
    (g : GroupSource) (r : RankSource) (cpus : List CpuInfo) (j k : ℤ) (p : Placed g r cpus j)
    (q : Placed g r cpus k)
    → p.index ≡ q.index
    → (j ≡ k) × (p.rank ≡ q.rank)
Placed-same g r cpus j k p q e =
    let both = some-injective _ _ (sym p.at ∙ ap (get_elem? (ordered_groups g r cpus)) e ∙ q.at) in
    (ap (λ (x : ℤ × ℕ). x.0) both, ap (λ (x : ℤ × ℕ). x.1) both)

-- An identity with a lower rank stands before one with a higher.
pub Placed-order :
    (g : GroupSource) (r : RankSource) (cpus : List CpuInfo) (j k : ℤ) (p : Placed g r cpus j)
    (q : Placed g r cpus k)
    → p.rank < q.rank
    → p.index < q.index
Placed-order g r cpus j k p q h = elim (Bool-cases (ltb p.index q.index)) [
  | inl e ↦ ground arith
  | inr e ↦ elim (Bool-cases (ltb q.index p.index)) [
    | inl after ↦ ground (
      arith,
      IsSorted-order (ordered_groups g r cpus) q.index p.index (k, q.rank) (j, p.rank)
          (ordered_groups-IsSorted g r cpus) (ground arith) q.at p.at,
    )
    | inr same ↦ absurd (omega (arith, (Placed-same g r cpus j k p q (ground arith)).1))
  ]
]
