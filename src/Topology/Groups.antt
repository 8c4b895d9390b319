-- ===== src/Topology/Groups.antt =====
-- native/benchmark_core/src/topology.cpp: AssignPerformanceGroups. The caller's pointer is taken to
-- be valid; a null pointer returns at once.
pub mod Keys
pub mod Order
pub mod Preferred
use rapidbench.Prelude.{
  ℕ, ◌+◌, ◌-◌, Bool, true, false, not, ◌&&◌, ◌||◌, Option, none, some, List, [], ◌∷◌, ◌++◌, map,
  min, max, ltb, ◌==◌, if◌then◌else◌, length, is_empty,
}
use rapidbench.Prelude.Int.{ℤ, pos, negsuc, ltb_ℤ, eqb_ℤ, signed32, word32}
use rapidbench.Prelude.Bits.{set_bit, clear_bit}
use rapidbench.Prelude.Sort.{sort, unique}
use rapidbench.Topology.Types.{
  CpuInfo, Topology, quality_topology_truncated, quality_performance_groups_inferred,
  quality_single_cpu_inferred, quality_single_cpu_unknown,
}
use rapidbench.Topology.Rank.{
  RankSource, from_capacity, from_frequency, unknown, common_rank_source, performance_rank,
  GroupSource, from_cluster, from_frequency_policy, from_performance_rank, group_identity,
}

abbrev pub max_performance_groups : ℕ
max_performance_groups = 16

-- What the loop over the CPUs gathers: the identifiers that are known, and whether all are.
pub record Evidence : Type 0 where
  pub cluster_ids : List ℕ
  pub policy_ids : List ℕ
  pub clusters_complete : Bool
  pub policies_complete : Bool

unfoldable pub gather_cluster : ℤ → Evidence → Evidence
gather_cluster (pos n) e = record e { cluster_ids = e.cluster_ids ++ (n ∷ []) }
gather_cluster (negsuc n) e = record e { clusters_complete = false }

unfoldable pub gather_policy : ℤ → Evidence → Evidence
gather_policy (pos n) e = record e { policy_ids = e.policy_ids ++ (n ∷ []) }
gather_policy (negsuc n) e = record e { policies_complete = false }

unfoldable pub gather : Evidence → List CpuInfo → Evidence
gather e [] = e
gather e (c ∷ cs) = gather (gather_policy c.frequency_policy_id (gather_cluster c.cluster_id e)) cs

abbrev pub no_evidence : Evidence
no_evidence = record {
  cluster_ids = [];
  policy_ids = [];
  clusters_complete = true;
  policies_complete = true;
}

unfoldable pub evidence : List CpuInfo → Evidence
evidence cpus =
    let e = gather no_evidence cpus in
    if is_empty e.cluster_ids && is_empty e.policy_ids
    then record e { clusters_complete = false; policies_complete = false }
    else e

unfoldable pub ranks_of : RankSource → List CpuInfo → List ℕ
ranks_of r [] = []
ranks_of r (c ∷ cs) = performance_rank c r ∷ ranks_of r cs

abbrev last_of : ℕ → List ℕ → ℕ
last_of x [] = x
last_of x (y ∷ ys) = last_of y ys

-- `!ranks.empty() && ranks.front() != ranks.back()`, of sorted ranks.
unfoldable pub ends_differ : List ℕ → Bool
ends_differ [] = false
ends_differ (x ∷ xs) = not (x == last_of x xs)

unfoldable pub distinct_ranks : RankSource → List CpuInfo → Bool
distinct_ranks r cpus = ends_differ (sort ltb (ranks_of r cpus))

-- The source of the groups, and whether it is inferred.
unfoldable pub choose_source : Evidence → Bool → GroupSource × Bool
choose_source e distinct =
    let clusters = length (unique (sort ltb e.cluster_ids)) in
    let policies = length (unique (sort ltb e.policy_ids)) in
    if e.clusters_complete && ltb 1 clusters
    then (from_cluster, false)
    else if e.policies_complete && ltb 1 policies
    then (from_frequency_policy, false)
    else if e.clusters_complete && not distinct
    then (from_cluster, false)
    else if e.policies_complete && not distinct
    then (from_frequency_policy, false)
    else (from_performance_rank, true)

unfoldable pub group_source : Topology → GroupSource × Bool
group_source t = choose_source (evidence t.cpus) (distinct_ranks (common_rank_source t) t.cpus)

-- A `std::map` with distinct keys.
abbrev pub Ranked : Type 0
Ranked = List (ℤ × ℕ)

unfoldable pub lookup : ℤ → Ranked → Option ℕ
lookup k [] = none
lookup k ((j, v) ∷ m) = if eqb_ℤ j k then some v else lookup k m

-- `emplace`, and the larger rank if the key is there.
unfoldable pub emplace_max : ℤ → ℕ → Ranked → Ranked
emplace_max k r [] = (k, r) ∷ []
emplace_max k r ((j, s) ∷ m) = if eqb_ℤ j k then (j, max s r) ∷ m else (j, s) ∷ emplace_max k r m

unfoldable pub group_ranks : GroupSource → RankSource → Ranked → List CpuInfo → Ranked
group_ranks g r m [] = m
group_ranks g r m (c ∷ cs) =
    group_ranks g r (emplace_max (group_identity c g r) (performance_rank c r) m) cs

-- `std::tie(left.second, left.first) < std::tie(right.second, right.first)`.
abbrev pub ranked_lt : ℤ × ℕ → ℤ × ℕ → Bool
ranked_lt a b = ltb a.1 b.1 || ((a.1 == b.1) && ltb_ℤ a.0 b.0)

unfoldable pub ordered_groups : GroupSource → RankSource → List CpuInfo → Ranked
ordered_groups g r cpus = sort ranked_lt (group_ranks g r [] cpus)

-- The group of each identity: its place in the order, and the last group for all beyond.
unfoldable pub number_groups : ℕ → Ranked → Ranked
number_groups index [] = []
number_groups index ((k, r) ∷ m) =
    (k, min index (max_performance_groups - 1)) ∷ number_groups (index + 1) m

-- The first half of the last loop's body.
unfoldable pub place : GroupSource → RankSource → Ranked → CpuInfo → CpuInfo
place g r assigned c = elim (lookup (group_identity c g r) assigned) [
  | none ↦ c
  | some n ↦ record c { performance_group = n }
]

-- The other half of that body, which reads nothing that the first half writes.
pub record Choice : Type 0 where
  pub preferred : ℤ
  pub best_rank : ℕ
  pub best_available : Bool

abbrev pub is_unknown : RankSource → Bool
is_unknown from_capacity = false
is_unknown from_frequency = false
is_unknown unknown = true

abbrev pub is_negative : ℤ → Bool
is_negative (pos n) = false
is_negative (negsuc n) = true

abbrev pub bool_eq : Bool → Bool → Bool
bool_eq true b = b
bool_eq false b = not b

unfoldable pub tie_better : RankSource → Choice → CpuInfo → Bool
tie_better r s c =
    let available = c.online && c.allowed in
    (performance_rank c r == s.best_rank)
    && ((is_unknown r && available && not s.best_available)
        || ((not (is_unknown r) || bool_eq available s.best_available)
            && ltb c.logical_cpu (word32 s.preferred)))

unfoldable pub prefer : RankSource → Choice → CpuInfo → Choice
prefer r s c =
    if is_negative s.preferred || ltb s.best_rank (performance_rank c r) || tie_better r s c
    then record {
      preferred = signed32 c.logical_cpu;
      best_rank = performance_rank c r;
      best_available = c.online && c.allowed;
    }
    else s

unfoldable pub prefer_all : RankSource → Choice → List CpuInfo → Choice
prefer_all r s [] = s
prefer_all r s (c ∷ cs) = prefer_all r (prefer r s c) cs

abbrev pub no_choice : Choice
no_choice = record { preferred = negsuc 0; best_rank = 0; best_available = false }

abbrev pub set_if : Bool → ℕ → ℕ → ℕ
set_if b bit flags = if b then set_bit flags bit else flags

abbrev pub is_from_frequency : RankSource → Bool
is_from_frequency from_capacity = false
is_from_frequency from_frequency = true
is_from_frequency unknown = false

abbrev pub cleared : ℕ → ℕ
cleared flags =
    clear_bit (clear_bit (clear_bit flags quality_single_cpu_inferred) quality_single_cpu_unknown)
      quality_performance_groups_inferred

-- The flags that the function leaves, from those it finds.
unfoldable pub updated_flags : RankSource → Bool → ℕ → ℕ → ℕ
updated_flags r inferred groups flags =
    let f0 = cleared flags in
    let f1 = set_if (is_from_frequency r) quality_single_cpu_inferred f0 in
    let f2 = set_if (is_unknown r) quality_single_cpu_unknown f1 in
    let f3 = set_if inferred quality_performance_groups_inferred f2 in
    set_if (ltb max_performance_groups groups) quality_topology_truncated f3

unfoldable pub assign_performance_groups : Topology → Topology
assign_performance_groups t =
    let r = common_rank_source t in
    let g = (group_source t).0 in
    let ordered = ordered_groups g r t.cpus in
    record t {
      cpus = map (place g r (number_groups 0 ordered)) t.cpus;
      performance_group_count = min (length ordered) max_performance_groups;
      preferred_single_cpu = (prefer_all r no_choice t.cpus).preferred;
      quality_flags = updated_flags r (group_source t).1 (length ordered) t.quality_flags;
    }
