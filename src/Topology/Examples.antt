-- ===== src/Topology/Examples.antt =====
-- Runs of the topology code at small inputs, and its theorems at such inputs.
use rapidbench.Prelude.{
  ℕ, ◌-◌, ◌^◌, ◌≤◌, ◌<◌, ◌≡◌, refl, true, false, none, some, List, [], ◌∷◌, ◌++◌, arith, get_elem?,
  length, All, In, ltb, if◌then◌else◌,
}
use rapidbench.Prelude.Int.{pos, negsuc}
use rapidbench.Prelude.Sort.{sort, insert, unique, contains, Ascending}
use rapidbench.Prelude.Decimal.{split_digits, decimal}
use mathlib.Core.List.{Perm}
use rapidbench.Topology.Types.{CpuInfo, Topology}
use rapidbench.Topology.CpuList.{
  done, endless, skip_separators, read_upper, read_last, read_first, read_entry, push_range,
  cpus_of_range, parse_entries, sorted_unique, parse_cpu_list,
}
use rapidbench.Topology.CpuList.Print.{CpuRange, print_list, covers}
use rapidbench.Topology.CpuList.RoundTrip.{parse_cpu_list-print_list}
use rapidbench.Topology.CpuList.Range.{push_range_endless}
use rapidbench.Topology.CpuList.Termination.{HasEndlessRange, parse_cpu_list-endless}
use rapidbench.Topology.Rank.{common_rank_source, performance_rank, group_identity}
use rapidbench.Topology.Groups.{
  assign_performance_groups, group_source, evidence, gather, gather_cluster, gather_policy,
  distinct_ranks, ranks_of, ends_differ, choose_source, ordered_groups, group_ranks, emplace_max,
  number_groups, place, lookup,
}
use rapidbench.Topology.Groups.Order.{
  identity_in, group_rank, identity_count, assign_performance_groups-within,
  assign_performance_groups-order,
}
use rapidbench.Topology.Groups.Preferred.{NoWorse, preferred_single_cpu-best}
use rapidbench.Topology.Select.{numbers_of, select_cpu_candidates, select_cpu_application_cpus}
use rapidbench.Topology.Select.Best.{
  Before, InOrder, select_cpu_candidates-best, select_cpu_application_cpus-all,
}

parses_list : parse_cpu_list (b'4' ∷ b',' ∷ b'0' ∷ b'-' ∷ b'2' ∷ []) ≡ done (0 ∷ 1 ∷ 2 ∷ 4 ∷ [])
unfolding parse_cpu_list parse_entries sorted_unique skip_separators read_entry read_first read_last
    read_upper cpus_of_range push_range split_digits decimal sort unique insert
parses_list = refl

abbrev ranges : List CpuRange
ranges = record { first = 4; last = 6 } ∷ record { first = 0; last = 0 } ∷ []

parse_cpu_list-print_list_example :
    (cpus : List ℕ) × (parse_cpu_list (print_list ranges) ≡ done cpus)
    × Ascending 0 cpus
    × ((k : ℕ) → contains k cpus ≡ covers k ranges)
parse_cpu_list-print_list_example = parse_cpu_list-print_list ranges (omega arith)

-- The text "4294967295".
abbrev largest_word : List ℕ
largest_word = b'4' ∷ b'2' ∷ b'9' ∷ b'4' ∷ b'9' ∷ b'6' ∷ b'7' ∷ b'2' ∷ b'9' ∷ b'5' ∷ []

abbrev one_cpu : CpuInfo
one_cpu = record {
  logical_cpu = 0;
  online = true;
  allowed = true;
  cluster_id = pos 0;
  core_id = pos 0;
  frequency_policy_id = negsuc 0;
  max_frequency_khz = 1800000;
  capacity = 300;
  performance_group = 0;
}

abbrev big_cpu : CpuInfo
big_cpu = record one_cpu { logical_cpu = 4; cluster_id = pos 1; capacity = 1024 }

abbrev two_clusters : Topology
two_clusters = record {
  cpus = big_cpu ∷ one_cpu ∷ [];
  online_count = 2;
  allowed_count = 2;
  performance_group_count = 0;
  preferred_single_cpu = negsuc 0;
  quality_flags = 0;
}

push_range_endless_example : push_range 100 7 (2 ^ 32 - 1) ≡ none
push_range_endless_example = push_range_endless 100 7 (omega arith)

largest_word_endless : parse_cpu_list largest_word ≡ endless
unfolding parse_cpu_list parse_entries sorted_unique skip_separators read_entry read_first read_last
    read_upper cpus_of_range push_range split_digits decimal
largest_word_endless = refl

parse_cpu_list-endless_example : HasEndlessRange largest_word
parse_cpu_list-endless_example = parse_cpu_list-endless largest_word largest_word_endless

assign_performance_groups-within_example :
    (n : ℕ) × (get_elem? (assign_performance_groups two_clusters).cpus 1
      ≡ some (record one_cpu { performance_group = n }))
    × (n < (assign_performance_groups two_clusters).performance_group_count)
    × ((assign_performance_groups two_clusters).performance_group_count ≤ 16)
assign_performance_groups-within_example =
    assign_performance_groups-within two_clusters 1 one_cpu refl

assign_performance_groups-order_example :
    (identity_in two_clusters one_cpu ≡ identity_in two_clusters big_cpu → ◌≡◌ {A = ℕ} 0 1)
    × (group_rank two_clusters one_cpu < group_rank two_clusters big_cpu → 0 ≤ 1)
    × (identity_count two_clusters ≤ 16
        → ◌≡◌ {A = ℕ} 0 1
        → identity_in two_clusters one_cpu ≡ identity_in two_clusters big_cpu)
    × (identity_count two_clusters ≤ 16
        → group_rank two_clusters one_cpu < group_rank two_clusters big_cpu
        → 0 < 1)
unfolding assign_performance_groups common_rank_source group_source evidence gather gather_cluster
    gather_policy distinct_ranks ranks_of ends_differ choose_source ordered_groups group_ranks
    emplace_max number_groups place lookup group_identity performance_rank sort unique insert
assign_performance_groups-order_example =
    assign_performance_groups-order two_clusters 1 0 one_cpu big_cpu one_cpu
      (record big_cpu { performance_group = 1 }) refl refl refl refl

preferred_single_cpu-best_example :
    (b : CpuInfo) × In b two_clusters.cpus
    × ((assign_performance_groups two_clusters).preferred_single_cpu ≡ pos b.logical_cpu)
    × All (NoWorse (common_rank_source two_clusters) b) two_clusters.cpus
preferred_single_cpu-best_example = preferred_single_cpu-best two_clusters (λ e. cc) (omega arith)

select_cpu_candidates-best_example :
    (chosen rest : List CpuInfo) × (select_cpu_candidates two_clusters 1 false ≡ numbers_of chosen)
    × Perm (chosen ++ rest) two_clusters.cpus
    × (length chosen ≡ 1)
    × InOrder (common_rank_source two_clusters) chosen
    × All (λ c. All (Before (common_rank_source two_clusters) c) rest) chosen
select_cpu_candidates-best_example = select_cpu_candidates-best two_clusters 1 false

select_cpu_application_cpus-all_example :
    (xs : List ℕ) × Ascending 0 xs
    × ((k : ℕ) → contains k xs ≡ contains k (4 ∷ 0 ∷ []))
    × (select_cpu_application_cpus two_clusters true ≡ (if ltb 64 (length xs) then [] else xs))
    × (select_cpu_application_cpus two_clusters false
        ≡ (if contains (2 ^ 32 - 1) (4 ∷ 0 ∷ []) then (2 ^ 32 - 1) ∷ [] else []))
select_cpu_application_cpus-all_example = select_cpu_application_cpus-all two_clusters
