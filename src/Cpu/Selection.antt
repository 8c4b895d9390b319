-- ===== src/Cpu/Selection.antt =====
-- native/benchmark_core/src/engine.cpp: the choice of CPUs at the beginning of Engine::Impl::Run.
pub mod Within
use rapidbench.Prelude.{
  ℕ, ◌/◌, ◌%◌, ◌^◌, Bool, true, false, not, ◌&&◌, List, [], ◌∷◌, ◌==◌, ltb, if◌then◌else◌, length,
  is_empty, take, map, min, max,
}
use rapidbench.Prelude.Bits.{has_bit, set_bit}
use rapidbench.Prelude.Int.{ℤ, pos, negsuc, word32, ltb_ℤ}
use rapidbench.Topology.Types.{Topology, quality_topology_truncated}
use rapidbench.Topology.Select.{
  select_present_cpu_benchmark_cpus, is_selectable_cpu, select_performance_group_cpus,
  performance_group_for_cpu,
}
use rapidbench.Cpu.Types.{
  TestId, k_phase1_workload, k_cpu_single, k_cpu_multi, k_other_test, Request,
  maximum_benchmark_threads, maximum_telemetry_performance_groups,
}

-- The quality flags of the engine, by the number of their bit.
abbrev pub quality_thread_count_reduced : ℕ
quality_thread_count_reduced = 17

abbrev pub quality_selection_fallback : ℕ
quality_selection_fallback = 19

-- What a run takes its CPUs from, before the list is cut.
pub record Selection : Type 0 where
  pub cpus : List ℕ
  pub single_cpu : ℤ
  pub quality_flags : ℕ

unfoldable pub is_multi_group_explicit : Request → Bool
is_multi_group_explicit r = has_bit r.flags 1

unfoldable pub is_single_cpu_explicit : Request → Bool
is_single_cpu_explicit r = has_bit r.flags 0

unfoldable pub requested_group : Request → ℕ
requested_group r = r.flags / 2 ^ 16 % 256

unfoldable pub requested_cpu : Request → ℕ
requested_cpu r = r.flags / 2 ^ 8 % 256

unfoldable pub select_multi : Topology → Request → Selection
select_multi t r =
    let in_group = select_performance_group_cpus t (requested_group r) in
    let present = select_present_cpu_benchmark_cpus t r.requested_threads in
    if is_multi_group_explicit r
    then (if is_empty in_group
        then record {
          cpus = present;
          single_cpu = negsuc 0;
          quality_flags = set_bit t.quality_flags quality_selection_fallback;
        }
        else record { cpus = in_group; single_cpu = negsuc 0; quality_flags = t.quality_flags })
    else if not (r.requested_threads == 0) && ltb (length present) r.requested_threads
    then record {
      cpus = present;
      single_cpu = negsuc 0;
      quality_flags = set_bit t.quality_flags quality_thread_count_reduced;
    }
    else record { cpus = present; single_cpu = negsuc 0; quality_flags = t.quality_flags }

-- `selected_single_cpu >= 0`.
abbrev pub one_cpu : ℤ → List ℕ
one_cpu (pos n) = n ∷ []
one_cpu (negsuc n) = []

abbrev is_known : ℤ → Bool
is_known c = not (ltb_ℤ c (pos 0))

-- The preferred CPU, where the topology has one.
abbrev or_none : ℤ → ℤ
or_none (pos n) = pos n
or_none (negsuc n) = negsuc 0

abbrev pub is_cpu_single : TestId → Bool
is_cpu_single k_phase1_workload = false
is_cpu_single k_cpu_single = true
is_cpu_single k_cpu_multi = false
is_cpu_single k_other_test = false

abbrev pub is_cpu_multi : TestId → Bool
is_cpu_multi k_phase1_workload = false
is_cpu_multi k_cpu_single = false
is_cpu_multi k_cpu_multi = true
is_cpu_multi k_other_test = false

unfoldable pub select_single : Topology → Request → Selection
select_single t r =
    let preferred = or_none t.preferred_single_cpu in
    let asked = is_cpu_single r.test_id && is_single_cpu_explicit r in
    if asked && is_selectable_cpu t.cpus (requested_cpu r)
    then record {
      cpus = one_cpu (pos (requested_cpu r));
      single_cpu = pos (requested_cpu r);
      quality_flags = t.quality_flags;
    }
    else record {
      cpus = one_cpu preferred;
      single_cpu = preferred;
      quality_flags =
          if asked && is_known preferred
          then set_bit t.quality_flags quality_selection_fallback
          else t.quality_flags;
    }

unfoldable pub truncated : Selection → Selection
truncated s =
    if ltb maximum_benchmark_threads (length s.cpus)
    then record s {
      cpus = take maximum_benchmark_threads s.cpus;
      quality_flags = set_bit s.quality_flags quality_topology_truncated;
    }
    else s

unfoldable pub select_cpus : Topology → Request → Selection
select_cpus t r = truncated (if is_cpu_multi r.test_id then select_multi t r else select_single t r)

-- The performance group of each selected CPU.
unfoldable pub selected_cpu_groups : Topology → Selection → List ℕ
selected_cpu_groups t s = map (performance_group_for_cpu t.cpus) s.cpus

unfoldable pub peak_frequency_group_count : Topology → ℕ
peak_frequency_group_count t =
    min (max t.performance_group_count 1) maximum_telemetry_performance_groups
