-- ===== src/Cpu/Telemetry.antt =====
-- native/benchmark_core/src/engine.cpp: what is counted over the workers, and how it is packed into the
-- telemetry word.
pub mod Fields
use Prim.Native.Nat.{bit_xor}
use rapidbench.Prelude.{
  ℕ, ◌+◌, ◌-◌, ◌*◌, ◌/◌, ◌%◌, ◌^◌, Bool, true, false, not, ◌||◌, ◌&&◌, Option, none, some, List, [],
  ◌∷◌, length, min, max, ltb, ◌==◌, if◌then◌else◌, get_or, set, keep_if,
}
use rapidbench.Prelude.Bits.{set_bit}
use rapidbench.Topology.Types.{FrequencyResidency}

-- `bit` is the number of the bit.
abbrev pub with_bit : Bool → ℕ → ℕ → ℕ
with_bit b bit word = if b then set_bit word bit else word

unfoldable pub pack_telemetry : ℕ → ℕ → Bool → Bool → Bool → ℕ
pack_telemetry peak_frequency_khz utilization_permille hint_active affinity_checked request_active =
    let peak_mhz = min ((peak_frequency_khz + 500) % 2 ^ 32 / 1000) 65535 in
    let word = peak_mhz * 2 ^ 16 % 2 ^ 32 + min utilization_permille 1023 in
    with_bit request_active 12 (with_bit affinity_checked 11 (with_bit hint_active 10 word))

-- What a worker publishes of itself.
pub record WorkerContext : Type 0 where
  pub logical_cpu : ℕ
  pub completed_work : ℕ
  pub elapsed_ns : ℕ
  pub thread_cpu_time_ns : ℕ
  pub affinity_checks : ℕ
  pub affinity_violated : Bool
  pub affinity_ok : Bool
  pub performance_request_ok : Bool
  pub checksum : ℕ

pub record Totals : Type 0 where
  pub work : ℕ
  pub elapsed_ns : ℕ
  pub thread_cpu_time_ns : ℕ
  pub checksum : ℕ
  pub affinity_checks : ℕ

abbrev pub no_totals : Totals
no_totals = record {
  work = 0;
  elapsed_ns = 0;
  thread_cpu_time_ns = 0;
  checksum = 0;
  affinity_checks = 0;
}

unfoldable pub add_worker : Totals → WorkerContext → Totals
add_worker t w = record {
  work = (t.work + w.completed_work) % 2 ^ 64;
  elapsed_ns = max t.elapsed_ns w.elapsed_ns;
  thread_cpu_time_ns = (t.thread_cpu_time_ns + w.thread_cpu_time_ns) % 2 ^ 64;
  checksum = bit_xor t.checksum ((w.checksum + w.logical_cpu) % 2 ^ 64);
  affinity_checks = (t.affinity_checks + w.affinity_checks) % 2 ^ 32;
}

-- The loop of ReadTotals.
unfoldable pub add_workers : Totals → List WorkerContext → Totals
add_workers t [] = t
add_workers t (w ∷ ws) = add_workers (add_worker t w) ws

abbrev pub read_totals : List WorkerContext → Totals
read_totals ws = add_workers no_totals ws

unfoldable pub count_inactive_workers : List WorkerContext → ℕ
count_inactive_workers ws = length (keep_if (λ w. not w.affinity_ok) ws) % 2 ^ 32

unfoldable pub count_measurement_affinity_failures : List WorkerContext → ℕ
count_measurement_affinity_failures ws =
    length (keep_if (λ w. not w.affinity_ok || w.affinity_violated) ws) % 2 ^ 32

unfoldable pub any_worker_performance_request_active : List WorkerContext → Bool
any_worker_performance_request_active [] = false
any_worker_performance_request_active (w ∷ ws) =
    w.performance_request_ok || any_worker_performance_request_active ws

-- The utilization that PublishTelemetry packs.
unfoldable pub utilization_of : Totals → ℕ → ℕ
utilization_of t worker_count =
    if not (t.elapsed_ns == 0) && not (worker_count == 0)
    then min 1000 (t.thread_cpu_time_ns * 1000 % 2 ^ 64 / (t.elapsed_ns * worker_count % 2 ^ 64))
    else 0

-- The highest frequency, over all CPUs and for each performance group.
pub record Peaks : Type 0 where
  pub highest : ℕ
  pub by_group : List ℕ

unfoldable pub raise : ℕ → ℕ → Peaks → Peaks
raise group frequency p = record {
  highest = max p.highest frequency;
  by_group =
      if ltb group (length p.by_group)
      then set p.by_group group (max (get_or p.by_group group 0) frequency)
      else p.by_group;
}

-- The loop over the selected CPUs: their frequencies, as they are read, beside their groups.
unfoldable pub sample_frequencies : List (ℕ × ℕ) → Peaks → Peaks
sample_frequencies [] p = p
sample_frequencies ((group, frequency) ∷ rest) p = sample_frequencies rest (raise group frequency p)

pub record FrequencyResidencyBaseline : Type 0 where
  pub logical_cpu : ℕ
  pub performance_group : ℕ
  pub entries : List FrequencyResidency

-- `std::find_if` by the frequency.
unfoldable pub previous_entry : ℕ → List FrequencyResidency → Option FrequencyResidency
previous_entry frequency [] = none
previous_entry frequency (e ∷ es) =
    if e.frequency_khz == frequency then some e else previous_entry frequency es

abbrev pub has_grown : FrequencyResidency → Option FrequencyResidency → Bool
has_grown entry none = false
has_grown entry (some previous) = ltb previous.residency entry.residency

unfoldable pub raise_entries : FrequencyResidencyBaseline → List FrequencyResidency → Peaks → Peaks
raise_entries b [] p = p
raise_entries b (entry ∷ rest) p = raise_entries b rest (
    if has_grown entry (previous_entry entry.frequency_khz b.entries)
    then raise b.performance_group entry.frequency_khz p
    else p)

-- `read` gives what ReadFrequencyResidency finds now.
unfoldable pub update_highest_frequencies_since :
    (ℕ → List FrequencyResidency) → List FrequencyResidencyBaseline → Peaks → Peaks
update_highest_frequencies_since read [] p = p
update_highest_frequencies_since read (b ∷ bs) p =
    update_highest_frequencies_since read bs (raise_entries b (read b.logical_cpu) p)
