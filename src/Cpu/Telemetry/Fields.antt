-- ===== src/Cpu/Telemetry/Fields.antt =====
-- The telemetry word can be taken apart again.
use rapidbench.Prelude.{
  ℕ, zero, suc, ◌≤◌, ◌≡◌, refl, ◌∙◌, if_intro, List, [], ◌∷◌, arith, max, ltb, if◌then◌else◌,
  length, length-set, get_or, set, All,
}
use rapidbench.Topology.Types.{FrequencyResidency}
use rapidbench.Cpu.Telemetry.{
  Peaks, raise, sample_frequencies, raise_entries, update_highest_frequencies_since,
  FrequencyResidencyBaseline, previous_entry, has_grown,
}

-- No group has a peak above the highest.
abbrev pub IsBelowHighest : Peaks → Type 0
IsBelowHighest p = All (λ f. f ≤ p.highest) p.by_group

raised : (f g : ℕ) (xs : List ℕ) → f ≤ g → All (λ x. x ≤ f) xs → All (λ x. x ≤ g) xs
raised f g [] l h = tt
raised f g (x ∷ xs) l h = (omega arith, raised f g xs l h.1)

set-below :
    (f : ℕ) (xs : List ℕ) (i v : ℕ) → v ≤ f → All (λ x. x ≤ f) xs → All (λ x. x ≤ f) (set xs i v)
set-below f [] i v l h = tt
set-below f (x ∷ xs) zero v l h = (l, h.1)
set-below f (x ∷ xs) (suc i) v l h = (h.0, set-below f xs i v l h.1)

get_or-below : (f : ℕ) (xs : List ℕ) (i : ℕ) → All (λ x. x ≤ f) xs → get_or xs i 0 ≤ f
get_or-below f [] i h = omega arith
get_or-below f (x ∷ xs) zero h = h.0
get_or-below f (x ∷ xs) (suc i) h = get_or-below f xs i h.1

-- A reading can only raise the peaks, and leaves the invariant.
abbrev pub Raises : Peaks → Peaks → Type 0
Raises p q = (p.highest ≤ q.highest) × (length q.by_group ≡ length p.by_group) × IsBelowHighest q

raise-Raises : (group f : ℕ) (p : Peaks) → IsBelowHighest p → Raises p (raise group f p)
unfolding raise
raise-Raises group f p h =
    let top = max p.highest f in
    let kept = raised p.highest top p.by_group (omega arith) h in
    (
      omega arith,
      if_intro {A = List ℕ} (λ l. length l ≡ length p.by_group) (ltb group (length p.by_group))
          (set p.by_group group (max (get_or p.by_group group 0) f)) p.by_group
          (λ e. length-set p.by_group group (max (get_or p.by_group group 0) f)) (λ e. refl),
      if_intro (All (λ x. x ≤ top)) (ltb group (length p.by_group))
          (set p.by_group group (max (get_or p.by_group group 0) f)) p.by_group
          (λ e.
            set-below top p.by_group group (max (get_or p.by_group group 0) f)
              (omega (arith, get_or-below p.highest p.by_group group h)) kept)
          (λ e. kept),
    )

Raises-trans : (p q r : Peaks) → Raises p q → Raises q r → Raises p r
Raises-trans p q r (a, b, c) (d, e, f) = (omega arith, e ∙ b, f)

sample_frequencies-Raises :
    (readings : List (ℕ × ℕ)) (p : Peaks)
    → IsBelowHighest p
    → Raises p (sample_frequencies readings p)
unfolding sample_frequencies
sample_frequencies-Raises [] p h = (omega arith, refl, h)
sample_frequencies-Raises ((group, f) ∷ rest) p h =
    let one = raise-Raises group f p h in
    Raises-trans p (raise group f p) _ one (sample_frequencies-Raises rest (raise group f p) one.2)

raise_entries-Raises :
    (b : FrequencyResidencyBaseline) (es : List FrequencyResidency) (p : Peaks)
    → IsBelowHighest p
    → Raises p (raise_entries b es p)
unfolding raise_entries
raise_entries-Raises b [] p h = (omega arith, refl, h)
raise_entries-Raises b (entry ∷ rest) p h =
    let grown = has_grown entry (previous_entry entry.frequency_khz b.entries) in
    let next = if grown then raise b.performance_group entry.frequency_khz p else p in
    let one =
      if_intro (Raises p) grown (raise b.performance_group entry.frequency_khz p) p
        (λ e. raise-Raises b.performance_group entry.frequency_khz p h)
        (λ e. (omega arith, refl, h)) in
    Raises-trans p next _ one (raise_entries-Raises b rest next one.2)

update-Raises :
    (read : ℕ → List FrequencyResidency) (bs : List FrequencyResidencyBaseline) (p : Peaks)
    → IsBelowHighest p
    → Raises p (update_highest_frequencies_since read bs p)
unfolding update_highest_frequencies_since
update-Raises read [] p h = (omega arith, refl, h)
update-Raises read (b ∷ bs) p h =
    let one = raise_entries-Raises b (read b.logical_cpu) p h in
    Raises-trans p (raise_entries b (read b.logical_cpu) p) _ one
      (update-Raises read bs (raise_entries b (read b.logical_cpu) p) one.2)

-- The peaks stay in order through a run: samples of the current frequencies and then the residencies
-- since the start can only raise the highest frequency, keep the number of groups, and leave no group
-- with a peak above the highest.
pub frequency_peaks-Raises :
    (read : ℕ → List FrequencyResidency) (bs : List FrequencyResidencyBaseline)
    (readings : List (ℕ × ℕ)) (p : Peaks)
    → IsBelowHighest p
    → Raises p (update_highest_frequencies_since read bs (sample_frequencies readings p))
frequency_peaks-Raises read bs readings p h =
    let sampled = sample_frequencies-Raises readings p h in
    Raises-trans p (sample_frequencies readings p) _ sampled
      (update-Raises read bs (sample_frequencies readings p) sampled.2)
