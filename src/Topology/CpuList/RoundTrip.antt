-- ===== src/Topology/CpuList/RoundTrip.antt =====
-- ParseCpuList reads back what the kernel writes.
use mathlib.Core.List.{append-nil, append_assoc}
use native.Mathlib.Numerals.{add-one}
use rapidbench.Prelude.{
  ℕ, zero, suc, ◌+◌, ◌-◌, ◌^◌, ◌≤◌, ◌<◌, ◌≡◌, refl, sym, ap, ◌∙◌, ◌||◌, some, List, [], ◌∷◌, ◌++◌,
  arith, ltb, ◌==◌, length, All, Bool-cases, inl, inr, length-append,
}
use rapidbench.Prelude.Decimal.{
  IsDigits, NoDigit, split_digits-append, decimal, to_string, to_string-IsDigits, decimal-to_string,
  length-to_string,
}
use rapidbench.Prelude.Sort.{
  contains, sort, unique, Ascending, contains-sort, contains-unique, unique-Ascending,
  sort-IsSorted, ltb-StrictWeak,
}
use rapidbench.Topology.CpuList.{
  done, range, skip_separators, read_upper, read_last, read_first, read_entry, cpus_of_range,
  parse_entries, sorted_unique, parse_cpu_list,
}
use rapidbench.Topology.CpuList.Range.{numbers, contains-numbers, cpus_of_range-numbers}
use rapidbench.Topology.CpuList.Print.{
  CpuRange, IsReadable, upper_text, range_text, following_text, print_list, covers,
}

-- What may follow a range: nothing, or a comma.
abbrev StartsNext : List ℕ → Type 0
StartsNext [] = Unit {0}
StartsNext (c ∷ cs) = c ≡ b','

following_text-StartsNext : (rs : List CpuRange) → StartsNext (following_text rs)
unfolding following_text
following_text-StartsNext [] = tt
following_text-StartsNext (r ∷ rs) = refl

StartsNext-NoDigit : (rest : List ℕ) → StartsNext rest → NoDigit rest
StartsNext-NoDigit [] h = tt
StartsNext-NoDigit (c ∷ cs) h = ground arith

read_first-digits :
    (ds rest : List ℕ)
    → 0 < length ds
    → decimal ds < 2 ^ 32
    → read_first (ds, rest) ≡ read_last (decimal ds) rest
unfolding read_first
read_first-digits [] rest h b = absurd (omega arith)
read_first-digits (d ∷ ds) rest h b = ground arith

read_upper-digits :
    (first : ℕ) (ds rest : List ℕ)
    → 0 < length ds
    → decimal ds < 2 ^ 32
    → read_upper first (ds, rest) ≡ range first (decimal ds) rest
unfolding read_upper
read_upper-digits first [] rest h b = absurd (omega arith)
read_upper-digits first (d ∷ ds) rest h b = ground arith

read_last-next :
    (first : ℕ) (rest : List ℕ) → StartsNext rest → read_last first rest ≡ range first first rest
unfolding read_last
read_last-next first [] h = refl
read_last-next first (c ∷ cs) h = ground arith

read_last-dash :
    (first last : ℕ) (rest : List ℕ)
    → last < 2 ^ 32
    → StartsNext rest
    → read_last first (b'-' ∷ (to_string last ++ rest)) ≡ range first last rest
unfolding read_last
read_last-dash first last rest b h =
    rw
      (split_digits-append (to_string last) rest (to_string-IsDigits last)
        (StartsNext-NoDigit rest h))
      (read_upper-digits first (to_string last) rest (length-to_string last)
          (rw (decimal-to_string last) b)
        ∙ ap (λ l. range first l rest) (decimal-to_string last))

read_last-upper :
    (r : CpuRange) (rest : List ℕ)
    → IsReadable r
    → StartsNext rest
    → read_last r.first (upper_text r ++ rest) ≡ range r.first r.last rest
unfolding upper_text
read_last-upper r rest v h = elim (Bool-cases (r.first == r.last)) [
  | inl e ↦
      let same : r.first ≡ r.last = ground arith in
      rw (e, upper_text) (read_last-next r.first rest h ∙ ap (λ l. range r.first l rest) same)
  | inr e ↦ rw (e, upper_text) (read_last-dash r.first r.last rest (omega arith) h)
]

upper_text-NoDigit :
    (r : CpuRange) (rest : List ℕ) → StartsNext rest → NoDigit (upper_text r ++ rest)
unfolding upper_text
upper_text-NoDigit r rest h = elim (Bool-cases (r.first == r.last)) [
  | inl e ↦ rw (e, upper_text) (StartsNext-NoDigit rest h)
  | inr e ↦ rw (e, upper_text) refl
]

read_entry-range :
    (r : CpuRange) (rest : List ℕ)
    → IsReadable r
    → StartsNext rest
    → read_entry (range_text r ++ rest) ≡ range r.first r.last rest
unfolding read_entry range_text
read_entry-range r rest v h =
    let digits = to_string r.first in
    rw
      (
        append_assoc digits (upper_text r) rest,
        split_digits-append digits (upper_text r ++ rest) (to_string-IsDigits r.first)
            (upper_text-NoDigit r rest h),
      )
      (read_first-digits digits (upper_text r ++ rest) (length-to_string r.first)
          (rw (decimal-to_string r.first) (omega arith))
        ∙ ap (λ l. read_last l (upper_text r ++ rest)) (decimal-to_string r.first)
        ∙ read_last-upper r rest v h)

length-range_text : (r : CpuRange) → 0 < length (range_text r)
unfolding range_text
length-range_text r =
    omega (arith, length-append (to_string r.first) (upper_text r), length-to_string r.first)

-- The CPUs that the loop pushes for the ranges.
expand : List CpuRange → List ℕ
expand [] = []
expand (r ∷ rs) = numbers (r.last + 1 - r.first) r.first ++ expand rs

-- A text that begins with a digit has nothing to skip.
skip-digits :
    (ds rest : List ℕ) → 0 < length ds → IsDigits ds → skip_separators (ds ++ rest) ≡ ds ++ rest
unfolding skip_separators
skip-digits [] rest h d = absurd (omega arith)
skip-digits (d ∷ ds) rest h v = ground arith

parse_entries-step :
    (fuel first last : ℕ) (rest text shown cpus xs : List ℕ)
    → skip_separators text ≡ shown
    → 0 < length shown
    → read_entry shown ≡ range first last rest
    → cpus_of_range first last ≡ some xs
    → parse_entries (suc fuel) text cpus ≡ parse_entries fuel rest (cpus ++ xs)
unfolding parse_entries
parse_entries-step fuel first last rest text [] cpus xs e n r p = absurd (omega arith)
parse_entries-step fuel first last rest text (c ∷ cs) cpus xs e n r p = rw (e, parse_entries, r, p)

parse_entries-range :
    (fuel : ℕ) (r : CpuRange) (rest text cpus : List ℕ)
    → IsReadable r
    → StartsNext rest
    → skip_separators text ≡ range_text r ++ rest
    → parse_entries (suc fuel) text cpus
      ≡ parse_entries fuel rest (cpus ++ numbers (r.last + 1 - r.first) r.first)
parse_entries-range fuel r rest text cpus v h e =
    parse_entries-step fuel r.first r.last rest text (range_text r ++ rest) cpus _ e
      (omega (arith, length-append (range_text r) rest, length-range_text r))
      (read_entry-range r rest v h)
      (cpus_of_range-numbers r.first r.last v.ordered v.short v.below_max)

skip-range_text :
    (r : CpuRange) (rest : List ℕ) → skip_separators (range_text r ++ rest) ≡ range_text r ++ rest
unfolding range_text
skip-range_text r rest = rw (append_assoc (to_string r.first) (upper_text r) rest) (
    skip-digits (to_string r.first) (upper_text r ++ rest) (length-to_string r.first)
      (to_string-IsDigits r.first))

skip-comma : (text : List ℕ) → skip_separators (b',' ∷ text) ≡ skip_separators text
unfolding skip_separators
skip-comma text = ground arith

parse_entries-following :
    (fuel : ℕ) (rs : List CpuRange) (cpus : List ℕ)
    → All IsReadable rs
    → length rs < fuel
    → parse_entries fuel (following_text rs) cpus ≡ done (cpus ++ expand rs)
parse_entries-following zero rs cpus v h = absurd (omega arith)
parse_entries-following (suc fuel) [] cpus v h =
    unfold following_text expand parse_entries skip_separators in ap done (sym (append-nil cpus))
parse_entries-following (suc fuel) (r ∷ rs) cpus v h =
    parse_entries-range fuel r (following_text rs) (following_text (r ∷ rs)) cpus v.0
      (following_text-StartsNext rs)
      (unfold following_text in (skip-comma _ ∙ skip-range_text r (following_text rs)))
    ∙ parse_entries-following fuel rs _ v.1 (omega arith)
    ∙ ap done (unfold expand in append_assoc cpus _ (expand rs))

length-following : (rs : List CpuRange) → length rs ≤ length (following_text rs)
unfolding following_text
length-following [] = omega arith
length-following (r ∷ rs) =
    omega (arith, length-append (range_text r) (following_text rs), length-following rs)

parse_entries-print_list :
    (rs : List CpuRange)
    → All IsReadable rs
    → parse_entries (length (print_list rs) + 1) (print_list rs) [] ≡ done (expand rs)
unfolding print_list expand
parse_entries-print_list [] v = unfold parse_entries skip_separators in refl
parse_entries-print_list (r ∷ rs) v =
    let text = range_text r ++ following_text rs in
    rw (add-one (length text)) (
      parse_entries-range (length text) r (following_text rs) text [] v.0
        (following_text-StartsNext rs) (skip-range_text r (following_text rs))
      ∙ parse_entries-following (length text) rs _ v.1 (
          omega (
            arith,
            length-append (range_text r) (following_text rs),
            length-range_text r,
            length-following rs,
          )))

contains-append :
    (k : ℕ) (xs ys : List ℕ) → contains k (xs ++ ys) ≡ (contains k xs || contains k ys)
unfolding contains
contains-append k [] ys = refl
contains-append k (x ∷ xs) ys = ground (arith, contains-append k xs ys)

contains-expand :
    (k : ℕ) (rs : List CpuRange) → All IsReadable rs → contains k (expand rs) ≡ covers k rs
unfolding contains expand
contains-expand k [] v = refl
contains-expand k (r ∷ rs) v = ground (
  arith,
  contains-append k (numbers (r.last + 1 - r.first) r.first) (expand rs),
  contains-numbers k (r.last + 1 - r.first) r.first,
  contains-expand k rs v.1,
)

-- ParseCpuList reads what the kernel writes: for any list of ranges, each of at most 4096 CPUs
-- and with an upper end below 4294967295, in any order and overlapping or not, the parse of the text ends without an error and gives, in
-- strictly ascending order, exactly the CPUs that a range covers.
pub parse_cpu_list-print_list :
    (rs : List CpuRange)
    → All IsReadable rs
    → (cpus : List ℕ) × (parse_cpu_list (print_list rs) ≡ done cpus)
      × Ascending 0 cpus
      × ((k : ℕ) → contains k cpus ≡ covers k rs)
unfolding parse_cpu_list
parse_cpu_list-print_list rs v = (
  unique (sort ltb (expand rs)),
  rw (parse_entries-print_list rs v) (unfold sorted_unique in refl),
  unique-Ascending (sort ltb (expand rs)) (sort-IsSorted ltb ltb-StrictWeak (expand rs)),
  λ k. contains-unique k _ ∙ contains-sort k (expand rs) ∙ contains-expand k rs v,
)
