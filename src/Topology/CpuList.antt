-- ===== src/Topology/CpuList.antt =====
-- native/benchmark_core/src/topology.cpp: ParseCpuList, the reader of the kernel's CPU lists
-- such as "0-3,6". A text is the list of its character codes. `std::stoul` takes an unsigned long of
-- 64 bits and throws `std::out_of_range` above it.
pub mod Range
pub mod Print
pub mod RoundTrip
pub mod Termination
use rapidbench.Prelude.{
  ℕ, zero, suc, ◌+◌, ◌-◌, ◌%◌, ◌^◌, Bool, true, false, ◌&&◌, ◌||◌, Option, none, some, List, [],
  ◌∷◌, ◌++◌, ltb, leb, ◌==◌, if◌then◌else◌, length,
}
use rapidbench.Prelude.Decimal.{split_digits, decimal}
use rapidbench.Prelude.Sort.{sort, unique}

-- `endless` is a loop that never ends.
pub data Parsed : Type 0 where
  done : List ℕ → Parsed
  out_of_range : Parsed
  endless : Parsed

-- What the body of the outer loop finds: nothing that it can read, a numeral that `stoul` refuses,
-- or a range and the text behind it.
pub data Entry : Type 0 where
  stop : Entry
  refused : Entry
  range : ℕ → ℕ → List ℕ → Entry

abbrev pub ulong_max : ℕ
ulong_max = 2 ^ 64 - 1

abbrev pub u32_mod : ℕ
u32_mod = 2 ^ 32

abbrev pub is_space : ℕ → Bool
is_space c = (c == 32) || (leb 9 c && leb c 13)

unfoldable pub skip_separators : List ℕ → List ℕ
skip_separators [] = []
skip_separators (c ∷ cs) =
    let rest = skip_separators cs in if (c == b',') || is_space c then rest else c ∷ cs

unfoldable pub read_upper : ℕ → List ℕ × List ℕ → Entry
read_upper first ([], rest) = stop
read_upper first (d ∷ ds, rest) =
    let value = decimal (d ∷ ds) in
    if leb value ulong_max then range first (value % u32_mod) rest else refused

unfoldable pub read_last : ℕ → List ℕ → Entry
read_last first [] = range first first []
read_last first (c ∷ cs) =
    if c == b'-' then read_upper first (split_digits cs) else range first first (c ∷ cs)

unfoldable pub read_first : List ℕ × List ℕ → Entry
read_first ([], rest) = stop
read_first (d ∷ ds, rest) =
    let value = decimal (d ∷ ds) in
    if leb value ulong_max then read_last (value % u32_mod) rest else refused

unfoldable pub read_entry : List ℕ → Entry
read_entry text = read_first (split_digits text)

-- `for (cpu = first; cpu <= last; ++cpu)` on 32-bit words, with fuel.
unfoldable pub push_range : ℕ → ℕ → ℕ → Option (List ℕ)
push_range zero cpu last = none
push_range (suc fuel) cpu last = elim (leb cpu last) [
  | true ↦ elim (push_range fuel ((cpu + 1) % u32_mod) last) [
    | none ↦ none
    | some xs ↦ some (cpu ∷ xs)
  ]
  | false ↦ some []
]

-- The guard of the loop admits at most 4096 rounds.
unfoldable pub cpus_of_range : ℕ → ℕ → Option (List ℕ)
cpus_of_range first last =
    if leb first last && ltb (last - first) 4096 then push_range 4097 first last else some []

unfoldable pub parse_entries : ℕ → List ℕ → List ℕ → Parsed
parse_entries zero text cpus = endless
parse_entries (suc fuel) text cpus = elim (skip_separators text) [
  | [] ↦ done cpus
  | c ∷ cs ↦ elim (read_entry (c ∷ cs)) [
    | stop ↦ done cpus
    | refused ↦ out_of_range
    | range first last rest ↦ elim (cpus_of_range first last) [
      | none ↦ endless
      | some xs ↦ parse_entries fuel rest (cpus ++ xs)
    ]
  ]
]

unfoldable pub sorted_unique : Parsed → Parsed
sorted_unique (done cpus) = done (unique (sort ltb cpus))
sorted_unique out_of_range = out_of_range
sorted_unique endless = endless

-- Every entry takes a character at least, so one round more than the characters is enough.
unfoldable pub parse_cpu_list : List ℕ → Parsed
parse_cpu_list text = sorted_unique (parse_entries (length text + 1) text [])
