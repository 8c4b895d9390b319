-- ===== src/Topology/CpuList/Termination.antt =====
-- ParseCpuList ends, but for one kind of input.
use mathlib.Core.List.{append_assoc}
use rapidbench.Prelude.{
  ℕ, zero, suc, ◌+◌, ◌-◌, ◌%◌, ◌^◌, ◌≤◌, ◌<◌, ◌≡◌, refl, sym, ap, ◌∙◌, ◌||◌, none, List, [], ◌∷◌,
  ◌++◌, arith, leb, ltb, ◌==◌, subst, length, Bool-cases, Option-cases, inl, inr, length-append,
}
use rapidbench.Prelude.Decimal.{split_digits, split_digits-parts, decimal}
use rapidbench.Topology.CpuList.{
  Parsed, done, out_of_range, endless, Entry, stop, refused, range, skip_separators, read_upper,
  read_last, read_first, read_entry, cpus_of_range, parse_entries, sorted_unique, parse_cpu_list,
  is_space, ulong_max,
}
use rapidbench.Topology.CpuList.Range.{cpus_of_range-total}

-- `rest` is what is left of `text` behind something.
abbrev pub Behind : List ℕ → List ℕ → Type 0
Behind rest text = (front : List ℕ) × (text ≡ front ++ rest)

-- Somewhere in the text stands an entry whose upper end is the largest 32-bit word.
abbrev pub HasEndlessRange : List ℕ → Type 0
HasEndlessRange text =
    (entry rest : List ℕ) × (first : ℕ) × Behind entry text
    × (read_entry entry ≡ range first (2 ^ 32 - 1) rest)

-- An entry that is read leaves a text which is no longer, and its upper end is a word.
abbrev Leaves : List ℕ → Entry → Type 0
Leaves text (range first last rest) = Behind rest text × (last < 2 ^ 32)
Leaves text _ = Unit

Behind-trans : (a b c : List ℕ) → Behind a b → Behind b c → Behind a c
Behind-trans a b c (f, p) (g, q) = (g ++ f, q ∙ ap (◌++◌ g) p ∙ sym (append_assoc g f a))

skip-Behind : (text : List ℕ) → Behind (skip_separators text) text
unfolding skip_separators
skip-Behind [] = ([], refl)
skip-Behind (c ∷ cs) = elim (Bool-cases ((c == b',') || is_space c)) [
  | inl e ↦ rw (e, skip_separators) (c ∷ (skip-Behind cs).0, ap (◌∷◌ c) (skip-Behind cs).1)
  | inr e ↦ rw (e, skip_separators) ([], refl)
]

read_upper-Leaves :
    (first : ℕ) (parts : List ℕ × List ℕ) → Leaves (parts.0 ++ parts.1) (read_upper first parts)
unfolding read_upper
read_upper-Leaves first ([], rest) = tt
read_upper-Leaves first (d ∷ ds, rest) = elim (Bool-cases (leb (decimal (d ∷ ds)) ulong_max)) [
  | inl e ↦ rw (e, read_upper) ((d ∷ ds, refl), omega arith)
  | inr e ↦ rw (e, read_upper) tt
]

Leaves-front : (front text : List ℕ) (e : Entry) → Leaves text e → Leaves (front ++ text) e
Leaves-front front text stop h = tt
Leaves-front front text refused h = tt
Leaves-front front text (range first last rest) ((f, p), b) =
    ((front ++ f, ap (◌++◌ front) p ∙ sym (append_assoc front f rest)), b)

read_last-Leaves : (first : ℕ) (text : List ℕ) → first < 2 ^ 32 → Leaves text (read_last first text)
unfolding read_last
read_last-Leaves first [] b = (([], refl), b)
read_last-Leaves first (c ∷ cs) b = elim (Bool-cases (c == b'-')) [
  | inl e ↦
      rw (e, read_last)
        (Leaves-front (c ∷ []) cs (read_upper first (split_digits cs)) (
          subst (λ t. Leaves t (read_upper first (split_digits cs))) (split_digits-parts cs).0
            (read_upper-Leaves first (split_digits cs))))
  | inr e ↦ rw (e, read_last) (([], refl), b)
]

read_first-Leaves : (parts : List ℕ × List ℕ) → Leaves (parts.0 ++ parts.1) (read_first parts)
unfolding read_first
read_first-Leaves ([], rest) = tt
read_first-Leaves (d ∷ ds, rest) = elim (Bool-cases (leb (decimal (d ∷ ds)) ulong_max)) [
  | inl e ↦
      rw (e, read_first)
        (Leaves-front (d ∷ ds) rest _
          (read_last-Leaves (decimal (d ∷ ds) % 2 ^ 32) rest (omega arith)))
  | inr e ↦ rw (e, read_first) tt
]

read_entry-Leaves : (text : List ℕ) → Leaves text (read_entry text)
unfolding read_entry
read_entry-Leaves text =
    subst (λ t. Leaves t (read_first (split_digits text))) (split_digits-parts text).0
      (read_first-Leaves (split_digits text))

Leaves-length :
    (text : List ℕ) (e : Entry) (first last : ℕ) (rest : List ℕ)
    → Leaves text e
    → e ≡ range first last rest
    → length rest ≤ length text
Leaves-length text stop first last rest h e = cc
Leaves-length text refused first last rest h e = cc
Leaves-length text (range a b r) first last rest ((front, p), _) e =
    ground (arith, ap length p, length-append front r)

read_first-shorter :
    (parts : List ℕ × List ℕ) {first last : ℕ} {rest : List ℕ}
    → read_first parts ≡ range first last rest
    → length rest < length (parts.0 ++ parts.1)
unfolding read_first
read_first-shorter ([], other) e = cc
read_first-shorter (d ∷ ds, other) {first} {last} {rest} e =
    let upper = decimal (d ∷ ds) % 2 ^ 32 in
    ground (
      arith,
      length-append (d ∷ ds) other,
      Leaves-length other (read_last upper other) first last rest
          (read_last-Leaves upper other (omega arith)),
    )

-- An entry that is read takes a character at least.
read_entry-shorter :
    (text : List ℕ) {first last : ℕ} {rest : List ℕ}
    → read_entry text ≡ range first last rest
    → length rest < length text
unfolding read_entry
read_entry-shorter text e =
    omega (arith, read_first-shorter (split_digits text) e, ap length (split_digits-parts text).0)

Leaves-of :
    (text : List ℕ) {first last : ℕ} {rest : List ℕ}
    → read_entry text ≡ range first last rest
    → Leaves text (range first last rest)
Leaves-of text e = subst (Leaves text) e (read_entry-Leaves text)

cpus_of_range-none :
    (first last : ℕ) → last < 2 ^ 32 → cpus_of_range first last ≡ none → last ≡ 2 ^ 32 - 1
cpus_of_range-none first last b e = elim (Bool-cases (ltb last (2 ^ 32 - 1))) [
  | inl h ↦ ground (arith, cpus_of_range-total first last (ground arith))
  | inr h ↦ ground arith
]

HasEndlessRange-Behind :
    (rest text : List ℕ) → Behind rest text → HasEndlessRange rest → HasEndlessRange text
HasEndlessRange-Behind rest text b (entry, r, first, c, e) =
    (entry, r, first, Behind-trans entry rest text c b, e)

-- What the loop does with the text behind the separators, when it does not end.
entry_endless :
    (fuel : ℕ) (shown cpus : List ℕ)
    → length shown < suc fuel
    → ((rest xs : List ℕ)
        → length rest < fuel
        → parse_entries fuel rest (cpus ++ xs) ≡ endless
        → HasEndlessRange rest)
    → (text : List ℕ) → skip_separators text ≡ shown
    → parse_entries (suc fuel) text cpus ≡ endless
    → HasEndlessRange shown
unfolding parse_entries
entry_endless fuel [] cpus h later text s e = ground arith
entry_endless fuel (c ∷ cs) cpus h later text s e = on_entry (read_entry (c ∷ cs)) refl
  where
    on_entry : (entry : Entry) → read_entry (c ∷ cs) ≡ entry → HasEndlessRange (c ∷ cs)
    on_entry stop r = ground arith
    on_entry refused r = ground arith
    on_entry (range first last rest) r = elim (Option-cases (cpus_of_range first last)) [
      | inl p ↦ (
        c ∷ cs,
        rest,
        first,
        ([], refl),
        r ∙ ap (λ l. range first l rest) (cpus_of_range-none first last (Leaves-of (c ∷ cs) r).1 p),
      )
      | inr (xs, p) ↦
          HasEndlessRange-Behind rest (c ∷ cs) (Leaves-of (c ∷ cs) r).0
            (later rest xs (omega (arith, read_entry-shorter (c ∷ cs) r)) (ground arith))
    ]

Behind-length : (rest text : List ℕ) → Behind rest text → length rest ≤ length text
Behind-length rest text (front, p) = omega (arith, ap length p, length-append front rest)

parse_entries-endless :
    (fuel : ℕ) (text cpus : List ℕ)
    → length text < fuel
    → parse_entries fuel text cpus ≡ endless
    → HasEndlessRange text
parse_entries-endless zero text cpus h e = absurd (omega arith)
parse_entries-endless (suc fuel) text cpus h e =
    let shown = skip_separators text in
    HasEndlessRange-Behind shown text (skip-Behind text) (
      entry_endless fuel shown cpus (omega (arith, Behind-length shown text (skip-Behind text)))
        (λ rest xs. parse_entries-endless fuel rest (cpus ++ xs)) text refl e)

sorted_unique-endless : (p : Parsed) → sorted_unique p ≡ endless → p ≡ endless
unfolding sorted_unique
sorted_unique-endless (done xs) e = cc
sorted_unique-endless out_of_range e = cc
sorted_unique-endless endless e = refl

-- ParseCpuList does not end only on a text in which an entry's upper end is the largest 32-bit word
-- (4294967295, or a numeral that the cast to 32 bits turns into it); every other text is parsed,
-- or refused by `stoul`.
pub parse_cpu_list-endless : (text : List ℕ) → parse_cpu_list text ≡ endless → HasEndlessRange text
unfolding parse_cpu_list
parse_cpu_list-endless text e =
    parse_entries-endless (length text + 1) text [] (omega arith)
      (sorted_unique-endless (parse_entries (length text + 1) text []) e)
