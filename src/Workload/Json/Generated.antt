-- ===== src/Workload/Json/Generated.antt =====
-- The generated corpus is a list of records that the parser takes.
use mathlib.Core.List.{append-nil, append_assoc}
use rapidbench.Prelude.{
  ℕ, zero, suc, ◌+◌, ◌^◌, ◌≤◌, ◌<◌, ◌≡◌, refl, sym, ap, ◌∙◌, Bool, true, false, List, [], ◌∷◌, ◌++◌,
  arith, ◌==◌, if◌then◌else◌, All, All-append, All-map,
}
use rapidbench.Prelude.Decimal.{to_string, to_string-IsDigits, is_digit}
use rapidbench.Workload.Words.{next}
use rapidbench.Workload.Json.{JsonRecordSummary, no_rows, codes, parse_application_json}
use rapidbench.Workload.Json.Corpus.{
  Row, row_text, Corpus, row_name, corpus_row, corpus_step, corpus_loop, json_corpus,
}
use rapidbench.Workload.Json.RoundTrip.{
  IsLetter, IsWritable, following, count_rows, list_text, parse_application_json-list_text,
}

-- The records that the loop writes.
corpus_rows : ℕ → ℕ → ℕ → List Row
corpus_rows zero row random = []
corpus_rows (suc left) row random =
    corpus_row row (next random) ∷ corpus_rows left (row + 1) (next random)

digit-IsLetter : (c : ℕ) → is_digit c ≡ true → IsLetter c
digit-IsLetter c h = (ground arith, ground arith, ground arith, ground arith)

row_name-letters : (row : ℕ) → All IsLetter (row_name row)
unfolding row_name
row_name-letters row =
    All-append IsLetter (codes "record-") (to_string row ++ codes "-sample") (omega arith) (
      All-append IsLetter (to_string row) (codes "-sample")
        (All-map (λ c. is_digit c ≡ true) IsLetter digit-IsLetter (to_string row)
          (to_string-IsDigits row))
        (omega arith))

corpus_rows-IsWritable :
    (left row random : ℕ) → row + left ≤ 2 ^ 64 → All IsWritable (corpus_rows left row random)
unfolding corpus_rows corpus_row
corpus_rows-IsWritable zero row random h = tt
corpus_rows-IsWritable (suc left) row random h = (
  record { id_fits = omega arith; value_fits = omega arith; letters_fit = row_name-letters row },
  corpus_rows-IsWritable left (row + 1) (next random) (omega arith),
)

corpus_step-json :
    (row : ℕ) (c : Corpus)
    → 0 < row
    → (corpus_step row c).json
      ≡ (c.json ++ codes ",\n") ++ row_text (corpus_row row (next c.random))
unfolding corpus_step
corpus_step-json row c h =
    ap (λ l. l ++ row_text (corpus_row row (next c.random))) (not_first (row == 0) (ground arith))
  where
    not_first :
        (first : Bool)
        → first ≡ false
        → (if first then c.json else c.json ++ codes ",\n") ≡ c.json ++ codes ",\n"
    not_first true e = cc
    not_first false e = refl

-- What the loop leaves, from a row on that is not the first.
corpus_loop-rows :
    (left row : ℕ) (c : Corpus)
    → 0 < row
    → ((corpus_loop left row c).json ≡ c.json ++ following (corpus_rows left row c.random))
      × ((corpus_loop left row c).reference
          ≡ count_rows (corpus_rows left row c.random) c.reference)
unfolding corpus_loop corpus_step corpus_rows following count_rows
corpus_loop-rows zero row c h = (sym (append-nil c.json), refl)
corpus_loop-rows (suc left) row c h =
    let (text, sum) = corpus_loop-rows left (row + 1) (corpus_step row c) (omega arith) in
    let later = following (corpus_rows left (row + 1) (next c.random)) in
    let r = row_text (corpus_row row (next c.random)) in
    (
      text
          ∙ ap (λ l. l ++ later) (corpus_step-json row c h)
          ∙ append_assoc (c.json ++ codes ",\n") r later
          ∙ append_assoc c.json (codes ",\n") (r ++ later),
      sum,
    )

json_corpus-list_text :
    (rows seed : ℕ)
    → ((json_corpus rows seed).json ≡ list_text (corpus_rows rows 0 seed))
      × ((json_corpus rows seed).reference ≡ count_rows (corpus_rows rows 0 seed) no_rows)
unfolding json_corpus corpus_loop corpus_step corpus_rows list_text count_rows
json_corpus-list_text zero seed = (refl, refl)
json_corpus-list_text (suc left) seed =
    let begun = corpus_step 0 (record { json = codes "["; random = seed; reference = no_rows }) in
    let (text, sum) = corpus_loop-rows left 1 begun (omega arith) in
    let later = following (corpus_rows left 1 (next seed)) in
    (
      ap (λ l. l ++ codes "]") text
          ∙ ap (λ l. 91 ∷ l) (append_assoc (row_text (corpus_row 0 (next seed))) later (codes "]")),
      sum,
    )

-- The text that the constructor of the JSON workload writes is accepted by the parser, and the
-- summary that the parser finds is the one that the constructor kept beside it, for every number of
-- rows that a 32-bit counter holds and every state of the generator.
pub json_corpus-parses :
    (rows seed : ℕ) (old : JsonRecordSummary)
    → rows ≤ 2 ^ 32
    → parse_application_json (json_corpus rows seed).json old
      ≡ (true, (json_corpus rows seed).reference)
json_corpus-parses rows seed old h =
    let (text, sum) = json_corpus-list_text rows seed in
    ap (λ t. parse_application_json t old) text
    ∙ parse_application_json-list_text (corpus_rows rows 0 seed) old
        (corpus_rows-IsWritable rows 0 seed (omega arith))
    ∙ ap (λ s. (true, s)) (sym sum)
