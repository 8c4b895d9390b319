-- ===== src/Workload/Json/Corpus.antt =====
-- native/benchmark_core/src/cpu_application_workload.cpp: the corpus that the constructor of
-- CpuApplicationWorkload writes for the JSON workload, with the summary that it keeps beside it.
use rapidbench.Prelude.{ℕ, zero, suc, ◌+◌, ◌%◌, Bool, not, List, ◌++◌, ◌==◌, if◌then◌else◌}
use rapidbench.Prelude.Decimal.{to_string}
use rapidbench.Workload.Words.{next, hash}
use rapidbench.Workload.Json.{JsonRecordSummary, no_rows, codes, add_row}

-- One record of the corpus.
pub record Row : Type 0 where
  pub id : ℕ
  pub value : ℕ
  pub active : Bool
  pub letters : List ℕ

abbrev pub flag_text : Bool → List ℕ
flag_text active = if active then codes "true" else codes "false"

unfoldable pub row_text : Row → List ℕ
row_text r =
    codes "{\"id\":"
    ++ (to_string r.id
        ++ (codes ",\"value\":"
            ++ (to_string r.value
                ++ (codes ",\"active\":"
                    ++ (flag_text r.active
                        ++ (codes ",\"name\":\"" ++ (r.letters ++ codes "\"}")))))))

-- The variables of the loop: the text, the generator's state and the reference summary.
pub record Corpus : Type 0 where
  pub json : List ℕ
  pub random : ℕ
  pub reference : JsonRecordSummary

unfoldable pub row_name : ℕ → List ℕ
row_name row = codes "record-" ++ (to_string row ++ codes "-sample")

unfoldable pub corpus_row : ℕ → ℕ → Row
corpus_row row random = record {
  id = row;
  value = random % 1000000;
  active = not (row % 3 == 0);
  letters = row_name row;
}

abbrev pub count_row : Row → JsonRecordSummary → JsonRecordSummary
count_row r s = add_row r.id r.value r.active (hash s.name_hash r.letters) s

unfoldable pub corpus_step : ℕ → Corpus → Corpus
corpus_step row c =
    let random = next c.random in
    let r = corpus_row row random in
    record {
      json = (if row == 0 then c.json else c.json ++ codes ",\n") ++ row_text r;
      random = random;
      reference = count_row r c.reference;
    }

-- `for (row = …; …; ++row)`, with the rows that are left.
unfoldable pub corpus_loop : ℕ → ℕ → Corpus → Corpus
corpus_loop zero row c = c
corpus_loop (suc left) row c = corpus_loop left (row + 1) (corpus_step row c)

unfoldable pub json_corpus : ℕ → ℕ → Corpus
json_corpus rows seed =
    let c = corpus_loop rows 0 (record { json = codes "["; random = seed; reference = no_rows }) in
    record c { json = c.json ++ codes "]" }
