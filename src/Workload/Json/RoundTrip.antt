-- ===== src/Workload/Json/RoundTrip.antt =====
-- ParseApplicationJson reads what the corpus writes.
use mathlib.Core.List.{append_assoc}
use rapidbench.Prelude.{
  ℕ, zero, suc, ◌+◌, ◌^◌, ◌≤◌, ◌<◌, ◌≡◌, ◌≢◌, refl, ap, ◌∙◌, Bool, true, false, some, List, [], ◌∷◌,
  ◌++◌, arith, length, All, length-append,
}
use rapidbench.Prelude.Decimal.{to_string}
use rapidbench.Workload.Words.{hash}
use rapidbench.Workload.Json.{
  JsonRecordSummary, no_rows, codes, space, strip, token, name_loop, name, flag, id_field,
  value_field, active_field, name_field, parse_record, parsed, parse_records, finish,
  parse_application_json, at_end,
}
use rapidbench.Workload.Json.Numbers.{number-to_string}
use rapidbench.Workload.Json.Corpus.{Row, row_text, flag_text, count_row}

-- A letter that a name may hold.
abbrev pub IsLetter : ℕ → Type 0
IsLetter c = (32 ≤ c) × (c < 127) × (c ≢ b'"') × (c ≢ 92)

-- A record that the parser takes.
pub record IsWritable (r : Row) : Type 0 where
  pub id_fits : r.id < 2 ^ 64
  pub value_fits : r.value < 2 ^ 64
  pub letters_fit : All IsLetter r.letters

id_field-text :
    (n : ℕ) (rest : List ℕ)
    → n < 2 ^ 64
    → id_field (codes "{\"id\":" ++ (to_string n ++ (codes ",\"value\":" ++ rest)))
      ≡ some (n, codes ",\"value\":" ++ rest)
unfolding id_field token space strip
id_field-text n rest b = number-to_string n (codes ",\"value\":" ++ rest) b refl

value_field-text :
    (n : ℕ) (rest : List ℕ)
    → n < 2 ^ 64
    → value_field (codes ",\"value\":" ++ (to_string n ++ (codes ",\"active\":" ++ rest)))
      ≡ some (n, codes ",\"active\":" ++ rest)
unfolding value_field token space strip
value_field-text n rest b = number-to_string n (codes ",\"active\":" ++ rest) b refl

active_field-text :
    (active : Bool) (rest : List ℕ)
    → active_field (codes ",\"active\":" ++ (flag_text active ++ rest)) ≡ some (active, rest)
unfolding active_field token space strip flag
active_field-text true rest = refl
active_field-text false rest = refl

name_loop-letters :
    (letters rest : List ℕ)
    → All IsLetter letters
    → name_loop (letters ++ (codes "\"" ++ rest)) ≡ some (letters, codes "\"" ++ rest)
unfolding name_loop
name_loop-letters [] rest h = refl
name_loop-letters (c ∷ cs) rest h = ground (arith, name_loop-letters cs rest h.1)

name_field-text :
    (h : ℕ) (letters rest : List ℕ)
    → All IsLetter letters
    → name_field h (codes ",\"name\":\"" ++ (letters ++ (codes "\"}" ++ rest)))
      ≡ some (hash h letters, rest)
unfolding name_field name token space strip
name_field-text h letters rest v = rw (name_loop-letters letters (codes "}" ++ rest) v) refl

-- The text of a record with what follows, bracketed to the right.
abbrev row_before : Row → List ℕ → List ℕ
row_before r rest =
    codes "{\"id\":"
    ++ (to_string r.id
        ++ (codes ",\"value\":"
            ++ (to_string r.value
                ++ (codes ",\"active\":"
                    ++ (flag_text r.active
                        ++ (codes ",\"name\":\"" ++ (r.letters ++ (codes "\"}" ++ rest))))))))

row_text-append : (r : Row) (rest : List ℕ) → row_text r ++ rest ≡ row_before r rest
unfolding row_text
row_text-append r rest = simp append_assoc

parse_record-before :
    (s : JsonRecordSummary) (r : Row) (rest : List ℕ)
    → IsWritable r
    → parse_record s (row_before r rest) ≡ some (count_row r s, rest)
unfolding parse_record
parse_record-before s r rest w =
    rw
      (
        id_field-text r.id _ w.id_fits,
        value_field-text r.value _ w.value_fits,
        active_field-text r.active _,
        name_field-text s.name_hash r.letters rest w.letters_fit,
      )
      refl

parse_record-text :
    (s : JsonRecordSummary) (r : Row) (rest : List ℕ)
    → IsWritable r
    → parse_record s (row_text r ++ rest) ≡ some (count_row r s, rest)
parse_record-text s r rest w =
    ap (parse_record s) (row_text-append r rest) ∙ parse_record-before s r rest w

-- The records behind the first, each behind the separator that the corpus writes.
unfoldable pub following : List Row → List ℕ
following [] = []
following (r ∷ rs) = codes ",\n" ++ (row_text r ++ following rs)

following-cons :
    (r : Row) (rs : List Row) (rest : List ℕ)
    → following (r ∷ rs) ++ rest ≡ codes ",\n" ++ (row_text r ++ (following rs ++ rest))
unfolding following
following-cons r rs rest = ap (◌++◌ (codes ",\n")) (append_assoc (row_text r) (following rs) rest)

-- The summary of records that are read in order.
unfoldable pub count_rows : List Row → JsonRecordSummary → JsonRecordSummary
count_rows [] s = s
count_rows (r ∷ rs) s = count_rows rs (count_row r s)

-- A record is read the same behind a line feed.
parse_record-newline :
    (s : JsonRecordSummary) (rest : List ℕ) → parse_record s (10 ∷ rest) ≡ parse_record s rest
unfolding parse_record id_field token space
parse_record-newline s rest = refl

parse_records-last :
    (fuel : ℕ) (s s' : JsonRecordSummary) (text : List ℕ)
    → parse_record s text ≡ some (s', codes "]")
    → parse_records (suc fuel) s text ≡ parsed s' (codes "]")
unfolding parse_records
parse_records-last fuel s s' text e = rw (e, parse_records) (unfold token strip space in refl)

parse_records-more :
    (fuel : ℕ) (s s' : JsonRecordSummary) (text rest : List ℕ)
    → parse_record s text ≡ some (s', codes ",\n" ++ rest)
    → parse_records (suc fuel) s text ≡ parse_records fuel s' (10 ∷ rest)
unfolding parse_records
parse_records-more fuel s s' text rest e = rw (e, parse_records) (unfold token strip space in refl)

parse_records-following :
    (fuel : ℕ) (s : JsonRecordSummary) (r : Row) (rs : List Row) (text : List ℕ)
    → IsWritable r
    → All IsWritable rs
    → length rs < fuel
    → parse_record s text ≡ some (count_row r s, following rs ++ codes "]")
    → parse_records fuel s text ≡ parsed (count_rows (r ∷ rs) s) (codes "]")
unfolding count_rows
parse_records-following zero s r rs text w ws h e = absurd (omega arith)
parse_records-following (suc fuel) s r [] text w ws h e =
    parse_records-last fuel s (count_row r s) text (unfold following in e)
parse_records-following (suc fuel) s r (q ∷ qs) text w ws h e =
    let rest = row_text q ++ (following qs ++ codes "]") in
    parse_records-more fuel s (count_row r s) text rest
      (e ∙ ap (λ l. some (count_row r s, l)) (following-cons q qs (codes "]")))
    ∙ parse_records-following fuel (count_row r s) q qs (10 ∷ rest) ws.0 ws.1 (omega arith) (
        parse_record-newline (count_row r s) rest
        ∙ parse_record-text (count_row r s) q (following qs ++ codes "]") ws.0)

-- The text of a list of records, as the corpus writes it.
unfoldable pub list_text : List Row → List ℕ
list_text [] = codes "[]"
list_text (r ∷ rs) = codes "[" ++ (row_text r ++ (following rs ++ codes "]"))

length-following : (rs : List Row) → length rs ≤ length (following rs)
unfolding following
length-following [] = omega arith
length-following (r ∷ rs) =
    omega (arith, length-append (row_text r) (following rs), length-following rs)

open_list :
    (r : Row) (rest : List ℕ)
    → (token (codes "[") (codes "[" ++ (row_text r ++ rest)) ≡ (true, row_text r ++ rest))
      × (token (codes "]") (row_text r ++ rest) ≡ (false, row_text r ++ rest))
unfolding token space strip row_text
open_list r rest = (refl, refl)

finish-closed : (old s : JsonRecordSummary) → finish old (parsed s (codes "]")) ≡ (true, s)
unfolding finish token space strip at_end
finish-closed old s = refl

parse_application_json-empty :
    (old : JsonRecordSummary) → parse_application_json (codes "[]") old ≡ (true, no_rows)
unfolding parse_application_json token space strip at_end
parse_application_json-empty old = refl

-- ParseApplicationJson reads back what the corpus writes: for any list of records whose numbers fit
-- 64 bits and whose names hold printable ASCII letters but no quote and no backslash, the text of
-- the list is accepted, and the caller's summary becomes that of the records, counted in order with
-- 64-bit wrap-around.
pub parse_application_json-list_text :
    (rs : List Row) (old : JsonRecordSummary)
    → All IsWritable rs
    → parse_application_json (list_text rs) old ≡ (true, count_rows rs no_rows)
unfolding list_text parse_application_json count_rows
parse_application_json-list_text [] old w = parse_application_json-empty old
parse_application_json-list_text (r ∷ rs) old w =
    let rest = following rs ++ codes "]" in
    let (opened, closed) = open_list r rest in
    let fuel = length (row_text r ++ rest) in
    rw (opened, parse_application_json, closed)
      (ap (finish old) (
          parse_records-following (fuel + 1) no_rows r rs (row_text r ++ rest) w.0 w.1
            (omega (
              arith,
              length-append (row_text r) rest,
              length-append (following rs) (codes "]"),
              length-following rs,
            ))
            (parse_record-text no_rows r rest w.0))
        ∙ finish-closed old _)
