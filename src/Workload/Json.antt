-- ===== src/Workload/Json.antt =====
-- native/benchmark_core/src/cpu_application_workload.cpp: the cursor and ParseApplicationJson. A
-- cursor is the text that is left, since nothing looks back behind it but Number, at its own start.
pub mod Corpus
pub mod Numbers
pub mod RoundTrip
pub mod Generated
use Prim.Native.Char.{code}
use Prim.Native.String.{String}
use rapidbench.Prelude.{
  ℕ, zero, suc, ◌+◌, ◌-◌, ◌*◌, ◌/◌, ◌%◌, ◌^◌, Bool, true, false, not, ◌&&◌, ◌||◌, Option, none,
  some, List, [], ◌∷◌, ◌++◌, ltb, leb, ◌==◌, if◌then◌else◌, length, is_empty,
}
use rapidbench.Prelude.Decimal.{is_digit}
use rapidbench.Workload.Words.{u64_mod, hash, hash_seed}

-- The characters of a literal.
abbrev pub codes : String → List ℕ
codes String.[] = []
codes (String.◌∷◌ c s) = code c ∷ codes s

pub record JsonRecordSummary : Type 0 where
  pub rows : ℕ
  pub id_sum : ℕ
  pub value_sum : ℕ
  pub active_count : ℕ
  pub name_hash : ℕ

abbrev pub no_rows : JsonRecordSummary
no_rows = record { rows = 0; id_sum = 0; value_sum = 0; active_count = 0; name_hash = hash_seed }

-- `operator==`.
unfoldable pub summary_eq : JsonRecordSummary → JsonRecordSummary → Bool
summary_eq a b =
    (a.rows == b.rows)
    && (a.id_sum == b.id_sum)
    && (a.value_sum == b.value_sum)
    && (a.active_count == b.active_count)
    && (a.name_hash == b.name_hash)

abbrev pub is_json_space : ℕ → Bool
is_json_space c = (c == 32) || (c == 10) || (c == 13) || (c == 9)

unfoldable pub space : List ℕ → List ℕ
space [] = []
space (c ∷ cs) = let rest = space cs in if is_json_space c then rest else c ∷ cs

unfoldable pub strip : List ℕ → List ℕ → Option (List ℕ)
strip [] text = some text
strip (t ∷ ts) [] = none
strip (t ∷ ts) (c ∷ cs) = if t == c then strip ts cs else none

-- Whether the token is there, and the cursor behind it or behind the spaces.
unfoldable pub token : List ℕ → List ℕ → Bool × List ℕ
token t text = elim (strip t (space text)) [ none ↦ (false, space text) | some rest ↦ (true, rest) ]

infixl 5 ◌>>=◌
abbrev pub ◌>>=◌ {ℓ κ} : {A : Type ℓ} {B : Type κ} → Option A → (A → Option B) → Option B
none >>= f = none
some a >>= f = f a

-- `if (!cursor.Token(t)) return false`.
abbrev pub expect : List ℕ → List ℕ → Option (List ℕ)
expect t text = let (found, rest) = token t text in if found then some rest else none

-- The loop of Number: the value and the text behind the digits, or nothing on an overflow.
unfoldable pub number_loop : ℕ → List ℕ → Option (ℕ × List ℕ)
number_loop value [] = some (value, [])
number_loop value (c ∷ cs) =
    let digit = c - b'0' in
    let rest = number_loop ((value * 10 + digit) % u64_mod) cs in
    if is_digit c
    then if ltb ((u64_mod - 1 - digit) / 10) value then none else rest
    else some (value, c ∷ cs)

abbrev pub starts_with_zero : List ℕ → Bool
starts_with_zero [] = false
starts_with_zero (c ∷ cs) = c == b'0'

-- At least one digit, and no zero before another.
unfoldable pub number : List ℕ → Option (ℕ × List ℕ)
number text = do
  let start = space text
  (value, rest) ← number_loop 0 start
  let taken = length start - length rest
  if not (taken == 0) && not (ltb 1 taken && starts_with_zero start)
      then some (value, rest)
      else none

-- The loop of Name: the characters up to the quote and the text from it on.
unfoldable pub name_loop : List ℕ → Option (List ℕ × List ℕ)
name_loop [] = none
name_loop (c ∷ cs) =
    if c == b'"'
    then some ([], c ∷ cs)
    else if ltb c 32 || leb 127 c || (c == 92)
    then none
    else name_loop cs >>= λ (ds, rest). some (c ∷ ds, rest)

abbrev pub behind_quote : List ℕ → List ℕ
behind_quote [] = []
behind_quote (c ∷ cs) = cs

unfoldable pub name : ℕ → List ℕ → Option (ℕ × List ℕ)
name h text = do
  start ← expect (codes "\"") text
  (letters, rest) ← name_loop start
  some (hash h letters, behind_quote rest)

unfoldable pub at_end : List ℕ → Bool
at_end text = is_empty (space text)

-- `true` or `false`.
unfoldable pub flag : List ℕ → Option (Bool × List ℕ)
flag text =
    let (active, rest) = token (codes "true") text in
    if active then some (true, rest) else expect (codes "false") rest >>= λ r. some (false, r)

-- What a row adds, once its name is hashed.
abbrev pub add_row : ℕ → ℕ → Bool → ℕ → JsonRecordSummary → JsonRecordSummary
add_row id value active name_hash s = record {
  rows = (s.rows + 1) % u64_mod;
  id_sum = (s.id_sum + id) % u64_mod;
  value_sum = (s.value_sum + value) % u64_mod;
  active_count = (s.active_count + (if active then 1 else 0)) % u64_mod;
  name_hash = name_hash;
}

-- The four fields of a record, with the punctuation that belongs to them.
unfoldable pub id_field : List ℕ → Option (ℕ × List ℕ)
id_field t0 = do
  t1 ← expect (codes "{") t0
  t2 ← expect (codes "\"id\"") t1
  t3 ← expect (codes ":") t2
  number t3

unfoldable pub value_field : List ℕ → Option (ℕ × List ℕ)
value_field t0 = do
  t1 ← expect (codes ",") t0
  t2 ← expect (codes "\"value\"") t1
  t3 ← expect (codes ":") t2
  number t3

unfoldable pub active_field : List ℕ → Option (Bool × List ℕ)
active_field t0 = do
  t1 ← expect (codes ",") t0
  t2 ← expect (codes "\"active\"") t1
  t3 ← expect (codes ":") t2
  flag t3

unfoldable pub name_field : ℕ → List ℕ → Option (ℕ × List ℕ)
name_field h t0 = do
  t1 ← expect (codes ",") t0
  t2 ← expect (codes "\"name\"") t1
  t3 ← expect (codes ":") t2
  (h', t4) ← name h t3
  t5 ← expect (codes "}") t4
  some (h', t5)

-- The body of the loop over the records.
unfoldable pub parse_record : JsonRecordSummary → List ℕ → Option (JsonRecordSummary × List ℕ)
parse_record s t0 = do
  (id, t1) ← id_field t0
  (value, t2) ← value_field t1
  (active, t3) ← active_field t2
  (name_hash, t4) ← name_field s.name_hash t3
  some (add_row id value active name_hash s, t4)

pub data Records : Type 0 where
  parsed : JsonRecordSummary → List ℕ → Records
  rejected : Records
  exhausted : Records

-- `do … while (cursor.Token(","))`, with fuel.
unfoldable pub parse_records : ℕ → JsonRecordSummary → List ℕ → Records
parse_records zero s text = exhausted
parse_records (suc fuel) s text = elim (parse_record s text) [
  | none ↦ rejected
  | some (s', rest) ↦
      let next = token (codes ",") rest in
      elim (next.0) [ true ↦ parse_records fuel s' next.1 | false ↦ parsed s' next.1 ]
]

unfoldable pub finish : JsonRecordSummary → Records → Bool × JsonRecordSummary
finish old (parsed s text) =
    let (closed, rest) = token (codes "]") text in
    if closed && at_end rest then (true, s) else (false, old)
finish old rejected = (false, old)
finish old exhausted = (false, old)

-- Whether the text is a list of records, and what the caller's summary then holds.
unfoldable pub parse_application_json : List ℕ → JsonRecordSummary → Bool × JsonRecordSummary
parse_application_json input result =
    let (opened, t1) = token (codes "[") input in
    let (closed, t2) = token (codes "]") t1 in
    if opened
    then if closed
      then (at_end t2, no_rows)
      else finish result (parse_records (length t2 + 1) no_rows t2)
    else (false, result)
