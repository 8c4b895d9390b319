-- ===== src/Workload/Examples.antt =====
-- Runs of the application workloads at small inputs, and their theorems at such inputs.
use rapidbench.Prelude.{ℕ, ◌≡◌, refl, true, false, none, some, List, [], ◌∷◌, ◌++◌, arith, ltb}
use rapidbench.Prelude.Int.{◌-ℤ◌, ◌+ℤ◌, ◌*ℤ◌}
use rapidbench.Prelude.Sort.{sort}
use rapidbench.Prelude.Decimal.{to_string}
use rapidbench.Workload.Words.{hash}
use rapidbench.Workload.Json.{
  JsonRecordSummary, no_rows, codes, space, strip, token, number_loop, number, name_loop, name,
  at_end, flag, id_field, value_field, active_field, name_field, parse_record, parse_records,
  finish, parse_application_json,
}
use rapidbench.Workload.Json.Corpus.{Row, json_corpus}
use rapidbench.Workload.Json.Numbers.{number-to_string}
use rapidbench.Workload.Json.RoundTrip.{
  IsWritable, list_text, count_rows, parse_application_json-list_text,
}
use rapidbench.Workload.Json.Generated.{json_corpus-parses}
use rapidbench.Workload.Sobel.{
  write_cells, reference_value, application_value, application_sobel, application_rows,
  reference_sobel,
}
use rapidbench.Workload.Sobel.Pixels.{application-reference_value}
use rapidbench.Workload.Sobel.Agreement.{application-reference_sobel}
use rapidbench.Workload.Radix.{count_digits, accumulate, scatter, radix_pass, reference_sort}
use rapidbench.Workload.Radix.Agreement.{reference_sort-sort}
use rapidbench.Workload.Application.{
  CpuApplicationWorkload, Sizes, k_sort, untouched, create, run_batch, validate, units_per_batch,
  random_keys, random_seed, with_endpoints,
}
use rapidbench.Workload.Application.Batch.{create-run_batch}

abbrev two_records : List ℕ
two_records =
    codes
      "[{\"id\":7,\"value\":20,\"active\":true,\"name\":\"a\"}, {\"id\":1,\"value\":3,\"active\":false,\"name\":\"b\"}]"

parses_two : (parse_application_json two_records no_rows).1.value_sum ≡ 23
unfolding parse_application_json finish parse_records parse_record id_field value_field active_field
    name_field flag at_end name name_loop number number_loop token strip space hash
parses_two = refl

-- Text behind an empty list: the answer is no, and the caller's summary is the empty one all the same.
junk_behind_empty_list :
    (old : JsonRecordSummary) → parse_application_json (codes "[]x") old ≡ (false, no_rows)
unfolding parse_application_json at_end token strip space
junk_behind_empty_list old = refl

sorts_four : reference_sort (70000 ∷ 3 ∷ 4294967295 ∷ 256 ∷ []) ≡ 3 ∷ 256 ∷ 70000 ∷ 4294967295 ∷ []
unfolding reference_sort radix_pass scatter accumulate count_digits
sorts_four = refl

abbrev small_image : List ℕ
small_image = 9 ∷ 0 ∷ 0 ∷ 0 ∷ 5 ∷ 0 ∷ 0 ∷ 0 ∷ 255 ∷ []

filters_image :
    application_sobel false small_image 3 3 (1 ∷ 1 ∷ 1 ∷ 1 ∷ 1 ∷ 1 ∷ 1 ∷ 1 ∷ 1 ∷ [])
    ≡ some (0 ∷ 0 ∷ 0 ∷ 0 ∷ 255 ∷ 0 ∷ 0 ∷ 0 ∷ 0 ∷ [])
unfolding application_sobel application_rows application_value write_cells ◌-ℤ◌ ◌+ℤ◌ ◌*ℤ◌
filters_image = refl

rejects_alias : application_sobel true small_image 3 3 small_image ≡ none
unfolding application_sobel
rejects_alias = refl

abbrev small_sizes : Sizes
small_sizes = record { sort_keys = 4; json_rows = 2; image_side = 3 }

number-to_string_example : number (to_string 42 ++ (b',' ∷ [])) ≡ some (42, b',' ∷ [])
number-to_string_example = number-to_string 42 (b',' ∷ []) (omega arith) refl

abbrev a_row : Row
a_row = record { id = 7; value = 20; active = true; letters = b'a' ∷ b'-' ∷ [] }

a_row-IsWritable : IsWritable a_row
a_row-IsWritable = record {
  id_fits = omega arith;
  value_fits = omega arith;
  letters_fit = (
    (omega arith, omega arith, (λ e. absurd (omega arith)), (λ e. absurd (omega arith))),
    ((omega arith, omega arith, (λ e. absurd (omega arith)), (λ e. absurd (omega arith))), tt),
  );
}

parse_application_json-list_text_example :
    parse_application_json (list_text (a_row ∷ a_row ∷ [])) no_rows
    ≡ (true, count_rows (a_row ∷ a_row ∷ []) no_rows)
parse_application_json-list_text_example =
    parse_application_json-list_text (a_row ∷ a_row ∷ []) no_rows
      (a_row-IsWritable, (a_row-IsWritable, tt))

json_corpus-parses_example :
    parse_application_json (json_corpus 2 random_seed).json no_rows
    ≡ (true, (json_corpus 2 random_seed).reference)
json_corpus-parses_example = json_corpus-parses 2 random_seed no_rows (omega arith)

application-reference_value_example :
    application_value small_image 3 1 1 ≡ reference_value small_image 3 1 1
application-reference_value_example =
    application-reference_value small_image 3 0 0 (omega arith) (omega arith)

application-reference_sobel_example :
    application_sobel false small_image 3 3 small_image ≡ some (reference_sobel small_image 3)
application-reference_sobel_example =
    application-reference_sobel small_image 3 small_image (omega arith) (omega arith) refl refl

reference_sort-sort_example :
    reference_sort (70000 ∷ 3 ∷ 256 ∷ []) ≡ sort ltb (70000 ∷ 3 ∷ 256 ∷ [])
reference_sort-sort_example =
    reference_sort-sort (70000 ∷ 3 ∷ 256 ∷ []) (omega arith, (omega arith, (omega arith, tt)))

abbrev small_sort : CpuApplicationWorkload
small_sort =
    let keys = with_endpoints (random_keys 4 random_seed) in
    record (untouched k_sort small_sizes) {
      keys = keys;
      sorted = 0 ∷ 0 ∷ 0 ∷ 0 ∷ [];
      reference_keys = reference_sort keys;
    }

create-run_batch_example :
    (v : CpuApplicationWorkload) × (run_batch small_sort ≡ some (units_per_batch small_sort, v))
    × (validate v ≡ true)
    × (run_batch v ≡ some (units_per_batch small_sort, v))
unfolding create with_endpoints random_keys
create-run_batch_example =
    create-run_batch k_sort small_sizes small_sort (omega arith) (omega arith) (omega arith)
      (omega arith) refl
