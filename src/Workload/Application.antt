-- ===== src/Workload/Application.antt =====
-- native/benchmark_core/src/cpu_application_workload.cpp: the class CpuApplicationWorkload. The
-- sizes of its three inputs are an argument, since nothing depends on the ones it is built with.
pub mod Inputs
pub mod Batch
use Prim.Native.Nat.{bit_xor}
use rapidbench.Prelude.{
  ℕ, zero, suc, ◌+◌, ◌-◌, ◌*◌, ◌/◌, ◌%◌, ◌^◌, Bool, true, false, ◌&&◌, Option, none, some, List, [],
  ◌∷◌, ◌++◌, ltb, ◌==◌, length, get_or, set, drop, replicate,
}
use rapidbench.Prelude.Sort.{sort}
use rapidbench.Workload.Words.{u32_mod, next, hash, hash_seed}
use rapidbench.Workload.Json.{JsonRecordSummary, no_rows, summary_eq, parse_application_json, ◌>>=◌}
use rapidbench.Workload.Json.Corpus.{json_corpus}
use rapidbench.Workload.Sobel.{application_sobel, reference_sobel}
use rapidbench.Workload.Radix.{reference_sort}

-- The enumerators, and any other value that an integer is cast to.
pub data CpuApplicationTest : Type 0 where
  k_sort : CpuApplicationTest
  k_json : CpuApplicationTest
  k_sobel : CpuApplicationTest
  k_other : CpuApplicationTest

pub record Sizes : Type 0 where
  pub sort_keys : ℕ
  pub json_rows : ℕ
  pub image_side : ℕ

abbrev pub application_sizes : Sizes
application_sizes = record { sort_keys = 65536; json_rows = 8192; image_side = 1024 }

pub record CpuApplicationWorkload : Type 0 where
  pub test : CpuApplicationTest
  pub keys : List ℕ
  pub sorted : List ℕ
  pub reference_keys : List ℕ
  pub json : List ℕ
  pub parsed : JsonRecordSummary
  pub reference_json : JsonRecordSummary
  pub parse_valid : Bool
  pub side : ℕ
  pub image : List ℕ
  pub filtered : List ℕ
  pub reference_image : List ℕ

abbrev pub untouched : CpuApplicationTest → Sizes → CpuApplicationWorkload
untouched test sizes = record {
  test = test;
  keys = [];
  sorted = [];
  reference_keys = [];
  json = [];
  parsed = no_rows;
  reference_json = no_rows;
  parse_valid = false;
  side = sizes.image_side;
  image = [];
  filtered = [];
  reference_image = [];
}

abbrev pub random_seed : ℕ
random_seed = 1916883017

-- `key = Next(&random)` for every key.
unfoldable pub random_keys : ℕ → ℕ → List ℕ
random_keys zero random = []
random_keys (suc left) random = next random ∷ random_keys left (next random)

-- The duplicates and the endpoints of the range. Of fewer than four keys the source would be undefined.
unfoldable pub with_endpoints : List ℕ → List ℕ
with_endpoints keys = let ends = set (set keys 0 0) 1 (u32_mod - 1) in set ends 2 (get_or ends 3 0)

-- The loop over `x`: the image and the state of the generator. The index is a 32-bit word.
unfoldable pub image_row : ℕ → ℕ → ℕ → ℕ → List ℕ × ℕ → List ℕ × ℕ
image_row side y zero x state = state
image_row side y (suc left) x (image, random) =
    let random' = next random in
    image_row side y left (x + 1)
      (set image ((y * side + x) % 2 ^ 32) ((3 * x + 5 * y + random' % 8) % 256), random')

-- The loop over `y`.
unfoldable pub image_rows : ℕ → ℕ → ℕ → List ℕ × ℕ → List ℕ × ℕ
image_rows side zero y state = state
image_rows side (suc left) y state = image_rows side left (y + 1) (image_row side y side 0 state)

unfoldable pub image_corpus : ℕ → ℕ → List ℕ
image_corpus side random = (image_rows side side 0 (replicate (side * side) 0, random)).0

-- The constructor; `none` is the exception.
unfoldable pub create : CpuApplicationTest → Sizes → Option CpuApplicationWorkload
create k_sort sizes =
    let keys = with_endpoints (random_keys sizes.sort_keys random_seed) in
    some (record (untouched k_sort sizes) {
      keys = keys;
      sorted = replicate (length keys) 0;
      reference_keys = reference_sort keys;
    })
create k_json sizes =
    let corpus = json_corpus sizes.json_rows random_seed in
    some (record (untouched k_json sizes) { json = corpus.json; reference_json = corpus.reference })
create k_sobel sizes =
    let image = image_corpus sizes.image_side random_seed in
    some (record (untouched k_sobel sizes) {
      image = image;
      filtered = replicate (length image) 0;
      reference_image = reference_sobel image sizes.image_side;
    })
create k_other sizes = none

-- The switch of UnitsPerBatch.
unfoldable pub units_of : CpuApplicationTest → CpuApplicationWorkload → ℕ
units_of k_sort w = length w.keys
units_of k_json w = length w.json
units_of k_sobel w = length w.image
units_of k_other w = 0

abbrev pub units_per_batch : CpuApplicationWorkload → ℕ
units_per_batch w = units_of w.test w

unfoldable pub input_bytes : CpuApplicationWorkload → ℕ
input_bytes w = elim (w.test) [
  | k_sort ↦ length w.keys * 4
  | k_json ↦ units_per_batch w
  | k_sobel ↦ units_per_batch w
  | k_other ↦ units_per_batch w
]

-- `std::copy` into the front of a vector.
abbrev pub copy_into : List ℕ → List ℕ → List ℕ
copy_into source target = source ++ drop (length source) target

-- The switch of RunBatch; `none` is the exception of ApplicationSobel.
unfoldable pub run_work :
    CpuApplicationTest → CpuApplicationWorkload → Option CpuApplicationWorkload
run_work k_sort w = some (record w { sorted = sort ltb (copy_into w.keys w.sorted) })
run_work k_json w =
    let (valid, parsed) = parse_application_json w.json w.parsed in
    some (record w { parse_valid = valid; parsed = parsed })
run_work k_sobel w = application_sobel false w.image w.side w.side w.filtered >>= λ filtered.
    some (record w { filtered = filtered })
run_work k_other w = some w

unfoldable pub run_batch : CpuApplicationWorkload → Option (ℕ × CpuApplicationWorkload)
run_batch w = run_work w.test w >>= λ w'. some (units_per_batch w', w')

-- `==` on vectors.
unfoldable pub list_eq : List ℕ → List ℕ → Bool
list_eq [] [] = true
list_eq [] (y ∷ ys) = false
list_eq (x ∷ xs) [] = false
list_eq (x ∷ xs) (y ∷ ys) = (x == y) && list_eq xs ys

-- The switch of Validate.
unfoldable pub validate_output : CpuApplicationTest → CpuApplicationWorkload → Bool
validate_output k_sort w = list_eq w.sorted w.reference_keys
validate_output k_json w = w.parse_valid && summary_eq w.parsed w.reference_json
validate_output k_sobel w = list_eq w.filtered w.reference_image
validate_output k_other w = false

abbrev pub validate : CpuApplicationWorkload → Bool
validate w = validate_output w.test w

unfoldable pub digest : CpuApplicationWorkload → ℕ
digest w = elim (w.test) [
  | k_sort ↦ hash hash_seed w.sorted
  | k_json ↦ bit_xor (bit_xor w.parsed.name_hash w.parsed.id_sum) w.parsed.value_sum
  | k_sobel ↦ hash hash_seed w.filtered
  | k_other ↦ hash hash_seed w.filtered
]
