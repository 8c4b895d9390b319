-- ===== src/Workload/Application/Inputs.antt =====
-- The inputs that the constructor of CpuApplicationWorkload makes.
use Prim.Native.Nat.{bit_xor}
use rapidbench.Prelude.{
  ℕ, zero, suc, ◌+◌, ◌-◌, ◌*◌, ◌/◌, ◌%◌, ◌^◌, ◌<◌, ◌≡◌, refl, ◌∙◌, List, [], ◌∷◌, arith, length,
  length-set, length-replicate, get_or, set, replicate, All,
}
use rapidbench.Prelude.Xor.{bit_xor-lt}
use rapidbench.Workload.Words.{u32_mod, next}
use rapidbench.Workload.Application.{
  random_keys, with_endpoints, image_row, image_rows, image_corpus,
}

next-lt : (state : ℕ) → state < 2 ^ 32 → next state < 2 ^ 32
unfolding next
next-lt state h =
    let first = state * 2 ^ 13 % u32_mod in
    let x = bit_xor state first in
    let a : x < 2 ^ 32 = bit_xor-lt 32 state first h (omega arith) in
    let second = x / 2 ^ 17 in
    let y = bit_xor x second in
    let b : y < 2 ^ 32 = bit_xor-lt 32 x second a (omega arith) in
    bit_xor-lt 32 y (y * 2 ^ 5 % u32_mod) b (omega arith)

random_keys-All :
    (left random : ℕ) → random < 2 ^ 32 → All (λ x. x < u32_mod) (random_keys left random)
unfolding random_keys
random_keys-All zero random h = tt
random_keys-All (suc left) random h =
    let below = next-lt random h in (below, random_keys-All left (next random) below)

set-All {κ} : (P : ℕ → Type κ) (xs : List ℕ) (i v : ℕ) → P v → All P xs → All P (set xs i v)
set-All P [] i v p h = tt
set-All P (x ∷ xs) zero v p h = (p, h.1)
set-All P (x ∷ xs) (suc i) v p h = (h.0, set-All P xs i v p h.1)

get_or-All {κ} : (P : ℕ → Type κ) (xs : List ℕ) (i v : ℕ) → P v → All P xs → P (get_or xs i v)
get_or-All P [] i v p h = p
get_or-All P (x ∷ xs) zero v p h = h.0
get_or-All P (x ∷ xs) (suc i) v p h = get_or-All P xs i v p h.1

-- The keys are 32-bit words.
pub keys-All :
    (left random : ℕ)
    → random < 2 ^ 32
    → All (λ x. x < u32_mod) (with_endpoints (random_keys left random))
unfolding with_endpoints
keys-All left random h =
    let P : ℕ → Type 0 = λ x. x < u32_mod in
    let keys = random_keys left random in
    let ends =
      set-All P (set keys 0 0) 1 (u32_mod - 1) (omega arith)
        (set-All P keys 0 0 (omega arith) (random_keys-All left random h)) in
    set-All P _ 2 _ (get_or-All P _ 3 0 (omega arith) ends) ends

length-image_row :
    (side y left x : ℕ) (state : List ℕ × ℕ)
    → length (image_row side y left x state).0 ≡ length state.0
unfolding image_row
length-image_row side y zero x state = refl
length-image_row side y (suc left) x (image, random) =
    length-image_row side y left (x + 1) _ ∙ length-set image ((y * side + x) % 2 ^ 32) _

length-image_rows :
    (side left y : ℕ) (state : List ℕ × ℕ)
    → length (image_rows side left y state).0 ≡ length state.0
unfolding image_rows
length-image_rows side zero y state = refl
length-image_rows side (suc left) y state =
    length-image_rows side left (y + 1) (image_row side y side 0 state)
    ∙ length-image_row side y side 0 state

pub length-image_corpus : (side random : ℕ) → length (image_corpus side random) ≡ side * side
unfolding image_corpus
length-image_corpus side random =
    length-image_rows side side 0 (replicate {A = ℕ} (side * side) 0, random)
    ∙ length-replicate {A = ℕ} (side * side) 0
