-- ===== src/Workload/Sobel/Rows.antt =====
-- Images row by row: what the loops that write cells do to a part of the output.
use mathlib.Core.List.{append_assoc}
use rapidbench.Prelude.{
  ℕ, zero, suc, ◌+◌, ◌%◌, ◌^◌, ◌≤◌, ◌<◌, ◌≡◌, refl, sym, ap, ◌∙◌, List, [], ◌∷◌, ◌++◌, arith,
  length, set, length-append, length-set, replicate,
}
use rapidbench.Workload.Sobel.{write_cells, reference_cells, zero_value}

-- A write behind a front part.
pub set-append :
    (front rest : List ℕ) (i n v : ℕ)
    → n ≡ length front + i
    → set (front ++ rest) n v ≡ front ++ set rest i v
set-append [] rest i n v e = let same : n ≡ i = omega arith in ap (λ k. set rest k v) same
set-append (x ∷ front) rest i zero v e = absurd (omega arith)
set-append (x ∷ front) rest i (suc n) v e = ap (◌∷◌ x) (set-append front rest i n v (omega arith))

-- The cells that the loop writes.
unfoldable pub cells : ℕ → ℕ → (ℕ → ℕ) → List ℕ
cells zero x value = []
cells (suc left) x value = value x ∷ cells left (x + 1) value

pub length-cells : (left x : ℕ) (value : ℕ → ℕ) → length (cells left x value) ≡ left
unfolding cells
length-cells zero x value = refl
length-cells (suc left) x value = ap suc (length-cells left (x + 1) value)

-- The loop replaces a segment of as many cells as it has rounds.
pub write_cells-segment :
    (left x base : ℕ) (value : ℕ → ℕ) (front old rest : List ℕ)
    → length front ≡ base + x
    → length old ≡ left
    → write_cells left x base value (front ++ (old ++ rest)) ≡ front ++ (cells left x value ++ rest)
unfolding write_cells cells
write_cells-segment zero x base value front [] rest f o = refl
write_cells-segment zero x base value front (c ∷ old) rest f o = absurd (omega arith)
write_cells-segment (suc left) x base value front [] rest f o = absurd (omega arith)
write_cells-segment (suc left) x base value front (c ∷ old) rest f o =
    ap (write_cells left (x + 1) base value) (
      set-append front (c ∷ (old ++ rest)) 0 (base + x) (value x) (omega arith)
      ∙ sym (append_assoc front (value x ∷ []) (old ++ rest)))
    ∙ write_cells-segment left (x + 1) base value (front ++ (value x ∷ [])) old rest
        (omega (arith, length-append front (value x ∷ []))) (omega arith)
    ∙ append_assoc front (value x ∷ []) (cells left (x + 1) value ++ rest)

pub cells-zero : (left x : ℕ) → cells left x zero_value ≡ replicate left 0
unfolding cells
cells-zero zero x = refl
cells-zero (suc left) x = ap (◌∷◌ 0) (cells-zero left (x + 1))

pub cells-ext :
    (left x : ℕ) (f g : ℕ → ℕ)
    → ((n : ℕ) → x ≤ n → n < x + left → f n ≡ g n)
    → cells left x f ≡ cells left x g
unfolding cells
cells-ext zero x f g h = refl
cells-ext (suc left) x f g h = cc (
  h x (omega arith) (omega arith),
  cells-ext left (x + 1) f g (λ n p q. h n (omega arith) (omega arith)),
)

-- The writes of the reference do not wrap on the first 2^32 cells.
pub reference_cells-write_cells :
    (left x base : ℕ) (value : ℕ → ℕ) (out : List ℕ)
    → base + x + left ≤ 2 ^ 32
    → reference_cells left x base value out ≡ write_cells left x base value out
unfolding reference_cells write_cells
reference_cells-write_cells zero x base value out b = refl
reference_cells-write_cells (suc left) x base value out b =
    let index : (base + x) % 2 ^ 32 ≡ base + x = omega arith in
    ap (λ n. reference_cells left (x + 1) base value (set out n (value x))) index
    ∙ reference_cells-write_cells left (x + 1) base value (set out (base + x) (value x))
        (omega arith)

pub length-reference_cells :
    (left x base : ℕ) (value : ℕ → ℕ) (out : List ℕ)
    → length (reference_cells left x base value out) ≡ length out
unfolding reference_cells
length-reference_cells zero x base value out = refl
length-reference_cells (suc left) x base value out =
    length-reference_cells left (x + 1) base value (set out ((base + x) % 2 ^ 32) (value x))
    ∙ length-set out ((base + x) % 2 ^ 32) (value x)
