-- ===== src/Workload/Sobel/Pixels.antt =====
-- The two ways to compute a pixel of the filter agree.
use rapidbench.Prelude.{
  ℕ, suc, ◌+◌, ◌-◌, ◌*◌, ◌%◌, ◌^◌, ◌≤◌, ◌<◌, ◌≡◌, refl, ap, List, arith, get_or,
}
use rapidbench.Prelude.Int.{ℤ, pos, negsuc, pos_part, neg_part, ◌+ℤ◌, ◌-ℤ◌, ◌*ℤ◌, int_laws}
use rapidbench.Workload.Sobel.{
  horizontal, vertical, kernel_cells, kernel_rows, reference_value, application_value,
}

-- A product with a number, by the parts of the other factor.
*ℤ_parts :
    (n : ℕ) (k : ℤ)
    → pos_part (pos n *ℤ k) + n * neg_part k ≡ neg_part (pos n *ℤ k) + n * pos_part k
unfolding ◌*ℤ◌
*ℤ_parts n (pos m) = ground arith
*ℤ_parts n (negsuc m) = ground arith

-- The nine terms of the convolution, and the six differences of the timed filter.
horizontal_sum :
    (a b c d e f g h i : ℕ)
    → pos 0
        +ℤ pos a *ℤ negsuc 0
        +ℤ pos b *ℤ pos 0
        +ℤ pos c *ℤ pos 1
        +ℤ pos d *ℤ negsuc 1
        +ℤ pos e *ℤ pos 0
        +ℤ pos f *ℤ pos 2
        +ℤ pos g *ℤ negsuc 0
        +ℤ pos h *ℤ pos 0
        +ℤ pos i *ℤ pos 1
      ≡ pos c -ℤ pos a +ℤ pos 2 *ℤ (pos f -ℤ pos d) +ℤ pos i -ℤ pos g
horizontal_sum a b c d e f g h i = omega (
  int_laws,
  *ℤ_parts a (negsuc 0),
  *ℤ_parts b (pos 0),
  *ℤ_parts c (pos 1),
  *ℤ_parts d (negsuc 1),
  *ℤ_parts e (pos 0),
  *ℤ_parts f (pos 2),
  *ℤ_parts g (negsuc 0),
  *ℤ_parts h (pos 0),
  *ℤ_parts i (pos 1),
  *ℤ_parts 2 (pos f -ℤ pos d),
)

vertical_sum :
    (a b c d e f g h i : ℕ)
    → pos 0
        +ℤ pos a *ℤ negsuc 0
        +ℤ pos b *ℤ negsuc 1
        +ℤ pos c *ℤ negsuc 0
        +ℤ pos d *ℤ pos 0
        +ℤ pos e *ℤ pos 0
        +ℤ pos f *ℤ pos 0
        +ℤ pos g *ℤ pos 1
        +ℤ pos h *ℤ pos 2
        +ℤ pos i *ℤ pos 1
      ≡ pos g -ℤ pos a +ℤ pos 2 *ℤ (pos h -ℤ pos b) +ℤ pos i -ℤ pos c
vertical_sum a b c d e f g h i = omega (
  int_laws,
  *ℤ_parts a (negsuc 0),
  *ℤ_parts b (negsuc 1),
  *ℤ_parts c (negsuc 0),
  *ℤ_parts d (pos 0),
  *ℤ_parts e (pos 0),
  *ℤ_parts f (pos 0),
  *ℤ_parts g (pos 1),
  *ℤ_parts h (pos 2),
  *ℤ_parts i (pos 1),
  *ℤ_parts 2 (pos h -ℤ pos b),
)

-- Where the convolution reads, by the row pointers of the timed filter.
row_of : (side j ky : ℕ) → (suc j + ky - 1) * side ≡ j * side + ky * side
row_of side j ky = let e : suc j + ky - 1 ≡ j + ky = omega arith in rw e (omega arith)

row_above : (side j : ℕ) → (suc j - 1) * side ≡ j * side
row_above side j = let e : suc j - 1 ≡ j = omega arith in rw e refl

cell_of :
    (side j i ky kx : ℕ)
    → (suc j + ky - 1) * side + suc i + kx - 1 ≡ j * side + ky * side + (i + kx)
cell_of side j i ky kx = omega (arith, row_of side j ky)

-- The index does not wrap, up to the end of row j + 2.
wrapped_cell :
    (side j i ky kx : ℕ)
    → (j + 3) * side ≤ 2 ^ 32
    → i + 2 < side
    → ky * side ≤ 2 * side
    → kx ≤ 2
    → ((suc j + ky - 1) * side + suc i + kx - 1) % 2 ^ 32 ≡ j * side + ky * side + (i + kx)
wrapped_cell side j i ky kx b l h k =
    let cell = cell_of side j i ky kx in rw cell (omega (arith, b))

module _ (input : List ℕ) (side j i : ℕ) (b : (j + 3) * side ≤ 2 ^ 32) (l : i + 2 < side) where
  abbrev at : ℕ → ℕ → ℕ
  at ky kx = get_or input (j * side + ky * side + (i + kx)) 0

  read_cell :
      (ky kx : ℕ)
      → ky * side ≤ 2 * side
      → kx ≤ 2
      → get_or input (((suc j + ky - 1) * side + suc i + kx - 1) % 2 ^ 32) 0 ≡ at ky kx
  read_cell ky kx h k = ap (λ n. get_or input n 0) (wrapped_cell side j i ky kx b l h k)

  read_top : (x kx : ℕ) → x ≡ i + kx → get_or input ((suc j - 1) * side + x) 0 ≡ at 0 kx
  read_top x kx e = ap (λ n. get_or input n 0) (omega (arith, row_above side j))

  read_middle : (x kx : ℕ) → x ≡ i + kx → get_or input ((suc j - 1) * side + side + x) 0 ≡ at 1 kx
  read_middle x kx e = ap (λ n. get_or input n 0) (omega (arith, row_above side j))

  read_bottom :
      (x kx : ℕ) → x ≡ i + kx → get_or input ((suc j - 1) * side + side + side + x) 0 ≡ at 2 kx
  read_bottom x kx e = ap (λ n. get_or input n 0) (omega (arith, row_above side j))

  horizontal_kernel :
      kernel_rows input side (suc j) (suc i) 0 horizontal (pos 0)
      ≡ pos (at 0 2)
        -ℤ pos (at 0 0)
        +ℤ pos 2 *ℤ (pos (at 1 2) -ℤ pos (at 1 0))
        +ℤ pos (at 2 2)
        -ℤ pos (at 2 0)
  unfolding kernel_rows kernel_cells
  horizontal_kernel =
      rw
        (
          read_cell 0 0 (omega arith) (omega arith),
          read_cell 0 1 (omega arith) (omega arith),
          read_cell 0 2 (omega arith) (omega arith),
          read_cell 1 0 (omega arith) (omega arith),
          read_cell 1 1 (omega arith) (omega arith),
          read_cell 1 2 (omega arith) (omega arith),
          read_cell 2 0 (omega arith) (omega arith),
          read_cell 2 1 (omega arith) (omega arith),
          read_cell 2 2 (omega arith) (omega arith),
        )
        (horizontal_sum (at 0 0) (at 0 1) (at 0 2) (at 1 0) (at 1 1) (at 1 2) (at 2 0) (at 2 1)
          (at 2 2))

  vertical_kernel :
      kernel_rows input side (suc j) (suc i) 0 vertical (pos 0)
      ≡ pos (at 2 0)
        -ℤ pos (at 0 0)
        +ℤ pos 2 *ℤ (pos (at 2 1) -ℤ pos (at 0 1))
        +ℤ pos (at 2 2)
        -ℤ pos (at 0 2)
  unfolding kernel_rows kernel_cells
  vertical_kernel =
      rw
        (
          read_cell 0 0 (omega arith) (omega arith),
          read_cell 0 1 (omega arith) (omega arith),
          read_cell 0 2 (omega arith) (omega arith),
          read_cell 1 0 (omega arith) (omega arith),
          read_cell 1 1 (omega arith) (omega arith),
          read_cell 1 2 (omega arith) (omega arith),
          read_cell 2 0 (omega arith) (omega arith),
          read_cell 2 1 (omega arith) (omega arith),
          read_cell 2 2 (omega arith) (omega arith),
        )
        (vertical_sum (at 0 0) (at 0 1) (at 0 2) (at 1 0) (at 1 1) (at 1 2) (at 2 0) (at 2 1)
          (at 2 2))

-- Away from the border, ApplicationSobel's value for a pixel is ReferenceSobel's, where the row below
-- the pixel ends within 2^32 cells.
pub application-reference_value :
    (input : List ℕ) (side j i : ℕ)
    → (j + 3) * side ≤ 2 ^ 32
    → i + 2 < side
    → application_value input side (suc j) (suc i) ≡ reference_value input side (suc j) (suc i)
unfolding application_value reference_value
application-reference_value input side j i b l =
    rw (horizontal_kernel input side j i b l, vertical_kernel input side j i b l)
      (cc (
        read_top input side j i b l (suc i + 1) 2 (omega arith),
        read_top input side j i b l (suc i - 1) 0 (omega arith),
        read_top input side j i b l (suc i) 1 (omega arith),
        read_middle input side j i b l (suc i + 1) 2 (omega arith),
        read_middle input side j i b l (suc i - 1) 0 (omega arith),
        read_bottom input side j i b l (suc i + 1) 2 (omega arith),
        read_bottom input side j i b l (suc i - 1) 0 (omega arith),
        read_bottom input side j i b l (suc i) 1 (omega arith),
      ))
