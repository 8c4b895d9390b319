-- ===== src/Workload/Sobel.antt =====
-- native/benchmark_core/src/cpu_application_workload.cpp: ApplicationSobel, the filter that is
-- timed, and ReferenceSobel, the scalar convolution that it is checked against. An image is the
-- list of its bytes, row by row. The sums stay far inside an `int`, so that they are integers here.
pub mod Pixels
pub mod Rows
pub mod Lines
pub mod Agreement
use rapidbench.Prelude.{
  ℕ, zero, suc, ◌+◌, ◌-◌, ◌*◌, ◌%◌, ◌^◌, Bool, true, false, not, ◌&&◌, ◌||◌, Option, none, some,
  List, [], ◌∷◌, min, ltb, ◌==◌, if◌then◌else◌, length, get_or, set, replicate,
}
use rapidbench.Prelude.Int.{ℤ, pos, negsuc, pos_part, neg_part, ◌+ℤ◌, ◌-ℤ◌, ◌*ℤ◌}

abbrev pub pixel : List ℕ → ℕ → ℤ
pixel input index = pos (get_or input index 0)

-- `std::abs`.
abbrev pub magnitude : ℤ → ℕ
magnitude a = pos_part a + neg_part a

abbrev pub clamp_sum : ℤ → ℤ → ℕ
clamp_sum gx gy = min 255 (magnitude gx + magnitude gy)

-- `for (x = …; …; ++x) out[x] = value(x)`, where `out` begins at `base`.
unfoldable pub write_cells : ℕ → ℕ → ℕ → (ℕ → ℕ) → List ℕ → List ℕ
write_cells zero x base value out = out
write_cells (suc left) x base value out =
    write_cells left (x + 1) base value (set out (base + x) (value x))

-- The coefficients of ReferenceSobel.
abbrev pub horizontal : List (List ℤ)
horizontal =
    (negsuc 0 ∷ pos 0 ∷ pos 1 ∷ [])
    ∷ (negsuc 1 ∷ pos 0 ∷ pos 2 ∷ [])
    ∷ (negsuc 0 ∷ pos 0 ∷ pos 1 ∷ [])
    ∷ []

abbrev pub vertical : List (List ℤ)
vertical =
    (negsuc 0 ∷ negsuc 1 ∷ negsuc 0 ∷ [])
    ∷ (pos 0 ∷ pos 0 ∷ pos 0 ∷ [])
    ∷ (pos 1 ∷ pos 2 ∷ pos 1 ∷ [])
    ∷ []

-- The loop over `kx`, with the coefficients that are left. The index is a 32-bit word.
unfoldable pub kernel_cells : List ℕ → ℕ → ℕ → ℕ → ℕ → ℕ → List ℤ → ℤ → ℤ
kernel_cells input side y x ky kx [] sum = sum
kernel_cells input side y x ky kx (k ∷ ks) sum =
    kernel_cells input side y x ky (kx + 1) ks
      (sum +ℤ pixel input (((y + ky - 1) * side + x + kx - 1) % 2 ^ 32) *ℤ k)

-- The loop over `ky`.
unfoldable pub kernel_rows : List ℕ → ℕ → ℕ → ℕ → ℕ → List (List ℤ) → ℤ → ℤ
kernel_rows input side y x ky [] sum = sum
kernel_rows input side y x ky (row ∷ rows) sum =
    kernel_rows input side y x (ky + 1) rows (kernel_cells input side y x ky 0 row sum)

unfoldable pub reference_value : List ℕ → ℕ → ℕ → ℕ → ℕ
reference_value input side y x =
    clamp_sum (kernel_rows input side y x 0 horizontal (pos 0))
      (kernel_rows input side y x 0 vertical (pos 0))

-- The writes of ReferenceSobel's loop over `x`, whose index is a 32-bit word.
unfoldable pub reference_cells : ℕ → ℕ → ℕ → (ℕ → ℕ) → List ℕ → List ℕ
reference_cells zero x base value out = out
reference_cells (suc left) x base value out =
    reference_cells left (x + 1) base value (set out ((base + x) % 2 ^ 32) (value x))

-- The loop over `y`, with the rows that are left.
unfoldable pub reference_rows : List ℕ → ℕ → ℕ → ℕ → List ℕ → List ℕ
reference_rows input side zero y out = out
reference_rows input side (suc left) y out =
    reference_rows input side left (y + 1)
      (reference_cells (side - 2) 1 (y * side) (reference_value input side y) out)

unfoldable pub reference_sobel : List ℕ → ℕ → List ℕ
reference_sobel input side = reference_rows input side (side - 2) 1 (replicate (length input) 0)

-- The value that ApplicationSobel writes, by its three row pointers.
unfoldable pub application_value : List ℕ → ℕ → ℕ → ℕ → ℕ
application_value input width y x =
    let top = (y - 1) * width in
    let middle = top + width in
    let bottom = middle + width in
    let gx =
      pixel input (top + (x + 1))
      -ℤ pixel input (top + (x - 1))
      +ℤ pos 2 *ℤ (pixel input (middle + (x + 1)) -ℤ pixel input (middle + (x - 1)))
      +ℤ pixel input (bottom + (x + 1))
      -ℤ pixel input (bottom + (x - 1)) in
    let gy =
      pixel input (bottom + (x - 1))
      -ℤ pixel input (top + (x - 1))
      +ℤ pos 2 *ℤ (pixel input (bottom + x) -ℤ pixel input (top + x))
      +ℤ pixel input (bottom + (x + 1))
      -ℤ pixel input (top + (x + 1)) in
    clamp_sum gx gy

unfoldable pub application_rows : List ℕ → ℕ → ℕ → ℕ → List ℕ → List ℕ
application_rows input width zero y out = out
application_rows input width (suc left) y out =
    let bordered = set (set out (y * width + (width - 1)) 0) (y * width) 0 in
    application_rows input width left (y + 1)
      (write_cells (width - 2) 1 (y * width) (application_value input width y) bordered)

abbrev zero_value : ℕ → ℕ
zero_value x = 0

-- `none` is the exception. `aliased` says that the output is the input's own vector.
unfoldable pub application_sobel : Bool → List ℕ → ℕ → ℕ → List ℕ → Option (List ℕ)
application_sobel aliased input width height output =
    if aliased
      || ltb width 3
      || ltb height 3
      || not (width * height == length input)
      || not (length output == length input)
    then none
    else (let first = write_cells width 0 0 zero_value output in
        let last = write_cells width 0 (length output - width) zero_value first in
        some (application_rows input width (height - 2) 1 last))
