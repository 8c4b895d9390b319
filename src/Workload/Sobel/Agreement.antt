-- ===== src/Workload/Sobel/Agreement.antt =====
-- ApplicationSobel computes ReferenceSobel.
use mathlib.Core.List.{append-nil, append_assoc}
use rapidbench.Prelude.{
  ℕ, ◌+◌, ◌-◌, ◌*◌, ◌^◌, ◌≤◌, ◌≡◌, sym, ap, ◌∙◌, false, some, List, [], ◌++◌, arith, length,
  length-append, length-replicate, replicate-add, length-drop, replicate, take, drop,
  take-append-drop, length-take,
}
use rapidbench.Workload.Sobel.{
  write_cells, zero_value, reference_rows, reference_sobel, application_rows, application_sobel,
}
use rapidbench.Workload.Sobel.Rows.{cells, write_cells-segment, cells-zero}
use rapidbench.Workload.Sobel.Lines.{lines, application_rows-lines, reference_rows-lines}

-- The whole result.
picture : List ℕ → ℕ → List ℕ
picture input side = replicate side 0 ++ (lines input side (side - 2) 1 ++ replicate side 0)

square_rows : (side : ℕ) → 3 ≤ side → side * side ≡ side + ((side - 2) * side + side)
square_rows side h = let e : side ≡ side - 2 + 2 = omega arith in ap (λ n. n * side) e ∙ omega arith

all_rows : (side : ℕ) → 3 ≤ side → side * side ≤ 2 ^ 32 → (1 + (side - 2) + 1) * side ≤ 2 ^ 32
all_rows side h b = let e : 1 + (side - 2) + 1 ≡ side = omega arith in rw e b

reference_sobel-picture :
    (input : List ℕ) (side : ℕ)
    → 3 ≤ side
    → side * side ≤ 2 ^ 32
    → length input ≡ side * side
    → reference_sobel input side ≡ picture input side
unfolding reference_sobel picture
reference_sobel-picture input side h b l =
    ap (λ n. reference_rows input side (side - 2) 1 (replicate n 0)) (l ∙ square_rows side h)
    ∙ ap (reference_rows input side (side - 2) 1) (
        replicate-add side ((side - 2) * side + side) 0
        ∙ ap (◌++◌ (replicate side 0)) (replicate-add ((side - 2) * side) side 0))
    ∙ reference_rows-lines input side (side - 2) 1 (replicate side 0) (replicate side 0) h
        (all_rows side h b) (length-replicate side 0 ∙ omega arith)

application_rows-picture :
    (input : List ℕ) (side : ℕ) (middle : List ℕ)
    → 3 ≤ side
    → side * side ≤ 2 ^ 32
    → length middle ≡ (side - 2) * side
    → application_rows input side (side - 2) 1 (replicate side 0 ++ (middle ++ replicate side 0))
      ≡ picture input side
unfolding picture
application_rows-picture input side middle h b m =
    application_rows-lines input side (side - 2) 1 (replicate side 0) middle (replicate side 0) h
      (omega arith) (all_rows side h b) (length-replicate side 0 ∙ omega arith) m

-- The two loops that clear the first and the last row.
clear_ends :
    (side n : ℕ) (top middle bottom : List ℕ)
    → length top ≡ side
    → length bottom ≡ side
    → n ≡ length (top ++ (middle ++ bottom))
    → write_cells side 0
        (n - side)
        zero_value
        (write_cells side 0 0 zero_value (top ++ (middle ++ bottom)))
      ≡ replicate side 0 ++ (middle ++ replicate side 0)
clear_ends side n top middle bottom t b e =
    let clear = replicate {A = ℕ} side 0 in
    ap (write_cells side 0 (n - side) zero_value) (
      write_cells-segment side 0 0 zero_value [] top (middle ++ bottom) (omega arith) t
      ∙ ap (λ c. c ++ (middle ++ bottom)) (cells-zero side 0)
      ∙ sym (append_assoc clear middle bottom)
      ∙ ap (λ s. (clear ++ middle) ++ s) (sym (append-nil bottom)))
    ∙ write_cells-segment side 0 (n - side) zero_value (clear ++ middle) bottom []
        (omega (
          arith,
          length-append top (middle ++ bottom),
          length-append middle bottom,
          length-append clear middle,
          length-replicate {A = ℕ} side 0,
        ))
        b
    ∙ ap (λ s. (clear ++ middle) ++ s) (append-nil (cells side 0 zero_value) ∙ cells-zero side 0)
    ∙ append_assoc clear middle clear

application_sobel-runs :
    (input : List ℕ) (side : ℕ) (output : List ℕ)
    → 3 ≤ side
    → side * side ≡ length input
    → length output ≡ length input
    → application_sobel false input side side output
      ≡ some (
          application_rows input side (side - 2) 1 (
            write_cells side 0
              (length output - side)
              zero_value
              (write_cells side 0 0 zero_value output)))
unfolding application_sobel
application_sobel-runs input side output h l o = ground arith

-- On a square image of side 3 or more and of at most 2^32 pixels, ApplicationSobel accepts every output vector of the image's
-- size that is not the input itself, and whatever that held leaves in it exactly the picture that
-- ReferenceSobel computes.
pub application-reference_sobel :
    (input : List ℕ) (side : ℕ) (output : List ℕ)
    → 3 ≤ side
    → side * side ≤ 2 ^ 32
    → length input ≡ side * side
    → length output ≡ length input
    → application_sobel false input side side output ≡ some (reference_sobel input side)
application-reference_sobel input side output h b l o =
    let inner = (side - 2) * side in
    let top = take side output in
    let below = drop side output in
    let total = square_rows side h in
    let size = length-drop side output in
    application_sobel-runs input side output h (sym l) o
    ∙ ap some (
        ap
          (λ s. application_rows input side (side - 2) 1 (
            write_cells side 0 (length output - side) zero_value
              (write_cells side 0 0 zero_value s)))
          (sym (take-append-drop side output) ∙ ap (◌++◌ top) (sym (take-append-drop inner below)))
        ∙ ap (application_rows input side (side - 2) 1) (
            clear_ends side (length output) top (take inner below) (drop inner below)
              (length-take side output ∙ omega (arith, total, l, o))
              (length-drop inner below ∙ omega (arith, total, l, o, size))
              (ap length (
                sym (ap (◌++◌ top) (take-append-drop inner below) ∙ take-append-drop side output))))
        ∙ application_rows-picture input side (take inner below) h b
            (length-take inner below ∙ omega (arith, total, l, o, size))
        ∙ sym (reference_sobel-picture input side h b l))
