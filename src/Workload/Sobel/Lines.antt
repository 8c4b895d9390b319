-- ===== src/Workload/Sobel/Lines.antt =====
-- The rows that both filters write, as lines of a picture.
use mathlib.Core.List.{append_assoc}
use rapidbench.Prelude.{
  ℕ, ◌^◌, ◌<◌, zero, suc, ◌+◌, ◌-◌, ◌*◌, ◌≤◌, ◌<◌, ◌≡◌, refl, sym, ap, ◌∙◌, List, [], ◌∷◌, ◌++◌,
  arith, length, set, length-append, length-replicate, replicate-add, length-drop, replicate, take,
  drop, take-append-drop, length-take,
}
use rapidbench.Workload.Sobel.{
  write_cells, reference_cells, reference_value, reference_rows, application_value,
  application_rows,
}
use rapidbench.Workload.Sobel.Pixels.{application-reference_value}
use rapidbench.Workload.Sobel.Rows.{
  set-append, cells, length-cells, write_cells-segment, cells-ext, reference_cells-write_cells,
}

-- A row of the result: a border cell on either side of the computed ones.
line : List ℕ → ℕ → ℕ → List ℕ
line input side y = 0 ∷ (cells (side - 2) 1 (reference_value input side y) ++ (0 ∷ []))

-- The rows of the result from one on.
pub lines : List ℕ → ℕ → ℕ → ℕ → List ℕ
lines input side zero y = []
lines input side (suc left) y = line input side y ++ lines input side left (y + 1)

-- The two groupings of a row that stands in an image.
regroup :
    (front middle rest : List ℕ) (a b : ℕ)
    → front ++ ((a ∷ (middle ++ (b ∷ []))) ++ rest) ≡ (front ++ (a ∷ [])) ++ (middle ++ (b ∷ rest))
regroup front middle rest a b = simp append_assoc

-- A row's loop of the reference turns a row with clear borders into a row of the result.
reference_row :
    (input : List ℕ) (side y : ℕ) (front middle rest : List ℕ)
    → (y + 1) * side ≤ 2 ^ 32
    → 3 ≤ side
    → length front ≡ y * side
    → length middle ≡ side - 2
    → reference_cells
        (side - 2)
        1
        (y * side)
        (reference_value input side y)
        (front ++ ((0 ∷ (middle ++ (0 ∷ []))) ++ rest))
      ≡ front ++ (line input side y ++ rest)
unfolding line
reference_row input side y front middle rest b h f m =
    let value = reference_value input side y in
    reference_cells-write_cells (side - 2) 1 (y * side) value
      (front ++ ((0 ∷ (middle ++ (0 ∷ []))) ++ rest)) (omega (arith, b))
    ∙ ap (write_cells (side - 2) 1 (y * side) value) (regroup front middle rest 0 0)
    ∙ write_cells-segment (side - 2) 1 (y * side) value (front ++ (0 ∷ [])) middle (0 ∷ rest)
        (omega (arith, length-append front (0 ∷ []))) m
    ∙ sym (regroup front (cells (side - 2) 1 value) rest 0 0)

same_values :
    (input : List ℕ) (side y n : ℕ)
    → 0 < y
    → (y + 2) * side ≤ 2 ^ 32
    → 1 ≤ n
    → n + 1 < side
    → application_value input side y n ≡ reference_value input side y n
same_values input side zero n h b p l = absurd (omega arith)
same_values input side (suc j) zero h b p l = absurd (omega arith)
same_values input side (suc j) (suc i) h b p l =
    application-reference_value input side j i (omega (arith, b)) (omega arith)

-- A list of two elements at least, by its ends.
ends_of :
    (xs : List ℕ) (n : ℕ)
    → length xs ≡ suc n
    → (middle : List ℕ) × (b : ℕ) × (xs ≡ middle ++ (b ∷ [])) × (length middle ≡ n)
ends_of [] n h = absurd (omega arith)
ends_of (x ∷ []) n h = ([], x, refl, omega arith)
ends_of (x ∷ y ∷ ys) zero h = absurd (omega arith)
ends_of (x ∷ y ∷ ys) (suc n) h =
    let (middle, b, e, l) = ends_of (y ∷ ys) n (omega arith) in
    (x ∷ middle, b, ap (◌∷◌ x) e, ap suc l)

-- The two border writes of a row.
borders :
    (base side : ℕ) (front middle rest : List ℕ) (a b : ℕ)
    → length front ≡ base
    → length middle + 2 ≡ side
    → set (set (front ++ ((a ∷ (middle ++ (b ∷ []))) ++ rest)) (base + (side - 1)) 0) base 0
      ≡ front ++ ((0 ∷ (middle ++ (0 ∷ []))) ++ rest)
borders base side front middle rest a b f m =
    ap (λ l. set l base 0)
      (ap (λ l. set l (base + (side - 1)) 0) (regroup_last a b)
        ∙ set-append (front ++ (a ∷ middle)) (b ∷ rest) 0 (base + (side - 1)) 0
            (omega (arith, length-append front (a ∷ middle)))
        ∙ sym (regroup_last a 0))
    ∙ set-append front ((a ∷ (middle ++ (0 ∷ []))) ++ rest) 0 base 0 (omega arith)
  where
    regroup_last :
        (u v : ℕ)
        → front ++ ((u ∷ (middle ++ (v ∷ []))) ++ rest) ≡ (front ++ (u ∷ middle)) ++ (v ∷ rest)
    regroup_last u v = simp append_assoc

-- A row's round of the timed filter, whatever the row held.
application_row :
    (input : List ℕ) (side y : ℕ) (front old rest : List ℕ)
    → 3 ≤ side
    → 0 < y
    → (y + 2) * side ≤ 2 ^ 32
    → length front ≡ y * side
    → length old ≡ side
    → write_cells
        (side - 2)
        1
        (y * side)
        (application_value input side y)
        (set (set (front ++ (old ++ rest)) (y * side + (side - 1)) 0) (y * side) 0)
      ≡ front ++ (line input side y ++ rest)
unfolding line
application_row input side y front [] rest h p b f o = absurd (omega arith)
application_row input side y front (a ∷ old) rest h p most f o =
    let (middle, b, e, l) = ends_of old (side - 2) (omega arith) in
    let value = application_value input side y in
    ap
      (λ s.
        write_cells (side - 2) 1 (y * side) value
          (set (set (front ++ ((a ∷ s) ++ rest)) (y * side + (side - 1)) 0) (y * side) 0))
      e
    ∙ ap (write_cells (side - 2) 1 (y * side) value) (
        borders (y * side) side front middle rest a b f (omega arith)
        ∙ regroup front middle rest 0 0)
    ∙ write_cells-segment (side - 2) 1 (y * side) value (front ++ (0 ∷ [])) middle (0 ∷ rest)
        (omega (arith, length-append front (0 ∷ []))) l
    ∙ ap (λ c. (front ++ (0 ∷ [])) ++ (c ++ (0 ∷ rest)))
        (cells-ext (side - 2) 1 value (reference_value input side y)
          (λ n q r. same_values input side y n p most q (omega arith)))
    ∙ sym (regroup front (cells (side - 2) 1 (reference_value input side y)) rest 0 0)

length-line : (input : List ℕ) (side y : ℕ) → 3 ≤ side → length (line input side y) ≡ side
unfolding line
length-line input side y h = omega (
  arith,
  length-append (cells (side - 2) 1 (reference_value input side y)) (0 ∷ []),
  length-cells (side - 2) 1 (reference_value input side y),
)

suc_rows : (left side : ℕ) → suc left * side ≡ side + left * side
suc_rows left side = grind arith

next_front :
    (input : List ℕ) (side y : ℕ) (front : List ℕ)
    → 3 ≤ side
    → length front ≡ y * side
    → length (front ++ line input side y) ≡ (y + 1) * side
next_front input side y front h f =
    length-append front (line input side y) ∙ omega (arith, length-line input side y h, f)

pub application_rows-lines :
    (input : List ℕ) (side left y : ℕ) (front old rest : List ℕ)
    → 3 ≤ side
    → 0 < y
    → (y + left + 1) * side ≤ 2 ^ 32
    → length front ≡ y * side
    → length old ≡ left * side
    → application_rows input side left y (front ++ (old ++ rest))
      ≡ front ++ (lines input side left y ++ rest)
unfolding application_rows lines
application_rows-lines input side zero y front [] rest h p b f o = refl
application_rows-lines input side zero y front (c ∷ old) rest h p b f o = absurd (omega arith)
application_rows-lines input side (suc left) y front old rest h p b f o =
    let this = take side old in
    let later = drop side old in
    let row = line input side y in
    let total = suc_rows left side in
    ap
      (λ s. application_rows input side left (y + 1) (
        write_cells (side - 2) 1 (y * side) (application_value input side y)
          (set (set (front ++ s) (y * side + (side - 1)) 0) (y * side) 0)))
      (ap (λ s. s ++ rest) (sym (take-append-drop side old)) ∙ append_assoc this later rest)
    ∙ ap (application_rows input side left (y + 1)) (
        application_row input side y front this (later ++ rest) h p (omega (arith, b)) f
          (length-take side old ∙ omega (arith, total, o))
        ∙ sym (append_assoc front row (later ++ rest)))
    ∙ application_rows-lines input side left (y + 1) (front ++ row) later rest h (omega arith)
        (omega (arith, b)) (next_front input side y front h f)
        (length-drop side old ∙ omega (arith, total, o))
    ∙ append_assoc front row (lines input side left (y + 1) ++ rest)
    ∙ ap (◌++◌ front) (sym (append_assoc row (lines input side left (y + 1)) rest))

clear_row :
    (side : ℕ) → 3 ≤ side → replicate {A = ℕ} side 0 ≡ 0 ∷ (replicate (side - 2) 0 ++ (0 ∷ []))
clear_row side h =
    let e : side ≡ suc (side - 2 + 1) = omega arith in
    ap (λ n. replicate {A = ℕ} n 0) e ∙ ap (◌∷◌ 0) (replicate-add {A = ℕ} (side - 2) 1 0)

pub reference_rows-lines :
    (input : List ℕ) (side left y : ℕ) (front rest : List ℕ)
    → 3 ≤ side
    → (y + left + 1) * side ≤ 2 ^ 32
    → length front ≡ y * side
    → reference_rows input side left y (front ++ (replicate (left * side) 0 ++ rest))
      ≡ front ++ (lines input side left y ++ rest)
unfolding reference_rows lines
reference_rows-lines input side zero y front rest h b f =
    let e : zero * side ≡ 0 = omega arith in ap (λ n. front ++ (replicate n 0 ++ rest)) e
reference_rows-lines input side (suc left) y front rest h b f =
    let row = line input side y in
    let later : List ℕ = replicate (left * side) 0 in
    ap
      (λ s. reference_rows input side left (y + 1) (
        reference_cells (side - 2) 1 (y * side) (reference_value input side y)
          (front ++ (s ++ rest))))
      (ap (λ n. replicate {A = ℕ} n 0) (suc_rows left side)
        ∙ replicate-add side (left * side) 0
        ∙ ap (λ r. r ++ later) (clear_row side h))
    ∙ ap
        (λ s.
          reference_rows input side left (y + 1)
            (reference_cells (side - 2) 1 (y * side) (reference_value input side y) (front ++ s)))
        (append_assoc (0 ∷ (replicate (side - 2) 0 ++ (0 ∷ []))) later rest)
    ∙ ap (reference_rows input side left (y + 1)) (
        reference_row input side y front (replicate (side - 2) 0) (later ++ rest) (omega (arith, b))
          h f (length-replicate (side - 2) 0)
        ∙ sym (append_assoc front row (later ++ rest)))
    ∙ reference_rows-lines input side left (y + 1) (front ++ row) rest h (omega (arith, b))
        (next_front input side y front h f)
    ∙ append_assoc front row (lines input side left (y + 1) ++ rest)
    ∙ ap (◌++◌ front) (sym (append_assoc row (lines input side left (y + 1)) rest))
