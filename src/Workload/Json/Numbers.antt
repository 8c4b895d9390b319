-- ===== src/Workload/Json/Numbers.antt =====
-- Number reads the numeral of every 64-bit word.
use rapidbench.Prelude.{
  ℕ, zero, suc, ◌+◌, ◌-◌, ◌*◌, ◌/◌, ◌%◌, ◌^◌, ◌≤◌, ◌<◌, ◌≡◌, refl, ap, ◌∙◌, Bool, true, false, not,
  ◌&&◌, some, List, [], ◌∷◌, ◌++◌, arith, ltb, ◌==◌, length, length-append,
}
use rapidbench.Prelude.Decimal.{
  IsDigits, NoDigit, NoZero, value_from, to_string, to_string-IsDigits, to_string-NoZero,
  to_string-zero, value-to_string, length-to_string, le-value_from,
}
use rapidbench.Workload.Words.{u64_mod}
use rapidbench.Workload.Json.{space, number_loop, number, starts_with_zero}

number_loop-digits :
    (value : ℕ) (ds rest : List ℕ)
    → IsDigits ds
    → NoDigit rest
    → value_from value ds < 2 ^ 64
    → number_loop value (ds ++ rest) ≡ some (value_from value ds, rest)
unfolding number_loop value_from
number_loop-digits value [] [] d n b = refl
number_loop-digits value [] (c ∷ cs) d n b = ground arith
number_loop-digits value (x ∷ xs) rest d n b =
    let next : ℕ = value * 10 + (x - b'0') in
    let small : next ≤ value_from next xs = le-value_from next xs in
    let kept : next % u64_mod ≡ next = omega arith in
    let fits : ltb ((u64_mod - 1 - (x - b'0')) / 10) value ≡ false = ground arith in
    ground (arith, ap (λ v. number_loop v (xs ++ rest)) kept, number_loop-digits next xs rest d.1 n)

space-digits : (ds rest : List ℕ) → 0 < length ds → IsDigits ds → space (ds ++ rest) ≡ ds ++ rest
unfolding space
space-digits [] rest h d = absurd (omega arith)
space-digits (x ∷ xs) rest h d = ground arith

-- How the last test of Number sees a numeral.
abbrev accepts : ℕ → List ℕ → Bool
accepts taken start = not (taken == 0) && not (ltb 1 taken && starts_with_zero start)

accepts-NoZero :
    (taken : ℕ) (ds rest : List ℕ)
    → 0 < taken
    → 0 < length ds
    → NoZero ds
    → accepts taken (ds ++ rest) ≡ true
accepts-NoZero taken [] rest p h z = absurd (omega arith)
accepts-NoZero taken (d ∷ ds) rest p h z = ground arith

accepts-to_string :
    (n : ℕ) (rest : List ℕ)
    → accepts (length (to_string n ++ rest) - length rest) (to_string n ++ rest) ≡ true
accepts-to_string zero rest = rw to_string-zero (ground arith)
accepts-to_string (suc n) rest =
    accepts-NoZero (length (to_string (suc n) ++ rest) - length rest) (to_string (suc n)) rest
      (omega (arith, length-append (to_string (suc n)) rest, length-to_string (suc n)))
      (length-to_string (suc n)) (to_string-NoZero (suc n) (omega arith))

-- Number reads the decimal numeral of any 64-bit word, whatever follows it but a digit, with no
-- wrap-around on the way.
pub number-to_string :
    (n : ℕ) (rest : List ℕ)
    → n < 2 ^ 64
    → NoDigit rest
    → number (to_string n ++ rest) ≡ some (n, rest)
unfolding number
number-to_string n rest b h =
    let digits = to_string n in
    let read : number_loop 0 (digits ++ rest) ≡ some (n, rest) =
      number_loop-digits 0 digits rest (to_string-IsDigits n) h (omega (arith, value-to_string n))
      ∙ ap (λ v. some (v, rest)) (value-to_string n) in
    rw (
      space-digits digits rest (length-to_string n) (to_string-IsDigits n),
      read,
      accepts-to_string n rest,
    )
