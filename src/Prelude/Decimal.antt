-- ===== src/Prelude/Decimal.antt =====
-- Decimal numerals as lists of character codes: `std::isdigit`, `std::to_string`, and the value that
-- a run of digits stands for.
use rapidbench.Prelude.{
  ℕ, zero, suc, ◌+◌, ◌-◌, ◌*◌, ◌/◌, ◌%◌, ◌≤◌, ◌<◌, ◌≡◌, refl, Bool, true, false, ◌&&◌, List, [],
  ◌∷◌, ◌++◌, arith, ltb, leb, if◌then◌else◌, All, All-append, length, length-append, inl, inr,
  Bool-cases,
}

abbrev pub is_digit : ℕ → Bool
is_digit c = leb b'0' c && leb c b'9'

abbrev pub IsDigits : List ℕ → Type 0
IsDigits = All (λ c. is_digit c ≡ true)

-- The text does not begin with a digit.
abbrev pub NoDigit : List ℕ → Type 0
NoDigit [] = Unit {0}
NoDigit (c ∷ cs) = is_digit c ≡ false

-- The leading digits of a text, and what follows them.
unfoldable pub split_digits : List ℕ → List ℕ × List ℕ
split_digits [] = ([], [])
split_digits (c ∷ cs) =
    let parts = split_digits cs in if is_digit c then (c ∷ parts.0, parts.1) else ([], c ∷ cs)

-- The value of digits that follow a number already read.
unfoldable pub value_from : ℕ → List ℕ → ℕ
value_from acc [] = acc
value_from acc (c ∷ cs) = value_from (acc * 10 + (c - b'0')) cs

unfoldable pub decimal : List ℕ → ℕ
unfolding value_from
decimal = value_from 0

-- `std::to_string` of a number below the fuel.
unfoldable pub digits_of : ℕ → ℕ → List ℕ
digits_of zero n = []
digits_of (suc fuel) n = elim (ltb n 10) [
  | true ↦ (b'0' + n) ∷ []
  | false ↦ digits_of fuel (n / 10) ++ ((b'0' + n % 10) ∷ [])
]

unfoldable pub to_string : ℕ → List ℕ
unfolding digits_of
to_string n = digits_of (suc n) n

pub split_digits-append :
    (ds rest : List ℕ) → IsDigits ds → NoDigit rest → split_digits (ds ++ rest) ≡ (ds, rest)
unfolding split_digits
split_digits-append [] [] h k = refl
split_digits-append [] (c ∷ cs) h k = ground arith
split_digits-append (d ∷ ds) rest h k = ground (arith, split_digits-append ds rest h.1 k)

pub split_digits-parts :
    (text : List ℕ)
    → ((split_digits text).0 ++ (split_digits text).1 ≡ text)
      × IsDigits (split_digits text).0
      × NoDigit (split_digits text).1
unfolding split_digits
split_digits-parts [] = (refl, tt, tt)
split_digits-parts (c ∷ cs) = ground (arith, split_digits-parts cs)

value_from-append :
    (acc d : ℕ) (ds : List ℕ)
    → value_from acc (ds ++ (d ∷ [])) ≡ value_from acc ds * 10 + (d - b'0')
unfolding value_from
value_from-append acc d [] = refl
value_from-append acc d (c ∷ cs) = value_from-append (acc * 10 + (c - b'0')) d cs

digits_of-IsDigits : (fuel n : ℕ) → IsDigits (digits_of fuel n)
unfolding digits_of
digits_of-IsDigits zero n = tt
digits_of-IsDigits (suc fuel) n = elim (Bool-cases (ltb n 10)) [
  | inl e ↦ rw (e, digits_of) (ground arith, tt)
  | inr e ↦
      rw (e, digits_of)
        (All-append (λ c. is_digit c ≡ true) (digits_of fuel (n / 10)) ((b'0' + n % 10) ∷ [])
          (digits_of-IsDigits fuel (n / 10)) (ground arith, tt))
]

digits_of-small : (fuel n : ℕ) → n < 10 → digits_of (suc fuel) n ≡ (b'0' + n) ∷ []
unfolding digits_of
digits_of-small fuel n h = ground arith

digits_of-large :
    (fuel n : ℕ)
    → 10 ≤ n
    → digits_of (suc fuel) n ≡ digits_of fuel (n / 10) ++ ((b'0' + n % 10) ∷ [])
unfolding digits_of
digits_of-large fuel n h = ground arith

value_from-one : (n : ℕ) → value_from 0 ((b'0' + n) ∷ []) ≡ n
unfolding value_from
value_from-one n = omega arith

value-digits_of : (fuel n : ℕ) → n < fuel → value_from 0 (digits_of fuel n) ≡ n
value-digits_of zero n h = absurd (omega arith)
value-digits_of (suc fuel) n h = elim (Bool-cases (ltb n 10)) [
  | inl e ↦ rw (digits_of-small fuel n (ground arith)) (value_from-one n)
  | inr e ↦
      rw
        (
          digits_of-large fuel n (ground arith),
          value_from-append 0 (b'0' + n % 10) (digits_of fuel (n / 10)),
        )
        (ground (arith, value-digits_of fuel (n / 10)))
]

digits_of-ne-nil : (fuel n : ℕ) → 0 < length (digits_of (suc fuel) n)
unfolding digits_of
digits_of-ne-nil fuel n =
    ground (arith, length-append (digits_of fuel (n / 10)) ((b'0' + n % 10) ∷ []))

pub to_string-IsDigits : (n : ℕ) → IsDigits (to_string n)
unfolding to_string
to_string-IsDigits n = digits_of-IsDigits (suc n) n

pub value-to_string : (n : ℕ) → value_from 0 (to_string n) ≡ n
unfolding to_string
value-to_string n = value-digits_of (suc n) n (omega arith)

pub decimal-to_string : (n : ℕ) → decimal (to_string n) ≡ n
unfolding to_string decimal
decimal-to_string n = value-digits_of (suc n) n (omega arith)

pub length-to_string : (n : ℕ) → 0 < length (to_string n)
unfolding to_string
length-to_string n = digits_of-ne-nil n n

-- The numeral of a number above 0 does not begin with a zero.
abbrev pub NoZero : List ℕ → Type 0
NoZero [] = Unit {0}
NoZero (c ∷ cs) = b'0' < c

NoZero-append : (xs ys : List ℕ) → 0 < length xs → NoZero xs → NoZero (xs ++ ys)
NoZero-append [] ys h z = absurd (omega arith)
NoZero-append (x ∷ xs) ys h z = z

digits_of-NoZero : (fuel n : ℕ) → 0 < n → n < fuel → NoZero (digits_of fuel n)
digits_of-NoZero zero n p h = absurd (omega arith)
digits_of-NoZero (suc zero) n p h = absurd (omega arith)
digits_of-NoZero (suc (suc fuel)) n p h = elim (Bool-cases (ltb n 10)) [
  | inl e ↦ rw (digits_of-small (suc fuel) n (ground arith)) (omega arith)
  | inr e ↦ rw (digits_of-large (suc fuel) n (ground arith)) (
      NoZero-append (digits_of (suc fuel) (n / 10)) ((b'0' + n % 10) ∷ [])
        (digits_of-ne-nil fuel (n / 10))
        (digits_of-NoZero (suc fuel) (n / 10) (ground arith) (ground arith)))
]

pub to_string-NoZero : (n : ℕ) → 0 < n → NoZero (to_string n)
unfolding to_string
to_string-NoZero n p = digits_of-NoZero (suc n) n p (omega arith)

-- 0 is written with one digit.
pub to_string-zero : to_string 0 ≡ b'0' ∷ []
unfolding to_string digits_of
to_string-zero = refl

-- Reading on from a number never gives a smaller one.
pub le-value_from : (acc : ℕ) (ds : List ℕ) → acc ≤ value_from acc ds
unfolding value_from
le-value_from acc [] = omega arith
le-value_from acc (d ∷ ds) = omega (arith, le-value_from (acc * 10 + (d - b'0')) ds)
