-- ===== src/Prelude/Sort.antt =====
-- `std::sort` by a comparator, as insertion sort, and `std::unique` on numbers.
use mathlib.Core.List.{Perm}
use mathlib.Core.List.Perm
use rapidbench.Prelude.{
  ℕ, ◌+◌, ◌≤◌, ◌≡◌, refl, inl, inr, Bool, true, false, ◌||◌, List, [], ◌∷◌, arith, ltb, ◌==◌,
  if◌then◌else◌, All, All-map, Bool-cases, length,
}

module _ {ℓ} {A : Type ℓ} (lt : A → A → Bool) where
  unfoldable pub insert : A → List A → List A
  insert x [] = x ∷ []
  insert x (y ∷ ys) = if lt x y then x ∷ y ∷ ys else y ∷ insert x ys

  unfoldable pub sort : List A → List A
  unfolding insert
  sort [] = []
  sort (x ∷ xs) = insert x (sort xs)

  -- No element comes before one that stands in front of it.
  abbrev pub IsSorted : List A → Type ℓ
  IsSorted [] = Unit
  IsSorted (x ∷ xs) = All (λ y. lt y x ≡ false) xs × IsSorted xs

  -- What `std::sort` asks of a comparator.
  pub record StrictWeak : Type ℓ where
    pub asymm : (a b : A) → lt a b ≡ true → lt b a ≡ false
    pub trans : (a b c : A) → lt b a ≡ false → lt c b ≡ false → lt c a ≡ false

module _ {ℓ} {A : Type ℓ} (lt : A → A → Bool) where
  pub insert-perm : (x : A) (xs : List A) → Perm (insert lt x xs) (x ∷ xs)
  unfolding insert
  insert-perm x [] = Perm.rfl
  insert-perm x (y ∷ ys) = elim (Bool-cases (lt x y)) [
    | inl e ↦ rw e Perm.rfl
    | inr e ↦ rw e (Perm.trans (Perm.cons y (insert-perm x ys)) (Perm.swap x y ys))
  ]

  pub sort-perm : (xs : List A) → Perm (sort lt xs) xs
  unfolding sort
  sort-perm [] = Perm.nil
  sort-perm (x ∷ xs) = Perm.trans (insert-perm x (sort lt xs)) (Perm.cons x (sort-perm xs))

  pub insert-All {κ} :
      (P : A → Type κ) (x : A) (xs : List A) → P x → All P xs → All P (insert lt x xs)
  unfolding insert
  insert-All P x [] p h = (p, tt)
  insert-All P x (y ∷ ys) p h = elim (Bool-cases (lt x y)) [
    | inl e ↦ rw e (p, h)
    | inr e ↦ rw e (h.0, insert-All P x ys p h.1)
  ]

  pub sort-All {κ} : (P : A → Type κ) (xs : List A) → All P xs → All P (sort lt xs)
  unfolding sort
  sort-All P [] h = tt
  sort-All P (x ∷ xs) h = insert-All P x (sort lt xs) h.0 (sort-All P xs h.1)

  pub length-insert : (x : A) (xs : List A) → length (insert lt x xs) ≡ length xs + 1
  unfolding insert
  length-insert x [] = omega arith
  length-insert x (y ∷ ys) = ground (arith, length-insert x ys)

  pub length-sort : (xs : List A) → length (sort lt xs) ≡ length xs
  unfolding sort
  length-sort [] = refl
  length-sort (x ∷ xs) = omega (arith, length-insert x (sort lt xs), length-sort xs)

  module _ (laws : StrictWeak lt) where
    pub insert-IsSorted : (x : A) (xs : List A) → IsSorted lt xs → IsSorted lt (insert lt x xs)
    unfolding insert
    insert-IsSorted x [] s = (tt, tt)
    insert-IsSorted x (y ∷ ys) s = elim (Bool-cases (lt x y)) [
      | inl e ↦
          let after = laws.asymm x y e in
          rw e (
            (
              after,
              All-map (λ z. lt z y ≡ false) (λ z. lt z x ≡ false) (λ z h. laws.trans x y z after h)
                  ys s.0,
            ),
            s,
          )
      | inr e ↦ rw e (insert-All (λ z. lt z y ≡ false) x ys e s.0, insert-IsSorted x ys s.1)
    ]

    -- The sorted list is in order.
    pub sort-IsSorted : (xs : List A) → IsSorted lt (sort lt xs)
    unfolding sort
    sort-IsSorted [] = tt
    sort-IsSorted (x ∷ xs) = insert-IsSorted x (sort lt xs) (sort-IsSorted xs)

-- Numbers: the comparator is `<`.
pub ltb-StrictWeak : StrictWeak ltb
ltb-StrictWeak = record { asymm = λ a b h. ground arith; trans = λ a b c h k. ground arith }

unfoldable pub contains : ℕ → List ℕ → Bool
contains k [] = false
contains k (x ∷ xs) = (x == k) || contains k xs

-- `std::unique` on what follows an element that is kept.
unique_after : ℕ → List ℕ → List ℕ
unique_after last [] = []
unique_after last (x ∷ xs) =
    let kept = unique_after x xs in
    let skipped = unique_after last xs in if x == last then skipped else x ∷ kept

unfoldable pub unique : List ℕ → List ℕ
unfolding unique_after
unique [] = []
unique (x ∷ xs) = x ∷ unique_after x xs

-- Strictly ascending, from a bound on.
abbrev pub Ascending : ℕ → List ℕ → Type 0
Ascending low [] = Unit {0}
Ascending low (x ∷ xs) = (low ≤ x) × Ascending (x + 1) xs

contains-insert :
    (k x : ℕ) (xs : List ℕ) → contains k (insert ltb x xs) ≡ ((x == k) || contains k xs)
unfolding contains insert
contains-insert k x [] = refl
contains-insert k x (y ∷ ys) = ground (arith, contains-insert k x ys)

pub contains-sort : (k : ℕ) (xs : List ℕ) → contains k (sort ltb xs) ≡ contains k xs
unfolding contains sort
contains-sort k [] = refl
contains-sort k (x ∷ xs) = ground (arith, contains-insert k x (sort ltb xs), contains-sort k xs)

contains-unique_after :
    (k last : ℕ) (xs : List ℕ)
    → ((last == k) || contains k (unique_after last xs)) ≡ ((last == k) || contains k xs)
unfolding contains unique_after
contains-unique_after k last [] = refl
contains-unique_after k last (x ∷ xs) =
    ground (arith, contains-unique_after k x xs, contains-unique_after k last xs)

pub contains-unique : (k : ℕ) (xs : List ℕ) → contains k (unique xs) ≡ contains k xs
unfolding contains unique
contains-unique k [] = refl
contains-unique k (x ∷ xs) = contains-unique_after k x xs

unique_after-Ascending :
    (last : ℕ) (xs : List ℕ)
    → All (λ y. ltb y last ≡ false) xs
    → IsSorted ltb xs
    → Ascending (last + 1) (unique_after last xs)
unfolding unique_after
unique_after-Ascending last [] h s = tt
unique_after-Ascending last (x ∷ xs) h s =
    ground (arith, unique_after-Ascending x xs s.0 s.1, unique_after-Ascending last xs h.1 s.1)

pub unique-Ascending : (xs : List ℕ) → IsSorted ltb xs → Ascending 0 (unique xs)
unfolding unique
unique-Ascending [] s = tt
unique-Ascending (x ∷ xs) s = (omega arith, unique_after-Ascending x xs s.0 s.1)
