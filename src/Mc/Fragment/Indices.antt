-- ===== src/Mc/Fragment/Indices.antt =====
-- Lists of indices from 1 to a total: at most that many differ, and if so many do, all are there.
use dns_over_minecraft.Prelude.{
  ℕ, zero, suc, ◌+◌, ◌≤◌, ◌≡◌, refl, ◌∙◌, arith, Bool, true, false, ◌||◌, List, [], ◌∷◌, ◌==◌,
  if◌then◌else◌, length, All, Bool-cases, inl, inr,
}

unfoldable pub elem : ℕ → List ℕ → Bool
elem i [] = false
elem i (x ∷ xs) = x == i || elem i xs

without : ℕ → List ℕ → List ℕ
without i [] = []
without i (x ∷ xs) = if x == i then without i xs else x ∷ without i xs

abbrev pub DistinctIndices : List ℕ → Type 0
DistinctIndices [] = Unit
DistinctIndices (x ∷ xs) = (elem x xs ≡ false) × DistinctIndices xs

abbrev pub InRange : ℕ → ℕ → Type 0
InRange n i = (1 ≤ i) × (i ≤ n)

elem-without : (i j : ℕ) (xs : List ℕ) → elem j xs ≡ false → elem j (without i xs) ≡ false
unfolding elem without
elem-without i j [] h = refl
elem-without i j (x ∷ xs) h = ground (arith, elem-without i j xs)

without-Distinct : (i : ℕ) (xs : List ℕ) → DistinctIndices xs → DistinctIndices (without i xs)
unfolding without
without-Distinct i [] d = tt
without-Distinct i (x ∷ xs) d = ground (arith, elem-without i x xs, without-Distinct i xs)

without-InRange :
    (n : ℕ) (xs : List ℕ) → All (InRange (suc n)) xs → All (InRange n) (without (suc n) xs)
unfolding without
without-InRange n [] h = tt
without-InRange n (x ∷ xs) (h, hs) = elim (Bool-cases (x == suc n)) [
  | inl e ↦ rw e (without-InRange n xs hs)
  | inr e ↦ rw e (ground arith, without-InRange n xs hs)
]

without_absent : (i : ℕ) (xs : List ℕ) → elem i xs ≡ false → without i xs ≡ xs
unfolding elem without
without_absent i [] h = refl
without_absent i (x ∷ xs) h = ground (arith, without_absent i xs)

length-without : (i : ℕ) (xs : List ℕ) → DistinctIndices xs → length xs ≤ length (without i xs) + 1
unfolding without
length-without i [] d = omega arith
length-without i (x ∷ xs) d = ground (arith, without_absent i xs, length-without i xs)

pub length-le-total :
    (n : ℕ) (xs : List ℕ) → All (InRange n) xs → DistinctIndices xs → length xs ≤ n
length-le-total zero [] h d = omega arith
length-le-total zero (x ∷ xs) (h, hs) d = absurd (omega arith)
length-le-total (suc n) xs h d = omega (
  arith,
  length-without (suc n) xs d,
  length-le-total n (without (suc n) xs) (without-InRange n xs h) (without-Distinct (suc n) xs d),
)

pub every_index :
    (n i : ℕ) (xs : List ℕ)
    → All (InRange n) xs
    → DistinctIndices xs
    → length xs ≡ n
    → InRange n i
    → elem i xs ≡ true
every_index n i xs h d full r = elim (Bool-cases (elem i xs)) [
  | inl e ↦ e
  | inr e ↦ absurd (omega (arith, full, length-le-total n (i ∷ xs) (r, h) (e, d)))
]

elem-without_ne : (i j : ℕ) (xs : List ℕ) → (i == j) ≡ false → elem j (without i xs) ≡ elem j xs
unfolding elem without
elem-without_ne i j [] h = refl
elem-without_ne i j (x ∷ xs) h = ground (arith, elem-without_ne i j xs)

length-without_le : (i : ℕ) (xs : List ℕ) → length (without i xs) ≤ length xs
unfolding without
length-without_le i [] = omega arith
length-without_le i (x ∷ xs) = ground (arith, length-without_le i xs)

length-without-elem :
    (i : ℕ) (xs : List ℕ) → elem i xs ≡ true → length (without i xs) + 1 ≤ length xs
unfolding without elem
length-without-elem i [] h = cc
length-without-elem i (x ∷ xs) h = ground (arith, length-without_le i xs, length-without-elem i xs)

pub total-le-length :
    (n : ℕ) (xs : List ℕ) → ((i : ℕ) → InRange n i → elem i xs ≡ true) → n ≤ length xs
total-le-length zero xs h = omega arith
total-le-length (suc n) xs h =
    let top = h (suc n) (omega arith) in
    let rest =
      total-le-length n (without (suc n) xs)
        (λ i r. elem-without_ne (suc n) i xs (ground arith) ∙ h i (omega (arith, r.0, r.1))) in
    omega (arith, rest, length-without-elem (suc n) xs top)
