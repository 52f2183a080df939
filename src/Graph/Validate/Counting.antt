-- ===== src/Graph/Validate/Counting.antt =====
-- Lists of identities without repetition, by their lengths.
use ttasks.Common.{
  ℕ, ◌≤◌, ◌<◌, ◌≡◌, true, not, ◌&&◌, List, [], ◌∷◌, keep, length, elem, arith, ◌==◌, Bool-cases,
  inl, inr,
}
use ttasks.Graph.WellFormed.{nodup}

without : ℕ → List ℕ → List ℕ
without k ks = keep (λ j. not (j == k)) ks

elem-without : (k j : ℕ) (ks : List ℕ) → elem j (without k ks) ≡ (not (j == k) && elem j ks)
unfolding without
elem-without k j [] = ground arith
elem-without k j (i ∷ ks) = ground (arith, elem-without k j ks)

length-without-le : (k : ℕ) (ks : List ℕ) → length (without k ks) ≤ length ks
unfolding without
length-without-le k [] = omega arith
length-without-le k (i ∷ ks) = ground (arith, length-without-le k ks)

length-without-lt : (k : ℕ) (ks : List ℕ) → elem k ks ≡ true → length (without k ks) < length ks
unfolding without
length-without-lt k [] m = cc
length-without-lt k (i ∷ ks) m = ground (arith, length-without-lt k ks, length-without-le k ks)

-- A list without repetition is no longer than a list that has all its members.
pub length_le_of_elem :
    (xs ys : List ℕ)
    → nodup xs ≡ true
    → ((k : ℕ) → elem k xs ≡ true → elem k ys ≡ true)
    → length xs ≤ length ys
length_le_of_elem [] ys once sub = omega arith
length_le_of_elem (x ∷ xs) ys once sub =
    let le =
      length_le_of_elem xs (without x ys) (ground arith)
        (λ k m. ground (arith, sub k, elem-without x k ys)) in
    let lt = length-without-lt x ys (sub x (ground arith)) in omega arith

-- Where it is as long as that list, it has all its members too.
pub elem_of_length :
    (xs ys : List ℕ)
    → nodup xs ≡ true
    → ((k : ℕ) → elem k xs ≡ true → elem k ys ≡ true)
    → length xs ≡ length ys
    → (k : ℕ) → elem k ys ≡ true
    → elem k xs ≡ true
elem_of_length xs ys once sub same_length k m = elim (Bool-cases (elem k xs)) [
  | inl there ↦ there
  | inr missing ↦
      let le = length_le_of_elem (k ∷ xs) ys (ground arith) (λ j h. ground (arith, sub j)) in
      absurd (omega arith)
]
