-- ===== src/Common/Lists.antt =====
-- Lists measured by native numbers, membership of numbers as a test, and predicates on lists.
use Prim.Native.Nat.{ℕ, suc, ◌+◌}
use mathlib.Core.Path.{◌≡◌, refl}
use mathlib.Core.Bool.{Bool, true, false, ◌&&◌, ◌||◌}
use mathlib.Core.List.{List, [], ◌∷◌, ◌++◌}
use native.Mathlib.Omega.{arith}
use ttasks.Common.Tests.{◌==◌, if◌then◌else◌}

module _ {ℓ} {A : Type ℓ} where
  abbrev pub length : List A → ℕ
  length [] = 0
  length (x ∷ xs) = suc (length xs)

  -- `all(p(x) for x in xs)`
  abbrev pub all : (A → Bool) → List A → Bool
  all p [] = true
  all p (x ∷ xs) = p x && all p xs

  -- `any(p(x) for x in xs)`
  abbrev pub any : (A → Bool) → List A → Bool
  any p [] = false
  any p (x ∷ xs) = p x || any p xs

  -- `[x for x in xs if p(x)]`
  abbrev pub keep : (A → Bool) → List A → List A
  keep p [] = []
  keep p (x ∷ xs) = let rest = keep p xs in if p x then x ∷ rest else rest

  pub length-append : (xs ys : List A) → length (xs ++ ys) ≡ length xs + length ys
  length-append [] ys = omega arith
  length-append (x ∷ xs) ys = omega (arith, length-append xs ys)

-- `k in ks`
abbrev pub elem : ℕ → List ℕ → Bool
elem k [] = false
elem k (j ∷ ks) = k == j || elem k ks

pub elem-append : (k : ℕ) (xs ys : List ℕ) → elem k (xs ++ ys) ≡ (elem k xs || elem k ys)
elem-append k [] ys = refl
elem-append k (x ∷ xs) ys = ground (arith, elem-append k xs ys)

-- `all` at one member.
pub all-elem :
    (p : ℕ → Bool) (k : ℕ) (ks : List ℕ) → all p ks ≡ true → elem k ks ≡ true → p k ≡ true
all-elem p k [] h m = ground arith
all-elem p k (j ∷ ks) h m = ground (arith, all-elem p k ks)

-- `all` from every member.
pub all_of_elem :
    (p : ℕ → Bool) (ks : List ℕ) → ((k : ℕ) → elem k ks ≡ true → p k ≡ true) → all p ks ≡ true
all_of_elem p [] h = refl
all_of_elem p (j ∷ ks) h = ground (arith, h j, all_of_elem p ks (λ k m. h k (ground arith)))

-- `all` of a weaker test.
pub all_mono :
    (p q : ℕ → Bool) (ks : List ℕ)
    → ((k : ℕ) → p k ≡ true → q k ≡ true)
    → all p ks ≡ true
    → all q ks ≡ true
all_mono p q [] h a = refl
all_mono p q (k ∷ ks) h a = ground (arith, h k, all_mono p q ks h)
