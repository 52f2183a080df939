-- ===== src/Common/Dict.antt =====
-- A Python dict with identities for keys, as an association list in insertion order. The laws of
-- `lookup` are in conditional form.
use ttasks.Common.Tests.{◌==◌, if◌then◌else◌, is_some}
use ttasks.Common.Lists.{elem}
use Prim.Native.Nat.{ℕ}
use mathlib.Core.Path.{◌≡◌, refl}
use mathlib.Core.Bool.{Bool, ◌||◌}
use mathlib.Core.Option.{Option, none, some}
use mathlib.Core.List.{List, [], ◌∷◌}
use native.Mathlib.Omega.{arith}

abbrev pub Dict {ℓ} : Type ℓ → Type ℓ
Dict V = List (ℕ × V)

module _ {ℓ} {V : Type ℓ} where
  -- `d.get(k)`
  unfoldable pub lookup : ℕ → Dict V → Option V
  lookup k [] = none
  lookup k ((j, v) ∷ d) = if k == j then some v else lookup k d

  -- `k in d`
  abbrev pub has : ℕ → Dict V → Bool
  has k d = is_some (lookup k d)

  -- `d[k] = v`: an old key keeps its place, a new one goes to the end.
  unfoldable pub insert : ℕ → V → Dict V → Dict V
  insert k v [] = (k, v) ∷ []
  insert k v ((j, w) ∷ d) = if k == j then (k, v) ∷ d else (j, w) ∷ insert k v d

  -- `del d[k]`, for a key that is there.
  unfoldable pub erase : ℕ → Dict V → Dict V
  erase k [] = []
  erase k ((j, w) ∷ d) = let rest = erase k d in if k == j then rest else (j, w) ∷ rest

  unfoldable pub keys : Dict V → List ℕ
  keys [] = []
  keys ((j, w) ∷ d) = j ∷ keys d

  pub lookup-insert :
      (k j : ℕ) (v : V) (d : Dict V)
      → lookup j (insert k v d) ≡ (if j == k then some v else lookup j d)
  unfolding lookup insert
  lookup-insert k j v [] = refl
  lookup-insert k j v ((i, w) ∷ d) = ground (arith, lookup-insert k j v d)

  pub lookup-erase :
      (k j : ℕ) (d : Dict V) → lookup j (erase k d) ≡ (if j == k then none else lookup j d)
  unfolding lookup erase
  lookup-erase k j [] = ground arith
  lookup-erase k j ((i, w) ∷ d) = ground (arith, lookup-erase k j d)

  pub elem-keys : (k : ℕ) (d : Dict V) → elem k (keys d) ≡ has k d
  unfolding lookup keys
  elem-keys k [] = refl
  elem-keys k ((j, w) ∷ d) = ground (arith, elem-keys k d)

  pub keys-insert : (k j : ℕ) (v : V) (d : Dict V) → has j (insert k v d) ≡ (j == k || has j d)
  keys-insert k j v d = rw lookup-insert (ground arith)
