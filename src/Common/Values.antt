-- ===== src/Common/Values.antt =====
-- Python values: numbers, and arguments that the code tests by `isinstance`.
use Prim.Native.Nat.{ℕ, zero, suc, ◌*◌, ◌^◌}
use ttasks.Common.Tests.{leb}
use mathlib.Core.Bool.{Bool, true, false}

-- An argument of the type that the code asks for by `isinstance`, or a value of another type.
pub data Arg {ℓ} (A : Type ℓ) : Type ℓ where
  typed : A → Arg A
  untyped : Arg A

-- `negsuc n` is -(n + 1).
pub data ℤ : Type 0 where
  pos : ℕ → ℤ
  negsuc : ℕ → ℤ

-- A double. Every finite double is a whole multiple of 2^-1074: `finite n` is n * 2^-1074. The
-- code only compares and tests these numbers, so that no arithmetic on them is rounded here.
pub data Float : Type 0 where
  finite : ℤ → Float
  pos_inf neg_inf nan : Float

-- The float of a whole number.
unfoldable pub of_ℕ : ℕ → Float
of_ℕ n = finite (pos (n * 2 ^ 1074))

-- `math.isfinite(x)`
unfoldable pub is_finite : Float → Bool
is_finite (finite _) = true
is_finite _ = false

-- `x <= 0`: false of nan, as every comparison with it.
unfoldable pub le_zero : Float → Bool
le_zero (finite (pos zero)) = true
le_zero (finite (pos (suc _))) = false
le_zero (finite (negsuc _)) = true
le_zero neg_inf = true
le_zero pos_inf = false
le_zero nan = false

-- `x < 0`
unfoldable pub lt_zero : Float → Bool
lt_zero (finite (pos _)) = false
lt_zero (finite (negsuc _)) = true
lt_zero neg_inf = true
lt_zero pos_inf = false
lt_zero nan = false

-- `0 <= x <= n`, for a whole number n.
unfoldable pub in_range : ℕ → Float → Bool
in_range n (finite (pos k)) = leb k (n * 2 ^ 1074)
in_range n (finite (negsuc _)) = false
in_range n neg_inf = false
in_range n pos_inf = false
in_range n nan = false

-- The truth of a float, `if x:`. Only zero is false.
unfoldable pub is_true : Float → Bool
is_true (finite (pos zero)) = false
is_true (finite (pos (suc _))) = true
is_true (finite (negsuc _)) = true
is_true neg_inf = true
is_true pos_inf = true
is_true nan = true
