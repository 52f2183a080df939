-- ===== src/Common/Texts.antt =====
-- Python strings, as far as the code joins them and tests whether they are empty.
use Prim.Native.String.{String, [], ◌∷◌, ◌++◌}
use mathlib.Core.Bool.{Bool, true, false}

-- `a + b`
unfoldable pub concat : String → String → String
concat a b = a ++ b

-- `not s`
abbrev pub is_empty : String → Bool
is_empty [] = true
is_empty (c ∷ s) = false
