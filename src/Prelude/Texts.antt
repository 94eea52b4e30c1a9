-- ===== src/Prelude/Texts.antt =====
-- Texts as lists of code points, for the names that a program gives as literals.
use Prim.Native.Char.{code}
use Prim.Native.String.{String}
use Prim.Native.Nat.{ℕ, zero, suc}
use mathlib.Core.Bool.{Bool}
use text.Mathlib.Text.{◌==◌}
use mathlib.Core.List.{List, [], ◌∷◌}

-- The code points of a text: its bytes, if it is ASCII. `String` has its own `[]` and `∷`.
abbrev pub codes : String → List ℕ
codes String.[] = []
codes (String.◌∷◌ c s) = code c ∷ codes s

-- What C++ sees of Lua's bytes through a pointer without a length: those before the first NUL.
abbrev pub until_nul : List ℕ → List ℕ
until_nul [] = []
until_nul (zero ∷ cs) = []
until_nul (suc n ∷ cs) = suc n ∷ until_nul cs

-- The test of equality, apart from the one on numbers.
abbrev pub same_text : String → String → Bool
same_text x y = x == y
