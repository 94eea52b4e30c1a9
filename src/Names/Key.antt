-- ===== src/Names/Key.antt =====
-- src/bindings/names.cpp, `SkinId`: what the search reads of a name.
use vcmp_lua.Names.{is_alnum, lower, lower_at}
use vcmp_lua.Prelude.{◌==◌, get_or, ◌&&◌, [], if◌then◌else◌, length, ltb, ◌∷◌, Bool, List, ℕ}

-- Lowercase, alphanumeric characters only.
unfoldable pub clean : List ℕ → List ℕ
unfolding is_alnum lower
clean [] = []
clean (c ∷ cs) = let rest = clean cs in if is_alnum c then lower c ∷ rest else rest

-- The characters a, b, c and d, and the text `str`.
pub record Key : Type 0 where
  pub a : ℕ
  pub b : ℕ
  pub c : ℕ
  pub d : ℕ
  pub str : List ℕ

abbrev last_of : List ℕ → ℕ
last_of [] = 0
last_of (c ∷ []) = c
last_of (c ∷ d ∷ cs) = last_of (d ∷ cs)

unfoldable pub key_of : List ℕ → Key
unfolding lower_at clean
key_of name = record {
  a = lower_at name 0;
  b = lower_at name 1;
  c = lower_at name 2;
  d = last_of (clean name);
  str = clean name;
}

-- `len >= i + 1 && str[i] == c`.
abbrev pub has_at : Key → ℕ → ℕ → Bool
has_at k i c = ltb i (length k.str) && get_or k.str i 0 == c
