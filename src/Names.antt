-- ===== src/Names.antt =====
-- src/bindings/names.cpp: the ids that a name of a skin or a weapon refers to.
-- A name is the list of its bytes. The characters are classified as in the C locale.
pub mod SkinIds
pub mod Tables
pub mod Key
pub mod Weapons
pub mod Search
pub mod Case
pub mod Named
pub mod Found
pub mod Trip
use vcmp_lua.Prelude.{
  get_or, [], length, ◌==◌, false, leb, ltb, not, ◌&&◌, ◌+◌, ◌||◌, ◌∷◌, Bool, List, if◌then◌else◌,
  ℕ,
}

-- `std::isalnum`.
abbrev is_digit : ℕ → Bool
is_digit c = leb b'0' c && leb c b'9'

abbrev pub is_upper : ℕ → Bool
is_upper c = leb b'A' c && leb c b'Z'

abbrev is_lower : ℕ → Bool
is_lower c = leb b'a' c && leb c b'z'

unfoldable pub is_alnum : ℕ → Bool
is_alnum c = is_digit c || is_upper c || is_lower c

-- `Lower`.
unfoldable pub lower : ℕ → ℕ
lower c = if is_upper c then c + 32 else c

-- `name.size() >= i + 1 ? Lower(name[i]) : 0`.
unfoldable pub lower_at : List ℕ → ℕ → ℕ
unfolding lower
lower_at name i = if ltb i (length name) then lower (get_or name i 0) else 0

-- A character as a condition, alone and with a comparison.
abbrev pub present : ℕ → Bool
present c = not (c == 0)

abbrev pub is : ℕ → ℕ → Bool
is c d = present c && c == d

abbrev pub is_label : ℕ → List ℕ → Bool
is_label c [] = false
is_label c (l ∷ ls) = c == l || is_label c ls

-- `switch (c)` over cases that end in `break` or `return`, with what holds when none fits.
unfoldable pub switch_on {ℓ} : {A : Type ℓ} → ℕ → List (List ℕ × A) → A → A
switch_on c [] other = other
switch_on c ((labels, a) ∷ rest) other =
    let later = switch_on c rest other in if is_label c labels then a else later
