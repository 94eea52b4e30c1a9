-- ===== src/Names/Weapons.antt =====
-- src/bindings/names.cpp, `WeaponId`: the weapon that a name refers to.
use vcmp_lua.Prelude.{[], ◌==◌, List, if◌then◌else◌, ◌∷◌, ℕ}
use vcmp_lua.Names.{switch_on, present, is, lower_at}

-- The value for a name that refers to no weapon.
abbrev pub no_weapon : ℕ
no_weapon = 255

-- `case 's'`, `case 'm'`, `case 'c'` and `case 'r'`, by the second character.
abbrev pub weapon_s_cases : List (List ℕ × ℕ)
weapon_s_cases =
    (b'c' ∷ [], 2)
    ∷ (b'h' ∷ [], 19)
    ∷ (b'p' ∷ [], 20)
    ∷ (b't' ∷ b'a' ∷ [], 21)
    ∷ (b'i' ∷ [], 24)
    ∷ (b'n' ∷ [], 28)
    ∷ []

unfoldable pub weapon_s : ℕ → ℕ
unfolding switch_on
weapon_s second = switch_on second weapon_s_cases 2

abbrev pub weapon_m_cases : List (List ℕ × ℕ)
weapon_m_cases =
    (b'e' ∷ [], 8)
    ∷ (b'a' ∷ [], 9)
    ∷ (b'o' ∷ [], 15)
    ∷ (b'p' ∷ [], 25)
    ∷ (b'4' ∷ [], 26)
    ∷ (b'6' ∷ [], 32)
    ∷ (b'i' ∷ [], 33)
    ∷ []

unfoldable pub weapon_m : ℕ → ℕ
unfolding switch_on
weapon_m second = switch_on second weapon_m_cases 26

abbrev pub weapon_c_cases : List (List ℕ × ℕ)
weapon_c_cases = (b'l' ∷ [], 8) ∷ (b'h' ∷ [], 11) ∷ []

unfoldable pub weapon_c : ℕ → ℕ
unfolding switch_on
weapon_c second = switch_on second weapon_c_cases 17

abbrev pub weapon_r_cases : List (List ℕ × ℕ)
weapon_r_cases = (b'e' ∷ [], 13) ∷ (b'o' ∷ b'p' ∷ [], 30) ∷ (b'u' ∷ [], 27) ∷ []

unfoldable pub weapon_r : ℕ → ℕ
unfolding switch_on
weapon_r second = switch_on second weapon_r_cases 27

-- `case 'k'`: with an n as second character and neither i nor u as third, no return is reached.
unfoldable pub weapon_k : ℕ → ℕ → ℕ
weapon_k second third =
    if is second b'n'
    then if third == b'i' then 5 else if third == b'u' then 1 else no_weapon
    else 10

unfoldable pub weapon_t : ℕ → ℕ → ℕ
weapon_t second third = if present second then if is third b'a' then 14 else 22 else 22

abbrev pub weapon_cases : ℕ → ℕ → List (List ℕ × ℕ)
weapon_cases second third =
    (b'f' ∷ [], if is second b'i' then 0 else 31)
    ∷ (b'b' ∷ [], if is second b'r' then 1 else 6)
    ∷ (b's' ∷ [], weapon_s second)
    ∷ (b'g' ∷ [], if is second b'o' then 3 else 12)
    ∷ (b'n' ∷ [], 4)
    ∷ (b'k' ∷ [], weapon_k second third)
    ∷ (b'h' ∷ [], 7)
    ∷ (b'm' ∷ [], weapon_m second)
    ∷ (b'c' ∷ [], weapon_c second)
    ∷ (b'r' ∷ [], weapon_r second)
    ∷ (b't' ∷ [], weapon_t second third)
    ∷ (b'p' ∷ [], 18)
    ∷ (b'u' ∷ [], 23)
    ∷ (b'i' ∷ [], 24)
    ∷ (b'l' ∷ [], 29)
    ∷ []

unfoldable pub weapon_by : ℕ → ℕ → ℕ → ℕ
unfolding switch_on weapon_s weapon_m weapon_c weapon_r weapon_k weapon_t
weapon_by first second third = switch_on first (weapon_cases second third) no_weapon

unfoldable pub weapon_id : List ℕ → ℕ
unfolding weapon_by lower_at
weapon_id [] = 0
weapon_id (c ∷ cs) = weapon_by (lower_at (c ∷ cs) 0) (lower_at (c ∷ cs) 1) (lower_at (c ∷ cs) 2)
