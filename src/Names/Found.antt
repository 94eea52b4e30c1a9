-- ===== src/Names/Found.antt =====
-- src/bindings/names.cpp: what the searches by a name give, and the names that lead back to
-- their id.
use vcmp_lua.Names.SkinIds.{unknown}
use vcmp_lua.Names.Search.{skin_of, skin_id}
use vcmp_lua.Names.Named.{named_or_unknown, is_named}
use vcmp_lua.Names.Weapons.{
  weapon_c_cases, weapon_cases, weapon_m_cases, weapon_r_cases, weapon_s_cases, weapon_c, weapon_k,
  weapon_m, weapon_r, weapon_s, weapon_t, weapon_by, weapon_id, no_weapon,
}
use vcmp_lua.Names.Tables.{skin_name, weapon_names, text_of}
use vcmp_lua.Names.{lower_at, present, is, is_label, switch_on}
use vcmp_lua.Prelude.{
  ◌⊎◌, refl, true, if◌then◌else◌, ◌≡◌, pos, [], if_cases, ◌||◌, ◌∷◌, All, ◌==◌, Bool, List, ℕ,
}

-- A property of every branch of a switch is one of its result.
switch_on-All {ℓ κ} :
    {A : Type ℓ} (P : A → Type κ) (c : ℕ) (cases : List (List ℕ × A)) (other : A)
    → All (λ r. P r.1) cases
    → P other
    → P (switch_on c cases other)
unfolding switch_on
switch_on-All P c [] other h p = p
switch_on-All P c ((labels, a) ∷ rest) other h p =
    if_cases P (is_label c labels) a (switch_on c rest other) (λ _. h.0)
      (λ _. switch_on-All P c rest other h.1 p)

-- The value for no weapon, or an id that has a name.
unfoldable pub is_weapon : ℕ → Bool
unfolding text_of
is_weapon n = n == no_weapon || is_named (text_of weapon_names (pos n))

unfoldable IsWeapon : ℕ → Type 0
unfolding is_weapon
IsWeapon n = is_weapon n ≡ true

choice : (b : Bool) (x y : ℕ) → IsWeapon x → IsWeapon y → IsWeapon (if b then x else y)
choice b x y p q = if_cases IsWeapon b x y (λ _. p) (λ _. q)

weapon_s-IsWeapon : (second : ℕ) → IsWeapon (weapon_s second)
unfolding IsWeapon weapon_s
weapon_s-IsWeapon second =
    switch_on-All IsWeapon second weapon_s_cases 2
      (refl, (refl, (refl, (refl, (refl, (refl, tt)))))) refl

weapon_m-IsWeapon : (second : ℕ) → IsWeapon (weapon_m second)
unfolding IsWeapon weapon_m
weapon_m-IsWeapon second =
    switch_on-All IsWeapon second weapon_m_cases 26
      (refl, (refl, (refl, (refl, (refl, (refl, (refl, tt))))))) refl

weapon_c-IsWeapon : (second : ℕ) → IsWeapon (weapon_c second)
unfolding IsWeapon weapon_c
weapon_c-IsWeapon second = switch_on-All IsWeapon second weapon_c_cases 17 (refl, (refl, tt)) refl

weapon_r-IsWeapon : (second : ℕ) → IsWeapon (weapon_r second)
unfolding IsWeapon weapon_r
weapon_r-IsWeapon second =
    switch_on-All IsWeapon second weapon_r_cases 27 (refl, (refl, (refl, tt))) refl

weapon_k-IsWeapon : (second third : ℕ) → IsWeapon (weapon_k second third)
unfolding IsWeapon weapon_k
weapon_k-IsWeapon second third =
    choice (is second b'n') (if third == b'i' then 5 else if third == b'u' then 1 else no_weapon) 10
      (choice (third == b'i') 5 (if third == b'u' then 1 else no_weapon) refl
        (choice (third == b'u') 1 no_weapon refl refl))
      refl

weapon_t-IsWeapon : (second third : ℕ) → IsWeapon (weapon_t second third)
unfolding IsWeapon weapon_t
weapon_t-IsWeapon second third =
    choice (present second) (if is third b'a' then 14 else 22) 22
      (choice (is third b'a') 14 22 refl refl) refl

weapon_by-IsWeapon : (first second third : ℕ) → IsWeapon (weapon_by first second third)
unfolding IsWeapon weapon_by
weapon_by-IsWeapon first second third =
    switch_on-All IsWeapon first (weapon_cases second third) no_weapon
      (
        choice (is second b'i') 0 31 refl refl,
        (
          choice (is second b'r') 1 6 refl refl,
          (
            weapon_s-IsWeapon second,
            (
              choice (is second b'o') 3 12 refl refl,
              (
                refl,
                (
                  weapon_k-IsWeapon second third,
                  (
                    refl,
                    (
                      weapon_m-IsWeapon second,
                      (
                        weapon_c-IsWeapon second,
                        (
                          weapon_r-IsWeapon second,
                          (weapon_t-IsWeapon second third, (refl, (refl, (refl, (refl, tt))))),
                        ),
                      ),
                    ),
                  ),
                ),
              ),
            ),
          ),
        ),
      )
      refl

-- Whatever the text, WeaponId gives 255 or an id with a name in the table of weapons, and SkinId
-- gives -1 or an id with a name in the table of skins.
pub found_IsNamed :
    (name : List ℕ)
    → (is_weapon (weapon_id name) ≡ true)
      × ((skin_of name ≡ unknown) ⊎ (is_named (skin_name (skin_id name)) ≡ true))
unfolding weapon_id IsWeapon skin_id
found_IsNamed [] = (refl, named_or_unknown (skin_of []))
found_IsNamed (c ∷ cs) = (
  weapon_by-IsWeapon (lower_at (c ∷ cs) 0) (lower_at (c ∷ cs) 1) (lower_at (c ∷ cs) 2),
  named_or_unknown (skin_of (c ∷ cs)),
)
