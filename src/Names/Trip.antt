-- ===== src/Names/Trip.antt =====
-- src/bindings/names.cpp: the names of the tables that lead back to their id, by evaluation.
use vcmp_lua.Names.{is_label}
use vcmp_lua.Names.Weapons.{weapon_id}
use vcmp_lua.Names.Search.{skin_id}
use vcmp_lua.Names.Tables.{skin_name, weapon_name}
use vcmp_lua.Prelude.{
  Within-join, all_from-Within, Within, eq_of_eq_ℤ, ap, eq_of_==, eq_ℤ, ◌==◌, [], arith, codes,
  false, none, pos, refl, some, true, ℤ, ◌||◌, ◌∷◌, Bool, List, Option, ◌<◌, ◌≡◌, ℕ,
}

-- The id that the name of a skin leads to, and the same of a weapon.
unfoldable pub skin_trip : ℤ → Option ℤ
unfolding skin_name skin_id
skin_trip id = elim (skin_name id) [ none ↦ none | some text ↦ some (skin_id (codes text)) ]

unfoldable pub weapon_trip : ℤ → ℕ
unfolding weapon_name weapon_id
weapon_trip id = weapon_id (codes (weapon_name id))

-- The ids whose name leads elsewhere, and 8, which has no name.
abbrev pub other_skins : List ℕ
other_skins = 8 ∷ 25 ∷ 44 ∷ 49 ∷ 70 ∷ 114 ∷ 115 ∷ 120 ∷ 122 ∷ 125 ∷ 132 ∷ 133 ∷ 147 ∷ []

abbrev pub other_weapons : List ℕ
other_weapons = 0 ∷ 16 ∷ 19 ∷ []

abbrev comes_back : Option ℤ → ℕ → Bool
comes_back none i = false
comes_back (some id) i = eq_ℤ id (pos i)

other_or : (b c : Bool) → (b || c) ≡ true → b ≡ false → c ≡ true
other_or b c h e = grind arith

skin_test : ℕ → Bool
unfolding skin_trip
skin_test i = is_label i other_skins || comes_back (skin_trip (pos i)) i

weapon_test : ℕ → Bool
unfolding weapon_trip
weapon_test i = is_label i other_weapons || weapon_trip (pos i) == i

skins_0 : Within skin_test 0 20
unfolding skin_test
skins_0 = all_from-Within skin_test 20 0 refl

skins_20 : Within skin_test 20 40
unfolding skin_test
skins_20 = all_from-Within skin_test 20 20 refl

skins_40 : Within skin_test 40 60
unfolding skin_test
skins_40 = all_from-Within skin_test 20 40 refl

skins_60 : Within skin_test 60 80
unfolding skin_test
skins_60 = all_from-Within skin_test 20 60 refl

skins_80 : Within skin_test 80 100
unfolding skin_test
skins_80 = all_from-Within skin_test 20 80 refl

skins_100 : Within skin_test 100 120
unfolding skin_test
skins_100 = all_from-Within skin_test 20 100 refl

skins_120 : Within skin_test 120 140
unfolding skin_test
skins_120 = all_from-Within skin_test 20 120 refl

skins_140 : Within skin_test 140 160
unfolding skin_test
skins_140 = all_from-Within skin_test 20 140 refl

all-skin_test : Within skin_test 0 160
all-skin_test =
    Within-join skin_test 0 140 160
      (Within-join skin_test 0 120 140
        (Within-join skin_test 0 100 120
          (Within-join skin_test 0 80 100
            (Within-join skin_test 0 60 80
              (Within-join skin_test 0 40 60 (Within-join skin_test 0 20 40 skins_0 skins_20)
                skins_40)
              skins_60)
            skins_80)
          skins_100)
        skins_120)
      skins_140

all-weapon_test : Within weapon_test 0 34
unfolding weapon_test
all-weapon_test = all_from-Within weapon_test 34 0 refl

eq_of_comes_back : (o : Option ℤ) (i : ℕ) → comes_back o i ≡ true → o ≡ some (pos i)
eq_of_comes_back none i h = cc
eq_of_comes_back (some id) i h = ap some (eq_of_eq_ℤ id (pos i) h)

-- For every skin id below 160 but 8, which has no name, and twelve listed ids, SkinName gives a
-- name that SkinId takes back to the same id.
pub skin_trip_lem :
    (i : ℕ) → i < 160 → is_label i other_skins ≡ false → skin_trip (pos i) ≡ some (pos i)
unfolding skin_test
skin_trip_lem i h e =
    eq_of_comes_back (skin_trip (pos i)) i
      (other_or (is_label i other_skins) _ (all-skin_test i (omega arith) h) e)

-- For every weapon id below 34 but 0, 16 and 19, WeaponId takes the name that WeaponName gives
-- back to the same id.
-- The same of the weapons that a player can hold.
weapon_trip_lem : (i : ℕ) → i < 34 → is_label i other_weapons ≡ false → weapon_trip (pos i) ≡ i
unfolding weapon_test
weapon_trip_lem i h e =
    eq_of_== (weapon_trip (pos i)) i
      (other_or (is_label i other_weapons) _ (all-weapon_test i (omega arith) h) e)
