-- ===== src/Names/Case.antt =====
-- src/bindings/names.cpp: the letters of a name count in either case.
use vcmp_lua.Names.SkinIds.{skin_value}
use vcmp_lua.Names.Weapons.{weapon_id}
use vcmp_lua.Names.Search.{skin_by, skin_of, skin_id}
use vcmp_lua.Names.Key.{clean, key_of}
use vcmp_lua.Names.{is_alnum, lower, lower_at}
use vcmp_lua.Prelude.{
  zero, [], ap, suc, ◌∙◌, arith, refl, sym, ◌∷◌, get_or, length, map, ◌≡◌, List, ℕ,
}

lower_idem : (c : ℕ) → lower (lower c) ≡ lower c
unfolding lower
lower_idem c = ground arith

is_alnum-lower : (c : ℕ) → is_alnum (lower c) ≡ is_alnum c
unfolding lower is_alnum
is_alnum-lower c = ground arith

clean-lower : (name : List ℕ) → clean (map lower name) ≡ clean name
unfolding clean
clean-lower [] = refl
clean-lower (c ∷ cs) = rw (is_alnum-lower c, lower_idem c, clean-lower cs) refl

length-map : (name : List ℕ) → length (map lower name) ≡ length name
length-map [] = refl
length-map (c ∷ cs) = ap suc (length-map cs)

get_or-lower :
    (name : List ℕ) (i : ℕ) → lower (get_or (map lower name) i 0) ≡ lower (get_or name i 0)
unfolding lower
get_or-lower [] i = refl
get_or-lower (c ∷ cs) zero = lower_idem c
get_or-lower (c ∷ cs) (suc i) = get_or-lower cs i

lower_at-lower : (name : List ℕ) (i : ℕ) → lower_at (map lower name) i ≡ lower_at name i
unfolding lower_at
lower_at-lower name i = rw (length-map name, get_or-lower name i) refl

key_of-lower : (name : List ℕ) → key_of (map lower name) ≡ key_of name
unfolding key_of
key_of-lower name =
    rw (lower_at-lower name 0, lower_at-lower name 1, lower_at-lower name 2, clean-lower name) refl

skin_id-lower : (name : List ℕ) → skin_id (map lower name) ≡ skin_id name
unfolding skin_id skin_of
skin_id-lower name = ap (λ k. skin_value (skin_by k)) (key_of-lower name)

weapon_id-lower : (name : List ℕ) → weapon_id (map lower name) ≡ weapon_id name
unfolding weapon_id
weapon_id-lower [] = refl
weapon_id-lower (c ∷ cs) =
    rw (lower_at-lower (c ∷ cs) 0, lower_at-lower (c ∷ cs) 1, lower_at-lower (c ∷ cs) 2) refl

-- Two texts that are equal up to the case of their letters refer to the same skin and to the same
-- weapon.
pub same_ignoring_case :
    (x y : List ℕ)
    → map lower x ≡ map lower y
    → (skin_id x ≡ skin_id y) × (weapon_id x ≡ weapon_id y)
same_ignoring_case x y e = (
  sym (skin_id-lower x) ∙ ap skin_id e ∙ skin_id-lower y,
  sym (weapon_id-lower x) ∙ ap weapon_id e ∙ weapon_id-lower y,
)
