-- ===== src/Names/Search/Middle.antt =====
-- src/bindings/names.cpp, `SkinId`: the search among the names that begin with d to l.
-- Every function is one case of `switch (a)`.
use vcmp_lua.Names.SkinIds.{
  gym_lady, gym_guy, granny_b, granny_a, golf_lady, golf_guy_c, love_fist_d, golf_guy_b,
  love_fist_c, golf_guy_a, hood_lady, love_fist_b, diaz_guy_b, garbageman_e, hilary, love_fist_a,
  diaz_guy_a, garbageman_d, hilary_robber, lawyer, garbageman_c, hatian_e, lance_b, unknown,
  dbp_security_b, french_guy, garbageman_b, hatian_d, lance_a, dbp_security_a, food_lady,
  garbageman_a, hatian_c, lance_cop, fireman, hatian_b, fbi, hatian_a, ken_rosenburg, SkinIdValue,
}
use vcmp_lua.Names.Key.{has_at, Key}
use vcmp_lua.Names.{is, present, switch_on}
use vcmp_lua.Prelude.{◌||◌, ◌&&◌, ◌==◌, [], if◌then◌else◌, ◌∷◌}

unfoldable pub skin_d : Key → SkinIdValue
unfolding switch_on
skin_d k =
    switch_on k.b
      ((
        b'b' ∷ b's' ∷ [],
        (if k.d == b'1' || k.d == b'a'
            then dbp_security_a
            else if k.d == b'2' || k.d == b'b'
            then dbp_security_b
            else unknown),
      )
        ∷ (
          b'i' ∷ b'z' ∷ b'g' ∷ [],
          (if k.d == b'1' || k.d == b'a'
              then diaz_guy_a
              else if k.d == b'2' || k.d == b'b'
              then diaz_guy_b
              else unknown),
        )
        ∷ [])
      unknown

unfoldable pub skin_f : Key → SkinIdValue
unfolding switch_on
skin_f k =
    switch_on k.b
      ((b'b' ∷ [], fbi)
        ∷ (b'i' ∷ b'm' ∷ [], fireman)
        ∷ (b'o' ∷ b'l' ∷ [], food_lady)
        ∷ (b'r' ∷ b'g' ∷ [], french_guy)
        ∷ [])
      unknown

unfoldable pub skin_g : Key → SkinIdValue
unfolding switch_on
skin_g k =
    if present k.b && (k.b == b'a' || k.b == b'm')
    then switch_on k.d
        ((b'1' ∷ b'a' ∷ [], garbageman_a)
          ∷ (b'2' ∷ b'b' ∷ [], garbageman_b)
          ∷ (b'3' ∷ b'c' ∷ [], garbageman_c)
          ∷ (b'4' ∷ b'd' ∷ [], garbageman_d)
          ∷ (b'5' ∷ b'e' ∷ [], garbageman_e)
          ∷ [])
        unknown
    else if is k.b b'o' && (is k.c b'g' || has_at k 4 b'g')
    then switch_on k.d
        ((b'1' ∷ b'a' ∷ [], golf_guy_a)
          ∷ (b'2' ∷ b'b' ∷ [], golf_guy_b)
          ∷ (b'3' ∷ b'c' ∷ [], golf_guy_c)
          ∷ [])
        unknown
    else if is k.b b'o' && (is k.c b'l' || has_at k 4 b'l')
    then golf_lady
    else if is k.b b'r'
    then if k.d == b'1' || k.d == b'a'
      then granny_a
      else if k.d == b'2' || k.d == b'b'
      then granny_b
      else unknown
    else if present k.b && (k.b == b'g' || (k.b == b'y' && has_at k 3 b'g'))
    then gym_guy
    else if present k.b && (k.b == b'l' || (k.b == b'y' && has_at k 3 b'l'))
    then gym_lady
    else unknown

unfoldable pub skin_h : Key → SkinIdValue
unfolding switch_on
skin_h k =
    let id : SkinIdValue =
      if is k.b b'a'
      then switch_on k.d
          ((b'1' ∷ b'a' ∷ [], hatian_a)
            ∷ (b'2' ∷ b'b' ∷ [], hatian_b)
            ∷ (b'3' ∷ b'c' ∷ [], hatian_c)
            ∷ (b'4' ∷ b'd' ∷ [], hatian_d)
            ∷ (b'5' ∷ b'e' ∷ [], hatian_e)
            ∷ [])
          unknown
      else if present k.b && (k.b == b'i' || k.b == b'r') && k.d == b'r'
      then hilary_robber
      else if is k.b b'i'
      then hilary
      else unknown in
    if present k.b && (k.b == b'o' || k.b == b'l') then hood_lady else id

unfoldable pub skin_k : Key → SkinIdValue
unfolding switch_on
skin_k _ = ken_rosenburg

unfoldable pub skin_l : Key → SkinIdValue
unfolding switch_on
skin_l k =
    if is k.b b'a' && is k.c b'n' && (has_at k 5 b'c' || k.d == b'p')
    then lance_cop
    else if present k.b && (k.b == b'c' || (k.b == b'a' && is k.c b'n'))
    then lance_cop
    else if is k.b b'a' && is k.c b'n'
    then if k.d == b'1' || k.d == b'a'
      then lance_a
      else if k.d == b'2' || k.d == b'b'
      then lance_b
      else unknown
    else if present k.b && (k.b == b'w' || (k.b == b'a' && is k.c b'w'))
    then lawyer
    else if present k.b && (k.b == b'o' || k.b == b'f')
    then switch_on k.d
        ((b'1' ∷ b'a' ∷ [], love_fist_a)
          ∷ (b'2' ∷ b'b' ∷ [], love_fist_b)
          ∷ (b'3' ∷ b'c' ∷ [], love_fist_c)
          ∷ (b'd' ∷ [], love_fist_d)
          ∷ [])
        unknown
    else unknown
