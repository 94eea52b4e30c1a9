-- ===== src/Names/Search/Late.antt =====
-- src/bindings/names.cpp, `SkinId`: the search among the names that begin with m to s.
-- Every function is one case of `switch (a)`.
use vcmp_lua.Names.SkinIds.{
  swat, stripper_c, stripper_b, stripper_a, store_clerk, spanish_lady_d, spanish_lady_c,
  spanish_lady_b, punk_c, spanish_lady_a, punk_b, spanish_guy, punk_a, spandex_guy_b, prostitute_f,
  spandex_guy_a, prostitute_e, sonny_guy_c, prostitute_d, sonny_guy_b, prostitute_c, sonny_guy_a,
  prostitute_b, skate_lady, prostitute_a, skate_guy, pizzaman, shopper_b, pimp, shopper_a, phil,
  shark_b, phil_robber, shark_a, sailor_c, sailor_b, office_lady_b, phil_one_arm, sailor_a, unknown,
  mercades_a, office_lady_a, rockstar_guy, mercades_b, paramedic, rich_guy, SkinIdValue,
}
use vcmp_lua.Names.Key.{has_at, Key}
use vcmp_lua.Names.{present, is, switch_on}
use vcmp_lua.Prelude.{◌&&◌, [], ◌||◌, ◌∷◌, ◌==◌, if◌then◌else◌}

unfoldable pub skin_m : Key → SkinIdValue
unfolding switch_on
skin_m k = if k.d == b'b' then mercades_b else mercades_a

unfoldable pub skin_o : Key → SkinIdValue
unfolding switch_on
skin_o k =
    if k.d == b'1' || k.d == b'a'
    then office_lady_a
    else if k.d == b'2' || k.d == b'b'
    then office_lady_b
    else unknown

unfoldable pub skin_p : Key → SkinIdValue
unfolding switch_on
skin_p k =
    if is k.b b'a'
    then paramedic
    else if is k.b b'h'
    then if k.b == b'o' || is k.c b'o' || has_at k 4 b'o' || k.d == b'm'
      then phil_one_arm
      else if present k.c && (k.c == b'r' || k.d == b'r' || has_at k 4 b'r')
      then phil_robber
      else if is k.c b'i'
      then phil
      else unknown
    else if is k.b b'i' && (is k.c b'm' || k.d == b'p')
    then pimp
    else if is k.b b'i' && (is k.c b'z' || k.d == b'n')
    then pizzaman
    else if is k.b b'r'
    then switch_on k.d
        ((b'1' ∷ b'a' ∷ [], prostitute_a)
          ∷ (b'2' ∷ b'b' ∷ [], prostitute_b)
          ∷ (b'c' ∷ [], prostitute_c)
          ∷ (b'd' ∷ [], prostitute_d)
          ∷ (b'3' ∷ b'e' ∷ [], prostitute_e)
          ∷ (b'4' ∷ b'f' ∷ [], prostitute_f)
          ∷ [])
        unknown
    else if is k.b b'u'
    then switch_on k.d
        ((b'1' ∷ b'a' ∷ [], punk_a) ∷ (b'2' ∷ b'b' ∷ [], punk_b) ∷ (b'3' ∷ b'c' ∷ [], punk_c) ∷ [])
        unknown
    else unknown

unfoldable pub skin_r : Key → SkinIdValue
unfolding switch_on
skin_r k = if is k.b b'i' then rich_guy else if is k.b b'o' then rockstar_guy else unknown

unfoldable pub skin_s : Key → SkinIdValue
unfolding switch_on
skin_s k =
    if is k.b b'a'
    then switch_on k.d
        ((b'1' ∷ b'a' ∷ [], sailor_a)
          ∷ (b'2' ∷ b'b' ∷ [], sailor_b)
          ∷ (b'3' ∷ b'c' ∷ [], sailor_c)
          ∷ [])
        unknown
    else if is k.b b'h' && is k.c b'a'
    then switch_on k.d ((b'1' ∷ b'a' ∷ [], shark_a) ∷ (b'2' ∷ b'b' ∷ [], shark_b) ∷ []) unknown
    else if is k.b b'h' && is k.c b'o'
    then switch_on k.d ((b'1' ∷ b'a' ∷ [], shopper_a) ∷ (b'2' ∷ b'b' ∷ [], shopper_b) ∷ []) unknown
    else if is k.b b'k' && (is k.c b'g' || has_at k 5 b'g')
    then skate_guy
    else if is k.b b'k' && (is k.c b'l' || has_at k 5 b'l')
    then skate_lady
    else if is k.b b'o'
    then switch_on k.d
        ((b'1' ∷ b'a' ∷ [], sonny_guy_a)
          ∷ (b'2' ∷ b'b' ∷ [], sonny_guy_b)
          ∷ (b'3' ∷ b'c' ∷ [], sonny_guy_c)
          ∷ [])
        unknown
    else if is k.b b'g'
    then switch_on k.d
        ((b'1' ∷ b'a' ∷ [], sonny_guy_a)
          ∷ (b'2' ∷ b'b' ∷ [], sonny_guy_b)
          ∷ (b'3' ∷ b'c' ∷ [], sonny_guy_c)
          ∷ [])
        unknown
    else if is k.b b'p' && (is k.c b'x' || has_at k 6 b'x')
    then switch_on k.d ((b'1' ∷ b'a' ∷ [], spandex_guy_a) ∷ (b'2' ∷ b'b' ∷ [], spandex_guy_b) ∷ [])
        unknown
    else if is k.b b'p' && (is k.c b'g' || has_at k 7 b'g')
    then spanish_guy
    else if is k.b b'p' && (is k.c b'l' || has_at k 7 b'l')
    then switch_on k.d
        ((b'1' ∷ b'a' ∷ [], spanish_lady_a)
          ∷ (b'2' ∷ b'b' ∷ [], spanish_lady_b)
          ∷ (b'3' ∷ b'c' ∷ [], spanish_lady_c)
          ∷ (b'4' ∷ b'd' ∷ [], spanish_lady_d)
          ∷ [])
        unknown
    else if is k.b b't' && is k.c b'o'
    then store_clerk
    else if is k.b b't' && is k.c b'r'
    then switch_on k.d
        ((b'1' ∷ b'a' ∷ [], stripper_a)
          ∷ (b'2' ∷ b'b' ∷ [], stripper_b)
          ∷ (b'3' ∷ b'c' ∷ [], stripper_c)
          ∷ [])
        unknown
    else if is k.b b'w'
    then swat
    else unknown
