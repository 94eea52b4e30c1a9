-- ===== src/Names/Search/Early.antt =====
-- src/bindings/names.cpp, `SkinId`: the search among the names that begin with a to c.
-- Every function is one case of `switch (a)`.
use vcmp_lua.Names.SkinIds.{
  business_man_f, business_man_e, business_man_d, business_man_c, business_man_b, business_man_a,
  bum_lady_e, bum_lady_d, bum_lady_c, bum_lady_b, bum_lady_a, bum_guy_c, cuban_b, bum_guy_b,
  cuban_a, bum_guy_a, criminal_b, biker_b, criminal_a, biker_a, cortez, beach_lady_g, cop,
  beach_lady_f, cool_guy_d, beach_lady_e, cool_guy_c, beach_lady_d, cool_guy_b, beach_lady_c,
  cool_guy_a, beach_lady_b, construction_worker_b, beach_lady_a, construction_worker_a, beach_guy_h,
  columbian_guy_b, beach_guy_g, columbian_guy_a, beach_guy_f, club_lady, beach_guy_e, church_lady,
  beach_guy_d, church_guy, beach_guy_c, chef, beach_guy_b, candy_suxx, beach_guy_a, cam, unknown,
  army, cam_robber, arabic_guy, alex_srub, SkinIdValue,
}
use vcmp_lua.Names.Key.{has_at, Key}
use vcmp_lua.Names.{present, is, switch_on}
use vcmp_lua.Prelude.{◌==◌, ◌||◌, ◌&&◌, [], if◌then◌else◌, ◌∷◌}

unfoldable pub skin_a : Key → SkinIdValue
unfolding switch_on
skin_a k =
    switch_on k.b
      ((b'l' ∷ b's' ∷ [], alex_srub)
        ∷ (b'g' ∷ [], arabic_guy)
        ∷ (b'r' ∷ [], (if is k.c b'a' then arabic_guy else if is k.c b'm' then army else unknown))
        ∷ [])
      unknown

unfoldable pub skin_b : Key → SkinIdValue
unfolding switch_on
skin_b k =
    if is k.b b'e' && (is k.c b'g' || has_at k 5 b'g')
    then switch_on k.d
        ((b'1' ∷ b'a' ∷ [], beach_guy_a)
          ∷ (b'2' ∷ b'b' ∷ [], beach_guy_b)
          ∷ (b'3' ∷ b'c' ∷ [], beach_guy_c)
          ∷ (b'4' ∷ b'd' ∷ [], beach_guy_d)
          ∷ (b'5' ∷ b'e' ∷ [], beach_guy_e)
          ∷ (b'6' ∷ b'f' ∷ [], beach_guy_f)
          ∷ (b'7' ∷ b'g' ∷ [], beach_guy_g)
          ∷ (b'8' ∷ b'h' ∷ [], beach_guy_h)
          ∷ [])
        unknown
    else if is k.b b'e' && (is k.c b'l' || has_at k 5 b'l')
    then switch_on k.d
        ((b'1' ∷ b'a' ∷ [], beach_lady_a)
          ∷ (b'2' ∷ b'b' ∷ [], beach_lady_b)
          ∷ (b'3' ∷ b'c' ∷ [], beach_lady_c)
          ∷ (b'4' ∷ b'd' ∷ [], beach_lady_d)
          ∷ (b'5' ∷ b'e' ∷ [], beach_lady_e)
          ∷ (b'6' ∷ b'f' ∷ [], beach_lady_f)
          ∷ (b'7' ∷ b'g' ∷ [], beach_lady_g)
          ∷ [])
        unknown
    else if is k.b b'i' && (k.d == b'1' || k.d == b'a')
    then biker_a
    else if is k.b b'i' && (k.d == b'2' || k.d == b'b')
    then biker_b
    else if is k.b b'u' && present k.c && (k.c == b'm' || k.c == b'g' || k.c == b'l')
    then if k.c == b'g' || has_at k 3 b'g'
      then if k.d == b'1' || k.d == b'a'
        then bum_guy_a
        else if k.d == b'2' || k.d == b'b'
        then bum_guy_b
        else if k.d == b'3' || k.d == b'c'
        then bum_guy_c
        else unknown
      else if k.c == b'l' || has_at k 3 b'l'
      then if k.d == b'1' || k.d == b'a'
        then bum_lady_a
        else if k.d == b'2' || k.d == b'b'
        then bum_lady_b
        else if k.d == b'2' || k.d == b'c'
        then bum_lady_c
        else if k.d == b'3' || k.d == b'd'
        then bum_lady_d
        else if k.d == b'4' || k.d == b'e'
        then bum_lady_e
        else unknown
      else unknown
    else if is k.b b'u' && (is k.c b's' || has_at k 9 b'm')
    then switch_on k.d
        ((b'1' ∷ b'a' ∷ [], business_man_a)
          ∷ (b'2' ∷ b'b' ∷ [], business_man_b)
          ∷ (b'3' ∷ b'c' ∷ [], business_man_c)
          ∷ (b'4' ∷ b'd' ∷ [], business_man_d)
          ∷ (b'5' ∷ b'e' ∷ [], business_man_e)
          ∷ (b'6' ∷ b'f' ∷ [], business_man_f)
          ∷ [])
        unknown
    else unknown

unfoldable pub skin_c : Key → SkinIdValue
unfolding switch_on
skin_c k =
    if is k.b b'a'
    then if present k.c && (k.c == b'm' || k.c == b'r') && k.d == b'r'
      then cam_robber
      else if is k.c b'm'
      then cam
      else if present k.c && (k.c == b'n' || k.c == b's' || k.d == b'x')
      then candy_suxx
      else unknown
    else if is k.b b'h'
    then if present k.c && (k.c == b'e' || k.d == b'f')
      then chef
      else if present k.c && ((k.c == b'u' && has_at k 6 b'g') || k.c == b'g')
      then church_guy
      else if present k.c && ((k.c == b'u' && has_at k 6 b'l') || k.c == b'l')
      then church_lady
      else unknown
    else if is k.b b'l'
    then club_lady
    else if is k.b b'o'
    then if present k.c && ((k.c == b'l' && has_at k 9 b'g') || k.c == b'g')
      then if k.d == b'1' || k.d == b'a'
        then columbian_guy_a
        else if k.d == b'2' || k.d == b'b'
        then columbian_guy_b
        else unknown
      else if present k.c && (k.c == b'n' || has_at k 12 b'g')
      then if k.d == b'1' || k.d == b'a'
        then construction_worker_a
        else if k.d == b'2' || k.d == b'b'
        then construction_worker_b
        else unknown
      else if is k.c b'o'
      then switch_on k.d
          ((b'1' ∷ b'a' ∷ [], cool_guy_a)
            ∷ (b'2' ∷ b'b' ∷ [], cool_guy_b)
            ∷ (b'3' ∷ b'c' ∷ [], cool_guy_c)
            ∷ (b'4' ∷ b'd' ∷ [], cool_guy_d)
            ∷ [])
          unknown
      else if is k.c b'p'
      then cop
      else if present k.c && (k.c == b'r' || k.c == b'z' || k.d == b'z')
      then cortez
      else unknown
    else if is k.b b'r' && (k.d == b'1' || k.d == b'a')
    then criminal_a
    else if is k.b b'r' && (k.d == b'2' || k.d == b'b')
    then criminal_b
    else if is k.b b'u' && (k.d == b'1' || k.d == b'a')
    then cuban_a
    else if is k.b b'u' && (k.d == b'2' || k.d == b'b')
    then cuban_b
    else unknown
