-- ===== src/Names/Search/Last.antt =====
-- src/bindings/names.cpp, `SkinId`: the search among the names that begin with t to w.
-- Every function is one case of `switch (a)`.
use vcmp_lua.Names.SkinIds.{
  tranny, tourist_b, tourist_a, tommy_vercetti, thug_b, undercover_cop_f, thug_a, undercover_cop_e,
  taxi_driver_d, undercover_cop_d, taxi_driver_c, undercover_cop_c, unknown, taxi_driver_b,
  undercover_cop_b, vercetti_guy_b, waitress_b, taxi_driver_a, undercover_cop_a, vercetti_guy_a,
  waitress_a, SkinIdValue,
}
use vcmp_lua.Names.Key.{Key}
use vcmp_lua.Names.{is, switch_on}
use vcmp_lua.Prelude.{◌||◌, ◌==◌, ◌&&◌, if◌then◌else◌, [], ◌∷◌}

unfoldable pub skin_t : Key → SkinIdValue
unfolding switch_on
skin_t k =
    switch_on k.b
      ((
        b'a' ∷ [],
        (switch_on k.d
            ((b'1' ∷ b'a' ∷ [], taxi_driver_a)
              ∷ (b'2' ∷ b'b' ∷ [], taxi_driver_b)
              ∷ (b'c' ∷ [], taxi_driver_c)
              ∷ (b'd' ∷ [], taxi_driver_d)
              ∷ [])
            unknown),
      )
        ∷ (
          b'h' ∷ [],
          (switch_on k.d ((b'1' ∷ b'a' ∷ [], thug_a) ∷ (b'5' ∷ b'b' ∷ [], thug_b) ∷ []) unknown),
        )
        ∷ (b'v' ∷ [], tommy_vercetti)
        ∷ (
          b'o' ∷ [],
          (if is k.c b'm'
              then tommy_vercetti
              else if is k.c b'u' && (k.d == b'1' || k.d == b'a')
              then tourist_a
              else if is k.c b'u' && (k.d == b'2' || k.d == b'b')
              then tourist_b
              else unknown),
        )
        ∷ (b'r' ∷ [], tranny)
        ∷ [])
      unknown

unfoldable pub skin_u : Key → SkinIdValue
unfolding switch_on
skin_u k =
    switch_on k.d
      ((b'1' ∷ b'a' ∷ [], undercover_cop_a)
        ∷ (b'2' ∷ b'b' ∷ [], undercover_cop_b)
        ∷ (b'3' ∷ b'c' ∷ [], undercover_cop_c)
        ∷ (b'4' ∷ b'd' ∷ [], undercover_cop_d)
        ∷ (b'5' ∷ b'e' ∷ [], undercover_cop_e)
        ∷ (b'6' ∷ b'f' ∷ [], undercover_cop_f)
        ∷ [])
      unknown

unfoldable pub skin_v : Key → SkinIdValue
unfolding switch_on
skin_v k =
    switch_on k.d ((b'1' ∷ b'a' ∷ [], vercetti_guy_a) ∷ (b'2' ∷ b'b' ∷ [], vercetti_guy_b) ∷ [])
      unknown

unfoldable pub skin_w : Key → SkinIdValue
unfolding switch_on
skin_w k =
    switch_on k.d ((b'1' ∷ b'a' ∷ [], waitress_a) ∷ (b'2' ∷ b'b' ∷ [], waitress_b) ∷ []) unknown
