-- ===== src/Names/Search.antt =====
-- src/bindings/names.cpp, `SkinId`: the skin that a name refers to.
pub mod Early
pub mod Middle
pub mod Late
pub mod Last
use vcmp_lua.Names.Search.Last.{skin_w, skin_v, skin_u, skin_t}
use vcmp_lua.Names.Search.Late.{skin_s, skin_r, skin_p, skin_o, skin_m}
use vcmp_lua.Names.Search.Middle.{skin_l, skin_k, skin_h, skin_g, skin_f, skin_d}
use vcmp_lua.Names.Search.Early.{skin_c, skin_b, skin_a}
use vcmp_lua.Names.SkinIds.{unknown, SkinIdValue, skin_value}
use vcmp_lua.Names.Key.{clean, Key, key_of}
use vcmp_lua.Names.{switch_on}
use vcmp_lua.Prelude.{[], false, if◌then◌else◌, true, ◌∷◌, Bool, ℤ, List, ℕ}

-- `switch (a)`.
unfoldable pub search_skin : Key → SkinIdValue
unfolding switch_on skin_a skin_b skin_c skin_d skin_f skin_g skin_h skin_k skin_l skin_m skin_o
    skin_p skin_r skin_s skin_t skin_u skin_v skin_w
search_skin k =
    switch_on k.a
      ((b'a' ∷ [], skin_a k)
        ∷ (b'b' ∷ [], skin_b k)
        ∷ (b'c' ∷ [], skin_c k)
        ∷ (b'd' ∷ [], skin_d k)
        ∷ (b'f' ∷ [], skin_f k)
        ∷ (b'g' ∷ [], skin_g k)
        ∷ (b'h' ∷ [], skin_h k)
        ∷ (b'k' ∷ [], skin_k k)
        ∷ (b'l' ∷ [], skin_l k)
        ∷ (b'm' ∷ [], skin_m k)
        ∷ (b'o' ∷ [], skin_o k)
        ∷ (b'p' ∷ [], skin_p k)
        ∷ (b'r' ∷ [], skin_r k)
        ∷ (b's' ∷ [], skin_s k)
        ∷ (b't' ∷ [], skin_t k)
        ∷ (b'u' ∷ [], skin_u k)
        ∷ (b'v' ∷ [], skin_v k)
        ∷ (b'w' ∷ [], skin_w k)
        ∷ [])
      unknown

abbrev is_empty : List ℕ → Bool
is_empty [] = true
is_empty (c ∷ cs) = false

-- `str.empty()` gives no skin.
unfoldable pub skin_by : Key → SkinIdValue
unfolding search_skin
skin_by k = if is_empty k.str then unknown else search_skin k

unfoldable pub skin_of : List ℕ → SkinIdValue
unfolding skin_by key_of
skin_of name = skin_by (key_of name)

unfoldable pub skin_id : List ℕ → ℤ
unfolding skin_of skin_value
skin_id name = skin_value (skin_of name)
