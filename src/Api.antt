-- ===== src/Api.antt =====
-- src/plugin/api_guard.hpp: the fields of the server's structs that its version has.
pub mod Start
pub mod Listing
pub mod Fields
use vcmp_lua.Prelude.{
  ok, err, none, ◌-◌, Result, if◌then◌else◌, ◌&&◌, String, leb, some, Bool, Option, ℕ,
}

-- FieldFits. The subtraction is reached only where it does not wrap.
unfoldable pub field_fits : ℕ → ℕ → ℕ → Bool
field_fits struct_size offset size = leb offset struct_size && leb size (struct_size - offset)

-- `offsetof` and `sizeof` of a field.
pub record Field : Type 0 where
  pub offset : ℕ
  pub size : ℕ

-- VCMP_LUA_HAS_FIELD.
abbrev pub has_field : ℕ → Field → Bool
has_field struct_size f = field_fits struct_size f.offset f.size

-- A ServerApi with non-null `funcs`: the size of the struct, and what its fields hold, null as none.
pub record ServerApi (Fn : Type 0) : Type 0 where
  pub funcs_size : ℕ
  pub funcs : Field → Option Fn

-- VCMP_LUA_FIND and VCMP_LUA_API.
unfoldable pub find_function : {Fn : Type 0} → Option (ServerApi Fn) → Field → Option Fn
find_function none f = none
find_function (some api) f = if has_field api.funcs_size f then api.funcs f else none

unfoldable pub require_function :
    {Fn : Type 0} → Option (ServerApi Fn) → Field → String → Result String Fn
unfolding find_function
require_function api f name = elim (find_function api f) [ none ↦ err name | some fn ↦ ok fn ]
