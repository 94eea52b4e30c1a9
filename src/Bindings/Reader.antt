-- ===== src/Bindings/Reader.antt =====
-- src/bindings/args.hpp, ArgReader: the arguments of the running function by position.
-- `tables` reads the tables of Lua from the state, and `single` converts a number to a `float`.
use vcmp_lua.Args.Tables.{get_vector, Vec3}
use vcmp_lua.Bindings.{◌>>=◌, err, give, lift, ok, read, Act}
use vcmp_lua.Args.Numbers.{
  check_number, check_boolean, check_integer, int32_max, uint32_max, int32_min,
}
use vcmp_lua.Args.{
  nil_value, absent, BindingError, LuaNumber, number_value, table_value, value_at, Binding,
  LuaTable, LuaValue,
}
use vcmp_lua.Prelude.{false, if◌then◌else◌, true, ◌-◌, Bool, Result, pos, ℤ, ◌+◌, ℕ}

-- The function's stack, and the stack index of argument 1.
pub record ArgReader : Type 0 where
  pub binding : Binding
  pub first : ℕ

abbrev pub index_of : ArgReader → ℕ → ℕ
index_of r i = r.first + i - 1

abbrev pub arg : ArgReader → ℕ → LuaValue
arg r i = value_at r.binding (index_of r i)

abbrev pub is_missing : LuaValue → Bool
is_missing absent = true
is_missing nil_value = true
is_missing _ = false

abbrev pub is_table : LuaValue → Bool
is_table (table_value t) = true
is_table _ = false

abbrev pub is_number : LuaValue → Bool
is_number (number_value n) = true
is_number _ = false

-- The range of an integer type.
abbrev pub IntRange : Type 0
IntRange = ℤ × ℤ

abbrev pub int32 : IntRange
int32 = (int32_min, int32_max)

abbrev pub uint32 : IntRange
uint32 = (pos 0, uint32_max)

abbrev pub uint8 : IntRange
uint8 = (pos 0, pos 255)

-- `Int` and `IntOr`.
unfoldable pub int_arg : IntRange → ArgReader → ℕ → Result BindingError ℤ
int_arg t r i = check_integer r.binding (index_of r i) t.0 t.1

unfoldable pub int_or : IntRange → ArgReader → ℕ → ℤ → Result BindingError ℤ
unfolding int_arg
int_or t r i fallback = if is_missing (arg r i) then ok fallback else int_arg t r i

-- `Bool` and `BoolOr`.
unfoldable pub bool_arg : ArgReader → ℕ → Result BindingError Bool
bool_arg r i = check_boolean r.binding (index_of r i)

unfoldable pub bool_or : ArgReader → ℕ → Bool → Result BindingError Bool
unfolding bool_arg
bool_or r i fallback = if is_missing (arg r i) then ok fallback else bool_arg r i

module _ {H F : Type 0} (tables : H → ℕ → LuaTable) (single : LuaNumber → F) where
  -- `Number`.
  unfoldable pub number_arg : ArgReader → ℕ → Act H F
  number_arg r i = do n ← lift (check_number r.binding (index_of r i)); give (single n)

  -- `Vector`: the vector, and the argument after it.
  unfoldable pub vector_arg : ArgReader → ℕ → Act H (Vec3 F × ℕ)
  vector_arg r i w = (
    elim (get_vector single (tables w.host) r.binding (index_of r i)) [
      | ok v ↦ ok (v.0, i + v.1)
      | err e ↦ err e
    ],
    w,
  )

-- The table that a value refers to, as it is now; another value has no elements.
abbrev pub table_of : {H : Type 0} → (H → ℕ → LuaTable) → LuaValue → Act H LuaTable
table_of tables (table_value t) = read (λ w. tables w.host t)
table_of tables _ =
    give (record { element = λ i. nil_value; field = λ k. nil_value; raw_length = 0 })
