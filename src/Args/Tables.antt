-- ===== src/Args/Tables.antt =====
-- src/bindings/args.cpp: the elements of tables, Vec3 arguments and the reader of arguments.
use vcmp_lua.Args.Numbers.{check_number, int64_min, int64_end}
use vcmp_lua.Args.{
  absent, nil_value, element_out_of_range, other_value, type_error, element_must_be,
  element_not_integer, string_value, table_value, whole, arg_error, boolean_value, number_value,
  value_at, BindingError, handle_value, integer, Binding, LuaNumber, LuaTable, LuaValue,
}
use vcmp_lua.Prelude.{
  ok, leb_ℤ, ◌||◌, ltb_ℤ, if◌then◌else◌, none, ◌+◌, some, ◌>>=◌, Result, String, ℤ, Option, ℕ,
}

-- `lua_typename`, which knows no entities.
abbrev pub lua_type_name : LuaValue → String
lua_type_name (handle_value _ _ _) = "userdata"
lua_type_name absent = "no value"
lua_type_name nil_value = "nil"
lua_type_name (boolean_value v) = "boolean"
lua_type_name (number_value n) = "number"
lua_type_name (string_value s) = "string"
lua_type_name (table_value t) = "table"
lua_type_name (other_value name) = name

-- `lua_tointegerx`: the integer that a number is.
abbrev to_integer : LuaNumber → Option ℤ
to_integer (integer z) = some z
to_integer (whole z) = if ltb_ℤ z int64_min || leb_ℤ int64_end z then none else some z
to_integer _ = none

abbrev element_within : Binding → ℕ → ℕ → ℤ → ℤ → Option ℤ → Result BindingError ℤ
element_within b index i low high none = arg_error b index (element_not_integer i)
element_within b index i low high (some value) =
    if ltb_ℤ value low || ltb_ℤ high value
    then arg_error b index (element_out_of_range i value low high)
    else ok value

-- A fallback, which only nil takes.
abbrev or_fallback : Option ℤ → Result BindingError ℤ → Result BindingError ℤ
or_fallback none r = r
or_fallback (some value) r = ok value

unfoldable pub table_integer : Binding → ℕ → LuaTable → ℕ → ℤ → ℤ → Option ℤ → Result BindingError ℤ
table_integer b index t i low high fallback = elim (t.element i) [
  | number_value n ↦ element_within b index i low high (to_integer n)
  | nil_value ↦ or_fallback fallback (arg_error b index (element_must_be i "an integer" "nil"))
  | v ↦ arg_error b index (element_must_be i "an integer" (lua_type_name v))
]

pub record Vec3 (F : Type 0) : Type 0 where
  pub x : F
  pub y : F
  pub z : F

-- The conversion of a Lua number to a `float`.
module _ {F : Type 0} (single : LuaNumber → F) where
  unfoldable pub table_number : Binding → ℕ → LuaTable → ℕ → Result BindingError F
  table_number b index t i = elim (t.element i) [
    | number_value n ↦ ok (single n)
    | v ↦ arg_error b index (element_must_be i "a number" (lua_type_name v))
  ]

  abbrev float_at : Binding → ℕ → Result BindingError F
  unfolding check_number
  float_at b index = do n ← check_number b index; ok (single n)

  abbrev vector_of_table : Binding → ℕ → LuaTable → Result BindingError (Vec3 F)
  unfolding table_number
  vector_of_table b index t = do
    x ← table_number b index t 1
    y ← table_number b index t 2
    z ← table_number b index t 3
    ok (record { x = x; y = y; z = z })

  abbrev vector_of_numbers : Binding → ℕ → Result BindingError (Vec3 F)
  vector_of_numbers b index = do
    x ← float_at b index
    y ← float_at b (index + 1)
    z ← float_at b (index + 2)
    ok (record { x = x; y = y; z = z })

  -- `sol_lua_get` for Vec3, with the number of stack slots that it uses; `tables` are the tables of
  -- the Lua state, by reference.
  unfoldable pub get_vector : (ℕ → LuaTable) → Binding → ℕ → Result BindingError (Vec3 F × ℕ)
  unfolding vector_of_table float_at
  get_vector tables b index = elim (value_at b index) [
    | table_value t ↦ do v ← vector_of_table b index (tables t); ok (v, 1)
    | number_value n ↦ do v ← vector_of_numbers b index; ok (v, 3)
    | _ ↦ type_error b index "table or number"
  ]
