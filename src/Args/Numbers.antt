-- ===== src/Args/Numbers.antt =====
-- src/bindings/args.cpp: CheckInteger and the other checks of one argument.
use vcmp_lua.Args.{
  LuaValue, not_finite, fraction, no_integer_representation, out_of_range, arg_error, type_error,
  whole, boolean_value, number_value, ok, string_value, integer, value_at, BindingError, Binding,
  LuaNumber,
}
use vcmp_lua.Prelude.{
  leb_ℤ, ◌||◌, ltb_ℤ, Bool, if◌then◌else◌, ◌-◌, ◌>>=◌, ◌%◌, ◌^◌, List, Result, negsuc, pos, ℤ, ℕ,
}

abbrev pub int64_min : ℤ
int64_min = negsuc (2 ^ 63 - 1)

abbrev pub int64_end : ℤ
int64_end = pos (2 ^ 63)

-- The value of a number before the test of the bounds.
abbrev pub integer_value : Binding → ℕ → LuaNumber → Result BindingError ℤ
integer_value b index (integer z) = ok z
integer_value b index (whole z) =
    if ltb_ℤ z int64_min || leb_ℤ int64_end z
    then arg_error b index no_integer_representation
    else ok z
integer_value b index (fraction bits) = arg_error b index no_integer_representation
integer_value b index (not_finite bits) = arg_error b index no_integer_representation

abbrev pub within : Binding → ℕ → ℤ → ℤ → ℤ → Result BindingError ℤ
within b index low high value =
    if ltb_ℤ value low || ltb_ℤ high value
    then arg_error b index (out_of_range value low high)
    else ok value

abbrev pub integer_from : Binding → ℕ → ℤ → ℤ → LuaValue → Result BindingError ℤ
integer_from b index low high (number_value n) = integer_value b index n >>= within b index low high
integer_from b index low high _ = type_error b index "integer"

unfoldable pub check_integer : Binding → ℕ → ℤ → ℤ → Result BindingError ℤ
check_integer b index low high = integer_from b index low high (value_at b index)

unfoldable pub check_number : Binding → ℕ → Result BindingError LuaNumber
check_number b index = elim (value_at b index) [
  | number_value n ↦ ok n
  | _ ↦ type_error b index "number"
]

unfoldable pub check_boolean : Binding → ℕ → Result BindingError Bool
check_boolean b index = elim (value_at b index) [
  | boolean_value v ↦ ok v
  | _ ↦ type_error b index "boolean"
]

-- `shown` is how `lua_tolstring` writes a number.
unfoldable pub check_string : (LuaNumber → List ℕ) → Binding → ℕ → Result BindingError (List ℕ)
check_string shown b index = elim (value_at b index) [
  | string_value s ↦ ok s
  | number_value n ↦ ok (shown n)
  | _ ↦ type_error b index "string"
]

-- `static_cast<std::uint32_t>`.
abbrev pub to_uint32 : ℤ → ℕ
to_uint32 (pos n) = n % 2 ^ 32
to_uint32 (negsuc n) = 2 ^ 32 - 1 - n % 2 ^ 32

abbrev pub int32_min : ℤ
int32_min = negsuc (2 ^ 31 - 1)

abbrev pub int32_max : ℤ
int32_max = pos (2 ^ 31 - 1)

abbrev pub uint32_max : ℤ
uint32_max = pos (2 ^ 32 - 1)

unfoldable pub check_colour : Binding → ℕ → Result BindingError ℕ
unfolding check_integer
check_colour b index = do value ← check_integer b index int32_min uint32_max; ok (to_uint32 value)
