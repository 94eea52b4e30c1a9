-- ===== src/Args.antt =====
-- src/bindings/args.hpp and args.cpp: the checked arguments of bindings, and their errors.
-- A Lua value is what `lua_type` and the raw accesses tell of it. A float is one of integral value,
-- another finite one, or an infinity or NaN, the last two by their bits; the value of a converted
-- number is the parameter `shown` where Lua prints it. A message is its format with what it names.
pub mod Numbers
pub mod Tables
pub mod Exact
use vcmp_lua.Prelude.{
  until_nul, ◌||◌, same_text, true, zero, ◌==◌, err, false, get_or, ok, ◌-◌, Bool, List, Option,
  Result, String, if◌then◌else◌, none, some, suc, ℤ, ℕ,
}
use vcmp_lua.Entity.{EntityKind, traits_of}

pub data LuaNumber : Type 0 where
  integer : ℤ → LuaNumber
  whole : ℤ → LuaNumber
  fraction : ℕ → LuaNumber
  not_finite : ℕ → LuaNumber

-- Any other type, by its name: function, thread, light userdata and foreign userdata.
pub data LuaValue : Type 0 where
  absent : LuaValue
  nil_value : LuaValue
  boolean_value : Bool → LuaValue
  number_value : LuaNumber → LuaValue
  string_value : List ℕ → LuaValue
  table_value : ℕ → LuaValue
  handle_value : EntityKind → ℤ → ℕ → LuaValue
  other_value : String → LuaValue

-- What raw accesses read of a table: its elements, its fields by their names, and its length.
pub record LuaTable : Type 0 where
  pub element : ℕ → LuaValue
  pub field : String → LuaValue
  pub raw_length : ℕ

-- `TypeName`.
unfoldable pub type_name_of : LuaValue → String
unfolding traits_of
type_name_of absent = "no value"
type_name_of nil_value = "nil"
type_name_of (boolean_value b) = "boolean"
type_name_of (number_value n) = "number"
type_name_of (string_value s) = "string"
type_name_of (table_value t) = "table"
type_name_of (handle_value kind id generation) = (traits_of kind).type_name
type_name_of (other_value name) = name

-- What `lua_getinfo` tells of the running function.
pub data NameWhat : Type 0 where
  is_method : NameWhat
  is_metamethod : NameWhat
  is_other : NameWhat

pub record FunctionInfo : Type 0 where
  pub name : Option String
  pub name_what : NameWhat

-- The running function, if there is one, and its stack from index 1 on.
pub record Binding : Type 0 where
  pub info : Option FunctionInfo
  pub stack : List LuaValue

-- The value at a stack index, and `lua_type` past the top.
abbrev pub value_at : Binding → ℕ → LuaValue
value_at b zero = absent
value_at b (suc i) = get_or b.stack i absent

abbrev is_accessor : Option String → Bool
is_accessor none = false
is_accessor (some name) = same_text name "index" || same_text name "newindex"

abbrev string_of : LuaValue → Option (List ℕ)
string_of (string_value s) = some (until_nul s)
string_of _ = none

-- `PropertyKey`.
unfoldable pub property_key : Binding → FunctionInfo → Option (List ℕ)
property_key b info = elim info.name_what [
  | is_metamethod ↦ if is_accessor info.name then string_of (value_at b 2) else none
  | _ ↦ none
]

-- Whom a message blames: the formats of `ArgError`.
pub data Blame : Type 0 where
  argument : ℕ → Blame
  value_for : List ℕ → Blame
  bad_self : String → Blame
  argument_to : ℕ → String → Blame

abbrev name_or_unknown : Option String → String
name_or_unknown none = "?"
name_or_unknown (some name) = name

-- The last lines of `ArgError`: self is not counted.
abbrev blame_function : FunctionInfo → ℕ → Blame
blame_function info index = elim info.name_what [
  | is_method ↦
      if index - 1 == 0
      then bad_self (name_or_unknown info.name)
      else argument_to (index - 1) (name_or_unknown info.name)
  | _ ↦ argument_to index (name_or_unknown info.name)
]

unfoldable pub blame : Binding → ℕ → Blame
unfolding property_key
blame b index = elim b.info [
  | none ↦ argument index
  | some info ↦ elim (property_key b info) [
    | some key ↦ value_for key
    | none ↦ blame_function info index
  ]
]

-- The text in the message's brackets.
pub data Complaint : Type 0 where
  expected : String → String → Complaint
  no_integer_representation : Complaint
  out_of_range : ℤ → ℤ → ℤ → Complaint
  element_must_be : ℕ → String → String → Complaint
  element_not_integer : ℕ → Complaint
  element_out_of_range : ℕ → ℤ → ℤ → ℤ → Complaint
  angle_must_be : String → Complaint
  expects : String → Complaint
  field_must_be : String → String → String → Complaint
  unknown_digest : List ℕ → Complaint

pub data ServerError : Type 0 where
  no_error no_such_entity buffer_too_small too_large_input argument_out_of_bounds : ServerError
  null_argument pool_exhausted invalid_name request_denied : ServerError
  other_error : ℕ → ServerError

-- The exceptions of a binding.
pub data BindingError : Type 0 where
  bad : Blame → Complaint → BindingError
  call_failed : ServerError → BindingError
  server_refused : BindingError
  not_supported : String → BindingError
  runtime_closing : BindingError
  is_gone : String → BindingError
  no_free_slot : BindingError

-- `ArgError` and `TypeError`.
abbrev pub arg_error {ℓ} : {A : Type ℓ} → Binding → ℕ → Complaint → Result BindingError A
arg_error b index why = err (bad (blame b index) why)

abbrev pub type_error {ℓ} : {A : Type ℓ} → Binding → ℕ → String → Result BindingError A
type_error b index what = arg_error b index (expected what (type_name_of (value_at b index)))

-- `ErrorName`.
unfoldable pub error_name : ServerError → String
error_name no_error = "no error"
error_name no_such_entity = "no such entity"
error_name buffer_too_small = "buffer too small"
error_name too_large_input = "input too large"
error_name argument_out_of_bounds = "argument out of bounds"
error_name null_argument = "null argument"
error_name pool_exhausted = "pool exhausted"
error_name invalid_name = "invalid name"
error_name request_denied = "request denied"
error_name (other_error n) = "unknown error"

-- `Check`.
unfoldable pub check : ServerError → Result BindingError Bool
check no_error = ok true
check request_denied = ok false
check e = err (call_failed e)
