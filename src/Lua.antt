-- ===== src/Lua.antt =====
-- What the program hands to Lua and gets back. Lua functions and objects are numbers, compared as
-- `lua_rawequal` compares references.
use vcmp_lua.Prelude.{List, ℕ, String, ℤ, Bool}

-- sol::main_protected_function.
abbrev pub Fn : Type 0
Fn = ℕ

-- The Lua values that the program pushes.
pub data Value : Type 0 where
  nil : Value
  boolean : Bool → Value
  integer : ℤ → Value
  text : String → Value
  reference : ℕ → Value
  -- A string by its bytes, and tables of strings and of integers, indexed from 1.
  bytes : List ℕ → Value
  text_table : List (List ℕ) → Value
  integer_table : List ℤ → Value
