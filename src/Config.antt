-- ===== src/Config.antt =====
-- src/runtime/config.cpp and config.hpp: the settings of luaconfig.lua.
-- The file runs in a Lua state of its own, which is a parameter: what it returned, or the error.
-- `entries` are the pairs of a table in the order of `lua_next`, and `tables` its elements.
pub mod Types
pub mod Validation
use vcmp_lua.Http.{same_bytes}
use vcmp_lua.Prelude.{
  until_nul, zero, ◌+◌, false, none, some, suc, ◌∷◌, Bool, Option, codes, err, ok, ◌>>=◌, List,
  Result, String, [], if◌then◌else◌, ℕ,
}
use vcmp_lua.Args.{boolean_value, string_value, table_value, LuaValue, LuaTable}
use vcmp_lua.Args.Tables.{lua_type_name}

-- spdlog's levels.
pub data Level : Type 0 where
  trace debug info warn error critical off : Level

pub record Config : Type 0 where
  pub scripts : List (List ℕ)
  pub package_path : List ℕ
  pub level : Level
  pub log_file : List ℕ
  pub daily : Bool
  pub cafile : List ℕ

abbrev pub default_config : Config
default_config = record {
  scripts = [];
  package_path = codes "lua/?.lua;lua/?/init.lua";
  level = info;
  log_file = [];
  daily = false;
  cafile = [];
}

-- What an error names: a field, or an element of it.
pub data FieldName : Type 0 where
  field_name : String → FieldName
  element_name : String → ℕ → FieldName

-- ConfigError: `Fail` with the expected type and the one that was given, an unknown level, a file
-- that does not return a table, and an error of the Lua state.
pub data ConfigError : Type 0 where
  must_be : FieldName → String → String → ConfigError
  unknown_level : List ℕ → ConfigError
  must_return_table : String → ConfigError
  lua_error : List ℕ → ConfigError

-- `Reader::String` and `Reader::Boolean`.
unfoldable pub read_string : LuaValue → FieldName → Result ConfigError (List ℕ)
read_string (string_value s) name = ok s
read_string v name = err (must_be name "a string" (lua_type_name v))

unfoldable pub read_boolean : LuaValue → FieldName → Result ConfigError Bool
read_boolean (boolean_value b) name = ok b
read_boolean v name = err (must_be name "a boolean" (lua_type_name v))

-- The loop of `Reader::StringList`, over n elements from i on.
unfoldable pub read_strings : LuaTable → String → ℕ → ℕ → Result ConfigError (List (List ℕ))
unfolding read_string
read_strings t name zero i = ok []
read_strings t name (suc n) i = do
  text ← read_string (t.element i) (element_name name i)
  texts ← read_strings t name n (i + 1)
  ok (text ∷ texts)

unfoldable pub read_list : (ℕ → LuaTable) → LuaValue → String → Result ConfigError (List (List ℕ))
unfolding read_strings
read_list tables (table_value t) name = read_strings (tables t) name (tables t).raw_length 1
read_list tables v name = err (must_be (field_name name) "a list of strings" (lua_type_name v))

-- ParseLevel.
abbrev pub level_names : List (List ℕ × Level)
level_names =
    (codes "trace", trace)
    ∷ (codes "debug", debug)
    ∷ (codes "info", info)
    ∷ (codes "warn", warn)
    ∷ (codes "error", error)
    ∷ (codes "critical", critical)
    ∷ (codes "off", off)
    ∷ []

abbrev pub find_level : List ℕ → List (List ℕ × Level) → Option Level
find_level name [] = none
find_level name ((text, level) ∷ rest) =
    let later = find_level name rest in if same_bytes name text then some level else later

abbrev pub level_or_error : List ℕ → Option Level → Result ConfigError Level
level_or_error name none = err (unknown_level name)
level_or_error name (some level) = ok level

unfoldable pub parse_level : LuaValue → Result ConfigError Level
unfolding read_string
parse_level v = do
  name ← read_string v (field_name "log.level")
  level_or_error name (find_level name level_names)

-- A pair of a table: a key is cut at its first NUL, and one that is no string is ignored with a
-- warning.
abbrev pub Visit : Type 0
Visit = List ℕ → LuaValue → Config → Result ConfigError Config

abbrev pub visit_pair : Visit → LuaValue × LuaValue → Config → Result ConfigError Config
visit_pair visit (string_value key, v) c = visit (until_nul key) v c
visit_pair visit (_, v) c = ok c

-- The loop of `Reader::Fields`.
unfoldable pub visit_pairs : Visit → List (LuaValue × LuaValue) → Config → Result ConfigError Config
visit_pairs visit [] c = ok c
visit_pairs visit (p ∷ ps) c = visit_pair visit p c >>= visit_pairs visit ps

-- `Reader::Fields`.
unfoldable pub read_fields :
    (ℕ → List (LuaValue × LuaValue))
    → LuaValue
    → String
    → Visit
    → Config
    → Result ConfigError Config
unfolding visit_pairs
read_fields entries (table_value t) name visit c = visit_pairs visit (entries t) c
read_fields entries v name visit c = err (must_be (field_name name) "a table" (lua_type_name v))

-- The settings under log and under http; an unknown one is ignored with a warning.
unfoldable pub log_setting : Visit
unfolding parse_level read_string read_boolean
log_setting key v c =
    if same_bytes key (codes "level")
    then (parse_level v >>= λ l. ok (record c { level = l }))
    else if same_bytes key (codes "file")
    then (read_string v (field_name "log.file") >>= λ s. ok (record c { log_file = s }))
    else if same_bytes key (codes "daily")
    then (read_boolean v (field_name "log.daily") >>= λ b. ok (record c { daily = b }))
    else ok c

unfoldable pub http_setting : Visit
unfolding read_string
http_setting key v c =
    if same_bytes key (codes "cafile")
    then (read_string v (field_name "http.cafile") >>= λ s. ok (record c { cafile = s }))
    else ok c

module _ (tables : ℕ → LuaTable) (entries : ℕ → List (LuaValue × LuaValue)) where
  unfoldable pub setting : Visit
  unfolding read_list read_string read_fields log_setting http_setting
  setting key v c =
      if same_bytes key (codes "scripts")
      then (read_list tables v "scripts" >>= λ l. ok (record c { scripts = l }))
      else if same_bytes key (codes "package_path")
      then (read_string v (field_name "package_path") >>= λ s. ok (record c { package_path = s }))
      else if same_bytes key (codes "log")
      then read_fields entries v "log" log_setting c
      else if same_bytes key (codes "http")
      then read_fields entries v "http" http_setting c
      else ok c

  -- ReadConfig.
  unfoldable pub read_config : ℕ → Result ConfigError Config
  unfolding visit_pairs setting
  read_config t = visit_pairs setting (entries t) default_config

  -- LoadConfig, on what the file returned.
  unfoldable pub load_config : Result (List ℕ) LuaValue → Result ConfigError Config
  unfolding read_config
  load_config (err message) = err (lua_error message)
  load_config (ok (table_value t)) = read_config t
  load_config (ok v) = err (must_return_table (lua_type_name v))
