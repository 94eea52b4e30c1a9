-- ===== src/Config/Types.antt =====
-- luaconfig.lua: the type of every setting, apart from the code that reads it.
use vcmp_lua.Http.{same_bytes}
use vcmp_lua.Config.{level_names, find_level}
use vcmp_lua.Prelude.{
  ltb, zero, [], ◌+◌, codes, none, ◌&&◌, some, suc, ◌∷◌, false, if◌then◌else◌, true, Bool, List,
  Option, ℕ,
}
use vcmp_lua.Args.{LuaTable, boolean_value, string_value, table_value, LuaValue}

-- The types of settings.
abbrev pub is_text : LuaValue → Bool
is_text (string_value s) = true
is_text _ = false

abbrev pub is_truth : LuaValue → Bool
is_truth (boolean_value b) = true
is_truth _ = false

abbrev pub all_text : LuaTable → ℕ → ℕ → Bool
all_text t zero i = true
all_text t (suc n) i = is_text (t.element i) && all_text t n (i + 1)

abbrev pub is_text_list : (ℕ → LuaTable) → LuaValue → Bool
is_text_list tables (table_value t) = all_text (tables t) (tables t).raw_length 1
is_text_list tables _ = false

abbrev pub is_some {ℓ} : {A : Type ℓ} → Option A → Bool
is_some none = false
is_some (some a) = true

abbrev pub is_level_name : LuaValue → Bool
is_level_name (string_value s) = is_some (find_level s level_names)
is_level_name _ = false

-- The part of a key that counts: what stands before its first byte 0.
abbrev pub before_nul : List ℕ → List ℕ
before_nul [] = []
before_nul (c ∷ cs) = let rest = before_nul cs in if ltb 0 c then c ∷ rest else []

-- A table whose pairs with a string key pass a test.
abbrev pub pair_fits : (List ℕ → LuaValue → Bool) → LuaValue × LuaValue → Bool
pair_fits p (string_value key, v) = p (before_nul key) v
pair_fits p _ = true

abbrev pub all_pairs : (List ℕ → LuaValue → Bool) → List (LuaValue × LuaValue) → Bool
all_pairs p [] = true
all_pairs p (q ∷ qs) = pair_fits p q && all_pairs p qs

abbrev pub is_table_of :
    (List ℕ → LuaValue → Bool) → (ℕ → List (LuaValue × LuaValue)) → LuaValue → Bool
is_table_of p entries (table_value t) = all_pairs p (entries t)
is_table_of p entries _ = false

abbrev pub log_fits : List ℕ → LuaValue → Bool
log_fits key v =
    if same_bytes key (codes "level")
    then is_level_name v
    else if same_bytes key (codes "file")
    then is_text v
    else if same_bytes key (codes "daily")
    then is_truth v
    else true

abbrev pub http_fits : List ℕ → LuaValue → Bool
http_fits key v = if same_bytes key (codes "cafile") then is_text v else true

abbrev pub setting_fits :
    (ℕ → LuaTable) → (ℕ → List (LuaValue × LuaValue)) → List ℕ → LuaValue → Bool
setting_fits tables entries key v =
    if same_bytes key (codes "scripts")
    then is_text_list tables v
    else if same_bytes key (codes "package_path")
    then is_text v
    else if same_bytes key (codes "log")
    then is_table_of log_fits entries v
    else if same_bytes key (codes "http")
    then is_table_of http_fits entries v
    else true
