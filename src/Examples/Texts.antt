-- ===== src/Examples/Texts.antt =====
-- The theorems on names and arguments at concrete inputs.
use vcmp_lua.Config.{debug, default_config, load_config}
use vcmp_lua.Config.Validation.{accepts, is_ok, load_config-accepts}
use vcmp_lua.Http.Transfers.{new_transfer, header}
use vcmp_lua.Http.Limits.{run_http-IsLimited, new_http, writes, starts, run_http, IsLimited}
use vcmp_lua.Http.Injection.{read_request-is_safe, is_safe}
use vcmp_lua.Http.Request.{read_request}
use vcmp_lua.Http.{HttpRequest}
use vcmp_lua.Args.{
  LuaValue, LuaTable, Binding, LuaNumber, integer, number_value, string_value, table_value,
  nil_value,
}
use vcmp_lua.Names.Tables.{skin_name}
use vcmp_lua.Names.Named.{is_named}
use vcmp_lua.Names.SkinIds.{unknown}
use vcmp_lua.Names.Case.{same_ignoring_case}
use vcmp_lua.Names.Search.{skin_of, skin_id}
use vcmp_lua.Names.Weapons.{no_weapon, weapon_id}
use vcmp_lua.Names.Trip.{skin_trip_lem, skin_trip}
use vcmp_lua.Names.Found.{found_IsNamed, is_weapon}
use vcmp_lua.Names.{lower}
use vcmp_lua.Prelude.{
  false, same_text, ◌==◌, [], if◌then◌else◌, List, Option, none, ok, ◌∷◌, ℕ, ◌⊎◌, arith, refl, some,
  true, ◌≡◌, codes, pos,
}

same_ignoring_case_example :
    (skin_id (codes "Cop") ≡ skin_id (codes "cOP"))
    × (weapon_id (codes "Cop") ≡ weapon_id (codes "cOP"))
unfolding lower
same_ignoring_case_example = same_ignoring_case (codes "Cop") (codes "cOP") refl

found_IsNamed_example :
    (is_weapon (weapon_id (codes "M4")) ≡ true)
    × ((skin_of (codes "M4") ≡ unknown) ⊎ (is_named (skin_name (skin_id (codes "M4"))) ≡ true))
found_IsNamed_example = found_IsNamed (codes "M4")

skin_trip_example : skin_trip (pos 20) ≡ some (pos 20)
skin_trip_example = skin_trip_lem 20 (omega arith) refl

uzi : weapon_id (codes "uzi") ≡ 23
unfolding weapon_id
uzi = refl

katana_as_kn : weapon_id (codes "knee") ≡ no_weapon
unfolding weapon_id
katana_as_kn = refl

beach_lady : skin_id (codes "Beach Lady #2") ≡ pos 18
unfolding skin_id
beach_lady = refl

-- A request with one header.
abbrev shown_one : LuaNumber → List ℕ
shown_one n = codes "1"

abbrev caller : Binding
caller = record { info = none; stack = [] }

abbrev options : ℕ → LuaTable
options t = record {
  element = λ i. nil_value;
  field = λ k.
      if same_text k "url"
      then string_value (codes "HTTPS://a.b")
      else if same_text k "headers"
      then table_value 1
      else nil_value;
  raw_length = 0;
}

abbrev pairs_of : ℕ → List (LuaValue × LuaValue)
pairs_of t =
    if t == 1 then (string_value (codes "X-A"), number_value (integer (pos 1))) ∷ [] else []

abbrev no_fraction : ℕ → Option ℕ
no_fraction bits = none

abbrev asked : HttpRequest
asked = record {
  url = codes "HTTPS://a.b";
  method = codes "GET";
  headers = codes "X-A: 1" ∷ [];
  body = [];
  has_body = false;
  timeout_ms = 30000;
  max_redirects = 5;
}

accepted : read_request shown_one caller options pairs_of no_fraction (table_value 0) ≡ ok asked
unfolding read_request
accepted = refl

read_request-is_safe_example : is_safe asked ≡ true
read_request-is_safe_example =
    read_request-is_safe shown_one caller pairs_of no_fraction options (table_value 0) asked
      accepted

run_http-IsLimited_example :
    IsLimited (run_http (starts true 5 ∷ writes 1 (codes "ab") ∷ []) new_http)
run_http-IsLimited_example = run_http-IsLimited (starts true 5 ∷ writes 1 (codes "ab") ∷ [])

one_header :
    (header (codes "X-Count:  7 ") (new_transfer 1 5)).response_headers
    ≡ (codes "x-count", codes "7") ∷ []
unfolding header
one_header = refl

-- A configuration with a level and an unknown setting.
abbrev settings : ℕ → List (LuaValue × LuaValue)
settings t =
    if t == 0
    then (string_value (codes "log"), table_value 1)
      ∷ (string_value (codes "colour"), nil_value)
      ∷ []
    else (string_value (codes "level"), string_value (codes "debug")) ∷ []

load_config-accepts_example :
    is_ok (load_config options settings (ok (table_value 0)))
    ≡ accepts options settings (ok (table_value 0))
load_config-accepts_example = load_config-accepts options settings (ok (table_value 0))

config_loads :
    load_config options settings (ok (table_value 0)) ≡ ok (record default_config { level = debug })
unfolding load_config
config_loads = refl
