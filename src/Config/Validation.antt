-- ===== src/Config/Validation.antt =====
-- src/runtime/config.cpp: which configurations are accepted, as a type for every setting.
use vcmp_lua.Config.Types.{
  before_nul, all_pairs, all_text, http_fits, is_level_name, is_some, is_table_of, is_text,
  is_text_list, is_truth, log_fits, pair_fits, setting_fits,
}
use vcmp_lua.Http.{same_bytes}
use vcmp_lua.Prelude.{
  arith, sym, until_nul, ◌>>=◌, zero, [], ap, ◌+◌, codes, none, ◌&&◌, ◌∙◌, refl, some, suc, ◌∷◌,
  String, false, if◌then◌else◌, true, ◌≡◌, Bool, List, Option, Result, ℕ,
}
use vcmp_lua.Args.{LuaTable, boolean_value, string_value, table_value, LuaValue}
use vcmp_lua.Config.{
  default_config, field_name, load_config, setting, element_name, err, level_names, level_or_error,
  ok, visit_pair, Config, ConfigError, FieldName, Level, find_level, http_setting, log_setting,
  parse_level, read_boolean, read_fields, read_list, read_string, read_strings, visit_pairs, Visit,
}

abbrev pub is_ok {ℓ} : {A : Type ℓ} → Result ConfigError A → Bool
is_ok (ok a) = true
is_ok (err e) = false

-- A step that cannot fail.
is_ok-map :
    {A B : Type 0} (m : Result ConfigError A) (f : A → B) → is_ok (m >>= λ a. ok (f a)) ≡ is_ok m
is_ok-map (ok a) f = refl
is_ok-map (err e) f = refl

is_ok-bind :
    {A B : Type 0} (m : Result ConfigError A) (f : A → Result ConfigError B) (b : Bool)
    → ((a : A) → is_ok (f a) ≡ b)
    → is_ok (m >>= f) ≡ is_ok m && b
is_ok-bind (ok a) f b h = h a
is_ok-bind (err e) f b h = refl

is_ok-if :
    {A : Type 0} (t : Bool) (m n : Result ConfigError A) (b c : Bool)
    → is_ok m ≡ b
    → is_ok n ≡ c
    → is_ok (if t then m else n) ≡ (if t then b else c)
is_ok-if true m n b c h k = h
is_ok-if false m n b c h k = k

read_string-is_text : (v : LuaValue) (name : FieldName) → is_ok (read_string v name) ≡ is_text v
unfolding read_string
read_string-is_text (string_value s) name = refl
read_string-is_text _ name = refl

read_boolean-is_truth : (v : LuaValue) (name : FieldName) → is_ok (read_boolean v name) ≡ is_truth v
unfolding read_boolean
read_boolean-is_truth (boolean_value b) name = refl
read_boolean-is_truth _ name = refl

read_strings-all_text :
    (t : LuaTable) (name : String) (n i : ℕ) → is_ok (read_strings t name n i) ≡ all_text t n i
unfolding read_strings
read_strings-all_text t name zero i = refl
read_strings-all_text t name (suc n) i =
    is_ok-bind (read_string (t.element i) (element_name name i))
      (λ text. read_strings t name n (i + 1) >>= λ texts. ok (text ∷ texts)) (all_text t n (i + 1))
      (λ text.
        is_ok-map (read_strings t name n (i + 1)) (λ texts. text ∷ texts)
        ∙ read_strings-all_text t name n (i + 1))
    ∙ ap (λ b. b && all_text t n (i + 1)) (read_string-is_text (t.element i) (element_name name i))

read_list-is_text_list :
    (tables : ℕ → LuaTable) (v : LuaValue) (name : String)
    → is_ok (read_list tables v name) ≡ is_text_list tables v
unfolding read_list
read_list-is_text_list tables (table_value t) name =
    read_strings-all_text (tables t) name (tables t).raw_length 1
read_list-is_text_list tables _ name = refl

level_or_error-is_some : (s : List ℕ) (o : Option Level) → is_ok (level_or_error s o) ≡ is_some o
level_or_error-is_some s none = refl
level_or_error-is_some s (some l) = refl

parse_level-is_level_name : (v : LuaValue) → is_ok (parse_level v) ≡ is_level_name v
unfolding parse_level
parse_level-is_level_name (string_value s) = level_or_error-is_some s (find_level s level_names)
parse_level-is_level_name _ = refl

before-until_nul : (key : List ℕ) → before_nul key ≡ until_nul key
before-until_nul [] = refl
before-until_nul (zero ∷ cs) = refl
before-until_nul (suc n ∷ cs) = ground (arith, before-until_nul cs)

visit_pair-pair_fits :
    (visit : Visit) (p : List ℕ → LuaValue → Bool)
    → ((key : List ℕ) (v : LuaValue) (c : Config) → is_ok (visit key v c) ≡ p key v)
    → (q : LuaValue × LuaValue) (c : Config) → is_ok (visit_pair visit q c) ≡ pair_fits p q
visit_pair-pair_fits visit p h (string_value key, v) c =
    h (until_nul key) v c ∙ ap (λ k. p k v) (sym (before-until_nul key))
visit_pair-pair_fits visit p h (_, v) c = refl

-- Reading pairs, for a visitor whose success does not depend on what was read before.
visit_pairs-all_pairs :
    (visit : Visit) (p : List ℕ → LuaValue → Bool)
    → ((key : List ℕ) (v : LuaValue) (c : Config) → is_ok (visit key v c) ≡ p key v)
    → (qs : List (LuaValue × LuaValue)) (c : Config)
    → is_ok (visit_pairs visit qs c) ≡ all_pairs p qs
unfolding visit_pairs
visit_pairs-all_pairs visit p h [] c = refl
visit_pairs-all_pairs visit p h (q ∷ qs) c =
    is_ok-bind (visit_pair visit q c) (visit_pairs visit qs) (all_pairs p qs)
      (visit_pairs-all_pairs visit p h qs)
    ∙ ap (λ b. b && all_pairs p qs) (visit_pair-pair_fits visit p h q c)

read_fields-is_table_of :
    (entries : ℕ → List (LuaValue × LuaValue)) (visit : Visit) (p : List ℕ → LuaValue → Bool)
    → ((key : List ℕ) (v : LuaValue) (c : Config) → is_ok (visit key v c) ≡ p key v)
    → (v : LuaValue) (name : String) (c : Config)
    → is_ok (read_fields entries v name visit c) ≡ is_table_of p entries v
unfolding read_fields
read_fields-is_table_of entries visit p h (table_value t) name c =
    visit_pairs-all_pairs visit p h (entries t) c
read_fields-is_table_of entries visit p h _ name c = refl

log_setting-log_fits :
    (key : List ℕ) (v : LuaValue) (c : Config) → is_ok (log_setting key v c) ≡ log_fits key v
unfolding log_setting
log_setting-log_fits key v c =
    is_ok-if (same_bytes key (codes "level")) _ _ _ _
      (is_ok-map (parse_level v) (λ l. record c { level = l }) ∙ parse_level-is_level_name v)
      (is_ok-if (same_bytes key (codes "file")) _ _ _ _
        (is_ok-map (read_string v (field_name "log.file")) (λ s. record c { log_file = s })
          ∙ read_string-is_text v (field_name "log.file"))
        (is_ok-if (same_bytes key (codes "daily")) _ _ _ _
          (is_ok-map (read_boolean v (field_name "log.daily")) (λ b. record c { daily = b })
            ∙ read_boolean-is_truth v (field_name "log.daily"))
          refl))

http_setting-http_fits :
    (key : List ℕ) (v : LuaValue) (c : Config) → is_ok (http_setting key v c) ≡ http_fits key v
unfolding http_setting
http_setting-http_fits key v c =
    is_ok-if (same_bytes key (codes "cafile")) _ _ _ _
      (is_ok-map (read_string v (field_name "http.cafile")) (λ s. record c { cafile = s })
        ∙ read_string-is_text v (field_name "http.cafile"))
      refl

module _ (tables : ℕ → LuaTable) (entries : ℕ → List (LuaValue × LuaValue)) where
  setting-setting_fits :
      (key : List ℕ) (v : LuaValue) (c : Config)
      → is_ok (setting tables entries key v c) ≡ setting_fits tables entries key v
  unfolding setting
  setting-setting_fits key v c =
      is_ok-if (same_bytes key (codes "scripts")) _ _ _ _
        (is_ok-map (read_list tables v "scripts") (λ l. record c { scripts = l })
          ∙ read_list-is_text_list tables v "scripts")
        (is_ok-if (same_bytes key (codes "package_path")) _ _ _ _
          (is_ok-map (read_string v (field_name "package_path"))
              (λ s. record c { package_path = s })
            ∙ read_string-is_text v (field_name "package_path"))
          (is_ok-if (same_bytes key (codes "log")) _ _ _ _
            (read_fields-is_table_of entries log_setting log_fits log_setting-log_fits v "log" c)
            (is_ok-if (same_bytes key (codes "http")) _ _ _ _
              (read_fields-is_table_of entries http_setting http_fits http_setting-http_fits v
                "http" c)
              refl)))

  -- What the file returned is accepted.
  abbrev pub accepts : Result (List ℕ) LuaValue → Bool
  accepts (err message) = false
  accepts (ok v) = is_table_of (setting_fits tables entries) entries v

  -- LoadConfig gives a configuration exactly if the file runs, returns a table and every known
  -- setting in it, those in its tables log and http included, has the type of that setting, where
  -- a key counts up to its first NUL; the order and the unknown settings do not matter.
  pub load_config-accepts :
      (returned : Result (List ℕ) LuaValue)
      → is_ok (load_config tables entries returned) ≡ accepts returned
  unfolding load_config
  load_config-accepts (err message) = refl
  load_config-accepts (ok (table_value t)) =
      visit_pairs-all_pairs (setting tables entries) (setting_fits tables entries)
        setting-setting_fits (entries t) default_config
  load_config-accepts (ok _) = refl
