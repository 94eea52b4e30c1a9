-- ===== src/Http/Request.antt =====
-- src/modules/http.cpp, ReadHeaders and ReadRequest: the request that a script describes.
-- `entries` are the pairs of a table in the order of `lua_next`, `shown` is how Lua writes a number,
-- and `fraction_ms` the milliseconds of a fractional number of seconds that is above 0 and at most
-- 3600. A message is blamed on argument 1.
use vcmp_lua.Args.{
  nil_value, string_value, number_value, table_value, integer, whole, fraction, not_finite,
  type_error, type_name_of, expects, field_must_be, arg_error, BindingError, LuaTable, LuaValue,
  Binding, LuaNumber,
}
use vcmp_lua.Prelude.{
  not, map, ◌*◌, pos_part, none, pos, ◌&&◌, ◌>>=◌, leb_ℤ, length, ltb_ℤ, ok, some, true, ◌>>◌, ◌||◌,
  ◌∷◌, [], codes, false, if◌then◌else◌, ltb, Bool, Option, Result, String, ℤ, ◌++◌, List, ℕ,
}
use vcmp_lua.Http.{
  is_method_name, is_plain, all_bytes, same_bytes, is_http_url, is_token_char, upper, HttpRequest,
}

-- An error on argument 1.
abbrev says_error {ℓ} : {A : Type ℓ} → Binding → String → Result BindingError A
says_error b text = arg_error b 1 (expects text)

-- FieldError.
abbrev field_error {ℓ} : {A : Type ℓ} → Binding → String → String → LuaValue → Result BindingError A
field_error b field what v = arg_error b 1 (field_must_be field what (type_name_of v))

abbrev pub header_text : List ℕ → List ℕ → List ℕ
header_text name [] = name ++ codes ";"
header_text name (c ∷ cs) = name ++ (codes ": " ++ (c ∷ cs))

abbrev pub refuse_unless : Binding → Bool → String → Result BindingError (Unit {0})
refuse_unless b true text = ok tt
refuse_unless b false text = says_error b text

module _ (shown : LuaNumber → List ℕ) (b : Binding) where
  abbrev pub header_value : LuaValue → Result BindingError (List ℕ)
  header_value (string_value s) = ok s
  header_value (number_value n) = ok (shown n)
  header_value v = arg_error b 1 (field_must_be "headers" "a string" (type_name_of v))

  abbrev pub is_name : List ℕ → Bool
  is_name name = ltb 0 (length name) && all_bytes is_token_char name

  unfoldable pub header_line : LuaValue → LuaValue → Result BindingError (List ℕ)
  unfolding is_token_char
  header_line (string_value name) v = do
    refuse_unless b (is_name name) "invalid header name"
    value ← header_value v
    refuse_unless b (all_bytes is_plain value) "header contains a line break or NUL"
    ok (header_text name value)
  header_line _ v = says_error b "header names must be strings"

  -- ReadHeaders.
  unfoldable pub read_headers : List (LuaValue × LuaValue) → Result BindingError (List (List ℕ))
  unfolding header_line
  read_headers [] = ok []
  read_headers ((k, v) ∷ rest) = do
    line ← header_line k v
    lines ← read_headers rest
    ok (line ∷ lines)

  -- CheckUrl.
  unfoldable pub check_url : List ℕ → Result BindingError (Unit {0})
  unfolding is_http_url
  check_url url = refuse_unless b (is_http_url url) "the URL must start with http:// or https://"

  abbrev is_field : List ℕ → Bool
  is_field name =
      same_bytes name (codes "url")
      || same_bytes name (codes "method")
      || same_bytes name (codes "headers")
      || same_bytes name (codes "body")
      || same_bytes name (codes "timeout")
      || same_bytes name (codes "redirects")

  -- The loop that refuses unknown fields.
  unfoldable pub check_fields : List (LuaValue × LuaValue) → Result BindingError (Unit {0})
  check_fields [] = ok tt
  check_fields ((string_value name, v) ∷ rest) =
      refuse_unless b (is_field name) "unknown field" >> check_fields rest
  check_fields (_ ∷ rest) = says_error b "unknown field"

  abbrev pub read_url : LuaValue → Result BindingError (List ℕ)
  read_url (string_value url) = ok url
  read_url v = field_error b "url" "a string" v

  -- The body, none for nil.
  abbrev pub read_body : LuaValue → Result BindingError (Option (List ℕ))
  read_body nil_value = ok none
  read_body (string_value body) = ok (some body)
  read_body v = field_error b "body" "a string" v

  abbrev default_method : Bool → List ℕ
  default_method true = codes "POST"
  default_method false = codes "GET"

  abbrev pub read_method : Bool → LuaValue → Result BindingError (List ℕ)
  read_method has_body nil_value = ok (default_method has_body)
  read_method has_body (string_value method) = ok method
  read_method has_body v = field_error b "method" "a string" v

  unfoldable pub read_header_table :
      (ℕ → List (LuaValue × LuaValue)) → LuaValue → Result BindingError (List (List ℕ))
  unfolding read_headers
  read_header_table entries nil_value = ok []
  read_header_table entries (table_value t) = read_headers (entries t)
  read_header_table entries v = field_error b "headers" "a table" v

  abbrev whole_ms : ℤ → Option ℕ
  whole_ms z = if ltb_ℤ (pos 0) z && leb_ℤ z (pos 3600) then some (pos_part z * 1000) else none

  abbrev ms_of : (ℕ → Option ℕ) → LuaNumber → Option ℕ
  ms_of fraction_ms (integer z) = whole_ms z
  ms_of fraction_ms (whole z) = whole_ms z
  ms_of fraction_ms (fraction bits) = fraction_ms bits
  ms_of fraction_ms (not_finite bits) = none

  abbrev at_least_one : Option ℕ → Result BindingError ℕ
  at_least_one none = says_error b "field 'timeout' must be between 0 and 3600 seconds"
  at_least_one (some ms) = ok (if ltb ms 1 then 1 else ms)

  abbrev pub read_timeout : (ℕ → Option ℕ) → LuaValue → Result BindingError ℕ
  read_timeout fraction_ms nil_value = ok 30000
  read_timeout fraction_ms (number_value n) = at_least_one (ms_of fraction_ms n)
  read_timeout fraction_ms v = field_error b "timeout" "a number of seconds" v

  abbrev whole_redirects : ℤ → Result BindingError ℕ
  whole_redirects z =
      if leb_ℤ (pos 0) z && leb_ℤ z (pos 20)
      then ok (pos_part z)
      else says_error b "field 'redirects' must be an integer between 0 and 20"

  abbrev pub read_redirects : LuaValue → Result BindingError ℕ
  read_redirects nil_value = ok 5
  read_redirects (number_value (integer z)) = whole_redirects z
  read_redirects (number_value (whole z)) = whole_redirects z
  read_redirects (number_value n) =
      says_error b "field 'redirects' must be an integer between 0 and 20"
  read_redirects v = field_error b "redirects" "an integer" v

  abbrev pub has_value : Option (List ℕ) → Bool
  has_value none = false
  has_value (some body) = true

  abbrev pub or_no_body : Option (List ℕ) → List ℕ
  or_no_body none = []
  or_no_body (some body) = body

  abbrev pub takes_no_body : List ℕ → Bool
  takes_no_body method = same_bytes method (codes "GET") || same_bytes method (codes "HEAD")

  -- ReadRequest of a table, with its pairs.
  unfoldable pub read_table :
      (ℕ → List (LuaValue × LuaValue))
      → (ℕ → Option ℕ)
      → LuaTable
      → List (LuaValue × LuaValue)
      → Result BindingError HttpRequest
  unfolding check_fields check_url upper is_method_name read_header_table
  read_table entries fraction_ms t fields = do
    check_fields fields
    url ← read_url (t.field "url")
    check_url url
    body ← read_body (t.field "body")
    name ← read_method (has_value body) (t.field "method")
    refuse_unless b (is_method_name (map upper name)) "invalid method"
    refuse_unless b (not (has_value body && takes_no_body (map upper name))) "request has no body"
    headers ← read_header_table entries (t.field "headers")
    timeout_ms ← read_timeout fraction_ms (t.field "timeout")
    max_redirects ← read_redirects (t.field "redirects")
    ok (record {
      url = url;
      method = map upper name;
      headers = headers;
      body = or_no_body body;
      has_body = has_value body;
      timeout_ms = timeout_ms;
      max_redirects = max_redirects;
    })

  abbrev pub text_request : List ℕ → HttpRequest
  text_request url = record {
    url = url;
    method = codes "GET";
    headers = [];
    body = [];
    has_body = false;
    timeout_ms = 30000;
    max_redirects = 5;
  }

  -- ReadRequest of a text.
  unfoldable pub read_text : List ℕ → Result BindingError HttpRequest
  unfolding check_url
  read_text url = check_url url >> ok (text_request url)

  -- ReadRequest of argument 1.
  unfoldable pub read_request :
      (ℕ → LuaTable)
      → (ℕ → List (LuaValue × LuaValue))
      → (ℕ → Option ℕ)
      → LuaValue
      → Result BindingError HttpRequest
  unfolding read_table read_text
  read_request tables entries fraction_ms (string_value url) = read_text url
  read_request tables entries fraction_ms (table_value t) =
      read_table entries fraction_ms (tables t) (entries t)
  read_request tables entries fraction_ms _ = type_error b 1 "table or URL"
