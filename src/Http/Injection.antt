-- ===== src/Http/Injection.antt =====
-- src/modules/http.cpp: what a script can put into the lines of a request.
use vcmp_lua.Http.Lines.{
  http_is_web_url, is_web_url, is_short_word, method_is_short_word, all_lines_plain, are_lines,
  plain_are_lines,
}
use vcmp_lua.Names.{is_alnum}
use vcmp_lua.Http.{
  upper, is_http_url, is_plain, is_method_name, all_bytes, HttpRequest, is_token_char,
}
use vcmp_lua.Prelude.{
  not, map, Option, length, ltb, subst, sym, ap, codes, ◌>>=◌, false, refl, [], arith, err, ok,
  ◌++◌, ◌∷◌, ◌≡◌, String, true, ◌&&◌, Bool, List, Result, ℕ,
}
use vcmp_lua.Http.Request.{
  read_redirects, read_timeout, takes_no_body, has_value, read_method, read_body, read_url,
  check_fields, text_request, check_url, read_table, read_text, header_value, is_name, header_line,
  read_header_table, read_headers, header_text, refuse_unless, read_request,
}
use vcmp_lua.Args.{
  LuaTable, nil_value, table_value, string_value, LuaValue, LuaNumber, Binding, BindingError,
}

-- The tests of the code hold of what it gives to libcurl.
abbrev passes : HttpRequest → Bool
passes r = all_lines_plain r.headers && is_method_name r.method && is_http_url r.url

-- The same in bytes.
abbrev pub is_safe : HttpRequest → Bool
is_safe r = are_lines r.headers && is_short_word r.method && is_web_url r.url

passes-is_safe : (r : HttpRequest) → passes r ≡ true → is_safe r ≡ true
passes-is_safe r h =
    grind
      (arith, plain_are_lines r.headers, method_is_short_word r.method, http_is_web_url r.url, h)

bind_ok {ℓ κ} :
    {A : Type ℓ} {B : Type κ} (m : Result BindingError A) (f : A → Result BindingError B) (v : B)
    → (m >>= f) ≡ ok v
    → (a : A) × ((m ≡ ok a) × (f a ≡ ok v))
bind_ok (ok a) f v e = (a, (refl, e))
bind_ok (err x) f v e = absurd (ground arith)

-- A passed test holds.
refuse_unless-ok :
    (b : Binding) (t : Bool) (text : String) (u : Unit {0})
    → refuse_unless b t text ≡ ok u
    → t ≡ true
refuse_unless-ok b true text u e = refl
refuse_unless-ok b false text u e = absurd (ground arith)

token_is_plain : (c : ℕ) → is_token_char c ≡ true → is_plain c ≡ true
unfolding is_token_char is_alnum
token_is_plain c e = ground arith

all_bytes-plain :
    (name : List ℕ) → all_bytes is_token_char name ≡ true → all_bytes is_plain name ≡ true
all_bytes-plain [] e = refl
all_bytes-plain (c ∷ cs) e = grind (arith, token_is_plain c, all_bytes-plain cs)

all_bytes-append :
    (p : ℕ → Bool) (xs ys : List ℕ)
    → all_bytes p xs ≡ true
    → all_bytes p ys ≡ true
    → all_bytes p (xs ++ ys) ≡ true
all_bytes-append p [] ys e h = h
all_bytes-append p (x ∷ xs) ys e h = grind (arith, all_bytes-append p xs ys)

plain_text :
    (name value : List ℕ)
    → all_bytes is_plain name ≡ true
    → all_bytes is_plain value ≡ true
    → all_bytes is_plain (header_text name value) ≡ true
plain_text name [] e h = all_bytes-append is_plain name (codes ";") e refl
plain_text name (c ∷ cs) e h =
    all_bytes-append is_plain name (codes ": " ++ (c ∷ cs)) e
      (all_bytes-append is_plain (codes ": ") (c ∷ cs) refl h)

right_of : (a b : Bool) → a && b ≡ true → b ≡ true
right_of a b e = grind arith

ok_injective {ℓ} : {A : Type ℓ} (a b : A) → ◌≡◌ {A = Result BindingError A} (ok a) (ok b) → a ≡ b
ok_injective a b e = grind arith

both_true : {a b : Bool} → a ≡ true → b ≡ true → a && b ≡ true
both_true e h = grind (arith, e, h)

module _ (shown : LuaNumber → List ℕ) (b : Binding) where
  header_line-plain :
      (k v : LuaValue) (line : List ℕ)
      → header_line shown b k v ≡ ok line
      → all_bytes is_plain line ≡ true
  unfolding header_line
  header_line-plain (string_value name) v line e =
      let (u, p) =
        bind_ok (refuse_unless b (is_name shown b name) "invalid header name")
          (λ _. header_value shown b v >>= λ value.
            refuse_unless b (all_bytes is_plain value) "header contains a line break or NUL"
            >>= λ _. ok (header_text name value))
          line e in
      let (value, q) =
        bind_ok (header_value shown b v)
          (λ value.
            refuse_unless b (all_bytes is_plain value) "header contains a line break or NUL"
            >>= λ _. ok (header_text name value))
          line p.1 in
      let (w, r) =
        bind_ok (refuse_unless b (all_bytes is_plain value) "header contains a line break or NUL")
          (λ _. ok (header_text name value)) line q.1 in
      subst (λ x. all_bytes is_plain x ≡ true) (ok_injective (header_text name value) line r.1)
        (plain_text name value
          (all_bytes-plain name (
            right_of (ltb 0 (length name)) (all_bytes is_token_char name)
              (refuse_unless-ok b (is_name shown b name) "invalid header name" u p.0)))
          (refuse_unless-ok b (all_bytes is_plain value) "header contains a line break or NUL" w
            r.0))
  header_line-plain _ v line e = absurd (ground arith)

  read_headers-plain :
      (pairs : List (LuaValue × LuaValue)) (lines : List (List ℕ))
      → read_headers shown b pairs ≡ ok lines
      → all_lines_plain lines ≡ true
  unfolding read_headers
  read_headers-plain [] lines e = ap all_lines_plain (sym (ok_injective [] lines e))
  read_headers-plain ((k, v) ∷ rest) lines e =
      let (line, p) =
        bind_ok (header_line shown b k v)
          (λ line. read_headers shown b rest >>= λ lines. ok (line ∷ lines)) lines e in
      let (others, q) =
        bind_ok (read_headers shown b rest) (λ lines. ok (line ∷ lines)) lines p.1 in
      subst (λ x. all_lines_plain x ≡ true) (ok_injective (line ∷ others) lines q.1)
        (both_true (header_line-plain k v line p.0) (read_headers-plain rest others q.0))

  read_header_table-plain :
      (entries : ℕ → List (LuaValue × LuaValue)) (v : LuaValue) (lines : List (List ℕ))
      → read_header_table shown b entries v ≡ ok lines
      → all_lines_plain lines ≡ true
  unfolding read_header_table
  read_header_table-plain entries nil_value lines e =
      ap all_lines_plain (sym (ok_injective [] lines e))
  read_header_table-plain entries (table_value t) lines e = read_headers-plain (entries t) lines e
  read_header_table-plain entries _ lines e = absurd (ground arith)

-- The value of a result, if it has one, passes a test.
abbrev all_ok : {A : Type 0} → (A → Bool) → Result BindingError A → Bool
all_ok p (ok a) = p a
all_ok p (err e) = true

all_ok-bind :
    {A B : Type 0} (p : B → Bool) (m : Result BindingError A) (f : A → Result BindingError B)
    → ((a : A) → m ≡ ok a → all_ok p (f a) ≡ true)
    → all_ok p (m >>= f) ≡ true
all_ok-bind p (ok a) f h = h a refl
all_ok-bind p (err e) f h = refl

all_ok-ok :
    {A : Type 0} (p : A → Bool) (m : Result BindingError A) (a : A)
    → all_ok p m ≡ true
    → m ≡ ok a
    → p a ≡ true
all_ok-ok p m a h e = subst (λ x. all_ok p x ≡ true) e h

module _ (shown : LuaNumber → List ℕ) (b : Binding) (entries : ℕ → List (LuaValue × LuaValue))
    (fraction_ms : ℕ → Option ℕ) where
  read_text-passes : (url : List ℕ) → all_ok passes (read_text shown b url) ≡ true
  unfolding read_text check_url is_method_name
  read_text-passes url =
      all_ok-bind passes (check_url shown b url) (λ _. ok (text_request shown b url))
        (λ u e.
          refuse_unless-ok b (is_http_url url) "the URL must start with http:// or https://" u e)

  read_table-passes :
      (t : LuaTable) (fields : List (LuaValue × LuaValue))
      → all_ok passes (read_table shown b entries fraction_ms t fields) ≡ true
  unfolding read_table check_url
  read_table-passes t fields = all_ok-bind passes (check_fields shown b fields) _ (λ _ _.
      all_ok-bind passes (read_url shown b (t.field "url")) _ (λ url _.
        all_ok-bind passes (check_url shown b url) _ (λ u good.
          all_ok-bind passes (read_body shown b (t.field "body")) _ (λ body _.
            all_ok-bind passes (read_method shown b (has_value shown b body) (t.field "method")) _
              (λ name _.
                all_ok-bind passes
                  (refuse_unless b (is_method_name (map upper name)) "invalid method") _
                  (λ v capital.
                    all_ok-bind passes
                      (refuse_unless b
                        (not (has_value shown b body && takes_no_body shown b (map upper name)))
                        "request has no body")
                      _
                      (λ _ _.
                        all_ok-bind passes (read_header_table shown b entries (t.field "headers")) _
                          (λ headers plain.
                            all_ok-bind passes
                              (read_timeout shown b fraction_ms (t.field "timeout")) _
                              (λ ms _.
                                all_ok-bind passes (read_redirects shown b (t.field "redirects")) _
                                  (λ n _.
                                    both_true
                                      (both_true
                                        (read_header_table-plain shown b entries (t.field "headers")
                                          headers plain)
                                        (refuse_unless-ok b (is_method_name (map upper name))
                                          "invalid method" v capital))
                                      (refuse_unless-ok b (is_http_url url)
                                        "the URL must start with http:// or https://" u
                                        good)))))))))))

  all_safe :
      (tables : ℕ → LuaTable) (v : LuaValue)
      → all_ok passes (read_request shown b tables entries fraction_ms v) ≡ true
  unfolding read_request
  all_safe tables (string_value url) = read_text-passes url
  all_safe tables (table_value t) = read_table-passes (tables t) (entries t)
  all_safe tables _ = refl

  -- Whatever a script passes to http.request, a request that ReadRequest accepts has headers
  -- without the bytes 13, 10 and 0, a method of 1 to 16 letters from A to Z and a URL that begins
  -- with http:// or https://, in letters of any case.
  pub read_request-is_safe :
      (tables : ℕ → LuaTable) (v : LuaValue) (r : HttpRequest)
      → read_request shown b tables entries fraction_ms v ≡ ok r
      → is_safe r ≡ true
  read_request-is_safe tables v r e =
      passes-is_safe r (
        all_ok-ok passes (read_request shown b tables entries fraction_ms v) r (all_safe tables v)
          e)
