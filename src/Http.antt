-- ===== src/Http.antt =====
-- src/modules/http.hpp and http.cpp: the requests of scripts and their transfers.
-- libcurl is a parameter: whether it accepts a request, what it writes and which transfers it
-- reports as finished are arguments. Texts are lists of bytes.
pub mod Request
pub mod Lines
pub mod Injection
pub mod Transfers
pub mod Limits
use vcmp_lua.Prelude.{
  [], ◌-◌, codes, length, map, ◌&&◌, ◌∷◌, Option, false, leb, ltb, none, not, some, true, ◌==◌,
  ◌||◌, Bool, List, if◌then◌else◌, ℕ,
}
use vcmp_lua.Names.{is_alnum, lower}

-- `Http::Request`.
pub record HttpRequest : Type 0 where
  pub url : List ℕ
  pub method : List ℕ
  pub headers : List (List ℕ)
  pub body : List ℕ
  pub has_body : Bool
  pub timeout_ms : ℕ
  pub max_redirects : ℕ

abbrev pub contains_byte : List ℕ → ℕ → Bool
contains_byte [] c = false
contains_byte (x ∷ xs) c = x == c || contains_byte xs c

-- `TokenChar`.
unfoldable pub is_token_char : ℕ → Bool
unfolding is_alnum
is_token_char c = is_alnum c || contains_byte (codes "!#$%&'*+-.^_`|~") c

abbrev pub all_bytes : (ℕ → Bool) → List ℕ → Bool
all_bytes p [] = true
all_bytes p (c ∷ cs) = p c && all_bytes p cs

-- A byte that ends a line or a C string.
abbrev pub is_break : ℕ → Bool
is_break c = c == 13 || c == 10 || c == 0

abbrev pub is_plain : ℕ → Bool
is_plain c = not (is_break c)

-- `find("://")`: the text before it, if it occurs.
abbrev pub starts_scheme : List ℕ → Bool
starts_scheme (x ∷ y ∷ z ∷ rest) = x == b':' && y == b'/' && z == b'/'
starts_scheme _ = false

unfoldable pub scheme_of : List ℕ → Option (List ℕ)
scheme_of [] = none
scheme_of (c ∷ cs) =
    let rest = scheme_of cs in
    if starts_scheme (c ∷ cs)
    then some []
    else elim rest [ none ↦ none | some scheme ↦ some (c ∷ scheme) ]

abbrev pub same_bytes : List ℕ → List ℕ → Bool
same_bytes [] [] = true
same_bytes (x ∷ xs) (y ∷ ys) = x == y && same_bytes xs ys
same_bytes _ _ = false

-- The test of CheckUrl.
unfoldable pub is_http_url : List ℕ → Bool
unfolding lower scheme_of
is_http_url url = elim (scheme_of url) [
  | none ↦ false
  | some scheme ↦
      same_bytes (map lower scheme) (codes "http") || same_bytes (map lower scheme) (codes "https")
]

unfoldable pub upper : ℕ → ℕ
upper c = if leb b'a' c && leb c b'z' then c - 32 else c

abbrev pub is_capital : ℕ → Bool
is_capital c = leb b'A' c && leb c b'Z'

-- The tests of a method.
unfoldable pub is_method_name : List ℕ → Bool
is_method_name name = ltb 0 (length name) && leb (length name) 16 && all_bytes is_capital name
