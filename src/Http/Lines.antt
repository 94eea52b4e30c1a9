-- ===== src/Http/Lines.antt =====
-- src/modules/http.cpp: which requests are safe, in bytes, apart from the tests of the code.
-- A safe request has headers of one line each, a short word of capitals as its method and a URL
-- that begins with http:// or https://.
use vcmp_lua.Prelude.{
  subst, ==_refl, inr, inl, Bool-cases, Option-cases, eq_of_==, refl, ◌==◌, [], false, leb, not,
  ◌&&◌, ◌||◌, arith, codes, length, ◌++◌, ◌∷◌, ltb, map, some, true, Bool, ◌≡◌, ℕ, List,
}
use vcmp_lua.Names.{lower}
use vcmp_lua.Http.{
  all_bytes, same_bytes, starts_scheme, scheme_of, is_http_url, is_method_name, is_plain,
  is_capital,
}

-- Neither a carriage return nor a line feed nor a NUL.
abbrev is_one_line : List ℕ → Bool
is_one_line [] = true
is_one_line (c ∷ cs) = not (c == 13) && not (c == 10) && not (c == 0) && is_one_line cs

abbrev pub are_lines : List (List ℕ) → Bool
are_lines [] = true
are_lines (line ∷ lines) = is_one_line line && are_lines lines

abbrev is_word : List ℕ → Bool
is_word [] = true
is_word (c ∷ cs) = leb 65 c && leb c 90 && is_word cs

-- A word of 1 to 16 letters from A to Z.
abbrev pub is_short_word : List ℕ → Bool
is_short_word cs = ltb 0 (length cs) && ltb (length cs) 17 && is_word cs

abbrev pub begins : List ℕ → List ℕ → Bool
begins cs [] = true
begins [] (d ∷ ds) = false
begins (c ∷ cs) (d ∷ ds) = c == d && begins cs ds

-- A URL that begins with http:// or https://, in letters of any case.
abbrev pub is_web_url : List ℕ → Bool
is_web_url url =
    begins (map lower url) (codes "http://") || begins (map lower url) (codes "https://")

-- The test of the code for every header.
abbrev pub all_lines_plain : List (List ℕ) → Bool
all_lines_plain [] = true
all_lines_plain (line ∷ lines) = all_bytes is_plain line && all_lines_plain lines

plain_is_one_line : (line : List ℕ) → all_bytes is_plain line ≡ true → is_one_line line ≡ true
plain_is_one_line [] h = refl
plain_is_one_line (c ∷ cs) h = grind (arith, plain_is_one_line cs)

pub plain_are_lines :
    (lines : List (List ℕ)) → all_lines_plain lines ≡ true → are_lines lines ≡ true
plain_are_lines [] h = refl
plain_are_lines (line ∷ lines) h = grind (arith, plain_is_one_line line, plain_are_lines lines)

capitals_are_word : (cs : List ℕ) → all_bytes is_capital cs ≡ true → is_word cs ≡ true
capitals_are_word [] h = refl
capitals_are_word (c ∷ cs) h = grind (arith, capitals_are_word cs)

pub method_is_short_word : (cs : List ℕ) → is_method_name cs ≡ true → is_short_word cs ≡ true
unfolding is_method_name
method_is_short_word cs h = grind (arith, capitals_are_word cs, h)

eq_of_same_bytes : (xs ys : List ℕ) → same_bytes xs ys ≡ true → xs ≡ ys
eq_of_same_bytes [] [] h = refl
eq_of_same_bytes [] (y ∷ ys) h = absurd (grind arith)
eq_of_same_bytes (x ∷ xs) [] h = absurd (grind arith)
eq_of_same_bytes (x ∷ xs) (y ∷ ys) h =
    let p : x ≡ y = eq_of_== x y (grind (arith, h)) in
    let q : xs ≡ ys = eq_of_same_bytes xs ys (grind (arith, h)) in rw (p, q) refl

starts_lower : (cs : List ℕ) → starts_scheme cs ≡ true → begins (map lower cs) (codes "://") ≡ true
unfolding lower
starts_lower [] h = absurd (grind arith)
starts_lower (x ∷ []) h = absurd (grind arith)
starts_lower (x ∷ y ∷ []) h = absurd (grind arith)
starts_lower (x ∷ y ∷ z ∷ cs) h = ground (arith, h)

-- The scheme and what follows it stand at the start of the URL.
scheme_begins :
    (url scheme : List ℕ)
    → scheme_of url ≡ some scheme
    → begins (map lower url) (map lower scheme ++ codes "://") ≡ true
unfolding scheme_of
scheme_begins [] scheme h = absurd (grind arith)
scheme_begins (c ∷ cs) scheme h = elim (Bool-cases (starts_scheme (c ∷ cs))) [
  | inl t ↦ let e : scheme ≡ [] = ground (arith, t, h) in rw e (starts_lower (c ∷ cs) t)
  | inr t ↦ elim (Option-cases (scheme_of cs)) [
    | inl n ↦ absurd (ground (arith, t, n, h))
    | inr (rest, r) ↦
        let e : scheme ≡ c ∷ rest = ground (arith, t, r, h) in
        rw e (ground (arith, scheme_begins cs rest r, ==_refl (lower c)))
  ]
]

with_scheme :
    (url scheme word : List ℕ)
    → begins (map lower url) (map lower scheme ++ codes "://") ≡ true
    → same_bytes (map lower scheme) word ≡ true
    → begins (map lower url) (word ++ codes "://") ≡ true
with_scheme url scheme word b h =
    subst (λ s. begins (map lower url) (s ++ codes "://") ≡ true)
      (eq_of_same_bytes (map lower scheme) word h) b

either :
    (a b c d : Bool) → (a ≡ true → c ≡ true) → (b ≡ true → d ≡ true) → a || b ≡ true → c || d ≡ true
either true b c d f g h = rw (f refl) refl
either false b c d f g h = ground (arith, g h)

pub http_is_web_url : (url : List ℕ) → is_http_url url ≡ true → is_web_url url ≡ true
unfolding is_http_url
http_is_web_url url h = elim (Option-cases (scheme_of url)) [
  | inl n ↦ absurd (ground (arith, n, h))
  | inr (scheme, e) ↦
      let known : same_bytes (map lower scheme) (codes "http")
            || same_bytes (map lower scheme) (codes "https")
          ≡ true =
        ground (arith, e, h) in
      let b = scheme_begins url scheme e in
      either (same_bytes (map lower scheme) (codes "http"))
        (same_bytes (map lower scheme) (codes "https")) (begins (map lower url) (codes "http://"))
        (begins (map lower url) (codes "https://")) (with_scheme url scheme (codes "http") b)
        (with_scheme url scheme (codes "https") b) known
]
