-- ===== src/Http/Transfers.antt =====
-- src/modules/http.cpp, Http and its Transfer: what libcurl writes, the start of a request, and the
-- collection of the finished ones.
use vcmp_lua.Names.{lower}
use vcmp_lua.Prelude.{
  ok, not, err, ◌+◌, codes, false, leb, length, ltb, map, ◌&&◌, ◌++◌, ◌||◌, Result, [],
  if◌then◌else◌, none, some, ◌==◌, ◌∷◌, Bool, List, Option, true, ℤ, ◌*◌, ℕ,
}
use vcmp_lua.Http.{same_bytes}
use vcmp_lua.Lua.{Fn}

-- kMaxPending and kMaxBody.
abbrev pub max_pending : ℕ
max_pending = 1000

abbrev pub max_body : ℕ
max_body = 16 * 1024 * 1024

-- `fine` is `result == CURLE_OK`; `message` is the error buffer, or the text of the result.
pub record Transfer : Type 0 where
  pub id : ℕ
  pub callback : Fn
  pub fine : Bool
  pub message : List ℕ
  pub too_large : Bool
  pub response_headers : List (List ℕ × List ℕ)
  pub body : List ℕ

pub record Http : Type 0 where
  pub next_id : ℕ
  pub transfers : List Transfer

-- The transfer of a new request.
abbrev pub new_transfer : ℕ → Fn → Transfer
new_transfer id callback = record {
  id = id;
  callback = callback;
  fine = true;
  message = [];
  too_large = false;
  response_headers = [];
  body = [];
}

-- `Transfer::Write`, with the number of bytes taken; 0 aborts the transfer.
unfoldable pub write : List ℕ → Transfer → ℕ × Transfer
write bytes t =
    if ltb max_body (length t.body + length bytes)
    then (0, record t { too_large = true })
    else (length bytes, record t { body = t.body ++ bytes })

-- The loops that strip bytes from the end of a text and from its start.
unfoldable pub strip_end : (ℕ → Bool) → List ℕ → List ℕ
strip_end p [] = []
strip_end p (c ∷ cs) = let rest = strip_end p cs in if length rest == 0 && p c then [] else c ∷ rest

unfoldable pub strip_start : (ℕ → Bool) → List ℕ → List ℕ
strip_start p [] = []
strip_start p (c ∷ cs) = let rest = strip_start p cs in if p c then rest else c ∷ cs

abbrev pub is_line_end : ℕ → Bool
is_line_end c = c == 13 || c == 10

abbrev is_blank : ℕ → Bool
is_blank c = c == 32 || c == 9

-- `line.find(':')`: the texts before and after it.
unfoldable pub split_colon : List ℕ → Option (List ℕ × List ℕ)
split_colon [] = none
split_colon (c ∷ cs) =
    let later = split_colon cs in
    if c == b':'
    then some ([], cs)
    else elim later [ none ↦ none | some (name, value) ↦ some (c ∷ name, value) ]

abbrev pub is_status_line : List ℕ → Bool
is_status_line (h ∷ t ∷ u ∷ p ∷ slash ∷ rest) =
    h == b'H' && t == b'T' && u == b'T' && p == b'P' && slash == b'/'
is_status_line _ = false

-- A header line in two parts; one that starts with the colon is malformed.
abbrev pub add_header : Option (List ℕ × List ℕ) → Transfer → Transfer
add_header none t = t
add_header (some ([], value)) t = t
add_header (some (c ∷ cs, value)) t = record t {
  response_headers =
      t.response_headers
      ++ (map lower (c ∷ cs), strip_end is_blank (strip_start is_blank value)) ∷ [];
}

-- `Transfer::Header`.
unfoldable pub header : List ℕ → Transfer → Transfer
unfolding strip_end strip_start split_colon lower
header bytes t =
    if is_status_line (strip_end is_line_end bytes)
    then record t { response_headers = [] }
    else add_header (split_colon (strip_end is_line_end bytes)) t

pub data HttpError : Type 0 where
  too_many_pending : HttpError
  refused_by_curl : HttpError

-- `Start`: the id is taken also if libcurl then refuses.
unfoldable pub start_request : Bool → Fn → Http → Result HttpError (Unit {0}) × Http
start_request accepts callback h =
    if leb max_pending (length h.transfers)
    then (err too_many_pending, h)
    else if not accepts
    then (err refused_by_curl, record h { next_id = h.next_id + 1 })
    else (
      ok tt,
      record { next_id = h.next_id + 1; transfers = new_transfer h.next_id callback ∷ h.transfers },
    )

abbrev pub change_transfer : ℕ → (Transfer → Transfer) → List Transfer → List Transfer
change_transfer id f [] = []
change_transfer id f (t ∷ ts) = (if t.id == id then f t else t) ∷ change_transfer id f ts

abbrev pub find_transfer : ℕ → List Transfer → List Transfer
find_transfer id [] = []
find_transfer id (t ∷ ts) = let rest = find_transfer id ts in if t.id == id then t ∷ rest else rest

abbrev pub erase_transfer : ℕ → List Transfer → List Transfer
erase_transfer id [] = []
erase_transfer id (t ∷ ts) =
    let rest = erase_transfer id ts in if t.id == id then rest else t ∷ rest

-- CURLMSG_DONE: the transfer, and its result.
pub record Message : Type 0 where
  pub transfer : ℕ
  pub fine : Bool
  pub message : List ℕ

abbrev finish_transfer : Message → Transfer → Transfer
finish_transfer m t = record t { fine = m.fine; message = m.message }

-- The loop of `Pump` over the messages: the finished transfers in order, and what is left.
unfoldable pub collect : List Message → List Transfer → List Transfer × List Transfer
collect [] ts = ([], ts)
collect (m ∷ ms) ts =
    let (done, left) = collect ms (erase_transfer m.transfer ts) in
    (map (finish_transfer m) (find_transfer m.transfer ts) ++ done, left)

-- The headers of the response table: a repeated one is joined to the first.
abbrev join_header : List ℕ → List ℕ → List (List ℕ × List ℕ) → List (List ℕ × List ℕ)
join_header name value [] = (name, value) ∷ []
join_header name value ((n, v) ∷ rest) =
    let later = join_header name value rest in
    if same_bytes n name then (n, v ++ codes ", " ++ value) ∷ rest else (n, v) ∷ later

unfoldable pub headers_table :
    List (List ℕ × List ℕ) → List (List ℕ × List ℕ) → List (List ℕ × List ℕ)
headers_table table [] = table
headers_table table ((name, value) ∷ rest) = headers_table (join_header name value table) rest

-- The arguments of the callback: `callback(response, nil)` or `callback(nil, error)`.
pub data Completion : Type 0 where
  response : ℤ → List ℕ → List ℕ → List (List ℕ × List ℕ) → Completion
  failure : List ℕ → Completion

-- `Complete`, with the status and the URL that libcurl reports.
unfoldable pub completion : ℤ → List ℕ → Transfer → Completion
unfolding headers_table
completion status url t =
    if t.fine
    then response status url t.body (headers_table [] t.response_headers)
    else if t.too_large
    then failure (codes "the response body is larger than 16777216 bytes")
    else failure t.message
