-- ===== src/Http/Limits.antt =====
-- src/modules/http.hpp: the limits of the http module, over any sequence of its operations.
use vcmp_lua.Prelude.{
  none, some, sym, Option, if_cases, subst, length-append, refl, suc, ◌&&◌, [], ap, arith, leb,
  true, ◌∷◌, ◌≡◌, ◌≤◌, Bool, List, length, ℕ,
}
use vcmp_lua.Http.Transfers.{
  split_colon, is_line_end, strip_end, add_header, is_status_line, max_body, max_pending, Message,
  change_transfer, erase_transfer, Transfer, collect, header, start_request, write, Http,
}
use vcmp_lua.Lua.{Fn}

-- What scripts and libcurl do to the module.
pub data HttpOp : Type 0 where
  starts : Bool → Fn → HttpOp
  writes : ℕ → List ℕ → HttpOp
  reads_header : ℕ → List ℕ → HttpOp
  pumps : List Message → HttpOp
  clears : HttpOp

unfoldable pub step_http : HttpOp → Http → Http
unfolding start_request write header collect
step_http (starts accepts callback) h = (start_request accepts callback h).1
step_http (writes id bytes) h = record h {
  transfers = change_transfer id (λ t. (write bytes t).1) h.transfers;
}
step_http (reads_header id line) h = record h {
  transfers = change_transfer id (header line) h.transfers;
}
step_http (pumps messages) h = record h { transfers = (collect messages h.transfers).1 }
step_http clears h = record h { transfers = [] }

abbrev pub run_http : List HttpOp → Http → Http
run_http [] h = h
run_http (op ∷ ops) h = run_http ops (step_http op h)

abbrev pub bodies_fit : List Transfer → Bool
bodies_fit [] = true
bodies_fit (t ∷ ts) = leb (length t.body) max_body && bodies_fit ts

abbrev pub IsLimited : Http → Type 0
IsLimited h = (length h.transfers ≤ max_pending) × (bodies_fit h.transfers ≡ true)

length-change_transfer :
    (id : ℕ) (f : Transfer → Transfer) (ts : List Transfer)
    → length (change_transfer id f ts) ≡ length ts
length-change_transfer id f [] = refl
length-change_transfer id f (t ∷ ts) = ap suc (length-change_transfer id f ts)

bodies_fit-change_transfer :
    (id : ℕ) (f : Transfer → Transfer) (ts : List Transfer)
    → ((t : Transfer)
        → leb (length t.body) max_body ≡ true
        → leb (length (f t).body) max_body ≡ true)
    → bodies_fit ts ≡ true
    → bodies_fit (change_transfer id f ts) ≡ true
bodies_fit-change_transfer id f [] k h = refl
bodies_fit-change_transfer id f (t ∷ ts) k h =
    grind (arith, k t, bodies_fit-change_transfer id f ts k)

write-fits :
    (bytes : List ℕ) (t : Transfer)
    → leb (length t.body) max_body ≡ true
    → leb (length ((write bytes t).1).body) max_body ≡ true
unfolding write
write-fits bytes t h = ground (arith, length-append t.body bytes)

body-add_header :
    (parts : Option (List ℕ × List ℕ)) (t : Transfer) → (add_header parts t).body ≡ t.body
body-add_header none t = refl
body-add_header (some ([], value)) t = refl
body-add_header (some (c ∷ cs, value)) t = refl

body-header : (line : List ℕ) (t : Transfer) → (header line t).body ≡ t.body
unfolding header
body-header line t =
    if_cases (λ x. x.body ≡ t.body) (is_status_line (strip_end is_line_end line))
      (record t { response_headers = [] }) (add_header (split_colon (strip_end is_line_end line)) t)
      (λ _. refl) (λ _. body-add_header (split_colon (strip_end is_line_end line)) t)

header-fits :
    (line : List ℕ) (t : Transfer)
    → leb (length t.body) max_body ≡ true
    → leb (length (header line t).body) max_body ≡ true
header-fits line t h = subst (λ x. leb (length x) max_body ≡ true) (sym (body-header line t)) h

erase_fewer : (id : ℕ) (ts : List Transfer) → length (erase_transfer id ts) ≤ length ts
erase_fewer id [] = omega arith
erase_fewer id (t ∷ ts) = ground (arith, erase_fewer id ts)

erase-fits :
    (id : ℕ) (ts : List Transfer) → bodies_fit ts ≡ true → bodies_fit (erase_transfer id ts) ≡ true
erase-fits id [] h = refl
erase-fits id (t ∷ ts) h = grind (arith, erase-fits id ts)

collect-IsLimited :
    (ms : List Message) (ts : List Transfer)
    → (length (collect ms ts).1 ≤ length ts)
      × (bodies_fit ts ≡ true → bodies_fit (collect ms ts).1 ≡ true)
unfolding collect
collect-IsLimited [] ts = (omega arith, λ h. h)
collect-IsLimited (m ∷ ms) ts =
    let (few, fit) = collect-IsLimited ms (erase_transfer m.transfer ts) in
    (omega (arith, few, erase_fewer m.transfer ts), λ h. fit (erase-fits m.transfer ts h))

start_request-IsLimited :
    (accepts : Bool) (callback : Fn) (h : Http)
    → IsLimited h
    → IsLimited (start_request accepts callback h).1
unfolding start_request
start_request-IsLimited accepts callback h v = ground arith

step_http-IsLimited : (op : HttpOp) (h : Http) → IsLimited h → IsLimited (step_http op h)
unfolding step_http
step_http-IsLimited (starts accepts callback) h v = start_request-IsLimited accepts callback h v
step_http-IsLimited (writes id bytes) h v = (
  omega (arith, v.0, length-change_transfer id (λ t. (write bytes t).1) h.transfers),
  bodies_fit-change_transfer id (λ t. (write bytes t).1) h.transfers (write-fits bytes) v.1,
)
step_http-IsLimited (reads_header id line) h v = (
  omega (arith, v.0, length-change_transfer id (header line) h.transfers),
  bodies_fit-change_transfer id (header line) h.transfers (header-fits line) v.1,
)
step_http-IsLimited (pumps ms) h v =
    let (few, fit) = collect-IsLimited ms h.transfers in (omega (arith, few, v.0), fit v.1)
step_http-IsLimited clears h v = (omega arith, refl)

-- The constructor.
abbrev pub new_http : Http
new_http = record { next_id = 1; transfers = [] }

run_http-from : (ops : List HttpOp) (h : Http) → IsLimited h → IsLimited (run_http ops h)
run_http-from [] h v = v
run_http-from (op ∷ ops) h v = run_http-from ops (step_http op h) (step_http-IsLimited op h v)

-- After any sequence of starts, writes, header lines, pumps and clears, at most 1000 requests are
-- pending and no response body is longer than 16 MiB.
pub run_http-IsLimited : (ops : List HttpOp) → IsLimited (run_http ops new_http)
run_http-IsLimited ops = run_http-from ops new_http (omega arith, refl)
