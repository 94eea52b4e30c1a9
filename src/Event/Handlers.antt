-- ===== src/Event/Handlers.antt =====
-- One event's handlers as scripts see them: the functions bound to the event, in bind order.
use vcmp_lua.Prelude.{◌&&◌, refl, ◌||◌, [], ◌==◌, arith, if◌then◌else◌, ◌++◌, ◌≡◌}
use vcmp_lua.Event.{
  some, none, false, ok, Bool, true, ◌∷◌, Fn, List, is_bound, live_handlers, mark_dead, Handler,
}

-- The functions of the live handlers.
unfoldable pub live_fns : List Handler → List Fn
live_fns [] = []
live_fns (h ∷ hs) = let rest = live_fns hs in if h.alive then h.fn ∷ rest else rest

abbrev pub contains : Fn → List Fn → Bool
contains fn [] = false
contains fn (f ∷ fs) = f == fn || contains fn fs

abbrev pub remove : Fn → List Fn → List Fn
remove fn [] = []
remove fn (f ∷ fs) = if f == fn then fs else f ∷ remove fn fs

pub live_fns-append : (xs ys : List Handler) → live_fns (xs ++ ys) ≡ live_fns xs ++ live_fns ys
unfolding live_fns
live_fns-append [] ys = refl
live_fns-append (h ∷ hs) ys = ground (arith, live_fns-append hs ys)

pub is_bound-contains :
    (fn : Fn) (hs : List Handler) → is_bound true fn hs ≡ ok (contains fn (live_fns hs))
unfolding is_bound live_fns
is_bound-contains fn [] = refl
is_bound-contains fn (h ∷ hs) = ground (arith, is_bound-contains fn hs)

-- The list that `mark_dead` leaves when it finds the function.
unfoldable pub marked : Fn → List Handler → List Handler
marked fn [] = []
marked fn (h ∷ hs) =
    let rest = h ∷ marked fn hs in
    if h.alive && h.fn == fn then record h { alive = false } ∷ hs else rest

pub mark_dead-marked :
    (fn : Fn) (hs : List Handler)
    → mark_dead true fn hs ≡ ok (if contains fn (live_fns hs) then some (marked fn hs) else none)
unfolding mark_dead live_fns marked
mark_dead-marked fn [] = refl
mark_dead-marked fn (h ∷ hs) = ground (arith, mark_dead-marked fn hs)

pub live_fns-marked :
    (fn : Fn) (hs : List Handler) → live_fns (marked fn hs) ≡ remove fn (live_fns hs)
unfolding live_fns marked
live_fns-marked fn [] = refl
live_fns-marked fn (h ∷ hs) = ground (arith, live_fns-marked fn hs)

pub live_fns-live_handlers : (hs : List Handler) → live_fns (live_handlers hs) ≡ live_fns hs
unfolding live_fns live_handlers
live_fns-live_handlers [] = refl
live_fns-live_handlers (h ∷ hs) = ground (arith, live_fns-live_handlers hs)
