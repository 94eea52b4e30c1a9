-- ===== src/Event/Binding.antt =====
-- The bus against its specification: for each event, the list of the bound functions.
use vcmp_lua.Prelude.{
  zero, suc, eq_of_==, refl, ◌∙◌, get_or-set, inr, arith, get_elem?-get_or, inl, Bool-cases, ◌∷◌,
  ◌++◌, ◌&&◌, ◌==◌, if◌then◌else◌, ◌≡◌, ◌<◌,
}
use vcmp_lua.Event.Handlers.{
  live_fns-live_handlers, live_fns-marked, mark_dead-marked, marked, remove, live_fns-append,
  is_bound-contains, contains, live_fns,
}
use vcmp_lua.Event.{
  live_handlers, map, Handler, compact, compact_if_idle, false, set, unbind, add_handler, not, ok,
  [], true, get_or, length, Fn, List, bind, ℕ, EventBus,
}

-- What scripts can tell of an event: its bound functions in bind order.
abbrev pub bound : EventBus → ℕ → List Fn
bound b event = live_fns (get_or b.lists event [])

bind-eq :
    (b : EventBus) (event : ℕ) (fn : Fn)
    → event < length b.lists
    → bind true b event fn
      ≡ ok (
          if contains fn (bound b event)
          then (b, false)
          else (add_handler b event (get_or b.lists event []) fn, true))
unfolding bind
bind-eq b event fn h =
    ground
      (arith, get_elem?-get_or b.lists event [] h, is_bound-contains fn (get_or b.lists event []))

bound-add_handler :
    (b : EventBus) (event : ℕ) (fn : Fn) (j : ℕ)
    → event < length b.lists
    → bound (add_handler b event (get_or b.lists event []) fn) j
      ≡ (if event == j then bound b event ++ fn ∷ [] else bound b j)
unfolding live_fns
bound-add_handler b event fn j h = ground (
  arith,
  get_or-set b.lists event j (get_or b.lists event [] ++ record { fn = fn; alive = true } ∷ []) []
      h,
  live_fns-append (get_or b.lists event []) (record { fn = fn; alive = true } ∷ []),
)

remove_absent : (fn : Fn) (fs : List Fn) → contains fn fs ≡ false → remove fn fs ≡ fs
remove_absent fn [] h = refl
remove_absent fn (f ∷ fs) h = ground (arith, remove_absent fn fs)

-- Binding, for an event of the bus and with room on the stack, appends a function that is not
-- bound to the event yet, returns whether it did, and changes no other event.
pub bind_refines :
    (b : EventBus) (event : ℕ) (fn : Fn)
    → event < length b.lists
    → (b' : EventBus) × (bind true b event fn ≡ ok (b', not (contains fn (bound b event))))
      × ((j : ℕ)
          → bound b' j ≡ (
              if (event == j) && not (contains fn (bound b event))
              then bound b event ++ fn ∷ []
              else bound b j))
bind_refines b event fn h = elim (Bool-cases (contains fn (bound b event))) [
  | inl old ↦ (b, bind-eq b event fn h ∙ rw old refl, λ j. rw old (ground arith))
  | inr new ↦ (
    add_handler b event (get_or b.lists event []) fn,
    bind-eq b event fn h ∙ rw new refl,
    λ j. rw new (ground (arith, bound-add_handler b event fn j h)),
  )
]

get_or-live_handlers :
    (ls : List (List Handler)) (j : ℕ)
    → live_fns (get_or (map live_handlers ls) j []) ≡ live_fns (get_or ls j [])
get_or-live_handlers [] j = refl
get_or-live_handlers (hs ∷ ls) zero = live_fns-live_handlers hs
get_or-live_handlers (hs ∷ ls) (suc j) = get_or-live_handlers ls j

-- Compaction is invisible to scripts.
pub bound-compact : (b : EventBus) (event : ℕ) → bound (compact b) event ≡ bound b event
unfolding compact
bound-compact b event = get_or-live_handlers b.lists event

bound-compact_if_idle : (b : EventBus) (event : ℕ) → bound (compact_if_idle b) event ≡ bound b event
unfolding compact_if_idle
bound-compact_if_idle b event = ground (arith, bound-compact b event)

abbrev marked_bus : EventBus → ℕ → Fn → EventBus
marked_bus b event fn = record b {
  lists = set b.lists event (marked fn (get_or b.lists event []));
  needs_compaction = true;
}

unbind-eq :
    (b : EventBus) (event : ℕ) (fn : Fn)
    → event < length b.lists
    → unbind true b event fn
      ≡ ok (
          if contains fn (bound b event)
          then (compact_if_idle (marked_bus b event fn), true)
          else (b, false))
unfolding unbind
unbind-eq b event fn h =
    ground
      (arith, get_elem?-get_or b.lists event [] h, mark_dead-marked fn (get_or b.lists event []))

-- Unbinding, for an event of the bus and with room on the stack, removes the function from the
-- bound functions of the event if it is there, returns whether it was, and changes no other
-- event, whether the handler is removed at once or only marked.
pub unbind_refines :
    (b : EventBus) (event : ℕ) (fn : Fn)
    → event < length b.lists
    → (b' : EventBus) × (unbind true b event fn ≡ ok (b', contains fn (bound b event)))
      × ((j : ℕ) → bound b' j ≡ (if event == j then remove fn (bound b event) else bound b j))
unbind_refines b event fn h = elim (Bool-cases (contains fn (bound b event))) [
  | inl old ↦ (
    compact_if_idle (marked_bus b event fn),
    unbind-eq b event fn h ∙ rw old refl,
    λ j. ground (
      arith,
      bound-compact_if_idle (marked_bus b event fn) j,
      get_or-set b.lists event j (marked fn (get_or b.lists event [])) [] h,
      live_fns-marked fn (get_or b.lists event []),
    ),
  )
  | inr new ↦ (
    b,
    unbind-eq b event fn h ∙ rw new refl,
    λ j. ground (arith, remove_absent fn (bound b event) new, eq_of_== event j),
  )
]
