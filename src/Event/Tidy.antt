-- ===== src/Event/Tidy.antt =====
-- Dead handlers do not pile up: as long as a list has one, a compaction is pending.
use vcmp_lua.Lua.{Fn}
use vcmp_lua.Event.{
  is_bound, add_handler, compact_if_idle, err, is_empty, ok, BusError, finish_frame, Handler,
  cancel, pop_frame, EventBus, compact, live_handlers, push_frame, unbind,
}
use vcmp_lua.Prelude.{
  Bool-cases, ◌||◌, inr, none, Option, if◌then◌else◌, inl, Option-cases, ◌>>=◌, zero, suc, set,
  refl, some, [], arith, get_elem?, if_cases, ◌&&◌, ◌++◌, false, map, true, Bool, Result, ◌∷◌, ◌≡◌,
  List, String, ℕ,
}
use vcmp_lua.Event

pub data BusOp : Type 0 where
  creates : String → BusOp
  binds unbinds : Bool → ℕ → Fn → BusOp
  cancels starts_frame clears : BusOp
  pops finishes : ℕ → BusOp

-- The bus after a call that may throw.
abbrev after_bind : EventBus → Result BusError (EventBus × Bool) → EventBus
after_bind b (ok (c, r)) = c
after_bind b (err e) = b

abbrev after_cancel : EventBus → Result BusError EventBus → EventBus
after_cancel b (ok c) = c
after_cancel b (err e) = b

unfoldable pub bus_step : EventBus → BusOp → EventBus
unfolding Event.create Event.bind unbind cancel Event.clear push_frame pop_frame finish_frame
bus_step b (creates name) = (Event.create b name).0
bus_step b (binds room event fn) = after_bind b (Event.bind room b event fn)
bus_step b (unbinds room event fn) = after_bind b (unbind room b event fn)
bus_step b cancels = after_cancel b (cancel b)
bus_step b starts_frame = push_frame b
bus_step b clears = Event.clear b
bus_step b (pops i) = pop_frame b i
bus_step b (finishes i) = (finish_frame b i).0

abbrev pub run_bus : EventBus → List BusOp → EventBus
run_bus b [] = b
run_bus b (op ∷ ops) = run_bus (bus_step b op) ops

abbrev all_alive : List Handler → Bool
all_alive [] = true
all_alive (h ∷ hs) = h.alive && all_alive hs

abbrev pub lists_alive : List (List Handler) → Bool
lists_alive [] = true
lists_alive (hs ∷ ls) = all_alive hs && lists_alive ls

abbrev pub IsTidy : EventBus → Type 0
IsTidy b = b.needs_compaction ≡ false → lists_alive b.lists ≡ true

alive-live_handlers : (hs : List Handler) → all_alive (live_handlers hs) ≡ true
unfolding live_handlers
alive-live_handlers [] = refl
alive-live_handlers (h ∷ hs) = ground (arith, alive-live_handlers hs)

alive-compacted : (ls : List (List Handler)) → lists_alive (map live_handlers ls) ≡ true
alive-compacted [] = refl
alive-compacted (hs ∷ ls) = ground (arith, alive-live_handlers hs, alive-compacted ls)

alive-cleared : (ls : List (List Handler)) → lists_alive (map (λ hs. []) ls) ≡ true
alive-cleared [] = refl
alive-cleared (hs ∷ ls) = alive-cleared ls

alive-new_list :
    (ls : List (List Handler)) → lists_alive ls ≡ true → lists_alive (ls ++ [] ∷ []) ≡ true
alive-new_list [] h = refl
alive-new_list (hs ∷ ls) h = ground (arith, alive-new_list ls, h)

alive-added :
    (hs : List Handler) (fn : Fn)
    → all_alive hs ≡ true
    → all_alive (hs ++ record { fn = fn; alive = true } ∷ []) ≡ true
alive-added [] fn h = refl
alive-added (x ∷ hs) fn h = ground (arith, alive-added hs fn, h)

alive-set :
    (ls : List (List Handler)) (i : ℕ) (hs : List Handler) (fn : Fn)
    → get_elem? ls i ≡ some hs
    → lists_alive ls ≡ true
    → lists_alive (set ls i (hs ++ record { fn = fn; alive = true } ∷ [])) ≡ true
alive-set [] i hs fn g h = cc
alive-set (x ∷ ls) zero hs fn g h = let e : x ≡ hs = cc in ground (arith, alive-added hs fn, e, h)
alive-set (x ∷ ls) (suc i) hs fn g h = ground (arith, alive-set ls i hs fn g, h)

compact-IsTidy : (b : EventBus) → IsTidy (compact b)
unfolding compact
compact-IsTidy b h = alive-compacted b.lists

create-IsTidy : (b : EventBus) (name : String) → IsTidy b → IsTidy (Event.create b name).0
unfolding Event.create
create-IsTidy b name t = elim (Option-cases (Event.find b name)) [
  | inl e ↦ λ h. ground (arith, h, t, e, alive-new_list b.lists)
  | inr (i, e) ↦ λ h. ground (arith, h, t, e)
]

cancel-IsTidy : (b : EventBus) → IsTidy b → IsTidy (after_cancel b (cancel b))
unfolding cancel
cancel-IsTidy b t = λ h. ground (arith, h, t)

-- A bound handler is added alive.
added-IsTidy :
    (b : EventBus) (event : ℕ) (fn : Fn) (hs : List Handler) (r : Result BusError Bool)
    → get_elem? b.lists event ≡ some hs
    → IsTidy b
    → IsTidy (
        after_bind b
          (do found ← r; if found then ok (b, false) else ok (add_handler b event hs fn, true)))
added-IsTidy b event fn hs (err e) g t = t
added-IsTidy b event fn hs (ok true) g t = t
added-IsTidy b event fn hs (ok false) g t = λ h. alive-set b.lists event hs fn g (t h)

bind-IsTidy :
    (room : Bool) (b : EventBus) (event : ℕ) (fn : Fn)
    → IsTidy b
    → IsTidy (after_bind b (Event.bind room b event fn))
unfolding Event.bind
bind-IsTidy room b event fn t = elim (Option-cases (get_elem? b.lists event)) [
  | inl e ↦ rw (e, after_bind) t
  | inr (hs, e) ↦ rw (e, after_bind) (added-IsTidy b event fn hs (is_bound room fn hs) e t)
]

-- A handler that is marked dead asks for a compaction.
marked-IsTidy :
    (b : EventBus) (event : ℕ) (r : Result BusError (Option (List Handler)))
    → IsTidy b
    → IsTidy (
        after_bind b (do
          found ← r
          elim found [
            | none ↦ ok (b, false)
            | some hs' ↦ ok (
              compact_if_idle (record b { lists = set b.lists event hs'; needs_compaction = true }),
              true,
            )
          ]))
unfolding compact_if_idle
marked-IsTidy b event (err e) t = t
marked-IsTidy b event (ok none) t = t
marked-IsTidy b event (ok (some hs')) t =
    let c = record b { lists = set b.lists event hs'; needs_compaction = true } in
    if_cases IsTidy (is_empty b.cancelled) (compact c) c (λ _. compact-IsTidy c) (λ _ h. cc)

unbind-IsTidy :
    (room : Bool) (b : EventBus) (event : ℕ) (fn : Fn)
    → IsTidy b
    → IsTidy (after_bind b (unbind room b event fn))
unfolding unbind
unbind-IsTidy room b event fn t = elim (Option-cases (get_elem? b.lists event)) [
  | inl e ↦ rw (e, after_bind) t
  | inr (hs, e) ↦ rw (e, after_bind) (marked-IsTidy b event (Event.mark_dead room fn hs) t)
]

bus_step-IsTidy : (b : EventBus) (op : BusOp) → IsTidy b → IsTidy (bus_step b op)
unfolding bus_step push_frame pop_frame finish_frame Event.clear Event.create
bus_step-IsTidy b (creates name) t = create-IsTidy b name t
bus_step-IsTidy b (binds room event fn) t = bind-IsTidy room b event fn t
bus_step-IsTidy b (unbinds room event fn) t = unbind-IsTidy room b event fn t
bus_step-IsTidy b cancels t = cancel-IsTidy b t
bus_step-IsTidy b starts_frame t = t
bus_step-IsTidy b clears t = λ _. alive-cleared b.lists
bus_step-IsTidy b (pops i) t = t
bus_step-IsTidy b (finishes i) t =
    if_cases IsTidy (is_empty (pop_frame b i).cancelled && b.needs_compaction) _ _
      (λ _. compact-IsTidy (pop_frame b i)) (λ _. t)

run_bus-IsTidy : (b : EventBus) (ops : List BusOp) → IsTidy b → IsTidy (run_bus b ops)
run_bus-IsTidy b [] t = t
run_bus-IsTidy b (op ∷ ops) t = run_bus-IsTidy (bus_step b op) ops (bus_step-IsTidy b op t)

-- A compaction is pending, or no handler is dead.
abbrev pub is_tidy : EventBus → Bool
is_tidy b = b.needs_compaction || lists_alive b.lists

is_tidy_of_IsTidy : (b : EventBus) → IsTidy b → is_tidy b ≡ true
is_tidy_of_IsTidy b t = elim (Bool-cases b.needs_compaction) [
  | inl pending ↦ ground (arith, pending)
  | inr idle ↦ ground (arith, idle, t idle)
]

new-IsTidy : IsTidy Event.new
unfolding Event.new
new-IsTidy = λ _. refl

-- After any history of calls on a new bus, with or without errors, a compaction is pending or no
-- handler is dead.
pub run_bus-is_tidy : (ops : List BusOp) → is_tidy (run_bus Event.new ops) ≡ true
run_bus-is_tidy ops =
    is_tidy_of_IsTidy (run_bus Event.new ops) (run_bus-IsTidy Event.new ops new-IsTidy)
