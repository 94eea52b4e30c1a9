-- ===== src/Dispatch.antt =====
-- src/core/event_bus.hpp, `Dispatch` and `Emit`: the calls of an event's handlers, and
-- src/core/entity_pool.cpp, `PushEntity`: the entities among their arguments.
pub mod Evolution
pub mod Recording
pub mod Order
use vcmp_lua.Entity.Pools.{with_pool}
use vcmp_lua.Entity.{slot, is_valid, EntityPool, EntityRef, EntityKind, Object}
use vcmp_lua.Prelude.{
  ◌&&◌, true, ◌∷◌, zero, length, none, pos, ◌+◌, false, ltb_ℤ, not, suc, Bool, [], get_or,
  if◌then◌else◌, some, List, ℕ, Option,
}
use vcmp_lua.Lua.{reference, nil, Value}
use vcmp_lua.Event.{
  push_frame, finish_frame, has_handlers, pop_frame, event_index, frame_cancelled, Event, Handler,
  EventBus,
}
use vcmp_lua.World.{enter, call, threw, leave, returned, Ended, Push, Pcall, Machine, World}
use vcmp_lua.Entity

-- `lists_[event]`.
abbrev pub handlers_of : EventBus → ℕ → List Handler
handlers_of b event = get_or b.lists event []

-- `lists_[event][i]`, read below the size of the list.
abbrev pub handler_at : EventBus → ℕ → ℕ → Handler
handler_at b event i = get_or (handlers_of b event) i (record { fn = 0; alive = false })

-- A C++ value that `Emit` pushes.
pub data Arg : Type 0 where
  plain : Value → Arg
  entity : EntityKind → EntityRef → Arg

abbrev or_nil : Option Object → Value
or_nil none = nil
or_nil (some o) = reference o

abbrev is_none : Option Object → Bool
is_none none = true
is_none (some o) = false

module _ {H : Type 0} (m : Machine H) where
  -- Whether `Push` has to make the handle.
  makes_handle : EntityPool → EntityRef → Bool
  makes_handle pool r =
      not pool.closed && is_valid pool r.id r.generation && is_none (slot pool r.id).handle

  -- `Push` of the pool in the world, which makes an object if it needs one.
  push_handle : EntityKind → EntityRef → World H → Value × World H
  unfolding makes_handle
  push_handle k r w =
      let (fresh, host') = m.new_object w.host in
      let pool = w.entities.get k in
      let (pool', o) = Entity.push pool r.id r.generation fresh in
      (
        or_nil o,
        record w {
          entities = with_pool w.entities k pool';
          host = if makes_handle pool r then host' else w.host;
        },
      )

  unfoldable pub push_entity : EntityKind → EntityRef → World H → Value × World H
  unfolding push_handle
  push_entity k r w = if ltb_ℤ r.id (pos 0) then (nil, w) else push_handle k r w

  -- The arguments of `Emit`, pushed in order.
  unfoldable pub push_args : List Arg → World H → List Value × World H
  unfolding push_entity
  push_args [] w = ([], w)
  push_args (plain v ∷ args) w = let (vs, w') = push_args args w in (v ∷ vs, w')
  push_args (entity k r ∷ args) w =
      let (v, w') = push_entity k r w in let (vs, w'') = push_args args w' in (v ∷ vs, w'')

module _ {H : Type 0} (m : Machine H) (pcall : Pcall H) where
  -- After a handler call: an exception ends the loop, and so does a cancelled frame.
  after_handler :
      ℕ → (World H → Ended (Unit {0}) × World H) → Ended Bool × World H → Ended (Unit {0}) × World H
  after_handler frame next (threw, w) = (threw, w)
  after_handler frame next (returned _, w) =
      if frame_cancelled w.events frame then (returned tt, w) else next w

  -- `n` rounds of the loop over the handlers, from `i`; `frame` is the index of the DispatchFrame.
  unfoldable pub dispatch_loop : ℕ → ℕ → ℕ → ℕ → Push H → World H → Ended (Unit {0}) × World H
  unfolding after_handler
  dispatch_loop zero event i frame push w = (returned tt, w)
  dispatch_loop (suc n) event i frame push w =
      let next = dispatch_loop n event (i + 1) frame push in
      let h = handler_at w.events event i in
      if not h.alive then next w else after_handler frame next (call m pcall h.fn push w)

  -- `frame.Finish()`, or what the destructors do after an exception.
  finish : ℕ → Ended (Unit {0}) × World H → Ended Bool × World H
  finish frame (threw, w) = (threw, leave (record w { events = pop_frame w.events frame }))
  finish frame (returned _, w) =
      let (b, cancelled) = finish_frame w.events frame in
      (returned cancelled, leave (record w { events = b }))

  unfoldable pub dispatch : ℕ → Push H → World H → Ended Bool × World H
  unfolding dispatch_loop finish
  dispatch event push w =
      if not (has_handlers w.events event)
      then (returned false, w)
      else let frame = length w.events.cancelled in
        let started = record (enter w) { events = push_frame w.events } in
        finish frame
          (dispatch_loop (length (handlers_of w.events event)) event 0 frame push started)

  unfoldable pub emit : Event → List Arg → World H → Ended Bool × World H
  unfolding dispatch
  emit e args w =
      dispatch (event_index e) (λ w'. let (vs, w'') = push_args m args w' in (some vs, w'')) w
