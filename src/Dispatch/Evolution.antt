-- ===== src/Dispatch/Evolution.antt =====
-- A dispatch leaves the flags of every enclosing dispatch exactly as they were, and pops its own
-- on every path; handlers bound or unbound meanwhile move none that the loop goes over.
use vcmp_lua.Entity.{EntityRef, EntityKind}
use vcmp_lua.Entity.Pools.{EntityPools}
use vcmp_lua.Event.Frames.{
  cancelled-finish_frame, finish_frame-BusKept, cancelled-pop_frame, pop_frame-BusKept,
}
use vcmp_lua.Event.{event_index, Event, has_handlers, finish_frame, pop_frame, push_frame}
use vcmp_lua.Event.Growth.{BusKept-refl}
use vcmp_lua.Prelude.{pos, ltb_ℤ, refl, length, [], Bool, List, ◌∷◌, if_cases, ◌+◌, ◌≡◌, zero, suc}
use vcmp_lua.Dispatch.{
  entity, plain, Arg, push_handle, emit, push_args, push_entity, dispatch, frame_cancelled, not,
  returned, ℕ, after_handler, finish, handler_at, dispatch_loop,
}
use vcmp_lua.World.Evolution.{
  Evolves-leave, Evolves-call, Evolves-trans, EvolvesTo, Evolves-refl, Evolves, PushKeeps,
  PcallKeeps,
}
use vcmp_lua.World.{call, enter, Ended, Push, threw, Pcall, Machine, World}

module _ {H : Type 0} (m : Machine H) (pcall : Pcall H) (k : PcallKeeps pcall) where
  Evolves-after_handler :
      (frame : ℕ) (next : World H → Ended (Unit {0}) × World H) (w : World H)
      (r : Ended Bool × World H)
      → ((v : World H) → EvolvesTo v (next v))
      → EvolvesTo w r
      → EvolvesTo w (after_handler m pcall frame next r)
  unfolding after_handler
  Evolves-after_handler frame next w (threw, v) n e = e
  Evolves-after_handler frame next w (returned _, v) n e =
      if_cases (EvolvesTo w) (frame_cancelled v.events frame) _ _ (λ _. e)
        λ _. Evolves-trans w v (next v).1 e (n v)

  Evolves-loop :
      (n event i frame : ℕ) (push : Push H) (w : World H)
      → PushKeeps push
      → EvolvesTo w (dispatch_loop m pcall n event i frame push w)
  unfolding dispatch_loop
  Evolves-loop zero event i frame push w p = Evolves-refl w
  Evolves-loop (suc n) event i frame push w p =
      let next = dispatch_loop m pcall n event (i + 1) frame push in
      let h = handler_at w.events event i in
      let after : (v : World H) → EvolvesTo v (next v) =
        λ v. Evolves-loop n event (i + 1) frame push v p in
      if_cases (EvolvesTo w) (not h.alive) (next w)
        (after_handler m pcall frame next (call m pcall h.fn push w)) (λ _. after w)
        λ _.
          Evolves-after_handler frame next w (call m pcall h.fn push w) after
            (Evolves-call m pcall k h.fn push w p)

  -- What holds when the frame is gone: the flags are those from before the dispatch.
  abbrev pub Popped : {A : Type 0} → World H → A × World H → Type 0
  Popped w r = Evolves w r.1 × (r.1.events.cancelled ≡ w.events.cancelled)

  Popped-finish :
      (w : World H) (r : Ended (Unit {0}) × World H)
      → EvolvesTo (record (enter w) { events = push_frame w.events }) r
      → Popped w (finish m pcall (length w.events.cancelled) r)
  unfolding finish
  Popped-finish w (threw, v) e =
      let started = record (enter w) { events = push_frame w.events } in
      let popped = pop_frame v.events (length w.events.cancelled) in
      (
        Evolves-leave w (record v { events = popped })
            (record {
              depth = e.depth;
              dead = e.dead;
              closing = e.closing;
              has_lua = e.has_lua;
              runtime = e.runtime;
              bus = pop_frame-BusKept w.events v.events e.bus;
              timers = e.timers;
            }),
        cancelled-pop_frame w.events v.events e.bus,
      )
  Popped-finish w (returned _, v) e =
      let b = (finish_frame v.events (length w.events.cancelled)).0 in
      (
        Evolves-leave w (record v { events = b })
            (record {
              depth = e.depth;
              dead = e.dead;
              closing = e.closing;
              has_lua = e.has_lua;
              runtime = e.runtime;
              bus = finish_frame-BusKept w.events v.events e.bus;
              timers = e.timers;
            }),
        cancelled-finish_frame w.events v.events e.bus,
      )

  -- A dispatch, also one that throws, pops its own frame, leaves the flag of every enclosing
  -- dispatch as it was and restores the call depth, whenever the protected calls and the pushing
  -- of the arguments keep what is around them.
  pub Popped-dispatch :
      (event : ℕ) (push : Push H) (w : World H)
      → PushKeeps push
      → Popped w (dispatch m pcall event push w)
  unfolding dispatch
  Popped-dispatch event push w p =
      if_cases (Popped w) (not (has_handlers w.events event)) _ _ (λ _. (Evolves-refl w, refl))
        λ _. Popped-finish w _ (Evolves-loop _ event 0 _ push _ p)

module _ {H : Type 0} where
  pub with_pools-Evolves :
      (w : World H) (ps : EntityPools) (h : H) → Evolves w (record w { entities = ps; host = h })
  with_pools-Evolves w ps h = record {
    depth = refl;
    dead = refl;
    closing = refl;
    has_lua = refl;
    runtime = refl;
    bus = BusKept-refl w.events;
    timers = λ id r. r;
  }

  module _ (m : Machine H) where
    push_entity-Evolves :
        (k : EntityKind) (r : EntityRef) (w : World H) → EvolvesTo w (push_entity m k r w)
    unfolding push_entity push_handle
    push_entity-Evolves k r w =
        if_cases (EvolvesTo w) (ltb_ℤ r.id (pos 0)) _ _ (λ _. Evolves-refl w)
          λ _. with_pools-Evolves w _ _

    push_args-Evolves : (args : List Arg) (w : World H) → EvolvesTo w (push_args m args w)
    unfolding push_args
    push_args-Evolves [] w = Evolves-refl w
    push_args-Evolves (plain v ∷ args) w = push_args-Evolves args w
    push_args-Evolves (entity k r ∷ args) w =
        Evolves-trans w (push_entity m k r w).1 _ (push_entity-Evolves k r w)
          (push_args-Evolves args (push_entity m k r w).1)

    pub emit-Evolves :
        (pcall : Pcall H) (e : Event) (args : List Arg) (w : World H)
        → PcallKeeps pcall
        → EvolvesTo w (emit m pcall e args w)
    unfolding emit
    emit-Evolves pcall e args w k =
        (Popped-dispatch m pcall k (event_index e) _ w (λ v. push_args-Evolves args v)).0
