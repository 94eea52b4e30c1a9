-- ===== src/Script/Evolution.antt =====
-- Every script, whatever it does and however deep its calls nest, leaves alone what `Evolves`
-- names.
use vcmp_lua.Callbacks.Safety.{serve-Evolves}
use vcmp_lua.Callbacks.{serve, ServerCall}
use vcmp_lua.Plugin.{Plugin}
use vcmp_lua.Dispatch.Evolution.{with_pools-Evolves, Popped-dispatch}
use vcmp_lua.Lua.{reference, Value, Fn}
use vcmp_lua.Script.{
  request_reload, call_binding, serve_all, asks, cancel_event, timer_active, destroy_timer,
  create_timer, push_values, trigger_event, create_event, unbind_event, bind_event, ends, returned,
  Reply, Request, Script, exec, perform, perform_usable, answer_cancel, answer_create,
  answer_events, answer_trigger, with_event, with_events, pcall_at,
}
use vcmp_lua.World.Evolution.{
  in_lua_call-kept, Evolves-trans, Evolves-refl, EvolvesTo, PcallKeeps, Evolves,
}
use vcmp_lua.Prelude.{
  [], ◌∷◌, true, ◌≡◌, inr, err, inl, zero, Option-cases, if_cases, ok, suc, Bool, List, Result,
  String, refl, ℕ,
}
use vcmp_lua.Timer.Running.{
  destroy-RunningKept, create-KeepsRunning, set_handle-RunningKept, KeepsRunning, RunningKept,
}
use vcmp_lua.Event.Growth.{
  create-BusKept, cancel-BusKept, unbind-BusKept, bind-BusKept, Keeps, KeepsBus, BusKept-refl,
  BusKept,
}
use vcmp_lua.Timer.{TimerError, Scheduler}
use vcmp_lua.Event.{BusError, EventBus}
use vcmp_lua.World.{in_lua_call, threw, usable, Ended, Pcall, World}
use vcmp_lua.Event

module _ {H : Type 0} where
  with_events-Evolves :
      (w : World H) (b : EventBus) → BusKept w.events b → Evolves w (with_events w b)
  with_events-Evolves w b k = record {
    depth = refl;
    dead = refl;
    closing = refl;
    has_lua = refl;
    runtime = refl;
    bus = k;
    timers = λ id h. h;
  }

  with_timers-Evolves :
      (w : World H) (s : Scheduler) (h : H)
      → RunningKept w.timers s
      → Evolves w (record w { timers = s; host = h })
  with_timers-Evolves w s h k = record {
    depth = refl;
    dead = refl;
    closing = refl;
    has_lua = refl;
    runtime = refl;
    bus = BusKept-refl w.events;
    timers = k;
  }

  reload-Evolves : (w : World H) → Evolves w (record w { reload_requested = true })
  reload-Evolves w = record {
    depth = refl;
    dead = refl;
    closing = refl;
    has_lua = refl;
    runtime = refl;
    bus = BusKept-refl w.events;
    timers = λ id h. h;
  }

  answer_events-Evolves :
      (w : World H) (r : Result BusError (EventBus × Bool))
      → Keeps w.events r
      → EvolvesTo w (answer_events w r)
  unfolding answer_events
  answer_events-Evolves w (ok (b, r)) k = with_events-Evolves w b k
  answer_events-Evolves w (err e) k = Evolves-refl w

  answer_cancel-Evolves :
      (w : World H) (r : Result BusError EventBus)
      → KeepsBus w.events r
      → EvolvesTo w (answer_cancel w r)
  unfolding answer_cancel
  answer_cancel-Evolves w (ok b) k = with_events-Evolves w b k
  answer_cancel-Evolves w (err e) k = Evolves-refl w

  answer_trigger-Evolves :
      (w : World H) (r : Ended Bool × World H) → EvolvesTo w r → EvolvesTo w (answer_trigger r)
  unfolding answer_trigger
  answer_trigger-Evolves w (returned c, v) e = e
  answer_trigger-Evolves w (threw, v) e = e

  module _ (p : Plugin H) (clock : H → ℕ) where
    answer_create-Evolves :
        (w : World H) (r : Result TimerError (Scheduler × ℕ))
        → KeepsRunning w.timers r
        → EvolvesTo w (answer_create p clock w r)
    unfolding answer_create
    answer_create-Evolves w (ok (s, id)) k =
        with_timers-Evolves w _ _
          (λ j h. set_handle-RunningKept s id (reference (p.machine.new_object w.host).0) j (k j h))
    answer_create-Evolves w (err e) k = Evolves-refl w

    with_event-Evolves :
        (w : World H) (name : String) (use_index : ℕ → Reply × World H)
        → ((i : ℕ) → EvolvesTo w (use_index i))
        → EvolvesTo w (with_event p clock w name use_index)
    unfolding with_event
    with_event-Evolves w name use_index k = elim (Option-cases (Event.find w.events name)) [
      | inl e ↦ rw (e, with_event) (Evolves-refl w)
      | inr (i, e) ↦ rw (e, with_event) (k i)
    ]

    module _ (pcall : Pcall H) (k : PcallKeeps pcall) where
      serve_all-Evolves :
          (calls : List ServerCall) (w : World H)
          → in_lua_call w ≡ true
          → Evolves w (serve_all (record p { pcall = pcall }) calls w)
      unfolding serve_all
      serve_all-Evolves [] w q = Evolves-refl w
      serve_all-Evolves (c ∷ calls) w q =
          let plugin = record p { pcall = pcall } in
          let e = serve-Evolves plugin k c w q in
          let v = serve plugin c w in
          Evolves-trans w v _ e (serve_all-Evolves calls v (in_lua_call-kept w v e q))

      perform_usable-Evolves :
          (r : Request) (w : World H)
          → in_lua_call w ≡ true
          → EvolvesTo w (perform_usable p clock pcall r w)
      unfolding perform_usable
      perform_usable-Evolves (bind_event name fn) w q =
          with_event-Evolves w name _
            λ i. answer_events-Evolves w _ (bind-BusKept (p.machine.room w.host 2) w.events i fn)
      perform_usable-Evolves (unbind_event name fn) w q =
          with_event-Evolves w name _
            λ i. answer_events-Evolves w _ (unbind-BusKept (p.machine.room w.host 2) w.events i fn)
      perform_usable-Evolves cancel_event w q = answer_cancel-Evolves w _ (cancel-BusKept w.events)
      perform_usable-Evolves (create_event name) w q =
          with_events-Evolves w _ (create-BusKept w.events name)
      perform_usable-Evolves (trigger_event name vs) w q = with_event-Evolves w name _ λ i.
          answer_trigger-Evolves w _
            (Popped-dispatch p.machine pcall k i (push_values p clock vs) w (λ v. Evolves-refl v)).0
      perform_usable-Evolves (create_timer fn interval repeats vs) w q =
          answer_create-Evolves w _
            (create-KeepsRunning w.timers (clock w.host) fn interval repeats vs)
      perform_usable-Evolves (destroy_timer id) w q =
          with_timers-Evolves w _ w.host (destroy-RunningKept w.timers id)
      perform_usable-Evolves (timer_active id) w q = Evolves-refl w
      perform_usable-Evolves request_reload w q = reload-Evolves w
      perform_usable-Evolves (call_binding calls change v) w q =
          let w' = serve_all (record p { pcall = pcall }) calls w in
          Evolves-trans w w' _ (serve_all-Evolves calls w q)
            (with_pools-Evolves w' (change w'.entities) w'.host)

      perform-Evolves :
          (r : Request) (w : World H)
          → in_lua_call w ≡ true
          → EvolvesTo w (perform p clock pcall r w)
      unfolding perform
      perform-Evolves r w q =
          if_cases (EvolvesTo w) (usable w) _ _ (λ _. perform_usable-Evolves r w q)
            (λ _. Evolves-refl w)

      exec-Evolves :
          (s : Script H) (w : World H) → in_lua_call w ≡ true → EvolvesTo w (exec p clock pcall s w)
      unfolding exec
      exec-Evolves (ends fine h) w q = with_timers-Evolves w w.timers h (λ id r. r)
      exec-Evolves (asks r h next) w q =
          let start = record w { host = h } in
          let begun = with_timers-Evolves w w.timers h (λ id x. x) in
          let inside = in_lua_call-kept w start begun q in
          let after = perform p clock pcall r start in
          let done = perform-Evolves r start inside in
          Evolves-trans w start _ begun (
            Evolves-trans start after.1 _ done (
              exec-Evolves (next after.0 after.1.host) after.1
                (in_lua_call-kept start after.1 done inside)))

    -- Inside a call into Lua, a protected call of any function of a script, which may use events
    -- and timers, ask for a reload, and call bindings inside which the server calls back, its
    -- shutdown included, at any depth of nesting, keeps the runtime and its Lua state, restores
    -- the call depth, keeps the flags of the enclosing dispatches but for the innermost and the
    -- places of the handlers they go over, and removes no timer that runs.
    pub pcall_at-Keeps :
        (code : H → Fn → List Value → Script H) (depth : ℕ) (fn : Fn) (args : List Value)
        (w : World H)
        → in_lua_call w ≡ true
        → Evolves w (pcall_at p clock code depth fn args w).1
    unfolding pcall_at
    pcall_at-Keeps code zero fn args w q = Evolves-refl w
    pcall_at-Keeps code (suc depth) fn args w q =
        exec-Evolves (pcall_at p clock code depth) (pcall_at-Keeps code depth) (code w.host fn args)
          w q
