-- ===== src/Script.antt =====
-- What scripts do while C++ calls them: src/bindings/event.cpp and src/bindings/timer.cpp, the
-- functions of the classes Event and Timer, Server.reload of src/bindings/server.cpp, bindings in
-- which the server calls back, and Runtime::Require of src/runtime/runtime.cpp.
-- A Lua function is a tree of the calls that it makes on the API, each with what follows from its
-- reply; its memory is a value of `H` that every call hands on. So a script may do anything
-- between its calls, and the theorems hold for every script.
-- Calls nest as deep as Lua allows (LUAI_MAXCCALLS, 200 C calls): the depth that is left is a
-- number, and at 0 Lua raises "C stack overflow", which ends the call with an error.
pub mod Evolution
use vcmp_lua.Entity.Pools.{EntityPools}
use vcmp_lua.Plugin.{Plugin}
use vcmp_lua.Callbacks.{serve, ServerCall}
use vcmp_lua.Dispatch.{dispatch}
use vcmp_lua.Lua.{reference, nil, boolean, Fn, Value}
use vcmp_lua.Prelude.{
  [], true, ◌∷◌, zero, length, suc, err, false, if◌then◌else◌, not, ℤ, List, none, ok, some, ℕ,
  Bool, Result, String,
}
use vcmp_lua.Timer.{set_handle, TimerError, Scheduler}
use vcmp_lua.Event.{BusError, EventBus}
use vcmp_lua.World.{threw, usable, Push, Pcall, returned, Ended, Machine, World}
use vcmp_lua.Event
use vcmp_lua.Timer

pub data Request : Type 0 where
  bind_event unbind_event : String → Fn → Request
  cancel_event : Request
  create_event : String → Request
  trigger_event : String → List Value → Request
  create_timer : Fn → ℤ → ℤ → List Value → Request
  destroy_timer timer_active : ℕ → Request
  -- Server.reload.
  request_reload : Request
  -- A binding of an entity class or of Server: the callbacks of the server that arrive inside its
  -- function, in order, then what it does to the pools, and what it returns.
  call_binding : List ServerCall → (EntityPools → EntityPools) → Value → Request

-- What a call of the API returns to the script; `failed` is a Lua error, which it may catch.
pub data Reply : Type 0 where
  answer : Value → Reply
  failed : Reply

pub data Script (H : Type 0) : Type 0 where
  -- The function returns, or raises an error if the flag is false.
  ends : Bool → H → Script H
  asks : Request → H → (Reply → H → Script H) → Script H

module _ {H : Type 0} where
  abbrev with_events : World H → EventBus → World H
  with_events w b = record w { events = b }

  abbrev with_timers : World H → Scheduler → World H
  with_timers w s = record w { timers = s }

  -- A binding that returns a boolean with the new bus, or throws.
  answer_events : World H → Result BusError (EventBus × Bool) → Reply × World H
  answer_events w (ok (b, r)) = (answer (boolean r), with_events w b)
  answer_events w (err e) = (failed, w)

  answer_cancel : World H → Result BusError EventBus → Reply × World H
  answer_cancel w (ok b) = (answer nil, with_events w b)
  answer_cancel w (err e) = (failed, w)

  -- Event.trigger answers `not cancelled`.
  answer_trigger : Ended Bool × World H → Reply × World H
  answer_trigger (returned cancelled, w) = (answer (boolean (not cancelled)), w)
  answer_trigger (threw, w) = (failed, w)

  -- Server.reload.
  abbrev ask_reload : World H → Reply × World H
  ask_reload w = (answer nil, record w { reload_requested = true })

  -- Callbacks of the server, one after the other.
  serve_all : Plugin H → List ServerCall → World H → World H
  serve_all p [] w = w
  serve_all p (c ∷ cs) w = serve_all p cs (serve p c w)

  module _ (p : Plugin H) (clock : H → ℕ) where
    -- Timer.create: the handle is a new object, which the scheduler keeps too.
    answer_create : World H → Result TimerError (Scheduler × ℕ) → Reply × World H
    answer_create w (err e) = (failed, w)
    answer_create w (ok (s, id)) =
        let (o, host') = p.machine.new_object w.host in
        (answer (reference o), record w { timers = set_handle s id (reference o); host = host' })

    -- The arguments of Event.trigger, copied for each handler.
    push_values : List Value → Push H
    push_values vs w = (if p.machine.room w.host (length vs) then some vs else none, w)

    -- RequireEvent: an unknown name is an error.
    with_event : World H → String → (ℕ → Reply × World H) → Reply × World H
    with_event w name use_index = elim (Event.find w.events name) [
      | none ↦ (failed, w)
      | some index ↦ use_index index
    ]

    -- One call of the API by a script, past Runtime::Require.
    perform_usable : Pcall H → Request → World H → Reply × World H
    unfolding answer_events answer_cancel answer_trigger answer_create push_values with_event
        serve_all
    perform_usable pcall (bind_event name fn) w =
        with_event w name λ i. answer_events w (Event.bind (p.machine.room w.host 2) w.events i fn)
    perform_usable pcall (unbind_event name fn) w =
        with_event w name
          λ i. answer_events w (Event.unbind (p.machine.room w.host 2) w.events i fn)
    perform_usable pcall cancel_event w = answer_cancel w (Event.cancel w.events)
    perform_usable pcall (create_event name) w =
        let (b, r) = Event.create w.events name in (answer (boolean r), with_events w b)
    perform_usable pcall (trigger_event name vs) w =
        with_event w name λ i. answer_trigger (dispatch p.machine pcall i (push_values vs) w)
    perform_usable pcall (create_timer fn interval repeats vs) w =
        answer_create w (Timer.create w.timers (clock w.host) fn interval repeats vs)
    perform_usable pcall (destroy_timer id) w =
        let (s, r) = Timer.destroy w.timers id in (answer (boolean r), with_timers w s)
    perform_usable pcall (timer_active id) w = (answer (boolean (Timer.exists w.timers id)), w)
    perform_usable pcall request_reload w = ask_reload w
    perform_usable pcall (call_binding calls change v) w =
        let w' = serve_all (record p { pcall = pcall }) calls w in
        (answer v, record w' { entities = change w'.entities })

    unfoldable pub perform : Pcall H → Request → World H → Reply × World H
    unfolding perform_usable
    perform pcall r w = if usable w then perform_usable pcall r w else (failed, w)

    unfoldable pub exec : Pcall H → Script H → World H → Bool × World H
    exec pcall (ends fine h) w = (fine, record w { host = h })
    exec pcall (asks r h k) w =
        let (reply, w') = perform pcall r (record w { host = h }) in exec pcall (k reply w'.host) w'

    -- A protected call at a depth, of the functions that `code` gives.
    module _ (code : H → Fn → List Value → Script H) where
      unfoldable pub pcall_at : ℕ → Pcall H
      unfolding exec
      pcall_at zero fn args w = (false, w)
      pcall_at (suc depth) fn args w = exec (pcall_at depth) (code w.host fn args) w
