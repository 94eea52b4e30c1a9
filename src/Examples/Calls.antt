-- ===== src/Examples/Calls.antt =====
-- The theorems on binding, dispatch, scripts and callbacks at concrete inputs.
use vcmp_lua.Dispatch.Recording.{recording, roomy}
use vcmp_lua.Runtime.Release.{Silent, shutdown-releases, NoRefs}
use vcmp_lua.Runtime.{reload, shutdown}
use vcmp_lua.Dispatch.Order.{dispatch-order, push_all, Dispatched}
use vcmp_lua.Event.Binding.{bind_refines, unbind_refines, bound}
use vcmp_lua.Event.Handlers.{remove, contains}
use vcmp_lua.Callbacks.Safety.{serve-Evolves}
use vcmp_lua.Callbacks.{shutdown_call, serve}
use vcmp_lua.Dispatch.{dispatch}
use vcmp_lua.Script.Evolution.{pcall_at-Keeps}
use vcmp_lua.Script.{call_binding, ends, unbind_event, asks, Script, pcall_at}
use vcmp_lua.Plugin.Deferral.{on_server_shutdown-defers, after_callback-settles, is_overdue}
use vcmp_lua.Plugin.{on_server_shutdown, after_callback, Plugin}
use vcmp_lua.Entity.Pools.{new_pools}
use vcmp_lua.Dispatch.Evolution.{Popped-dispatch, Popped}
use vcmp_lua.World.Evolution.{Evolves-refl, Evolves, PcallKeeps}
use vcmp_lua.Lua.{nil, Value, Fn}
use vcmp_lua.World.{usable, enter, Machine, Pcall, World, in_lua_call}
use vcmp_lua.Timer.{advance, default_timer, due_ids, Scheduler, Timer, is_due}
use vcmp_lua.Event.{event_index, Handler, player_pm, EventBus, event_name}
use vcmp_lua.Prelude.{
  ◌++◌, arith, ◌&&◌, if◌then◌else◌, not, ok, refl, ◌+◌, ◌==◌, Bool, [], false, some, true, ◌∷◌, ◌≡◌,
  List, ℕ,
}
use vcmp_lua.Event
use vcmp_lua.Timer
use vcmp_lua.Examples.Pools.{some_server}

-- A bus with three handlers of its first event, of which the second is dead.
abbrev some_handlers : List Handler
some_handlers =
    record { fn = 1; alive = true }
    ∷ record { fn = 2; alive = false }
    ∷ record { fn = 3; alive = true }
    ∷ []

abbrev some_bus : EventBus
some_bus = record {
  lists = some_handlers ∷ [] ∷ [];
  names = "a" ∷ "b" ∷ [];
  index_by_name = ("a", 0) ∷ ("b", 1) ∷ [];
  cancelled = [];
  needs_compaction = true;
}

abbrev pub world_of : {H : Type 0} → H → World H
world_of h = record {
  invoker = record { depth = 0; dead = false };
  entities = new_pools;
  events = some_bus;
  timers = Timer.new;
  this_timer = nil;
  has_lua = true;
  closing = false;
  reload_requested = false;
  runtime = true;
  shutdown_deferred = false;
  host = h;
}

bind_refines_example :
    (b' : EventBus) × (Event.bind true some_bus 0 4 ≡ ok (b', not (contains 4 (bound some_bus 0))))
    × ((j : ℕ)
        → bound b' j ≡ (
            if (0 == j) && not (contains 4 (bound some_bus 0))
            then bound some_bus 0 ++ 4 ∷ []
            else bound some_bus j))
bind_refines_example = bind_refines some_bus 0 4 (omega arith)

unbind_refines_example :
    (b' : EventBus) × (Event.unbind true some_bus 0 3 ≡ ok (b', contains 3 (bound some_bus 0)))
    × ((j : ℕ) → bound b' j ≡ (if 0 == j then remove 3 (bound some_bus 0) else bound some_bus j))
unbind_refines_example = unbind_refines some_bus 0 3 (omega arith)

-- Handler 1 cancels.
abbrev cancels : Fn → Bool
cancels fn = fn == 1

dispatch-order_example :
    Dispatched cancels [] 0
      (world_of [])
      (dispatch roomy (recording cancels) 0 (push_all cancels []) (world_of []))
dispatch-order_example = dispatch-order cancels [] 0 (world_of []) refl

abbrev some_machine : Machine ℕ
some_machine = record { room = λ h n. true; new_object = λ h. (h, h + 1) }

-- A plugin whose protected calls do nothing.
abbrev idle_plugin : Plugin ℕ
idle_plugin = record {
  machine = some_machine;
  pcall = λ fn args w. (true, w);
  lua = record { load_file = λ h path. (some 1, h); close_lua = λ h. h };
  api = some_server;
  steps = [];
  scripts = λ h. [];
  construct = λ h. (true, h);
  new_stream = λ h content. (h, h + 1);
}

-- Every function asks to unbind function 3 from event "a" and to call a function of the server in
-- which the server shuts down, and returns.
abbrev some_code : ℕ → Fn → List Value → Script ℕ
some_code h fn args =
    asks (unbind_event "a" 3) h
      (λ r h'. asks (call_binding (shutdown_call ∷ []) (λ ps. ps) nil) h' (λ r' h''. ends true h''))

abbrev some_pcall : Pcall ℕ
some_pcall = pcall_at idle_plugin (λ h. 0) some_code 200

abbrev calling : World ℕ
calling = enter (world_of 0)

pcall_at-Keeps_example : Evolves calling (some_pcall 1 [] calling).1
unfolding in_lua_call
pcall_at-Keeps_example = pcall_at-Keeps idle_plugin (λ h. 0) some_code 200 1 [] calling refl

some_keeps : PcallKeeps some_pcall
some_keeps = pcall_at-Keeps idle_plugin (λ h. 0) some_code 200

abbrev some_plugin : Plugin ℕ
some_plugin = record idle_plugin { pcall = some_pcall }

Popped-dispatch_example :
    Popped some_machine some_pcall some_keeps
      (world_of 0)
      (dispatch some_machine some_pcall 0 (λ w. (some [], w)) (world_of 0))
Popped-dispatch_example =
    Popped-dispatch some_machine some_pcall some_keeps 0 (λ w. (some [], w)) (world_of 0)
      (λ w. Evolves-refl w)

serve-Evolves_example : Evolves calling (serve some_plugin shutdown_call calling)
unfolding in_lua_call
serve-Evolves_example = serve-Evolves some_plugin some_keeps shutdown_call calling refl

abbrev deferring : World ℕ
deferring = record (world_of 0) { shutdown_deferred = true }

after_callback-settles_example :
    is_overdue some_plugin (after_callback some_plugin deferring) ≡ false
after_callback-settles_example = after_callback-settles some_plugin deferring

on_server_shutdown-defers_example :
    ((on_server_shutdown some_plugin calling).runtime ≡ in_lua_call calling)
    × ((on_server_shutdown some_plugin calling).shutdown_deferred ≡ in_lua_call calling)
on_server_shutdown-defers_example = on_server_shutdown-defers some_plugin calling refl

shutdown-releases_example :
    (usable (shutdown some_plugin.lua some_server reload (world_of 0)) ≡ false)
    × Silent (shutdown some_plugin.lua some_server reload (world_of 0))
    × NoRefs (shutdown some_plugin.lua some_server reload (world_of 0))
unfolding in_lua_call
shutdown-releases_example =
    shutdown-releases some_plugin.lua some_server reload (world_of 0) refl refl refl
