-- ===== src/Event.antt =====
-- src/core/event_bus.hpp and event_bus.cpp, class EventBus: the handlers of each event. The calls
-- of handlers are in Dispatch.antt.
-- A deque is a list, oldest first; the hash map of names is an association list. A Lua function is
-- a number, equal to another when `lua_rawequal` says so; `room` says whether `lua_checkstack`
-- finds room for the two values that `Same` pushes.
pub mod Handlers
pub mod Binding
pub mod Growth
pub mod Frames
pub mod Names
pub mod Tidy
use vcmp_lua.Prelude.{
  ◌==◌, guard, set, ◌>>=◌, ◌>>◌, length, not, err, false, get_elem?, get_or, none, ok, some, take,
  true, ◌&&◌, ◌∷◌, Bool, List, Option, Result, String, [], if◌then◌else◌, map, ℕ, ◌++◌,
}
use text.Mathlib.Text.{◌==◌ as str_eq}
use vcmp_lua.Lua.{Fn}

-- The built-in events, in the order of VCMP_LUA_EVENTS.
pub data Event : Type 0 where
  server_init server_shutdown server_frame plugin_command : Event
  client_data player_module_list player_connection player_connect : Event
  player_disconnect player_request_class player_request_spawn player_spawn : Event
  player_wasted player_kill player_update player_request_enter_vehicle : Event
  player_enter_vehicle player_exit_vehicle player_name_change player_state_change : Event
  player_action_change player_fire_change player_crouch_change player_game_keys_change : Event
  player_begin_typing player_finish_typing player_away_change player_message : Event
  player_command player_pm player_key_down player_key_up : Event
  player_spectate player_crash_report vehicle_update vehicle_explode : Event
  vehicle_respawn object_shot object_touch pickup_pick_attempt : Event
  pickup_picked pickup_respawn checkpoint_enter checkpoint_exit : Event
  entity_pool_change server_performance_report entity_streaming_change : Event

-- kNames.
abbrev pub event_names : List String
event_names =
    "onServerInit" ∷ "onServerShutdown" ∷ "onServerFrame" ∷ "onPluginCommand" ∷ "onClientData"
    ∷ "onPlayerModuleList" ∷ "onPlayerConnection" ∷ "onPlayerConnect" ∷ "onPlayerDisconnect"
    ∷ "onPlayerRequestClass" ∷ "onPlayerRequestSpawn" ∷ "onPlayerSpawn" ∷ "onPlayerWasted"
    ∷ "onPlayerKill" ∷ "onPlayerUpdate" ∷ "onPlayerRequestEnterVehicle" ∷ "onPlayerEnterVehicle"
    ∷ "onPlayerExitVehicle" ∷ "onPlayerNameChange" ∷ "onPlayerStateChange" ∷ "onPlayerActionChange"
    ∷ "onPlayerFireChange" ∷ "onPlayerCrouchChange" ∷ "onPlayerGameKeysChange"
    ∷ "onPlayerBeginTyping" ∷ "onPlayerFinishTyping" ∷ "onPlayerAwayChange" ∷ "onPlayerMessage"
    ∷ "onPlayerCommand" ∷ "onPlayerPM" ∷ "onPlayerKeyDown" ∷ "onPlayerKeyUp" ∷ "onPlayerSpectate"
    ∷ "onPlayerCrashReport" ∷ "onVehicleUpdate" ∷ "onVehicleExplode" ∷ "onVehicleRespawn"
    ∷ "onObjectShot" ∷ "onObjectTouch" ∷ "onPickupPickAttempt" ∷ "onPickupPicked"
    ∷ "onPickupRespawn" ∷ "onCheckpointEnter" ∷ "onCheckpointExit" ∷ "onEntityPoolChange"
    ∷ "onServerPerformanceReport" ∷ "onEntityStreamingChange" ∷ []

-- `Index`, the value of the enumerator.
unfoldable pub event_index : Event → ℕ
event_index server_init = 0
event_index server_shutdown = 1
event_index server_frame = 2
event_index plugin_command = 3
event_index client_data = 4
event_index player_module_list = 5
event_index player_connection = 6
event_index player_connect = 7
event_index player_disconnect = 8
event_index player_request_class = 9
event_index player_request_spawn = 10
event_index player_spawn = 11
event_index player_wasted = 12
event_index player_kill = 13
event_index player_update = 14
event_index player_request_enter_vehicle = 15
event_index player_enter_vehicle = 16
event_index player_exit_vehicle = 17
event_index player_name_change = 18
event_index player_state_change = 19
event_index player_action_change = 20
event_index player_fire_change = 21
event_index player_crouch_change = 22
event_index player_game_keys_change = 23
event_index player_begin_typing = 24
event_index player_finish_typing = 25
event_index player_away_change = 26
event_index player_message = 27
event_index player_command = 28
event_index player_pm = 29
event_index player_key_down = 30
event_index player_key_up = 31
event_index player_spectate = 32
event_index player_crash_report = 33
event_index vehicle_update = 34
event_index vehicle_explode = 35
event_index vehicle_respawn = 36
event_index object_shot = 37
event_index object_touch = 38
event_index pickup_pick_attempt = 39
event_index pickup_picked = 40
event_index pickup_respawn = 41
event_index checkpoint_enter = 42
event_index checkpoint_exit = 43
event_index entity_pool_change = 44
event_index server_performance_report = 45
event_index entity_streaming_change = 46

-- `Name`.
unfoldable pub event_name : Event → String
unfolding event_index
event_name e = get_or event_names (event_index e) ""

pub record Handler : Type 0 where
  pub fn : Fn
  pub alive : Bool

pub record EventBus : Type 0 where
  pub lists : List (List Handler)
  pub names : List String
  pub index_by_name : List (String × ℕ)
  -- One flag for each active dispatch, innermost last.
  pub cancelled : List Bool
  pub needs_compaction : Bool

pub data BusError : Type 0 where
  stack_overflow out_of_range logic_error : BusError

unfoldable pub lookup_name : String → List (String × ℕ) → Option ℕ
lookup_name name [] = none
lookup_name name ((n, i) ∷ rest) = if str_eq n name then some i else lookup_name name rest

unfoldable pub find : EventBus → String → Option ℕ
unfolding lookup_name
find b name = lookup_name name b.index_by_name

unfoldable pub create : EventBus → String → EventBus × Bool
create b name = elim (find b name) [
  | some _ ↦ (b, false)
  | none ↦ (
    record b {
      lists = b.lists ++ [] ∷ [];
      names = b.names ++ name ∷ [];
      index_by_name = b.index_by_name ++ (name, length b.lists) ∷ [];
    },
    true,
  )
]

abbrev pub no_events : EventBus
no_events = record {
  lists = [];
  names = [];
  index_by_name = [];
  cancelled = [];
  needs_compaction = false;
}

unfoldable pub create_all : List String → EventBus → EventBus
create_all [] b = b
create_all (name ∷ rest) b = create_all rest (create b name).0

-- The constructor.
unfoldable pub new : EventBus
unfolding create_all create find
new = create_all event_names no_events

-- `Same`.
unfoldable pub same : Bool → Fn → Fn → Result BusError Bool
same room a b = do guard room stack_overflow; ok (a == b)

-- The search of `Bind`: whether a live handler of the list has the function.
unfoldable pub is_bound : Bool → Fn → List Handler → Result BusError Bool
unfolding same
is_bound room fn [] = ok false
is_bound room fn (h ∷ hs) =
    let rest = is_bound room fn hs in
    if h.alive then (do found ← same room h.fn fn; if found then ok true else rest) else rest

-- `list.push_back(Handler{fn, true})`.
abbrev pub add_handler : EventBus → ℕ → List Handler → Fn → EventBus
add_handler b event hs fn = record b {
  lists = set b.lists event (hs ++ record { fn = fn; alive = true } ∷ []);
}

unfoldable pub bind : Bool → EventBus → ℕ → Fn → Result BusError (EventBus × Bool)
unfolding is_bound
bind room b event fn = elim (get_elem? b.lists event) [
  | none ↦ err out_of_range
  | some hs ↦ do
    found ← is_bound room fn hs
    if found then ok (b, false) else ok (add_handler b event hs fn, true)
]

abbrev prepend : Handler → Option (List Handler) → Option (List Handler)
prepend h none = none
prepend h (some hs) = some (h ∷ hs)

-- The search of `Unbind`: the list with the first live handler of the function marked dead.
unfoldable pub mark_dead : Bool → Fn → List Handler → Result BusError (Option (List Handler))
unfolding same
mark_dead room fn [] = ok none
mark_dead room fn (h ∷ hs) =
    let rest = (do r ← mark_dead room fn hs; ok (prepend h r)) in
    if h.alive
    then (do
      found ← same room h.fn fn
      if found then ok (some (record h { alive = false } ∷ hs)) else rest)
    else rest

-- `std::erase_if(list, !alive)`.
unfoldable pub live_handlers : List Handler → List Handler
live_handlers [] = []
live_handlers (h ∷ hs) = let rest = live_handlers hs in if h.alive then h ∷ rest else rest

unfoldable pub compact : EventBus → EventBus
unfolding live_handlers
compact b = record b { lists = map live_handlers b.lists; needs_compaction = false }

unfoldable pub is_empty {ℓ} : {A : Type ℓ} → List A → Bool
is_empty [] = true
is_empty (x ∷ xs) = false

-- `if (cancelled_.empty()) Compact();`
unfoldable pub compact_if_idle : EventBus → EventBus
unfolding is_empty compact
compact_if_idle b = if is_empty b.cancelled then compact b else b

unfoldable pub unbind : Bool → EventBus → ℕ → Fn → Result BusError (EventBus × Bool)
unfolding mark_dead compact_if_idle
unbind room b event fn = elim (get_elem? b.lists event) [
  | none ↦ err out_of_range
  | some hs ↦ do
    found ← mark_dead room fn hs
    elim found [
      | none ↦ ok (b, false)
      | some hs' ↦ ok (
        compact_if_idle (record b { lists = set b.lists event hs'; needs_compaction = true }),
        true,
      )
    ]
]

-- `cancelled_.back() = true`.
unfoldable pub set_last : List Bool → List Bool
set_last [] = []
set_last (c ∷ []) = true ∷ []
set_last (c ∷ d ∷ cs) = c ∷ set_last (d ∷ cs)

unfoldable pub cancel : EventBus → Result BusError EventBus
unfolding set_last is_empty
cancel b =
    if is_empty b.cancelled
    then err logic_error
    else ok (record b { cancelled = set_last b.cancelled })

unfoldable pub has_handlers : EventBus → ℕ → Bool
unfolding is_empty
has_handlers b event = elim (get_elem? b.lists event) [ none ↦ false | some hs ↦ not (is_empty hs) ]

unfoldable pub clear : EventBus → EventBus
clear b = record b { lists = map (λ hs. []) b.lists; needs_compaction = false }

-- DispatchFrame's constructor; its index is the number of frames before.
unfoldable pub push_frame : EventBus → EventBus
push_frame b = record b { cancelled = b.cancelled ++ false ∷ [] }

-- `cancelled()` of the frame with the index.
unfoldable pub frame_cancelled : EventBus → ℕ → Bool
frame_cancelled b index = get_or b.cancelled index false

-- The destructor of a frame that did not finish: `cancelled_.resize(index_)`.
unfoldable pub pop_frame : EventBus → ℕ → EventBus
pop_frame b index = record b { cancelled = take index b.cancelled }

-- `Finish`.
unfoldable pub finish_frame : EventBus → ℕ → EventBus × Bool
unfolding frame_cancelled pop_frame compact is_empty
finish_frame b index =
    let popped = pop_frame b index in
    (
      if is_empty popped.cancelled && popped.needs_compaction then compact popped else popped,
      frame_cancelled b index,
    )
