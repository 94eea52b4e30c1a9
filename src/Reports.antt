-- ===== src/Reports.antt =====
-- src/plugin/callbacks.cpp: the callbacks that the server calls for its players and entities, and
-- what each reports to scripts. The calls themselves are in Callbacks.antt.
-- A C string is its bytes, or none for a null pointer, which sol pushes as nil.
use vcmp_lua.Entity.{bind, checkpoint, pickup, object, vehicle, player, EntityKind}
use vcmp_lua.Event.{
  player_message, player_finish_typing, player_begin_typing, player_away_change,
  entity_streaming_change, player_crouch_change, player_fire_change, player_key_up,
  player_game_keys_change, player_action_change, player_key_down, checkpoint_exit,
  player_state_change, player_name_change, checkpoint_enter, player_exit_vehicle,
  player_enter_vehicle, object_touch, player_request_enter_vehicle, player_spawn,
  player_request_spawn, player_request_class, player_spectate, player_module_list, player_pm,
  player_connection, player_crash_report, Event,
}
use vcmp_lua.Lua.{text_table, bytes, boolean, integer, nil, Value}
use vcmp_lua.Prelude.{
  ◌-◌, negsuc, ◌&&◌, none, ◌==◌, ◌^◌, ◌||◌, eq_ℤ, ltb, not, some, ◌∷◌, [], if◌then◌else◌, map, pos,
  List, Option, ℤ, ℕ,
}

-- A callback of the server with its arguments; an enumeration or an int32 is an integer, a flag a
-- number.
pub data Callback : Type 0 where
  incoming_connection : List ℕ → ℕ → Option (List ℕ) → Option (List ℕ) → Callback
  module_list : ℤ → Option (List ℕ) → Callback
  request_class : ℤ → ℤ → Callback
  request_spawn spawn : ℤ → Callback
  death : ℤ → ℤ → ℤ → ℤ → Callback
  update : ℤ → ℤ → Callback
  request_enter_vehicle enter_vehicle : ℤ → ℤ → ℤ → Callback
  exit_vehicle : ℤ → ℤ → Callback
  name_change : ℤ → Option (List ℕ) → Option (List ℕ) → Callback
  state_change action_change game_keys_change : ℤ → ℤ → ℤ → Callback
  on_fire_change crouch_change away_change : ℤ → ℕ → Callback
  begin_typing end_typing : ℤ → Callback
  message command crash_report : ℤ → Option (List ℕ) → Callback
  private_message : ℤ → ℤ → Option (List ℕ) → Callback
  spectate : ℤ → ℤ → Callback
  vehicle_update : ℤ → ℤ → Callback
  vehicle_explode vehicle_respawn : ℤ → Callback
  object_shot : ℤ → ℤ → ℤ → Callback
  object_touched pickup_pick_attempt pickup_picked : ℤ → ℤ → Callback
  pickup_respawn : ℤ → Callback
  checkpoint_entered checkpoint_exited : ℤ → ℤ → Callback
  key_bind_down key_bind_up : ℤ → ℤ → Callback
  -- The bytes, none of them for a null pointer, and the size.
  client_script_data : ℤ → List ℕ → ℕ → Callback
  plugin_command : ℕ → Option (List ℕ) → Callback
  -- The count and the entries, none of them for a null array.
  performance_report : ℕ → List (Option (List ℕ) × ℕ) → Callback
  streaming_change : ℤ → ℤ → ℤ → ℕ → Callback

-- An argument of an event before the entities among them are seen.
pub data Reported : Type 0 where
  value : Value → Reported
  sees : EntityKind → ℤ → Reported

abbrev pub c_string : Option (List ℕ) → Reported
c_string none = value nil
c_string (some s) = value (bytes s)

abbrev pub int : ℤ → Reported
int n = value (integer n)

abbrev pub flag : ℕ → Reported
flag n = value (boolean (not (n == 0)))

abbrev pub player_id : ℤ → Reported
player_id id = sees player id

abbrev pub drowned : ℤ
drowned = pos 43

abbrev pub fell : ℤ
fell = pos 44

abbrev pub crashed : ℤ
crashed = pos 39

-- vcmpBodyPartInVehicle.
abbrev pub in_vehicle : ℤ
in_vehicle = pos 7

-- The reason that `onPlayerWasted` gets.
unfoldable pub wasted_reason : ℤ → ℤ → ℤ
wasted_reason reason body_part =
    if eq_ℤ reason (pos 43) || eq_ℤ reason (pos 50)
    then drowned
    else if eq_ℤ reason (pos 39) && eq_ℤ body_part in_vehicle
    then crashed
    else if eq_ℤ reason (pos 39) || eq_ℤ reason (pos 40) || eq_ℤ reason (pos 44)
    then fell
    else reason

-- The command, the arguments and the text of `onPlayerCommand`.
abbrev pub command_args : List (List ℕ) × List ℕ → List Reported
command_args ([], rest) = value nil ∷ value nil ∷ value (bytes []) ∷ []
command_args (word ∷ [], rest) = value (bytes word) ∷ value nil ∷ value (bytes rest) ∷ []
command_args (word ∷ arg ∷ args, rest) =
    value (bytes word) ∷ value (text_table (arg ∷ args)) ∷ value (bytes rest) ∷ []

abbrev pub or_empty : Option (List ℕ) → List ℕ
or_empty none = []
or_empty (some s) = s

-- The event and the arguments of the callbacks that only report: those of the connection and the
-- player.
reported_player : Callback → Option (Event × List Reported)
reported_player (incoming_connection name size password ip) =
    some (
      player_connection,
      value (bytes name) ∷ int (pos size) ∷ c_string password ∷ c_string ip ∷ [],
    )
reported_player (module_list id list) = some (player_module_list, player_id id ∷ c_string list ∷ [])
reported_player (request_class id offset) =
    some (player_request_class, player_id id ∷ int offset ∷ [])
reported_player (request_spawn id) = some (player_request_spawn, player_id id ∷ [])
reported_player (spawn id) = some (player_spawn, player_id id ∷ [])
reported_player (request_enter_vehicle id v slot) =
    some (player_request_enter_vehicle, player_id id ∷ sees vehicle v ∷ int slot ∷ [])
reported_player (enter_vehicle id v slot) =
    some (player_enter_vehicle, player_id id ∷ sees vehicle v ∷ int slot ∷ [])
reported_player (exit_vehicle id v) = some (player_exit_vehicle, player_id id ∷ sees vehicle v ∷ [])
reported_player (name_change id old next) =
    some (player_name_change, player_id id ∷ c_string old ∷ c_string next ∷ [])
reported_player (state_change id old next) =
    some (player_state_change, player_id id ∷ int old ∷ int next ∷ [])
reported_player (action_change id old next) =
    some (player_action_change, player_id id ∷ int old ∷ int next ∷ [])
reported_player (game_keys_change id old next) =
    some (player_game_keys_change, player_id id ∷ int old ∷ int next ∷ [])
reported_player (on_fire_change id on_fire) =
    some (player_fire_change, player_id id ∷ flag on_fire ∷ [])
reported_player (crouch_change id crouching) =
    some (player_crouch_change, player_id id ∷ flag crouching ∷ [])
reported_player (away_change id away) = some (player_away_change, player_id id ∷ flag away ∷ [])
reported_player (begin_typing id) = some (player_begin_typing, player_id id ∷ [])
reported_player (end_typing id) = some (player_finish_typing, player_id id ∷ [])
reported_player (message id text) = some (player_message, player_id id ∷ c_string text ∷ [])
reported_player other = none

-- Those of private messages, spectating, crash reports, entities, binds and commands.
reported_other : Callback → Option (Event × List Reported)
reported_other (crash_report id report) =
    some (player_crash_report, player_id id ∷ c_string report ∷ [])
reported_other (private_message id target text) =
    some (player_pm, player_id id ∷ player_id target ∷ c_string text ∷ [])
reported_other (spectate id target) = some (player_spectate, player_id id ∷ player_id target ∷ [])
reported_other (vehicle_explode v) = some (Event.vehicle_explode, sees vehicle v ∷ [])
reported_other (vehicle_respawn v) = some (Event.vehicle_respawn, sees vehicle v ∷ [])
reported_other (object_shot o id weapon) =
    some (Event.object_shot, sees object o ∷ player_id id ∷ int weapon ∷ [])
reported_other (object_touched o id) = some (object_touch, sees object o ∷ player_id id ∷ [])
reported_other (pickup_pick_attempt k id) =
    some (Event.pickup_pick_attempt, sees pickup k ∷ player_id id ∷ [])
reported_other (pickup_picked k id) = some (Event.pickup_picked, sees pickup k ∷ player_id id ∷ [])
reported_other (pickup_respawn k) = some (Event.pickup_respawn, sees pickup k ∷ [])
reported_other (checkpoint_entered c id) =
    some (checkpoint_enter, sees checkpoint c ∷ player_id id ∷ [])
reported_other (checkpoint_exited c id) =
    some (checkpoint_exit, sees checkpoint c ∷ player_id id ∷ [])
reported_other (key_bind_down id b) = some (player_key_down, player_id id ∷ sees bind b ∷ [])
reported_other (key_bind_up id b) = some (player_key_up, player_id id ∷ sees bind b ∷ [])
reported_other (plugin_command code text) =
    some (Event.plugin_command, int (pos code) ∷ c_string text ∷ [])
reported_other (streaming_change id e type deleted) =
    some (entity_streaming_change, player_id id ∷ int type ∷ int e ∷ flag deleted ∷ [])
reported_other other = none

-- `none` for the callbacks that do more than report.
abbrev pub or_other :
    Option (Event × List Reported) → Option (Event × List Reported) → Option (Event × List Reported)
or_other none r = r
or_other (some r) s = some r

unfoldable pub reported : Callback → Option (Event × List Reported)
unfolding reported_player reported_other
reported c = or_other (reported_player c) (reported_other c)

-- The arrays of `onServerPerformanceReport`: a null description is an empty text, and a duration
-- is read as a signed 64-bit integer.
abbrev pub descriptions : List (Option (List ℕ) × ℕ) → List (List ℕ)
descriptions entries = map (λ e. or_empty e.0) entries

abbrev pub to_signed : ℕ → ℤ
to_signed t = if ltb t (2 ^ 63) then pos t else negsuc (2 ^ 64 - t - 1)

abbrev pub durations : List (Option (List ℕ) × ℕ) → List ℤ
durations entries = map (λ e. to_signed e.1) entries
