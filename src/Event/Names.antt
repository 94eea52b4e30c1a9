-- ===== src/Event/Names.antt =====
-- The built-in events of a new bus and their names.
use vcmp_lua.Event.{Event, event_index, event_name}
use vcmp_lua.Prelude.{refl, some, ◌≡◌}
use vcmp_lua.Event
use vcmp_lua.Event.{
  server_init, server_shutdown, server_frame, plugin_command, client_data, player_module_list,
  player_connection, player_connect, player_disconnect, player_request_class, player_request_spawn,
  player_spawn, player_wasted, player_kill, player_update, player_request_enter_vehicle,
  player_enter_vehicle, player_exit_vehicle, player_name_change, player_state_change,
  player_action_change, player_fire_change, player_crouch_change, player_game_keys_change,
  player_begin_typing, player_finish_typing, player_away_change, player_message, player_command,
  player_pm, player_key_down, player_key_up, player_spectate, player_crash_report, vehicle_update,
  vehicle_explode, vehicle_respawn, object_shot, object_touch, pickup_pick_attempt, pickup_picked,
  pickup_respawn, checkpoint_enter, checkpoint_exit, entity_pool_change, server_performance_report,
  entity_streaming_change,
}

-- Every built-in event is found in a new bus under its name at its index.
pub find-event_name : (e : Event) → Event.find Event.new (event_name e) ≡ some (event_index e)
unfolding Event.find Event.new event_name event_index
find-event_name server_init = refl
find-event_name server_shutdown = refl
find-event_name server_frame = refl
find-event_name plugin_command = refl
find-event_name client_data = refl
find-event_name player_module_list = refl
find-event_name player_connection = refl
find-event_name player_connect = refl
find-event_name player_disconnect = refl
find-event_name player_request_class = refl
find-event_name player_request_spawn = refl
find-event_name player_spawn = refl
find-event_name player_wasted = refl
find-event_name player_kill = refl
find-event_name player_update = refl
find-event_name player_request_enter_vehicle = refl
find-event_name player_enter_vehicle = refl
find-event_name player_exit_vehicle = refl
find-event_name player_name_change = refl
find-event_name player_state_change = refl
find-event_name player_action_change = refl
find-event_name player_fire_change = refl
find-event_name player_crouch_change = refl
find-event_name player_game_keys_change = refl
find-event_name player_begin_typing = refl
find-event_name player_finish_typing = refl
find-event_name player_away_change = refl
find-event_name player_message = refl
find-event_name player_command = refl
find-event_name player_pm = refl
find-event_name player_key_down = refl
find-event_name player_key_up = refl
find-event_name player_spectate = refl
find-event_name player_crash_report = refl
find-event_name vehicle_update = refl
find-event_name vehicle_explode = refl
find-event_name vehicle_respawn = refl
find-event_name object_shot = refl
find-event_name object_touch = refl
find-event_name pickup_pick_attempt = refl
find-event_name pickup_picked = refl
find-event_name pickup_respawn = refl
find-event_name checkpoint_enter = refl
find-event_name checkpoint_exit = refl
find-event_name entity_pool_change = refl
find-event_name server_performance_report = refl
find-event_name entity_streaming_change = refl
