-- ===== src/Api/Listing.antt =====
-- src/plugin/callbacks.cpp, `Init`: which callbacks it names.
use vcmp_lua.Api.Start.{
  on_server_initialise, on_server_shutdown, on_server_frame, on_player_connect,
  on_player_disconnect, on_entity_pool_change, on_incoming_connection, on_player_module_list,
  on_player_request_class, on_player_request_spawn, on_player_spawn, on_player_death,
  on_player_update, on_player_request_enter_vehicle, on_player_enter_vehicle,
  on_player_exit_vehicle, on_player_name_change, on_player_state_change, on_player_action_change,
  on_player_on_fire_change, on_player_crouch_change, on_player_game_keys_change,
  on_player_begin_typing, on_player_end_typing, on_player_away_change, on_player_message,
  on_player_command, on_player_private_message, on_player_spectate, on_player_crash_report,
  on_client_script_data, on_player_key_bind_down, on_player_key_bind_up, on_vehicle_update,
  on_vehicle_explode, on_vehicle_respawn, on_object_shot, on_object_touched, on_pickup_pick_attempt,
  on_pickup_picked, on_pickup_respawn, on_checkpoint_entered, on_checkpoint_exited,
  on_plugin_command, on_server_performance_report, on_entity_streaming_change, CallbackField,
  optional_callbacks, required_callbacks,
}
use vcmp_lua.Prelude.{
  eq_of_==, ap, [], ◌∙◌, sym, ◌∷◌, false, refl, true, ◌++◌, ◌==◌, Bool, List, get_or, ◌||◌, ◌≡◌, ℕ,
}

unfoldable pub callback_index : CallbackField → ℕ
callback_index on_server_initialise = 0
callback_index on_server_shutdown = 1
callback_index on_server_frame = 2
callback_index on_player_connect = 3
callback_index on_player_disconnect = 4
callback_index on_entity_pool_change = 5
callback_index on_incoming_connection = 6
callback_index on_player_module_list = 7
callback_index on_player_request_class = 8
callback_index on_player_request_spawn = 9
callback_index on_player_spawn = 10
callback_index on_player_death = 11
callback_index on_player_update = 12
callback_index on_player_request_enter_vehicle = 13
callback_index on_player_enter_vehicle = 14
callback_index on_player_exit_vehicle = 15
callback_index on_player_name_change = 16
callback_index on_player_state_change = 17
callback_index on_player_action_change = 18
callback_index on_player_on_fire_change = 19
callback_index on_player_crouch_change = 20
callback_index on_player_game_keys_change = 21
callback_index on_player_begin_typing = 22
callback_index on_player_end_typing = 23
callback_index on_player_away_change = 24
callback_index on_player_message = 25
callback_index on_player_command = 26
callback_index on_player_private_message = 27
callback_index on_player_spectate = 28
callback_index on_player_crash_report = 29
callback_index on_client_script_data = 30
callback_index on_player_key_bind_down = 31
callback_index on_player_key_bind_up = 32
callback_index on_vehicle_update = 33
callback_index on_vehicle_explode = 34
callback_index on_vehicle_respawn = 35
callback_index on_object_shot = 36
callback_index on_object_touched = 37
callback_index on_pickup_pick_attempt = 38
callback_index on_pickup_picked = 39
callback_index on_pickup_respawn = 40
callback_index on_checkpoint_entered = 41
callback_index on_checkpoint_exited = 42
callback_index on_plugin_command = 43
callback_index on_server_performance_report = 44
callback_index on_entity_streaming_change = 45

abbrev pub same_callback : CallbackField → CallbackField → Bool
same_callback f g = callback_index f == callback_index g

abbrev pub is_listed : CallbackField → List CallbackField → Bool
is_listed f [] = false
is_listed f (g ∷ gs) = same_callback f g || is_listed f gs

-- The callbacks by their index.
callback_at : ℕ → CallbackField
callback_at n = get_or (required_callbacks ++ optional_callbacks) n on_server_frame

callback_at_index : (f : CallbackField) → callback_at (callback_index f) ≡ f
unfolding callback_at callback_index
callback_at_index on_server_initialise = refl
callback_at_index on_server_shutdown = refl
callback_at_index on_server_frame = refl
callback_at_index on_player_connect = refl
callback_at_index on_player_disconnect = refl
callback_at_index on_entity_pool_change = refl
callback_at_index on_incoming_connection = refl
callback_at_index on_player_module_list = refl
callback_at_index on_player_request_class = refl
callback_at_index on_player_request_spawn = refl
callback_at_index on_player_spawn = refl
callback_at_index on_player_death = refl
callback_at_index on_player_update = refl
callback_at_index on_player_request_enter_vehicle = refl
callback_at_index on_player_enter_vehicle = refl
callback_at_index on_player_exit_vehicle = refl
callback_at_index on_player_name_change = refl
callback_at_index on_player_state_change = refl
callback_at_index on_player_action_change = refl
callback_at_index on_player_on_fire_change = refl
callback_at_index on_player_crouch_change = refl
callback_at_index on_player_game_keys_change = refl
callback_at_index on_player_begin_typing = refl
callback_at_index on_player_end_typing = refl
callback_at_index on_player_away_change = refl
callback_at_index on_player_message = refl
callback_at_index on_player_command = refl
callback_at_index on_player_private_message = refl
callback_at_index on_player_spectate = refl
callback_at_index on_player_crash_report = refl
callback_at_index on_client_script_data = refl
callback_at_index on_player_key_bind_down = refl
callback_at_index on_player_key_bind_up = refl
callback_at_index on_vehicle_update = refl
callback_at_index on_vehicle_explode = refl
callback_at_index on_vehicle_respawn = refl
callback_at_index on_object_shot = refl
callback_at_index on_object_touched = refl
callback_at_index on_pickup_pick_attempt = refl
callback_at_index on_pickup_picked = refl
callback_at_index on_pickup_respawn = refl
callback_at_index on_checkpoint_entered = refl
callback_at_index on_checkpoint_exited = refl
callback_at_index on_plugin_command = refl
callback_at_index on_server_performance_report = refl
callback_at_index on_entity_streaming_change = refl

pub eq_of_same_callback : (f g : CallbackField) → same_callback f g ≡ true → f ≡ g
eq_of_same_callback f g h =
    sym (callback_at_index f)
    ∙ ap callback_at (eq_of_== (callback_index f) (callback_index g) h)
    ∙ callback_at_index g

pub every_is_listed :
    (f : CallbackField) → is_listed f required_callbacks || is_listed f optional_callbacks ≡ true
unfolding callback_index
every_is_listed on_server_initialise = refl
every_is_listed on_server_shutdown = refl
every_is_listed on_server_frame = refl
every_is_listed on_player_connect = refl
every_is_listed on_player_disconnect = refl
every_is_listed on_entity_pool_change = refl
every_is_listed on_incoming_connection = refl
every_is_listed on_player_module_list = refl
every_is_listed on_player_request_class = refl
every_is_listed on_player_request_spawn = refl
every_is_listed on_player_spawn = refl
every_is_listed on_player_death = refl
every_is_listed on_player_update = refl
every_is_listed on_player_request_enter_vehicle = refl
every_is_listed on_player_enter_vehicle = refl
every_is_listed on_player_exit_vehicle = refl
every_is_listed on_player_name_change = refl
every_is_listed on_player_state_change = refl
every_is_listed on_player_action_change = refl
every_is_listed on_player_on_fire_change = refl
every_is_listed on_player_crouch_change = refl
every_is_listed on_player_game_keys_change = refl
every_is_listed on_player_begin_typing = refl
every_is_listed on_player_end_typing = refl
every_is_listed on_player_away_change = refl
every_is_listed on_player_message = refl
every_is_listed on_player_command = refl
every_is_listed on_player_private_message = refl
every_is_listed on_player_spectate = refl
every_is_listed on_player_crash_report = refl
every_is_listed on_client_script_data = refl
every_is_listed on_player_key_bind_down = refl
every_is_listed on_player_key_bind_up = refl
every_is_listed on_vehicle_update = refl
every_is_listed on_vehicle_explode = refl
every_is_listed on_vehicle_respawn = refl
every_is_listed on_object_shot = refl
every_is_listed on_object_touched = refl
every_is_listed on_pickup_pick_attempt = refl
every_is_listed on_pickup_picked = refl
every_is_listed on_pickup_respawn = refl
every_is_listed on_checkpoint_entered = refl
every_is_listed on_checkpoint_exited = refl
every_is_listed on_plugin_command = refl
every_is_listed on_server_performance_report = refl
every_is_listed on_entity_streaming_change = refl
