-- ===== src/Api/Start.antt =====
-- src/plugin/callbacks.cpp, `Init`: the start of the plugin.
-- The layouts of the server's structs are parameters, since they stand in its header. Whether the
-- libraries start, the config reads, the runtime can be constructed and the option's hook returns
-- are the fields of `Attempt`; a call that does not return throws.
use vcmp_lua.Prelude.{
  true, ◌||◌, ◌++◌, none, not, some, Option, [], if◌then◌else◌, ◌&&◌, Bool, List, ◌∷◌, ℕ,
}
use vcmp_lua.Api.{Field, has_field}

pub data CallbackField : Type 0 where
  on_server_initialise on_server_shutdown on_server_frame on_player_connect : CallbackField
  on_player_disconnect on_entity_pool_change on_incoming_connection on_player_module_list :
      CallbackField
  on_player_request_class on_player_request_spawn on_player_spawn on_player_death : CallbackField
  on_player_update on_player_request_enter_vehicle on_player_enter_vehicle on_player_exit_vehicle :
      CallbackField
  on_player_name_change on_player_state_change on_player_action_change on_player_on_fire_change :
      CallbackField
  on_player_crouch_change on_player_game_keys_change on_player_begin_typing on_player_end_typing :
      CallbackField
  on_player_away_change on_player_message on_player_command on_player_private_message :
      CallbackField
  on_player_spectate on_player_crash_report on_client_script_data on_player_key_bind_down :
      CallbackField
  on_player_key_bind_up on_vehicle_update on_vehicle_explode on_vehicle_respawn : CallbackField
  on_object_shot on_object_touched on_pickup_pick_attempt on_pickup_picked : CallbackField
  on_pickup_respawn on_checkpoint_entered on_checkpoint_exited on_plugin_command : CallbackField
  on_server_performance_report on_entity_streaming_change : CallbackField

pub data InfoField : Type 0 where
  info_name plugin_version api_major_version api_minor_version : InfoField

pub record Layout : Type 0 where
  pub callback : CallbackField → Field
  pub info : InfoField → Field

-- The arguments of Init, a struct by its size and null as none, with `manage_libraries`.
pub record Arguments : Type 0 where
  pub has_funcs : Bool
  pub calls_size : Option ℕ
  pub info_size : Option ℕ
  pub manage_libraries : Bool

pub record Attempt : Type 0 where
  pub libraries_start : Bool
  pub config_reads : Bool
  pub constructs : Bool
  pub hook_returns : Bool

-- What Init leaves: its result, the fields that it wrote, in order, whether the libraries are
-- initialised, and whether the plugin has a runtime.
pub record Started : Type 0 where
  pub result : ℕ
  pub info_written : List InfoField
  pub written : List CallbackField
  pub libraries : Bool
  pub runtime : Bool

-- The callbacks of VCMP_LUA_SET_CALLBACK, in order.
abbrev pub optional_callbacks : List CallbackField
optional_callbacks =
    on_player_connect ∷ on_player_disconnect ∷ on_entity_pool_change ∷ on_incoming_connection
    ∷ on_player_module_list ∷ on_player_request_class ∷ on_player_request_spawn ∷ on_player_spawn
    ∷ on_player_death ∷ on_player_update ∷ on_player_request_enter_vehicle ∷ on_player_enter_vehicle
    ∷ on_player_exit_vehicle ∷ on_player_name_change ∷ on_player_state_change
    ∷ on_player_action_change ∷ on_player_on_fire_change ∷ on_player_crouch_change
    ∷ on_player_game_keys_change ∷ on_player_begin_typing ∷ on_player_end_typing
    ∷ on_player_away_change ∷ on_player_message ∷ on_player_command ∷ on_player_private_message
    ∷ on_player_spectate ∷ on_player_crash_report ∷ on_client_script_data ∷ on_player_key_bind_down
    ∷ on_player_key_bind_up ∷ on_vehicle_update ∷ on_vehicle_explode ∷ on_vehicle_respawn
    ∷ on_object_shot ∷ on_object_touched ∷ on_pickup_pick_attempt ∷ on_pickup_picked
    ∷ on_pickup_respawn ∷ on_checkpoint_entered ∷ on_checkpoint_exited ∷ on_plugin_command
    ∷ on_server_performance_report ∷ on_entity_streaming_change ∷ []

abbrev pub required_callbacks : List CallbackField
required_callbacks = on_server_initialise ∷ on_server_shutdown ∷ on_server_frame ∷ []

-- Nothing done yet.
abbrev pub idle : Bool → Bool → Started
idle has_runtime has_libraries = record {
  result = 0;
  info_written = [];
  written = [];
  libraries = has_libraries;
  runtime = has_runtime;
}

module _ (layout : Layout) where
  -- VCMP_LUA_SET_CALLBACK, on the rest of the list.
  unfoldable pub set_callbacks : ℕ → List CallbackField → List CallbackField
  set_callbacks size [] = []
  set_callbacks size (f ∷ fs) =
      let rest = set_callbacks size fs in
      if has_field size (layout.callback f) then f ∷ rest else rest

  unfoldable pub write_info : ℕ → List InfoField → List InfoField
  write_info size [] = []
  write_info size (f ∷ fs) =
      let rest = write_info size fs in if has_field size (layout.info f) then f ∷ rest else rest

  unfoldable pub has_required : ℕ → Bool
  has_required size =
      has_field size (layout.callback on_server_initialise)
      && has_field size (layout.callback on_server_shutdown)
      && has_field size (layout.callback on_server_frame)

  -- The catch block, and the return without the required callbacks: the libraries are cleaned up if
  -- Init manages them.
  unfoldable pub failed : Arguments → List InfoField → Started → Started
  failed a written s = record s {
    result = 0;
    info_written = written;
    libraries = s.libraries && not a.manage_libraries;
  }

  -- Past the checks of the arguments, with the sizes of `calls` and `info`.
  unfoldable pub start : Arguments → Attempt → ℕ → ℕ → Started → Started
  unfolding write_info has_required failed set_callbacks
  start a t calls_size info_size s =
      let infos =
        write_info info_size
          (info_name ∷ plugin_version ∷ api_major_version ∷ api_minor_version ∷ []) in
      if a.manage_libraries && not t.libraries_start
      then failed a [] s
      else if not (has_required calls_size)
      then failed a infos s
      else if not (t.config_reads && t.constructs && t.hook_returns)
      then failed a infos s
      else record s {
        result = 1;
        info_written = infos;
        written = required_callbacks ++ set_callbacks calls_size optional_callbacks;
        libraries = s.libraries || a.manage_libraries;
        runtime = true;
      }

  -- The checks of the arguments and of the plugin.
  unfoldable pub init_with : Arguments → Attempt → Option ℕ → Option ℕ → Bool → Bool → Started
  unfolding start
  init_with a t (some calls_size) (some info_size) has_runtime has_libraries =
      if not a.has_funcs || has_runtime
      then idle has_runtime has_libraries
      else start a t calls_size info_size (idle has_runtime has_libraries)
  init_with a t none info_size has_runtime has_libraries = idle has_runtime has_libraries
  init_with a t (some calls_size) none has_runtime has_libraries = idle has_runtime has_libraries

  -- Init, on a plugin that has a runtime or not, and libraries that are initialised or not.
  unfoldable pub init : Arguments → Attempt → Bool → Bool → Started
  unfolding init_with
  init a t has_runtime has_libraries =
      init_with a t a.calls_size a.info_size has_runtime has_libraries
