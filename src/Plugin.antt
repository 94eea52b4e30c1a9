-- ===== src/Plugin.antt =====
-- src/plugin/callbacks.cpp: the plugin's State, its shutdown and reload, and the callbacks of the
-- server itself.
-- The parameters of a plugin are the machine and the protected calls of Lua, the server's pools,
-- the steps of the frame pump, the config's scripts, and `construct`: whether the config is valid
-- and the Lua state of a new runtime can be set up; `new_stream` makes a Lua object.
use vcmp_lua.Entity.{Object}
use vcmp_lua.Entity.Pools.{ServerPools}
use vcmp_lua.Prelude.{ℕ, String, List, true, not, ◌&&◌, Bool, false, if◌then◌else◌}
use vcmp_lua.Lua.{Value}
use vcmp_lua.World.{in_lua_call, Pcall, Ended, Machine, World}
pub mod Deferral
use vcmp_lua.Runtime.{
  Step, notify_server_shutdown, LuaState, frame, load_scripts, reload, fresh_runtime, server,
  shutdown,
}

pub record Plugin (H : Type 0) : Type 0 where
  pub machine : Machine H
  pub pcall : Pcall H
  pub lua : LuaState H
  pub api : ServerPools
  pub steps : List (Step H)
  pub scripts : H → List String
  pub construct : H → Bool × H
  -- A new Stream object with the bytes.
  pub new_stream : H → List ℕ → Object × H

module _ {H : Type 0} where
  -- `Live`.
  unfoldable pub live : World H → Bool
  live w = w.runtime && not w.invoker.dead

  -- `Guarded`: an exception ends in the log.
  abbrev pub guarded : {A : Type 0} → Ended A × World H → World H
  guarded (e, w) = w

  module _ (p : Plugin H) where
    end_runtime : World H → World H
    end_runtime w = record (shutdown p.lua p.api server (record w { runtime = false })) {
      shutdown_deferred = false;
    }

    unfoldable pub finish_shutdown : World H → World H
    unfolding end_runtime
    finish_shutdown w =
        let w' = record w { shutdown_deferred = false } in
        if not w.runtime
        then w'
        else end_runtime (guarded (notify_server_shutdown p.machine p.pcall w'))

    unfoldable pub after_callback : World H → World H
    unfolding finish_shutdown
    after_callback w =
        if w.shutdown_deferred && w.runtime && not (in_lua_call w) then finish_shutdown w else w

    replace_runtime : World H → World H
    replace_runtime w =
        let w' = fresh_runtime (shutdown p.lua p.api reload (record w { runtime = false })) in
        guarded (load_scripts p.machine p.pcall p.lua p.api (p.scripts w'.host) w')

    reload_with : World H → Bool × H → World H
    unfolding replace_runtime
    reload_with w (false, h) = record w { reload_requested = false; host = h }
    reload_with w (true, h) = replace_runtime (record w { host = h })

    -- `Reload`, with its exceptions ended in the log.
    unfoldable pub reload_scripts : World H → World H
    unfolding reload_with
    reload_scripts w = reload_with w (p.construct w.host)

    unfoldable pub on_server_initialise : World H → World H
    unfolding after_callback
    on_server_initialise w = after_callback (
        if live w
        then guarded (load_scripts p.machine p.pcall p.lua p.api (p.scripts w.host) w)
        else w)

    run_frame : Value → World H → World H
    run_frame elapsed w = if live w then guarded (frame p.machine p.pcall p.steps elapsed w) else w

    reload_if_requested : World H → World H
    unfolding reload_scripts
    reload_if_requested w =
        if live w && w.reload_requested && not (in_lua_call w) && not w.shutdown_deferred
        then reload_scripts w
        else w

    unfoldable pub on_server_frame : Value → World H → World H
    unfolding run_frame reload_if_requested after_callback
    on_server_frame elapsed w =
        after_callback (reload_if_requested (after_callback (run_frame elapsed w)))

    unfoldable pub on_server_shutdown : World H → World H
    unfolding finish_shutdown
    on_server_shutdown w =
        if not w.runtime
        then w
        else if in_lua_call w
        then record w { shutdown_deferred = true }
        else finish_shutdown w
