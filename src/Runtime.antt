-- ===== src/Runtime.antt =====
-- src/runtime/runtime.cpp, class Runtime: loading the scripts, the frame, and the shutdown; and
-- src/core/frame_pump.cpp. Log lines are not modelled.
-- The parameters are Lua's: `load_file` compiles a script file, and `close_lua` closes the state,
-- which runs the finalizers; the bindings refuse to work by then.
pub mod Release
use vcmp_lua.Dispatch.{entity, plain, emit, Arg}
use vcmp_lua.Entity.{ref, release, is_alive, player, alive_ids}
use vcmp_lua.Event.{player_disconnect, server_frame, server_init, server_shutdown, clear, Event}
use vcmp_lua.Lua.{nil, integer, Fn, Value}
use vcmp_lua.World.{
  enter, usable, leave, threw, Pcall, returned, Ended, Machine, World, in_lua_call,
}
use vcmp_lua.Prelude.{
  pos, none, [], some, true, not, ℤ, ◌∷◌, Bool, Option, false, if◌then◌else◌, List, String,
}
use vcmp_lua.Event
use vcmp_lua.Timer
use vcmp_lua.Entity.Pools.{
  EntityPools, release_pools_refs, delete_created, close_pools, new_pools, enumerate, with_pool,
  ServerPools,
}

-- Lua's compiler and the end of its state.
pub record LuaState (H : Type 0) : Type 0 where
  pub load_file : H → String → Option Fn × H
  pub close_lua : H → H

-- Runtime::ShutdownReason.
pub data ShutdownReason : Type 0 where
  server reload : ShutdownReason

-- A step of a frame.
abbrev pub Step : Type 0 → Type 0
Step H = World H → Ended (Unit {0}) × World H

module _ {H : Type 0} where
  -- The runtime as its constructor leaves it.
  unfoldable pub fresh_runtime : World H → World H
  unfolding new_pools
  fresh_runtime w = record w {
    invoker = record { depth = 0; dead = false };
    entities = new_pools;
    events = Event.new;
    timers = Timer.new;
    this_timer = nil;
    has_lua = true;
    closing = false;
    reload_requested = false;
    runtime = true;
  }

  after_step : Step H → Ended (Unit {0}) × World H → Ended (Unit {0}) × World H
  after_step next (threw, w) = (threw, w)
  after_step next (returned _, w) = next w

  -- `FramePump::Run`, whose steps add none (the constructor adds all of them).
  unfoldable pub pump_run : List (Step H) → Step H
  unfolding after_step
  pump_run [] w = (returned tt, w)
  pump_run (step ∷ steps) w = after_step (pump_run steps) (step w)

  ignore_result : Ended Bool × World H → Ended (Unit {0}) × World H
  ignore_result (threw, w) = (threw, w)
  ignore_result (returned _, w) = (returned tt, w)

  -- The part of `Shutdown` past the guards, for a runtime that is not dead.
  shut_down : LuaState H → ServerPools → ShutdownReason → World H → World H
  unfolding close_pools delete_created release_pools_refs
  shut_down lua api reason w =
      let closed = close_pools w.entities in
      let deleted : EntityPools = elim reason [
        | server ↦ closed
        | reload ↦ (delete_created api closed).pools
      ] in
      record w {
        closing = true;
        entities = release_pools_refs deleted;
        events = Event.clear w.events;
        timers = Timer.clear w.timers;
        has_lua = false;
        host = lua.close_lua w.host;
      }

  -- `Shutdown`. A runtime that died leaks its state.
  unfoldable pub shutdown : LuaState H → ServerPools → ShutdownReason → World H → World H
  unfolding shut_down in_lua_call
  shutdown lua api reason w =
      if not w.has_lua
      then w
      else if in_lua_call w
      then w
      else if w.invoker.dead
      then record w { closing = true; has_lua = false }
      else shut_down lua api reason w

  module _ (m : Machine H) (pcall : Pcall H) where
    emit_done : Event → List Arg → World H → Ended (Unit {0}) × World H
    unfolding ignore_result
    emit_done e args w = ignore_result (emit m pcall e args w)

    run_chunk : Option Fn × H → World H → World H
    run_chunk (none, h) w = record w { host = h }
    run_chunk (some fn, h) w = (pcall fn [] (record w { host = h })).1

    -- One round of the loop of `LoadScripts`: the file compiled and run inside the Scope.
    load_script : LuaState H → String → World H → World H
    unfolding run_chunk
    load_script lua script w = leave (run_chunk (lua.load_file w.host script) (enter w))

    load_each : LuaState H → List String → World H → World H
    unfolding load_script
    load_each lua [] w = w
    load_each lua (script ∷ scripts) w =
        if usable w then load_each lua scripts (load_script lua script w) else w

    unfoldable pub load_scripts :
        LuaState H → ServerPools → List String → World H → Ended (Unit {0}) × World H
    unfolding load_each emit_done
    load_scripts lua api scripts w =
        if not (usable w)
        then (returned tt, w)
        else let w' = load_each lua scripts (record w { entities = enumerate api w.entities }) in
          if usable w' then emit_done server_init [] w' else (returned tt, w')

    -- `Frame`, with the steps of the pump and the seconds that passed.
    emit_frame : Value → World H → Ended (Unit {0}) × World H
    unfolding emit_done
    emit_frame elapsed w =
        if usable w then emit_done server_frame (plain elapsed ∷ []) w else (returned tt, w)

    unfoldable pub frame : List (Step H) → Value → World H → Ended (Unit {0}) × World H
    unfolding pump_run emit_frame after_step
    frame steps elapsed w =
        if not (usable w)
        then (returned tt, w)
        else after_step (emit_frame elapsed) (pump_run steps w)

    release_player : ℤ → World H → Ended (Unit {0}) × World H
    release_player id w = (
      returned tt,
      record w { entities = with_pool w.entities player (release (w.entities.get player) id) },
    )

    -- One round of the loop of `NotifyServerShutdown`, with vcmpDisconnectReasonTimeout.
    disconnect_player : ℤ → World H → Ended (Unit {0}) × World H
    unfolding release_player after_step emit_done
    disconnect_player id w =
        if is_alive (w.entities.get player) id
        then after_step (release_player id) (
            emit_done player_disconnect
              (entity player (ref (w.entities.get player) id) ∷ plain (integer (pos 0)) ∷ []) w)
        else (returned tt, w)

    disconnect_players : List ℤ → World H → Ended (Unit {0}) × World H
    unfolding disconnect_player after_step
    disconnect_players [] w = (returned tt, w)
    disconnect_players (id ∷ ids) w =
        if usable w
        then after_step (disconnect_players ids) (disconnect_player id w)
        else (returned tt, w)

    disconnect_all : World H → Ended (Unit {0}) × World H
    unfolding disconnect_players
    disconnect_all w = disconnect_players (alive_ids (w.entities.get player)) w

    unfoldable pub notify_server_shutdown : World H → Ended (Unit {0}) × World H
    unfolding disconnect_all emit_done after_step
    notify_server_shutdown w =
        if not (usable w)
        then (returned tt, w)
        else after_step disconnect_all (emit_done server_shutdown [] w)
