-- ===== src/Lib.antt =====
-- Verification library of VCMP-Lua, the plugin that runs Lua scripts in a VC:MP server.
--
-- The program. The server calls the plugin through callbacks (src/plugin/callbacks.cpp). The
-- plugin owns one Runtime (src/runtime/runtime.cpp), which owns a Lua state and four parts: the
-- pools of entities (src/core/entity_pool.cpp), the bus of events (src/core/event_bus.cpp), the
-- scheduler of timers (src/core/scheduler.cpp) and the invoker, which counts the calls into Lua
-- (src/core/invoker.hpp). A callback adopts or releases entities and emits an event; the bus calls
-- its handlers through the invoker; a handler may call the API again (src/bindings/event.cpp,
-- src/bindings/timer.cpp), and the server may call back inside it. So every part has to stand
-- changes while it is in use, and a shutdown waits until no call into Lua is active.
--
-- The files.
--   Prelude: numbers, integers, lists and results for all files.
--   Entity: EntityPool, one function per method; Entity/History: sequences of its calls, and the
--     machine of a single slot; Entity/Pools: EntityPools, with the server as a parameter.
--   Event: EventBus and DispatchFrame; Dispatch: Dispatch, Emit and PushEntity.
--   Timer: Scheduler but for the tick; Tick: Tick and Run.
--   World: the state of a Runtime, of its Invoker and of the plugin, and Invoker::Call.
--   Script: Event.* and Timer.* as requests of a script, which is a tree of requests and replies.
--   Runtime: LoadScripts, Frame, NotifyServerShutdown and Shutdown, and FramePump::Run.
--   Plugin: FinishShutdown, AfterCallback, Reload and the callbacks of the server itself.
--   Stream: what scripts write into a Stream and read from it (src/bindings/stream.cpp).
--   Command: the words of OnPlayerCommand. Reports: the other callbacks and what they report.
--   Callbacks: OnEvent, OnPlayerConnect, OnPlayerDisconnect and OnEntityPoolChange.
--   Args: the checked arguments of bindings (src/bindings/args.cpp and args.hpp). Api: the fields
--     that the server's version has (src/plugin/api_guard.hpp) and Init of src/plugin/callbacks.cpp.
--   Bindings: what the entity classes share (src/bindings/entity_type.hpp and entities.cpp), and the
--     creation, destruction and larger methods of vehicles, objects, pickups, checkpoints and binds.
--   Http: the requests of http.request, their transfers and limits (src/modules/http.cpp).
--   Hash: the hexadecimal text, hmac, pbkdf2 and random bytes (src/modules/hash.cpp).
--   Config: the settings of luaconfig.lua (src/runtime/config.cpp).
--   Names: the ids that names of skins and weapons refer to (src/bindings/names.cpp).
--   Examples: the theorems at concrete inputs.
--
-- How code becomes definitions. A method is a function from the state to the state and its
-- result; an exception is an error value, or `threw` where C++ calls Lua. What lies outside is a
-- value of a type H, which every call into Lua may change: the memory of Lua and the server. A
-- protected call of Lua is a parameter `pcall`; the theorems that need to know what it keeps name
-- that as a hypothesis, and Script/Evolution proves it for every script. The requests of a script
-- are those of Event and Timer, Server.reload, and one for any other binding: the server's
-- callbacks inside it and what it does to the pools; a binding that calls a Lua function itself
-- is not among them. Ids are integers, generations numbers below 2^32 that wrap, times numbers of
-- milliseconds.
--
-- Fuel and bounds. The loops of dispatches run over the handlers at their start, so no fuel is
-- needed. The rotation of a vehicle takes fuel, since a table may hold itself: more rounds than
-- there are tables inside one another are enough. Calls of scripts nest to a depth that is a
-- number, as Lua bounds it (200 C calls); the theorems hold for every depth. The words of a
-- command line take as many rounds as the text has bytes, since every round takes a byte at
-- least.
--
-- Not modelled: logging, the Lua stack but for the room on it, the conversion of arguments by
-- sol2, the bindings that are one call of a server function, the sandbox of the
-- configuration, the options of libcurl, and of the hash module the digests and scrypt.
pub mod Prelude
pub mod Entity
pub mod Lua
pub mod Event
pub mod Timer
pub mod World
pub mod Dispatch
pub mod Tick
pub mod Runtime
pub mod Plugin
pub mod Names
pub mod Stream
pub mod Api
pub mod Args
pub mod Bindings
pub mod Http
pub mod Hash
pub mod Config
pub mod Command
pub mod Reports
pub mod Callbacks
pub mod Examples
pub mod Script
