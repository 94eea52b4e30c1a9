-- ===== src/World.antt =====
-- The state that one Runtime keeps (src/runtime/runtime.hpp) with its Invoker
-- (src/core/invoker.hpp) and the plugin's State (src/plugin/callbacks.cpp), and how C++ calls Lua.
-- `H` is what lies outside: the memory of Lua and the server. A call into Lua is the parameter
-- `pcall`: it runs a function in protected mode and tells whether it returned.
pub mod Evolution
use vcmp_lua.Entity.{Object}
use vcmp_lua.Timer.{Scheduler}
use vcmp_lua.Event.{EventBus}
use vcmp_lua.Entity.Pools.{EntityPools}
use vcmp_lua.Prelude.{
  none, false, not, if◌then◌else◌, ltb, some, ◌&&◌, Bool, List, Option, true, ℕ, ◌+◌, ◌-◌,
}
use vcmp_lua.Lua.{Fn, Value}

-- `depth_` and `dead_`.
pub record Invoker : Type 0 where
  pub depth : ℕ
  pub dead : Bool

pub record World (H : Type 0) : Type 0 where
  pub invoker : Invoker
  pub entities : EntityPools
  pub events : EventBus
  pub timers : Scheduler
  -- The global thisTimer.
  pub this_timer : Value
  -- `lua_.has_value()`, `closing_`, `reload_requested_`; `dead_` is set with the invoker's.
  pub has_lua : Bool
  pub closing : Bool
  pub reload_requested : Bool
  -- `plugin.runtime != nullptr` and `plugin.shutdown_deferred`.
  pub runtime : Bool
  pub shutdown_deferred : Bool
  pub host : H

-- How a C++ call that may throw ends.
pub data Ended (A : Type 0) : Type 0 where
  returned : A → Ended A
  threw : Ended A

-- ProtectedCall, with the arguments of the function.
abbrev pub Pcall : Type 0 → Type 0
Pcall H = Fn → List Value → World H → Bool × World H

-- What pushes the arguments of a call on the stack; none when it throws.
abbrev pub Push : Type 0 → Type 0
Push H = World H → Option (List Value) × World H

-- What Lua's C API answers: whether the stack has room for some more values, and a new object.
pub record Machine (H : Type 0) : Type 0 where
  pub room : H → ℕ → Bool
  pub new_object : H → Object × H

module _ {H : Type 0} where
  -- Invoker::Scope.
  abbrev pub enter : World H → World H
  enter w = record w { invoker = record (w.invoker) { depth = w.invoker.depth + 1 } }

  abbrev pub leave : World H → World H
  leave w = record w { invoker = record (w.invoker) { depth = w.invoker.depth - 1 } }

  -- MarkDead, of the runtime and its invoker.
  abbrev pub mark_dead : World H → World H
  mark_dead w = record w { invoker = record (w.invoker) { dead = true } }

  -- `Usable`.
  unfoldable pub usable : World H → Bool
  usable w = w.has_lua && not w.closing && not w.invoker.dead

  -- `InLuaCall`.
  unfoldable pub in_lua_call : World H → Bool
  in_lua_call w = ltb 0 w.invoker.depth

  -- The part of `Invoker::Call` after the arguments are pushed.
  call_pushed : Pcall H → Fn → Option (List Value) × World H → Ended Bool × World H
  call_pushed pcall fn (none, w) = (threw, leave w)
  call_pushed pcall fn (some args, w) =
      let (fine, w') = pcall fn args w in (returned fine, leave w')

  -- `Invoker::Call`.
  unfoldable pub call : Machine H → Pcall H → Fn → Push H → World H → Ended Bool × World H
  unfolding call_pushed
  call m pcall fn push w =
      if w.invoker.dead
      then (returned false, w)
      else if not (m.room w.host 2)
      then (threw, leave (enter w))
      else call_pushed pcall fn (push (enter w))
