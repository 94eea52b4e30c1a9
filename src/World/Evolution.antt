-- ===== src/World/Evolution.antt =====
-- What a call into Lua leaves alone, whatever the script does: the depth and the flags of the
-- runtime, the active dispatches around it, the places of their handlers and the running timers.
use vcmp_lua.Timer.Running.{RunningKept}
use vcmp_lua.Prelude.{true, not, if_cases, none, some, refl, List, Option, arith, ◌∙◌, ◌≡◌}
use vcmp_lua.Event.Growth.{BusKept, BusKept-trans, BusKept-refl}
use vcmp_lua.World.{
  in_lua_call, Value, Fn, call, call_pushed, leave, Machine, Pcall, Push, enter, World,
}

module _ {H : Type 0} where
  pub record Evolves (w w' : World H) : Type 0 where
    pub depth : w'.invoker.depth ≡ w.invoker.depth
    pub dead : w'.invoker.dead ≡ w.invoker.dead
    pub closing : w'.closing ≡ w.closing
    pub has_lua : w'.has_lua ≡ w.has_lua
    pub runtime : w'.runtime ≡ w.runtime
    pub bus : BusKept w.events w'.events
    pub timers : RunningKept w.timers w'.timers

  pub Evolves-refl : (w : World H) → Evolves w w
  Evolves-refl w = record {
    depth = refl;
    dead = refl;
    closing = refl;
    has_lua = refl;
    runtime = refl;
    bus = BusKept-refl w.events;
    timers = λ id h. h;
  }

  pub Evolves-trans : (u v w : World H) → Evolves u v → Evolves v w → Evolves u w
  Evolves-trans u v w a b = record {
    depth = b.depth ∙ a.depth;
    dead = b.dead ∙ a.dead;
    closing = b.closing ∙ a.closing;
    has_lua = b.has_lua ∙ a.has_lua;
    runtime = b.runtime ∙ a.runtime;
    bus = BusKept-trans u.events v.events w.events a.bus b.bus;
    timers = λ id h. b.timers id (a.timers id h);
  }

  abbrev pub EvolvesTo : {A : Type 0} → World H → A × World H → Type 0
  EvolvesTo w (r, v) = Evolves w v

  -- Every protected call, which C++ makes inside a call of its own.
  abbrev pub PcallKeeps : Pcall H → Type 0
  PcallKeeps pcall =
      (fn : Fn) (args : List Value) (w : World H)
      → in_lua_call w ≡ true
      → Evolves w (pcall fn args w).1

  pub in_lua_call-kept : (w v : World H) → Evolves w v → in_lua_call w ≡ true → in_lua_call v ≡ true
  unfolding in_lua_call
  in_lua_call-kept w v e h = rw e.depth h

  in_lua_call-enter : (w : World H) → in_lua_call (enter w) ≡ true
  unfolding in_lua_call
  in_lua_call-enter w = ground arith

  abbrev pub PushKeeps : Push H → Type 0
  PushKeeps push = (w : World H) → Evolves w (push w).1

  -- Between `enter` and `leave` the world evolves from the entered one.
  pub Evolves-leave : (w v : World H) → Evolves (enter w) v → Evolves w (leave v)
  Evolves-leave w v e = record {
    depth = omega (arith, e.depth);
    dead = e.dead;
    closing = e.closing;
    has_lua = e.has_lua;
    runtime = e.runtime;
    bus = e.bus;
    timers = e.timers;
  }

  module _ (m : Machine H) (pcall : Pcall H) (k : PcallKeeps pcall) where
    Evolves-call_pushed :
        (fn : Fn) (w : World H) (pushed : Option (List Value) × World H)
        → Evolves (enter w) pushed.1
        → Evolves w (call_pushed pcall fn pushed).1
    unfolding call_pushed
    Evolves-call_pushed fn w (none, v) e = Evolves-leave w v e
    Evolves-call_pushed fn w (some args, v) e = Evolves-leave w (pcall fn args v).1 (
        Evolves-trans (enter w) v (pcall fn args v).1 e
          (k fn args v (in_lua_call-kept (enter w) v e (in_lua_call-enter w))))

    -- `Invoker::Call` restores the depth, and leaves alone what the function does.
    pub Evolves-call :
        (fn : Fn) (push : Push H) (w : World H)
        → PushKeeps push
        → Evolves w (call m pcall fn push w).1
    unfolding call
    Evolves-call fn push w p =
        if_cases (EvolvesTo w) w.invoker.dead _ _ (λ _. Evolves-refl w)
          λ _.
            if_cases (EvolvesTo w) (not (m.room w.host 2)) _ _
              (λ _. Evolves-leave w (enter w) (Evolves-refl (enter w)))
              λ _. Evolves-call_pushed fn w (push (enter w)) (p (enter w))
