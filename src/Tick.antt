-- ===== src/Tick.antt =====
-- src/core/scheduler.cpp, `Tick` and `Run`: the calls of the due timers; and
-- src/core/frame_pump.cpp, the steps of a frame.
use vcmp_lua.Lua.{Value}
use vcmp_lua.Timer.{due_ids, erase, is_over, advance, modify, Timer, find}
use vcmp_lua.Prelude.{[], length, not, if◌then◌else◌, ◌∷◌, Bool, false, none, some, true, List, ℕ}
use vcmp_lua.World.{enter, call, threw, Push, leave, returned, Ended, Pcall, Machine, World}

module _ {H : Type 0} (m : Machine H) (pcall : Pcall H) (clock : H → ℕ) where
  abbrev modify_timer : ℕ → (Timer → Timer) → World H → World H
  modify_timer id f w = record w {
    timers = record (w.timers) { timers = modify id f w.timers.timers };
  }

  -- RunningScope: the constructor past `lua_checkstack`, and the destructor.
  begin_running : ℕ → Timer → World H → World H
  begin_running id timer w = record (modify_timer id (λ t. record t { running = true }) w) {
    this_timer = timer.handle;
  }

  end_running : ℕ → Value → World H → World H
  end_running id previous w =
      let stopped = modify_timer id (λ t. record t { running = false }) w in
      if w.invoker.dead then stopped else record stopped { this_timer = previous }

  -- The arguments of the timer, unless the stack has no room for them.
  push_timer_args : List Value → Push H
  push_timer_args args w = (if m.room w.host (length args) then some args else none, w)

  erase_if_over : ℕ → World H → World H
  erase_if_over id w = elim (find id w.timers.timers) [
    | none ↦ w
    | some t ↦
        if is_over t
        then record w { timers = record (w.timers) { timers = erase id w.timers.timers } }
        else w
  ]

  -- After the callback, or when it could not be called.
  after_run : ℕ → Value → Ended Bool × World H → Ended (Unit {0}) × World H
  unfolding erase_if_over end_running
  after_run id previous (threw, w) = (threw, end_running id previous w)
  after_run id previous (returned _, w) =
      (returned tt, erase_if_over id (end_running id previous w))

  -- `Run`, with the timer as the tick found it.
  run_timer : ℕ → Timer → ℕ → World H → Ended (Unit {0}) × World H
  unfolding after_run begin_running push_timer_args
  run_timer id timer now w =
      let timer' = advance now timer in
      let w' = modify_timer id (advance now) w in
      if not (m.room w.host 4)
      then (threw, w')
      else after_run id w'.this_timer
          (call m pcall timer'.callback (push_timer_args timer'.args) (begin_running id timer' w'))

  -- One round of the second loop of `Tick`.
  run_if_there : ℕ → ℕ → World H → Ended (Unit {0}) × World H
  unfolding run_timer
  run_if_there id now w = elim (find id w.timers.timers) [
    | none ↦ (returned tt, w)
    | some t ↦ if t.destroyed then (returned tt, w) else run_timer id t now w
  ]

  and_then :
      (World H → Ended (Unit {0}) × World H)
      → Ended (Unit {0}) × World H
      → Ended (Unit {0}) × World H
  and_then next (threw, w) = (threw, w)
  and_then next (returned _, w) = next w

  run_all : List ℕ → ℕ → World H → Ended (Unit {0}) × World H
  unfolding run_if_there and_then
  run_all [] now w = (returned tt, w)
  run_all (id ∷ ids) now w = and_then (run_all ids now) (run_if_there id now w)

  leave_after : Ended (Unit {0}) × World H → Ended (Unit {0}) × World H
  leave_after (e, w) = (e, leave w)

  unfoldable pub tick : World H → Ended (Unit {0}) × World H
  unfolding run_all leave_after
  tick w = elim w.timers.timers [
    | [] ↦ (returned tt, w)
    | _ ∷ _ ↦ let now = clock w.host in leave_after (run_all (due_ids w.timers now) now (enter w))
  ]
