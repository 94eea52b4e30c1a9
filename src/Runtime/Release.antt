-- ===== src/Runtime/Release.antt =====
-- What a shutdown of the runtime leaves.
use vcmp_lua.Timer.{due_ids}
use vcmp_lua.Dispatch.{dispatch, handlers_of}
use vcmp_lua.Entity.Pools.{release_pools_refs, ServerPools}
use vcmp_lua.Event.{Handler, has_handlers, EventBus}
use vcmp_lua.Runtime.{returned, ShutdownReason, shut_down, shutdown, LuaState}
use vcmp_lua.World.{Push, Pcall, Machine, in_lua_call, usable, World}
use vcmp_lua.Entity.{empty_slot, slot_index, drop_refs, EntityKind, EntityPool, release_refs, slot}
use vcmp_lua.Prelude.{
  zero, suc, ◌∷◌, List, arith, not, if_cases, false, refl, true, get_or-map, none, ap, ℤ, [], ◌≡◌,
  ℕ,
}
use vcmp_lua.Event
use vcmp_lua.Timer

slot-release_refs : (p : EntityPool) (id : ℤ) → slot (release_refs p) id ≡ drop_refs (slot p id)
unfolding slot release_refs
slot-release_refs p id = get_or-map drop_refs p.slots (slot_index p id) empty_slot

handlers_of-clear : (b : EventBus) (event : ℕ) → handlers_of (Event.clear b) event ≡ []
unfolding Event.clear
handlers_of-clear b event = get_or-map (λ hs. []) b.lists event []

any-clear :
    (ls : List (List Handler)) (i : ℕ)
    → has_handlers (Event.clear (record (Event.new) { lists = ls })) i ≡ false
unfolding Event.clear has_handlers
any-clear [] i = refl
any-clear (l ∷ ls) zero = refl
any-clear (l ∷ ls) (suc i) = any-clear ls i

has_handlers-clear : (b : EventBus) (event : ℕ) → has_handlers (Event.clear b) event ≡ false
unfolding Event.clear has_handlers
has_handlers-clear b event = any-clear b.lists event

dispatch-clear :
    {H : Type 0} (m : Machine H) (pcall : Pcall H) (event : ℕ) (push : Push H) (w : World H)
    → has_handlers w.events event ≡ false
    → dispatch m pcall event push w ≡ (returned false, w)
unfolding dispatch
dispatch-clear m pcall event push w h = rw h refl

-- Nothing calls into Lua any more: every dispatch is over at once, and no timer is ever due.
abbrev pub Silent : {H : Type 0} → World H → Type 0
Silent {H} w =
    ((m : Machine H) (pcall : Pcall H) (event : ℕ) (push : Push H)
      → dispatch m pcall event push w ≡ (returned false, w))
    × ((now : ℕ) → due_ids w.timers now ≡ [])

-- No reference into Lua is left: no timer, no handler of an event, a dead one
-- neither, and no object of an entity.
abbrev pub NoRefs : {H : Type 0} → World H → Type 0
NoRefs w =
    (w.timers.timers ≡ [])
    × ((event : ℕ) → handlers_of w.events event ≡ [])
    × ((k : EntityKind) (id : ℤ)
        → ((slot (w.entities.get k) id).handle ≡ none)
          × ((slot (w.entities.get k) id).table ≡ none))

abbrev Left : {H : Type 0} → World H → Type 0
Left w = (usable w ≡ false) × Silent w × NoRefs w

module _ {H : Type 0} (lua : LuaState H) (api : ServerPools) where
  shut_down-NoRefs : (reason : ShutdownReason) (w : World H) → NoRefs (shut_down lua api reason w)
  unfolding shut_down release_pools_refs Timer.clear
  shut_down-NoRefs reason w = (
    refl,
    handlers_of-clear w.events,
    λ k id.
        (ap (λ s. s.handle) (slot-release_refs _ id), ap (λ s. s.table) (slot-release_refs _ id)),
  )

  shut_down-Silent : (reason : ShutdownReason) (w : World H) → Silent (shut_down lua api reason w)
  unfolding shut_down Timer.clear due_ids
  shut_down-Silent reason w = (
    λ m pcall event push.
        dispatch-clear m pcall event push (shut_down lua api reason w)
          (has_handlers-clear w.events event),
    λ now. refl,
  )

  -- After a shutdown of a runtime that has its Lua state, is not dead and runs no Lua, the
  -- runtime is unusable, every dispatch is over at once without a call, no timer is ever due, and
  -- no timer, no handler of any event, a dead one neither, and no Lua object of any entity is
  -- left.
  pub shutdown-releases :
      (reason : ShutdownReason) (w : World H)
      → w.has_lua ≡ true
      → in_lua_call w ≡ false
      → w.invoker.dead ≡ false
      → (usable (shutdown lua api reason w) ≡ false)
        × Silent (shutdown lua api reason w)
        × NoRefs (shutdown lua api reason w)
  unfolding shutdown usable shut_down
  shutdown-releases reason w l c d =
      if_cases Left (not w.has_lua) _ _ (λ h. absurd (ground (arith, h, l)))
        λ _.
          if_cases Left (in_lua_call w) _ _ (λ h. absurd (ground (arith, h, c)))
            λ _.
              if_cases Left w.invoker.dead _ _ (λ h. absurd (ground (arith, h, d)))
                λ _. (refl, shut_down-Silent reason w, shut_down-NoRefs reason w)
