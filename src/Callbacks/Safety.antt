-- ===== src/Callbacks/Safety.antt =====
-- The callbacks of the server that arrive while Lua runs.
use vcmp_lua.Callbacks.{
  shutdown_call, pool_call, disconnect_call, connect_call, event_call, ServerCall, serve,
  integer_table, reference, text_table, server_performance_report, performance_report, client_data,
  client_script_data, player_command, command, player_wasted, vehicle, int, player_kill,
  is_connected, player_update, on_entity_pool_change, on_wasted, player_disconnect, sees, update,
  death, entity_pool_change, on_kill, on_player_disconnect, player, player_connect, returned, value,
  adopt_in, after_callback, after_event, answer_of, body_of, connected, disconnected, emit,
  emit_if_usable, emit_seen, if_handled, on_callback, on_client_data, on_death, on_player_connect,
  pool_changed, release_in, release_reported, see, see_all, seen_player,
}
use vcmp_lua.Reports.{
  durations, descriptions, or_empty, command_args, player_id, reported, Callback, Reported,
}
use vcmp_lua.Command.{split_command}
use vcmp_lua.Plugin.Deferral.{after_callback-inside}
use vcmp_lua.Dispatch.Evolution.{emit-Evolves, with_pools-Evolves}
use vcmp_lua.Entity.{in_range, EntityKind}
use vcmp_lua.Event.{event_index, has_handlers, Event}
use vcmp_lua.Event.Growth.{BusKept-refl}
use vcmp_lua.World.Evolution.{PcallKeeps, Evolves-trans, Evolves-refl, EvolvesTo, Evolves}
use vcmp_lua.Dispatch.{Arg}
use vcmp_lua.Entity.Pools.{from_server_pool, ServerPool}
use vcmp_lua.World.{usable, in_lua_call, Ended, World}
use vcmp_lua.Plugin.{live, on_server_shutdown, Plugin}
use vcmp_lua.Prelude.{
  sym, arith, subst, ◌==◌, true, ◌≡◌, if◌then◌else◌, none, ◌&&◌, pos, leb_ℤ, not, Bool, if_cases,
  some, Option, [], ◌∷◌, refl, List, ℤ, ℕ,
}
use vcmp_lua.World.{threw}

-- The bodies of the callbacks.
module _ {H : Type 0} (p : Plugin H) (keeps : PcallKeeps p.pcall) where
  see-Evolves : (k : EntityKind) (id : ℤ) (w : World H) → EvolvesTo w (see p k id w)
  unfolding see
  see-Evolves k id w =
      if_cases (EvolvesTo w) (in_range (w.entities.get k) id) _ _
        (λ _. with_pools-Evolves w _ w.host) λ _. Evolves-refl w

  see_all-Evolves : (args : List Reported) (w : World H) → EvolvesTo w (see_all p args w)
  unfolding see_all
  see_all-Evolves [] w = Evolves-refl w
  see_all-Evolves (value v ∷ args) w = see_all-Evolves args w
  see_all-Evolves (sees k id ∷ args) w =
      Evolves-trans w (see p k id w).1 _ (see-Evolves k id w)
        (see_all-Evolves args (see p k id w).1)

  emits :
      (e : Event) (args : List Arg) (w : World H) → EvolvesTo w (emit p.machine p.pcall e args w)
  emits e args w = emit-Evolves p.machine p.pcall e args w keeps

  emit_seen-Evolves :
      (e : Event) (args : List Reported) (w : World H) → EvolvesTo w (emit_seen p e args w)
  unfolding emit_seen
  emit_seen-Evolves e args w =
      Evolves-trans w (see_all p args w).1 _ (see_all-Evolves args w)
        (emits e _ (see_all p args w).1)

  if_handled-Evolves :
      (e : Event) (body : World H → Ended Bool × World H) (w : World H)
      → EvolvesTo w (body w)
      → EvolvesTo w (if_handled p e body w)
  unfolding if_handled
  if_handled-Evolves e body w b =
      if_cases (EvolvesTo w) (not (has_handlers w.events (event_index e))) _ _ (λ _. Evolves-refl w)
        λ _. b

  handled_seen :
      (e : Event) (args : List Reported) (w : World H)
      → EvolvesTo w (if_handled p e (emit_seen p e args) w)
  handled_seen e args w = if_handled-Evolves e (emit_seen p e args) w (emit_seen-Evolves e args w)

  on_death-Evolves :
      (id killer reason part : ℤ) (w : World H) → EvolvesTo w (on_death p id killer reason part w)
  unfolding on_death on_kill on_wasted
  on_death-Evolves id killer reason part w =
      let seen_one = see p player id w in
      let first = see-Evolves player id w in
      if_cases (EvolvesTo w) (leb_ℤ (pos 0) killer && is_connected p killer) _ _
        (λ _. Evolves-trans w seen_one.1 _ first (
          Evolves-trans seen_one.1 (see p player killer seen_one.1).1 _
            (see-Evolves player killer seen_one.1)
            (emits player_kill _ (see p player killer seen_one.1).1)))
        λ _. Evolves-trans w seen_one.1 _ first (emits player_wasted _ seen_one.1)

  on_client_data-Evolves :
      (id : ℤ) (content : List ℕ) (size : ℕ) (w : World H)
      → EvolvesTo w (on_client_data p id content size w)
  unfolding on_client_data
  on_client_data-Evolves id content size w =
      let made = p.new_stream w.host content in
      let v = record w { host = made.1 } in
      let args = player_id id ∷ value (reference made.0) ∷ int (pos size) ∷ [] in
      Evolves-trans w v (emit_seen p client_data args v).1 (with_pools-Evolves w w.entities made.1)
        (emit_seen-Evolves client_data args v)

  body_of-Evolves :
      (c : Callback) (r : Option (Event × List Reported)) (w : World H)
      → EvolvesTo w (body_of p c r w)
  unfolding body_of
  body_of-Evolves c (some (e, args)) w = emit_seen-Evolves e args w
  body_of-Evolves (death id killer reason part) none w = on_death-Evolves id killer reason part w
  body_of-Evolves (update id n) none w = handled_seen player_update (player_id id ∷ int n ∷ []) w
  body_of-Evolves (Callback.vehicle_update v n) none w =
      handled_seen Event.vehicle_update (sees vehicle v ∷ int n ∷ []) w
  body_of-Evolves (command id text) none w =
      emit_seen-Evolves player_command (player_id id ∷ command_args (split_command (or_empty text)))
        w
  body_of-Evolves (client_script_data id content size) none w =
      if_handled-Evolves client_data (on_client_data p id content size) w
        (on_client_data-Evolves id content size w)
  body_of-Evolves (performance_report count entries) none w =
      handled_seen server_performance_report
        (int (pos count)
          ∷ value (text_table (descriptions entries))
          ∷ value (integer_table (durations entries))
          ∷ [])
        w
  body_of-Evolves c none w = Evolves-refl w

  after_event-Evolves :
      (next : World H → World H) (w : World H) (r : Ended Bool × World H)
      → ((v : World H) → Evolves v (next v))
      → EvolvesTo w r
      → Evolves w (after_event p next r)
  unfolding after_event
  after_event-Evolves next w (threw, v) n e = e
  after_event-Evolves next w (returned _, v) n e = Evolves-trans w v (next v) e (n v)

  emit_if_usable-Evolves :
      (e : Event) (args : List Arg) (w : World H) → EvolvesTo w (emit_if_usable p e args w)
  unfolding emit_if_usable
  emit_if_usable-Evolves e args w =
      if_cases (EvolvesTo w) (usable w) _ _ (λ _. emits e args w) λ _. Evolves-refl w

  release_in-Evolves : (k : EntityKind) (id : ℤ) (w : World H) → Evolves w (release_in p k id w)
  unfolding release_in
  release_in-Evolves k id w =
      if_cases (Evolves w) (live w) _ _ (λ _. with_pools-Evolves w _ w.host) λ _. Evolves-refl w

  seen_player-Evolves : (id : ℤ) (w : World H) → EvolvesTo w (seen_player p id w)
  unfolding seen_player
  seen_player-Evolves id w = with_pools-Evolves w _ w.host

  connected-Evolves : (id : ℤ) (w : World H) → EvolvesTo w (connected p id w)
  unfolding connected
  connected-Evolves id w =
      let v = (seen_player p id w).1 in
      Evolves-trans w v _ (seen_player-Evolves id w) (emit_if_usable-Evolves player_connect _ v)

  disconnected-Evolves : (id reason : ℤ) (w : World H) → Evolves w (disconnected p id reason w)
  unfolding disconnected
  disconnected-Evolves id reason w =
      let v = (seen_player p id w).1 in
      after_event-Evolves _ w _ (release_in-Evolves player id) (
        Evolves-trans w v _ (seen_player-Evolves id w)
          (emit_if_usable-Evolves player_disconnect _ v))

  adopt_in-Evolves : (k : Option EntityKind) (id : ℤ) (w : World H) → Evolves w (adopt_in p k id w)
  unfolding adopt_in
  adopt_in-Evolves none id w = Evolves-refl w
  adopt_in-Evolves (some k) id w = with_pools-Evolves w _ w.host

  release_reported-Evolves :
      (k : Option EntityKind) (id : ℤ) (w : World H) → Evolves w (release_reported p k id w)
  unfolding release_reported
  release_reported-Evolves none id w = Evolves-refl w
  release_reported-Evolves (some k) id w = release_in-Evolves k id w

  pool_changed-Evolves :
      (type : ServerPool) (number id : ℤ) (deleted : Bool) (w : World H)
      → Evolves w (pool_changed p type number id deleted w)
  unfolding pool_changed
  pool_changed-Evolves type number id deleted w =
      let k = from_server_pool type in
      let v = if deleted then w else adopt_in p k id w in
      after_event-Evolves _ w _
        (λ u.
          if_cases (Evolves u) deleted _ _ (λ _. release_reported-Evolves k id u)
            λ _. Evolves-refl u)
        (Evolves-trans w v _
          (if_cases (Evolves w) deleted _ _ (λ _. Evolves-refl w) λ _. adopt_in-Evolves k id w)
          (emit_if_usable-Evolves entity_pool_change _ v))

  -- Inside a call into Lua, what follows a callback does nothing.
  settle : (w v : World H) → in_lua_call w ≡ true → Evolves w v → Evolves w (after_callback p v)
  unfolding in_lua_call
  settle w v h e = subst (Evolves w) (sym (after_callback-inside p v (rw e.depth h))) e

  guard_live : (w v : World H) → Evolves w v → Evolves w (if live w then v else w)
  guard_live w v e = if_cases (Evolves w) (live w) v w (λ _. e) λ _. Evolves-refl w

  answer_of-Evolves :
      (w : World H) (r : Ended Bool × World H)
      → in_lua_call w ≡ true
      → EvolvesTo w r
      → EvolvesTo w (answer_of p r)
  unfolding answer_of
  answer_of-Evolves w (threw, v) h e = settle w v h e
  answer_of-Evolves w (returned _, v) h e = settle w v h e

  on_callback-Evolves :
      (c : Callback) (w : World H) → in_lua_call w ≡ true → EvolvesTo w (on_callback p c w)
  unfolding on_callback
  on_callback-Evolves c w h =
      if_cases (EvolvesTo w) (live w && usable w) _ _
        (λ _. answer_of-Evolves w _ h (body_of-Evolves c (reported c) w))
        λ _. settle w w h (Evolves-refl w)

  -- A callback of the server that arrives inside a call into Lua, a shutdown included, leaves the
  -- runtime and its Lua state in place, with the call depth, the enclosing dispatches and the
  -- running timers, whenever the protected calls of Lua do.
  pub serve-Evolves :
      (call : ServerCall) (w : World H) → in_lua_call w ≡ true → Evolves w (serve p call w)
  unfolding serve on_player_connect on_player_disconnect on_entity_pool_change on_server_shutdown
  serve-Evolves (event_call c) w h = on_callback-Evolves c w h
  serve-Evolves (connect_call id) w h = settle w _ h (guard_live w _ (connected-Evolves id w))
  serve-Evolves (disconnect_call id reason) w h =
      settle w _ h (guard_live w _ (disconnected-Evolves id reason w))
  serve-Evolves (pool_call type number id deleted) w h =
      settle w _ h (guard_live w _ (pool_changed-Evolves type number id (not (deleted == 0)) w))
  serve-Evolves shutdown_call w h =
      if_cases (Evolves w) (not w.runtime) _ _ (λ _. Evolves-refl w)
        λ _.
          if_cases (Evolves w) (in_lua_call w) _ _ (λ _. marked) λ e. absurd (ground (arith, e, h))
    where
      marked : Evolves w (record w { shutdown_deferred = true })
      marked = record {
        depth = refl;
        dead = refl;
        closing = refl;
        has_lua = refl;
        runtime = refl;
        bus = BusKept-refl w.events;
        timers = λ id r. r;
      }
