-- ===== src/Callbacks.antt =====
-- src/plugin/callbacks.cpp: the server's callbacks for its players and entities, each with the
-- event that it raises.
pub mod Safety
use vcmp_lua.Command.{split_command}
use vcmp_lua.Dispatch.{plain, entity, emit, Arg}
use vcmp_lua.Entity.Pools.{from_server_pool, with_pool, ServerPool}
use vcmp_lua.World.{threw, returned, usable, Ended, World}
use vcmp_lua.Reports.{
  durations, descriptions, performance_report, client_script_data, or_empty, command_args, command,
  int, sees, wasted_reason, player_id, update, value, death, Reported, Callback, reported,
}
use vcmp_lua.Entity.{vehicle, adopt, no_ref, release, in_range, player, seen, EntityKind, EntityRef}
use vcmp_lua.Event.{
  server_performance_report, player_command, vehicle_update, event_index, player_update,
  entity_pool_change, has_handlers, player_kill, player_wasted, client_data, player_connect,
  player_disconnect, Event,
}
use vcmp_lua.Plugin.{on_server_shutdown, guarded, live, after_callback, Plugin}
use vcmp_lua.Event
use vcmp_lua.Lua.{integer, reference, text_table, integer_table, boolean}
use vcmp_lua.Prelude.{
  length, [], false, pos, ◌&&◌, ◌==◌, leb_ℤ, none, not, ◌∷◌, Bool, if◌then◌else◌, some, List,
  Option, ℤ, ℕ,
}

module _ {H : Type 0} (p : Plugin H) where
  -- `Seen`: the handle of an entity, adopted on first sight; none outside the pool.
  unfoldable pub see : EntityKind → ℤ → World H → EntityRef × World H
  see k id w =
      let pool = w.entities.get k in
      let (pool', r) = seen pool id in
      if in_range pool id
      then (r, record w { entities = with_pool w.entities k pool' })
      else (no_ref, w)

  see_all : List Reported → World H → List Arg × World H
  unfolding see
  see_all [] w = ([], w)
  see_all (value v ∷ rest) w = let (args, w') = see_all rest w in (plain v ∷ args, w')
  see_all (sees k id ∷ rest) w =
      let (r, w') = see k id w in let (args, w'') = see_all rest w' in (entity k r ∷ args, w'')

  emit_seen : Event → List Reported → World H → Ended Bool × World H
  unfolding see_all
  emit_seen e args w = let (args', w') = see_all args w in emit p.machine p.pcall e args' w'

  -- For an event that is frequent or costly: nothing is seen without handlers.
  if_handled : Event → (World H → Ended Bool × World H) → World H → Ended Bool × World H
  if_handled e body w =
      if not (has_handlers w.events (event_index e)) then (returned false, w) else body w

  is_connected : ℤ → Bool
  is_connected id = elim p.api.is_player_connected [ none ↦ false | some connected ↦ connected id ]

  -- The killing, and the death that no other player brought.
  on_kill : ℤ → EntityRef → ℤ → ℤ → World H → Ended Bool × World H
  unfolding see
  on_kill killer victim reason body_part w =
      let (killer', w') = see player killer w in
      emit p.machine p.pcall player_kill
        (entity player killer'
          ∷ entity player victim
          ∷ plain (integer reason)
          ∷ plain (integer body_part)
          ∷ [])
        w'

  on_wasted : EntityRef → ℤ → World H → Ended Bool × World H
  on_wasted victim reason w =
      emit p.machine p.pcall player_wasted (entity player victim ∷ plain (integer reason) ∷ []) w

  on_death : ℤ → ℤ → ℤ → ℤ → World H → Ended Bool × World H
  unfolding see is_connected on_kill on_wasted
  on_death id killer reason body_part w =
      let (victim, w') = see player id w in
      if leb_ℤ (pos 0) killer && is_connected killer
      then on_kill killer victim reason body_part w'
      else on_wasted victim (wasted_reason reason body_part) w'

  on_client_data : ℤ → List ℕ → ℕ → World H → Ended Bool × World H
  unfolding emit_seen
  on_client_data id content size w =
      let (o, host') = p.new_stream w.host content in
      emit_seen client_data (player_id id ∷ value (reference o) ∷ int (pos size) ∷ [])
        (record w { host = host' })

  -- The bodies of the callbacks.
  body_of : Callback → Option (Event × List Reported) → World H → Ended Bool × World H
  unfolding emit_seen if_handled on_death on_client_data
  body_of c (some (e, args)) w = emit_seen e args w
  body_of (death id killer reason part) none w = on_death id killer reason part w
  body_of (update id n) none w =
      if_handled player_update (emit_seen player_update (player_id id ∷ int n ∷ [])) w
  body_of (Callback.vehicle_update v n) none w =
      if_handled Event.vehicle_update (emit_seen Event.vehicle_update (sees vehicle v ∷ int n ∷ []))
        w
  body_of (command id text) none w =
      emit_seen player_command (player_id id ∷ command_args (split_command (or_empty text))) w
  body_of (client_script_data id content size) none w =
      if_handled client_data (on_client_data id content size) w
  body_of (performance_report count entries) none w =
      if_handled server_performance_report
        (emit_seen server_performance_report (
          int (pos count)
          ∷ value (text_table (descriptions entries))
          ∷ value (integer_table (durations entries))
          ∷ []))
        w
  body_of c none w = (returned false, w)

  -- `OnEvent`: the answer is 0 when a handler cancelled the event, else 1.
  answer_of : Ended Bool × World H → ℕ × World H
  answer_of (threw, w) = (1, after_callback p w)
  answer_of (returned cancelled, w) = (if cancelled then 0 else 1, after_callback p w)

  unfoldable pub on_callback : Callback → World H → ℕ × World H
  unfolding body_of answer_of reported
  on_callback c w =
      if live w && usable w then answer_of (body_of c (reported c) w) else (1, after_callback p w)

  release_in : EntityKind → ℤ → World H → World H
  release_in k id w =
      if live w
      then record w { entities = with_pool w.entities k (release (w.entities.get k) id) }
      else w

  emit_if_usable : Event → List Arg → World H → Ended Bool × World H
  emit_if_usable e args w =
      if usable w then emit p.machine p.pcall e args w else (returned false, w)

  seen_player : ℤ → World H → EntityRef × World H
  seen_player id w =
      let (pool, r) = seen (w.entities.get player) id in
      (r, record w { entities = with_pool w.entities player pool })

  connected : ℤ → World H → Ended Bool × World H
  unfolding seen_player emit_if_usable
  connected id w =
      let (r, w') = seen_player id w in emit_if_usable player_connect (entity player r ∷ []) w'

  unfoldable pub on_player_connect : ℤ → World H → World H
  unfolding connected
  on_player_connect id w = after_callback p (if live w then guarded (connected id w) else w)

  -- An exception skips what follows the event.
  after_event : (World H → World H) → Ended Bool × World H → World H
  after_event next (threw, w) = w
  after_event next (returned _, w) = next w

  disconnected : ℤ → ℤ → World H → World H
  unfolding seen_player emit_if_usable after_event release_in
  disconnected id reason w =
      let (r, w') = seen_player id w in
      after_event (release_in player id)
        (emit_if_usable player_disconnect (entity player r ∷ plain (integer reason) ∷ []) w')

  unfoldable pub on_player_disconnect : ℤ → ℤ → World H → World H
  unfolding disconnected
  on_player_disconnect id reason w =
      after_callback p (if live w then disconnected id reason w else w)

  adopt_in : Option EntityKind → ℤ → World H → World H
  adopt_in none id w = w
  adopt_in (some k) id w = record w {
    entities = with_pool w.entities k (adopt (w.entities.get k) id);
  }

  release_reported : Option EntityKind → ℤ → World H → World H
  unfolding release_in
  release_reported none id w = w
  release_reported (some k) id w = release_in k id w

  pool_changed : ServerPool → ℤ → ℤ → Bool → World H → World H
  unfolding adopt_in emit_if_usable after_event release_reported
  pool_changed type number id deleted w =
      let k = from_server_pool type in
      after_event (λ w'. if deleted then release_reported k id w' else w')
        (emit_if_usable entity_pool_change
          (plain (integer number) ∷ plain (integer id) ∷ plain (boolean deleted) ∷ [])
          (if deleted then w else adopt_in k id w))

  -- The pool is given as a kind and as the number that the event reports.
  unfoldable pub on_entity_pool_change : ServerPool → ℤ → ℤ → ℕ → World H → World H
  unfolding pool_changed
  on_entity_pool_change type number id is_deleted w =
      after_callback p (if live w then pool_changed type number id (not (is_deleted == 0)) w else w)

-- A call of the server that may arrive inside a binding.
pub data ServerCall : Type 0 where
  event_call : Callback → ServerCall
  connect_call : ℤ → ServerCall
  disconnect_call : ℤ → ℤ → ServerCall
  pool_call : ServerPool → ℤ → ℤ → ℕ → ServerCall
  shutdown_call : ServerCall

module _ {H : Type 0} (p : Plugin H) where
  unfoldable pub serve : ServerCall → World H → World H
  serve (event_call c) w = (on_callback p c w).1
  serve (connect_call id) w = on_player_connect p id w
  serve (disconnect_call id reason) w = on_player_disconnect p id reason w
  serve (pool_call type number id deleted) w = on_entity_pool_change p type number id deleted w
  serve shutdown_call w = on_server_shutdown p w
