-- ===== src/Examples/Pools.antt =====
-- The theorems on all entity pools at concrete inputs.
use vcmp_lua.Entity.History.Invariant.{new-IsValid}
use vcmp_lua.Entity.Pools.Deletions.{calls-delete_created, deletions}
use vcmp_lua.Entity.Pools.Enumeration.{slot-enumerate, adopted, on_server, IsOfKind}
use vcmp_lua.Entity.Pools.Removal.{slot-delete_created, released, ReportsDeletion}
use vcmp_lua.Entity.Pools.{enumerate, ServerPools, delete_created, new_pools}
use vcmp_lua.Entity.{
  bind, checkpoint, pickup, object, vehicle, traits_of, EntityKind, in_range, player, blip, slot,
}
use vcmp_lua.Prelude.{[], ◌∷◌, ◌≢◌, if◌then◌else◌, none, eq_ℤ, pos, refl, inl, some, true, ◌≡◌}
use vcmp_lua.Entity

-- A server with one player and no other function.
abbrev pub some_server : ServerPools
some_server = record {
  is_player_connected = some (λ id. eq_ℤ id (pos 0));
  get_key_bind_data = none;
  check_entity_exists = none;
  has_delete = λ k. true;
  reports = λ k id ps. ps;
}

some_reports : ReportsDeletion some_server
some_reports = record { reported = λ k id ps. inl refl }

new_IsOfKind : (k : EntityKind) → IsOfKind k (new_pools.get k)
unfolding new_pools Entity.new
new_IsOfKind k = (refl, (new-IsValid k).sized)

player_0 : in_range (new_pools.get player) (pos 0) ≡ true
unfolding new_pools Entity.new in_range traits_of
player_0 = refl

blip_0 : in_range (new_pools.get blip) (pos 0) ≡ true
unfolding new_pools Entity.new in_range traits_of
blip_0 = refl

slot-enumerate_example : slot ((enumerate some_server new_pools).get player) (pos 0) ≡ (
    if on_server some_server player (pos 0)
    then adopted (slot (new_pools.get player) (pos 0))
    else slot (new_pools.get player) (pos 0))
slot-enumerate_example =
    slot-enumerate some_server new_pools player (pos 0) (new_IsOfKind player) player_0

blip_ne : blip ≢ player
blip_ne = λ e. cc

slot-delete_created_example :
    slot ((delete_created some_server new_pools).pools.get blip) (pos 0) ≡ (
      if (slot (new_pools.get blip) (pos 0)).created_by_us
      then released (slot (new_pools.get blip) (pos 0))
      else slot (new_pools.get blip) (pos 0))
slot-delete_created_example =
    slot-delete_created some_server some_reports new_pools blip (pos 0) blip_ne (new_IsOfKind blip)
      blip_0

calls-delete_created_example :
    (delete_created some_server new_pools).calls
    ≡ deletions some_server new_pools (vehicle ∷ object ∷ pickup ∷ checkpoint ∷ blip ∷ bind ∷ [])
calls-delete_created_example = calls-delete_created some_server some_reports new_pools
