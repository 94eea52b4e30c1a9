-- ===== src/Entity/Pools.antt =====
-- src/core/entity_pool.hpp and entity_pool.cpp, class EntityPools: one pool per kind, and the
-- calls on all of them that talk to the server.
-- The server is the parameter `ServerPools`: a function that its version lacks is `none`, and
-- `reports` is what the server's callbacks do to the pools while a deletion runs.
pub mod Enumeration
pub mod Removal
pub mod Deletions
use vcmp_lua.Prelude.{◌++◌, eq_ℤ, ◌||◌, ◌&&◌, zero, ◌+◌, ◌-◌, suc, ◌==◌, ◌∷◌, if◌then◌else◌}
use vcmp_lua.Entity.{
  not, false, bind, none, blip, adopt, checkpoint, pickup, pos, created_by_us, object, player,
  release, some, traits_of, vehicle, ◌∷◌, Bool, List, Option, [], close, new, release_refs, ℕ, ℤ,
  EntityKind, EntityPool,
}

-- `static_cast<std::size_t>(kind)`.
abbrev pub kind_index : EntityKind → ℕ
kind_index player = 0
kind_index vehicle = 1
kind_index object = 2
kind_index pickup = 3
kind_index checkpoint = 4
kind_index blip = 5
kind_index bind = 6

-- `std::array<EntityPool, kEntityKindCount>`, by kind.
pub record EntityPools : Type 0 where
  pub get : EntityKind → EntityPool

unfoldable pub new_pools : EntityPools
new_pools = record { get = new }

-- What a call on `Get(kind)` leaves.
unfoldable pub with_pool : EntityPools → EntityKind → EntityPool → EntityPools
with_pool ps k p = record { get = λ j. if kind_index k == kind_index j then p else ps.get j }

-- vcmpEntityPool; `other_pool` is any other value (radios, players, reserved).
pub data ServerPool : Type 0 where
  vehicles objects pickups blips checkpoints : ServerPool
  other_pool : ℕ → ServerPool

unfoldable pub from_server_pool : ServerPool → Option EntityKind
from_server_pool vehicles = some vehicle
from_server_pool objects = some object
from_server_pool pickups = some pickup
from_server_pool checkpoints = some checkpoint
from_server_pool blips = some blip
from_server_pool (other_pool n) = none

-- What GetKeyBindData writes, with whether it returned vcmpErrorNone.
pub record KeyBindData : Type 0 where
  pub succeeded : Bool
  pub key0 : ℤ
  pub key1 : ℤ
  pub key2 : ℤ

pub record ServerPools : Type 0 where
  pub is_player_connected : Option (ℤ → Bool)
  pub get_key_bind_data : Option (ℤ → KeyBindData)
  pub check_entity_exists : Option (ServerPool → ℤ → Bool)
  -- DeleteVehicle, DeleteObject, DeletePickup, DeleteCheckPoint, DestroyCoordBlip and, for a bind,
  -- RemoveKeyBind.
  pub has_delete : EntityKind → Bool
  pub reports : EntityKind → ℤ → EntityPools → EntityPools

unfoldable pub key_bind_exists : ServerPools → ℤ → Bool
key_bind_exists api id = elim api.get_key_bind_data [
  | none ↦ false
  | some bind_data ↦
      (bind_data id).succeeded
      && (not (eq_ℤ (bind_data id).key0 (pos 0))
          || not (eq_ℤ (bind_data id).key1 (pos 0))
          || not (eq_ℤ (bind_data id).key2 (pos 0)))
]

-- kServerPools.
abbrev pub server_pools : List (EntityKind × ServerPool)
server_pools =
    (vehicle, vehicles)
    ∷ (object, objects)
    ∷ (pickup, pickups)
    ∷ (checkpoint, checkpoints)
    ∷ (blip, blips)
    ∷ []

-- `for (id = i; id < i + n; ++id) if (test(id)) pool.Adopt(id)`.
pub adopt_from : (ℤ → Bool) → ℕ → ℕ → EntityPool → EntityPool
adopt_from test zero i p = p
adopt_from test (suc n) i p =
    adopt_from test n (i + 1) (if test (pos i) then adopt p (pos i) else p)

-- The loop of `Enumerate` over one kind, from `first` to the capacity of the kind.
unfoldable pub adopt_where : EntityKind → ℕ → (ℤ → Bool) → EntityPools → EntityPools
unfolding adopt_from
adopt_where k first test ps =
    with_pool ps k (adopt_from test ((traits_of k).capacity - first) first (ps.get k))

adopt_server_pools :
    (ServerPool → ℤ → Bool) → List (EntityKind × ServerPool) → EntityPools → EntityPools
adopt_server_pools exists [] ps = ps
adopt_server_pools exists ((k, server_pool) ∷ rest) ps =
    adopt_server_pools exists rest (adopt_where k (traits_of k).first_id (exists server_pool) ps)

enumerate_players : ServerPools → EntityPools → EntityPools
enumerate_players api ps = elim api.is_player_connected [
  | none ↦ ps
  | some is_connected ↦ adopt_where player 0 is_connected ps
]

enumerate_binds : ServerPools → EntityPools → EntityPools
enumerate_binds api ps = elim api.get_key_bind_data [
  | none ↦ ps
  | some _ ↦ adopt_where bind 0 (key_bind_exists api) ps
]

unfoldable pub enumerate : ServerPools → EntityPools → EntityPools
unfolding adopt_server_pools enumerate_players enumerate_binds
enumerate api ps =
    let ps' = enumerate_binds api (enumerate_players api ps) in
    elim api.check_entity_exists [
      | none ↦ ps'
      | some exists ↦ adopt_server_pools exists server_pools ps'
    ]

-- The pools during `DeleteCreated`, and the server calls that it has made, in order.
pub record Deletion : Type 0 where
  pub pools : EntityPools
  pub calls : List (EntityKind × ℤ)

-- `delete_one(kind, id)`, or RemoveKeyBind for a bind.
delete_one : ServerPools → EntityKind → ℤ → Deletion → Deletion
delete_one api k id d =
    if api.has_delete k
    then record { pools = api.reports k id d.pools; calls = d.calls ++ (k, id) ∷ [] }
    else d

release_in : EntityKind → ℤ → Deletion → Deletion
release_in k id d = record d { pools = with_pool d.pools k (release (d.pools.get k) id) }

pub delete_ids : ServerPools → EntityKind → List ℤ → Deletion → Deletion
unfolding delete_one release_in
delete_ids api k [] d = d
delete_ids api k (id ∷ ids) d = delete_ids api k ids (release_in k id (delete_one api k id d))

delete_kinds : ServerPools → List EntityKind → Deletion → Deletion
delete_kinds api [] d = d
delete_kinds api (k ∷ ks) d =
    delete_kinds api ks (delete_ids api k (created_by_us (d.pools.get k)) d)

-- The kinds in the order of `DeleteCreated`: kServerPools, then the binds.
abbrev pub deleted_kinds : List EntityKind
deleted_kinds = vehicle ∷ object ∷ pickup ∷ checkpoint ∷ blip ∷ bind ∷ []

abbrev pub start : EntityPools → Deletion
start ps = record { pools = ps; calls = [] }

unfoldable pub delete_created : ServerPools → EntityPools → Deletion
unfolding delete_kinds delete_ids
delete_created api ps = delete_kinds api deleted_kinds (start ps)

unfoldable pub close_pools : EntityPools → EntityPools
close_pools ps = record { get = λ k. close (ps.get k) }

unfoldable pub release_pools_refs : EntityPools → EntityPools
release_pools_refs ps = record { get = λ k. release_refs (ps.get k) }
