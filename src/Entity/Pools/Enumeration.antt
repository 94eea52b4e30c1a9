-- ===== src/Entity/Pools/Enumeration.antt =====
-- `Enumerate`: which entities are alive after it.
use vcmp_lua.Entity.History.Independence.{in_range-step, slot-step, step-SameShape}
use vcmp_lua.Entity.History.{adopts, slot_step, step}
use vcmp_lua.Prelude.{
  refl, ◌-◌, ◌≤◌, eq_of_eq_ℤ, none, inr, inl, Bool-cases, negsuc, arith, if◌then◌else◌, ◌⊎◌, zero,
  suc, ◌+◌, some, ◌&&◌, ◌≡◌,
}
use vcmp_lua.Entity.Slots.{IsSized}
use vcmp_lua.Entity.Pools.{
  KeyBindData, EntityPools, with_pool, adopt_where, enumerate, blips, checkpoints, pickups, objects,
  vehicles, key_bind_exists, eq_ℤ, ServerPool, ServerPools, adopt_from,
}
use vcmp_lua.Entity.{
  blip, checkpoint, pickup, object, vehicle, bind, player, next_generation, SlotData, ltb_ℤ, slot,
  false, pos, true, in_range, leb_ℤ, traits_of, Bool, Option, adopt, EntityKind, ℕ, ℤ, EntityPool,
}

-- Whether the server has the entity, as `Enumerate` asks it for the kind.
abbrev pub pool_has : ServerPools → Option ServerPool → ℤ → Bool
pool_has api none id = false
pool_has api (some server_pool) id = elim api.check_entity_exists [
  | none ↦ false
  | some exists ↦ exists server_pool id
]

unfoldable pub on_server : ServerPools → EntityKind → ℤ → Bool
on_server api player id = elim api.is_player_connected [
  | none ↦ false
  | some is_connected ↦ is_connected id
]
on_server api bind id = key_bind_exists api id
on_server api vehicle id = pool_has api (some vehicles) id
on_server api object id = pool_has api (some objects) id
on_server api pickup id = pool_has api (some pickups) id
on_server api checkpoint id = pool_has api (some checkpoints) id
on_server api blip id = pool_has api (some blips) id

-- The pool of the kind as the constructor sizes it.
abbrev pub IsOfKind : EntityKind → EntityPool → Type 0
IsOfKind k p = (p.traits ≡ traits_of k) × IsSized p

adopt-IsOfKind : (k : EntityKind) (p : EntityPool) (id : ℤ) → IsOfKind k p → IsOfKind k (adopt p id)
unfolding step
adopt-IsOfKind k p id h = ground (arith, step-SameShape p (adopts id))

-- What `Adopt` makes of a slot.
abbrev pub adopted : SlotData → SlotData
adopted s =
    if s.alive
    then s
    else record s { alive = true; created_by_us = false; generation = next_generation s.generation }

slot-adopt :
    (p : EntityPool) (j id : ℤ)
    → IsSized p
    → in_range p id ≡ true
    → slot (adopt p j) id ≡ (if eq_ℤ j id then adopted (slot p id) else slot p id)
unfolding step slot_step
slot-adopt p j id z k = ground (arith, slot-step p id z k (adopts j))

-- Whether the loop reaches the id.
abbrev pub within : ℕ → ℕ → ℤ → Bool
within n i id = leb_ℤ (pos i) id && ltb_ℤ id (pos (i + n))

pub within_zero : (i : ℕ) (id : ℤ) → within 0 i id ≡ false
within_zero i id = ground arith

pub within-suc :
    (n i : ℕ) (id : ℤ)
    → ((eq_ℤ (pos i) id ≡ true) × (within (suc n) i id ≡ true) × (within n (i + 1) id ≡ false))
      ⊎ ((eq_ℤ (pos i) id ≡ false) × (within (suc n) i id ≡ within n (i + 1) id))
within-suc n i (pos m) = ground arith
within-suc n i (negsuc m) = ground arith

slot-adopt_from :
    (test : ℤ → Bool) (n i : ℕ) (k : EntityKind) (p : EntityPool) (id : ℤ)
    → IsOfKind k p
    → in_range p id ≡ true
    → slot (adopt_from test n i p) id
      ≡ (if within n i id && test id then adopted (slot p id) else slot p id)
unfolding adopt_from step
slot-adopt_from test zero i k p id v r = rw within_zero
slot-adopt_from test (suc n) i k p id v r = elim (Bool-cases (test (pos i))) [
  | inl t ↦ rw t (
      ground (
        arith,
        slot-adopt_from test n (i + 1) k (adopt p (pos i)) id (adopt-IsOfKind k p (pos i) v)
            (rw (in_range-step p (adopts (pos i)) id) r),
        slot-adopt p (pos i) id v.1 r,
        within-suc n i id,
        eq_of_eq_ℤ (pos i) id,
      ))
  | inr t ↦ rw t (
      ground (
        arith,
        slot-adopt_from test n (i + 1) k p id v r,
        within-suc n i id,
        eq_of_eq_ℤ (pos i) id,
      ))
]

-- Where the loop over the kind starts: at 0 for players and binds.
abbrev loop_start : EntityKind → ℕ
loop_start player = 0
loop_start bind = 0
loop_start k = (traits_of k).first_id

loop_start-le : (k : EntityKind) → loop_start k ≤ (traits_of k).first_id
unfolding traits_of
loop_start-le player = omega arith
loop_start-le _ = omega arith

loop_within :
    (k : EntityKind) (p : EntityPool) (id : ℤ)
    → IsOfKind k p
    → in_range p id ≡ true
    → within ((traits_of k).capacity - loop_start k) (loop_start k) id ≡ true
unfolding in_range
loop_within k p (pos m) v r = ground (arith, loop_start-le k)
loop_within k p (negsuc m) v r = ground (arith, loop_start-le k)

-- One loop of `Enumerate` over its own kind.
slot-loop :
    (k : EntityKind) (test : ℤ → Bool) (p : EntityPool) (id : ℤ)
    → IsOfKind k p
    → in_range p id ≡ true
    → slot (adopt_from test ((traits_of k).capacity - loop_start k) (loop_start k) p) id
      ≡ (if test id then adopted (slot p id) else slot p id)
slot-loop k test p id v r =
    rw (slot-adopt_from test ((traits_of k).capacity - loop_start k) (loop_start k) k p id v r)
      (ground (arith, loop_within k p id v r))

module _ (has_delete : EntityKind → Bool)
    (reports : EntityKind → ℤ → EntityPools → EntityPools) where
  abbrev server :
      Option (ℤ → Bool) → Option (ℤ → KeyBindData) → Option (ServerPool → ℤ → Bool) → ServerPools
  server c b e = record {
    is_player_connected = c;
    get_key_bind_data = b;
    check_entity_exists = e;
    has_delete = has_delete;
    reports = reports;
  }

  slot-enumerate-server :
      (c : Option (ℤ → Bool)) (b : Option (ℤ → KeyBindData)) (e : Option (ServerPool → ℤ → Bool))
      (ps : EntityPools) (k : EntityKind) (id : ℤ)
      → IsOfKind k (ps.get k)
      → in_range (ps.get k) id ≡ true
      → slot ((enumerate (server c b e) ps).get k) id ≡ (
          if on_server (server c b e) k id
          then adopted (slot (ps.get k) id)
          else slot (ps.get k) id)
  unfolding enumerate adopt_where with_pool on_server key_bind_exists
  slot-enumerate-server none none none ps player id v r = refl
  slot-enumerate-server c b e ps k id v r =
      ground (arith, slot-loop k (on_server (server c b e) k) (ps.get k) id v r)

-- Enumerate adopts, in a pool of the right kind and range, exactly the entities that the server
-- has, and leaves the other slots and the live ones as they were.
pub slot-enumerate :
    (api : ServerPools) (ps : EntityPools) (k : EntityKind) (id : ℤ)
    → IsOfKind k (ps.get k)
    → in_range (ps.get k) id ≡ true
    → slot ((enumerate api ps).get k) id
      ≡ (if on_server api k id then adopted (slot (ps.get k) id) else slot (ps.get k) id)
slot-enumerate api =
    slot-enumerate-server api.has_delete api.reports api.is_player_connected api.get_key_bind_data
      api.check_entity_exists
