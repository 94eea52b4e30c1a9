-- ===== src/Entity.antt =====
-- src/core/entity_pool.hpp and entity_pool.cpp, class EntityPool: one kind's slots.
-- An int32 id is an integer; a generation is a number below 2^32; a Lua object that the pool
-- refers to (a handle or a data table) is a number, and none is an empty reference. The object
-- that `Push` or `Data` has to make is the argument `fresh`. Log lines are not modelled.
pub mod Slots
pub mod History
pub mod Pools
use vcmp_lua.Prelude.{
  ℕ, zero, suc, ◌+◌, ◌-◌, ◌^◌, ◌%◌, String, ℤ, pos, negsuc, pos_part, ltb_ℤ, leb_ℤ, Bool, true,
  false, ◌&&◌, ◌||◌, not, Option, none, some, List, [], ◌∷◌, ◌==◌, if◌then◌else◌, get_or, set,
  replicate, map, Result, ok, err, ◌>>◌,
}

pub data EntityKind : Type 0 where
  player vehicle object pickup checkpoint blip bind : EntityKind

pub record EntityTraits : Type 0 where
  pub name : String
  pub type_name : String
  pub first_id : ℕ
  pub capacity : ℕ

-- kTraits.
unfoldable pub traits_of : EntityKind → EntityTraits
traits_of player = record { name = "player"; type_name = "Player"; first_id = 0; capacity = 100 }
traits_of vehicle = record {
  name = "vehicle";
  type_name = "Vehicle";
  first_id = 1;
  capacity = 1001;
}
traits_of object = record { name = "object"; type_name = "Object"; first_id = 0; capacity = 3000 }
traits_of pickup = record { name = "pickup"; type_name = "Pickup"; first_id = 0; capacity = 2000 }
traits_of checkpoint = record {
  name = "checkpoint";
  type_name = "Checkpoint";
  first_id = 0;
  capacity = 2000;
}
traits_of blip = record { name = "blip"; type_name = "Blip"; first_id = 0; capacity = 100 }
traits_of bind = record { name = "bind"; type_name = "Bind"; first_id = 0; capacity = 256 }

abbrev pub Object : Type 0
Object = ℕ

pub record SlotData : Type 0 where
  pub alive : Bool
  pub created_by_us : Bool
  pub generation : ℕ
  pub handle : Option Object
  pub table : Option Object
  pub tag : String

abbrev pub empty_slot : SlotData
empty_slot = record {
  alive = false;
  created_by_us = false;
  generation = 0;
  handle = none;
  table = none;
  tag = "";
}

pub record EntityPool : Type 0 where
  pub kind : EntityKind
  pub traits : EntityTraits
  pub slots : List SlotData
  pub closed : Bool

-- EntityRef<K>, and what `EntityRef<K>{}` holds.
pub record EntityRef : Type 0 where
  pub id : ℤ
  pub generation : ℕ

abbrev pub no_ref : EntityRef
no_ref = record { id = negsuc 0; generation = 0 }

pub data PoolError : Type 0 where
  shutting_down : PoolError
  no_longer_exists : String → PoolError

-- The constructor.
unfoldable pub new : EntityKind → EntityPool
unfolding traits_of
new k = record {
  kind = k;
  traits = traits_of k;
  slots = replicate ((traits_of k).capacity - (traits_of k).first_id) empty_slot;
  closed = false;
}

unfoldable pub in_range : EntityPool → ℤ → Bool
in_range p id = leb_ℤ (pos p.traits.first_id) id && ltb_ℤ id (pos p.traits.capacity)

-- `id - traits_.first_id`, asked only for an id in range.
abbrev pub slot_index : EntityPool → ℤ → ℕ
slot_index p id = pos_part id - p.traits.first_id

unfoldable pub slot : EntityPool → ℤ → SlotData
slot p id = get_or p.slots (slot_index p id) empty_slot

-- What a write through `SlotData&` does.
unfoldable pub set_slot : EntityPool → ℤ → SlotData → EntityPool
set_slot p id s = record p { slots = set p.slots (slot_index p id) s }

unfoldable pub is_alive : EntityPool → ℤ → Bool
is_alive p id = in_range p id && (slot p id).alive

unfoldable pub is_valid : EntityPool → ℤ → ℕ → Bool
is_valid p id generation = is_alive p id && (slot p id).generation == generation

-- `++slot.generation` on a uint32_t.
abbrev pub next_generation : ℕ → ℕ
next_generation g = (g + 1) % 2 ^ 32

unfoldable pub adopt : EntityPool → ℤ → EntityPool
adopt p id =
    let s = slot p id in
    if not (in_range p id)
    then p
    else if s.alive
    then p
    else set_slot p id (record s {
      alive = true;
      created_by_us = false;
      generation = next_generation s.generation;
    })

unfoldable pub release : EntityPool → ℤ → EntityPool
release p id =
    if not (is_alive p id)
    then p
    else set_slot p id (record (slot p id) {
      alive = false;
      created_by_us = false;
      handle = none;
      table = none;
      tag = "";
    })

unfoldable pub ref : EntityPool → ℤ → EntityRef
ref p id =
    if not (is_alive p id) then no_ref else record { id = id; generation = (slot p id).generation }

unfoldable pub seen : EntityPool → ℤ → EntityPool × EntityRef
seen p id = let q = adopt p id in (q, ref q id)

unfoldable pub mark_created_by_us : EntityPool → ℤ → EntityPool
mark_created_by_us p id =
    if is_alive p id then set_slot p id (record (slot p id) { created_by_us = true }) else p

-- `for (id = first; id < first + n; ++id) if (test(id)) ids.push_back(id)`.
unfoldable pub ids_from : (ℤ → Bool) → ℕ → ℕ → List ℤ
ids_from test zero i = []
ids_from test (suc n) i =
    let rest = ids_from test n (i + 1) in if test (pos i) then pos i ∷ rest else rest

abbrev pub pool_ids : EntityPool → (ℤ → Bool) → List ℤ
pool_ids p test = ids_from test (p.traits.capacity - p.traits.first_id) p.traits.first_id

unfoldable pub created_by_us : EntityPool → List ℤ
created_by_us p = pool_ids p (λ id. (slot p id).alive && (slot p id).created_by_us)

unfoldable pub alive_ids : EntityPool → List ℤ
alive_ids p = pool_ids p (λ id. (slot p id).alive)

unfoldable pub require : EntityPool → ℤ → ℕ → Result PoolError (Unit {0})
require p id generation =
    if p.closed
    then err shutting_down
    else if not (is_valid p id generation)
    then err (no_longer_exists p.traits.name)
    else ok tt

-- The pushed value, nil as `none`.
unfoldable pub push : EntityPool → ℤ → ℕ → Object → EntityPool × Option Object
push p id generation fresh =
    if p.closed || not (is_valid p id generation) then (p, none) else elim (slot p id).handle [
      | none ↦ (set_slot p id (record (slot p id) { handle = some fresh }), some fresh)
      | some o ↦ (p, some o)
    ]

unfoldable pub data_of : EntityPool → ℤ → ℕ → Object → Result PoolError (EntityPool × Object)
data_of p id generation fresh = do
  require p id generation
  elim (slot p id).table [
    | none ↦ ok (set_slot p id (record (slot p id) { table = some fresh }), fresh)
    | some o ↦ ok (p, o)
  ]

unfoldable pub set_data : EntityPool → ℤ → ℕ → Object → Result PoolError EntityPool
set_data p id generation t = do
  require p id generation
  ok (set_slot p id (record (slot p id) { table = some t }))

unfoldable pub tag_of : EntityPool → ℤ → ℕ → Result PoolError String
tag_of p id generation = do require p id generation; ok (slot p id).tag

unfoldable pub set_tag : EntityPool → ℤ → ℕ → String → Result PoolError EntityPool
set_tag p id generation t = do
  require p id generation
  ok (set_slot p id (record (slot p id) { tag = t }))

unfoldable pub close : EntityPool → EntityPool
close p = record p { closed = true }

abbrev pub drop_refs : SlotData → SlotData
drop_refs s = record s { handle = none; table = none }

unfoldable pub release_refs : EntityPool → EntityPool
release_refs p = record p { slots = map drop_refs p.slots }
