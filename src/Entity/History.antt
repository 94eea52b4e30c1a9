-- ===== src/Entity/History.antt =====
-- Histories of calls on one EntityPool, and what a call does to a single slot.
pub mod Independence
pub mod Invariant
pub mod Generations
pub mod Handles
use vcmp_lua.Prelude.{
  ℕ, suc, ◌+◌, ◌-◌, ◌≤◌, ◌<◌, ◌≡◌, refl, ℤ, eq_ℤ, eq_of_eq_ℤ, String, Bool, true, false, ◌&&◌, ◌||◌,
  not, arith, if◌then◌else◌, Bool-cases, inl, inr, ◌==◌, Option, none, some, List, [], ◌∷◌, Result,
  ok, err,
}
use vcmp_lua.Entity.{
  EntityPool, SlotData, Object, PoolError, slot, in_range, next_generation, adopt, release,
  mark_created_by_us, push, data_of, set_data, set_tag, close, release_refs, drop_refs, is_valid,
  is_alive, require,
}
use vcmp_lua.Entity.Slots.{IsSized, set_slot-IsSized, slot-set_slot}

pub data PoolOp : Type 0 where
  adopts releases marks : ℤ → PoolOp
  pushes reads_data sets_data : ℤ → ℕ → Object → PoolOp
  sets_tag : ℤ → ℕ → String → PoolOp
  closes releases_refs : PoolOp

-- A call that throws leaves the pool as it was.
abbrev pub after : EntityPool → Result PoolError EntityPool → EntityPool
after p (ok q) = q
after p (err e) = p

abbrev pub after_data : EntityPool → Result PoolError (EntityPool × Object) → EntityPool
after_data p (ok (q, o)) = q
after_data p (err e) = p

unfoldable pub step : EntityPool → PoolOp → EntityPool
step p (adopts id) = adopt p id
step p (releases id) = release p id
step p (marks id) = mark_created_by_us p id
step p (pushes id g fresh) = (push p id g fresh).0
step p (reads_data id g fresh) = after_data p (data_of p id g fresh)
step p (sets_data id g t) = after p (set_data p id g t)
step p (sets_tag id g t) = after p (set_tag p id g t)
step p closes = close p
step p releases_refs = release_refs p

unfoldable pub run : EntityPool → List PoolOp → EntityPool
run p [] = p
run p (op ∷ ops) = run (step p op) ops

abbrev pub or_fresh : Option Object → Object → Option Object
or_fresh none fresh = some fresh
or_fresh (some o) fresh = some o

-- Whether a call with a handle reaches the entity.
abbrev pub reaches : Bool → ℕ → SlotData → Bool
reaches closed g s = not closed && (s.alive && s.generation == g)

-- One slot as a machine of its own: the calls on other ids do not touch it.
unfoldable pub slot_step : Bool → ℤ → PoolOp → SlotData → SlotData
slot_step closed id (adopts j) s =
    if eq_ℤ j id && not s.alive
    then record s { alive = true; created_by_us = false; generation = next_generation s.generation }
    else s
slot_step closed id (releases j) s =
    if eq_ℤ j id && s.alive
    then record s { alive = false; created_by_us = false; handle = none; table = none; tag = "" }
    else s
slot_step closed id (marks j) s =
    if eq_ℤ j id && s.alive then record s { created_by_us = true } else s
slot_step closed id (pushes j g fresh) s =
    if eq_ℤ j id && reaches closed g s then record s { handle = or_fresh s.handle fresh } else s
slot_step closed id (reads_data j g fresh) s =
    if eq_ℤ j id && reaches closed g s then record s { table = or_fresh s.table fresh } else s
slot_step closed id (sets_data j g t) s =
    if eq_ℤ j id && reaches closed g s then record s { table = some t } else s
slot_step closed id (sets_tag j g t) s =
    if eq_ℤ j id && reaches closed g s then record s { tag = t } else s
slot_step closed id closes s = s
slot_step closed id releases_refs s = drop_refs s
