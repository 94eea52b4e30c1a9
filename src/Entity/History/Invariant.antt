-- ===== src/Entity/History/Invariant.antt =====
-- What holds of every slot between two calls, from the constructor on.
use vcmp_lua.Entity.History.Independence.{slot-step, in_range-step, step-IsSized}
use vcmp_lua.Entity.History.{adopts, arith, step, PoolOp, run, slot_step}
use vcmp_lua.Entity.Slots.{IsSized}
use vcmp_lua.Prelude.{[], length-replicate, zero, ◌^◌, suc, ◌-◌, ◌<◌, ◌≤◌, ℕ, ◌≡◌, refl}
use vcmp_lua.Entity.{
  player, slot_index, true, empty_slot, in_range, ◌∷◌, Bool, List, none, replicate, traits_of, ℤ,
  EntityKind, false, get_or, new, slot, EntityPool, SlotData,
}

-- A dead slot keeps nothing of the entity, and a generation fits in a uint32_t.
pub record IsClean (s : SlotData) : Type 0 where
  pub unmarked : s.alive ≡ false → s.created_by_us ≡ false
  pub handle_dropped : s.alive ≡ false → s.handle ≡ none
  pub table_dropped : s.alive ≡ false → s.table ≡ none
  pub tag_dropped : s.alive ≡ false → s.tag ≡ ""
  pub fits : s.generation < 2 ^ 32

pub record IsValid (p : EntityPool) : Type 0 where
  pub sized : IsSized p
  pub clean : (id : ℤ) → in_range p id ≡ true → IsClean (slot p id)

slot_step-IsClean :
    (closed : Bool) (id : ℤ) (op : PoolOp) (s : SlotData)
    → IsClean s
    → IsClean (slot_step closed id op s)
unfolding slot_step
slot_step-IsClean closed id (adopts j) s c = ground arith
slot_step-IsClean closed id op s c = ground arith

-- Every call keeps the pool valid, also one that throws.
pub step-IsValid : (p : EntityPool) (op : PoolOp) → IsValid p → IsValid (step p op)
step-IsValid p op v = record {
  sized = step-IsSized p op v.sized;
  clean = λ id h.
      let k : in_range p id ≡ true = rw (in_range-step p op id) at h in
      rw (slot-step p id v.sized k op)
        (slot_step-IsClean p.closed id op (slot p id) (v.clean id k));
}

pub run-IsValid : (p : EntityPool) (ops : List PoolOp) → IsValid p → IsValid (run p ops)
unfolding run
run-IsValid p [] v = v
run-IsValid p (op ∷ ops) v = run-IsValid (step p op) ops (step-IsValid p op v)

get_or-replicate : (n i : ℕ) → get_or (replicate n empty_slot) i empty_slot ≡ empty_slot
get_or-replicate zero i = refl
get_or-replicate (suc n) zero = refl
get_or-replicate (suc n) (suc i) = get_or-replicate n i

new-IsSized : (k : EntityKind) → IsSized (new k)
unfolding new
new-IsSized k = (ordered k, length-replicate _ _)
  where
    ordered : (k : EntityKind) → (traits_of k).first_id ≤ (traits_of k).capacity
    ordered player = omega arith
    ordered _ = omega arith

slot-new : (k : EntityKind) (id : ℤ) → slot (new k) id ≡ empty_slot
unfolding slot new
slot-new k id =
    get_or-replicate ((traits_of k).capacity - (traits_of k).first_id) (slot_index (new k) id)

pub new-IsValid : (k : EntityKind) → IsValid (new k)
new-IsValid k = record { sized = new-IsSized k; clean = λ id h. rw (slot-new k id) (ground arith) }

-- A pool is valid after any history of calls on a new pool: its vector has the size of its
-- traits, and dead slots hold no handle, table, tag or mark.
pub run-new-IsValid : (k : EntityKind) (ops : List PoolOp) → IsValid (run (new k) ops)
run-new-IsValid k ops = run-IsValid (new k) ops (new-IsValid k)
