-- ===== src/Entity/Slots.antt =====
-- The slots of an EntityPool by id: an id in range has a slot of its own in `slots_`.
use vcmp_lua.Prelude.{
  ◌-◌, ◌≤◌, ◌<◌, ◌≡◌, refl, ℤ, pos, negsuc, eq_ℤ, eq_of_eq_ℤ, true, arith, if◌then◌else◌, length,
  length-set, get_or-set_self, get_or-set_ne, Bool-cases, inl, inr,
}
use vcmp_lua.Entity.{EntityPool, SlotData, slot, set_slot, in_range, slot_index, empty_slot}

-- `slots_` has a slot for each id of the pool.
abbrev pub IsSized : EntityPool → Type 0
IsSized p =
    (p.traits.first_id ≤ p.traits.capacity)
    × (length p.slots ≡ p.traits.capacity - p.traits.first_id)

pub set_slot-IsSized :
    (p : EntityPool) (id : ℤ) (s : SlotData) → IsSized p → IsSized (set_slot p id s)
unfolding set_slot
set_slot-IsSized p id s z = omega (arith, length-set p.slots (slot_index p id) s)

-- For an id in range, in a pool whose vector has the size of its traits, the index that Slot uses
-- lies within the vector.
pub slot_index-lt :
    (p : EntityPool) (id : ℤ) → IsSized p → in_range p id ≡ true → slot_index p id < length p.slots
unfolding in_range
slot_index-lt p (pos n) z h = ground arith
slot_index-lt p (negsuc n) z h = ground arith

slot_index_injective :
    (p : EntityPool) (i j : ℤ)
    → in_range p i ≡ true
    → in_range p j ≡ true
    → slot_index p i ≡ slot_index p j
    → eq_ℤ i j ≡ true
unfolding in_range
slot_index_injective p (pos m) (pos n) h k e = ground arith
slot_index_injective p (negsuc m) j h k e = ground arith
slot_index_injective p (pos m) (negsuc n) h k e = ground arith

-- A write to one slot is read back there, and nowhere else.
pub slot-set_slot :
    (p : EntityPool) (j id : ℤ) (s : SlotData)
    → IsSized p
    → in_range p j ≡ true
    → in_range p id ≡ true
    → slot (set_slot p j s) id ≡ (if eq_ℤ j id then s else slot p id)
unfolding slot set_slot
slot-set_slot p j id s z h k = elim (Bool-cases (eq_ℤ j id)) [
  | inl e ↦
      rw (e, eq_of_eq_ℤ j id e)
        (get_or-set_self p.slots (slot_index p id) s empty_slot (slot_index-lt p id z k))
  | inr e ↦ rw e (
      get_or-set_ne p.slots (slot_index p j) (slot_index p id) s empty_slot
        λ same. cc (slot_index_injective p j id h k same))
]

pub in_range-set_slot :
    (p : EntityPool) (j id : ℤ) (s : SlotData) → in_range (set_slot p j s) id ≡ in_range p id
unfolding in_range set_slot
in_range-set_slot p j id s = refl
