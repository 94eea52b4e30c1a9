-- ===== src/Entity/History/Independence.antt =====
-- A pool is its slots side by side: every call acts on one slot as `slot_step` says, and leaves
-- the size of the pool and its traits alone.
use vcmp_lua.Prelude.{
  length-set, length, ℕ, suc, ◌≡◌, refl, ℤ, eq_ℤ, eq_of_eq_ℤ, ap, true, false, arith, Bool-cases,
  inl, inr, none, List, [], ◌∷◌, map, get_or, zero,
}
use vcmp_lua.Entity.{
  slot_index, some, Object, String, release_refs, close, is_valid, require, data_of,
  mark_created_by_us, push, set_data, set_tag, EntityPool, SlotData, slot, set_slot, in_range,
  next_generation, adopt, release, drop_refs, is_alive, empty_slot,
}
use vcmp_lua.Entity.Slots.{IsSized, slot-set_slot}
use vcmp_lua.Entity.History.{
  closes, releases_refs, reads_data, sets_data, sets_tag, PoolOp, after, after_data, pushes, marks,
  step, adopts, releases, slot_step,
}

get_or-map_drop :
    (xs : List SlotData) (i : ℕ)
    → get_or (map drop_refs xs) i empty_slot ≡ drop_refs (get_or xs i empty_slot)
get_or-map_drop [] i = refl
get_or-map_drop (x ∷ xs) zero = refl
get_or-map_drop (x ∷ xs) (suc i) = get_or-map_drop xs i

-- Ids out of range are never alive, so a call on one of them writes nothing.
same_range :
    (p : EntityPool) (j id : ℤ) → in_range p j ≡ false → in_range p id ≡ true → eq_ℤ j id ≡ false
same_range p j id h k = elim (Bool-cases (eq_ℤ j id)) [ inl e ↦ cc (eq_of_eq_ℤ j id e) | inr e ↦ e ]

same_slot : (p : EntityPool) (j id : ℤ) → eq_ℤ j id ≡ true → slot p j ≡ slot p id
same_slot p j id e = ap (slot p) (eq_of_eq_ℤ j id e)

module _ (p : EntityPool) (id : ℤ) (z : IsSized p) (k : in_range p id ≡ true) where
  slot-adopt : (j : ℤ) → slot (adopt p j) id ≡ slot_step p.closed id (adopts j) (slot p id)
  unfolding adopt slot_step
  slot-adopt j =
      let s = slot p j in
      let s' : SlotData = record s {
        alive = true;
        created_by_us = false;
        generation = next_generation s.generation;
      } in
      ground (arith, slot-set_slot p j id s' z, same_slot p j id, same_range p j id, k)

  slot-release : (j : ℤ) → slot (release p j) id ≡ slot_step p.closed id (releases j) (slot p id)
  unfolding release slot_step is_alive
  slot-release j =
      let s = slot p j in
      let s' : SlotData = record s {
        alive = false;
        created_by_us = false;
        handle = none;
        table = none;
        tag = "";
      } in
      ground (arith, slot-set_slot p j id s' z, same_slot p j id, same_range p j id, k)

  slot-mark :
      (j : ℤ) → slot (mark_created_by_us p j) id ≡ slot_step p.closed id (marks j) (slot p id)
  unfolding mark_created_by_us slot_step is_alive
  slot-mark j =
      let s' : SlotData = record (slot p j) { created_by_us = true } in
      ground (arith, slot-set_slot p j id s' z, same_slot p j id, same_range p j id, k)

  slot-push :
      (j : ℤ) (g : ℕ) (o : Object)
      → slot (push p j g o).0 id ≡ slot_step p.closed id (pushes j g o) (slot p id)
  unfolding push slot_step is_valid is_alive
  slot-push j g o =
      let s' : SlotData = record (slot p j) { handle = some o } in
      ground (arith, slot-set_slot p j id s' z, same_slot p j id, same_range p j id, k)

  slot-data_of :
      (j : ℤ) (g : ℕ) (o : Object)
      → slot (after_data p (data_of p j g o)) id
        ≡ slot_step p.closed id (reads_data j g o) (slot p id)
  unfolding data_of require slot_step is_valid is_alive
  slot-data_of j g o =
      let s' : SlotData = record (slot p j) { table = some o } in
      ground (arith, slot-set_slot p j id s' z, same_slot p j id, same_range p j id, k)

  slot-set_data :
      (j : ℤ) (g : ℕ) (o : Object)
      → slot (after p (set_data p j g o)) id ≡ slot_step p.closed id (sets_data j g o) (slot p id)
  unfolding set_data require slot_step is_valid is_alive
  slot-set_data j g o =
      let s' : SlotData = record (slot p j) { table = some o } in
      ground (arith, slot-set_slot p j id s' z, same_slot p j id, same_range p j id, k)

  slot-set_tag :
      (j : ℤ) (g : ℕ) (t : String)
      → slot (after p (set_tag p j g t)) id ≡ slot_step p.closed id (sets_tag j g t) (slot p id)
  unfolding set_tag require slot_step is_valid is_alive
  slot-set_tag j g t =
      let s' : SlotData = record (slot p j) { tag = t } in
      ground (arith, slot-set_slot p j id s' z, same_slot p j id, same_range p j id, k)

  -- In a pool whose vector has the size of its traits, every call acts on the slot of an id in
  -- range as the machine of that one slot does, so calls on other ids leave it alone.
  pub slot-step : (op : PoolOp) → slot (step p op) id ≡ slot_step p.closed id op (slot p id)
  unfolding step slot_step close release_refs slot
  slot-step (adopts j) = slot-adopt j
  slot-step (releases j) = slot-release j
  slot-step (marks j) = slot-mark j
  slot-step (pushes j g o) = slot-push j g o
  slot-step (reads_data j g o) = slot-data_of j g o
  slot-step (sets_data j g o) = slot-set_data j g o
  slot-step (sets_tag j g t) = slot-set_tag j g t
  slot-step closes = refl
  slot-step releases_refs = get_or-map_drop p.slots (slot_index p id)

length-map_drop : (xs : List SlotData) → length (map drop_refs xs) ≡ length xs
length-map_drop [] = refl
length-map_drop (x ∷ xs) = ap suc (length-map_drop xs)

-- No call moves or resizes the pool.
pub record SameShape (p q : EntityPool) : Type 0 where
  pub traits : q.traits ≡ p.traits
  pub size : length q.slots ≡ length p.slots

size-set_slot :
    (p : EntityPool) (j : ℤ) (s : SlotData) → length (set_slot p j s).slots ≡ length p.slots
unfolding set_slot
size-set_slot p j s = length-set p.slots (slot_index p j) s

traits-set_slot : (p : EntityPool) (j : ℤ) (s : SlotData) → (set_slot p j s).traits ≡ p.traits
unfolding set_slot
traits-set_slot p j s = refl

pub step-SameShape : (p : EntityPool) (op : PoolOp) → SameShape p (step p op)
unfolding step adopt release mark_created_by_us push data_of set_data set_tag close release_refs
    require
step-SameShape p releases_refs = record { traits = refl; size = length-map_drop p.slots }
step-SameShape p op = grind (arith, size-set_slot, traits-set_slot)

pub in_range-step :
    (p : EntityPool) (op : PoolOp) (id : ℤ) → in_range (step p op) id ≡ in_range p id
unfolding in_range
in_range-step p op id = ground (arith, (step-SameShape p op).traits)

pub step-IsSized : (p : EntityPool) (op : PoolOp) → IsSized p → IsSized (step p op)
step-IsSized p op z = ground (arith, step-SameShape p op)
