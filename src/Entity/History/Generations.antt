-- ===== src/Entity/History/Generations.antt =====
-- Generations over a history: a handle to a dead entity against the lifetimes that its slot
-- starts later.
use vcmp_lua.Entity.History.Independence.{slot-step, in_range-step}
use vcmp_lua.Prelude.{[], eq_ℤ_refl, if◌then◌else◌, ◌%◌, ◌&&◌, ◌+◌, ◌^◌, ◌<◌, ◌≡◌}
use vcmp_lua.Entity.History.Invariant.{step-IsValid, IsValid}
use vcmp_lua.Entity.History.{
  releases, not, step, arith, slot, eq_ℤ, false, in_range, true, ◌∷◌, adopts, ℕ, Bool, List,
  SlotData, is_alive, EntityPool, is_valid, release, run, slot_step, ℤ, PoolOp,
}

-- Whether the call starts a new lifetime of the slot.
abbrev pub starts : ℤ → PoolOp → SlotData → Bool
starts id (adopts j) s = eq_ℤ j id && not s.alive
starts id _ s = false

-- How many lifetimes the history starts on the slot.
unfoldable pub lifetimes : EntityPool → ℤ → List PoolOp → ℕ
lifetimes p id [] = 0
lifetimes p id (op ∷ ops) =
    (if starts id op (slot p id) then 1 else 0) + lifetimes (step p op) id ops

slot_step-generation :
    (closed : Bool) (id : ℤ) (op : PoolOp) (s : SlotData)
    → s.generation < 2 ^ 32
    → (slot_step closed id op s).generation
      ≡ (s.generation + (if starts id op s then 1 else 0)) % 2 ^ 32
unfolding slot_step
slot_step-generation closed id (adopts j) s h = ground arith
slot_step-generation closed id _ s h = ground arith

slot_step_dead :
    (closed : Bool) (id : ℤ) (op : PoolOp) (s : SlotData)
    → s.alive ≡ false
    → starts id op s ≡ false
    → (slot_step closed id op s).alive ≡ false
unfolding slot_step
slot_step_dead closed id (adopts j) s h k = ground arith
slot_step_dead closed id _ s h k = ground arith

-- In a valid pool, the generation of a slot in range counts the lifetimes that a history starts
-- on it, modulo 2^32.
pub generation-run :
    (p : EntityPool) (id : ℤ) (ops : List PoolOp)
    → IsValid p
    → in_range p id ≡ true
    → (slot (run p ops) id).generation ≡ ((slot p id).generation + lifetimes p id ops) % 2 ^ 32
unfolding run lifetimes
generation-run p id [] v k = omega (arith, (v.clean id k).fits)
generation-run p id (op ∷ ops) v k =
    let k' : in_range (step p op) id ≡ true = rw (in_range-step p op id) k in
    ground (
      arith,
      generation-run (step p op) id ops (step-IsValid p op v) k',
      slot-step p id v.sized k op,
      slot_step-generation p.closed id op (slot p id) (v.clean id k).fits,
    )

dead-run :
    (p : EntityPool) (id : ℤ) (ops : List PoolOp)
    → IsValid p
    → in_range p id ≡ true
    → (slot p id).alive ≡ false
    → lifetimes p id ops ≡ 0
    → (slot (run p ops) id).alive ≡ false
unfolding run lifetimes
dead-run p id [] v k d n = d
dead-run p id (op ∷ ops) v k d n =
    let k' : in_range (step p op) id ≡ true = rw (in_range-step p op id) k in
    dead-run (step p op) id ops (step-IsValid p op v) k'
      (rw (slot-step p id v.sized k op)
        (slot_step_dead p.closed id op (slot p id) d (ground arith)))
      (omega arith)

released_dead :
    (p : EntityPool) (id : ℤ)
    → IsValid p
    → is_alive p id ≡ true
    → ((slot (release p id) id).alive ≡ false)
      × ((slot (release p id) id).generation ≡ (slot p id).generation)
      × (in_range p id ≡ true)
unfolding step slot_step is_alive
released_dead p id v h =
    ground (arith, slot-step p id v.sized (ground arith) (releases id), eq_ℤ_refl id)

-- A handle that was valid, once its entity is released, stays invalid through any history of
-- calls that starts fewer than 2^32 lifetimes on its slot, so it never passes for a newer entity
-- with the same id.
pub stale_handle :
    (p : EntityPool) (id : ℤ) (g : ℕ) (ops : List PoolOp)
    → IsValid p
    → is_valid p id g ≡ true
    → lifetimes (release p id) id ops < 2 ^ 32
    → is_valid (run (release p id) ops) id g ≡ false
stale_handle p id g ops v h n =
    let q = release p id in
    let vq : IsValid q = unfold step in step-IsValid p (releases id) v in
    let gone = released_dead p id v (unfold is_valid in ground arith) in
    let k : in_range q id ≡ true = unfold step in rw (in_range-step p (releases id) id) gone.2 in
    unfold is_valid is_alive in
    ground (
      arith,
      gone,
      generation-run q id ops vq k,
      dead-run q id ops vq k gone.0,
      (v.clean id gone.2).fits,
    )
