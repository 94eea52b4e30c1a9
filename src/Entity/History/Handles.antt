-- ===== src/Entity/History/Handles.antt =====
-- The Lua values that scripts hold for an entity: one for each lifetime.
use vcmp_lua.Entity.History.Independence.{slot-step, in_range-step, step-IsSized}
use vcmp_lua.Prelude.{[], ==_refl, eq_of_==, eq_ℤ_refl, if◌then◌else◌, All, ◌≡◌}
use vcmp_lua.Entity.History.Invariant.{IsValid}
use vcmp_lua.Entity.History.{
  pushes, none, step, slot-set_slot, ◌∷◌, arith, releases_refs, slot, false, in_range, some, true,
  IsSized, eq_ℤ, List, SlotData, is_alive, releases, Bool, Object, is_valid, EntityPool, push, run,
  slot_step, ℕ, ℤ, PoolOp,
}

-- Whether the call ends the lifetime of `id`, or drops the references of the pool.
abbrev pub drops : ℤ → PoolOp → Bool
drops id (releases j) = eq_ℤ j id
drops id releases_refs = true
drops id _ = false

-- The slot is alive, in generation `g`, and has the handle `o`.
abbrev pub Holds : ℕ → Object → SlotData → Type 0
Holds g o s = (s.alive ≡ true) × (s.generation ≡ g) × (s.handle ≡ some o)

slot_step-Holds :
    (closed : Bool) (id : ℤ) (op : PoolOp) (g : ℕ) (o : Object) (s : SlotData)
    → drops id op ≡ false
    → Holds g o s
    → Holds g o (slot_step closed id op s)
unfolding slot_step
slot_step-Holds closed id (releases j) g o s d h = ground arith
slot_step-Holds closed id _ g o s d h = ground arith

run-Holds :
    (p : EntityPool) (id : ℤ) (g : ℕ) (o : Object) (ops : List PoolOp)
    → IsSized p
    → in_range p id ≡ true
    → All (λ op. drops id op ≡ false) ops
    → Holds g o (slot p id)
    → Holds g o (slot (run p ops) id) × (in_range (run p ops) id ≡ true)
unfolding run
run-Holds p id g o [] z k d h = (h, k)
run-Holds p id g o (op ∷ ops) z k d h =
    run-Holds (step p op) id g o ops (step-IsSized p op z) (rw (in_range-step p op id) k) d.1
      (rw (slot-step p id z k op) (slot_step-Holds p.closed id op g o (slot p id) d.0 h))

pushed-Holds :
    (p : EntityPool) (id : ℤ) (g : ℕ) (fresh o : Object)
    → IsSized p
    → (push p id g fresh).1 ≡ some o
    → Holds g o (slot (push p id g fresh).0 id) × (in_range p id ≡ true)
unfolding push is_valid is_alive
pushed-Holds p id g fresh o z h = ground (
  arith,
  slot-set_slot p id id (record (slot p id) { handle = some fresh }) z,
  eq_ℤ_refl id,
  eq_of_== (slot p id).generation g,
)

-- In a valid pool, after a first push of a handle, every later push of the same lifetime gives
-- the same Lua object, whatever calls that do not drop it come between, and nil once the pool is
-- closed.
pub push_stable :
    (p : EntityPool) (id : ℤ) (g : ℕ) (fresh o later : Object) (ops : List PoolOp)
    → IsValid p
    → (push p id g fresh).1 ≡ some o
    → All (λ op. drops id op ≡ false) ops
    → (push (run (push p id g fresh).0 ops) id g later).1
      ≡ (if (run (push p id g fresh).0 ops).closed then none else some o)
push_stable p id g fresh o later ops v h d =
    let q = (push p id g fresh).0 in
    let first = pushed-Holds p id g fresh o v.sized h in
    let z : IsSized q = unfold step in step-IsSized p (pushes id g fresh) v.sized in
    let k : in_range q id ≡ true =
      unfold step in rw (in_range-step p (pushes id g fresh) id) first.1 in
    let end = run-Holds q id g o ops z k d first.0 in
    unfold push is_valid is_alive in ground (arith, end, ==_refl g)
