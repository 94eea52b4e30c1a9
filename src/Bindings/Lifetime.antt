-- ===== src/Bindings/Lifetime.antt =====
-- src/bindings/entity_type.hpp and args.hpp: the entity that a binding creates, destroys or finds
-- gone.
use vcmp_lua.Args.{is_gone, handle_value, value_at, Binding}
use vcmp_lua.Entity.Pools.{kind_index, with_pool}
use vcmp_lua.Entity.History.Independence.{in_range-step, step-IsSized, slot-step}
use vcmp_lua.Entity.Slots.{IsSized}
use vcmp_lua.Entity.History.{marks, adopts, slot_step, step}
use vcmp_lua.Entity.{
  require, seen, is_alive, ref, adopt, mark_created_by_us, slot, in_range, is_valid, EntityRef,
  EntityPool,
}
use vcmp_lua.Prelude.{
  some, if◌then◌else◌, ap, refl, ==_refl, false, sym, pos, subst, ltb_ℤ, eq_ℤ_refl, ◌∙◌, arith,
  true, ◌≡◌, ℤ, ℕ,
}
use vcmp_lua.Bindings.{
  give, bind_check, live_or_error, after_result, Act, require_alive, to_handle, err, refuse_for,
  ◌>>=◌, last_error_of, require_runtime, check_live, register, ok, change_pool, EntityKind, Server,
  created,
}
use vcmp_lua.World.{usable, World}

-- The entity is alive in that lifetime, or was made by this runtime.
abbrev pub IsOurs : EntityPool → EntityRef → Type 0
IsOurs p r = (is_valid p r.id r.generation ≡ true) × ((slot p r.id).created_by_us ≡ true)

slot-made :
    (p : EntityPool) (id : ℤ)
    → IsSized p
    → in_range p id ≡ true
    → ((slot (mark_created_by_us (adopt p id) id) id).alive ≡ true)
      × ((slot (mark_created_by_us (adopt p id) id) id).created_by_us ≡ true)
      × ((slot (mark_created_by_us (adopt p id) id) id).generation
          ≡ (slot (adopt p id) id).generation)
unfolding step slot_step
slot-made p id z k = ground (
  arith,
  slot-step p id z k (adopts id),
  slot-step (adopt p id) id (step-IsSized p (adopts id) z) (in_range-step p (adopts id) id ∙ k)
      (marks id),
  eq_ℤ_refl id,
)

pub get-change_pool :
    {H : Type 0} (s : Server H) (kind : EntityKind) (f : EntityPool → EntityPool) (w : World H)
    → (change_pool s kind f w).entities.get kind ≡ f (w.entities.get kind)
unfolding with_pool
get-change_pool s kind f w = rw (==_refl (kind_index kind)) refl

slot-adopted :
    (p : EntityPool) (id : ℤ)
    → IsSized p
    → in_range p id ≡ true
    → (slot (adopt p id) id).alive ≡ true
unfolding step slot_step
slot-adopted p id z k = ground (arith, slot-step p id z k (adopts id), eq_ℤ_refl id)

in_range-adopt : (p : EntityPool) (id : ℤ) → in_range (adopt p id) id ≡ in_range p id
unfolding step
in_range-adopt p id = in_range-step p (adopts id) id

in_range-made :
    (p : EntityPool) (id : ℤ) → in_range (mark_created_by_us (adopt p id) id) id ≡ in_range p id
unfolding step
in_range-made p id = in_range-step (adopt p id) (marks id) id ∙ in_range-adopt p id

ref-adopt :
    (p : EntityPool) (id : ℤ)
    → IsSized p
    → in_range p id ≡ true
    → ref (adopt p id) id ≡ record { id = id; generation = (slot (adopt p id) id).generation }
unfolding ref is_alive
ref-adopt p id z k = ground (arith, slot-adopted p id z k, in_range-adopt p id)

made-IsOurs :
    (p : EntityPool) (id : ℤ)
    → IsSized p
    → in_range p id ≡ true
    → IsOurs (mark_created_by_us (adopt p id) id) (ref (adopt p id) id)
unfolding is_valid is_alive
made-IsOurs p id z k =
    subst (IsOurs (mark_created_by_us (adopt p id) id)) (sym (ref-adopt p id z k)) (
      ground (
        arith,
        slot-made p id z k,
        in_range-made p id,
        ==_refl (slot (adopt p id) id).generation,
      ),
      (slot-made p id z k).1,
    )

not_negative : (p : EntityPool) (id : ℤ) → in_range p id ≡ true → ltb_ℤ id (pos 0) ≡ false
unfolding in_range
not_negative p id k = ground arith

module _ {H : Type 0} (s : Server H) (kind : EntityKind) (id : ℤ) (w : World H) where
  created-register :
      in_range (w.entities.get kind) id ≡ true → created s kind id w ≡ register s kind id w
  unfolding created
  created-register k =
      ap (λ t. (if t then (last_error_of s >>= refuse_for s) else register s kind id) w)
        (not_negative (w.entities.get kind) id k)

  get-register :
      (register s kind id w).1.entities.get kind
      ≡ mark_created_by_us (adopt (w.entities.get kind) id) id
  unfolding register seen
  get-register = get-change_pool s kind (λ p. mark_created_by_us (seen p id).0 id) w

  register-ref : (register s kind id w).0 ≡ ok (ref (adopt (w.entities.get kind) id) id)
  unfolding register seen
  register-ref = refl

  -- When the server answers a Create call with an id in the range of a pool of full size, the
  -- binding returns the reference to the current lifetime of that id, which is valid, and the
  -- entity is marked as created by this runtime.
  pub created-IsOurs :
      IsSized (w.entities.get kind)
      → in_range (w.entities.get kind) id ≡ true
      → ((created s kind id w).0 ≡ ok (ref (adopt (w.entities.get kind) id) id))
        × IsOurs
            ((created s kind id w).1.entities.get kind)
            (ref (adopt (w.entities.get kind) id) id)
  created-IsOurs z k = (
    ap (λ r. r.0) (created-register k) ∙ register-ref,
    subst (λ r. IsOurs (r.1.entities.get kind) (ref (adopt (w.entities.get kind) id) id))
        (sym (created-register k))
        (subst (λ p. IsOurs p (ref (adopt (w.entities.get kind) id) id)) (sym get-register)
          (made-IsOurs (w.entities.get kind) id z k)),
  )

-- The handle of a dead entity in argument `index`.
module _ {H : Type 0} (s : Server H) (kind : EntityKind) (w : World H) where
  require_usable : usable w ≡ true → require_runtime s w ≡ (ok tt, w)
  unfolding require_runtime
  require_usable u = rw u refl

  pub to_handle_self :
      (id : ℤ) (g : ℕ)
      → to_handle s kind (handle_value kind id g) ≡ some (record { id = id; generation = g })
  to_handle_self id g = rw (==_refl (kind_index kind)) refl

  require_gone :
      (id : ℤ) (g : ℕ)
      → (w.entities.get kind).closed ≡ false
      → is_valid (w.entities.get kind) id g ≡ false
      → require_alive s kind id g w ≡ (err (is_gone (w.entities.get kind).traits.name), w)
  unfolding require is_valid is_alive in_range slot
  require_gone id g c v = rw (c, v) refl

  -- At a usable runtime with the pool open, a binding that begins with CheckLive on a handle
  -- whose entity is gone raises that the entity no longer exists, whatever it would do next, and
  -- leaves the state as it was, so the server is not called.
  pub check_live-gone :
      (b : Binding) (index generation : ℕ) (id : ℤ) {A : Type 0} (method : EntityRef → Act H A)
      → usable w ≡ true
      → value_at b index ≡ handle_value kind id generation
      → (w.entities.get kind).closed ≡ false
      → is_valid (w.entities.get kind) id generation ≡ false
      → (check_live s kind b index >>= method) w
        ≡ (err (is_gone (w.entities.get kind).traits.name), w)
  unfolding check_live
  check_live-gone b index generation id method u e c v =
      ap
        (λ r. after_result method (
          after_result (λ _. live_or_error s kind b index (to_handle s kind (value_at b index))) r))
        (require_usable u)
      ∙ ap (λ a. after_result method (live_or_error s kind b index (to_handle s kind a) w)) e
      ∙ ap (λ o. after_result method (live_or_error s kind b index o w))
          (to_handle_self id generation)
      ∙ ap
          (λ r. after_result method (
            after_result
              (λ _.
                bind_check s kind id >>= λ _. give (record { id = id; generation = generation }))
              r))
          (require_gone id generation c v)
