-- ===== src/Bindings/Destruction.antt =====
-- src/bindings: `destroy` of vehicles, objects, pickups and checkpoints.
use mathlib.Core.Option.{some-injective}
use vcmp_lua.Bindings.Lifetime.{to_handle_self, get-change_pool}
use vcmp_lua.Args.{handle_value, ServerError, value_at, Binding, BindingError}
use vcmp_lua.Entity.{
  EntityRef, slot_index, EntityPool, empty_slot, set_slot, slot, is_alive, SlotData, release,
  is_valid,
}
use vcmp_lua.Prelude.{
  String, some, sym, true, Option, subst, Bool, not, if_cases, none, length-set, ◌∙◌,
  get_or-set_self, ap, inr, zero, [], inl, ltb, Bool-cases, refl, suc, ℤ, arith, set, ◌∷◌, false,
  get_or, ◌≡◌, ◌≤◌, Result, length, List, ℕ,
}
use vcmp_lua.Bindings.{
  require_runtime, check_call, server_fn, to_handle, require_alive, ◌>>=◌, Call, bind_check,
  check_live, give, live_or_error, release_if, change_pool, EntityKind, Server, err, ok,
  after_result, Act, destroy,
}
use vcmp_lua.World.{World}

get_or_beyond {ℓ} : {A : Type ℓ} (xs : List A) (i : ℕ) (d : A) → length xs ≤ i → get_or xs i d ≡ d
get_or_beyond [] i d h = refl
get_or_beyond (x ∷ xs) zero d h = absurd (omega arith)
get_or_beyond (x ∷ xs) (suc i) d h = get_or_beyond xs i d (omega arith)

set-dead :
    (xs : List SlotData) (i : ℕ) (v : SlotData)
    → v.alive ≡ false
    → (get_or (set xs i v) i empty_slot).alive ≡ false
set-dead xs i v h = elim (Bool-cases (ltb i (length xs))) [
  | inl e ↦ ap (λ t. t.alive) (get_or-set_self xs i v empty_slot (ground arith)) ∙ h
  | inr e ↦
      ap (λ t. t.alive)
        (get_or_beyond (set xs i v) i empty_slot (ground (arith, length-set xs i v)))
]

abbrev dead_slot : SlotData → SlotData
dead_slot v = record v {
  alive = false;
  created_by_us = false;
  handle = none;
  table = none;
  tag = "";
}

not_alive : (p : EntityPool) (id : ℤ) → (slot p id).alive ≡ false → is_alive p id ≡ false
unfolding is_alive
not_alive p id h = grind (arith, h)

slot-dead :
    (p : EntityPool) (id : ℤ) (v : SlotData)
    → v.alive ≡ false
    → (slot (set_slot p id v) id).alive ≡ false
unfolding slot set_slot
slot-dead p id v h = set-dead p.slots (slot_index p id) v h

not_valid : (p : EntityPool) (id : ℤ) (g : ℕ) → is_alive p id ≡ false → is_valid p id g ≡ false
unfolding is_valid
not_valid p id g h = grind (arith, h)

-- Whatever the pool, the entity is gone after its release.
pub release-dead : (p : EntityPool) (id : ℤ) (g : ℕ) → is_valid (release p id) id g ≡ false
unfolding release
release-dead p id g =
    if_cases (λ q. is_valid q id g ≡ false) (not (is_alive p id)) p
      (set_slot p id (dead_slot (slot p id))) (λ e. not_valid p id g (grind arith))
      (λ _. not_valid (set_slot p id (dead_slot (slot p id))) id g (
        not_alive (set_slot p id (dead_slot (slot p id))) id
          (slot-dead p id (dead_slot (slot p id)) refl)))

-- A chain that ends in a value went through the value of its first part.
pub after_result_ok :
    {H A B : Type 0} (f : A → Act H B) (x : Result BindingError A × World H) (v : B)
    → (after_result f x).0 ≡ ok v
    → (a : A) × ((x.0 ≡ ok a) × (after_result f x ≡ f a x.1))
after_result_ok f (ok a, w) v e = (a, (refl, refl))
after_result_ok f (err x, w) v e = absurd (grind arith)

given : {H : Type 0} (q r : EntityRef) (w : World H) → (give q w).0 ≡ ok r → q ≡ r
given q r w e = grind arith

module _ {H : Type 0} (s : Server H) (kind : EntityKind) where
  pub get-released :
      (id : ℤ) (g : ℕ) (w : World H)
      → is_valid ((change_pool s kind (λ p. release p id) w).entities.get kind) id g ≡ false
  get-released id g w =
      subst (λ p. is_valid p id g ≡ false) (sym (get-change_pool s kind (λ p. release p id) w))
        (release-dead (w.entities.get kind) id g)

  release_if-dead :
      (id : ℤ) (g : ℕ) (deleted : Bool) (w : World H)
      → (release_if s kind id deleted w).0 ≡ ok true
      → is_valid ((release_if s kind id deleted w).1.entities.get kind) id g ≡ false
  release_if-dead id g true w e = get-released id g w
  release_if-dead id g false w e = absurd (grind arith)

  live_or_error-id :
      (b : Binding) (index : ℕ) (o : Option EntityRef) (r : EntityRef) (w : World H)
      → (live_or_error s kind b index o w).0 ≡ ok r
      → o ≡ some r
  live_or_error-id b index none r w e = absurd (grind arith)
  live_or_error-id b index (some q) r w e =
      let (a, p) =
        after_result_ok (λ _. bind_check s kind q.id >>= λ _. give q)
          (require_alive s kind q.id q.generation w) r e in
      let (a', p') =
        after_result_ok (λ _. give q)
          (bind_check s kind q.id (require_alive s kind q.id q.generation w).1) r
          (sym (ap (λ x. x.0) p.1) ∙ e) in
      ap some (
        given q r (bind_check s kind q.id (require_alive s kind q.id q.generation w).1).1
          (sym (ap (λ x. x.0) p'.1) ∙ sym (ap (λ x. x.0) p.1) ∙ e))

  -- The entity that CheckLive gives is the handle's.
  check_live-id :
      (b : Binding) (index : ℕ) (id : ℤ) (g : ℕ) (r : EntityRef) (w : World H)
      → value_at b index ≡ handle_value kind id g
      → (check_live s kind b index w).0 ≡ ok r
      → r ≡ record { id = id; generation = g }
  unfolding check_live
  check_live-id b index id g r w v e =
      let (a, p) =
        after_result_ok (λ _. live_or_error s kind b index (to_handle s kind (value_at b index)))
          (require_runtime s w) r e in
      let found =
        live_or_error-id b index (to_handle s kind (value_at b index)) r (require_runtime s w).1
          (sym (ap (λ x. x.0) p.1) ∙ e) in
      some-injective r (record { id = id; generation = g })
        (sym found ∙ ap (to_handle s kind) v ∙ to_handle_self s kind w id g)

  -- The part of `destroy` after CheckLive.
  delete_self : Option (ℤ → Call H ServerError) → String → EntityRef → Act H Bool
  delete_self delete name r = server_fn delete name >>= λ f.
      check_call (f r.id) >>= λ deleted. release_if s kind r.id deleted

  delete_self-dead :
      (delete : Option (ℤ → Call H ServerError)) (name : String) (r : EntityRef) (w : World H)
      → (delete_self delete name r w).0 ≡ ok true
      → is_valid ((delete_self delete name r w).1.entities.get kind) r.id r.generation ≡ false
  unfolding delete_self
  delete_self-dead none name r w e = absurd (grind arith)
  delete_self-dead (some f) name r w e =
      let (deleted, p) = after_result_ok (release_if s kind r.id) (check_call (f r.id) w) true e in
      subst (λ x. is_valid (x.1.entities.get kind) r.id r.generation ≡ false) (sym p.1)
        (release_if-dead r.id r.generation deleted (check_call (f r.id) w).1
          (sym (ap (λ x. x.0) p.1) ∙ e))

  -- If the destroy method on a handle returns true, the handle is no longer valid afterwards,
  -- whatever the server does to the state inside its Delete function.
  pub destroy-dead :
      (delete : Option (ℤ → Call H ServerError)) (name : String) (b : Binding) (id : ℤ) (g : ℕ)
      (w : World H)
      → value_at b 1 ≡ handle_value kind id g
      → (destroy s kind delete name b w).0 ≡ ok true
      → is_valid ((destroy s kind delete name b w).1.entities.get kind) id g ≡ false
  unfolding destroy delete_self
  destroy-dead delete name b id g w v e =
      let (r, p) = after_result_ok (delete_self delete name) (check_live s kind b 1 w) true e in
      let here = check_live-id b 1 id g r w v p.0 in
      let dead =
        delete_self-dead delete name r (check_live s kind b 1 w).1 (sym (ap (λ x. x.0) p.1) ∙ e) in
      subst (λ x. is_valid (x.1.entities.get kind) id g ≡ false) (sym p.1)
        (subst
          (λ q.
            is_valid ((delete_self delete name r (check_live s kind b 1 w).1).1.entities.get kind)
              q.id q.generation
            ≡ false)
          here dead)
