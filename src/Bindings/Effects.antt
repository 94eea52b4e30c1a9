-- ===== src/Bindings/Effects.antt =====
-- src/bindings/vehicle.cpp and bind.cpp: what setters and removals leave.
use vcmp_lua.Bindings.Destruction.{after_result_ok, get-released}
use vcmp_lua.Entity.{bind, is_valid}
use vcmp_lua.Bindings.Keys.{remove, remove_for}
use vcmp_lua.Args.{no_such_entity, no_error, ServerError}
use vcmp_lua.Bindings.{server_fn, ◌>>=◌, ask, ok, Call, Server}
use vcmp_lua.Prelude.{subst, ◌∙◌, ap, sym, false, true, arith, ◌/◌, ◌%◌, ℤ, ◌≡◌, Bool, Option, ℕ}
use vcmp_lua.Bindings.Vehicle.{has_taxi_light, with_taxi_light}
use vcmp_lua.World.{World}

-- The taxi light reads back as it was set, and setting it keeps the bits below it and above it.
has_taxi_light-with_taxi_light :
    (on : Bool) (lights : ℕ)
    → (has_taxi_light (with_taxi_light on lights) ≡ on)
      × (with_taxi_light on lights % 256 ≡ lights % 256)
      × (with_taxi_light on lights / 512 ≡ lights / 512)
unfolding has_taxi_light with_taxi_light
has_taxi_light-with_taxi_light true lights = (ground arith, ground arith, ground arith)
has_taxi_light-with_taxi_light false lights = (ground arith, ground arith, ground arith)

module _ {H : Type 0} (s : Server H) (remove_key_bind : Option (ℤ → Call H ServerError)) where
  remove_for-dead :
      (id : ℤ) (g : ℕ) (e : ServerError) (w : World H)
      → (remove_for s remove_key_bind id e w).0 ≡ ok true
      → is_valid ((remove_for s remove_key_bind id e w).1.entities.get bind) id g ≡ false
  unfolding remove_for
  remove_for-dead id g no_error w h = get-released s bind id g w
  remove_for-dead id g no_such_entity w h = get-released s bind id g w
  remove_for-dead id g _ w h = absurd (grind arith)

  -- If the removal of a key bind returns true, a handle to it is not valid afterwards, also when
  -- the server had no such bind any more.
  pub remove-dead :
      (id : ℤ) (g : ℕ) (w : World H)
      → (remove s remove_key_bind id w).0 ≡ ok true
      → is_valid ((remove s remove_key_bind id w).1.entities.get bind) id g ≡ false
  unfolding remove
  remove-dead id g w h =
      let (f, p) =
        after_result_ok (λ f. ask (f id) >>= remove_for s remove_key_bind id)
          (server_fn remove_key_bind "RemoveKeyBind" w) true h in
      let (e, q) =
        after_result_ok (remove_for s remove_key_bind id)
          (ask (f id) (server_fn remove_key_bind "RemoveKeyBind" w).1) true
          (sym (ap (λ x. x.0) p.1) ∙ h) in
      subst (λ x. is_valid (x.1.entities.get bind) id g ≡ false) (sym (p.1 ∙ q.1))
        (remove_for-dead id g e (ask (f id) (server_fn remove_key_bind "RemoveKeyBind" w).1).1
          (sym (ap (λ x. x.0) (p.1 ∙ q.1)) ∙ h))
