-- ===== src/Bindings/Kinds.antt =====
-- src/bindings/entities.cpp: the members that every entity class has.
use vcmp_lua.Args.{Binding}
use vcmp_lua.Args.Numbers.{int32_max, int32_min, check_integer}
use vcmp_lua.Entity.{EntityRef, EntityPool, alive_ids, is_valid, ref, traits_of}
use vcmp_lua.Prelude.{[], length, ◌∷◌, if◌then◌else◌, ◌&&◌, Bool, List, String, ℤ, ℕ}
use vcmp_lua.Bindings.{lift, read, Act, require_runtime, EntityKind, Server, ◌>>=◌, ◌>>◌}
use vcmp_lua.World.{usable, World}

module _ {H : Type 0} (s : Server H) (kind : EntityKind) where
  -- `IsAlive`, the member `valid`.
  unfoldable pub is_alive_handle : World H → ℤ → ℕ → Bool
  unfolding usable is_valid
  is_alive_handle w id generation = usable w && is_valid (w.entities.get kind) id generation

  -- `findByID`.
  unfoldable pub find_by_id : Binding → Act H EntityRef
  unfolding require_runtime check_integer ref
  find_by_id b = do
    require_runtime s
    id ← lift (check_integer b 1 int32_min int32_max)
    read (λ w. ref (w.entities.get kind) id)

  -- `count`.
  unfoldable pub count : Act H ℕ
  unfolding require_runtime alive_ids
  count = do require_runtime s; read (λ w. length (alive_ids (w.entities.get kind)))

  -- `getActive`: the references by id.
  active_refs : EntityPool → List ℤ → List (ℤ × EntityRef)
  unfolding ref
  active_refs p [] = []
  active_refs p (id ∷ ids) = (id, ref p id) ∷ active_refs p ids

  unfoldable pub get_active : Act H (List (ℤ × EntityRef))
  unfolding require_runtime alive_ids active_refs
  get_active = do
    require_runtime s
    read (λ w. active_refs (w.entities.get kind) (alive_ids (w.entities.get kind)))

  -- The text of a handle: the class, the id, and whether it no longer exists.
  unfoldable pub handle_text : World H → ℤ → ℕ → String × (ℤ × String)
  unfolding is_alive_handle traits_of
  handle_text w id generation = (
    (traits_of kind).type_name,
    (id, if is_alive_handle w id generation then "" else ", no longer exists"),
  )
