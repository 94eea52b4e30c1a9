-- ===== src/Bindings/Rotation.antt =====
-- src/bindings/vehicle.cpp, SetRotationFromTable and its callers: the rotations that scripts give.
-- The recursion into the tables inside a table takes fuel, and a run without enough of it ends in
-- none. Its stack index and the top of the stack are arguments, since a message may name the index.
pub mod Ends
use vcmp_lua.Args.Tables.{Vec3, table_number}
use vcmp_lua.Args.{BindingError, ServerError, Binding, LuaNumber, table_value, LuaTable, LuaValue}
use vcmp_lua.Prelude.{
  subst, inr, inl, Option-cases, arith, refl, ◌≡◌, ◌≢◌, leb, zero, ◌+◌, if◌then◌else◌, true, suc,
  Result, false, Bool, some, none, ℤ, Option, ℕ,
}
use vcmp_lua.Bindings.{err, check_call, ok, server_fn, lift, Act, Call, ◌>>=◌}
use vcmp_lua.World.{World}

-- Without w a rotation is one of Euler angles.
pub record RotationApi (H F : Type 0) : Type 0 where
  pub set_vehicle_rotation : Option (ℤ → Vec3 F → F → Call H ServerError)
  pub set_vehicle_rotation_euler : Option (ℤ → Vec3 F → Call H ServerError)
  pub set_vehicle_spawn_rotation : Option (ℤ → Vec3 F → F → Call H ServerError)
  pub set_vehicle_spawn_rotation_euler : Option (ℤ → Vec3 F → Call H ServerError)

abbrev or_table : LuaValue → Option ℕ → Option ℕ
or_table (table_value t) other = some t
or_table _ other = other

-- The first of the fields "quaternion" and "euler" that is a table.
unfoldable pub inner_table : LuaTable → Option ℕ
inner_table t = or_table (t.field "quaternion") (or_table (t.field "euler") none)

module _ {H F : Type 0} (tables : H → ℕ → LuaTable) (single : LuaNumber → F)
    (api : RotationApi H F) where
  quaternion_call : Bool → Act H (ℤ → Vec3 F → F → Call H ServerError)
  quaternion_call true = server_fn api.set_vehicle_spawn_rotation "SetVehicleSpawnRotation"
  quaternion_call false = server_fn api.set_vehicle_rotation "SetVehicleRotation"

  euler_call : Bool → Act H (ℤ → Vec3 F → Call H ServerError)
  euler_call true = server_fn api.set_vehicle_spawn_rotation_euler "SetVehicleSpawnRotationEuler"
  euler_call false = server_fn api.set_vehicle_rotation_euler "SetVehicleRotationEuler"

  -- The numbers of a table, given to the server.
  unfoldable pub apply_rotation : Binding → ℕ → ℤ → Bool → LuaTable → Act H Bool
  unfolding quaternion_call euler_call table_number
  apply_rotation b index id spawn t = do
    x ← lift (table_number single b index t 1)
    y ← lift (table_number single b index t 2)
    z ← lift (table_number single b index t 3)
    if leb 4 t.raw_length
        then (do
          w ← lift (table_number single b index t 4)
          f ← quaternion_call spawn
          check_call (f id (record { x = x; y = y; z = z }) w))
        else (do f ← euler_call spawn; check_call (f id (record { x = x; y = y; z = z })))

  abbrev pub finished :
      Result BindingError Bool × World H → Result BindingError (Option (Unit {0})) × World H
  finished (ok done, w) = (ok (some tt), w)
  finished (err e, w) = (err e, w)

  -- SetRotationFromTable.
  unfoldable pub rotate_from :
      ℕ
      → Binding
      → ℕ
      → ℕ
      → ℤ
      → Bool
      → ℕ
      → World H
      → Result BindingError (Option (Unit {0})) × World H
  unfolding inner_table apply_rotation
  rotate_from zero b index top id spawn t w = (ok none, w)
  rotate_from (suc n) b index top id spawn t w = elim (inner_table (tables w.host t)) [
    | none ↦ finished (apply_rotation b index id spawn (tables w.host t) w)
    | some inner ↦ rotate_from n b (top + 1) (top + 1) id spawn inner w
  ]

  -- Setting a rotation from a table that is its own inner table does not end after any number of
  -- rounds.
  pub rotate_from-loops :
      (n : ℕ) (b : Binding) (index top : ℕ) (id : ℤ) (spawn : Bool) (t : ℕ) (w : World H)
      → inner_table (tables w.host t) ≡ some t
      → rotate_from n b index top id spawn t w ≡ (ok none, w)
  unfolding rotate_from
  rotate_from-loops zero b index top id spawn t w h = refl
  rotate_from-loops (suc n) b index top id spawn t w h =
      rw (rotate_from, h) (rotate_from-loops n b (top + 1) (top + 1) id spawn t w h)
