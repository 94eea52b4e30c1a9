-- ===== src/Bindings/Object.antt =====
-- src/bindings/object.cpp and checkpoint.cpp: movements and rotations of objects, and the colour of
-- a checkpoint.
use vcmp_lua.Args.Numbers.{uint32_max}
use vcmp_lua.Args.Tables.{Vec3, table_integer, table_number}
use vcmp_lua.Bindings.Reader.{
  is_missing, table_of, uint32, arg, index_of, is_table, ArgReader, int_or, vector_arg,
}
use vcmp_lua.Args.{type_error, ServerError, LuaNumber, LuaTable}
use vcmp_lua.Prelude.{some, leb, pos, ◌&&◌, Bool, String, if◌then◌else◌, Option, ℤ, ℕ}
use vcmp_lua.Bindings.{check_call, lift, server_fn, Act, Call, ◌>>=◌}

module _ {H F : Type 0} (tables : H → ℕ → LuaTable) (single : LuaNumber → F) where
  -- The milliseconds of a movement: element 4 of the table, or an argument.
  abbrev move_time : ArgReader → ℕ → Act H ℤ
  unfolding int_or table_integer
  move_time r i =
      if is_table (arg r 1) && is_missing (arg r 2)
      then (table_of tables (arg r 1) >>= λ t.
          lift (table_integer r.binding (index_of r 1) t 4 (pos 0) uint32_max (some (pos 0))))
      else lift (int_or uint32 r i (pos 0))

  -- MoveObject, with the function of the server that `moveTo` or `moveBy` asks for first.
  unfoldable pub move_object :
      Option (ℤ → Vec3 F → ℤ → Call H ServerError) → String → ArgReader → ℤ → Act H Bool
  unfolding move_time vector_arg
  move_object move name r id = do
    f ← server_fn move name
    v ← vector_arg tables single r 1
    ms ← move_time r v.1
    check_call (f id v.0 ms)

  -- RotateObject, past the lookup of both functions.
  rotate_by :
      (ℤ → Vec3 F → F → ℤ → Call H ServerError)
      → (ℤ → Vec3 F → ℤ → Call H ServerError)
      → ArgReader
      → ℤ
      → LuaTable
      → Act H Bool
  unfolding table_number int_or
  rotate_by quaternion euler r id t = do
    x ← lift (table_number single r.binding (index_of r 1) t 1)
    y ← lift (table_number single r.binding (index_of r 1) t 2)
    z ← lift (table_number single r.binding (index_of r 1) t 3)
    ms ← lift (int_or uint32 r 2 (pos 0))
    if leb 4 t.raw_length
        then (do
          w ← lift (table_number single r.binding (index_of r 1) t 4)
          check_call (quaternion id (record { x = x; y = y; z = z }) w ms))
        else check_call (euler id (record { x = x; y = y; z = z }) ms)

  unfoldable pub rotate_object :
      (ℤ → Vec3 F → F → ℤ → Call H ServerError)
      → (ℤ → Vec3 F → ℤ → Call H ServerError)
      → ArgReader
      → ℤ
      → Act H Bool
  unfolding rotate_by
  rotate_object quaternion euler r id =
      if is_table (arg r 1)
      then (table_of tables (arg r 1) >>= λ t. rotate_by quaternion euler r id t)
      else lift (type_error r.binding (index_of r 1) "table")
