-- ===== src/Bindings/Create.antt =====
-- src/bindings/vehicle.cpp, object.cpp, pickup.cpp, checkpoint.cpp and bind.cpp: the creation of
-- entities. Every function asks for its arguments in the order of the source.
use vcmp_lua.Entity.{bind, pickup, checkpoint, object, vehicle, player, EntityRef}
use vcmp_lua.Bindings.Reader.{
  index_of, table_of, uint8, arg, int32, bool_arg, bool_or, is_missing, is_table, ArgReader,
  int_arg, number_arg, int_or, vector_arg,
}
use vcmp_lua.Args.{
  request_denied, call_failed, nil_value, no_free_slot, type_error, type_name_of, angle_must_be,
  arg_error, value_at, ServerError, check, number_value, BindingError, LuaValue, Binding, LuaNumber,
  LuaTable,
}
use vcmp_lua.Args.Tables.{Vec3, table_integer}
use vcmp_lua.Prelude.{
  true, some, ◌+◌, negsuc, ltb_ℤ, leb, none, if◌then◌else◌, pos, Bool, Result, Option, ℤ, ℕ,
}
use vcmp_lua.Bindings.{
  check_call, ask, fail, server_fn, give, ok, lift, Act, check_live, created, require_runtime, Call,
  Server, ◌>>=◌, ◌>>◌,
}

pub record Rgba : Type 0 where
  pub r : ℤ
  pub g : ℤ
  pub b : ℤ
  pub a : ℤ

-- The Create functions of the server, which give the id of the new entity or a negative number.
pub record Creation (H F : Type 0) : Type 0 where
  pub create_vehicle : Option (ℤ → ℤ → Vec3 F → F → ℤ → ℤ → Call H ℤ)
  pub create_object : Option (ℤ → ℤ → Vec3 F → ℤ → Call H ℤ)
  pub create_pickup : Option (ℤ → ℤ → ℤ → Vec3 F → ℤ → Bool → Call H ℤ)
  pub create_check_point : Option (ℤ → ℤ → Bool → Vec3 F → Rgba → F → Call H ℤ)
  pub get_key_bind_unused_slot : Option (Call H ℤ)
  pub register_key_bind : Option (ℤ → Bool → ℤ → ℤ → ℤ → Call H ServerError)

-- `Channel` and `ReadColour`, of a table at a stack index.
abbrev channel : Binding → ℕ → LuaTable → ℕ → Result BindingError ℤ
unfolding table_integer
channel b index t i = table_integer b index t i (pos 0) (pos 255) none

-- Where a new vehicle stands, and the argument after that.
record VehiclePlace (F : Type 0) : Type 0 where
  position : Vec3 F
  angle : F
  next : ℕ

module _ {H F : Type 0} (tables : H → ℕ → LuaTable) (single : LuaNumber → F) (zero_float : F)
    (s : Server H) (api : Creation H F) where
  abbrev channels : Binding → ℕ → LuaTable → ℤ → Act H Rgba
  unfolding channel
  channels b index t alpha = do
    r ← lift (channel b index t 1)
    g ← lift (channel b index t 2)
    blue ← lift (channel b index t 3)
    a ← lift (if leb 4 t.raw_length then channel b index t 4 else ok alpha)
    give (record { r = r; g = g; b = blue; a = a })

  unfoldable pub read_colour : Binding → ℕ → ℤ → Act H Rgba
  unfolding channels
  read_colour b index alpha =
      if is_table (value_at b index)
      then (table_of tables (value_at b index) >>= λ t. channels b index t alpha)
      else lift (type_error b index "table")

  -- The fourth element of the table of a position, as an angle.
  abbrev angle_of : Binding → ℕ → LuaValue → Result BindingError F
  angle_of b index (number_value n) = ok (single n)
  angle_of b index nil_value = ok zero_float
  angle_of b index v = arg_error b index (angle_must_be (type_name_of v))

  -- The position, the angle and the argument after them.
  vehicle_place : ArgReader → Act H (VehiclePlace F)
  unfolding vector_arg number_arg
  vehicle_place r =
      if is_table (arg r 3)
      then (do
        v ← vector_arg tables single r 3
        t ← table_of tables (arg r 3)
        angle ← lift (angle_of r.binding (index_of r 3) (t.element 4))
        give (record { position = v.0; angle = angle; next = v.1 }))
      else (do
        v ← vector_arg tables single r 3
        angle ← number_arg tables single r v.1
        give (record { position = v.0; angle = angle; next = v.1 + 1 }))

  unfoldable pub create_vehicle : ArgReader → Act H EntityRef
  unfolding require_runtime vehicle_place created int_arg int_or
  create_vehicle r = do
    require_runtime s
    model ← lift (int_arg int32 r 1)
    world ← lift (int_arg int32 r 2)
    place ← vehicle_place r
    primary ← lift (int_or int32 r place.next (negsuc 0))
    secondary ← lift (int_or int32 r (place.next + 1) (negsuc 0))
    create ← server_fn api.create_vehicle "CreateVehicle"
    id ← ask (create model world place.position place.angle primary secondary)
    created s vehicle id

  -- The alpha of a new object: element 4 of the table of its position, or an argument.
  abbrev object_alpha : ArgReader → ℕ → Act H ℤ
  unfolding int_or table_integer
  object_alpha r i =
      if is_table (arg r 3)
      then (table_of tables (arg r 3) >>= λ t.
          lift (table_integer r.binding (index_of r 3) t 4 (pos 0) (pos 255) (some (pos 255))))
      else lift (int_or uint8 r i (pos 255))

  unfoldable pub create_object : ArgReader → Act H EntityRef
  unfolding require_runtime vector_arg object_alpha created int_arg
  create_object r = do
    require_runtime s
    model ← lift (int_arg int32 r 1)
    world ← lift (int_arg int32 r 2)
    v ← vector_arg tables single r 3
    alpha ← object_alpha r v.1
    create ← server_fn api.create_object "CreateObject"
    id ← ask (create model world v.0 alpha)
    created s object id

  unfoldable pub create_pickup : ArgReader → Act H EntityRef
  unfolding require_runtime vector_arg created int_arg int_or bool_or
  create_pickup r = do
    require_runtime s
    model ← lift (int_arg int32 r 1)
    world ← lift (int_arg int32 r 2)
    quantity ← lift (int_arg int32 r 3)
    v ← vector_arg tables single r 4
    alpha ← lift (int_or uint8 r v.1 (pos 255))
    automatic ← lift (bool_or r (v.1 + 1) true)
    create ← server_fn api.create_pickup "CreatePickup"
    id ← ask (create model world quantity v.0 alpha automatic)
    created s pickup id

  -- The player who sees a new checkpoint, and -1 for all of them.
  abbrev owner_of : ArgReader → Act H ℤ
  unfolding check_live
  owner_of r =
      if is_missing (arg r 1)
      then give (negsuc 0)
      else (check_live s player r.binding (index_of r 1) >>= λ p. give p.id)

  unfoldable pub create_checkpoint : ArgReader → Act H EntityRef
  unfolding require_runtime vector_arg created int_arg bool_arg owner_of read_colour number_arg
  create_checkpoint r = do
    require_runtime s
    owner ← owner_of r
    world ← lift (int_arg int32 r 2)
    sphere ← lift (bool_arg r 3)
    v ← vector_arg tables single r 4
    colour ← read_colour r.binding (index_of r v.1) (pos 255)
    radius ← number_arg tables single r (v.1 + 1)
    create ← server_fn api.create_check_point "CreateCheckPoint"
    id ← ask (create owner world sphere v.0 colour radius)
    created s checkpoint id

  -- The registration of a bind in a slot that the server gave.
  bind_in : ℤ → Bool → ℤ → ℤ → ℤ → Act H EntityRef
  unfolding created check
  bind_in slot on_release key1 key2 key3 = if ltb_ℤ slot (pos 0) then fail no_free_slot else (do
    register ← server_fn api.register_key_bind "RegisterKeyBind"
    fine ← check_call (register slot on_release key1 key2 key3)
    if fine then created s bind slot else fail (call_failed request_denied))

  -- Bind.create, whose arguments sol2 reads before the call.
  unfoldable pub create_bind : ArgReader → Act H EntityRef
  unfolding require_runtime bind_in int_arg int_or bool_arg
  create_bind r = do
    require_runtime s
    on_release ← lift (bool_arg r 1)
    key1 ← lift (int_arg int32 r 2)
    key2 ← lift (int_or int32 r 3 (pos 0))
    key3 ← lift (int_or int32 r 4 (pos 0))
    unused ← server_fn api.get_key_bind_unused_slot "GetKeyBindUnusedSlot"
    slot ← ask unused
    bind_in slot on_release key1 key2 key3
