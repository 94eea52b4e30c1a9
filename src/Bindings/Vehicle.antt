-- ===== src/Bindings/Vehicle.antt =====
-- src/bindings/vehicle.cpp: the methods of a vehicle that do more than one call of the server.
-- Flag sets of 32 bits are numbers below 2^32; the taxi light is bit 8.
use vcmp_lua.Args.Numbers.{int32_max, int32_min}
use vcmp_lua.Entity.{player, no_ref, EntityRef, ref}
use vcmp_lua.Args.Tables.{Vec3, table_integer}
use vcmp_lua.Bindings.Reader.{
  index_of, int32, table_of, arg, bool_or, is_number, is_table, ArgReader, int_arg, vector_arg,
}
use vcmp_lua.Args.{
  no_error, expects, no_such_entity, arg_error, type_error, BindingError, value_at, Binding,
  ServerError, check, LuaNumber, LuaTable,
}
use vcmp_lua.Prelude.{
  zero, none, some, ◌||◌, pos, ◌&&◌, String, eq_ℤ, suc, Result, false, not, true, ◌+◌, ◌==◌,
  if◌then◌else◌, ℤ, ◌%◌, ◌/◌, Bool, Option, ◌-◌, ℕ,
}
use vcmp_lua.Bindings.{
  err, ok, read, check_call, last_error_of, lift, ask, give, server_fn, Act, Call, Server, ◌>>=◌,
  ◌>>◌,
}

pub record VehicleApi (H F : Type 0) : Type 0 where
  pub get_vehicle_speed : Option (ℤ → Bool → Call H (ServerError × Vec3 F))
  pub get_vehicle_turn_speed : Option (ℤ → Bool → Call H (ServerError × Vec3 F))
  pub set_vehicle_speed : Option (ℤ → Vec3 F → Bool → Bool → Call H ServerError)
  pub set_vehicle_turn_speed : Option (ℤ → Vec3 F → Bool → Bool → Call H ServerError)
  pub set_full_health : Option (ℤ → Call H ServerError)
  pub set_vehicle_damage_data : Option (ℤ → ℕ → Call H ServerError)
  pub get_vehicle_lights_data : Option (ℤ → Call H ℕ)
  pub set_vehicle_lights_data : Option (ℤ → ℕ → Call H ServerError)
  pub reset_inst_handling_rule : Option (ℤ → ℤ → Call H ServerError)
  pub get_vehicle_occupant : Option (ℤ → ℤ → Call H ℤ)
  pub get_vehicle_colour : Option (ℤ → Call H (ServerError × (ℤ × ℤ)))
  pub set_vehicle_colour : Option (ℤ → ℤ → ℤ → Call H ServerError)

-- `lights & 0xFFFFFF00`, `lights | kTaxiLight` and `lights & ~kTaxiLight`.
unfoldable pub fixed_lights : ℕ → ℕ
fixed_lights lights = lights - lights % 256

unfoldable pub has_taxi_light : ℕ → Bool
has_taxi_light lights = (lights / 256) % 2 == 1

unfoldable pub with_taxi_light : Bool → ℕ → ℕ
unfolding has_taxi_light
with_taxi_light true lights = if has_taxi_light lights then lights else lights + 256
with_taxi_light false lights = if has_taxi_light lights then lights - 256 else lights

module _ {H F : Type 0} (tables : H → ℕ → LuaTable) (single : LuaNumber → F) (s : Server H)
    (api : VehicleApi H F) where
  -- A getter that writes through pointers, with Check on its error.
  abbrev checked : {A : Type 0} → Call H (ServerError × A) → Act H A
  unfolding check
  checked call = do r ← ask call; lift (check r.0); give r.1

  speed_by : Option (ℤ → Bool → Call H (ServerError × Vec3 F)) → String → ℤ → Bool → Act H (Vec3 F)
  unfolding checked
  speed_by get name id relative = server_fn get name >>= λ f. checked (f id relative)

  -- GetSpeed, which asks for both functions first.
  unfoldable pub get_speed : Binding → ℤ → ℤ → Act H (Vec3 F)
  unfolding checked
  get_speed b id which = do
    get ← server_fn api.get_vehicle_speed "GetVehicleSpeed"
    get_turn ← server_fn api.get_vehicle_turn_speed "GetVehicleTurnSpeed"
    if eq_ℤ which (pos 1)
        then checked (get id false)
        else if eq_ℤ which (pos 2)
        then checked (get id true)
        else if eq_ℤ which (pos 3)
        then checked (get_turn id false)
        else if eq_ℤ which (pos 4)
        then checked (get_turn id true)
        else lift (arg_error b 2 (expects "VehicleSpeed value"))

  -- Whether the type of speed is the first argument.
  unfoldable pub is_typed : ArgReader → Bool
  is_typed r =
      is_number (arg r 1) && (is_table (arg r 2) || (is_number (arg r 2) && is_number (arg r 4)))

  abbrev send_speed : ArgReader → ℤ → ℤ → Vec3 F → Bool → Act H Bool
  send_speed r id which v add =
      if eq_ℤ which (pos 1) || eq_ℤ which (pos 2)
      then (server_fn api.set_vehicle_speed "SetVehicleSpeed" >>= λ f.
          check_call (f id v add (eq_ℤ which (pos 2))))
      else if eq_ℤ which (pos 3) || eq_ℤ which (pos 4)
      then (server_fn api.set_vehicle_turn_speed "SetVehicleTurnSpeed" >>= λ f.
          check_call (f id v add (eq_ℤ which (pos 4))))
      else lift (arg_error r.binding (index_of r 1) (expects "VehicleSpeed value"))

  -- The type of speed, and the argument after it.
  abbrev speed_type : ArgReader → Result BindingError (ℤ × ℕ)
  unfolding int_arg is_typed
  speed_type r = elim (is_typed r) [
    | false ↦ ok (pos 1, 1)
    | true ↦ elim (int_arg int32 r 1) [ ok which ↦ ok (which, 2) | err e ↦ err e ]
  ]

  -- SetSpeed.
  unfoldable pub set_speed : ArgReader → ℤ → Act H Bool
  unfolding speed_type vector_arg bool_or
  set_speed r id = do
    t ← lift (speed_type r)
    v ← vector_arg tables single r t.1
    add ← lift (bool_or r v.1 false)
    send_speed r id t.0 v.0 add

  -- `repair`: the three calls are made whatever the first ones answer.
  unfoldable pub repair : ℤ → Act H Bool
  unfolding fixed_lights
  repair id = do
    set_health ← server_fn api.set_full_health "SetVehicleHealth"
    health ← check_call (set_health id)
    set_damage ← server_fn api.set_vehicle_damage_data "SetVehicleDamageData"
    damage ← check_call (set_damage id 0)
    get_lights ← server_fn api.get_vehicle_lights_data "GetVehicleLightsData"
    lights ← ask (get_lights id)
    set_lights ← server_fn api.set_vehicle_lights_data "SetVehicleLightsData"
    fine ← check_call (set_lights id (fixed_lights lights))
    give (fine && damage && health)

  -- The setter of `taxiLight`.
  unfoldable pub set_taxi_light : ℤ → Bool → Act H Bool
  unfolding with_taxi_light
  set_taxi_light id on = do
    get_lights ← server_fn api.get_vehicle_lights_data "GetVehicleLightsData"
    lights ← ask (get_lights id)
    set_lights ← server_fn api.set_vehicle_lights_data "SetVehicleLightsData"
    check_call (set_lights id (with_taxi_light on lights))

  -- The loop of `resetHandlingRule`, from element i on, over n elements of the table, which is
  -- read anew in every round.
  reset_rules : Binding → ℕ → ℤ → ℕ → ℕ → Bool → Act H Bool
  unfolding table_integer
  reset_rules b index id zero i all = give all
  reset_rules b index id (suc n) i all = do
    t ← table_of tables (value_at b index)
    rule ← lift (table_integer b index t i int32_min int32_max none)
    f ← server_fn api.reset_inst_handling_rule "ResetInstHandlingRule"
    fine ← check_call (f id rule)
    reset_rules b index id n (i + 1) (fine && all)

  unfoldable pub reset_handling_rule : ArgReader → ℤ → Act H Bool
  unfolding reset_rules int_arg
  reset_handling_rule r id =
      if is_table (arg r 1)
      then (table_of tables (arg r 1) >>= λ t.
          reset_rules r.binding (index_of r 1) id t.raw_length 1 true)
      else (do
        f ← server_fn api.reset_inst_handling_rule "ResetInstHandlingRule"
        rule ← lift (int_arg int32 r 1)
        check_call (f id rule))

  -- `getOccupant`: a seat without a player is no error.
  abbrev occupant_for : ℤ → ServerError → Act H EntityRef
  unfolding check ref
  occupant_for id no_such_entity = give no_ref
  occupant_for id no_error = read (λ w. ref (w.entities.get player) id)
  occupant_for id e = lift (check e) >> give no_ref

  unfoldable pub get_occupant : ℤ → ℤ → Act H EntityRef
  unfolding occupant_for
  get_occupant id seat = do
    f ← server_fn api.get_vehicle_occupant "GetVehicleOccupant"
    occupant ← ask (f id seat)
    e ← last_error_of s
    occupant_for occupant e

  -- The setter of `color`, with the value at stack index 3: a missing element keeps its colour.
  unfoldable pub set_colour : Binding → ℤ → Act H Bool
  unfolding checked table_integer
  set_colour b id = if not (is_table (value_at b 3)) then lift (type_error b 3 "table") else (do
    get ← server_fn api.get_vehicle_colour "GetVehicleColour"
    old ← checked (get id)
    t ← table_of tables (value_at b 3)
    primary ← lift (table_integer b 4 t 1 int32_min int32_max (some old.0))
    secondary ← lift (table_integer b 4 t 2 int32_min int32_max (some old.1))
    set_both ← server_fn api.set_vehicle_colour "SetVehicleColour"
    check_call (set_both id primary secondary))
