-- ===== src/Examples/Scripts.antt =====
-- The theorems on bindings and on the start of the plugin at concrete inputs.
use vcmp_lua.Bindings.Lifetime.{check_live-gone, created-IsOurs, IsOurs}
use vcmp_lua.Args.Exact.{check_integer_lem, is_between, denoted, check_colour_bits}
use vcmp_lua.Bindings.Effects.{remove-dead, remove-dead}
use vcmp_lua.Bindings.Destruction.{destroy-dead}
use vcmp_lua.Entity.Slots.{IsSized}
use vcmp_lua.Api.{has_field, field_fits}
use vcmp_lua.Api.Fields.{field_fits_lem, init-WritesOnSuccess, WritesOnSuccess}
use vcmp_lua.Api.Start.{init, Layout, on_pickup_picked, Arguments, Attempt}
use vcmp_lua.Api.Listing.{callback_index}
use vcmp_lua.Bindings.Rotation.{rotate_from-loops, RotationApi, inner_table, rotate_from, finished}
use vcmp_lua.Bindings.Rotation.Ends.{
  rotate_from-ends, Leads, here, inside, sets_rotation, numbers_of,
}
use vcmp_lua.Bindings.Keys.{remove}
use vcmp_lua.Args.Numbers.{int32_max, int32_min, check_colour, check_integer}
use vcmp_lua.Args.{
  is_gone, no_error, no_such_entity, ServerError, table_value, integer, whole, LuaNumber,
  handle_value, nil_value, number_value, Binding, LuaTable, LuaValue,
}
use vcmp_lua.Bindings.{Act, give, Call, ◌>>=◌, Server, check_live, created, destroy}
use vcmp_lua.Entity.Pools.{new_pools}
use vcmp_lua.Entity.{
  EntityRef, adopt, ref, slot, bind, in_range, blip, is_alive, traits_of, is_valid,
}
use vcmp_lua.Examples.Calls.{world_of}
use vcmp_lua.Prelude.{
  err, [], arith, negsuc, ◌*◌, ◌≤◌, false, ok, refl, same_text, some, ◌+◌, ◌==◌, ◌↔◌, ◌∷◌,
  if◌then◌else◌, none, pos, true, ℤ, ◌≡◌, Option, ℕ,
}
use vcmp_lua.World.{usable, World}
use vcmp_lua.Entity

abbrev started : World ℕ
started = world_of 0

abbrev no_server : Server ℕ
no_server = record {
  last_error = none;
  pools = record {
    is_player_connected = none;
    get_key_bind_data = none;
    check_entity_exists = none;
    has_delete = λ k. false;
    reports = λ k id ps. ps;
  };
}

-- A call with one argument.
abbrev with_argument : LuaValue → Binding
with_argument v = record { info = none; stack = v ∷ [] }

check_integer_example :
    (check_integer (with_argument (number_value (whole (pos 7)))) 1 int32_min int32_max
      ≡ ok (pos 7))
    ↔ ((denoted (number_value (whole (pos 7))) ≡ some (pos 7))
        × (is_between int32_min int32_max (pos 7) ≡ true))
check_integer_example =
    check_integer_lem (with_argument (number_value (whole (pos 7)))) 1 int32_min int32_max (pos 7)
      refl refl

check_colour_example :
    (check_colour (with_argument (number_value (integer (negsuc 15)))) 1 ≡ ok 4294967280)
    × (check_colour (with_argument (number_value (integer (pos 4294967280)))) 1 ≡ ok 4294967280)
check_colour_example =
    check_colour_bits (with_argument (number_value (integer (negsuc 15))))
      (with_argument (number_value (integer (pos 4294967280)))) 1 1 15 refl refl (omega arith)

abbrev no_blip : Binding
no_blip = with_argument (handle_value blip (pos 3) 1)

blip_not_valid : is_valid (started.entities.get blip) (pos 3) 1 ≡ false
unfolding new_pools is_valid is_alive in_range slot Entity.new traits_of
blip_not_valid = refl

blips_open : (started.entities.get blip).closed ≡ false
unfolding new_pools Entity.new
blips_open = refl

started-usable : usable started ≡ true
unfolding usable
started-usable = refl

abbrev gives_five : EntityRef → Act ℕ ℕ
gives_five r = give 5

-- A method that would return 5 without the check.
check_live-gone_example :
    (check_live no_server blip no_blip 1 >>= gives_five) started
    ≡ (err (is_gone (started.entities.get blip).traits.name), started)
check_live-gone_example =
    check_live-gone no_server blip started no_blip 1 1 (pos 3) gives_five started-usable refl
      blips_open blip_not_valid

blips-IsSized : IsSized (started.entities.get blip)
unfolding new_pools Entity.new traits_of
blips-IsSized = (omega arith, refl)

blip_in_range : in_range (started.entities.get blip) (pos 3) ≡ true
unfolding new_pools Entity.new traits_of in_range
blip_in_range = refl

created-IsOurs_example :
    ((created no_server blip (pos 3) started).0
      ≡ ok (ref (adopt (started.entities.get blip) (pos 3)) (pos 3)))
    × IsOurs
        ((created no_server blip (pos 3) started).1.entities.get blip)
        (ref (adopt (started.entities.get blip) (pos 3)) (pos 3))
created-IsOurs_example = created-IsOurs no_server blip (pos 3) started blips-IsSized blip_in_range

-- A pool in which blip 3 is alive, and a server that deletes what it is told to.
abbrev with_blip : World ℕ
with_blip = (created no_server blip (pos 3) started).1

abbrev deletes : Option (ℤ → Call ℕ ServerError)
deletes = some (λ id w. (no_error, w))

destroyed : (destroy no_server blip deletes "DestroyCoordBlip" no_blip with_blip).0 ≡ ok true
unfolding destroy created Entity.require vcmp_lua.Entity.Pools.with_pool Entity.mark_created_by_us
    is_alive in_range adopt Entity.new slot Entity.set_slot is_valid new_pools
destroyed = refl

destroy-dead_example :
    is_valid
      ((destroy no_server blip deletes "DestroyCoordBlip" no_blip with_blip).1.entities.get blip)
      (pos 3)
      1
    ≡ false
destroy-dead_example =
    destroy-dead no_server blip deletes "DestroyCoordBlip" no_blip (pos 3) 1 with_blip refl
      destroyed

-- Another plugin removed the bind.
abbrev removed_already : Option (ℤ → Call ℕ ServerError)
removed_already = some (λ id w. (no_such_entity, w))

remove_fine : (remove no_server removed_already (pos 2) started).0 ≡ ok true
unfolding remove
remove_fine = refl

remove-dead_example :
    is_valid ((remove no_server removed_already (pos 2) started).1.entities.get bind) (pos 2) 1
    ≡ false
remove-dead_example = remove-dead no_server removed_already (pos 2) 1 started remove_fine

-- Table 0 is {quaternion = table 1}, and table 2 is its own quaternion.
abbrev plain_table : LuaTable
plain_table = record {
  element = λ i. number_value (integer (pos i));
  field = λ k. nil_value;
  raw_length = 3;
}

abbrev holding : ℕ → LuaTable
holding t = record {
  element = λ i. nil_value;
  field = λ k. if same_text k "quaternion" then table_value t else nil_value;
  raw_length = 0;
}

abbrev example_tables : ℕ → ℕ → LuaTable
example_tables host t = if t == 0 then holding 1 else if t == 1 then plain_table else holding 2

abbrev no_rotation : RotationApi ℕ LuaNumber
no_rotation = record {
  set_vehicle_rotation = none;
  set_vehicle_rotation_euler = none;
  set_vehicle_spawn_rotation = none;
  set_vehicle_spawn_rotation_euler = none;
}

leads : Leads (example_tables 0) 1 0 1
unfolding inner_table
leads = inside 0 0 1 1 refl (here 1 refl)

rotate_from-ends_example :
    rotate_from example_tables (λ n. n) no_rotation 2 no_blip 3 4 (pos 1) false 0 started
    ≡ finished example_tables
        (λ n. n)
        no_rotation
        (sets_rotation
          (λ n. n)
          no_rotation
          false
          (pos 1)
          (numbers_of (λ n. n) no_rotation no_blip 5 plain_table)
          started)
rotate_from-ends_example =
    rotate_from-ends (λ n. n) no_rotation example_tables 2 1 no_blip 3 4 (pos 1) false 0 1 started
      leads (omega arith)

own_quaternion : inner_table (example_tables 0 2) ≡ some 2
unfolding inner_table
own_quaternion = refl

rotate_from-loops_example :
    rotate_from example_tables (λ n. n) no_rotation 9 no_blip 3 4 (pos 1) false 2 started
    ≡ (ok none, started)
rotate_from-loops_example =
    rotate_from-loops example_tables (λ n. n) no_rotation 9 no_blip 3 4 (pos 1) false 2 started
      own_quaternion

-- Callbacks of 8 bytes after a 4-byte size, in the order of their indices.
abbrev packed : Layout
packed = record {
  callback = λ f. record { offset = 8 + 8 * callback_index f; size = 8 };
  info = λ f. record { offset = 4; size = 4 };
}

abbrev server_call : Arguments
server_call = record {
  has_funcs = true;
  calls_size = some 200;
  info_size = some 64;
  manage_libraries = true;
}

abbrev all_fine : Attempt
all_fine = record {
  libraries_start = true;
  config_reads = true;
  constructs = true;
  hook_returns = true;
}

init_example :
    WritesOnSuccess on_pickup_picked
      (has_field 200 (packed.callback on_pickup_picked))
      false
      (init packed server_call all_fine false false)
init_example =
    init-WritesOnSuccess packed server_call all_fine false false 200 on_pickup_picked refl

field_fits_example : (field_fits 200 192 8 ≡ true) ↔ (192 + 8 ≤ 200)
field_fits_example = field_fits_lem 200 192 8
