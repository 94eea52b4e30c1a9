-- ===== src/Bindings/Rotation/Ends.antt =====
-- src/bindings/vehicle.cpp, SetRotationFromTable: the one call of the server in which it ends.
use vcmp_lua.Prelude.{
  ap, inr, if◌then◌else◌, inl, ◌∙◌, ◌⊎◌, ◌>>=◌, false, refl, true, arith, leb, zero, none, some,
  ◌+◌, ◌<◌, Result, String, suc, ℤ, ◌≡◌, Bool, Option, ℕ,
}
use vcmp_lua.Bindings.Rotation.{
  euler_call, quaternion_call, RotationApi, inner_table, apply_rotation, finished, rotate_from,
}
use vcmp_lua.Args.Tables.{Vec3, table_number}
use vcmp_lua.Args.{not_supported, BindingError, ServerError, Binding, LuaNumber, LuaTable}
use vcmp_lua.Bindings.{Act, lift, err, ok, check_call, Call}
use vcmp_lua.World.{World}
use vcmp_lua.Bindings

-- From a table, k steps into the field "quaternion" or "euler" lead to the last table.
pub data Leads (tables : ℕ → LuaTable) : ℕ → ℕ → ℕ → Type 0 where
  here : (t : ℕ) → inner_table (tables t) ≡ none → Leads tables 0 t t
  inside :
      (k t s u : ℕ)
      → inner_table (tables t) ≡ some s
      → Leads tables k s u
      → Leads tables (suc k) t u

-- The stack index of the table that k steps lead to: the tables are pushed one above the other.
abbrev pub index_after : ℕ → ℕ → ℕ → ℕ
index_after index top zero = index
index_after index top (suc k) = top + suc k

abbrev and_fourth :
    {F : Type 0} → Vec3 F → Bool → Result BindingError F → Result BindingError (Vec3 F × Option F)
and_fourth v true r = r >>= λ q. ok (v, some q)
and_fourth v false r = ok (v, none)

index_after_inside :
    (index top k : ℕ) → index_after (top + 1) (top + 1) k ≡ index_after index top (suc k)
index_after_inside index top zero = refl
index_after_inside index top (suc k) = omega arith

result_cases :
    {A : Type 0} (r : Result BindingError A)
    → ((e : BindingError) × (r ≡ err e)) ⊎ ((a : A) × (r ≡ ok a))
result_cases (ok a) = inr (a, refl)
result_cases (err e) = inl (e, refl)

module _ {H F : Type 0} (single : LuaNumber → F) (api : RotationApi H F) where
  -- The numbers of a rotation: a fourth one if the table has at least four elements.
  unfoldable pub numbers_of : Binding → ℕ → LuaTable → Result BindingError (Vec3 F × Option F)
  numbers_of b index t = do
    x ← table_number single b index t 1
    y ← table_number single b index t 2
    z ← table_number single b index t 3
    and_fourth (record { x = x; y = y; z = z }) (leb 4 t.raw_length)
        (table_number single b index t 4)

  abbrev calls :
      {A : Type 0}
      → Option A
      → (A → Call H ServerError)
      → String
      → World H
      → Result BindingError Bool × World H
  calls none with_numbers name w = (err (not_supported name), w)
  calls (some f) with_numbers name w = check_call (with_numbers f) w

  -- Four numbers are a quaternion, three are Euler angles, of the vehicle or of its spawn.
  abbrev asks_server : Bool → ℤ → Vec3 F → Option F → World H → Result BindingError Bool × World H
  asks_server true id v (some q) =
      calls api.set_vehicle_spawn_rotation (λ f. f id v q) "SetVehicleSpawnRotation"
  asks_server false id v (some q) =
      calls api.set_vehicle_rotation (λ f. f id v q) "SetVehicleRotation"
  asks_server true id v none =
      calls api.set_vehicle_spawn_rotation_euler (λ f. f id v) "SetVehicleSpawnRotationEuler"
  asks_server false id v none =
      calls api.set_vehicle_rotation_euler (λ f. f id v) "SetVehicleRotationEuler"

  -- The numbers of a table in one call of the server, or the error of reading them.
  abbrev pub sets_rotation :
      Bool
      → ℤ
      → Result BindingError (Vec3 F × Option F)
      → World H
      → Result BindingError Bool × World H
  sets_rotation spawn id (err e) w = (err e, w)
  sets_rotation spawn id (ok (v, q)) w = asks_server spawn id v q w

  module _ (tables : H → ℕ → LuaTable) where
    asks_quaternion : Bool → ℤ → Vec3 F → F → Act H Bool
    asks_quaternion spawn id v q =
        Bindings.◌>>=◌ (quaternion_call tables single api spawn) (λ f. check_call (f id v q))

    asks_euler : Bool → ℤ → Vec3 F → Act H Bool
    asks_euler spawn id v =
        Bindings.◌>>=◌ (euler_call tables single api spawn) (λ f. check_call (f id v))

    asks_quaternion-sets :
        (spawn : Bool) (id : ℤ) (v : Vec3 F) (q : F) (w : World H)
        → asks_quaternion spawn id v q w ≡ asks_server spawn id v (some q) w
    unfolding asks_quaternion quaternion_call
    asks_quaternion-sets true id v q w = ground arith
    asks_quaternion-sets false id v q w = ground arith

    asks_euler-sets :
        (spawn : Bool) (id : ℤ) (v : Vec3 F) (w : World H)
        → asks_euler spawn id v w ≡ asks_server spawn id v none w
    unfolding asks_euler euler_call
    asks_euler-sets true id v w = ground arith
    asks_euler-sets false id v w = ground arith

    with_three :
        (spawn : Bool) (id : ℤ) (v : Vec3 F) (four : Bool) (r : Result BindingError F) (w : World H)
        → (if four
              then Bindings.◌>>=◌ (lift r) (asks_quaternion spawn id v)
              else asks_euler spawn id v)
            w
          ≡ sets_rotation spawn id (and_fourth v four r) w
    with_three spawn id v true (ok q) w = asks_quaternion-sets spawn id v q w
    with_three spawn id v true (err e) w = refl
    with_three spawn id v false r w = asks_euler-sets spawn id v w

    apply_rotation-sets :
        (b : Binding) (index : ℕ) (id : ℤ) (spawn : Bool) (t : LuaTable) (w : World H)
        → apply_rotation tables single api b index id spawn t w
          ≡ sets_rotation spawn id (numbers_of b index t) w
    unfolding apply_rotation numbers_of asks_quaternion asks_euler
    apply_rotation-sets b index id spawn t w =
        elim (result_cases (table_number single b index t 1)) [
          | inl (e, h) ↦ rw h refl
          | inr (x, h) ↦ rw h (elim (result_cases (table_number single b index t 2)) [
            | inl (e, i) ↦ rw i refl
            | inr (y, i) ↦ rw i (elim (result_cases (table_number single b index t 3)) [
              | inl (e, j) ↦ rw j refl
              | inr (z, j) ↦ rw j (
                  with_three spawn id (record { x = x; y = y; z = z }) (leb 4 t.raw_length)
                    (table_number single b index t 4) w)
            ])
          ])
        ]

    -- Setting a rotation from a table from which less than n steps into quaternion or euler lead
    -- to a last table ends within n rounds: the numbers of the last table go to the server in one
    -- call, the quaternion or the Euler function of the vehicle or its spawn, whose error is
    -- raised, or the numbers that are missing or the function that the server lacks are the
    -- error.
    pub rotate_from-ends :
        (n k : ℕ) (b : Binding) (index top : ℕ) (id : ℤ) (spawn : Bool) (t u : ℕ) (w : World H)
        → Leads (tables w.host) k t u
        → k < n
        → rotate_from tables single api n b index top id spawn t w
          ≡ finished tables single api
              (sets_rotation spawn id (numbers_of b (index_after index top k) (tables w.host u)) w)
    unfolding rotate_from
    rotate_from-ends zero k b index top id spawn t u w p h = absurd (omega arith)
    rotate_from-ends (suc n) k b index top id spawn t u w (here _ e) h =
        rw (rotate_from, e, apply_rotation-sets b index id spawn (tables w.host t) w) refl
    rotate_from-ends (suc n) (suc j) b index top id spawn t u w (inside _ _ s _ e p) h =
        rw (rotate_from, e)
          (rotate_from-ends n j b (top + 1) (top + 1) id spawn s u w p (omega arith)
            ∙ ap
                (λ i.
                  finished tables single api
                    (sets_rotation spawn id (numbers_of b i (tables w.host u)) w))
                (index_after_inside index top j))
