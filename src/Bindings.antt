-- ===== src/Bindings.antt =====
-- src/bindings/args.hpp and entity_type.hpp: what the entity classes of the bindings share.
-- A binding runs on the state of the plugin and ends in a value or in an exception. A function of
-- the server is a parameter that may change the state, since the server calls back inside it; one
-- that this version lacks is none. The tables of Lua are read from the state.
pub mod Reader
pub mod Create
pub mod Lifetime
pub mod Destruction
pub mod Rotation
pub mod Vehicle
pub mod Object
pub mod Keys
pub mod Kinds
pub mod Effects
use vcmp_lua.Entity.Pools.{key_bind_exists, with_pool, ServerPools, kind_index}
use vcmp_lua.Entity.{
  shutting_down, no_longer_exists, release, bind, EntityPool, PoolError, mark_created_by_us,
  require, EntityKind, EntityRef, seen, traits_of,
}
use vcmp_lua.Args.{
  is_gone, server_refused, type_error, handle_value, no_error, not_supported, runtime_closing,
  value_at, Binding, LuaValue, BindingError, ServerError, check,
}
use vcmp_lua.Prelude.{
  false, pos, ltb_ℤ, true, ◌==◌, String, err, if◌then◌else◌, none, some, Bool, Option, Result, ok,
  ℤ, ℕ,
}
use vcmp_lua.World.{usable, World}

abbrev pub Act : Type 0 → Type 0 → Type 0
Act H A = World H → Result BindingError A × World H

-- A call of the server.
abbrev pub Call : Type 0 → Type 0 → Type 0
Call H A = World H → A × World H

abbrev pub after_result :
    {H A B : Type 0}
    → (A → Act H B)
    → Result BindingError A × World H
    → Result BindingError B × World H
after_result f (ok a, w) = f a w
after_result f (err e, w) = (err e, w)

infixl 5 ◌>>=◌ ◌>>◌
abbrev pub ◌>>=◌ : {H A B : Type 0} → Act H A → (A → Act H B) → Act H B
(m >>= f) w = after_result f (m w)

abbrev pub ◌>>◌ : {H A B : Type 0} → Act H A → Act H B → Act H B
m >> k = m >>= λ _. k

abbrev pub give : {H A : Type 0} → A → Act H A
give a w = (ok a, w)

abbrev pub fail : {H A : Type 0} → BindingError → Act H A
fail e w = (err e, w)

abbrev pub lift : {H A : Type 0} → Result BindingError A → Act H A
lift r w = (r, w)

abbrev pub read : {H A : Type 0} → (World H → A) → Act H A
read f w = (ok (f w), w)

abbrev pub change : {H : Type 0} → (World H → World H) → Act H (Unit {0})
change f w = (ok tt, f w)

abbrev returned_by : {H A : Type 0} → A × World H → Result BindingError A × World H
returned_by (a, w) = (ok a, w)

abbrev pub ask : {H A : Type 0} → Call H A → Act H A
ask call w = returned_by (call w)

-- VCMP_FN.
abbrev pub server_fn : {H A : Type 0} → Option A → String → Act H A
server_fn none name = fail (not_supported name)
server_fn (some f) name = give f

-- `Check` on the result of a call.
abbrev pub check_call : {H : Type 0} → Call H ServerError → Act H Bool
unfolding check
check_call call = ask call >>= λ e. lift (check e)

-- What the kinds need of the server: GetLastError, and the pools, for the key binds.
pub record Server (H : Type 0) : Type 0 where
  pub last_error : Option (Call H ServerError)
  pub pools : ServerPools

-- The error that GetLastError gives, none if the function is missing.
abbrev pub last_error_of : {H : Type 0} → Server H → Act H ServerError
last_error_of s = elim s.last_error [ none ↦ give no_error | some f ↦ ask f ]

module _ {H : Type 0} (s : Server H) where
  -- CheckLast.
  unfoldable pub check_last : Act H Bool
  check_last = elim s.last_error [ none ↦ give true | some f ↦ check_call f ]

  -- Runtime::Require.
  unfoldable pub require_runtime : Act H (Unit {0})
  unfolding usable
  require_runtime w = if usable w then (ok tt, w) else (err runtime_closing, w)

  -- What a call on `Get(kind)` leaves.
  abbrev pub change_pool : EntityKind → (EntityPool → EntityPool) → World H → World H
  change_pool kind f w = record w { entities = with_pool w.entities kind (f (w.entities.get kind)) }

  -- EntityPool::Require, with its exceptions.
  abbrev from_pool_error : Result PoolError (Unit {0}) → Result BindingError (Unit {0})
  from_pool_error (ok u) = ok u
  from_pool_error (err shutting_down) = err runtime_closing
  from_pool_error (err (no_longer_exists name)) = err (is_gone name)

  abbrev pub require_alive : EntityKind → ℤ → ℕ → Act H (Unit {0})
  require_alive kind id generation w =
      (from_pool_error (require (w.entities.get kind) id generation), w)

  -- RequireBindExists.
  unfoldable pub require_bind_exists : ℤ → Act H (Unit {0})
  require_bind_exists id =
      if key_bind_exists s.pools id
      then give tt
      else change (change_pool bind (λ p. release p id)) >> fail (is_gone "bind")

  abbrev pub bind_check : EntityKind → ℤ → Act H (Unit {0})
  bind_check bind id = require_bind_exists id
  bind_check _ id = give tt

  abbrev same_kind : EntityKind → EntityKind → Bool
  same_kind j k = kind_index j == kind_index k

  -- ToHandle.
  abbrev pub to_handle : EntityKind → LuaValue → Option EntityRef
  to_handle j (handle_value k id generation) =
      if same_kind j k then some (record { id = id; generation = generation }) else none
  to_handle _ _ = none

  -- The entity of a handle, or the error for an argument that is none.
  abbrev pub live_or_error : EntityKind → Binding → ℕ → Option EntityRef → Act H EntityRef
  live_or_error j b index none = lift (type_error b index (traits_of j).type_name)
  live_or_error j b index (some r) = do require_alive j r.id r.generation; bind_check j r.id; give r

  -- CheckLive.
  unfoldable pub check_live : EntityKind → Binding → ℕ → Act H EntityRef
  unfolding require_runtime
  check_live kind b index = do
    require_runtime
    live_or_error kind b index (to_handle kind (value_at b index))

  -- `Created`, once the server gave an id.
  unfoldable pub register : EntityKind → ℤ → Act H EntityRef
  unfolding seen
  register kind id w = (
    ok (seen (w.entities.get kind) id).1,
    change_pool kind (λ p. mark_created_by_us (seen p id).0 id) w,
  )

  abbrev refuse_for : ServerError → Act H EntityRef
  refuse_for no_error = fail server_refused
  refuse_for e = lift (check e) >> fail server_refused

  unfoldable pub created : EntityKind → ℤ → Act H EntityRef
  unfolding check register
  created kind id = if ltb_ℤ id (pos 0) then (last_error_of s >>= refuse_for) else register kind id

  abbrev pub release_if : EntityKind → ℤ → Bool → Act H Bool
  release_if k id true = change (change_pool k (λ p. release p id)) >> give true
  release_if k id false = give false

  -- `destroy` of vehicles, objects, pickups and checkpoints: the server's Delete function, and the
  -- release of the entity if it was deleted.
  unfoldable pub destroy :
      EntityKind → Option (ℤ → Call H ServerError) → String → Binding → Act H Bool
  unfolding check_live
  destroy kind delete name b = do
    self ← check_live kind b 1
    f ← server_fn delete name
    deleted ← check_call (f self.id)
    release_if kind self.id deleted
