-- ===== src/Bindings/Keys.antt =====
-- src/bindings/bind.cpp: the key binds, which other plugins share.
use vcmp_lua.Args.{no_such_entity, no_error, check, ServerError}
use vcmp_lua.Entity.{
  bind, release, ref, slot, created_by_us, no_ref, EntityRef, EntityPool, alive_ids,
}
use vcmp_lua.Prelude.{true, [], Bool, same_text, if◌then◌else◌, ◌∷◌, List, ℤ, Option, String}
use vcmp_lua.Bindings.{
  lift, ask, change_pool, change, read, server_fn, give, Act, require_runtime, Call, Server, ◌>>=◌,
  ◌>>◌,
}

module _ {H : Type 0} (s : Server H) (remove_key_bind : Option (ℤ → Call H ServerError)) where
  -- `Remove`, once the server answered: a bind that is gone already counts as removed.
  unfoldable pub remove_for : ℤ → ServerError → Act H Bool
  unfolding check
  remove_for id no_error = change (change_pool s bind (λ p. release p id)) >> give true
  remove_for id no_such_entity = change (change_pool s bind (λ p. release p id)) >> give true
  remove_for id e = lift (check e)

  unfoldable pub remove : ℤ → Act H Bool
  unfolding remove_for
  remove id = do f ← server_fn remove_key_bind "RemoveKeyBind"; e ← ask (f id); remove_for id e

  -- The loop of `clearAllBinds`, over the ids as they were at its start.
  remove_all : List ℤ → Act H (Unit {0})
  unfolding remove
  remove_all [] = give tt
  remove_all (id ∷ ids) = do
    w ← read (λ w. w)
    remove (ref (w.entities.get bind) id).id
    remove_all ids

  unfoldable pub clear_all_binds : Act H (Unit {0})
  unfolding require_runtime remove_all created_by_us
  clear_all_binds = do
    require_runtime s
    ids ← read (λ w. vcmp_lua.Entity.created_by_us (w.entities.get bind))
    remove_all ids

-- The loop of `findByTag`; the ids are alive, so Tag does not throw.
first_tagged : EntityPool → String → List ℤ → EntityRef
first_tagged p tag [] = no_ref
first_tagged p tag (id ∷ ids) =
    let rest = first_tagged p tag ids in if same_text (slot p id).tag tag then ref p id else rest

unfoldable pub find_by_tag : EntityPool → String → EntityRef
unfolding first_tagged alive_ids
find_by_tag p tag = first_tagged p tag (alive_ids p)
