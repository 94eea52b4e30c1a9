-- ===== src/Examples.antt =====
-- The theorems at concrete inputs.
pub mod Parts
pub mod Pools
pub mod Calls
pub mod Texts
pub mod Scripts
use vcmp_lua.Entity.History.Handles.{push_stable}
use vcmp_lua.Entity.Slots.{slot_index-lt}
use vcmp_lua.Entity.History.Independence.{slot-step}
use vcmp_lua.Entity.History.Generations.{generation-run, stale_handle, lifetimes}
use vcmp_lua.Entity.History.{slot_step, adopts, releases, PoolOp, step, run}
use vcmp_lua.Entity.History.Invariant.{run-new-IsValid, IsValid}
use vcmp_lua.Entity.{
  traits_of, set_slot, in_range, is_alive, adopt, blip, release, EntityPool, is_valid, slot,
  slot_index,
}
use vcmp_lua.Prelude.{
  refl, arith, none, some, true, if◌then◌else◌, ◌^◌, [], ◌%◌, false, length, ◌+◌, ◌∷◌, ◌<◌, ◌≡◌,
  pos, List, ℕ,
}
use vcmp_lua.Event
use vcmp_lua.Timer
use vcmp_lua.Entity
use vcmp_lua.Plugin
use vcmp_lua.Script

-- A pool of blips in which blip 3 is alive, in its first lifetime.
abbrev blip_calls : List PoolOp
blip_calls = adopts (pos 3) ∷ []

abbrev blips : EntityPool
blips = run (Entity.new blip) blip_calls

blips-IsValid : IsValid blips
blips-IsValid = run-new-IsValid blip blip_calls

blip_3 : is_valid blips (pos 3) 1 ≡ true
unfolding run step adopt is_valid is_alive in_range slot set_slot Entity.new traits_of
blip_3 = refl

one_lifetime : lifetimes (release blips (pos 3)) (pos 3) blip_calls < 2 ^ 32
unfolding lifetimes run step adopt release is_alive in_range slot set_slot Entity.new traits_of
one_lifetime = ground arith

stale_handle_example : is_valid (run (release blips (pos 3)) blip_calls) (pos 3) 1 ≡ false
stale_handle_example = stale_handle blips (pos 3) 1 blip_calls blips-IsValid blip_3 one_lifetime

blip_3_in_range : in_range blips (pos 3) ≡ true
unfolding run step adopt in_range slot set_slot Entity.new traits_of
blip_3_in_range = refl

generation-run_example :
    (slot (run blips blip_calls) (pos 3)).generation
    ≡ ((slot blips (pos 3)).generation + lifetimes blips (pos 3) blip_calls) % 2 ^ 32
generation-run_example = generation-run blips (pos 3) blip_calls blips-IsValid blip_3_in_range

pushed_first : (Entity.push blips (pos 3) 1 7).1 ≡ some 7
unfolding run step adopt Entity.push is_valid is_alive in_range slot set_slot Entity.new traits_of
pushed_first = refl

push_stable_example :
    (Entity.push (run (Entity.push blips (pos 3) 1 7).0 (adopts (pos 4) ∷ [])) (pos 3) 1 9).1 ≡ (
      if (run (Entity.push blips (pos 3) 1 7).0 (adopts (pos 4) ∷ [])).closed then none else some 7)
push_stable_example =
    push_stable blips (pos 3) 1 7 7 9 (adopts (pos 4) ∷ []) blips-IsValid pushed_first (refl, tt)

slot-step_example :
    slot (step blips (releases (pos 3))) (pos 3)
    ≡ slot_step blips.closed (pos 3) (releases (pos 3)) (slot blips (pos 3))
slot-step_example = slot-step blips (pos 3) blips-IsValid.sized blip_3_in_range (releases (pos 3))

run-new-IsValid_example : IsValid (run (Entity.new blip) blip_calls)
run-new-IsValid_example = run-new-IsValid blip blip_calls

slot_index-lt_example : slot_index blips (pos 3) < length blips.slots
slot_index-lt_example = slot_index-lt blips (pos 3) blips-IsValid.sized blip_3_in_range
