-- ===== src/Dispatch/Recording.antt =====
-- Handlers that only record their call and may cancel the event, and what a dispatch of them calls.
use vcmp_lua.Event.{set_last}
use vcmp_lua.World.{Pcall, Machine, World}
use vcmp_lua.Lua.{Fn}
use vcmp_lua.Prelude.{[], if◌then◌else◌, ◌||◌, false, true, ◌++◌, ◌∷◌, Bool, List}

-- The functions called: those up to the first that cancels.
abbrev pub until_cancelled : (Fn → Bool) → List Fn → List Fn
until_cancelled cancels [] = []
until_cancelled cancels (fn ∷ fns) =
    if cancels fn then fn ∷ [] else fn ∷ until_cancelled cancels fns

abbrev pub any_cancels : (Fn → Bool) → List Fn → Bool
any_cancels cancels [] = false
any_cancels cancels (fn ∷ fns) = cancels fn || any_cancels cancels fns

-- The world after calls of `fns`, the last of which cancelled the event if `c`.
abbrev pub called : World (List Fn) → List Fn → Bool → World (List Fn)
called w fns c = record w {
  host = w.host ++ fns;
  events = if c then record (w.events) { cancelled = set_last w.events.cancelled } else w.events;
}

-- A handler that records its call, and cancels the event if it is one that does.
abbrev pub recording : (Fn → Bool) → Pcall (List Fn)
recording cancels fn args w = (true, called w (fn ∷ []) (cancels fn))

abbrev pub roomy : Machine (List Fn)
roomy = record { room = λ h n. true; new_object = λ h. (0, h) }
