-- ===== src/Timer/Running.antt =====
-- A timer whose callback runs stays in the map, whatever the script does: `Destroy` only marks it.
use vcmp_lua.Timer.Map.{find-put, find-erase_ne, find-modify}
use vcmp_lua.Prelude.{
  refl, eq_of_==, guard, ◌>>◌, false, List, err, none, some, ok, true, ℤ, arith, ◌≡◌,
}
use vcmp_lua.Timer.{
  or_default, with_timer, Timer, created_timer, bad_repeats, bad_interval, find, Bool, Fn,
  TimerError, Value, Result, create, destroy, set_handle, ℕ, Scheduler,
}

unfoldable pub is_running : Scheduler → ℕ → Bool
is_running s id = elim (find id s.timers) [ none ↦ false | some t ↦ t.running ]

abbrev pub RunningKept : Scheduler → Scheduler → Type 0
RunningKept s s' = (id : ℕ) → is_running s id ≡ true → is_running s' id ≡ true

pub set_handle-RunningKept :
    (s : Scheduler) (id : ℕ) (v : Value) → RunningKept s (set_handle s id v)
unfolding set_handle is_running
set_handle-RunningKept s id v j h =
    ground (arith, find-modify id j (λ t. record t { handle = v }) s.timers)

pub destroy-RunningKept : (s : Scheduler) (id : ℕ) → RunningKept s (destroy s id).0
unfolding destroy is_running
destroy-RunningKept s id j h = ground (
  arith,
  find-modify id j (λ t. record t { destroyed = true }) s.timers,
  find-erase_ne id j s.timers,
)

-- The scheduler after a call of `Create` that may throw.
abbrev pub KeepsRunning : Scheduler → Result TimerError (Scheduler × ℕ) → Type 0
KeepsRunning s (ok (s', id)) = RunningKept s s'
KeepsRunning s (err e) = Unit

KeepsRunning-guard :
    (s : Scheduler) (b : Bool) (e : TimerError) (r : Result TimerError (Scheduler × ℕ))
    → KeepsRunning s r
    → KeepsRunning s (do guard b e; r)
KeepsRunning-guard s true e r h = h
KeepsRunning-guard s false e r h = tt

put_created :
    (s : Scheduler) (t : Timer)
    → t.running ≡ (or_default (find s.next_id s.timers)).running
    → RunningKept s (with_timer s t)
unfolding is_running
put_created s t e j h = ground (arith, find-put s.next_id j t s.timers, eq_of_== s.next_id j)

pub create-KeepsRunning :
    (s : Scheduler) (now : ℕ) (fn : Fn) (interval repeats : ℤ) (args : List Value)
    → KeepsRunning s (create s now fn interval repeats args)
unfolding create
create-KeepsRunning s now fn interval repeats args =
    let t = created_timer s now fn interval repeats args in
    let done : Result TimerError (Scheduler × ℕ) = ok (with_timer s t, s.next_id) in
    KeepsRunning-guard s _ bad_interval (do guard _ bad_repeats; done)
      (KeepsRunning-guard s _ bad_repeats done (put_created s t refl))
