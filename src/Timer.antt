-- ===== src/Timer.antt =====
-- src/core/scheduler.hpp and scheduler.cpp, class Scheduler: the timers and the calls on them. The
-- tick, which calls them, is in Tick.antt.
-- Times are milliseconds on a clock that is not negative. `std::map` is a list by rising id.
pub mod Map
pub mod Running
pub mod Due
use vcmp_lua.Prelude.{
  ◌%◌, ok, ◌-◌, leb_ℤ, pos_part, guard, ltb, pos, true, eq_ℤ, false, leb, ltb_ℤ, suc, ◌&&◌, ◌==◌,
  ◌>>◌, Result, if◌then◌else◌, map, negsuc, none, not, some, ◌+◌, ◌^◌, ◌||◌, ◌∷◌, Bool, List,
  Option, [], ℕ, ℤ,
}
use vcmp_lua.Lua.{nil, Fn, Value}

pub record Timer : Type 0 where
  pub callback : Fn
  pub args : List Value
  pub handle : Value
  pub interval : ℕ
  pub remaining : ℤ
  pub due : ℕ
  pub running : Bool
  pub destroyed : Bool

pub record Scheduler : Type 0 where
  pub timers : List (ℕ × Timer)
  pub next_id : ℕ

-- std::out_of_range: the interval, or the repeat count.
pub data TimerError : Type 0 where
  bad_interval bad_repeats : TimerError

abbrev pub forever : ℤ
forever = negsuc 0

abbrev pub max_interval : ℕ
max_interval = 2 ^ 40

abbrev pub new : Scheduler
new = record { timers = []; next_id = 1 }

-- `timers_.find(id)`.
unfoldable pub find : ℕ → List (ℕ × Timer) → Option Timer
find id [] = none
find id ((k, t) ∷ rest) = if k == id then some t else find id rest

-- `timers_[id] = timer`, in the order of the keys.
unfoldable pub put : ℕ → Timer → List (ℕ × Timer) → List (ℕ × Timer)
put id t [] = (id, t) ∷ []
put id t ((k, u) ∷ rest) =
    let later = (k, u) ∷ put id t rest in
    if k == id then (id, t) ∷ rest else if ltb id k then (id, t) ∷ (k, u) ∷ rest else later

-- `timers_.erase(id)`.
unfoldable pub erase : ℕ → List (ℕ × Timer) → List (ℕ × Timer)
erase id [] = []
erase id ((k, t) ∷ rest) = if k == id then rest else (k, t) ∷ erase id rest

-- A write through the reference to a timer of the map.
unfoldable pub modify : ℕ → (Timer → Timer) → List (ℕ × Timer) → List (ℕ × Timer)
modify id f [] = []
modify id f ((k, t) ∷ rest) = if k == id then (k, f t) ∷ rest else (k, t) ∷ modify id f rest

-- The members of `Timer` that `Create` does not set keep the default, or, were the id taken
-- already, what they were.
abbrev pub default_timer : Timer
default_timer = record {
  callback = 0;
  args = [];
  handle = nil;
  interval = 0;
  remaining = forever;
  due = 0;
  running = false;
  destroyed = false;
}

abbrev or_default : Option Timer → Timer
or_default none = default_timer
or_default (some t) = t

-- The timer that `Create` leaves under the next id, and the scheduler with it.
abbrev pub created_timer : Scheduler → ℕ → Fn → ℤ → ℤ → List Value → Timer
created_timer s now callback interval repeats args = record (or_default (find s.next_id s.timers)) {
  callback = callback;
  args = args;
  interval = pos_part interval;
  remaining = repeats;
  due = now + pos_part interval;
}

abbrev pub with_timer : Scheduler → Timer → Scheduler
with_timer s t = record { timers = put s.next_id t s.timers; next_id = (s.next_id + 1) % 2 ^ 64 }

unfoldable pub create : Scheduler → ℕ → Fn → ℤ → ℤ → List Value → Result TimerError (Scheduler × ℕ)
create s now callback interval repeats args = do
  guard (not (ltb_ℤ interval (pos 0) || ltb_ℤ (pos max_interval) interval)) bad_interval
  guard (not (not (eq_ℤ repeats forever) && leb_ℤ repeats (pos 0))) bad_repeats
  ok (with_timer s (created_timer s now callback interval repeats args), s.next_id)

unfoldable pub set_handle : Scheduler → ℕ → Value → Scheduler
set_handle s id handle = record s {
  timers = modify id (λ t. record t { handle = handle }) s.timers;
}

unfoldable pub destroy : Scheduler → ℕ → Scheduler × Bool
destroy s id = elim (find id s.timers) [
  | none ↦ (s, false)
  | some t ↦
      if t.destroyed
      then (s, false)
      else if t.running
      then (record s { timers = modify id (λ t. record t { destroyed = true }) s.timers }, true)
      else (record s { timers = erase id s.timers }, true)
]

unfoldable pub exists : Scheduler → ℕ → Bool
exists s id = elim (find id s.timers) [ none ↦ false | some t ↦ not t.destroyed ]

unfoldable pub count_live : List (ℕ × Timer) → ℕ
count_live [] = 0
count_live ((k, t) ∷ rest) = let n = count_live rest in if t.destroyed then n else suc n

unfoldable pub count : Scheduler → ℕ
unfolding count_live
count s = count_live s.timers

unfoldable pub clear : Scheduler → Scheduler
clear s = record s { timers = [] }

-- `!timer.destroyed && timer.due <= now`.
abbrev pub is_due : ℕ → Timer → Bool
is_due now t = not t.destroyed && leb t.due now

-- The first loop of `Tick`, with the due time of each id for the sort.
unfoldable pub collect_due : ℕ → List (ℕ × Timer) → List (ℕ × ℕ)
collect_due now [] = []
collect_due now ((k, t) ∷ rest) =
    let others = collect_due now rest in if is_due now t then (t.due, k) ∷ others else others

-- The comparison of the sort: earliest first, ids break ties.
abbrev pub earlier : ℕ × ℕ → ℕ × ℕ → Bool
earlier (due_a, a) (due_b, b) = if not (due_a == due_b) then ltb due_a due_b else ltb a b

-- `std::sort`, whose result the comparison decides, as an insertion sort.
unfoldable pub insert_due : ℕ × ℕ → List (ℕ × ℕ) → List (ℕ × ℕ)
insert_due x [] = x ∷ []
insert_due x (y ∷ ys) = let later = y ∷ insert_due x ys in if earlier y x then later else x ∷ y ∷ ys

unfoldable pub sort_due : List (ℕ × ℕ) → List (ℕ × ℕ)
unfolding insert_due
sort_due [] = []
sort_due (x ∷ xs) = insert_due x (sort_due xs)

-- The ids of the timers that a tick at time `now` calls, in order.
unfoldable pub due_ids : Scheduler → ℕ → List ℕ
unfolding collect_due sort_due
due_ids s now = map (λ e. e.1) (sort_due (collect_due now s.timers))

-- `Run` before the call: the repeat count, and the next due time.
abbrev pub count_down : ℤ → ℤ
count_down r = if ltb_ℤ (pos 0) r then pos (pos_part r - 1) else r

abbrev pub next_due : ℕ → Timer → ℕ
next_due now t = let due = t.due + t.interval in if leb due now then now + t.interval else due

abbrev pub advance : ℕ → Timer → Timer
advance now t = record t { remaining = count_down t.remaining; due = next_due now t }

-- `Run` after the call: `timer.destroyed || timer.remaining == 0`.
abbrev pub is_over : Timer → Bool
is_over t = t.destroyed || eq_ℤ t.remaining (pos 0)
