-- ===== src/Dispatch/Order.antt =====
-- Which handlers a dispatch calls, and in which order, for handlers that only record their call
-- and may cancel the event.
use vcmp_lua.Dispatch.Recording.{recording, until_cancelled, any_cancels, called, roomy}
use vcmp_lua.Event.Binding.{bound-compact, bound}
use vcmp_lua.Event.Handlers.{live_fns}
use vcmp_lua.Dispatch.{dispatch, finish, after_handler, handler_at, handlers_of, ℕ, dispatch_loop}
use vcmp_lua.Event.{
  has_handlers, is_empty, EventBus, compact, pop_frame, push_frame, finish_frame, frame_cancelled,
  Handler, set_last,
}
use vcmp_lua.Prelude.{
  zero, not, none, get_elem?, subst, ◌-◌, take-append, if_cases, ◌&&◌, take, ap, inr, inl,
  Bool-cases, get_or-length, suc, append_assoc, ◌∙◌, length-append, ◌+◌, append-nil, sym, refl,
  length, arith, get_or, [], some, ◌≡◌, if◌then◌else◌, ◌++◌, false, true, ◌∷◌, Bool, List,
}
use vcmp_lua.Lua.{Value, Fn}
use vcmp_lua.World.{Invoker, enter, Ended, returned, Push, call, World}

get_or_middle : (xs ys : List Handler) (y d : Handler) → get_or (xs ++ y ∷ ys) (length xs) d ≡ y
get_or_middle [] ys y d = refl
get_or_middle (x ∷ xs) ys y d = get_or_middle xs ys y d

frame-set_last : (cs : List Bool) → get_or (set_last (cs ++ false ∷ [])) (length cs) false ≡ true
unfolding set_last
frame-set_last [] = refl
frame-set_last (c ∷ []) = refl
frame-set_last (c ∷ d ∷ cs) = frame-set_last (d ∷ cs)

set_last-append : (cs : List Bool) → set_last (cs ++ false ∷ []) ≡ cs ++ true ∷ []
unfolding set_last
set_last-append [] = refl
set_last-append (c ∷ []) = refl
set_last-append (c ∷ d ∷ cs) = ap (◌∷◌ c) (set_last-append (d ∷ cs))

left_again : (v : Invoker) → record v { depth = v.depth + 1 - 1 } ≡ v
left_again v =
    let same : v.depth + 1 - 1 ≡ v.depth = omega arith in ap (λ n. record v { depth = n }) same

bound_none : (b : EventBus) (event : ℕ) → has_handlers b event ≡ false → bound b event ≡ []
unfolding has_handlers is_empty live_fns
bound_none b event h = none_in b.lists event h
  where
    none_in :
        (ls : List (List Handler)) (i : ℕ)
        → (elim (get_elem? ls i) [ none ↦ false | some hs ↦ not (is_empty hs) ]) ≡ false
        → live_fns (get_or ls i []) ≡ []
    none_in [] i e = refl
    none_in ([] ∷ ls) zero e = refl
    none_in ((x ∷ hs) ∷ ls) zero e = cc
    none_in (hs ∷ ls) (suc i) e = none_in ls i e

flag_on_top : (cs : List Bool) (c : Bool) → get_or (cs ++ c ∷ []) (length cs) false ≡ c
flag_on_top [] c = refl
flag_on_top (d ∷ cs) c = flag_on_top cs c

-- Finishing the innermost frame gives its flag, and leaves the outer ones and the bound functions.
finish_frame-top :
    (b : EventBus) (cs : List Bool) (c : Bool)
    → b.cancelled ≡ cs ++ c ∷ []
    → ((finish_frame b (length cs)).1 ≡ c)
      × ((finish_frame b (length cs)).0.cancelled ≡ cs)
      × ((j : ℕ) → bound (finish_frame b (length cs)).0 j ≡ bound b j)
unfolding finish_frame pop_frame compact frame_cancelled
finish_frame-top b cs c h =
    let popped = pop_frame b (length cs) in
    let idle = is_empty popped.cancelled && popped.needs_compaction in
    let below : popped.cancelled ≡ cs = ap (take (length cs)) h ∙ take-append cs (c ∷ []) in
    (
      ap (λ ds. get_or ds (length cs) false) h ∙ flag_on_top cs c,
      if_cases (λ (b' : EventBus). b'.cancelled ≡ cs) idle (compact popped) popped (λ _. below)
          (λ _. below),
      λ j.
          if_cases (λ (b' : EventBus). bound b' j ≡ bound b j) idle (compact popped) popped
            (λ _. bound-compact popped j) (λ _. refl),
    )

module _ (cancels : Fn → Bool) (args : List Value) where
  abbrev pub push_all : Push (List Fn)
  push_all w = (some args, w)

  call-recording :
      (fn : Fn) (w : World (List Fn))
      → w.invoker.dead ≡ false
      → call roomy (recording cancels) fn push_all w
        ≡ (returned true, called w (fn ∷ []) (cancels fn))
  unfolding call
  call-recording fn w h = ground (arith, h)

  abbrev loop : ℕ → ℕ → ℕ → ℕ → World (List Fn) → Ended (Unit {0}) × World (List Fn)
  loop n event i frame = dispatch_loop roomy (recording cancels) n event i frame push_all

  loop_dead :
      (n event i frame : ℕ) (w : World (List Fn))
      → (handler_at w.events event i).alive ≡ false
      → loop (suc n) event i frame w ≡ loop n event (i + 1) frame w
  unfolding dispatch_loop
  loop_dead n event i frame w h = rw h

  loop_live :
      (n event i : ℕ) (cs : List Bool) (w : World (List Fn)) (fn : Fn)
      → w.invoker.dead ≡ false
      → w.events.cancelled ≡ cs ++ false ∷ []
      → handler_at w.events event i ≡ record { fn = fn; alive = true }
      → loop (suc n) event i (length cs) w ≡ (
          if cancels fn
          then (returned tt, called w (fn ∷ []) true)
          else loop n event (i + 1) (length cs) (called w (fn ∷ []) false))
  unfolding dispatch_loop frame_cancelled
  loop_live n event i cs w fn d f e = rw (e, call-recording fn w d) (branch (cancels fn))
    where
      branch :
          (c : Bool)
          → after_handler roomy
              (recording cancels)
              (length cs)
              (loop n event (i + 1) (length cs))
              (returned true, called w (fn ∷ []) c)
            ≡ (if c
                then (returned tt, called w (fn ∷ []) true)
                else loop n event (i + 1) (length cs) (called w (fn ∷ []) false))
      branch true = rw (f, frame-set_last cs) refl
      branch false = rw (f, get_or-length cs false false) refl

  -- What the loop over `rest` does.
  abbrev done_by : World (List Fn) → List Handler → Ended (Unit {0}) × World (List Fn)
  done_by w rest = (
    returned tt,
    called w (until_cancelled cancels (live_fns rest)) (any_cancels cancels (live_fns rest)),
  )

  step_dead :
      (h : Handler) (rest : List Handler) (w : World (List Fn))
      → h.alive ≡ false
      → done_by w rest ≡ done_by w (h ∷ rest)
  unfolding live_fns
  step_dead h rest w e = rw e refl

  step_live :
      (h : Handler) (rest : List Handler) (w : World (List Fn))
      → h.alive ≡ true
      → (if cancels h.fn
          then (returned tt, called w (h.fn ∷ []) true)
          else done_by (called w (h.fn ∷ []) false) rest)
        ≡ done_by w (h ∷ rest)
  unfolding live_fns
  step_live h rest w e = rw e (elim (Bool-cases (cancels h.fn)) [
    | inl c ↦ rw c refl
    | inr c ↦ rw c (λ i. (
      returned tt,
      record (called w [] (any_cancels cancels (live_fns rest))) {
        host = append_assoc w.host (h.fn ∷ []) (until_cancelled cancels (live_fns rest)) i;
      },
    ))
  ])

  loop_done : (event i frame : ℕ) (w : World (List Fn)) → loop 0 event i frame w ≡ done_by w []
  unfolding live_fns dispatch_loop
  loop_done event i frame w = λ i. (returned tt, record w { host = sym (append-nil w.host) i })

  -- The loop over `rest`, with the handlers `before` it done.
  loop-order :
      (before rest : List Handler) (cs : List Bool) (event : ℕ) (w : World (List Fn))
      → w.invoker.dead ≡ false
      → w.events.cancelled ≡ cs ++ false ∷ []
      → handlers_of w.events event ≡ before ++ rest
      → loop (length rest) event (length before) (length cs) w ≡ done_by w rest
  loop-order before [] cs event w d f e = loop_done event (length before) (length cs) w
  loop-order before (h ∷ rest) cs event w d f e =
      let here : handler_at w.events event (length before) ≡ h =
        rw e (get_or_middle before rest h _) in
      let index : length (before ++ h ∷ []) ≡ length before + 1 =
        omega (arith, length-append before (h ∷ [])) in
      let split : handlers_of w.events event ≡ (before ++ h ∷ []) ++ rest =
        e ∙ sym (append_assoc before (h ∷ []) rest) in
      let later : (w' : World (List Fn))
          → w'.invoker.dead ≡ false
          → w'.events.cancelled ≡ cs ++ false ∷ []
          → handlers_of w'.events event ≡ handlers_of w.events event
          → loop (length rest) event (length before + 1) (length cs) w' ≡ done_by w' rest =
        λ w' d' f' e'.
          rw (sym index) (loop-order (before ++ h ∷ []) rest cs event w' d' f' (e' ∙ split)) in
      elim (Bool-cases h.alive) [
        | inl a ↦
            loop_live (length rest) event (length before) cs w h.fn d f
              (here ∙ λ i. record h { alive = a i })
            ∙ ap (λ r. if cancels h.fn then (returned tt, called w (h.fn ∷ []) true) else r)
                (later (called w (h.fn ∷ []) false) d f refl)
            ∙ step_live h rest w a
        | inr a ↦
            loop_dead (length rest) event (length before) (length cs) w (ap (λ x. x.alive) here ∙ a)
            ∙ later w d f refl
            ∙ step_dead h rest w a
      ]

  abbrev pub started : World (List Fn) → World (List Fn)
  started w = record (enter w) { events = push_frame w.events }

  -- What a dispatch changes: the record of calls, and nothing a script can see of the bus.
  abbrev pub Dispatched : ℕ → World (List Fn) → Ended Bool × World (List Fn) → Type 0
  Dispatched event w r =
      (r.0 ≡ returned (any_cancels cancels (bound w.events event)))
      × (r.1.host ≡ w.host ++ until_cancelled cancels (bound w.events event))
      × (r.1.events.cancelled ≡ w.events.cancelled)
      × ((j : ℕ) → bound r.1.events j ≡ bound w.events j)
      × (r.1.invoker ≡ w.invoker)

  finish-Dispatched :
      (event : ℕ) (w : World (List Fn)) (c : Bool)
      → c ≡ any_cancels cancels (bound w.events event)
      → Dispatched event w (
          finish roomy
            (recording cancels)
            (length w.events.cancelled)
            (returned tt, called (started w) (until_cancelled cancels (bound w.events event)) c))
  unfolding finish push_frame
  finish-Dispatched event w true h =
      let top =
        finish_frame-top
          (record w.events { cancelled = set_last (w.events.cancelled ++ false ∷ []) })
          w.events.cancelled true (set_last-append w.events.cancelled) in
      (ap returned (top.0 ∙ h), refl, top.1, top.2, left_again w.invoker)
  finish-Dispatched event w false h =
      let top = finish_frame-top (push_frame w.events) w.events.cancelled false refl in
      (ap returned (top.0 ∙ h), refl, top.1, top.2, left_again w.invoker)

  -- A dispatch of handlers that record their call and may cancel, at a runtime that is not dead,
  -- calls the bound functions in bind order up to the first that cancels, returns whether one
  -- cancelled, and leaves the bound functions, the flags of the enclosing dispatches and the call
  -- depth as they were.
  pub dispatch-order :
      (event : ℕ) (w : World (List Fn))
      → w.invoker.dead ≡ false
      → Dispatched event w (dispatch roomy (recording cancels) event push_all w)
  unfolding dispatch push_frame
  dispatch-order event w d = elim (Bool-cases (has_handlers w.events event)) [
    | inl some_handlers ↦ rw some_handlers (
        subst
          (λ r. Dispatched event w (finish roomy (recording cancels) (length w.events.cancelled) r))
          (sym (
            loop-order [] (handlers_of w.events event) w.events.cancelled event (started w) d refl
              refl))
          (finish-Dispatched event w _ refl))
    | inr no_handlers ↦ rw no_handlers (
        let nothing = bound_none w.events event no_handlers in
        rw nothing (refl, sym (append-nil w.host), refl, (λ j. refl), refl))
  ]
