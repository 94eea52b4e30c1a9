-- ===== src/Event/Frames.antt =====
-- DispatchFrame: pushed and popped around a loop that keeps the bus, it leaves the flags of the
-- enclosing dispatches as they were.
use vcmp_lua.Prelude.{
  refl, ◌∙◌, length-append, zero, arith, ◌&&◌, take, ◌≢◌, if_cases, suc, ap, false, ◌∷◌, ◌≡◌,
  length, ◌++◌, Bool, List, ℕ,
}
use vcmp_lua.Event.{is_empty, [], compact, finish_frame, pop_frame, push_frame, EventBus}
use vcmp_lua.Event.Growth.{
  empty_of_is_empty, FramesKept-nonempty, outer-cons, outer, BusKept, FramesKept,
}

outer-append : (cs : List Bool) (c : Bool) → outer (cs ++ c ∷ []) ≡ cs
outer-append [] c = refl
outer-append (d ∷ cs) c =
    outer-cons d (cs ++ c ∷ []) (omega (arith, length-append cs (c ∷ [])))
    ∙ ap (◌∷◌ d) (outer-append cs c)

take-outer : (n : ℕ) (ds : List Bool) → length ds ≡ suc n → take n ds ≡ outer ds
take-outer zero (d ∷ []) h = refl
take-outer (suc n) (d ∷ d' ∷ ds) h = ap (◌∷◌ d) (take-outer n (d' ∷ ds) (omega arith))
take-outer n [] h = absurd (omega arith)
take-outer zero (d ∷ d' ∷ ds) h = absurd (omega arith)
take-outer (suc n) (d ∷ []) h = absurd (omega arith)

pub take_of_FramesKept :
    (cs ds : List Bool) → FramesKept (cs ++ false ∷ []) ds → take (length cs) ds ≡ cs
take_of_FramesKept cs ds h =
    take-outer (length cs) ds (omega (arith, h.0, length-append cs (false ∷ [])))
    ∙ h.1
    ∙ outer-append cs false

append-nonempty : (cs : List Bool) (c : Bool) → (cs ++ c ∷ []) ≢ []
append-nonempty [] c = λ e. cc
append-nonempty (d ∷ cs) c = λ e. cc

module _ (b b' : EventBus) (k : BusKept (push_frame b) b') where
  pub cancelled-pop_frame : (pop_frame b' (length b.cancelled)).cancelled ≡ b.cancelled
  unfolding push_frame pop_frame
  cancelled-pop_frame = take_of_FramesKept b.cancelled b'.cancelled k.frames

  pub pop_frame-BusKept : BusKept b (pop_frame b' (length b.cancelled))
  unfolding push_frame pop_frame
  pop_frame-BusKept =
      let same = take_of_FramesKept b.cancelled b'.cancelled k.frames in
      record {
        frames = (ap length same, ap outer same);
        grown = λ _ e. k.grown (append-nonempty b.cancelled false) e;
      }

  pub cancelled-finish_frame : (finish_frame b' (length b.cancelled)).0.cancelled ≡ b.cancelled
  unfolding finish_frame
  cancelled-finish_frame =
      if_cases (λ (c : EventBus). c.cancelled ≡ b.cancelled) _
        (compact (pop_frame b' (length b.cancelled))) (pop_frame b' (length b.cancelled))
        (λ _. cancelled-pop_frame) (λ _. cancelled-pop_frame)

  pub finish_frame-BusKept : BusKept b (finish_frame b' (length b.cancelled)).0
  unfolding finish_frame compact
  finish_frame-BusKept =
      let popped = pop_frame b' (length b.cancelled) in
      if_cases (BusKept b) (is_empty popped.cancelled && popped.needs_compaction) (compact popped)
        popped
        (λ h. record {
          frames = pop_frame-BusKept.frames;
          grown = λ n. absurd (
              FramesKept-nonempty b.cancelled popped.cancelled pop_frame-BusKept.frames n
                (empty_of_is_empty popped.cancelled (ground arith)));
        })
        (λ _. pop_frame-BusKept)
