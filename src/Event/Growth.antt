-- ===== src/Event/Growth.antt =====
-- What the calls on the bus leave alone while a dispatch is active: the positions of the handlers
-- that its loop goes over, and the flags of the dispatches around it.
use vcmp_lua.Prelude.{
  ap, ◌<◌, Bool-cases, get_or_of_get_elem?, if◌then◌else◌, inr, none, inl, ◌>>=◌, Option-cases,
  zero, arith, suc, refl, ◌∙◌, ◌≡◌, ◌++◌, ◌≢◌,
}
use vcmp_lua.Event.{
  is_empty, set_last, add_handler, is_bound, prepend, Option, err, BusError, find, get_elem?,
  Result, cancel, compact_if_idle, unbind, some, ok, Fn, String, bind, create, length, mark_dead,
  set, false, true, ℕ, ◌∷◌, Bool, Handler, [], List, get_or, EventBus,
}

-- Each handler keeps its place and its function, and a dead one stays dead; new ones come behind.
abbrev pub Grown : List Handler → List Handler → Type 0
Grown [] ys = Unit {0}
Grown (x ∷ xs) [] = ⊥
Grown (x ∷ xs) (y ∷ ys) = (y.fn ≡ x.fn) × (x.alive ≡ false → y.alive ≡ false) × Grown xs ys

-- All flags but the innermost.
abbrev pub outer : List Bool → List Bool
outer [] = []
outer (c ∷ []) = []
outer (c ∷ d ∷ ds) = c ∷ outer (d ∷ ds)

-- As many dispatches are active, and the flags of those that enclose the innermost are the same.
abbrev pub FramesKept : List Bool → List Bool → Type 0
FramesKept cs ds = (length ds ≡ length cs) × (outer ds ≡ outer cs)

pub record BusKept (b b' : EventBus) : Type 0 where
  pub frames : FramesKept b.cancelled b'.cancelled
  pub grown :
      b.cancelled ≢ [] → (event : ℕ) → Grown (get_or b.lists event []) (get_or b'.lists event [])

pub Grown-refl : (xs : List Handler) → Grown xs xs
Grown-refl [] = tt
Grown-refl (x ∷ xs) = (refl, λ h. h, Grown-refl xs)

pub Grown-trans : (xs ys zs : List Handler) → Grown xs ys → Grown ys zs → Grown xs zs
Grown-trans [] ys zs g h = tt
Grown-trans (x ∷ xs) [] zs g h = absurd g
Grown-trans (x ∷ xs) (y ∷ ys) [] g h = absurd h
Grown-trans (x ∷ xs) (y ∷ ys) (z ∷ zs) g h =
    (h.0 ∙ g.0, λ dead. h.1 (g.1 dead), Grown-trans xs ys zs g.2 h.2)

Grown-append : (xs ys : List Handler) → Grown xs (xs ++ ys)
Grown-append [] ys = tt
Grown-append (x ∷ xs) ys = (refl, λ h. h, Grown-append xs ys)

pub FramesKept-trans :
    (bs cs ds : List Bool) → FramesKept bs cs → FramesKept cs ds → FramesKept bs ds
FramesKept-trans bs cs ds g h = (h.0 ∙ g.0, h.1 ∙ g.1)

pub FramesKept-nonempty : (cs ds : List Bool) → FramesKept cs ds → cs ≢ [] → ds ≢ []
FramesKept-nonempty [] ds k h = absurd (h refl)
FramesKept-nonempty (c ∷ cs) [] k h = absurd (omega (arith, k.0))
FramesKept-nonempty (c ∷ cs) (d ∷ ds) k h = λ e. cc

pub BusKept-refl : (b : EventBus) → BusKept b b
BusKept-refl b = record { frames = (refl, refl); grown = λ h e. Grown-refl _ }

pub BusKept-trans : (a b c : EventBus) → BusKept a b → BusKept b c → BusKept a c
BusKept-trans a b c g h = record {
  frames = FramesKept-trans a.cancelled b.cancelled c.cancelled g.frames h.frames;
  grown = λ n e.
      Grown-trans (get_or a.lists e []) (get_or b.lists e []) (get_or c.lists e []) (g.grown n e)
        (h.grown (FramesKept-nonempty a.cancelled b.cancelled g.frames n) e);
}

-- What `mark_dead` leaves, when it finds the function.
abbrev Marks : List Handler → Result BusError (Option (List Handler)) → Type 0
Marks hs (ok (some hs')) = Grown hs hs'
Marks hs (ok none) = Unit
Marks hs (err e) = Unit

Marks-prepend :
    (h : Handler) (hs : List Handler) (r : Result BusError (Option (List Handler)))
    → Marks hs r
    → Marks (h ∷ hs) (do r' ← r; ok (prepend h r'))
Marks-prepend h hs (ok (some hs')) g = (refl, λ d. d, g)
Marks-prepend h hs (ok none) g = tt
Marks-prepend h hs (err e) g = tt

Marks-mark_dead : (room : Bool) (fn : Fn) (hs : List Handler) → Marks hs (mark_dead room fn hs)
unfolding mark_dead
Marks-mark_dead room fn [] = tt
Marks-mark_dead false fn (h ∷ hs) =
    ground (arith, Marks-prepend h hs (mark_dead false fn hs) (Marks-mark_dead false fn hs))
Marks-mark_dead true fn (h ∷ hs) =
    ground
      (arith, Marks-prepend h hs (mark_dead true fn hs) (Marks-mark_dead true fn hs), Grown-refl hs)

Grown-set :
    (ls : List (List Handler)) (event : ℕ) (hs : List Handler) (j : ℕ)
    → Grown (get_or ls event []) hs
    → Grown (get_or ls j []) (get_or (set ls event hs) j [])
Grown-set [] event hs j g = tt
Grown-set (l ∷ ls) zero hs zero g = g
Grown-set (l ∷ ls) zero hs (suc j) g = Grown-refl (get_or ls j [])
Grown-set (l ∷ ls) (suc event) hs zero g = Grown-refl l
Grown-set (l ∷ ls) (suc event) hs (suc j) g = Grown-set ls event hs j g

Grown-new_list :
    (ls : List (List Handler)) (j : ℕ) → Grown (get_or ls j []) (get_or (ls ++ [] ∷ []) j [])
Grown-new_list [] j = tt
Grown-new_list (l ∷ ls) zero = Grown-refl l
Grown-new_list (l ∷ ls) (suc j) = Grown-new_list ls j

pub create-BusKept : (b : EventBus) (name : String) → BusKept b (create b name).0
unfolding create
create-BusKept b name = elim (Option-cases (find b name)) [
  | inl new ↦
      rw (new, create) (record { frames = (refl, refl); grown = λ _. Grown-new_list b.lists })
  | inr (i, old) ↦ rw (old, create) (BusKept-refl b)
]

-- The bus after a call that may throw.
abbrev pub Keeps : EventBus → Result BusError (EventBus × Bool) → Type 0
Keeps b (ok (b', r)) = BusKept b b'
Keeps b (err e) = Unit

abbrev pub KeepsBus : EventBus → Result BusError EventBus → Type 0
KeepsBus b (ok b') = BusKept b b'
KeepsBus b (err e) = Unit

set-BusKept :
    (b : EventBus) (event : ℕ) (hs : List Handler) (c : Bool)
    → Grown (get_or b.lists event []) hs
    → BusKept b (record b { lists = set b.lists event hs; needs_compaction = c })
set-BusKept b event hs c g = record {
  frames = (refl, refl);
  grown = λ _ j. Grown-set b.lists event hs j g;
}

bind_found :
    (b : EventBus) (event : ℕ) (fn : Fn) (hs : List Handler) (found : Result BusError Bool)
    → get_or b.lists event [] ≡ hs
    → Keeps b (do f ← found; if f then ok (b, false) else ok (add_handler b event hs fn, true))
bind_found b event fn hs (ok true) e = BusKept-refl b
bind_found b event fn hs (ok false) e =
    set-BusKept b event (hs ++ record { fn = fn; alive = true } ∷ []) b.needs_compaction
      (rw e (Grown-append hs _))
bind_found b event fn hs (err x) e = tt

pub bind-BusKept :
    (room : Bool) (b : EventBus) (event : ℕ) (fn : Fn) → Keeps b (bind room b event fn)
unfolding bind
bind-BusKept room b event fn = elim (Option-cases (get_elem? b.lists event)) [
  | inl e ↦ rw (e, bind) tt
  | inr (hs, e) ↦
      rw (e, bind)
        (bind_found b event fn hs (is_bound room fn hs) (get_or_of_get_elem? b.lists event [] hs e))
]

pub empty_of_is_empty : (cs : List Bool) → is_empty cs ≡ true → cs ≡ []
unfolding is_empty
empty_of_is_empty [] h = refl
empty_of_is_empty (c ∷ cs) h = cc

-- Compaction waits until no dispatch is active.
compact_if_idle-BusKept : (b b' : EventBus) → BusKept b b' → BusKept b (compact_if_idle b')
unfolding compact_if_idle
compact_if_idle-BusKept b b' k = elim (Bool-cases (is_empty b'.cancelled)) [
  | inr busy ↦ rw busy k
  | inl idle ↦ rw idle (record {
    frames = k.frames;
    grown = λ n. absurd (
        FramesKept-nonempty b.cancelled b'.cancelled k.frames n
          (empty_of_is_empty b'.cancelled idle));
  })
]

unbind_found :
    (b : EventBus) (event : ℕ) (hs : List Handler) (found : Result BusError (Option (List Handler)))
    → get_or b.lists event [] ≡ hs
    → Marks hs found
    → Keeps b (do
      f ← found
      elim f [
        | none ↦ ok (b, false)
        | some hs' ↦ ok (
          compact_if_idle (record b { lists = set b.lists event hs'; needs_compaction = true }),
          true,
        )
      ])
unbind_found b event hs (ok none) e g = BusKept-refl b
unbind_found b event hs (ok (some hs')) e g =
    compact_if_idle-BusKept b _ (set-BusKept b event hs' true (rw e g))
unbind_found b event hs (err x) e g = tt

pub unbind-BusKept :
    (room : Bool) (b : EventBus) (event : ℕ) (fn : Fn) → Keeps b (unbind room b event fn)
unfolding unbind
unbind-BusKept room b event fn = elim (Option-cases (get_elem? b.lists event)) [
  | inl e ↦ rw (e, unbind) tt
  | inr (hs, e) ↦
      rw (e, unbind)
        (unbind_found b event hs (mark_dead room fn hs) (get_or_of_get_elem? b.lists event [] hs e)
          (Marks-mark_dead room fn hs))
]

pub outer-cons : (c : Bool) (ds : List Bool) → 0 < length ds → outer (c ∷ ds) ≡ c ∷ outer ds
outer-cons c [] h = elim h [ ]
outer-cons c (d ∷ ds) h = refl

FramesKept-set_last : (cs : List Bool) → FramesKept cs (set_last cs)
unfolding set_last
FramesKept-set_last [] = (refl, refl)
FramesKept-set_last (c ∷ []) = (refl, refl)
FramesKept-set_last (c ∷ d ∷ cs) =
    let ih = FramesKept-set_last (d ∷ cs) in
    (omega (arith, ih.0), outer-cons c (set_last (d ∷ cs)) (omega (arith, ih.0)) ∙ ap (◌∷◌ c) ih.1)

pub cancel-BusKept : (b : EventBus) → KeepsBus b (cancel b)
unfolding cancel
cancel-BusKept b = elim (Bool-cases (is_empty b.cancelled)) [
  | inl e ↦ rw e tt
  | inr e ↦ rw e (record { frames = FramesKept-set_last b.cancelled; grown = λ _ j. Grown-refl _ })
]
