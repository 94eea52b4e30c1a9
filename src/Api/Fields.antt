-- ===== src/Api/Fields.antt =====
-- src/plugin/api_guard.hpp and the callbacks that Init writes (src/plugin/callbacks.cpp).
use vcmp_lua.Api.Listing.{every_is_listed, eq_of_same_callback, same_callback, is_listed}
use vcmp_lua.Api.Start.{
  init_with, idle, Attempt, Arguments, init, start, on_server_frame, on_server_shutdown, Started,
  on_server_initialise, optional_callbacks, required_callbacks, Layout, CallbackField, has_required,
  set_callbacks,
}
use vcmp_lua.Prelude.{
  none, Option, subst, not, if_cases, some, ◌==◌, sym, ap, false, refl, [], ◌∙◌, ◌∷◌, if◌then◌else◌,
  ◌++◌, ◌||◌, List, ◌&&◌, Bool, ◌+◌, arith, ◌↔◌, true, ◌≡◌, ◌≤◌, ℕ,
}
use vcmp_lua.Api.{has_field, field_fits}

-- FieldFits holds exactly if the end of the field lies within the size of the struct, without the
-- overflow that the sum of offset and size could have.
pub field_fits_lem :
    (struct_size offset size : ℕ)
    → (field_fits struct_size offset size ≡ true) ↔ (offset + size ≤ struct_size)
unfolding field_fits
field_fits_lem struct_size offset size = (λ e. ground arith, λ h. ground arith)

-- A version of the server with larger structs has every field that a version with smaller ones has.
pub field_fits-larger :
    (small large offset size : ℕ)
    → small ≤ large
    → field_fits small offset size ≡ true
    → field_fits large offset size ≡ true
unfolding field_fits
field_fits-larger small large offset size h e = ground arith

is_listed-if :
    (f g : CallbackField) (h : Bool) (rest : List CallbackField)
    → is_listed f (if h then g ∷ rest else rest) ≡ (h && same_callback f g) || is_listed f rest
is_listed-if f g true rest = refl
is_listed-if f g false rest = refl

both_or : (s h k r : Bool) → (s ≡ true → h ≡ k) → (k && s) || (r && h) ≡ (s || r) && h
both_or true true k r p = grind (arith, p refl)
both_or true false k r p = grind (arith, p refl)
both_or false true true r p = refl
both_or false true false r p = refl
both_or false false true r p = refl
both_or false false false r p = refl

-- What Init writes of a list of callbacks.
is_listed-set_callbacks :
    (layout : Layout) (size : ℕ) (f : CallbackField) (fs : List CallbackField)
    → is_listed f (set_callbacks layout size fs)
      ≡ is_listed f fs && has_field size (layout.callback f)
unfolding set_callbacks
is_listed-set_callbacks layout size f [] = refl
is_listed-set_callbacks layout size f (g ∷ gs) =
    is_listed-if f g (has_field size (layout.callback g)) (set_callbacks layout size gs)
    ∙ ap (λ r. (has_field size (layout.callback g) && same_callback f g) || r)
        (is_listed-set_callbacks layout size f gs)
    ∙ both_or (same_callback f g) (has_field size (layout.callback f))
        (has_field size (layout.callback g)) (is_listed f gs)
        (λ e. ap (λ x. has_field size (layout.callback x)) (eq_of_same_callback f g e))

-- With the required callbacks present, all that is written fits and all that fits is written.
is_listed-append :
    (f : CallbackField) (xs ys : List CallbackField)
    → is_listed f (xs ++ ys) ≡ is_listed f xs || is_listed f ys
is_listed-append f [] ys = refl
is_listed-append f (x ∷ xs) ys = grind (arith, is_listed-append f xs ys)

-- The three tests of has_required, one inside the other.
three_ifs :
    (a b c : Bool) {A : Type 0} (x y z : A)
    → a && b && c ≡ true
    → (if a
        then x ∷ (if b then y ∷ (if c then z ∷ [] else []) else (if c then z ∷ [] else []))
        else (if b then y ∷ (if c then z ∷ [] else []) else (if c then z ∷ [] else [])))
      ≡ x ∷ y ∷ z ∷ []
three_ifs true true true x y z h = refl
three_ifs false b c x y z h = cc
three_ifs true false c x y z h = cc
three_ifs true true false x y z h = cc

set_callbacks-required :
    (layout : Layout) (size : ℕ)
    → has_required layout size ≡ true
    → set_callbacks layout size required_callbacks ≡ required_callbacks
unfolding set_callbacks has_required
set_callbacks-required layout size h =
    three_ifs (has_field size (layout.callback on_server_initialise))
      (has_field size (layout.callback on_server_shutdown))
      (has_field size (layout.callback on_server_frame)) on_server_initialise on_server_shutdown
      on_server_frame h

and_right : (b c : Bool) → b ≡ b && c → b ≡ true → c ≡ true
and_right b c e h = grind arith

required-has_field :
    (layout : Layout) (size : ℕ) (f : CallbackField)
    → has_required layout size ≡ true
    → is_listed f required_callbacks ≡ true
    → has_field size (layout.callback f) ≡ true
required-has_field layout size f h e =
    and_right (is_listed f required_callbacks) (has_field size (layout.callback f))
      (ap (is_listed f) (sym (set_callbacks-required layout size h))
        ∙ is_listed-set_callbacks layout size f required_callbacks)
      e

one_of : (r o h : Bool) → r || o ≡ true → (r ≡ true → h ≡ true) → r || (o && h) ≡ h
one_of true o h e k = sym (k refl)
one_of false true h e k = refl
one_of false false h e k = grind arith

written_when_started :
    (layout : Layout) (size : ℕ) (f : CallbackField)
    → has_required layout size ≡ true
    → is_listed f (required_callbacks ++ set_callbacks layout size optional_callbacks)
      ≡ has_field size (layout.callback f)
written_when_started layout size f h =
    is_listed-append f required_callbacks (set_callbacks layout size optional_callbacks)
    ∙ ap (λ r. is_listed f required_callbacks || r)
        (is_listed-set_callbacks layout size f optional_callbacks)
    ∙ one_of (is_listed f required_callbacks) (is_listed f optional_callbacks)
        (has_field size (layout.callback f)) (every_is_listed f)
        (required-has_field layout size f h)

-- What Init does to a callback that fits or not, on a plugin that has a runtime or not.
abbrev pub WritesOnSuccess : CallbackField → Bool → Bool → Started → Type 0
WritesOnSuccess f fits has_runtime s =
    (is_listed f s.written ≡ (s.result == 1) && fits) × (s.runtime ≡ (s.result == 1) || has_runtime)

start-WritesOnSuccess :
    (layout : Layout) (a : Arguments) (t : Attempt) (size info_size : ℕ) (libraries : Bool)
    (f : CallbackField)
    → WritesOnSuccess f
        (has_field size (layout.callback f))
        false
        (start layout a t size info_size (idle false libraries))
unfolding start
start-WritesOnSuccess layout a t size info_size libraries f =
    if_cases Right (a.manage_libraries && not t.libraries_start) _ _ (λ _. (refl, refl))
      (λ _.
        if_cases Right (not (has_required layout size)) _ _ (λ _. (refl, refl))
          (λ e.
            if_cases Right (not (t.config_reads && t.constructs && t.hook_returns)) _ _
              (λ _. (refl, refl)) (λ _. (written_when_started layout size f (grind arith), refl))))
  where
    Right : Started → Type 0
    Right = WritesOnSuccess f (has_field size (layout.callback f)) false

idle-WritesOnSuccess :
    (f : CallbackField) (fits r libraries : Bool) → WritesOnSuccess f fits r (idle r libraries)
idle-WritesOnSuccess f fits r libraries = (refl, refl)

init_with-WritesOnSuccess :
    (layout : Layout) (a : Arguments) (t : Attempt) (has_runtime libraries : Bool) (size : ℕ)
    (info_size : Option ℕ) (f : CallbackField)
    → WritesOnSuccess f
        (has_field size (layout.callback f))
        has_runtime
        (init_with layout a t (some size) info_size has_runtime libraries)
unfolding init_with
init_with-WritesOnSuccess layout a t r libraries size none f = (refl, refl)
init_with-WritesOnSuccess layout a t true libraries size (some i) f =
    if_cases (WritesOnSuccess f (has_field size (layout.callback f)) true) (not a.has_funcs || true)
      (idle true libraries) (start layout a t size i (idle true libraries)) (λ _. (refl, refl))
      (λ e. absurd (grind arith))
init_with-WritesOnSuccess layout a t false libraries size (some i) f =
    if_cases (WritesOnSuccess f (has_field size (layout.callback f)) false)
      (not a.has_funcs || false) (idle false libraries)
      (start layout a t size i (idle false libraries)) (λ _. (refl, refl))
      (λ _. start-WritesOnSuccess layout a t size i libraries f)

-- For callbacks of a given struct size, Init writes a callback exactly if it returns 1 and the
-- field lies within the struct, and the plugin has a runtime afterwards exactly if Init returned
-- 1 or it had one, wherever Init fails or throws.
pub init-WritesOnSuccess :
    (layout : Layout) (a : Arguments) (t : Attempt) (has_runtime libraries : Bool) (size : ℕ)
    (f : CallbackField)
    → a.calls_size ≡ some size
    → WritesOnSuccess f
        (has_field size (layout.callback f))
        has_runtime
        (init layout a t has_runtime libraries)
unfolding init
init-WritesOnSuccess layout a t has_runtime libraries size f e =
    subst
      (λ c.
        WritesOnSuccess f (has_field size (layout.callback f)) has_runtime
          (init_with layout a t c a.info_size has_runtime libraries))
      (sym e) (init_with-WritesOnSuccess layout a t has_runtime libraries size a.info_size f)
