-- ===== src/Args/Exact.antt =====
-- src/bindings/args.cpp: which values CheckInteger and CheckColour accept, and what they give.
use mathlib.Core.Option.{some-injective}
use vcmp_lua.Args.{
  err, BindingError, not_finite, fraction, no_integer_representation, value_at, arg_error,
}
use vcmp_lua.Prelude.{
  ◌<◌, ◌-◌, ◌^◌, pos, negsuc, ◌∙◌, inr, ◌>>=◌, inl, Bool-cases, if◌then◌else◌, sym, ap, false,
  subst, ◌||◌, ◌≢◌, ltb_ℤ, arith, none, true, ◌↔◌, some, ◌&&◌, leb_ℤ, ◌≡◌, Bool, Option, ℤ, ℕ,
}
use vcmp_lua.Args.{whole, ok, integer, number_value, Binding, LuaValue}
use vcmp_lua.Args.Numbers.{
  to_uint32, uint32_max, int32_min, check_colour, int64_end, integer_from, int64_min, within,
  check_integer,
}

-- The integer that a Lua value is, as an integer or as a float of integral value.
abbrev pub denoted : LuaValue → Option ℤ
denoted (number_value (integer z)) = some z
denoted (number_value (whole z)) = some z
denoted _ = none

abbrev pub is_between : ℤ → ℤ → ℤ → Bool
is_between low high v = leb_ℤ low v && leb_ℤ v high

within_ok :
    (b : Binding) (index : ℕ) (low high z : ℤ)
    → is_between low high z ≡ true
    → within b index low high z ≡ ok z
within_ok b index low high z h = ground arith

ok_within :
    (b : Binding) (index : ℕ) (low high z v : ℤ)
    → within b index low high z ≡ ok v
    → (z ≡ v) × (is_between low high z ≡ true)
ok_within b index low high z v e = grind arith

err_ne_ok {ℓ} : {A : Type ℓ} {e : BindingError} {v : A} → err e ≢ ok v
err_ne_ok p = ground arith

abbrev too_large : ℤ → Bool
too_large z = ltb_ℤ z int64_min || leb_ℤ int64_end z

not_too_large :
    (low high z : ℤ)
    → leb_ℤ int64_min low ≡ true
    → ltb_ℤ high int64_end ≡ true
    → is_between low high z ≡ true
    → too_large z ≡ false
not_too_large low high z h k e = ground arith

-- A float of integral value, which has to fit 64 bits first.
whole_value :
    (b : Binding) (index : ℕ) (low high z : ℤ)
    → too_large z ≡ false
    → integer_from b index low high (number_value (whole z)) ≡ within b index low high z
whole_value b index low high z e =
    ap
      (λ t.
        (if t then arg_error b index no_integer_representation else ok z)
        >>= within b index low high)
      e

large_value :
    (b : Binding) (index : ℕ) (low high z v : ℤ)
    → too_large z ≡ true
    → integer_from b index low high (number_value (whole z)) ≢ ok v
large_value b index low high z v e = λ h. ground arith

accepted :
    (b : Binding) (index : ℕ) (low high v : ℤ) (a : LuaValue)
    → integer_from b index low high a ≡ ok v
    → (denoted a ≡ some v) × (is_between low high v ≡ true)
accepted b index low high v (number_value (integer z)) e =
    let r = ok_within b index low high z v e in
    (ap some r.0, subst (λ x. is_between low high x ≡ true) r.0 r.1)
accepted b index low high v (number_value (whole z)) e = elim (Bool-cases (too_large z)) [
  | inl q ↦ absurd (large_value b index low high z v q e)
  | inr q ↦
      let r = ok_within b index low high z v (sym (whole_value b index low high z q) ∙ e) in
      (ap some r.0, subst (λ x. is_between low high x ≡ true) r.0 r.1)
]
accepted b index low high v (number_value (fraction n)) e = absurd (err_ne_ok e)
accepted b index low high v (number_value (not_finite n)) e = absurd (err_ne_ok e)
accepted b index low high v _ e = absurd (err_ne_ok e)

accepts :
    (b : Binding) (index : ℕ) (low high v : ℤ) (a : LuaValue)
    → leb_ℤ int64_min low ≡ true
    → ltb_ℤ high int64_end ≡ true
    → denoted a ≡ some v
    → is_between low high v ≡ true
    → integer_from b index low high a ≡ ok v
accepts b index low high v (number_value (integer z)) h k d e =
    subst (λ x. within b index low high x ≡ ok v) (sym (some-injective z v d))
      (within_ok b index low high v e)
accepts b index low high v (number_value (whole z)) h k d e =
    subst (λ x. integer_from b index low high (number_value (whole x)) ≡ ok v)
      (sym (some-injective z v d))
      (whole_value b index low high v (not_too_large low high v h k e)
        ∙ within_ok b index low high v e)
accepts b index low high v _ h k d e = cc

-- For bounds within 64 bits, CheckInteger returns v exactly if the argument is v, as an integer
-- or as a float of integral value of any size, and v lies between the bounds.
pub check_integer_lem :
    (b : Binding) (index : ℕ) (low high v : ℤ)
    → leb_ℤ int64_min low ≡ true
    → ltb_ℤ high int64_end ≡ true
    → (check_integer b index low high ≡ ok v)
      ↔ ((denoted (value_at b index) ≡ some v) × (is_between low high v ≡ true))
unfolding check_integer
check_integer_lem b index low high v h k = (
  accepted b index low high v (value_at b index),
  λ p. accepts b index low high v (value_at b index) h k p.0 p.1,
)

colour_of_integer :
    (b : Binding) (i : ℕ) (z : ℤ)
    → value_at b i ≡ number_value (integer z)
    → is_between int32_min uint32_max z ≡ true
    → check_colour b i ≡ ok (to_uint32 z)
unfolding check_colour
colour_of_integer b i z e h =
    ap (λ a. integer_from b i int32_min uint32_max a >>= λ v. ok (to_uint32 v)) e
    ∙ ap (λ r. r >>= λ v. ok (to_uint32 v)) (within_ok b i int32_min uint32_max z h)

-- A colour given as a negative 32-bit integer and the colour of the same bits given as a positive
-- one are both accepted, with the same result.
pub check_colour_bits :
    (b c : Binding) (i j n : ℕ)
    → value_at b i ≡ number_value (integer (negsuc n))
    → value_at c j ≡ number_value (integer (pos (2 ^ 32 - 1 - n)))
    → n < 2 ^ 31
    → (check_colour b i ≡ ok (2 ^ 32 - 1 - n)) × (check_colour c j ≡ ok (2 ^ 32 - 1 - n))
check_colour_bits b c i j n e f h = (
  colour_of_integer b i (negsuc n) e (ground arith) ∙ ap ok (omega arith),
  colour_of_integer c j (pos (2 ^ 32 - 1 - n)) f (ground arith) ∙ ap ok (omega arith),
)
