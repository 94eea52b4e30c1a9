-- ===== src/Prelude/Ranges.antt =====
-- Tests on a range of numbers, settled by evaluation.
use vcmp_lua.Prelude.Tests.{◌==◌, ltb, Bool-cases, eq_of_==}
use Prim.Native.Nat.{ℕ, zero, suc, ◌+◌, ◌<◌, ◌≤◌}
use mathlib.Core.Path.{◌≡◌}
use mathlib.Core.Logic.{inl, inr}
use mathlib.Core.Bool.{Bool, true, ◌&&◌}
use native.Mathlib.Omega.{arith}

-- A test that succeeds at n numbers from lo on.
abbrev pub all_from : ℕ → ℕ → (ℕ → Bool) → Bool
all_from lo zero p = true
all_from lo (suc n) p = p lo && all_from (suc lo) n p

abbrev pub Within : (ℕ → Bool) → ℕ → ℕ → Type 0
Within p lo hi = (i : ℕ) → lo ≤ i → i < hi → p i ≡ true

pub all_from-Within : (p : ℕ → Bool) (n lo : ℕ) → all_from lo n p ≡ true → Within p lo (lo + n)
all_from-Within p zero lo e i h k = absurd (omega arith)
all_from-Within p (suc n) lo e i h k = elim (Bool-cases (lo == i)) [
  | inl q ↦ grind (arith, eq_of_== lo i q)
  | inr q ↦ all_from-Within p n (suc lo) (grind arith) i (ground arith) (omega arith)
]

pub Within-join : (p : ℕ → Bool) (a b c : ℕ) → Within p a b → Within p b c → Within p a c
Within-join p a b c f g i h k = elim (Bool-cases (ltb i b)) [
  | inl q ↦ f i h (ground arith)
  | inr q ↦ g i (ground arith) k
]
