-- ===== src/Timer/Due.antt =====
-- When a timer is due, and the order in which the due timers run.
use vcmp_lua.Prelude.{
  ◌⊎◌, map, suc, ◌&&◌, ◌==◌, Bool, if◌then◌else◌, refl, ◌∙◌, if_cases, arith, ◌+◌, ◌≤◌, [], false,
  ◌<◌, true, ◌∷◌, List, ◌≡◌, ℕ,
}
use vcmp_lua.Timer.{
  Scheduler, due_ids, Timer, advance, is_due, earlier, sort_due, insert_due, collect_due,
}

-- A due timer with an interval above 0 that runs is not due again at the same time, waits for at
-- most its interval from now, and never runs ahead of its rate.
pub advance-is_due :
    (now : ℕ) (t : Timer)
    → is_due now t ≡ true
    → 0 < t.interval
    → (is_due now (advance now t) ≡ false)
      × ((advance now t).due ≤ now + t.interval)
      × (t.due + t.interval ≤ (advance now t).due)
advance-is_due now t d h = (ground arith, ground arith, ground arith)

-- `x` is not later than the first entry.
abbrev Before : ℕ × ℕ → List (ℕ × ℕ) → Type 0
Before x [] = Unit
Before x (y ∷ ys) = earlier y x ≡ false

-- The entries are in the order of the sort.
abbrev Sorted : List (ℕ × ℕ) → Type 0
Sorted [] = Unit
Sorted (x ∷ xs) = Before x xs × Sorted xs

earlier_asym : (x y : ℕ × ℕ) → earlier y x ≡ true → earlier x y ≡ false
earlier_asym (a, i) (b, j) h = ground (arith, h)

insert_due-Before :
    (x y : ℕ × ℕ) (ys : List (ℕ × ℕ))
    → earlier x y ≡ false
    → Before y ys
    → Before y (insert_due x ys)
unfolding insert_due
insert_due-Before x y [] h b = h
insert_due-Before x y (z ∷ zs) h b = if_cases (Before y) (earlier z x) _ _ (λ _. b) λ _. h

insert_due-Sorted : (x : ℕ × ℕ) (ys : List (ℕ × ℕ)) → Sorted ys → Sorted (insert_due x ys)
unfolding insert_due
insert_due-Sorted x [] s = (tt, tt)
insert_due-Sorted x (y ∷ ys) s =
    if_cases Sorted (earlier y x) _ _
      (λ h. (insert_due-Before x y ys (earlier_asym x y h) s.0, insert_due-Sorted x ys s.1))
      λ h. (h, s)

sort_due-Sorted : (xs : List (ℕ × ℕ)) → Sorted (sort_due xs)
unfolding sort_due
sort_due-Sorted [] = tt
sort_due-Sorted (x ∷ xs) = insert_due-Sorted x (sort_due xs) (sort_due-Sorted xs)

-- How often an entry occurs.
abbrev same_entry : ℕ × ℕ → ℕ × ℕ → Bool
same_entry (a, i) (b, j) = a == b && i == j

abbrev pub times : ℕ × ℕ → List (ℕ × ℕ) → ℕ
times x [] = 0
times x (y ∷ ys) = let n = times x ys in if same_entry x y then suc n else n

-- How many timers with an id and a due time are due.
abbrev pub times_due : ℕ → ℕ × ℕ → List (ℕ × Timer) → ℕ
times_due now x [] = 0
times_due now x ((k, t) ∷ rest) =
    let n = times_due now x rest in if is_due now t && same_entry x (t.due, k) then suc n else n

times-insert_due : (x y : ℕ × ℕ) (ys : List (ℕ × ℕ)) → times x (insert_due y ys) ≡ times x (y ∷ ys)
unfolding insert_due
times-insert_due x y [] = refl
times-insert_due x y (z ∷ zs) =
    if_cases (λ l. times x l ≡ times x (y ∷ z ∷ zs)) (earlier z y) _ _
      (λ _. ground (arith, times-insert_due x y zs)) λ _. refl

times-sort_due : (x : ℕ × ℕ) (xs : List (ℕ × ℕ)) → times x (sort_due xs) ≡ times x xs
unfolding sort_due
times-sort_due x [] = refl
times-sort_due x (y ∷ ys) = times-insert_due x y (sort_due ys) ∙ ground (arith, times-sort_due x ys)

times-collect_due :
    (now : ℕ) (x : ℕ × ℕ) (l : List (ℕ × Timer)) → times x (collect_due now l) ≡ times_due now x l
unfolding collect_due
times-collect_due now x [] = refl
times-collect_due now x ((k, t) ∷ l) = ground (arith, times-collect_due now x l)

-- `x` is not after the first entry: it is due before it, or at the same time with an id that is
-- not greater.
abbrev pub NotAfter : ℕ × ℕ → List (ℕ × ℕ) → Type 0
NotAfter x [] = Unit
NotAfter x (y ∷ ys) = (x.0 < y.0) ⊎ ((x.0 ≡ y.0) × (x.1 ≤ y.1))

-- The entries rise by due time and then by id.
abbrev pub Rising : List (ℕ × ℕ) → Type 0
Rising [] = Unit
Rising (x ∷ xs) = NotAfter x xs × Rising xs

not_after : (a i b j : ℕ) → earlier (b, j) (a, i) ≡ false → (a < b) ⊎ ((a ≡ b) × (i ≤ j))
not_after a i b j h = grind (arith, h)

Before-NotAfter : (x : ℕ × ℕ) (xs : List (ℕ × ℕ)) → Before x xs → NotAfter x xs
Before-NotAfter x [] h = tt
Before-NotAfter (a, i) ((b, j) ∷ ys) h = not_after a i b j h

Sorted-Rising : (xs : List (ℕ × ℕ)) → Sorted xs → Rising xs
Sorted-Rising [] s = tt
Sorted-Rising (x ∷ xs) s = (Before-NotAfter x xs s.0, Sorted-Rising xs s.1)

-- A tick goes over the due timers, each as often as the map holds it, so that each is due before
-- the next one, or at the same time with an id that is not greater.
pub due_ids_lem :
    (s : Scheduler) (now : ℕ)
    → (es : List (ℕ × ℕ)) × (due_ids s now ≡ map (λ e. e.1) es)
      × Rising es
      × ((x : ℕ × ℕ) → times x es ≡ times_due now x s.timers)
unfolding due_ids
due_ids_lem s now =
    let collected = collect_due now s.timers in
    (
      sort_due collected,
      refl,
      Sorted-Rising (sort_due collected) (sort_due-Sorted collected),
      λ x. times-sort_due x collected ∙ times-collect_due now x s.timers,
    )
