-- ===== src/Timer/Map.antt =====
-- Reading the map of timers after a write.
use vcmp_lua.Prelude.{refl, [], ◌∷◌, arith, false, if◌then◌else◌, ◌==◌, ◌≡◌, List, none, ℕ, some}
use vcmp_lua.Timer.{erase, modify, put, Option, find, Timer}

pub find-put :
    (id j : ℕ) (t : Timer) (l : List (ℕ × Timer))
    → find j (put id t l) ≡ (if id == j then some t else find j l)
unfolding find put
find-put id j t [] = ground arith
find-put id j t ((k, u) ∷ l) = ground (arith, find-put id j t l)

pub find-erase_ne :
    (id j : ℕ) (l : List (ℕ × Timer)) → (id == j) ≡ false → find j (erase id l) ≡ find j l
unfolding find erase
find-erase_ne id j [] h = refl
find-erase_ne id j ((k, u) ∷ l) h = ground (arith, find-erase_ne id j l h)

abbrev map_some : (Timer → Timer) → Option Timer → Option Timer
map_some f none = none
map_some f (some t) = some (f t)

pub find-modify :
    (id j : ℕ) (f : Timer → Timer) (l : List (ℕ × Timer))
    → find j (modify id f l) ≡ (if id == j then map_some f (find j l) else find j l)
unfolding find modify
find-modify id j f [] = ground arith
find-modify id j f ((k, u) ∷ l) = ground (arith, find-modify id j f l)
