-- ===== src/Command/Words.antt =====
-- The words of a command line are what lies between its spaces.
use vcmp_lua.Command.{split_command, split_words, space, skip_spaces, take_word}
use vcmp_lua.Prelude.{
  ==_ne, append_assoc, length-append, ◌∙◌, append-nil, if◌then◌else◌, zero, suc, sym, ◌≤◌, ap,
  length, refl, ◌==◌, arith, not, ◌&&◌, [], false, true, ◌++◌, Bool, ◌∷◌, ◌≡◌, List, ℕ,
}

-- A word has a byte at least, and none of them is a space.
abbrev pub no_space : List ℕ → Bool
no_space [] = true
no_space (c ∷ cs) = not (c == space) && no_space cs

abbrev pub is_word : List ℕ → Bool
is_word [] = false
is_word (c ∷ cs) = no_space (c ∷ cs)

-- The words with a space between each two.
abbrev pub join_words : List (List ℕ) → List ℕ
join_words [] = []
join_words (w ∷ []) = w
join_words (w ∷ v ∷ ws) = w ++ space ∷ join_words (v ∷ ws)

abbrev pub without_first : List (List ℕ) → List (List ℕ)
without_first [] = []
without_first (w ∷ ws) = ws

abbrev pub all_words : List (List ℕ) → Bool
all_words [] = true
all_words (w ∷ ws) = is_word w && all_words ws

skip-word : (w rest : List ℕ) → is_word w ≡ true → skip_spaces (w ++ rest) ≡ w ++ rest
unfolding skip_spaces
skip-word [] rest h = cc
skip-word (c ∷ cs) rest h = ground arith

take-word :
    (w rest : List ℕ) → no_space w ≡ true → take_word (w ++ space ∷ rest) ≡ (w, space ∷ rest)
unfolding take_word
take-word [] rest h = refl
take-word (c ∷ cs) rest h = ground (arith, take-word cs rest)

take-last_word : (w : List ℕ) → no_space w ≡ true → take_word w ≡ (w, [])
unfolding take_word
take-last_word [] h = refl
take-last_word (c ∷ cs) h = ground (arith, take-last_word cs)

skip-space : (text : List ℕ) → skip_spaces (space ∷ text) ≡ skip_spaces text
unfolding skip_spaces
skip-space text = refl

skip-join :
    (w : List ℕ) (ws : List (List ℕ))
    → is_word w ≡ true
    → skip_spaces (join_words (w ∷ ws)) ≡ join_words (w ∷ ws)
skip-join w [] h = ap skip_spaces (sym (append-nil w)) ∙ skip-word w [] h ∙ append-nil w
skip-join w (v ∷ ws) h = skip-word w (space ∷ join_words (v ∷ ws)) h

split_step :
    (n : ℕ) (text w tail : List ℕ) (words : List (List ℕ)) (rest : List ℕ)
    → skip_spaces text ≡ w ++ tail
    → is_word w ≡ true
    → take_word (w ++ tail) ≡ (w, tail)
    → split_words (suc n) text words rest
      ≡ split_words n tail (words ++ w ∷ []) (if length words == 1 then w ++ tail else rest)
unfolding split_words
split_step n text [] tail words rest s h t = cc
split_step n text (c ∷ cs) tail words rest s h t = rw (s, split_words) (rw (t, split_words) refl)

split_end :
    (n : ℕ) (words : List (List ℕ)) (rest : List ℕ) → split_words n [] words rest ≡ (words, rest)
unfolding split_words skip_spaces
split_end zero words rest = refl
split_end (suc n) words rest = refl

no_space_of_word : (w : List ℕ) → is_word w ≡ true → no_space w ≡ true
no_space_of_word [] h = refl
no_space_of_word (c ∷ cs) h = h

-- The loop once a word is found.
split_more :
    (n : ℕ) (w : List ℕ) (ws : List (List ℕ)) (text : List ℕ) (words : List (List ℕ))
    (rest : List ℕ)
    → skip_spaces text ≡ join_words (w ∷ ws)
    → length (w ∷ ws) ≤ n
    → all_words (w ∷ ws) ≡ true
    → 1 ≤ length words
    → split_words n text words rest
      ≡ (words ++ w ∷ ws, if length words == 1 then join_words (w ∷ ws) else rest)
split_more zero w ws text words rest s n h l = absurd (omega (arith, n))
split_more (suc n) w [] text words rest s le h l =
    let fine : is_word w ≡ true = ground (arith, h) in
    split_step n text w [] words rest (s ∙ sym (append-nil w)) fine
      (ap take_word (append-nil w) ∙ take-last_word w (no_space_of_word w fine))
    ∙ split_end n (words ++ w ∷ []) _
    ∙ λ i. (words ++ w ∷ [], if length words == 1 then append-nil w i else rest)
split_more (suc n) w (v ∷ ws) text words rest s le h l =
    let fine : is_word w ≡ true = ground (arith, h) in
    let others : all_words (v ∷ ws) ≡ true = ground (arith, h) in
    let next : is_word v ≡ true = ground (arith, others) in
    split_step n text w (space ∷ join_words (v ∷ ws)) words rest s fine
      (take-word w (join_words (v ∷ ws)) (no_space_of_word w fine))
    ∙ split_more n v ws (space ∷ join_words (v ∷ ws)) (words ++ w ∷ []) _
        (skip-space (join_words (v ∷ ws)) ∙ skip-join v ws next) (omega (arith, le)) others
        (omega (arith, length-append words (w ∷ [])))
    ∙ (λ i. (
      append_assoc words (w ∷ []) (v ∷ ws) i,
      if ==_ne (length (words ++ w ∷ [])) 1 (λ e. omega (arith, e, length-append words (w ∷ []), l))
            i
          then join_words (v ∷ ws)
          else (if length words == 1 then join_words (w ∷ v ∷ ws) else rest),
    ))

-- The loop from the start.
split_first :
    (n : ℕ) (w : List ℕ) (ws : List (List ℕ))
    → length (w ∷ ws) ≤ n
    → all_words (w ∷ ws) ≡ true
    → split_words n (join_words (w ∷ ws)) [] [] ≡ (w ∷ ws, join_words ws)
split_first zero w ws le h = absurd (omega (arith, le))
split_first (suc n) w [] le h =
    let fine : is_word w ≡ true = ground (arith, h) in
    split_step n w w [] [] [] (ap skip_spaces (sym (append-nil w)) ∙ skip-word w [] fine) fine
      (ap take_word (append-nil w) ∙ take-last_word w (no_space_of_word w fine))
    ∙ split_end n (w ∷ []) []
split_first (suc n) w (v ∷ ws) le h =
    let fine : is_word w ≡ true = ground (arith, h) in
    let others : all_words (v ∷ ws) ≡ true = ground (arith, h) in
    let next : is_word v ≡ true = ground (arith, others) in
    split_step n (join_words (w ∷ v ∷ ws)) w (space ∷ join_words (v ∷ ws)) [] []
      (skip-join w (v ∷ ws) fine) fine (take-word w (join_words (v ∷ ws)) (no_space_of_word w fine))
    ∙ split_more n v ws (space ∷ join_words (v ∷ ws)) (w ∷ []) []
        (skip-space (join_words (v ∷ ws)) ∙ skip-join v ws next) (omega (arith, le)) others
        (omega arith)

length-join : (ws : List (List ℕ)) → all_words ws ≡ true → length ws ≤ length (join_words ws)
length-join [] h = omega arith
length-join ([] ∷ ws) h = cc
length-join ((c ∷ cs) ∷ []) h = omega arith
length-join ((c ∷ cs) ∷ v ∷ ws) h = omega (
  arith,
  length-append cs (space ∷ join_words (v ∷ ws)),
  length-join (v ∷ ws) (ground (arith, h)),
)

-- A command line of words with single spaces between them is split into these words, with the
-- text from the second word on.
pub split_command-join :
    (ws : List (List ℕ))
    → all_words ws ≡ true
    → split_command (join_words ws) ≡ (ws, join_words (without_first ws))
unfolding split_command
split_command-join [] h = split_end 0 [] []
split_command-join (w ∷ ws) h =
    split_first (length (join_words (w ∷ ws))) w ws (length-join (w ∷ ws) h) h
