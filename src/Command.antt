-- ===== src/Command.antt =====
-- src/plugin/callbacks.cpp, OnPlayerCommand: the words of a command line. A text is the list of
-- its bytes; a position in it is the text from there on.
pub mod Words
use vcmp_lua.Prelude.{zero, ◌++◌, ◌==◌, [], if◌then◌else◌, length, suc, ◌∷◌, List, ℕ}

abbrev pub space : ℕ
space = 32

-- `text.find_first_not_of(' ', pos)`; nothing is left when there is no such place.
unfoldable pub skip_spaces : List ℕ → List ℕ
skip_spaces [] = []
skip_spaces (c ∷ cs) = let later = skip_spaces cs in if c == space then later else c ∷ cs

-- `text.substr(start, end - start)` with `end` at the next space, and the text from `end`.
unfoldable pub take_word : List ℕ → List ℕ × List ℕ
take_word [] = ([], [])
take_word (c ∷ cs) =
    let (word, tail) = take_word cs in if c == space then ([], c ∷ cs) else (c ∷ word, tail)

-- The loop over the text from `pos`, with the words so far and the text from `rest`.
unfoldable pub split_words : ℕ → List ℕ → List (List ℕ) → List ℕ → List (List ℕ) × List ℕ
split_words zero text words rest = (words, rest)
split_words (suc n) text words rest = elim (skip_spaces text) [
  | [] ↦ (words, rest)
  | c ∷ cs ↦
      let (word, tail) = take_word (c ∷ cs) in
      split_words n tail (words ++ word ∷ []) (if length words == 1 then c ∷ cs else rest)
]

-- The words, and the text from the second word on. Each round takes a byte at least.
unfoldable pub split_command : List ℕ → List (List ℕ) × List ℕ
unfolding split_words
split_command text = split_words (length text) text [] []
