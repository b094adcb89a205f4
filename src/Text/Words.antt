-- ===== src/Text/Words.antt =====
-- The words of a text that is made of words.
use ypf_fleet_fuel_distribut.Prelude.{
  ◌∙◌, ap, ◌≡◌, refl, false, List, [], ◌∷◌, ◌++◌, append-nil, append_assoc, All, arith,
}
use ypf_fleet_fuel_distribut.Text.{
  Text, is_whitespace, is_empty, flush, words_from, split_whitespace,
}

-- A word is not empty and has no white space.
abbrev pub IsWord : Text → Type 0
IsWord word = (is_empty word ≡ false) × All (λ c. is_whitespace c ≡ false) word

-- The words, each behind a space.
abbrev pub spaced : List Text → Text
spaced [] = []
spaced (word ∷ words) = 0x20 ∷ word ++ spaced words

skip_word :
    (acc word rest : Text)
    → All (λ c. is_whitespace c ≡ false) word
    → words_from acc (word ++ rest) ≡ words_from (acc ++ word) rest
unfolding words_from
skip_word acc [] rest h = rw append-nil refl
skip_word acc (c ∷ cs) rest h =
    ground (arith, h.0, skip_word (acc ++ c ∷ []) cs rest h.1, append_assoc acc (c ∷ []) cs)

words_of_spaced :
    (acc : Text) (words : List Text)
    → All IsWord words
    → words_from acc (spaced words) ≡ flush acc words
unfolding words_from is_whitespace
words_of_spaced acc [] h = refl
words_of_spaced acc ((c ∷ cs) ∷ words) h =
    ap (flush acc) (skip_word [] (c ∷ cs) (spaced words) h.0.1 ∙ words_of_spaced (c ∷ cs) words h.1)
words_of_spaced acc ([] ∷ words) h = absurd (cc)

-- A text of words with a space between them has these words.
pub split-spaced :
    (word : Text) (words : List Text)
    → IsWord word
    → All IsWord words
    → split_whitespace (word ++ spaced words) ≡ word ∷ words
unfolding split_whitespace
split-spaced [] words h hs = absurd (cc)
split-spaced (c ∷ cs) words h hs =
    skip_word [] (c ∷ cs) (spaced words) h.1 ∙ words_of_spaced (c ∷ cs) words hs
