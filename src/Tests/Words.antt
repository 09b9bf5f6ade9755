-- ===== src/Tests/Words.antt =====
-- The functions on strings: three words joined by a comma and a space.
use ember_core.Common.{
  ℕ, ◌≡◌, ◌↔◌, refl, arith, Bool, true, some, List, [], ◌∷◌, ◌++◌, codes, length, map, take,
}
use ember_core.Strings.Affixes.{affixes_lem, both}
use ember_core.Strings.Pieces.{length-joined_text, native_split-native_join}
use ember_core.Strings.{
  a_string, an_array, text, texts, truth, total_len, joined_text, split_within, split_capacity,
  ember_native_join, ember_native_split, ember_native_starts_with, ember_native_ends_with,
}

abbrev enough : ℕ → Bool
enough n = true

abbrev comma : List ℕ
comma = codes ", "

abbrev words : List (List ℕ)
words = codes "if" ∷ codes "while" ∷ codes "for" ∷ []

length-joined_text_example :
    length (joined_text comma (map (λ p. some p) words)) ≡ total_len comma (map (λ p. some p) words)
length-joined_text_example = length-joined_text comma (map (λ p. some p) words)

native_split-native_join_example :
    (s : List ℕ) × (ember_native_join enough
        (an_array (map (λ p. some p) words) ∷ a_string (some comma) ∷ [])
      ≡ text s)
    × (ember_native_split enough true (a_string (some s) ∷ a_string (some comma) ∷ [])
        ≡ texts (take split_capacity words))
native_split-native_join_example =
    native_split-native_join enough (λ n. refl) comma words (omega arith)
      (omega arith, refl, (omega arith, refl, (omega arith, refl, refl))) (omega arith)

joined_words :
    ember_native_join enough (an_array (map (λ p. some p) words) ∷ a_string (some comma) ∷ [])
    ≡ text (codes "if, while, for")
joined_words = refl

nine_pieces :
    ember_native_split enough true
      (a_string (some (codes "a,b,c,d,e,f,g,h,i")) ∷ a_string (some (codes ",")) ∷ [])
    ≡ texts (map (λ c. c ∷ []) (codes "abcdefgh"))
unfolding split_within
nine_pieces = refl

affixes_lem_example :
    ((ember_native_starts_with (both (codes "ember") (codes "em")) ≡ truth true)
      ↔ ((rest : List ℕ) × (codes "ember" ≡ codes "em" ++ rest)))
    × ((ember_native_ends_with (both (codes "ember") (codes "em")) ≡ truth true)
        ↔ ((front : List ℕ) × (codes "ember" ≡ front ++ codes "em")))
affixes_lem_example = affixes_lem (codes "ember") (codes "em")
