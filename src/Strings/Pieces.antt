-- ===== src/Strings/Pieces.antt =====
-- The pieces that `ember_native_join` joins and `ember_native_split` splits.
use ember_core.Common.{
  ℕ, zero, suc, ◌+◌, ◌≤◌, ◌<◌, ◌≡◌, refl, ap, ◌∙◌, Bool, true, false, not, ◌&&◌, Option, none, some,
  List, [], ◌∷◌, ◌++◌, map, append-nil, ltb, ==_refl, length, length-append, take, contains, arith,
}
use ember_core.Strings.{
  a_string, an_array, text, texts, skip, until, token_of, strtok, split_within, split_capacity,
  total_len, joined_text, join_limit, join_all, ember_native_join, ember_native_split,
}

-- What the second loop of `ember_native_join` writes into its buffer has exactly the length that
-- the first loop counts for it, also where elements are no strings.
pub length-joined_text :
    (d : List ℕ) (xs : List (Option (List ℕ))) → length (joined_text d xs) ≡ total_len d xs
length-joined_text d [] = refl
length-joined_text d (none ∷ xs) = length-joined_text d xs
length-joined_text d (some s ∷ []) = omega (arith, length-append {A = ℕ} s [])
length-joined_text d (some s ∷ x ∷ xs) = omega (
  arith,
  length-append s (d ++ joined_text d (x ∷ xs)),
  length-append d (joined_text d (x ∷ xs)),
  length-joined_text d (x ∷ xs),
)

-- a piece: no delimiter in it
abbrev pub free : List ℕ → List ℕ → Bool
free d [] = true
free d (c ∷ cs) = not (contains c d) && free d cs

-- pieces that are not empty and have no delimiter in them
abbrev pub ArePieces : List ℕ → List (List ℕ) → Type 0
ArePieces d [] = true ≡ true
ArePieces d (p ∷ ps) = (0 < length p) × (free d p ≡ true) × ArePieces d ps

until_end : (d p : List ℕ) → free d p ≡ true → until d p ≡ (p, [])
until_end d [] h = refl
until_end d (c ∷ cs) h =
    let no : contains c d ≡ false = ground (arith, h) in
    let later : free d cs ≡ true = ground (arith, h) in rw (no, until_end d cs later) refl

until_more :
    (d p : List ℕ) (c : ℕ) (rest : List ℕ)
    → free d p ≡ true
    → contains c d ≡ true
    → until d (p ++ (c ∷ rest)) ≡ (p, rest)
until_more d [] c rest h is = rw is refl
until_more d (x ∷ xs) c rest h is =
    let no : contains x d ≡ false = ground (arith, h) in
    let later : free d xs ≡ true = ground (arith, h) in
    rw (no, until_more d xs c rest later is) refl

skip_piece : (d p rest : List ℕ) → 0 < length p → free d p ≡ true → skip d (p ++ rest) ≡ p ++ rest
skip_piece d [] rest some_char h = absurd (omega arith)
skip_piece d (c ∷ cs) rest some_char h =
    let no : contains c d ≡ false = ground (arith, h) in rw no refl

skip_delimiters :
    (d e rest : List ℕ)
    → ((c : ℕ) → contains c e ≡ true → contains c d ≡ true)
    → skip d (e ++ rest) ≡ skip d rest
skip_delimiters d [] rest within = refl
skip_delimiters d (c ∷ cs) rest within =
    let here : contains c (c ∷ cs) ≡ true = rw (==_refl c) refl in
    rw (within c here) (skip_delimiters d cs rest (λ x is. within x (ground (arith, is))))

after_piece :
    (d p x : List ℕ)
    → 0 < length d
    → free d p ≡ true
    → (rest : List ℕ) × (until d (p ++ (d ++ x)) ≡ (p, rest)) × (skip d rest ≡ skip d x)
after_piece [] p x some_char clear = absurd (omega arith)
after_piece (c ∷ ds) p x some_char clear =
    let here : contains c (c ∷ ds) ≡ true = rw (==_refl c) refl in
    (
      ds ++ x,
      until_more (c ∷ ds) p c (ds ++ x) clear here,
      skip_delimiters (c ∷ ds) ds x (λ y is. ground (arith, is)),
    )

token_of_piece : (d p r : List ℕ) → 0 < length p → token_of d (p ++ r) ≡ some (until d (p ++ r))
token_of_piece d [] r full = absurd (omega arith)
token_of_piece d (c ∷ cs) r full = refl

-- The token is the piece, where it stands after the delimiters.
strtok_piece :
    (d p r cs : List ℕ)
    → 0 < length p
    → free d p ≡ true
    → skip d cs ≡ skip d (p ++ r)
    → strtok d cs ≡ some (until d (p ++ r))
strtok_piece d p r cs full clear same =
    ap (token_of d) (same ∙ skip_piece d p r full clear) ∙ token_of_piece d p r full

-- Where what follows the delimiters is the joined pieces, the pieces are split off, up to the room.
split_pieces :
    (d : List ℕ)
    → 0 < length d
    → (room : ℕ) (ps : List (List ℕ)) (cs : List ℕ) → ArePieces d ps
    → skip d cs ≡ skip d (joined_text d (map (λ p. some p) ps))
    → split_within room d (strtok d cs) ≡ take room ps
unfolding split_within
split_pieces d some_char zero ps cs pieces same = refl
split_pieces d some_char (suc room) [] cs pieces same = rw same refl
split_pieces d some_char (suc room) (p ∷ []) cs (full, clear, _) same =
    let last = strtok_piece d p [] cs full clear same in
    let ends = ap (until d) (append-nil p) ∙ until_end d p clear in
    ap (split_within (suc room) d) (last ∙ ap (λ t. some t) ends)
    ∙ ap (λ ts. p ∷ ts) (split_pieces d some_char room [] [] refl refl)
split_pieces d some_char (suc room) (p ∷ q ∷ qs) cs (full, clear, later) same =
    let x = joined_text d (map (λ p. some p) (q ∷ qs)) in
    let (rest, splits, skipped) = after_piece d p x some_char clear in
    ap (split_within (suc room) d)
      (strtok_piece d p (d ++ x) cs full clear same ∙ ap (λ t. some t) splits)
    ∙ ap (λ ts. p ∷ ts) (split_pieces d some_char room (q ∷ qs) rest later skipped)

joined_all :
    (malloc : ℕ → Bool) (always : (n : ℕ) → malloc n ≡ true) (d : List ℕ)
    (xs : List (Option (List ℕ)))
    → total_len d xs ≤ join_limit
    → join_all malloc d xs ≡ text (joined_text d xs)
joined_all malloc always d [] short = refl
joined_all malloc always d (x ∷ xs) short =
    let within : ltb join_limit (total_len d (x ∷ xs)) ≡ false = ground (arith, short) in
    rw (within, always (total_len d (x ∷ xs) + 1)) refl

-- With malloc granted, a delimiter that is not empty, and pieces that are not empty, have no
-- character of the delimiter, and have at most 2^20 characters with the delimiters between them:
-- `ember_native_join` yields a text, and `ember_native_split` of it at the same delimiter yields
-- the first eight of the pieces, in order.
pub native_split-native_join :
    (malloc : ℕ → Bool) (always : (n : ℕ) → malloc n ≡ true) (d : List ℕ) (ps : List (List ℕ))
    → 0 < length d
    → ArePieces d ps
    → total_len d (map (λ p. some p) ps) ≤ join_limit
    → (s : List ℕ) × (ember_native_join malloc
          (an_array (map (λ p. some p) ps) ∷ a_string (some d) ∷ [])
        ≡ text s)
      × (ember_native_split malloc true (a_string (some s) ∷ a_string (some d) ∷ [])
          ≡ texts (take split_capacity ps))
native_split-native_join malloc always d ps some_char pieces short =
    let xs = map (λ p. some p) ps in
    (
      joined_text d xs,
      joined_all malloc always d xs short,
      rw (always (length (joined_text d xs) + 1)) (
          ap (λ ts. texts ts)
            (split_pieces d some_char split_capacity ps (joined_text d xs) pieces refl)),
    )
