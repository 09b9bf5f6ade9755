-- ===== src/Lexer/Consumed.antt =====
-- The characters that `scan_token` of src/frontend/lexer/lexer.c consumes.
use ember_core.Common.{
  some_inj, ℕ, ◌-◌, ◌<◌, ◌⊎◌, Bool, ◌&&◌, ◌||◌, Option, none, some, List, [], ◌∷◌, ◌++◌, length,
  take, length-append, ◌==◌, ◌≡◌, refl, sym, ap, ◌∙◌, inl, inr, arith, Bool-cases, Option-cases,
}
use mathlib.Core.Path.{subst}
use ember_core.Lexer.Blanks.{Passed, Passed-transb, skip_whitespace_lem}
use ember_core.Lexer.Scan.{
  drop_while, then_at, fraction_end, number_end, number_to, identifier_to, past_end, lexed_at,
  Outcome, lexed, failed, newline, either, finish, operator_cases, unexpected, number_token,
  identifier_token, string_token, scan_from, scan_at, scan_token, made,
}
use ember_core.Lexer.Text.{Mode, text, escaped, next_mode, count_line, closes, string_end}
use ember_core.Lexer.{
  advance, TokenType, token_eof, token_error, token_number, Token, Lexer, Reader, peek_char,
  peek_next_char, lexeme, isdigit, isalpha, is_word, switch,
}

take-append : (w rest : List ℕ) → take (length w) (w ++ rest) ≡ w
take-append [] rest = refl
take-append (c ∷ w) rest = ap (λ x. c ∷ x) (take-append w rest)

-- The text between two pointers is what was passed between them.
pub lexeme-append : (w rest : List ℕ) → lexeme (w ++ rest) rest ≡ w
lexeme-append w rest =
    let e : length (w ++ rest) - length rest ≡ length w = omega (arith, length-append w rest) in
    rw e (take-append w rest)

abbrev pub Every : {A : Type 0} → (A → Type 0) → Option A → Type 0
Every P none = Unit
Every P (some a) = P a

Every-mapb :
    {A : Type 0} {P Q : A → Type 0} → ((a : A) → P a → Q a) → (o : Option A) → Every P o → Every Q o
Every-mapb f none p = tt
Every-mapb f (some a) p = f a p

advance-Passed : (cs : List ℕ) → Every (Passed cs) (advance cs)
advance-Passed [] = tt
advance-Passed (c ∷ cs) = (c ∷ [], refl)

then_at-Passed :
    (cs : List ℕ) (o : Option (List ℕ)) (next : List ℕ → Option (List ℕ))
    → Every (Passed cs) o
    → ((d : List ℕ) → Every (Passed d) (next d))
    → Every (Passed cs) (then_at o next)
then_at-Passed cs none next p q = tt
then_at-Passed cs (some d) next p q = Every-mapb (λ r. Passed-transb p) (next d) (q d)

drop_while-Passed : (test : ℕ → Bool) (cs : List ℕ) → Every (Passed cs) (drop_while test cs)
unfolding drop_while
drop_while-Passed test [] = elim (Bool-cases (test 0)) [ inl e ↦ rw e tt | inr e ↦ rw e ([], refl) ]
drop_while-Passed test (c ∷ cs) = elim (Bool-cases (test c)) [
  | inl e ↦ rw e (
      Every-mapb (λ r p. Passed-transb (c ∷ [], refl) p) (drop_while test cs)
        (drop_while-Passed test cs))
  | inr e ↦ rw e ([], refl)
]

fraction_end-Passed : (whole : List ℕ) → Every (Passed whole) (fraction_end whole)
unfolding fraction_end
fraction_end-Passed whole =
    elim (Bool-cases (peek_char whole == 46 && isdigit (peek_next_char whole))) [
      | inl e ↦ rw e (
          then_at-Passed whole (advance whole) (drop_while isdigit) (advance-Passed whole)
            (drop_while-Passed isdigit))
      | inr e ↦ rw e ([], refl)
    ]

number_end-Passed : (cs : List ℕ) → Every (Passed cs) (number_end cs)
unfolding number_end
number_end-Passed cs =
    then_at-Passed cs (drop_while isdigit cs) fraction_end (drop_while-Passed isdigit cs)
      fraction_end-Passed

-- Each branch of the `switch` passes at most one more character.
abbrev OutcomePassed : List ℕ → Outcome → Type 0
OutcomePassed cs (lexed type rest) = Passed cs rest
OutcomePassed cs (failed message rest) = Passed cs rest
OutcomePassed cs (newline rest) = Passed cs rest
OutcomePassed cs past_end = Unit

lexed_at-Passed :
    (cs : List ℕ) (t : TokenType) (o : Option (List ℕ))
    → Every (Passed cs) o
    → OutcomePassed cs (lexed_at t o)
lexed_at-Passed cs t none p = tt
lexed_at-Passed cs t (some rest) p = p

either-Passed :
    (c : ℕ) (t : TokenType) (o : Outcome) (cs : List ℕ)
    → OutcomePassed cs o
    → OutcomePassed cs (either c t o cs)
either-Passed c t o cs p = elim (Bool-cases (peek_char cs == c)) [
  | inl e ↦ rw e (lexed_at-Passed cs t (advance cs) (advance-Passed cs))
  | inr e ↦ rw e p
]

pub data All {ℓ} {B : Type ℓ} (P : B → Type 0) : List (ℕ × B) → Type ℓ where
  all_nil : All P []
  all_cons : {c : ℕ} {b : B} {cases : List (ℕ × B)} → P b → All P cases → All P ((c, b) ∷ cases)

pub switch-All :
    {B : Type 0} (P : B → Type 0) (c : ℕ) (cases : List (ℕ × B)) (d : B)
    → All P cases
    → P d
    → P (switch c cases d)
switch-All P c _ d all_nil p = p
switch-All P c ((e, b) ∷ cases) d (all_cons q all) p = elim (Bool-cases (c == e)) [
  | inl same ↦ rw same q
  | inr other ↦ rw other (switch-All P c cases d all p)
]

here : {cs : List ℕ} → Passed cs cs
here = ([], refl)

operators-All : (cs : List ℕ) → All (OutcomePassed cs) (operator_cases cs)
operators-All cs =
    let two : (c : ℕ) (t u : TokenType) → OutcomePassed cs (either c t (lexed u cs) cs) =
      λ c t u. either-Passed c t (lexed u cs) cs here in
    let three : (c d : ℕ) (t u v : TokenType)
        → OutcomePassed cs (either c t (either d u (lexed v cs) cs) cs) =
      λ c d t u v. either-Passed c t (either d u (lexed v cs) cs) cs (two d u v) in
    all_cons here (
      all_cons here (
        all_cons here (
          all_cons here (
            all_cons here (
              all_cons here (
                all_cons here (
                  all_cons (three _ _ _ _ _) (
                    all_cons (three _ _ _ _ _) (
                      all_cons (two _ _ _) (
                        all_cons (two _ _ _) (
                          all_cons here (
                            all_cons (two _ _ _) (
                              all_cons (two _ _ _) (
                                all_cons (two _ _ _) (
                                  all_cons (two _ _ _) (
                                    all_cons here (
                                      all_cons here (
                                        all_cons here (
                                          all_cons here (
                                            all_cons (either-Passed _ _ _ cs here) (
                                              all_cons (either-Passed _ _ _ cs here)
                                                (all_cons here all_nil))))))))))))))))))))))

unknown-Passed : (cs : List ℕ) → OutcomePassed cs (failed unexpected cs)
unknown-Passed cs = here

string_end-Passed :
    (mode : Mode) (line : ℕ) (cs : List ℕ) {l : ℕ} {rest : List ℕ}
    → string_end mode line cs ≡ some (l, rest)
    → Passed cs rest
unfolding string_end
string_end-Passed (escaped n) line [] h = cc
string_end-Passed _ line [] h = ([], ap (λ p. p.1) (some_inj h))
string_end-Passed mode line (c ∷ cs) h = elim (Bool-cases (closes mode c)) [
  | inl e ↦ ([], ap (λ p. p.1) (some_inj (rw e at h)))
  | inr e ↦
      let (w, f) =
        string_end-Passed (next_mode mode c (peek_char cs)) (count_line mode c line) cs
          (rw e at h) in
      (c ∷ w, ap (λ x. c ∷ x) f)
]

module _ {D : Type 0} ⦃reader : Reader D⦄ where
  -- A token at a text: the characters from there to the rest, and more than none.
  pub record Tiles (start : List ℕ) (t : Token D) (rest : List ℕ) : Type 0 where
    pub word : List ℕ
    pub tile : start ≡ word ++ rest
    pub moves : 0 < length word
    pub text : (t.type ≡ token_error) ⊎ (take t.length t.start ≡ word)

  made-Tiles :
      (type : TokenType) (c : ℕ) (cs : List ℕ) (sc : Lexer)
      → Passed cs sc.current
      → Tiles (c ∷ cs) (made type (c ∷ cs) sc).0 sc.current
  made-Tiles type c cs sc (w, e) = record {
    word = c ∷ w;
    tile = ap (λ x. c ∷ x) e;
    moves = omega arith;
    text = inr (rw e (lexeme-append (c ∷ w) sc.current));
  }

  abbrev pub TilesFrom : List ℕ → Token D × Lexer → Type 0
  TilesFrom start r = Tiles start r.0 r.1.current

  -- At the end of the source, or at a token.
  abbrev pub Found : List ℕ → Token D → List ℕ → Type 0
  Found start t rest = ((start ≡ []) × (t.type ≡ token_eof) × (rest ≡ [])) ⊎ Tiles start t rest

  -- What `scan_token` skips, and the token at the first character that it does not.
  pub record Scanned (source : List ℕ) (t : Token D) (rest : List ℕ) : Type 0 where
    pub start : List ℕ
    pub skipped : Passed source start
    pub found : Found start t rest

module _ (D : Type 0) ⦃reader : Reader D⦄ where
  finish-Tiles :
      (c line : ℕ) (cs : List ℕ) (o : Outcome)
      → OutcomePassed cs o
      → Every (TilesFrom (c ∷ cs)) (finish {D = D} (c ∷ cs) line o)
  finish-Tiles c line cs (lexed type rest) p = made-Tiles type c cs _ p
  finish-Tiles c line cs (newline rest) p = made-Tiles _ c cs _ p
  finish-Tiles c line cs past_end p = tt
  finish-Tiles c line cs (failed message rest) (w, e) = record {
    word = c ∷ w;
    tile = ap (λ x. c ∷ x) e;
    moves = omega arith;
    text = inl refl;
  }

  number_to-Tiles :
      (c line : ℕ) (cs : List ℕ) (o : Option (List ℕ))
      → Every (Passed cs) o
      → Every (TilesFrom (c ∷ cs)) (number_to {D = D} (c ∷ cs) line o)
  number_to-Tiles c line cs none q = tt
  number_to-Tiles c line cs (some rest) q =
      let p = made-Tiles {D = D} token_number c cs (record { current = rest; line = line }) q in
      record { word = p.word; tile = p.tile; moves = p.moves; text = p.text }

  identifier_to-Tiles :
      (c line : ℕ) (cs : List ℕ) (o : Option (List ℕ))
      → Every (Passed cs) o
      → Every (TilesFrom (c ∷ cs)) (identifier_to {D = D} (c ∷ cs) line o)
  identifier_to-Tiles c line cs none q = tt
  identifier_to-Tiles c line cs (some rest) q = made-Tiles {D = D} _ c cs _ q

  number_token-Tiles :
      (c line : ℕ) (cs : List ℕ)
      → Every (TilesFrom (c ∷ cs)) (number_token {D = D} (c ∷ cs) line cs)
  unfolding number_token
  number_token-Tiles c line cs = number_to-Tiles c line cs (number_end cs) (number_end-Passed cs)

  identifier_token-Tiles :
      (c line : ℕ) (cs : List ℕ)
      → Every (TilesFrom (c ∷ cs)) (identifier_token {D = D} (c ∷ cs) line cs)
  unfolding identifier_token
  identifier_token-Tiles c line cs =
      identifier_to-Tiles c line cs (drop_while is_word cs) (drop_while-Passed is_word cs)

  string_token-Tiles :
      (c line : ℕ) (cs : List ℕ)
      → Every (TilesFrom (c ∷ cs)) (string_token {D = D} (c ∷ cs) line cs)
  unfolding string_token
  string_token-Tiles c line cs = elim (Option-cases (string_end text line cs)) [
    | inl e ↦ rw (e, string_token) tt
    | inr ((l, []), e) ↦
        let (w, f) = string_end-Passed text line cs e in
        rw (e, string_token)
          (record { word = c ∷ w; tile = ap (λ x. c ∷ x) f; moves = omega arith; text = inl refl })
    | inr ((l, quote ∷ rest), e) ↦
        rw (e, string_token)
          (made-Tiles _ c cs _
            (Passed-transb (string_end-Passed text line cs e) (quote ∷ [], refl)))
  ]

  scan_from-Tiles :
      (c line : ℕ) (cs : List ℕ) → Every (TilesFrom (c ∷ cs)) (scan_from {D = D} (c ∷ cs) line c cs)
  unfolding scan_from number_token identifier_token
  scan_from-Tiles c line cs = elim (Bool-cases (isdigit c)) [
    | inl e ↦ rw (e, scan_from) (number_token-Tiles c line cs)
    | inr e ↦ elim (Bool-cases (isalpha c || c == 95)) [
      | inl f ↦ rw (e, f, scan_from) (identifier_token-Tiles c line cs)
      | inr f ↦ elim (Bool-cases (c == 34)) [
        | inl g ↦ rw (e, f, g, scan_from) (string_token-Tiles c line cs)
        | inr g ↦
            rw (e, f, g, scan_from)
              (finish-Tiles c line cs _ (
                switch-All (OutcomePassed cs) c (operator_cases cs) (failed unexpected cs)
                  (operators-All cs) (unknown-Passed cs)))
      ]
    ]
  ]

  at_start :
      (line : ℕ) (start : List ℕ)
      → Every (λ r. Found start r.0 r.1.current) (scan_at {D = D} line (some start))
  at_start line [] = inl (refl, refl, refl)
  at_start line (c ∷ cs) =
      Every-mapb (λ r. inr) (scan_from (c ∷ cs) line c cs) (scan_from-Tiles c line cs)

module _ {D : Type 0} ⦃reader : Reader D⦄ where
  -- When `scan_token` returns a token, the source is what it skipped, then the token, then what is
  -- left to scan: either nothing follows what it skipped and the token is TOKEN_EOF, or at least
  -- one character is consumed, and the token is an error or its start and length give just the
  -- characters consumed.
  pub scan_token-Scanned :
      (sc sc' : Lexer) (t : Token D)
      → scan_token sc ≡ some (t, sc')
      → Scanned sc.current t sc'.current
  unfolding scan_token
  scan_token-Scanned sc sc' t h =
      let (rest, found, passed, _, _) = skip_whitespace_lem sc.current in
      record {
        start = rest;
        skipped = passed;
        found =
            subst (Every (λ r. Found rest r.0 r.1.current)) (sym (ap (scan_at sc.line) found) ∙ h)
              (at_start D sc.line rest);
      }
