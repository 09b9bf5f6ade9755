-- ===== src/Lexer/Keywords.antt =====
-- `identifier_type` against a plain table of the keywords.
use ember_core.Common.{
  same_text, ℕ, Bool, true, false, not, ◌&&◌, List, [], ◌∷◌, ◌++◌, ◌==◌, ◌≡◌, refl, sym, ap, ◌∙◌,
  codes, inl, inr, arith, Bool-cases,
}
use ember_core.Lexer.Words.{spelled, keyword_cases, identifier_type}
use ember_core.Lexer.{TokenType, token_identifier, switch}

abbrev all_words : List (ℕ × List (List ℕ × TokenType)) → List (List ℕ × TokenType)
all_words [] = []
all_words ((c, ks) ∷ cases) = ks ++ all_words cases

-- the keywords of the language, each with its token
abbrev pub keywords : List (List ℕ × TokenType)
keywords =
    (codes "and", TokenType.token_and)
    ∷ (codes "async", TokenType.token_async)
    ∷ (codes "await", TokenType.token_await)
    ∷ (codes "as", TokenType.token_as)
    ∷ (codes "break", TokenType.token_break)
    ∷ (codes "continue", TokenType.token_continue)
    ∷ (codes "catch", TokenType.token_catch)
    ∷ (codes "class", TokenType.token_class)
    ∷ (codes "case", TokenType.token_case)
    ∷ (codes "do", TokenType.token_do)
    ∷ (codes "default", TokenType.token_default)
    ∷ (codes "else", TokenType.token_else)
    ∷ (codes "extends", TokenType.token_extends)
    ∷ (codes "export", TokenType.token_export)
    ∷ (codes "fn", TokenType.token_fn)
    ∷ (codes "for", TokenType.token_for)
    ∷ (codes "false", TokenType.token_false)
    ∷ (codes "finally", TokenType.token_finally)
    ∷ (codes "function", TokenType.token_function)
    ∷ (codes "from", TokenType.token_from)
    ∷ (codes "if", TokenType.token_if)
    ∷ (codes "import", TokenType.token_import)
    ∷ (codes "not", TokenType.token_not)
    ∷ (codes "new", TokenType.token_new)
    ∷ (codes "or", TokenType.token_or)
    ∷ (codes "return", TokenType.token_return)
    ∷ (codes "require", TokenType.token_require)
    ∷ (codes "super", TokenType.token_super)
    ∷ (codes "switch", TokenType.token_switch)
    ∷ (codes "true", TokenType.token_true)
    ∷ (codes "try", TokenType.token_try)
    ∷ (codes "throw", TokenType.token_throw)
    ∷ (codes "this", TokenType.token_this)
    ∷ (codes "while", TokenType.token_while)
    ∷ (codes "yield", TokenType.token_yield)
    ∷ []

-- every word starts with the letter
starts : ℕ → List (List ℕ × TokenType) → Bool
starts c [] = true
starts c (([], t) ∷ ks) = false
starts c ((d ∷ w, t) ∷ ks) = d == c && starts c ks

-- no case is for the letter
lacks : ℕ → List (ℕ × List (List ℕ × TokenType)) → Bool
lacks c [] = true
lacks c ((d, ks) ∷ cases) = not (c == d) && lacks c cases

-- each case has words of its letter, and no later case is for that letter
ordered : List (ℕ × List (List ℕ × TokenType)) → Bool
unfolding starts lacks
ordered [] = true
ordered ((c, ks) ∷ cases) = starts c ks && lacks c cases && ordered cases

-- a list of words of another letter is passed over
spelled_other :
    (c d : ℕ) (w : List ℕ) (ks more : List (List ℕ × TokenType))
    → (c == d) ≡ false
    → starts d ks ≡ true
    → spelled (c ∷ w) (ks ++ more) ≡ spelled (c ∷ w) more
unfolding spelled starts same_text
spelled_other c d w [] more ne h = refl
spelled_other c d w (([], t) ∷ ks) more ne h = cc
spelled_other c d w ((e ∷ v, t) ∷ ks) more ne h =
    let off : (c == e) ≡ false = ground arith in
    let later : starts d ks ≡ true = ground arith in rw off (spelled_other c d w ks more ne later)

spelled-lacksb :
    (c : ℕ) (w : List ℕ) (cases : List (ℕ × List (List ℕ × TokenType)))
    → lacks c cases ≡ true
    → ordered cases ≡ true
    → spelled (c ∷ w) (all_words cases) ≡ token_identifier
unfolding lacks ordered spelled
spelled-lacksb c w [] h o = refl
spelled-lacksb c w ((d, ks) ∷ cases) h o =
    spelled_other c d w ks (all_words cases) (ground arith) (ground arith)
    ∙ spelled-lacksb c w cases (ground arith) (ground arith)

spelled_more :
    (w : List ℕ) (ks more : List (List ℕ × TokenType))
    → spelled w more ≡ token_identifier
    → spelled w (ks ++ more) ≡ spelled w ks
unfolding spelled
spelled_more w [] more h = h
spelled_more w ((k, t) ∷ ks) more h = elim (Bool-cases (same_text w k)) [
  | inl e ↦ rw e
  | inr e ↦ rw e (spelled_more w ks more h)
]

spelled-switch :
    (c : ℕ) (w : List ℕ) (cases : List (ℕ × List (List ℕ × TokenType)))
    → ordered cases ≡ true
    → spelled (c ∷ w) (switch c cases []) ≡ spelled (c ∷ w) (all_words cases)
unfolding ordered
spelled-switch c w [] o = refl
spelled-switch c w ((d, ks) ∷ cases) o = elim (Bool-cases (c == d)) [
  | inl e ↦
      let same : c ≡ d = ground arith in
      let none_later : lacks c cases ≡ true = rw same (ground arith) in
      rw e (
        sym (
          spelled_more (c ∷ w) ks (all_words cases)
            (spelled-lacksb c w cases none_later (ground arith))))
  | inr e ↦ rw e (
      spelled-switch c w cases (ground arith)
      ∙ sym (spelled_other c d w ks (all_words cases) e (ground arith)))
]

keyword_cases-orderedb : ordered keyword_cases ≡ true
unfolding ordered starts lacks
keyword_cases-orderedb = refl

all_words-keywords : all_words keyword_cases ≡ keywords
all_words-keywords = refl

-- The switch of `identifier_type` on the first letter and the tests under its cases answer on every
-- word what a search of a plain list of the keywords with their tokens, written out apart from the
-- switch, answers.
pub identifier_type_lem : (w : List ℕ) → identifier_type w ≡ spelled w keywords
unfolding identifier_type
identifier_type_lem [] = unfold spelled same_text in refl
identifier_type_lem (c ∷ w) =
    spelled-switch c w keyword_cases keyword_cases-orderedb
    ∙ ap (spelled (c ∷ w)) all_words-keywords
