-- ===== src/Lexer/Words.antt =====
-- `identifier_type` of src/frontend/lexer/lexer.c: the keywords, by their first letters.
use ember_core.Common.{same_text, ℕ, List, [], ◌∷◌, if◌then◌else◌, codes}
use ember_core.Lexer.{
  TokenType, switch, token_and, token_async, token_await, token_as, token_break, token_continue,
  token_catch, token_class, token_case, token_do, token_default, token_else, token_extends,
  token_export, token_fn, token_for, token_false, token_finally, token_function, token_from,
  token_if, token_import, token_not, token_new, token_or, token_return, token_require, token_super,
  token_switch, token_true, token_try, token_throw, token_this, token_while, token_yield,
  token_identifier,
}

-- the tests under one case, in turn
unfoldable pub spelled : List ℕ → List (List ℕ × TokenType) → TokenType
unfolding same_text
spelled w [] = token_identifier
spelled w ((k, t) ∷ ks) = if same_text w k then t else spelled w ks

abbrev pub keyword_cases : List (ℕ × List (List ℕ × TokenType))
keyword_cases =
    (
      97,
      (codes "and", token_and)
          ∷ (codes "async", token_async)
          ∷ (codes "await", token_await)
          ∷ (codes "as", token_as)
          ∷ [],
    )
    ∷ (98, (codes "break", token_break) ∷ [])
    ∷ (
      99,
      (codes "continue", token_continue)
          ∷ (codes "catch", token_catch)
          ∷ (codes "class", token_class)
          ∷ (codes "case", token_case)
          ∷ [],
    )
    ∷ (100, (codes "do", token_do) ∷ (codes "default", token_default) ∷ [])
    ∷ (
      101,
      (codes "else", token_else)
          ∷ (codes "extends", token_extends)
          ∷ (codes "export", token_export)
          ∷ [],
    )
    ∷ (
      102,
      (codes "fn", token_fn)
          ∷ (codes "for", token_for)
          ∷ (codes "false", token_false)
          ∷ (codes "finally", token_finally)
          ∷ (codes "function", token_function)
          ∷ (codes "from", token_from)
          ∷ [],
    )
    ∷ (105, (codes "if", token_if) ∷ (codes "import", token_import) ∷ [])
    ∷ (110, (codes "not", token_not) ∷ (codes "new", token_new) ∷ [])
    ∷ (111, (codes "or", token_or) ∷ [])
    ∷ (114, (codes "return", token_return) ∷ (codes "require", token_require) ∷ [])
    ∷ (115, (codes "super", token_super) ∷ (codes "switch", token_switch) ∷ [])
    ∷ (
      116,
      (codes "true", token_true)
          ∷ (codes "try", token_try)
          ∷ (codes "throw", token_throw)
          ∷ (codes "this", token_this)
          ∷ [],
    )
    ∷ (119, (codes "while", token_while) ∷ [])
    ∷ (121, (codes "yield", token_yield) ∷ [])
    ∷ []

-- on the text between `start` and `current`
unfoldable pub identifier_type : List ℕ → TokenType
unfolding spelled
identifier_type [] = token_identifier
identifier_type (c ∷ w) = spelled (c ∷ w) (switch c keyword_cases [])
