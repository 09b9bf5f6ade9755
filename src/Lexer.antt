-- ===== src/Lexer.antt =====
-- src/frontend/lexer/lexer.c, with `lexer` of lexer.h and the token types of include/ember.h.
-- A pointer into the source is the text from there to the NUL at its end, as a list of character
-- codes, none of them 0; the difference of two pointers is the difference of the lengths. The calls
-- of `isdigit`, `isalpha` and `isalnum` are those of the C locale, and `strtod` is a parameter.
pub mod Words
pub mod Text
pub mod Scan
pub mod Consumed
pub mod Blanks
pub mod Total
pub mod Keywords
use ember_core.Common.{
  ℕ, ◌-◌, Bool, true, false, ◌&&◌, ◌||◌, Option, none, some, List, [], ◌∷◌, length, take, leb, ◌==◌,
  if◌then◌else◌,
}

pub data TokenType : Type 0 where
  token_number token_string token_interpolated_string token_plus token_minus token_multiply :
      TokenType
  token_divide token_modulo token_plus_plus token_minus_minus token_plus_equal : TokenType
  token_minus_equal token_multiply_equal token_divide_equal token_lparen token_rparen : TokenType
  token_equal token_equal_equal token_not_equal token_less token_less_equal token_greater :
      TokenType
  token_greater_equal token_if token_else token_while token_do token_for token_fn : TokenType
  token_function token_return token_import token_break token_continue token_lbrace : TokenType
  token_rbrace token_comma token_colon token_at token_and token_or token_not token_and_and :
      TokenType
  token_or_or token_true token_false token_identifier token_semicolon token_newline : TokenType
  token_lbracket token_rbracket token_try token_catch token_finally token_throw token_class :
      TokenType
  token_extends token_new token_this token_super token_dot token_async token_await : TokenType
  token_yield token_switch token_case token_default token_export token_from token_as : TokenType
  token_require token_eof token_error : TokenType

-- the fields `start` and `length` of an error token are its message
pub record Token (D : Type 0) : Type 0 where
  pub type : TokenType
  pub start : List ℕ
  pub length : ℕ
  pub line : ℕ
  pub number : D

-- the scanner between two tokens, where `start` is not used
pub record Lexer : Type 0 where
  pub current : List ℕ
  pub line : ℕ

-- what the code asks of `double` and of `strtod`
pub record Reader (D : Type 0) : Type 0 where
  pub zero_value : D
  pub strtod : List ℕ → D

abbrev pub init_scanner : List ℕ → Lexer
init_scanner source = record { current = source; line = 1 }

abbrev pub peek_char : List ℕ → ℕ
peek_char [] = 0
peek_char (c ∷ cs) = c

abbrev pub peek_next_char : List ℕ → ℕ
peek_next_char [] = 0
peek_next_char (c ∷ cs) = peek_char cs

-- `none` where the pointer would pass the NUL
abbrev pub advance : List ℕ → Option (List ℕ)
advance [] = none
advance (c ∷ cs) = some cs

-- the text between two pointers
abbrev pub lexeme : List ℕ → List ℕ → List ℕ
lexeme start current = take (length start - length current) start

abbrev pub isdigit : ℕ → Bool
isdigit c = leb 48 c && leb c 57

abbrev pub isalpha : ℕ → Bool
isalpha c = (leb 65 c && leb c 90) || (leb 97 c && leb c 122)

abbrev pub is_word : ℕ → Bool
is_word c = isalpha c || isdigit c || c == 95

-- a `switch` on a character, by the list of its cases
abbrev pub switch {ℓ} : {B : Type ℓ} → ℕ → List (ℕ × B) → B → B
switch c [] default = default
switch c ((d, b) ∷ cases) default = if c == d then b else switch c cases default
