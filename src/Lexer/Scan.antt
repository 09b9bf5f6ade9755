-- ===== src/Lexer/Scan.antt =====
-- `scan_token` of src/frontend/lexer/lexer.c, with the functions it calls.
use ember_core.Common.{
  ℕ, zero, suc, ◌+◌, ◌-◌, Bool, ◌&&◌, ◌||◌, Option, none, some, List, [], ◌∷◌, length, codes, ◌==◌,
  if◌then◌else◌,
}
use ember_core.Lexer.Text.{string_end, has_interpolation, text}
use ember_core.Lexer.Words.{identifier_type}
use ember_core.Lexer.{
  TokenType, Token, Lexer, Reader, peek_char, peek_next_char, advance, lexeme, isdigit, isalpha,
  is_word, switch, token_and_and, token_at, token_colon, token_comma, token_divide,
  token_divide_equal, token_dot, token_eof, token_equal, token_equal_equal, token_error,
  token_greater, token_greater_equal, token_interpolated_string, token_lbrace, token_lbracket,
  token_less, token_less_equal, token_lparen, token_minus, token_minus_equal, token_minus_minus,
  token_modulo, token_multiply, token_multiply_equal, token_newline, token_not, token_not_equal,
  token_number, token_or_or, token_plus, token_plus_equal, token_plus_plus, token_rbrace,
  token_rbracket, token_rparen, token_semicolon, token_string,
}

-- `while (peek_char() != '\n' && !is_at_end()) advance();`
unfoldable pub skip_line : List ℕ → List ℕ
skip_line [] = []
skip_line (c ∷ cs) = if c == 10 then c ∷ cs else skip_line cs

-- what follows a pointer that is still in the source
abbrev pub then_at : Option (List ℕ) → (List ℕ → Option (List ℕ)) → Option (List ℕ)
then_at none next = none
then_at (some cs) next = next cs

-- Each round but the last passes a character, so the length of the text is enough fuel. `none`, here and
-- below, where the code reads past the NUL.
unfoldable pub skip_within : ℕ → List ℕ → Option (List ℕ)
skip_within zero cs = some cs
skip_within (suc fuel) cs =
    let blank = then_at (advance cs) (skip_within fuel) in
    let hash = skip_within fuel (skip_line cs) in
    let slashes =
      then_at (then_at (advance cs) advance) (λ after. skip_within fuel (skip_line after)) in
    let c = peek_char cs in
    if c == 32 || c == 13 || c == 9
    then blank
    else if c == 35
    then hash
    else if c == 47 && peek_next_char cs == 47
    then slashes
    else some cs

unfoldable pub skip_whitespace : List ℕ → Option (List ℕ)
skip_whitespace cs = skip_within (length cs) cs

-- `while (test(peek_char())) advance();`
unfoldable pub drop_while : (ℕ → Bool) → List ℕ → Option (List ℕ)
drop_while test [] = if test 0 then none else some []
drop_while test (c ∷ cs) = let rest = drop_while test cs in if test c then rest else some (c ∷ cs)

-- the fraction, from the end of the whole part
unfoldable pub fraction_end : List ℕ → Option (List ℕ)
unfolding drop_while
fraction_end whole =
    if peek_char whole == 46 && isdigit (peek_next_char whole)
    then then_at (advance whole) (drop_while isdigit)
    else some whole

-- the end of a number, from after its first digit
unfoldable pub number_end : List ℕ → Option (List ℕ)
unfolding drop_while fraction_end
number_end cs = then_at (drop_while isdigit cs) fraction_end

-- what a branch of the `switch` makes: a token that ends at the text, or an error with a message and
-- the text after it, each with what it adds to the line; or a pointer past the NUL
pub data Outcome : Type 0 where
  lexed : TokenType → List ℕ → Outcome
  failed : List ℕ → List ℕ → Outcome
  newline : List ℕ → Outcome
  past_end : Outcome

abbrev pub lexed_at : TokenType → Option (List ℕ) → Outcome
lexed_at type none = past_end
lexed_at type (some cs) = lexed type cs

-- a branch that looks at one more character
abbrev pub either : ℕ → TokenType → Outcome → List ℕ → Outcome
either c longer shorter cs = if peek_char cs == c then lexed_at longer (advance cs) else shorter

abbrev pub unexpected : List ℕ
unexpected = codes "Unexpected character"

-- the branches of the `switch` but that of the quote, on the text after the character
abbrev pub operator_cases : List ℕ → List (ℕ × Outcome)
operator_cases cs =
    (40, lexed token_lparen cs)
    ∷ (41, lexed token_rparen cs)
    ∷ (123, lexed token_lbrace cs)
    ∷ (125, lexed token_rbrace cs)
    ∷ (91, lexed token_lbracket cs)
    ∷ (93, lexed token_rbracket cs)
    ∷ (44, lexed token_comma cs)
    ∷ (43, either 43 token_plus_plus (either 61 token_plus_equal (lexed token_plus cs) cs) cs)
    ∷ (45, either 45 token_minus_minus (either 61 token_minus_equal (lexed token_minus cs) cs) cs)
    ∷ (42, either 61 token_multiply_equal (lexed token_multiply cs) cs)
    ∷ (47, either 61 token_divide_equal (lexed token_divide cs) cs)
    ∷ (37, lexed token_modulo cs)
    ∷ (61, either 61 token_equal_equal (lexed token_equal cs) cs)
    ∷ (33, either 61 token_not_equal (lexed token_not cs) cs)
    ∷ (60, either 61 token_less_equal (lexed token_less cs) cs)
    ∷ (62, either 61 token_greater_equal (lexed token_greater cs) cs)
    ∷ (58, lexed token_colon cs)
    ∷ (64, lexed token_at cs)
    ∷ (59, lexed token_semicolon cs)
    ∷ (46, lexed token_dot cs)
    ∷ (38, either 38 token_and_and (failed (codes "Unexpected character '&'") cs) cs)
    ∷ (124, either 124 token_or_or (failed (codes "Unexpected character '|'") cs) cs)
    ∷ (10, newline cs)
    ∷ []

module _ {D : Type 0} ⦃reader : Reader D⦄ where
  -- `make_token`, on the token's text and the scanner at its end
  abbrev pub make_token : TokenType → List ℕ → Lexer → Token D
  make_token type start sc = record {
    type = type;
    start = start;
    length = length start - length sc.current;
    line = sc.line;
    number = reader.zero_value;
  }

  abbrev pub error_token : List ℕ → ℕ → Token D
  error_token message line = record {
    type = token_error;
    start = message;
    length = length message;
    line = line;
    number = reader.zero_value;
  }

  -- a token at a text, with the scanner after it
  abbrev pub made : TokenType → List ℕ → Lexer → Token D × Lexer
  made type start sc = (make_token type start sc, sc)

  abbrev pub finish : List ℕ → ℕ → Outcome → Option (Token D × Lexer)
  finish start line (lexed type cs) = some (made type start (record { current = cs; line = line }))
  finish start line (failed message cs) =
      some (error_token message line, record { current = cs; line = line })
  finish start line (newline cs) =
      some (made token_newline start (record { current = cs; line = line + 1 }))
  finish start line past_end = none

  -- up to the end of the number
  abbrev pub number_to : List ℕ → ℕ → Option (List ℕ) → Option (Token D × Lexer)
  number_to start line none = none
  number_to start line (some rest) =
      let sc : Lexer = record { current = rest; line = line } in
      let token : Token D = make_token token_number start sc in
      some (record token { number = reader.strtod start }, sc)

  unfoldable pub number_token : List ℕ → ℕ → List ℕ → Option (Token D × Lexer)
  unfolding number_end
  number_token start line cs = number_to start line (number_end cs)

  -- up to the end of the word
  abbrev pub identifier_to : List ℕ → ℕ → Option (List ℕ) → Option (Token D × Lexer)
  identifier_to start line none = none
  identifier_to start line (some rest) =
      some
        (made (identifier_type (lexeme start rest)) start (record { current = rest; line = line }))

  unfoldable pub identifier_token : List ℕ → ℕ → List ℕ → Option (Token D × Lexer)
  unfolding drop_while identifier_type
  identifier_token start line cs = identifier_to start line (drop_while is_word cs)

  unfoldable pub string_token : List ℕ → ℕ → List ℕ → Option (Token D × Lexer)
  unfolding string_end has_interpolation
  string_token start line cs = elim (string_end text line cs) [
    | none ↦ none
    | some (l, []) ↦
        some (error_token (codes "Unterminated string") l, record { current = []; line = l })
    | some (l, quote ∷ rest) ↦ some (
        made (if has_interpolation cs then token_interpolated_string else token_string) start
          (record { current = rest; line = l }))
  ]

  -- the rest of `scan_token` after `c = advance()`
  unfoldable pub scan_from : List ℕ → ℕ → ℕ → List ℕ → Option (Token D × Lexer)
  scan_from start line c cs =
      if isdigit c
      then number_token start line cs
      else if isalpha c || c == 95
      then identifier_token start line cs
      else if c == 34
      then string_token start line cs
      else finish start line (switch c (operator_cases cs) (failed unexpected cs))

  -- after the blanks
  abbrev pub scan_at : ℕ → Option (List ℕ) → Option (Token D × Lexer)
  scan_at line none = none
  scan_at line (some []) = some (made token_eof [] (record { current = []; line = line }))
  scan_at line (some (c ∷ cs)) = scan_from (c ∷ cs) line c cs

  unfoldable pub scan_token : Lexer → Option (Token D × Lexer)
  unfolding skip_whitespace
  scan_token sc = scan_at sc.line (skip_whitespace sc.current)
