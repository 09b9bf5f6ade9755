-- ===== src/Tests/Tokens.antt =====
-- The scanner on short sources. The reader's doubles are numbers, and `strtod` counts characters.
use ember_core.Common.{
  same_text, ℕ, ◌+◌, true, false, some, List, codes, length, is_some, ◌≡◌, refl,
}
use ember_core.Lexer.Blanks.{Passed, starts_blank, skip_whitespace_lem}
use ember_core.Lexer.Consumed.{Scanned, scan_token-Scanned}
use ember_core.Lexer.Keywords.{keywords, identifier_type_lem}
use ember_core.Lexer.Scan.{
  scan_token, skip_whitespace, skip_within, skip_line, drop_while, number_end, number_token,
  identifier_token, string_token, scan_from,
}
use ember_core.Lexer.Text.{string_end, has_interpolation, next_mode}
use ember_core.Lexer.Total.{scan_token-total}
use ember_core.Lexer.Words.{identifier_type, spelled}
use ember_core.Lexer.{Token, Lexer, Reader, init_scanner, token_while, token_interpolated_string}

instance abbrev reader : Reader ℕ
reader = record { zero_value = 0; strtod = length }

scanner : Unit {0}
unfolding scan_token skip_whitespace skip_within skip_line drop_while number_end number_token
    identifier_token string_token scan_from string_end has_interpolation next_mode identifier_type
    spelled same_text
scanner = tt

abbrev after_comment : List ℕ
after_comment = codes "  // note"

abbrev loop : Lexer
loop = init_scanner (codes " while x")

abbrev while_token : Token ℕ
while_token = record {
  type = token_while;
  start = codes "while x";
  length = 5;
  line = 1;
  number = 0;
}

abbrev after_while : Lexer
after_while = record { current = codes " x"; line = 1 }

scan_while : scan_token loop ≡ some (while_token, after_while)
unfolding scanner
scan_while = refl

-- The end of the line inside an interpolation is not counted: the token is on line 1, and so is what
-- comes after it.
abbrev two_lines : List ℕ
two_lines = codes "\"${a\n}\";"

abbrev text_token : Token ℕ
text_token = record {
  type = token_interpolated_string;
  start = two_lines;
  length = 7;
  line = 1;
  number = 0;
}

scan_two_lines :
    scan_token (init_scanner two_lines)
    ≡ some (text_token, record { current = codes ";"; line = 1 })
unfolding scanner
scan_two_lines = refl

scan_token-Scanned_example : Scanned loop.current while_token after_while.current
scan_token-Scanned_example = scan_token-Scanned loop after_while while_token scan_while

scan_token-total_example : is_some (scan_token {D = ℕ} loop) ≡ true
scan_token-total_example = scan_token-total ℕ loop refl

skip_whitespace_lem_example :
    (rest : List ℕ) × (skip_whitespace after_comment ≡ some rest)
    × Passed after_comment rest
    × (starts_blank rest ≡ false)
    × ((more : ℕ) → skip_within (length after_comment + more) after_comment ≡ some rest)
skip_whitespace_lem_example = skip_whitespace_lem after_comment

identifier_type_lem_example : identifier_type (codes "async") ≡ spelled (codes "async") keywords
identifier_type_lem_example = identifier_type_lem (codes "async")
