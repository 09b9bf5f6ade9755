-- ===== src/Lexer/Text.antt =====
-- `string` of src/frontend/lexer/lexer.c. Its three nested loops are one loop with a mode, which says
-- where in them the code stands.
use ember_core.Common.{
  ℕ, zero, suc, ◌+◌, Bool, true, false, ◌&&◌, Option, none, some, List, [], ◌∷◌, ◌==◌,
  if◌then◌else◌,
}
use ember_core.Lexer.{peek_char}

-- the outer loop; between $ and {; the loop on braces, and the one in it on a quoted text, where
-- brace_count is one more than the number; after a backslash
pub data Mode : Type 0 where
  text opening : Mode
  braces quoted escaped : ℕ → Mode

-- a character passed, where the next one is known
unfoldable pub next_mode : Mode → ℕ → ℕ → Mode
next_mode text c next = if c == 36 && next == 123 then opening else text
next_mode opening c next = braces 0
next_mode (braces zero) c next =
    if c == 34 then quoted 0 else if c == 123 then braces 1 else if c == 125 then text else braces 0
next_mode (braces (suc n)) c next =
    if c == 34
    then quoted (suc n)
    else if c == 123
    then braces (suc (suc n))
    else if c == 125
    then braces n
    else braces (suc n)
next_mode (quoted n) c next = if c == 34 then braces n else if c == 92 then escaped n else quoted n
next_mode (escaped n) c next = quoted n

-- `if (peek_char() == '\n') scanner.line++`, in the outer loop alone
abbrev pub count_line : Mode → ℕ → ℕ → ℕ
count_line text c line = if c == 10 then line + 1 else line
count_line _ c line = line

-- the end of the outer loop at a quote
abbrev pub closes : Mode → ℕ → Bool
closes text c = c == 34
closes _ c = false

-- The closing quote or the end of the source, with the line there; `none` where the second `advance`
-- of an escape passes the NUL.
unfoldable pub string_end : Mode → ℕ → List ℕ → Option (ℕ × List ℕ)
unfolding next_mode
string_end (escaped n) line [] = none
string_end _ line [] = some (line, [])
string_end mode line (c ∷ cs) =
    let rest = string_end (next_mode mode c (peek_char cs)) (count_line mode c line) cs in
    if closes mode c then some (line, c ∷ cs) else rest

-- the loop of `check_ptr`
unfoldable pub has_interpolation : List ℕ → Bool
has_interpolation [] = false
has_interpolation (c ∷ cs) =
    if c == 34 then false else if c == 36 && peek_char cs == 123 then true else has_interpolation cs
