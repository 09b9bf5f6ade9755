-- ===== src/Json/Read.antt =====
-- `parse_json_value`, `ember_json_parse_working` and `ember_json_stringify_working` of
-- src/runtime/json_simple.c. `strtod` and the `%g` of `snprintf` are parameters, and so is the type of
-- the numbers. A hash map is the empty one that the parser makes.
use ember_core.Common.{
  ℕ, ◌+◌, Bool, true, false, not, ◌||◌, Option, none, some, List, [], ◌∷◌, ◌==◌, ltb, length, codes,
  take, if◌then◌else◌, after_prefix,
}
use ember_core.Json.{
  quote, backslash, no_buffer, Output, filled, overrun, endless, append_escaped_string,
  append_string,
}
use ember_core.Packages.Versions.{is_digit, is_space}

pub data JsonValue (D : Type 0) : Type 0 where
  nil : JsonValue D
  boolean : Bool → JsonValue D
  number : D → JsonValue D
  text : List ℕ → JsonValue D
  hash_map : JsonValue D
  array : JsonValue D
  other : JsonValue D

unfoldable pub skip_whitespace : List ℕ → List ℕ
skip_whitespace [] = []
skip_whitespace (c ∷ cs) = let rest = skip_whitespace cs in if is_space c then rest else c ∷ cs

-- the loop to the closing quote
pub data Scanned : Type 0 where
  closed : List ℕ → List ℕ → Scanned
  unterminated : Scanned
  past_end : Scanned

abbrev pub with_character : ℕ → Scanned → Scanned
with_character c (closed content rest) = closed (c ∷ content) rest
with_character c unterminated = unterminated
with_character c past_end = past_end

-- A backslash before the NUL makes the loop step over the NUL.
unfoldable pub scan_string : List ℕ → Scanned
scan_string [] = unterminated
scan_string (c ∷ []) =
    if c == quote then closed [] [] else if c == backslash then past_end else unterminated
scan_string (c ∷ d ∷ cs) =
    let after = scan_string (d ∷ cs) in
    let skipped = scan_string cs in
    if c == quote
    then closed [] (d ∷ cs)
    else if c == backslash
    then with_character c (with_character d skipped)
    else with_character c after

-- to after the first brace that closes
unfoldable pub after_brace : List ℕ → List ℕ
after_brace [] = []
after_brace (c ∷ cs) = let rest = after_brace cs in if c == 125 then cs else rest

-- a value and what is left to read, or a read past the end
pub data Parsed (D : Type 0) : Type 0 where
  parsed : JsonValue D → List ℕ → Parsed D
  out_of_bounds : Parsed D

module _ {D : Type 0} (strtod : List ℕ → D × List ℕ) (malloc : ℕ → Bool) where
  -- at the end of a string; `json` is where the value started
  unfoldable pub parse_string : List ℕ → Scanned → Parsed D
  parse_string json (closed content rest) =
      if malloc (length content + 1) then parsed (text content) rest else parsed nil json
  parse_string json unterminated = parsed nil json
  parse_string json past_end = out_of_bounds

  -- the words, or nothing that is known
  unfoldable pub parse_word : List ℕ → List ℕ → Parsed D
  parse_word start json = elim (after_prefix (codes "true") json) [
    | some rest ↦ parsed (boolean true) rest
    | none ↦ elim (after_prefix (codes "false") json) [
      | some rest ↦ parsed (boolean false) rest
      | none ↦ elim (after_prefix (codes "null") json) [
        | some rest ↦ parsed nil rest
        | none ↦ parsed nil start
      ]
    ]
  ]

  -- on a text that starts with no white space
  unfoldable pub parse_value : List ℕ → List ℕ → Parsed D
  unfolding parse_string parse_word scan_string after_brace skip_whitespace
  parse_value start [] = parsed nil start
  parse_value start (c ∷ cs) =
      if c == quote
      then parse_string start (scan_string cs)
      else if c == 123
      then parsed hash_map (after_brace (skip_whitespace cs))
      else if is_digit c || c == 45
      then (let (num, endptr) = strtod (c ∷ cs) in parsed (number num) endptr)
      else parse_word start (c ∷ cs)

  unfoldable pub parse_json_value : List ℕ → Parsed D
  unfolding parse_value skip_whitespace
  parse_json_value json = parse_value json (skip_whitespace json)

  -- on one argument; `none` where the code reads past the end
  unfoldable pub ember_json_parse_working : JsonValue D → Option (JsonValue D)
  unfolding parse_json_value
  ember_json_parse_working (text json) =
      if not (malloc (length json + 1))
      then some nil
      else (elim (parse_json_value json) [ parsed v rest ↦ some v | out_of_bounds ↦ none ])
  ember_json_parse_working _ = some nil

-- `buffer[size] = '\0'` after what was written
abbrev pub terminated : Output → Output
terminated (filled b) = if ltb (length b.text) b.capacity then filled b else overrun
terminated overrun = overrun
terminated endless = endless

-- the text of one argument, in its buffer; `temp` has 64 bytes
unfoldable pub ember_json_stringify_working :
    {D : Type 0} → (ℕ → Bool) → (D → List ℕ) → JsonValue D → Output
unfolding append_escaped_string append_string
ember_json_stringify_working realloc print_number (text str) =
    terminated (append_escaped_string realloc no_buffer str)
ember_json_stringify_working realloc print_number (number num) =
    terminated (append_string realloc no_buffer (take 63 (print_number num)))
ember_json_stringify_working realloc print_number (boolean true) =
    terminated (append_string realloc no_buffer (codes "true"))
ember_json_stringify_working realloc print_number (boolean false) =
    terminated (append_string realloc no_buffer (codes "false"))
ember_json_stringify_working realloc print_number nil =
    terminated (append_string realloc no_buffer (codes "null"))
ember_json_stringify_working realloc print_number hash_map =
    terminated (append_string realloc no_buffer (codes "{}"))
ember_json_stringify_working realloc print_number array =
    terminated (append_string realloc no_buffer (codes "[]"))
ember_json_stringify_working realloc print_number other =
    terminated (append_string realloc no_buffer (codes "null"))
