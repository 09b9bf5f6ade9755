-- ===== src/Tests/Documents.antt =====
-- JSON texts, with natural numbers for the numbers.
use ember_core.Common.{
  ℕ, ◌+◌, ◌<◌, length, ltb, if◌then◌else◌, arith, ◌≡◌, refl, Bool, true, some, List, [], ◌∷◌, ◌++◌,
  codes,
}
use ember_core.Json.Read.{JsonValue, ember_json_parse_working, ember_json_stringify_working}
use ember_core.Json.Written.{quoted, append_string-fits, stringify-text, parse-stringify}
use ember_core.Json.{quote, backslash, no_buffer, Buffer, filled, overrun, escape, append_string}

abbrev no_number : List ℕ → ℕ × List ℕ
no_number cs = (0, cs)

abbrev granted : ℕ → Bool
granted n = true

abbrev print_zero : ℕ → List ℕ
print_zero n = codes "0"

-- say "hi"\
abbrev greeting : List ℕ
greeting = codes "say " ++ (quote ∷ codes "hi" ++ (quote ∷ backslash ∷ []))

append_string-fits_example :
    (b : Buffer) × (append_string granted no_buffer greeting ≡ filled b)
    × (b.text ≡ greeting)
    × (length b.text < b.capacity)
append_string-fits_example = append_string-fits granted no_buffer greeting (λ n. refl) (omega arith)

stringify-text_example :
    ember_json_stringify_working granted print_zero (JsonValue.text greeting) ≡ (
      if ltb (length (escape greeting) + 2) 256
      then filled (record { text = quoted greeting; capacity = 256 })
      else overrun)
stringify-text_example = stringify-text granted print_zero greeting refl

parse-stringify_example :
    (b : Buffer) × (ember_json_stringify_working granted print_zero (JsonValue.text greeting)
      ≡ filled b)
    × (ember_json_parse_working no_number granted (JsonValue.text b.text)
        ≡ some (JsonValue.text (escape greeting)))
parse-stringify_example =
    parse-stringify no_number granted granted print_zero greeting (λ n. refl) refl
      (unfold escape in omega arith)
