-- ===== src/Json/Written.antt =====
-- What the JSON functions of src/runtime/json_simple.c write, and what they make of it.
use ember_core.Common.{
  ℕ, zero, suc, ◌+◌, ◌*◌, ◌^◌, ◌-◌, ◌≤◌, ◌<◌, ◌≡◌, refl, sym, ap, ◌∙◌, inl, inr, Bool, true, false,
  not, ◌||◌, some, List, [], ◌∷◌, ◌++◌, length-append, arith, ltb, leb, ◌==◌, Bool-cases, length,
  if◌then◌else◌,
}
use ember_core.Json.Read.{
  terminated, JsonValue, closed, with_character, scan_string, parse_string, parse_value,
  parse_json_value, ember_json_parse_working, ember_json_stringify_working, skip_whitespace,
}
use ember_core.Json.{
  no_buffer, quote, backslash, Buffer, enlarged, escape, append_escaped_string, filled, overrun,
  word, put_text, reallocated, appended, grown, append_string, Counts, step, count_all, no_counts,
  ember_json_validate_working,
}

word_small : (n : ℕ) → n < 2 ^ 64 → word n ≡ n
word_small n h = omega arith

-- The loop ends at a capacity above the least one, where that is below half of the range.
grown_enough :
    (fuel least capacity : ℕ)
    → 0 < capacity
    → least < 2 ^ 63
    → least < fuel + capacity
    → capacity ≤ 2 ^ 64 - 1
    → (c : ℕ) × (grown (suc fuel) least capacity ≡ some c) × (least < c)
unfolding grown
grown_enough zero least capacity some_bytes low enough inside =
    let ends : leb capacity least ≡ false = ground arith in (capacity, rw ends refl, omega arith)
grown_enough (suc fuel) least capacity some_bytes low enough inside =
    elim (Bool-cases (leb capacity least)) [
      | inr e ↦ (capacity, rw e refl, ground arith)
      | inl e ↦
          let small : capacity * 2 < 2 ^ 64 = ground arith in
          let (c, found, above) =
            grown_enough fuel least (capacity * 2) (omega arith) low (ground arith) (omega arith) in
          (c, rw (e, word_small (capacity * 2) small) found, above)
    ]

scan_quote : (cs : List ℕ) → scan_string (quote ∷ cs) ≡ closed [] cs
unfolding scan_string
scan_quote [] = refl
scan_quote (c ∷ cs) = refl

scan_plain :
    (c : ℕ) (cs : List ℕ)
    → c == quote || c == backslash ≡ false
    → scan_string (c ∷ cs) ≡ with_character c (scan_string cs)
unfolding scan_string
scan_plain c [] h =
    let a : c == quote ≡ false = ground arith in
    let b : c == backslash ≡ false = ground arith in rw (a, b)
scan_plain c (d ∷ cs) h =
    let a : c == quote ≡ false = ground arith in
    let b : c == backslash ≡ false = ground arith in rw (a, b)

scan_escaped :
    (d : ℕ) (cs : List ℕ)
    → scan_string (backslash ∷ d ∷ cs)
      ≡ with_character backslash (with_character d (scan_string cs))
unfolding scan_string
scan_escaped d cs = refl

scan_string-escape :
    (str rest : List ℕ) → scan_string (escape str ++ (quote ∷ rest)) ≡ closed (escape str) rest
unfolding escape
scan_string-escape [] rest = scan_quote rest
scan_string-escape (c ∷ cs) rest = elim (Bool-cases (c == quote || c == backslash)) [
  | inl e ↦ rw e (
      scan_escaped c (escape cs ++ (quote ∷ rest))
      ∙ ap (λ r. with_character backslash (with_character c r)) (scan_string-escape cs rest))
  | inr e ↦ rw e (
      scan_plain c (escape cs ++ (quote ∷ rest)) e
      ∙ ap (with_character c) (scan_string-escape cs rest))
]

enlarged_some :
    (capacity : ℕ)
    → capacity ≤ 2 ^ 63 - 1
    → (0 < enlarged capacity) × (enlarged capacity ≤ 2 ^ 64 - 1)
enlarged_some capacity low = elim (Bool-cases (capacity == 0)) [
  | inl e ↦ rw e (omega arith, omega arith)
  | inr e ↦ rw e (ground arith, omega arith)
]

put_text-filled :
    (text : List ℕ) (capacity : ℕ)
    → length text < capacity
    → put_text text capacity ≡ filled (record { text = text; capacity = capacity })
put_text-filled text capacity room =
    let fits : ltb (length text) capacity ≡ true = ground arith in rw fits refl

reallocated-filled :
    (realloc : ℕ → Bool) (text : List ℕ) (capacity : ℕ)
    → realloc capacity ≡ true
    → length text < capacity
    → reallocated realloc text (some capacity)
      ≡ filled (record { text = text; capacity = capacity })
reallocated-filled realloc text capacity granted room =
    rw granted (put_text-filled text capacity room)

appended-filled :
    (realloc : ℕ → Bool) (text : List ℕ) (capacity : ℕ)
    → ((n : ℕ) → realloc n ≡ true)
    → length text < 2 ^ 63
    → (c : ℕ) × (appended realloc text capacity (length text)
        ≡ filled (record { text = text; capacity = c }))
      × (length text < c)
unfolding appended
appended-filled realloc text capacity granted low =
    let least = length text in
    elim (Bool-cases (leb capacity least)) [
      | inr e ↦ (capacity, rw e (put_text-filled text capacity (ground arith)), ground arith)
      | inl e ↦
          let (some_bytes, inside) = enlarged_some capacity (ground arith) in
          let (c, found, above) =
            grown_enough least least (enlarged capacity) some_bytes low (omega arith) inside in
          (
            c,
            ap
                  (λ grows.
                    if grows
                    then reallocated realloc text (grown (suc least) least (enlarged capacity))
                    else put_text text capacity)
                  e
                ∙ ap (reallocated realloc text) found
                ∙ reallocated-filled realloc text c (granted c) above,
            above,
          )
    ]

-- Where realloc never fails and the text with what is appended has less than 2^63 bytes,
-- `append_string` ends, without a wrap of its capacity to 0, in a buffer that holds the text with
-- what is appended and the NUL after it, whatever the capacity was.
pub append_string-fits :
    (realloc : ℕ → Bool) (b : Buffer) (str : List ℕ)
    → ((n : ℕ) → realloc n ≡ true)
    → length b.text + length str < 2 ^ 63
    → (b' : Buffer) × (append_string realloc b str ≡ filled b')
      × (b'.text ≡ b.text ++ str)
      × (length b'.text < b'.capacity)
unfolding append_string
append_string-fits realloc b str granted low =
    let text = b.text ++ str in
    let size = length-append b.text str in
    let plain : word (length b.text + length str) ≡ length text =
      word_small (length b.text + length str) (omega (arith, low)) ∙ sym size in
    let (c, e, room) = appended-filled realloc text b.capacity granted (omega (arith, size, low)) in
    (
      record { text = text; capacity = c },
      ap (appended realloc text b.capacity) plain ∙ e,
      refl,
      room,
    )

-- The last character of a string, or the one before it.
abbrev pub last_of : ℕ → List ℕ → ℕ
last_of before [] = before
last_of before (c ∷ cs) = last_of c cs

-- Inside a string that started at the first character.
abbrev pub inside : Counts
inside = record no_counts { in_string = true }

step_plain : (before c : ℕ) → c == quote ≡ false → step before c inside ≡ inside
step_plain before c h = rw h

step_escaped : (c : ℕ) → step backslash c inside ≡ inside
step_escaped c = elim (Bool-cases (c == quote)) [ inl e ↦ rw e | inr e ↦ rw e ]

count_all-escape :
    (before : ℕ) (str : List ℕ)
    → count_all before (escape str ++ (quote ∷ [])) inside
      ≡ (if last_of before str == backslash then inside else no_counts)
unfolding count_all escape
count_all-escape before [] = elim (Bool-cases (before == backslash)) [ inl e ↦ rw e | inr e ↦ rw e ]
count_all-escape before (c ∷ cs) = elim (Bool-cases (c == quote || c == backslash)) [
  | inl e ↦
      rw e (ap (count_all c (escape cs ++ (quote ∷ []))) (step_escaped c) ∙ count_all-escape c cs)
  | inr e ↦
      let plain : c == quote ≡ false = ground arith in
      rw e (
        ap (count_all c (escape cs ++ (quote ∷ []))) (step_plain before c plain)
        ∙ count_all-escape c cs)
]

-- the text of a string in quotes
abbrev pub quoted : List ℕ → List ℕ
quoted str = quote ∷ escape str ++ (quote ∷ [])

pub validate-quoted :
    (str : List ℕ) → ember_json_validate_working (quoted str) ≡ not (last_of quote str == backslash)
unfolding ember_json_validate_working count_all
validate-quoted str =
    rw (count_all-escape quote str)
      (elim (Bool-cases (last_of quote str == backslash)) [ inl e ↦ rw e | inr e ↦ rw e ])

length-quoted : (str : List ℕ) → length (quoted str) ≡ length (escape str) + 2
length-quoted str = omega (arith, length-append (escape str) (quote ∷ []))

append_escaped_string-quoted :
    (realloc : ℕ → Bool) (str : List ℕ)
    → realloc 256 ≡ true
    → append_escaped_string realloc no_buffer str ≡ (
        if leb (length (quoted str)) 256
        then filled (record { text = quoted str; capacity = 256 })
        else overrun)
unfolding append_escaped_string
append_escaped_string-quoted realloc str granted =
    let grows : leb 0 (word (0 + word (length str + 2))) ≡ true = ground arith in
    rw (grows, granted) refl

-- Where realloc grants the 256 bytes, `ember_json_stringify_working` of a string leaves its buffer
-- exactly where the escaped string and its two quotes have less than 256 characters; else it writes
-- past the buffer.
pub stringify-text :
    {D : Type 0} (realloc : ℕ → Bool) (print_number : D → List ℕ) (str : List ℕ)
    → realloc 256 ≡ true
    → ember_json_stringify_working realloc print_number (JsonValue.text str) ≡ (
        if ltb (length (escape str) + 2) 256
        then filled (record { text = quoted str; capacity = 256 })
        else overrun)
unfolding ember_json_stringify_working
stringify-text realloc print_number str granted =
    let size = length-quoted str in
    let text = quoted str in
    ap terminated (append_escaped_string-quoted realloc str granted)
    ∙ elim (Bool-cases (ltb (length (escape str) + 2) 256)) [
      | inl e ↦
          let held : leb (length text) 256 ≡ true = ground (arith, size) in
          let room : ltb (length text) 256 ≡ true = ground (arith, size) in rw (e, held, room) refl
      | inr e ↦
          let full : ltb (length text) 256 ≡ false = ground (arith, size) in
          elim (Bool-cases (leb (length text) 256)) [
            | inl held ↦ rw (e, held, full) refl
            | inr over ↦ rw (e, over) refl
          ]
    ]

module _ {D : Type 0} (strtod : List ℕ → D × List ℕ) (malloc realloc : ℕ → Bool)
    (print_number : D → List ℕ) where
  -- With memory granted, for a string whose escaped form has less than 254 characters
  -- `ember_json_stringify_working` writes a text within its buffer, and the parser reads that text
  -- as the string with its escapes, which it does not take out.
  pub parse-stringify :
      (str : List ℕ)
      → ((n : ℕ) → malloc n ≡ true)
      → realloc 256 ≡ true
      → length (escape str) + 2 < 256
      → (b : Buffer) × (ember_json_stringify_working realloc print_number (JsonValue.text str)
          ≡ filled b)
        × (ember_json_parse_working strtod malloc (JsonValue.text b.text)
            ≡ some (JsonValue.text (escape str)))
  unfolding ember_json_parse_working parse_json_value parse_value parse_string skip_whitespace
  parse-stringify str granted made short =
      let fits : ltb (length (escape str) + 2) 256 ≡ true = ground arith in
      (
        record { text = quoted str; capacity = 256 },
        stringify-text realloc print_number str made ∙ rw fits refl,
        rw
            (
              granted (length (quoted str) + 1),
              scan_string-escape str [],
              parse_string,
              granted (length (escape str) + 1),
            )
            refl,
      )
