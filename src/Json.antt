-- ===== src/Json.antt =====
-- The JSON functions of src/runtime/json_simple.c on texts. The buffer of a result is the text written,
-- with the capacity it was allocated with; `malloc` and `realloc` are parameters, the answers to a request
-- for a number of bytes. A `size_t` is a number below 2^64, and what does not fit wraps around.
pub mod Read
pub mod Written
use ember_core.Common.{
  ℕ, zero, suc, ◌+◌, ◌-◌, ◌*◌, ◌%◌, ◌^◌, Bool, true, false, not, ◌&&◌, ◌||◌, Option, none, some,
  List, [], ◌∷◌, ◌++◌, ltb, leb, ◌==◌, length, if◌then◌else◌,
}

abbrev pub quote : ℕ
quote = 34

abbrev pub backslash : ℕ
backslash = 92

-- a buffer that grows: the text in it, and the bytes allocated
pub record Buffer : Type 0 where
  pub text : List ℕ
  pub capacity : ℕ

abbrev pub no_buffer : Buffer
no_buffer = record { text = []; capacity = 0 }

-- a buffer, a write outside of the memory allocated (also through NULL), or a loop without an end
pub data Output : Type 0 where
  filled : Buffer → Output
  overrun : Output
  endless : Output

-- a `size_t`
abbrev pub word : ℕ → ℕ
word n = n % 2 ^ 64

abbrev pub enlarged : ℕ → ℕ
enlarged capacity = if capacity == 0 then 256 else word (capacity * 2)

-- the characters of a string, with a backslash before each quote and backslash
unfoldable pub escape : List ℕ → List ℕ
escape [] = []
escape (c ∷ cs) =
    let rest = escape cs in if c == quote || c == backslash then backslash ∷ c ∷ rest else c ∷ rest

-- The text is written without a look at the capacity, so it may not fit.
unfoldable pub append_escaped_string : (ℕ → Bool) → Buffer → List ℕ → Output
unfolding escape
append_escaped_string realloc b str =
    let needed = word (length str + 2) in
    let grows = leb b.capacity (word (length b.text + needed)) in
    let capacity = if grows then enlarged b.capacity else b.capacity in
    let text = b.text ++ (quote ∷ escape str ++ (quote ∷ [])) in
    if grows && not (realloc capacity)
    then overrun
    else if leb (length text) capacity
    then filled (record { text = text; capacity = capacity })
    else overrun

-- The loop that doubles the capacity, on fuel. A capacity that has wrapped around to 0 stays there.
unfoldable pub grown : ℕ → ℕ → ℕ → Option ℕ
grown zero least capacity = none
grown (suc fuel) least capacity =
    let more = grown fuel least (word (capacity * 2)) in
    if leb capacity least then more else some capacity

-- `strcpy` to the end of the text, with its NUL
abbrev pub put_text : List ℕ → ℕ → Output
put_text text capacity =
    if ltb (length text) capacity
    then filled (record { text = text; capacity = capacity })
    else overrun

-- with the capacity that the loop ends at
abbrev pub reallocated : (ℕ → Bool) → List ℕ → Option ℕ → Output
reallocated realloc text none = endless
reallocated realloc text (some capacity) =
    if realloc capacity then put_text text capacity else overrun

-- with `*size + len`
unfoldable pub appended : (ℕ → Bool) → List ℕ → ℕ → ℕ → Output
appended realloc text capacity least =
    if leb capacity least
    then reallocated realloc text (grown (suc least) least (enlarged capacity))
    else put_text text capacity

unfoldable pub append_string : (ℕ → Bool) → Buffer → List ℕ → Output
unfolding appended
append_string realloc b str =
    appended realloc (b.text ++ str) b.capacity (word (length b.text + length str))

-- the state of `ember_json_validate_working`: the counts are sums of steps up and down
pub record Counts : Type 0 where
  pub opened_braces : ℕ
  pub closed_braces : ℕ
  pub opened_brackets : ℕ
  pub closed_brackets : ℕ
  pub in_string : Bool

abbrev pub outside_string : ℕ → Counts → Counts
outside_string c k =
    if c == 123
    then record k { opened_braces = suc k.opened_braces }
    else if c == 125
    then record k { closed_braces = suc k.closed_braces }
    else if c == 91
    then record k { opened_brackets = suc k.opened_brackets }
    else if c == 93
    then record k { closed_brackets = suc k.closed_brackets }
    else if c == quote
    then record k { in_string = true }
    else k

-- One character, with the one before it. A string starts after its quote, so a quote inside one is
-- never the first character of the text.
abbrev pub step : ℕ → ℕ → Counts → Counts
step before c k =
    if k.in_string
    then (if c == quote && not (before == backslash) then record k { in_string = false } else k)
    else outside_string c k

unfoldable pub count_all : ℕ → List ℕ → Counts → Counts
count_all before [] k = k
count_all before (c ∷ cs) k = count_all c cs (step before c k)

abbrev pub no_counts : Counts
no_counts = record {
  opened_braces = 0;
  closed_braces = 0;
  opened_brackets = 0;
  closed_brackets = 0;
  in_string = false;
}

-- on a string argument
unfoldable pub ember_json_validate_working : List ℕ → Bool
unfolding count_all
ember_json_validate_working json =
    let k = count_all 0 json no_counts in
    k.opened_braces == k.closed_braces && k.opened_brackets == k.closed_brackets && not k.in_string
