-- ===== src/Strings.antt =====
-- src/runtime/string_stdlib.c: the functions on strings. An argument is what its tag says; a string that
-- `ember_get_string_value` does not yield is `none`, a number stands as the `int` that it is cast to, and an
-- array as its strings, with `none` for an element that is not one. `strtok` is that of the C library.
pub mod Pieces
pub mod Affixes
use ember_core.Common.{
  ℕ, zero, suc, ◌+◌, ◌-◌, ◌*◌, Bool, true, false, not, ◌&&◌, ◌||◌, Option, none, some, List, [],
  ◌∷◌, ◌++◌, ltb, leb, length, take, contains, same_text, after_prefix, is_some, if◌then◌else◌,
}
use ember_core.HashMap.{int_max}

pub data ℤ : Type 0 where
  pos negsuc : ℕ → ℤ

pub data Argument : Type 0 where
  a_string : Option (List ℕ) → Argument
  a_number : ℤ → Argument
  an_array : List (Option (List ℕ)) → Argument
  a_hash_map : ℕ → Argument
  another : Argument

-- what a call returns, or an overflow or a null pointer that C leaves undefined
pub data Answer : Type 0 where
  nil undefined : Answer
  text : List ℕ → Answer
  count : ℕ → Answer
  truth : Bool → Answer
  texts : List (List ℕ) → Answer

abbrev pub drop : ℕ → List ℕ → List ℕ
drop zero cs = cs
drop (suc n) [] = []
drop (suc n) (c ∷ cs) = drop n cs

abbrev pub ember_native_len : List Argument → Answer
ember_native_len (a_string none ∷ []) = count 0
ember_native_len (a_string (some s) ∷ []) = count (length s)
ember_native_len (an_array xs ∷ []) = count (length xs)
ember_native_len (a_hash_map n ∷ []) = count n
ember_native_len _ = nil

-- a length above zero, from a start inside the string
abbrev pub substring : (ℕ → Bool) → List ℕ → ℕ → ℕ → Answer
substring malloc s start n =
    let len = if ltb (length s) (start + n) then length s - start else n in
    if ltb int_max (start + n)
    then undefined
    else if malloc (len + 1)
    then text (take len (drop start s))
    else nil

-- with a length given
abbrev pub substr_with : (ℕ → Bool) → List ℕ → ℤ → ℤ → Answer
substr_with malloc s (pos start) (pos (suc n)) =
    if leb (length s) start then text [] else substring malloc s start (suc n)
substr_with malloc s _ _ = text []

-- with the length `len - start`
abbrev pub substr_rest : (ℕ → Bool) → List ℕ → ℤ → Answer
substr_rest malloc s (negsuc n) = if ltb int_max (length s + suc n) then undefined else text []
substr_rest malloc s (pos start) =
    if leb (length s) start then text [] else substring malloc s start (length s - start)

abbrev pub ember_native_substr : (ℕ → Bool) → List Argument → Answer
ember_native_substr malloc (a_string (some s) ∷ a_number start ∷ []) = substr_rest malloc s start
ember_native_substr malloc (a_string (some s) ∷ a_number start ∷ a_number n ∷ []) =
    substr_with malloc s start n
ember_native_substr malloc (a_string (some s) ∷ a_number start ∷ x ∷ []) =
    substr_rest malloc s start
ember_native_substr malloc _ = nil

-- the delimiters before a token
abbrev pub skip : List ℕ → List ℕ → List ℕ
skip d [] = []
skip d (c ∷ cs) = if contains c d then skip d cs else c ∷ cs

-- a token, and what follows the delimiter after it
abbrev pub until : List ℕ → List ℕ → List ℕ × List ℕ
until d [] = ([], [])
until d (c ∷ cs) = if contains c d then ([], cs) else (c ∷ (until d cs).0, (until d cs).1)

abbrev pub token_of : List ℕ → List ℕ → Option (List ℕ × List ℕ)
token_of d [] = none
token_of d (c ∷ cs) = some (until d (c ∷ cs))

abbrev pub strtok : List ℕ → List ℕ → Option (List ℕ × List ℕ)
strtok d cs = token_of d (skip d cs)

-- the loop of `ember_native_split`, by the room left in the array
unfoldable pub split_within : ℕ → List ℕ → Option (List ℕ × List ℕ) → List (List ℕ)
split_within zero d next = []
split_within (suc room) d none = []
split_within (suc room) d (some (token, rest)) = token ∷ split_within room d (strtok d rest)

-- the capacity that the array is made with
abbrev pub split_capacity : ℕ
split_capacity = 8

abbrev pub ember_native_split : (ℕ → Bool) → Bool → List Argument → Answer
ember_native_split malloc allocated (a_string (some s) ∷ a_string (some d) ∷ []) =
    if not allocated
    then undefined
    else if malloc (length s + 1)
    then texts (split_within split_capacity d (strtok d s))
    else nil
ember_native_split malloc allocated _ = nil

abbrev pub is_last : List (Option (List ℕ)) → Bool
is_last [] = true
is_last (x ∷ xs) = false

-- the first loop of `ember_native_join`
abbrev pub total_len : List ℕ → List (Option (List ℕ)) → ℕ
total_len d [] = 0
total_len d (none ∷ xs) = total_len d xs
total_len d (some s ∷ xs) = length s + (if is_last xs then 0 else length d) + total_len d xs

-- the second loop
abbrev pub joined_text : List ℕ → List (Option (List ℕ)) → List ℕ
joined_text d [] = []
joined_text d (none ∷ xs) = joined_text d xs
joined_text d (some s ∷ xs) = s ++ ((if is_last xs then [] else d) ++ joined_text d xs)

abbrev pub join_limit : ℕ
join_limit = 1048576

abbrev pub join_all : (ℕ → Bool) → List ℕ → List (Option (List ℕ)) → Answer
join_all malloc d [] = text []
join_all malloc d xs =
    if ltb join_limit (total_len d xs)
    then nil
    else if malloc (total_len d xs + 1)
    then text (joined_text d xs)
    else nil

abbrev pub ember_native_join : (ℕ → Bool) → List Argument → Answer
ember_native_join malloc (an_array xs ∷ a_string (some d) ∷ []) = join_all malloc d xs
ember_native_join malloc _ = nil

abbrev pub ember_native_starts_with : List Argument → Answer
ember_native_starts_with (a_string (some s) ∷ a_string (some prefix) ∷ []) =
    if ltb (length s) (length prefix)
    then truth false
    else truth (same_text (take (length prefix) s) prefix)
ember_native_starts_with _ = truth false

abbrev pub ember_native_ends_with : List Argument → Answer
ember_native_ends_with (a_string (some s) ∷ a_string (some suffix) ∷ []) =
    if ltb (length s) (length suffix)
    then truth false
    else truth (same_text (drop (length s - length suffix) s) suffix)
ember_native_ends_with _ = truth false
