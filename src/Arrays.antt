-- ===== src/Arrays.antt =====
-- src/runtime/value/value.c: `ember_array`, a growing array. `elements` are the values up to the
-- length, which is the length of the list; `malloc` and `realloc` are the answers to a request for a
-- number of bytes.
pub mod Growth
use ember_core.Common.{
  ℕ, ◌+◌, ◌*◌, ◌/◌, Bool, true, false, not, ◌&&◌, ◌||◌, Option, none, some, List, [], ◌∷◌, ◌++◌,
  ltb, leb, length, if◌then◌else◌,
}
use ember_core.HashMap.{int_max, size_max}

pub record EmberArray {ℓ} (V : Type ℓ) : Type ℓ where
  pub elements : List V
  pub capacity : ℕ

-- sizeof(ember_value)
abbrev pub value_size : ℕ
value_size = 24

-- sizeof(ember_array)
abbrev pub array_size : ℕ
array_size = 32

-- the capacity asked for when the array is full
abbrev pub next_capacity : ℕ → ℕ
next_capacity capacity = if ltb capacity 8 then 8 else capacity * 2

module _ {ℓ} {V : Type ℓ} where
  -- `allocate_array` of a capacity that is not negative; of a negative one it is NULL
  unfoldable pub allocate_array : (ℕ → Bool) → ℕ → Option (EmberArray V)
  allocate_array malloc capacity =
      if not (malloc array_size)
      then none
      else if ltb 0 capacity && not (malloc (value_size * capacity))
      then none
      else some (record { elements = []; capacity = capacity })

  -- the two guards of the growth
  unfoldable pub array_grows : (ℕ → Bool) → EmberArray V → Bool
  array_grows realloc a =
      not (leb (int_max / 2) a.capacity) && realloc (value_size * next_capacity a.capacity)

  unfoldable pub array_push : (ℕ → Bool) → EmberArray V → V → EmberArray V
  unfolding array_grows
  array_push realloc a v =
      if leb a.capacity (length a.elements)
      then (if array_grows realloc a
          then record { elements = a.elements ++ (v ∷ []); capacity = next_capacity a.capacity }
          else a)
      else record a { elements = a.elements ++ (v ∷ []) }
