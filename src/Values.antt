-- ===== src/Values.antt =====
-- src/runtime/value/value.c: `hash_value` and `values_equal`, on values that point into a heap.
-- A value is its tag with the number that its union holds: an address, 0 for NULL. The heap gives what
-- stands at an address. Doubles are a parameter. The recursion of both functions follows arrays and
-- tables, which may be cyclic; it takes fuel, and out of fuel the hash is 0 and the test is false.
pub mod Keys
use Prim.Native.Nat.{bit_xor}
use ember_core.Common.{
  same_text, ℕ, zero, suc, ◌+◌, ◌*◌, ◌/◌, ◌%◌, ◌^◌, Bool, true, false, not, ◌&&◌, ◌||◌, Option,
  none, some, List, [], ◌∷◌, take, length, ◌==◌, if◌then◌else◌,
}
use ember_core.HashMap.Keys.{Key}
use ember_core.HashMap.{HashMap, Entry, hash_map_get, hash_map_has_key}

-- what the code asks of `double`: `==`, the bit pattern and the constant 0.0
pub record Double (D : Type 0) : Type 0 where
  pub equal : D → D → Bool
  pub bits : D → ℕ
  pub zero_value : D

-- the tags whose union holds a pointer
pub data Kind : Type 0 where
  string function native array hash_map exception class instance : Kind
  promise generator set_object map_object regex iterator : Kind

pub data Value (D : Type 0) : Type 0 where
  nil : Value D
  bool : ℕ → Value D
  number : D → Value D
  object : Kind → ℕ → Value D

pub record Regex : Type 0 where
  pub flags : ℕ
  pub pattern : Option (List ℕ)

-- what stands at an address, by the type that the tag casts it to; sets and maps are a table and a size
pub record Heap (D : Type 0) : Type 0 where
  pub chars : ℕ → List ℕ
  pub elements : ℕ → List (Value D)
  pub table : ℕ → HashMap (Value D)
  pub size : ℕ → ℕ
  pub regex_at : ℕ → Regex

-- the number of the tag in `ember_val_type`
tag : Kind → ℕ
tag string = 3
tag function = 4
tag native = 5
tag array = 6
tag hash_map = 7
tag exception = 8
tag class = 9
tag instance = 10
tag promise = 11
tag generator = 12
tag set_object = 13
tag map_object = 14
tag regex = 15
tag iterator = 16

pub same_kind : Kind → Kind → Bool
unfolding tag
same_kind a b = tag a == tag b

abbrev u32 : ℕ → ℕ
u32 n = n % 2 ^ 32

-- the FNV-1a step
fnv_step : ℕ → ℕ → ℕ
fnv_step hash x = u32 (bit_xor hash x * 16777619)

fnv : ℕ → List ℕ → ℕ
fnv hash [] = hash
fnv hash (x ∷ xs) = fnv (fnv_step hash x) xs

hash_string : List ℕ → ℕ
unfolding fnv fnv_step
hash_string chars =
    let h₀ = fnv 2166136261 chars in
    let h₁ = bit_xor h₀ (h₀ / 2 ^ 16) in let h₂ = u32 (h₁ * 0x85ebca6b) in bit_xor h₂ (h₂ / 2 ^ 13)

hash_bits : ℕ → ℕ
hash_bits bits =
    let h₀ = bit_xor bits (bits / 2 ^ 32) in
    let h₁ = (h₀ * 0x9e3779b97f4a7c15) % 2 ^ 64 in u32 (bit_xor h₁ (h₁ / 2 ^ 32))

hash_address : ℕ → ℕ
hash_address ptr = u32 (bit_xor ptr (ptr / 2 ^ 32))

-- `strcmp` of two patterns, where NULL is equal to NULL alone
pattern_equal : Option (List ℕ) → Option (List ℕ) → Bool
unfolding same_text
pattern_equal none none = true
pattern_equal (some p) (some q) = same_text p q
pattern_equal _ _ = false

module _ {D : Type 0} ⦃fp : Double D⦄ where
  hash_number : D → ℕ
  unfolding hash_bits
  hash_number d =
      if fp.equal d fp.zero_value
      then 0
      else if not (fp.equal d d)
      then 2147483647
      else hash_bits (fp.bits d)

  module _ (h : Heap D) where
    -- the loop over the elements of an array, by a given hash
    hash_elements : (Value D → ℕ) → ℕ → List (Value D) → ℕ
    hash_elements hash acc [] = acc
    hash_elements hash acc (v ∷ vs) = hash_elements hash (fnv_step acc (hash v)) vs

    -- an object that is not NULL
    hash_object : (Value D → ℕ) → Kind → ℕ → ℕ
    unfolding tag fnv_step hash_string hash_address hash_elements
    hash_object hash string ptr = hash_string (h.chars ptr)
    hash_object hash array ptr =
        let vs = h.elements ptr in
        bit_xor (hash_elements hash 2166136261 (take 8 vs)) (u32 (length vs))
    hash_object hash set_object ptr = bit_xor (hash_address ptr) (tag set_object)
    hash_object hash map_object ptr = bit_xor (hash_address ptr) (tag map_object)
    hash_object hash hash_map ptr = bit_xor (hash_address ptr) (tag hash_map)
    hash_object hash kind ptr = bit_xor (hash_address ptr) (tag kind * 2 ^ 24)

    hash_null : Kind → ℕ
    unfolding tag
    hash_null string = 0
    hash_null array = 0
    hash_null set_object = 0
    hash_null map_object = 0
    hash_null hash_map = 0
    hash_null kind = tag kind

    unfoldable pub hash_value : ℕ → Value D → ℕ
    unfolding hash_number hash_object hash_null
    hash_value zero v = 0
    hash_value (suc fuel) nil = 0
    hash_value (suc fuel) (bool b) = if not (b == 0) then 1 else 0
    hash_value (suc fuel) (number d) = hash_number d
    hash_value (suc fuel) (object kind ptr) =
        let at_object = hash_object (hash_value fuel) kind ptr in
        if ptr == 0 then hash_null kind else at_object

    -- all elements equal in turn, by a given test; the lengths are compared first
    all_equal : (Value D → Value D → Bool) → List (Value D) → List (Value D) → Bool
    all_equal eq (x ∷ xs) (y ∷ ys) = eq x y && all_equal eq xs ys
    all_equal eq _ _ = true

    -- the values of `ember_value` as keys, by given functions
    abbrev pub key_by : (Value D → ℕ) → (Value D → Value D → Bool) → Key (Value D)
    key_by hash eq = record { hash = hash; equal = eq; nil = nil }

    -- the loop over the entries of a table: each pair of the first is in the second
    pairs_in : Key (Value D) → List (Entry (Value D)) → HashMap (Value D) → Bool
    pairs_in key [] b = true
    pairs_in key (e ∷ es) b =
        (not e.is_occupied || key.equal e.value (hash_map_get ⦃key = key⦄ b e.key))
        && pairs_in key es b

    -- the same loop for a set
    keys_in : Key (Value D) → List (Entry (Value D)) → HashMap (Value D) → Bool
    keys_in key [] b = true
    keys_in key (e ∷ es) b =
        (not e.is_occupied || hash_map_has_key ⦃key = key⦄ b e.key) && keys_in key es b

    -- two objects of one kind, neither of them NULL
    equal_objects : Key (Value D) → Kind → ℕ → ℕ → Bool
    unfolding same_text pattern_equal all_equal pairs_in keys_in
    equal_objects key string a b = a == b || same_text (h.chars a) (h.chars b)
    equal_objects key array a b =
        length (h.elements a) == length (h.elements b)
        && all_equal key.equal (h.elements a) (h.elements b)
    equal_objects key hash_map a b =
        (h.table a).length == (h.table b).length && pairs_in key (h.table a).entries (h.table b)
    equal_objects key set_object a b =
        h.size a == h.size b && keys_in key (h.table a).entries (h.table b)
    equal_objects key map_object a b =
        h.size a == h.size b && pairs_in key (h.table a).entries (h.table b)
    equal_objects key regex a b =
        (h.regex_at a).flags == (h.regex_at b).flags
        && pattern_equal (h.regex_at a).pattern (h.regex_at b).pattern
    equal_objects key _ a b = a == b

    -- `case EMBER_VAL_FUNCTION` and `EMBER_VAL_NATIVE` are missing: the default answers 0
    has_case : Kind → Bool
    has_case function = false
    has_case native = false
    has_case _ = true

    unfoldable pub values_equal : ℕ → Value D → Value D → Bool
    unfolding same_kind equal_objects has_case
    values_equal zero a b = false
    values_equal (suc fuel) nil nil = true
    values_equal (suc fuel) (bool a) (bool b) = a == b
    values_equal (suc fuel) (number a) (number b) = fp.equal a b
    values_equal (suc fuel) (object k a) (object k' b) =
        let key = key_by (hash_value fuel) (values_equal fuel) in
        let contents = equal_objects key k a b in
        if not (same_kind k k') || not (has_case k)
        then false
        else if a == 0 || b == 0
        then a == b
        else contents
    values_equal (suc fuel) _ _ = false

    -- the table's keys, with `fuel` levels of nested arrays and tables
    abbrev pub value_key : ℕ → Key (Value D)
    value_key fuel = key_by (hash_value fuel) (values_equal fuel)
