-- ===== src/HashMap.antt =====
-- src/runtime/value/value.c: `ember_hash_map`, an open-addressing table with linear probing.
-- A table is its `entries` array, as a list, with the two counters of the struct. An entry pointer is
-- an index into the array, and NULL is `none`. `malloc` is a parameter: the answer to a request for a
-- number of bytes. `int` fields stay below INT_MAX by the guards, and are read as numbers.
pub mod Keys
pub mod Probe
pub mod Placed
pub mod Insert
pub mod Rehash
pub mod Grow
pub mod Remove
use ember_core.Common.{
  ℕ, zero, suc, ◌+◌, ◌-◌, ◌*◌, ◌/◌, ◌%◌, ◌^◌, Bool, true, false, not, ◌&&◌, ◌||◌, Option, none,
  some, List, [], ◌∷◌, ltb, leb, if◌then◌else◌, get_or, set, replicate, map,
}
use Keys.{Key}

pub record Entry {ℓ} (V : Type ℓ) : Type ℓ where
  pub key : V
  pub value : V
  pub is_occupied : Bool

pub record HashMap {ℓ} (V : Type ℓ) : Type ℓ where
  pub entries : List (Entry V)
  pub length : ℕ
  pub capacity : ℕ

abbrev pub int_max : ℕ
int_max = 2 ^ 31 - 1

abbrev pub size_max : ℕ
size_max = 2 ^ 64 - 1

-- sizeof(ember_hash_map); also of ember_set and ember_map
abbrev pub object_size : ℕ
object_size = 32

-- sizeof(ember_hash_entry): two values of 24 bytes, an int, and padding
abbrev pub entry_size : ℕ
entry_size = 56

-- the three guards of the resize; when one fails the table is left as it was
unfoldable pub can_grow : (ℕ → Bool) → ℕ → Bool
can_grow malloc capacity =
    not (leb (int_max / 2) capacity)
    && not (ltb (size_max / entry_size) (capacity * 2))
    && malloc (entry_size * (capacity * 2))

module _ {ℓ} {V : Type ℓ} ⦃key : Key V⦄ where
  abbrev pub vacant : Entry V
  vacant = record { key = key.nil; value = key.nil; is_occupied = false }

  abbrev pub entry_at : List (Entry V) → ℕ → Entry V
  entry_at es i = get_or es i vacant

  -- the test in the loop of `find_entry`
  abbrev pub stops : Entry V → V → Bool
  stops e k = not e.is_occupied || key.equal e.key k

  -- the loop of `find_entry`, by the rounds left
  unfoldable pub find_from : List (Entry V) → ℕ → V → ℕ → ℕ → Option ℕ
  find_from es capacity k zero index = none
  find_from es capacity k (suc n) index =
      if stops (entry_at es index) k
      then some index
      else find_from es capacity k n ((index + 1) % capacity)

  unfoldable pub find_entry : List (Entry V) → ℕ → V → Option ℕ
  find_entry es capacity k = find_from es capacity k capacity (key.hash k % capacity)

  -- `entry && entry->is_occupied`
  unfoldable pub occupied_at : List (Entry V) → Option ℕ → Bool
  occupied_at es none = false
  occupied_at es (some i) = (entry_at es i).is_occupied

  abbrev pub value_at : List (Entry V) → Option ℕ → V
  value_at es none = key.nil
  value_at es (some i) = (entry_at es i).value

  unfoldable pub hash_map_has_key : HashMap V → V → Bool
  hash_map_has_key m k = occupied_at m.entries (find_entry m.entries m.capacity k)

  unfoldable pub hash_map_get : HashMap V → V → V
  hash_map_get m k =
      let entry = find_entry m.entries m.capacity k in
      if occupied_at m.entries entry then value_at m.entries entry else key.nil

  -- all entries unoccupied, as `allocate_hash_map` and the resize leave them
  unfoldable pub fresh : ℕ → HashMap V
  fresh capacity = record { entries = replicate capacity vacant; length = 0; capacity = capacity }

  -- the end of `hash_map_set`: write at the entry found
  unfoldable pub write : HashMap V → V → V → Option ℕ → HashMap V
  write m k v none = m
  write m k v (some i) = record m {
    entries = set m.entries i (record { key = k; value = v; is_occupied = true });
    length = if (entry_at m.entries i).is_occupied then m.length else m.length + 1;
  }

  unfoldable pub put : HashMap V → V → V → HashMap V
  put m k v = write m k v (find_entry m.entries m.capacity k)

  -- length + 1 > capacity * 0.75, which is exact in doubles
  abbrev pub overloaded : HashMap V → Bool
  overloaded m = ltb (3 * m.capacity) (4 * (m.length + 1))

  -- the loop that sets the occupied old entries in the new array, by a given `hash_map_set`
  unfoldable pub rehash : (HashMap V → V → V → HashMap V) → List (Entry V) → HashMap V → HashMap V
  rehash insert [] m = m
  rehash insert (e ∷ es) m = rehash insert es (if e.is_occupied then insert m e.key e.value else m)

  module _ (malloc : ℕ → Bool) where
    -- `hash_map_set` calls itself while it rehashes; the number bounds the depth of those calls
    unfoldable pub set_within : ℕ → HashMap V → V → V → HashMap V
    set_within zero m k v = m
    set_within (suc depth) m k v = elim (overloaded m) [
      | false ↦ put m k v
      | true ↦ elim (can_grow malloc m.capacity) [
        | false ↦ m
        | true ↦ put (rehash (set_within depth) m.entries (fresh (m.capacity * 2))) k v
      ]
    ]

    unfoldable pub hash_map_set : HashMap V → V → V → HashMap V
    hash_map_set = set_within 2

    -- `allocate_hash_map`; a capacity that is not positive becomes 8
    unfoldable pub allocate_hash_map : ℕ → Option (HashMap V)
    allocate_hash_map requested =
        let capacity = if ltb 0 requested then requested else 8 in
        if not (malloc object_size) || ltb (size_max / entry_size) capacity
        then none
        else if malloc (entry_size * capacity)
        then some (fresh capacity)
        else none

  -- the removal that `set_delete` and `map_delete` share: clear the entry found, and count it out
  unfoldable pub vacate : HashMap V → Option ℕ → HashMap V
  vacate m none = m
  vacate m (some i) =
      if (entry_at m.entries i).is_occupied
      then record m { entries = set m.entries i vacant; length = m.length - 1 }
      else m

  -- `set_clear` and `map_clear`: every entry is cleared
  unfoldable pub clear_entries : HashMap V → HashMap V
  clear_entries m = record m { entries = map (λ e. vacant) m.entries; length = 0 }
