-- ===== src/Iterators.antt =====
-- src/runtime/value/value.c: the iterators over arrays, sets and maps, and the arrays made of the keys,
-- values and pairs of a table. An iterator points to its collection, so what the collection holds at the
-- time of a call is an argument of the call. `allocated` is the answer of `allocate_object`, `granted` that of
-- `malloc` to what one call of `iterator_next` asks for, `malloc` the answer to a request for a number of
-- bytes; null pointers are outside the model.
pub mod Drained
pub mod Peeked
pub mod Copied
use ember_core.Arrays.{EmberArray, array_size, value_size}
use ember_core.Common.{
  ℕ, zero, suc, ◌+◌, ◌-◌, ◌*◌, Bool, true, false, not, ◌&&◌, ◌||◌, Option, none, some, List, [],
  ◌∷◌, ltb, length, get_or, if◌then◌else◌,
}
use ember_core.HashMap.Keys.{Key}
use ember_core.HashMap.{Entry, HashMap, entry_at}
use ember_core.Maps.{EmberMap}
use ember_core.Sets.{EmberSet}

pub data IteratorType : Type 0 where
  iterator_array iterator_set iterator_map_keys iterator_map_values iterator_map_entries :
      IteratorType

-- the collection that an iterator points to, by its tag
pub data Collection {ℓ} (V : Type ℓ) : Type ℓ where
  an_array : EmberArray V → Collection V
  a_set : EmberSet V → Collection V
  a_map : EmberMap V → Collection V
  no_collection : Collection V

-- nil, a value of the collection, or a new array of a key and a value
pub data Item {ℓ} (V : Type ℓ) : Type ℓ where
  nothing : Item V
  element : V → Item V
  pair : V → V → Item V

pub record IteratorResult {ℓ} (V : Type ℓ) : Type ℓ where
  pub value : Item V
  pub done : Bool

pub record Iterator : Type 0 where
  pub type : IteratorType
  pub index : ℕ
  pub capacity : ℕ
  pub length : ℕ

abbrev pub indexed : Iterator → ℕ → Iterator
indexed it i = record it { index = i }

module _ {ℓ} {V : Type ℓ} where
  abbrev pub bounds : Collection V → ℕ × ℕ
  bounds (an_array a) = (a.capacity, length a.elements)
  bounds (a_set s) = (s.elements.capacity, s.size)
  bounds (a_map m) = (m.entries.capacity, m.size)
  bounds no_collection = (0, 0)

  abbrev pub new_iterator : Collection V → IteratorType → Iterator
  new_iterator c t = record { type = t; index = 0; capacity = (bounds c).0; length = (bounds c).1 }

  abbrev pub ember_make_iterator : Bool → Collection V → IteratorType → Option Iterator
  ember_make_iterator allocated c t = if allocated then some (new_iterator c t) else none

  abbrev pub array_iterator : Bool → EmberArray V → Option Iterator
  array_iterator allocated a =
      ember_make_iterator allocated (an_array a) IteratorType.iterator_array

  abbrev pub set_iterator : Bool → EmberSet V → Option Iterator
  set_iterator allocated s = ember_make_iterator allocated (a_set s) IteratorType.iterator_set

  abbrev pub map_keys_iterator : Bool → EmberMap V → Option Iterator
  map_keys_iterator allocated m =
      ember_make_iterator allocated (a_map m) IteratorType.iterator_map_keys

  abbrev pub map_values_iterator : Bool → EmberMap V → Option Iterator
  map_values_iterator allocated m =
      ember_make_iterator allocated (a_map m) IteratorType.iterator_map_values

  abbrev pub map_entries_iterator : Bool → EmberMap V → Option Iterator
  map_entries_iterator allocated m =
      ember_make_iterator allocated (a_map m) IteratorType.iterator_map_entries

  -- the tests of the tag, with the cast
  abbrev pub as_array : Collection V → Option (EmberArray V)
  as_array (an_array a) = some a
  as_array _ = none

  abbrev pub set_table : Collection V → Option (HashMap V)
  set_table (a_set s) = some s.elements
  set_table _ = none

  abbrev pub map_table : Collection V → Option (HashMap V)
  map_table (a_map m) = some m.entries
  map_table _ = none

  abbrev pub exhausted : IteratorResult V
  exhausted = record { value = nothing; done = true }

  abbrev pub yields : Item V → IteratorResult V
  yields x = record { value = x; done = false }

  abbrev pub key_item : Entry V → Option (Item V)
  key_item e = some (element e.key)

  abbrev pub value_item : Entry V → Option (Item V)
  value_item e = some (element e.value)

  -- the new array of a key and a value, where its two requests are granted
  abbrev pub pair_item : Bool → Entry V → Option (Item V)
  pair_item granted e = if granted then some (pair e.key e.value) else none

  -- the value found at an index, or none where its array was not granted
  abbrev pub yielded : Iterator → ℕ → Option (Item V) → IteratorResult V × Iterator
  yielded it i none = (exhausted, indexed it i)
  yielded it i (some x) = (yields x, indexed it (i + 1))

module _ {ℓ} {V : Type ℓ} ⦃key : Key V⦄ where
  abbrev pub next_element : Option (EmberArray V) → Iterator → IteratorResult V × Iterator
  next_element none it = (exhausted, it)
  next_element (some a) it =
      if ltb it.index (length a.elements)
      then (yields (element (get_or a.elements it.index key.nil)), indexed it (it.index + 1))
      else (exhausted, it)

  -- the first occupied entry from an index, by the entries left
  abbrev pub seek : List (Entry V) → ℕ → ℕ → ℕ
  seek es zero i = i
  seek es (suc n) i = if (entry_at es i).is_occupied then i else seek es n (i + 1)

  -- the loop over the table
  abbrev pub next_entry :
      (Entry V → Option (Item V)) → Option (HashMap V) → Iterator → IteratorResult V × Iterator
  next_entry item none it = (exhausted, it)
  next_entry item (some m) it =
      let i = seek m.entries (m.capacity - it.index) it.index in
      if ltb i m.capacity
      then yielded it i (item (entry_at m.entries i))
      else (exhausted, indexed it i)

  module _ (granted : Bool) (c : Collection V) where
    abbrev pub next_of : IteratorType → Iterator → IteratorResult V × Iterator
    next_of IteratorType.iterator_array it = next_element (as_array c) it
    next_of IteratorType.iterator_set it = next_entry key_item (set_table c) it
    next_of IteratorType.iterator_map_keys it = next_entry key_item (map_table c) it
    next_of IteratorType.iterator_map_values it = next_entry value_item (map_table c) it
    next_of IteratorType.iterator_map_entries it = next_entry (pair_item granted) (map_table c) it

    unfoldable pub iterator_next : Iterator → IteratorResult V × Iterator
    iterator_next it = next_of it.type it

    unfoldable pub iterator_done : Iterator → Bool × Iterator
    iterator_done it =
        let (result, moved) = iterator_next it in
        if result.done then (true, moved) else (false, indexed moved (moved.index - 1))

module _ {ℓ} {V : Type ℓ} where
  -- the loop that copies from the occupied entries
  abbrev pub copied : (Entry V → V) → List (Entry V) → List (Item V)
  copied part [] = []
  copied part (e ∷ es) = if e.is_occupied then element (part e) ∷ copied part es else copied part es

  -- the loop over the pairs: the answers are to the two requests for the entry at an index
  abbrev pub copied_pairs : (ℕ → Bool) → ℕ → List (Entry V) → List (Item V)
  copied_pairs granted i [] = []
  copied_pairs granted i (e ∷ es) =
      if e.is_occupied && granted i
      then pair e.key e.value ∷ copied_pairs granted (i + 1) es
      else copied_pairs granted (i + 1) es

  -- the new array, with the capacity asked for by the size
  abbrev pub new_array : (ℕ → Bool) → Bool → ℕ → List (Item V) → Option (EmberArray (Item V))
  new_array malloc allocated size items =
      let capacity = if ltb 0 size then size else 1 in
      if allocated && malloc (value_size * capacity)
      then some (record { elements = items; capacity = capacity })
      else none

  unfoldable pub map_keys : (ℕ → Bool) → Bool → EmberMap V → Option (EmberArray (Item V))
  map_keys malloc allocated m =
      new_array malloc allocated m.size (copied (λ e. e.key) m.entries.entries)

  unfoldable pub map_values : (ℕ → Bool) → Bool → EmberMap V → Option (EmberArray (Item V))
  map_values malloc allocated m =
      new_array malloc allocated m.size (copied (λ e. e.value) m.entries.entries)

  unfoldable pub map_entries :
      (ℕ → Bool) → Bool → (ℕ → Bool) → EmberMap V → Option (EmberArray (Item V))
  map_entries malloc allocated granted m =
      new_array malloc allocated m.size (copied_pairs granted 0 m.entries.entries)

  unfoldable pub set_to_array : (ℕ → Bool) → Bool → EmberSet V → Option (EmberArray (Item V))
  set_to_array malloc allocated s =
      new_array malloc allocated s.size (copied (λ e. e.key) s.elements.entries)
