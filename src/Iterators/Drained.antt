-- ===== src/Iterators/Drained.antt =====
-- The values that an iterator yields until it is done.
use ember_core.Common.{
  ℕ, zero, suc, ◌+◌, ◌-◌, ◌<◌, ◌≡◌, refl, ap, ◌∙◌, inl, inr, ◌⊎◌, true, false, Option, none, some,
  List, [], ◌∷◌, ltb, length, length-map, map, get_or, if◌then◌else◌, arith, Bool-cases,
}
use ember_core.HashMap.Keys.{Key}
use ember_core.HashMap.{Entry, HashMap, entry_at}
use ember_core.Arrays.{EmberArray}
use ember_core.Iterators.{
  Iterator, IteratorResult, IteratorType, Item, element, pair, Collection, indexed, as_array,
  set_table, map_table, key_item, value_item, pair_item, seek, next_entry, next_element,
  iterator_next, new_iterator, ember_make_iterator,
}

module _ {ℓ} {V : Type ℓ} where
  abbrev pub add : Item V → Option (List (Item V)) → Option (List (Item V))
  add x none = none
  add x (some xs) = some (x ∷ xs)

  -- the calls of `iterator_next` until it is done, on fuel
  abbrev pub drain :
      (Iterator → IteratorResult V × Iterator) → ℕ → Iterator → Option (List (Item V))
  drain next zero it = none
  drain next (suc n) it =
      let (r, it') = next it in if r.done then some [] else add r.value (drain next n it')

  -- the same from a new iterator
  abbrev pub drained :
      (Iterator → IteratorResult V × Iterator) → ℕ → Option Iterator → Option (List (Item V))
  drained next n none = none
  drained next n (some it) = drain next n it

  -- the occupied entries of a table, in order
  abbrev pub occupied : List (Entry V) → List (Entry V)
  occupied [] = []
  occupied (e ∷ es) = if e.is_occupied then e ∷ occupied es else occupied es

  abbrev pub entries_of : Option (HashMap V) → List (Entry V)
  entries_of none = []
  entries_of (some m) = occupied m.entries

  abbrev pub elements_of : Option (EmberArray V) → List V
  elements_of none = []
  elements_of (some a) = a.elements

  -- what an iterator of a type has to yield: nothing where the collection is of another kind
  abbrev pub items : IteratorType → Collection V → List (Item V)
  items IteratorType.iterator_array c = map element (elements_of (as_array c))
  items IteratorType.iterator_set c = map (λ e. element e.key) (entries_of (set_table c))
  items IteratorType.iterator_map_keys c = map (λ e. element e.key) (entries_of (map_table c))
  items IteratorType.iterator_map_values c = map (λ e. element e.value) (entries_of (map_table c))
  items IteratorType.iterator_map_entries c =
      map (λ e. pair e.key e.value) (entries_of (map_table c))

  -- the array of entries has the capacity as its length
  abbrev pub IsWhole : Option (HashMap V) → Type 0
  IsWhole none = zero ≡ zero
  IsWhole (some m) = length m.entries ≡ m.capacity

module _ {ℓ} {V : Type ℓ} ⦃key : Key V⦄ where
  -- the occupied entries among so many from an index
  abbrev pub occupied_from : List (Entry V) → ℕ → ℕ → List (Entry V)
  occupied_from es zero i = []
  occupied_from es (suc n) i =
      if (entry_at es i).is_occupied
      then entry_at es i ∷ occupied_from es n (i + 1)
      else occupied_from es n (i + 1)

  seek-cases :
      (es : List (Entry V)) (n i : ℕ)
      → ((seek es n i ≡ i + n) × (occupied_from es n i ≡ []))
        ⊎ ((j m : ℕ) × (seek es n i ≡ j)
            × (j + suc m ≡ i + n)
            × (occupied_from es n i ≡ entry_at es j ∷ occupied_from es m (j + 1)))
  seek-cases es zero i = inl (omega arith, refl)
  seek-cases es (suc n) i = elim (Bool-cases (entry_at es i).is_occupied) [
    | inl full ↦ inr (i, n, rw full refl, refl, rw full refl)
    | inr free ↦ elim (seek-cases es n (i + 1)) [
      | inl (e, nil) ↦ inl (rw free (e ∙ omega arith), rw free nil)
      | inr (j, m, e, sum, split) ↦ inr (j, m, rw free e, omega (arith, sum), rw free split)
    ]
  ]

  entry_at-suc :
      (e : Entry V) (es : List (Entry V)) (i : ℕ) → entry_at (e ∷ es) (i + 1) ≡ entry_at es i
  entry_at-suc e es i = let e1 : i + 1 ≡ suc i = omega arith in ap (entry_at (e ∷ es)) e1

  occupied_from-suc :
      (e : Entry V) (es : List (Entry V)) (n i : ℕ)
      → occupied_from (e ∷ es) n (i + 1) ≡ occupied_from es n i
  occupied_from-suc e es zero i = refl
  occupied_from-suc e es (suc n) i = rw (entry_at-suc e es i, occupied_from-suc e es n (i + 1)) refl

  pub occupied_from_lem : (es : List (Entry V)) → occupied_from es (length es) 0 ≡ occupied es
  occupied_from_lem [] = refl
  occupied_from_lem (e ∷ es) = rw (occupied_from-suc e es (length es) 0, occupied_from_lem es) refl

  module _ (item : Entry V → Option (Item V)) (shown : Entry V → Item V)
      (granted : (e : Entry V) → item e ≡ some (shown e)) (m : HashMap V) (it : Iterator)
      (next : Iterator → IteratorResult V × Iterator)
      (agrees : (i : ℕ) → next (indexed it i) ≡ next_entry item (some m) (indexed it i)) where
    drain_from :
        (k n i : ℕ)
        → i + n ≡ m.capacity
        → length (occupied_from m.entries n i) < k
        → drain next k (indexed it i) ≡ some (map shown (occupied_from m.entries n i))
    drain_from zero n i sum few = absurd (omega arith)
    drain_from (suc k) n i sum few =
        let left : m.capacity - i ≡ n = omega (arith, sum) in
        elim (seek-cases m.entries n i) [
          | inl (e, nil) ↦
              let past : ltb (i + n) m.capacity ≡ false = ground (arith, sum) in
              rw (agrees i, left, e, past, nil) refl
          | inr (j, l, e, at_j, split) ↦
              let more : ltb j m.capacity ≡ true = ground (arith, sum, at_j) in
              let rest =
                drain_from k l (j + 1) (omega (arith, sum, at_j))
                  (omega (arith, few, ap length split)) in
              rw (agrees i, left, e, more, granted (entry_at m.entries j), rest, split) refl
        ]

  drain_table :
      (item : Entry V → Option (Item V)) (shown : Entry V → Item V)
      (granted : (e : Entry V) → item e ≡ some (shown e)) (table : Option (HashMap V))
      (it : Iterator) (next : Iterator → IteratorResult V × Iterator)
      (agrees : (i : ℕ) → next (indexed it i) ≡ next_entry item table (indexed it i))
      → IsWhole table
      → (k : ℕ) → length (map shown (entries_of table)) < k
      → drain next k (indexed it 0) ≡ some (map shown (entries_of table))
  drain_table item shown granted none it next agrees whole zero few = absurd (omega arith)
  drain_table item shown granted none it next agrees whole (suc k) few = rw (agrees 0) refl
  drain_table item shown granted (some m) it next agrees whole k few =
      let all = occupied_from_lem m.entries in
      let short : length (occupied_from m.entries (length m.entries) 0) < k =
        rw all (omega (arith, few, length-map shown (occupied m.entries))) in
      drain_from item shown granted m it next agrees k (length m.entries) 0 (omega (arith, whole))
        short
      ∙ ap (λ es. some (map shown es)) all

  -- so many elements from an index
  abbrev pub elements_from : List V → ℕ → ℕ → List V
  elements_from xs zero i = []
  elements_from xs (suc n) i = get_or xs i key.nil ∷ elements_from xs n (i + 1)

  elements_from-suc :
      (x : V) (xs : List V) (n i : ℕ) → elements_from (x ∷ xs) n (i + 1) ≡ elements_from xs n i
  elements_from-suc x xs zero i = refl
  elements_from-suc x xs (suc n) i =
      let e1 : i + 1 ≡ suc i = omega arith in
      let head : get_or (x ∷ xs) (i + 1) key.nil ≡ get_or xs i key.nil =
        ap (λ j. get_or (x ∷ xs) j key.nil) e1 in
      rw (head, elements_from-suc x xs n (i + 1)) refl

  elements_from_lem : (xs : List V) → elements_from xs (length xs) 0 ≡ xs
  elements_from_lem [] = refl
  elements_from_lem (x ∷ xs) = rw (elements_from-suc x xs (length xs) 0, elements_from_lem xs) refl

  drain_elements :
      (a : EmberArray V) (it : Iterator) (next : Iterator → IteratorResult V × Iterator)
      (agrees : (i : ℕ) → next (indexed it i) ≡ next_element (some a) (indexed it i)) (k n i : ℕ)
      → i + n ≡ length a.elements
      → n < k
      → drain next k (indexed it i) ≡ some (map element (elements_from a.elements n i))
  drain_elements a it next agrees zero n i sum few = absurd (omega arith)
  drain_elements a it next agrees (suc k) zero i sum few =
      let past : ltb i (length a.elements) ≡ false = ground (arith, sum) in rw (agrees i, past) refl
  drain_elements a it next agrees (suc k) (suc n) i sum few =
      let more : ltb i (length a.elements) ≡ true = ground (arith, sum) in
      let rest =
        drain_elements a it next agrees k n (i + 1) (omega (arith, sum)) (omega (arith, few)) in
      rw (agrees i, more, rest) refl

  drain_array :
      (array : Option (EmberArray V)) (it : Iterator)
      (next : Iterator → IteratorResult V × Iterator)
      (agrees : (i : ℕ) → next (indexed it i) ≡ next_element array (indexed it i)) (k : ℕ)
      → length (map element (elements_of array)) < k
      → drain next k (indexed it 0) ≡ some (map element (elements_of array))
  drain_array none it next agrees zero few = absurd (omega arith)
  drain_array none it next agrees (suc k) few = rw (agrees 0) refl
  drain_array (some a) it next agrees k few =
      drain_elements a it next agrees k (length a.elements) 0 (omega arith)
        (omega (arith, few, length-map {B = Item V} element a.elements))
      ∙ ap (λ xs. some (map element xs)) (elements_from_lem a.elements)

  -- Where malloc never fails and the tables have as many entries as their capacity, the calls of
  -- `iterator_next` on a new iterator of any type over any collection come to an end after at most
  -- one call more than the values, and yield the values of the array, the keys of the occupied
  -- entries, their values or their pairs, in order; over a collection of another kind they yield
  -- nothing.
  pub drain-items :
      (t : IteratorType) (c : Collection V) (k : ℕ)
      → IsWhole (set_table c)
      → IsWhole (map_table c)
      → length (items t c) < k
      → drained (iterator_next true c) k (ember_make_iterator true c t) ≡ some (items t c)
  unfolding iterator_next
  drain-items IteratorType.iterator_array c k set_whole map_whole few =
      drain_array (as_array c) (new_iterator c IteratorType.iterator_array) (iterator_next true c)
        (λ i. refl) k few
  drain-items IteratorType.iterator_set c k set_whole map_whole few =
      drain_table key_item _ (λ e. refl) (set_table c) (new_iterator c IteratorType.iterator_set)
        (iterator_next true c) (λ i. refl) set_whole k few
  drain-items IteratorType.iterator_map_keys c k set_whole map_whole few =
      drain_table key_item _ (λ e. refl) (map_table c)
        (new_iterator c IteratorType.iterator_map_keys) (iterator_next true c) (λ i. refl) map_whole
        k few
  drain-items IteratorType.iterator_map_values c k set_whole map_whole few =
      drain_table value_item _ (λ e. refl) (map_table c)
        (new_iterator c IteratorType.iterator_map_values) (iterator_next true c) (λ i. refl)
        map_whole k few
  drain-items IteratorType.iterator_map_entries c k set_whole map_whole few =
      drain_table (pair_item true) _ (λ e. refl) (map_table c)
        (new_iterator c IteratorType.iterator_map_entries) (iterator_next true c) (λ i. refl)
        map_whole k few
