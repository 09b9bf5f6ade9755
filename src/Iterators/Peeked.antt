-- ===== src/Iterators/Peeked.antt =====
-- `iterator_done`, which calls `iterator_next` and steps back.
use ember_core.Arrays.{EmberArray}
use ember_core.Common.{
  ℕ, zero, suc, ◌+◌, ◌-◌, ◌≤◌, ◌<◌, ◌≡◌, refl, sym, ap, ◌∙◌, inl, inr, ◌⊎◌, Bool, true, false,
  Option, none, some, List, ltb, length, if◌then◌else◌, arith, Bool-cases, Option-cases, get_or,
}
use ember_core.HashMap.Keys.{Key}
use ember_core.HashMap.{Entry, HashMap, entry_at}
use ember_core.Iterators.{
  Iterator, IteratorResult, IteratorType, Item, element, Collection, indexed, as_array, set_table,
  map_table, exhausted, yields, yielded, key_item, value_item, pair_item, seek, next_entry,
  next_element, next_of, iterator_next, iterator_done,
}

module _ {ℓ} {V : Type ℓ} where
  -- the step back of `iterator_done`
  abbrev pub peek : (Iterator → IteratorResult V × Iterator) → Iterator → Bool × Iterator
  peek next it =
      let (result, moved) = next it in
      if result.done then (true, moved) else (false, indexed moved (moved.index - 1))

  -- A peek says whether its call is done, and a later call is as without it.
  abbrev pub Peeks : (next later : Iterator → IteratorResult V × Iterator) → Iterator → Type ℓ
  Peeks next later it =
      (later (peek next it).1 ≡ later it)
      × ((peek next it).0 ≡ (next it).0.done)
      × ((peek next it).1.type ≡ it.type)

  Peeks-done :
      (next later : Iterator → IteratorResult V × Iterator) (it it' : Iterator)
      → it'.type ≡ it.type
      → next it ≡ (exhausted, it')
      → later it' ≡ later it
      → Peeks next later it
  Peeks-done next later it it' kept now again = rw now (again, refl, kept)

  Peeks-yields :
      (next later : Iterator → IteratorResult V × Iterator) (it : Iterator) (j : ℕ) (x : Item V)
      → next it ≡ (yields x, indexed it (j + 1))
      → later (indexed it j) ≡ later it
      → Peeks next later it
  Peeks-yields next later it j x now again =
      let back : j + 1 - 1 ≡ j = omega arith in
      rw now (ap (λ i. later (indexed it i)) back ∙ again, refl, refl)

module _ {ℓ} {V : Type ℓ} ⦃key : Key V⦄ where
  -- The search ends at an occupied entry, or all are searched; there it stays.
  seek-stays :
      (es : List (Entry V)) (n i : ℕ)
      → (seek es n i ≡ i + n)
        ⊎ ((seek es n i < i + n)
            × (i ≤ seek es n i)
            × ((entry_at es (seek es n i)).is_occupied ≡ true))
  seek-stays es zero i = inl (omega arith)
  seek-stays es (suc n) i = elim (Bool-cases (entry_at es i).is_occupied) [
    | inl full ↦ inr (rw full (omega arith), rw full (omega arith), rw (full, full) refl)
    | inr free ↦ elim (seek-stays es n (i + 1)) [
      | inl e ↦ inl (rw free (omega (arith, e)))
      | inr (lt, le, full) ↦
          inr (rw free (omega (arith, lt)), rw free (omega (arith, le)), rw free full)
    ]
  ]

  seek_at : (es : List (Entry V)) (n i : ℕ) → (entry_at es i).is_occupied ≡ true → seek es n i ≡ i
  seek_at es zero i full = refl
  seek_at es (suc n) i full = rw full refl

  module _ (item : Entry V → Option (Item V)) (m : HashMap V) (it : Iterator) (i j : ℕ)
      (found : seek m.entries (m.capacity - i) i ≡ j) where
    next_past :
        ltb j m.capacity ≡ false
        → next_entry item (some m) (indexed it i) ≡ (exhausted, indexed it j)
    next_past past = rw (found, past) refl

    next_at :
        ltb j m.capacity ≡ true
        → next_entry item (some m) (indexed it i)
          ≡ yielded (indexed it i) j (item (entry_at m.entries j))
    next_at more = rw (found, more) refl

  entry-Peeks :
      (now later : Entry V → Option (Item V)) (table : Option (HashMap V)) (it : Iterator)
      → Peeks (next_entry now table) (next_entry later table) it
  entry-Peeks now later none it = (refl, refl, refl)
  entry-Peeks now later (some m) it =
      let i = it.index in
      let j = seek m.entries (m.capacity - i) i in
      let next = next_entry now (some m) in
      let after = next_entry later (some m) in
      elim (seek-stays m.entries (m.capacity - i) i) [
        | inl e ↦
            let past : ltb j m.capacity ≡ false = ground (arith, e) in
            let none_left : m.capacity - j ≡ 0 = omega (arith, e) in
            let stays = ap (λ n. seek m.entries n j) none_left in
            Peeks-done next after it (indexed it j) refl (next_past now m it i j refl past)
              (next_past later m it j j stays past ∙ sym (next_past later m it i j refl past))
        | inr (lt, le, full) ↦
            let more : ltb j m.capacity ≡ true = ground (arith, lt, le) in
            let stays = seek_at m.entries (m.capacity - j) j full in
            let again =
              next_at later m it j j stays more ∙ sym (next_at later m it i j refl more) in
            elim (Option-cases (now (entry_at m.entries j))) [
              | inl failed ↦
                  Peeks-done next after it (indexed it j) refl
                    (next_at now m it i j refl more ∙ ap (yielded it j) failed) again
              | inr (x, e) ↦
                  Peeks-yields next after it j x
                    (next_at now m it i j refl more ∙ ap (yielded it j) e) again
            ]
      ]

  next_more :
      (a : EmberArray V) (it : Iterator)
      → ltb it.index (length a.elements) ≡ true
      → next_element (some a) it
        ≡ (yields (element (get_or a.elements it.index key.nil)), indexed it (it.index + 1))
  next_more a it more = rw more refl

  next_none :
      (a : EmberArray V) (it : Iterator)
      → ltb it.index (length a.elements) ≡ false
      → next_element (some a) it ≡ (exhausted, it)
  next_none a it past = rw past refl

  element-Peeks :
      (array : Option (EmberArray V)) (it : Iterator)
      → Peeks (next_element array) (next_element array) it
  element-Peeks none it = (refl, refl, refl)
  element-Peeks (some a) it =
      let next = next_element (some a) in
      elim (Bool-cases (ltb it.index (length a.elements))) [
        | inl more ↦
            Peeks-yields next next it it.index (element (get_or a.elements it.index key.nil))
              (next_more a it more) refl
        | inr past ↦ Peeks-done next next it it refl (next_none a it past) refl
      ]

  module _ (now later : Bool) (c : Collection V) where
    of-Peeks : (t : IteratorType) (it : Iterator) → Peeks (next_of now c t) (next_of later c t) it
    of-Peeks IteratorType.iterator_array it = element-Peeks (as_array c) it
    of-Peeks IteratorType.iterator_set it = entry-Peeks key_item key_item (set_table c) it
    of-Peeks IteratorType.iterator_map_keys it = entry-Peeks key_item key_item (map_table c) it
    of-Peeks IteratorType.iterator_map_values it =
        entry-Peeks value_item value_item (map_table c) it
    of-Peeks IteratorType.iterator_map_entries it =
        entry-Peeks (pair_item now) (pair_item later) (map_table c) it

    -- On every iterator, `iterator_done` answers whether the call of `iterator_next` in it is done,
    -- and a later call of `iterator_next` does as it would without the call of `iterator_done`,
    -- where malloc may answer the two calls differently.
    pub iterator_done-next :
        (it : Iterator)
        → ((iterator_done now c it).0 ≡ (iterator_next now c it).0.done)
          × (iterator_next later c (iterator_done now c it).1 ≡ iterator_next later c it)
    unfolding iterator_done iterator_next
    iterator_done-next it =
        let (same, says, kept) = of-Peeks it.type it in
        let moved = (peek (next_of now c it.type) it).1 in
        (says, ap (λ t. next_of later c t moved) kept ∙ same)
