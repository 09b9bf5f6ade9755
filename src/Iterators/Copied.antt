-- ===== src/Iterators/Copied.antt =====
-- The arrays made of a table beside the iterators over it.
use ember_core.Arrays.{EmberArray, value_size}
use ember_core.Common.{
  ℕ, ◌+◌, ◌≤◌, ◌≡◌, refl, sym, ap, ◌∙◌, inl, inr, Bool, true, false, Option, some, List, [], ◌∷◌,
  ltb, ◌&&◌, ◌*◌, length, length-map, map, if◌then◌else◌, arith, Bool-cases,
}
use ember_core.HashMap.Keys.{Key}
use ember_core.HashMap.{Entry}
use ember_core.HashMap.Placed.{count_occupied}
use ember_core.Iterators.{
  IteratorType, Item, element, pair, a_map, a_set, copied, copied_pairs, new_array, map_keys,
  map_values, map_entries, set_to_array,
}
use ember_core.Iterators.Drained.{occupied, items}
use ember_core.Maps.Entries.{IsEmberMap}
use ember_core.Maps.{EmberMap}
use ember_core.Sets.Elements.{IsEmberSet}
use ember_core.Sets.{EmberSet}

and_true : (b c : Bool) → c ≡ true → (b && c) ≡ b
and_true b c e = ground (arith, e)

module _ {ℓ} {V : Type ℓ} ⦃key : Key V⦄ where
  length-occupied : (es : List (Entry V)) → length (occupied es) ≡ count_occupied es
  length-occupied [] = refl
  length-occupied (e ∷ es) = elim (Bool-cases e.is_occupied) [
    | inl full ↦ rw full (omega (arith, length-occupied es))
    | inr free ↦ rw free (omega (arith, length-occupied es))
  ]

  if-map :
      {A : Type ℓ} (f : Entry V → A) (b : Bool) (e : Entry V) (es : List (Entry V)) (xs : List A)
      → xs ≡ map f es
      → (if b then f e ∷ xs else xs) ≡ map f (if b then e ∷ es else es)
  if-map f true e es xs same = ap (λ ys. f e ∷ ys) same
  if-map f false e es xs same = same

  copied_lem :
      (part : Entry V → V) (es : List (Entry V))
      → copied part es ≡ map (λ e. element (part e)) (occupied es)
  copied_lem part [] = refl
  copied_lem part (e ∷ es) =
      if-map (λ e. element (part e)) e.is_occupied e (occupied es) (copied part es)
        (copied_lem part es)

  copied_pairs_lem :
      (granted : ℕ → Bool) (always : (n : ℕ) → granted n ≡ true) (i : ℕ) (es : List (Entry V))
      → copied_pairs granted i es ≡ map (λ e. pair e.key e.value) (occupied es)
  copied_pairs_lem granted always i [] = refl
  copied_pairs_lem granted always i (e ∷ es) =
      let later = copied_pairs granted (i + 1) es in
      ap (λ b. if b then pair e.key e.value ∷ later else later)
        (and_true e.is_occupied (granted i) (always i))
      ∙ if-map (λ e. pair e.key e.value) e.is_occupied e (occupied es) later
          (copied_pairs_lem granted always (i + 1) es)

  -- An array was made, of these elements, and they fit into its memory.
  abbrev pub Holds : Option (EmberArray (Item V)) → List (Item V) → Type ℓ
  Holds made xs =
      (a : EmberArray (Item V)) × (made ≡ some a) × (a.elements ≡ xs) × (length xs ≤ a.capacity)

  new_array-Holds :
      (malloc : ℕ → Bool) (always : (n : ℕ) → malloc n ≡ true) (size : ℕ) (shown : Entry V → Item V)
      (es : List (Entry V)) (xs : List (Item V))
      → xs ≡ map shown (occupied es)
      → count_occupied es ≡ size
      → Holds (new_array malloc true size xs) (map shown (occupied es))
  new_array-Holds malloc always size shown es xs same counted =
      let capacity = if ltb 0 size then size else 1 in
      let enough : size ≤ capacity = ground arith in
      (
        record { elements = xs; capacity = capacity },
        rw (always (value_size * capacity)) refl,
        same,
        omega (arith, enough, counted, length-map shown (occupied es), length-occupied es),
      )

  module _ (malloc : ℕ → Bool) (always : (n : ℕ) → malloc n ≡ true) (granted : ℕ → Bool)
      (each : (n : ℕ) → granted n ≡ true) where
    -- On a valid map, where every request is granted, `map_keys`, `map_values` and `map_entries`
    -- each make an array, of the values that the iterator of that type has to yield, in order, and
    -- these fit into the memory of the array.
    pub map_copies-Holds :
        {IsKey : V → Type 0} (m : EmberMap V)
        → IsEmberMap IsKey m
        → Holds (map_keys malloc true m) (items IteratorType.iterator_map_keys (a_map m))
          × Holds (map_values malloc true m) (items IteratorType.iterator_map_values (a_map m))
          × Holds
              (map_entries malloc true granted m)
              (items IteratorType.iterator_map_entries (a_map m))
    unfolding map_keys map_values map_entries
    map_copies-Holds m valid =
        let es = m.entries.entries in
        let counted = valid.table.counted ∙ sym valid.counted in
        (
          new_array-Holds malloc always m.size _ es _ (copied_lem (λ e. e.key) es) counted,
          new_array-Holds malloc always m.size _ es _ (copied_lem (λ e. e.value) es) counted,
          new_array-Holds malloc always m.size _ es _ (copied_pairs_lem granted each 0 es) counted,
        )

  pub set_to_array-Holds :
      (malloc : ℕ → Bool) (always : (n : ℕ) → malloc n ≡ true) {IsKey : V → Type 0} (s : EmberSet V)
      → IsEmberSet IsKey s
      → Holds (set_to_array malloc true s) (items IteratorType.iterator_set (a_set s))
  unfolding set_to_array
  set_to_array-Holds malloc always s valid =
      new_array-Holds malloc always s.size _ s.elements.entries _
        (copied_lem (λ e. e.key) s.elements.entries) (valid.table.counted ∙ sym valid.counted)
