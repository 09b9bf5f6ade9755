-- ===== src/Sets.antt =====
-- src/runtime/value/value.c: `ember_set`, a hash map with each element as its own key and value. The
-- results of `int` functions are Booleans; a null set pointer is outside the model.
pub mod Elements
pub mod Algebra
use ember_core.Common.{
  ℕ, Bool, true, false, not, ◌&&◌, Option, none, some, List, [], ◌∷◌, ltb, if◌then◌else◌,
}
use ember_core.HashMap.Keys.{Key}
use ember_core.HashMap.{
  Entry, HashMap, object_size, find_entry, hash_map_has_key, hash_map_set, occupied_at,
  allocate_hash_map, vacate, clear_entries,
}

pub record EmberSet {ℓ} (V : Type ℓ) : Type ℓ where
  pub elements : HashMap V
  pub size : ℕ

module _ {ℓ} {V : Type ℓ} ⦃key : Key V⦄ where
  unfoldable pub set_has : EmberSet V → V → Bool
  set_has s x = hash_map_has_key s.elements x

  -- the set with its table replaced, and `size` copied from the table's length
  abbrev pub with_elements : EmberSet V → HashMap V → EmberSet V
  with_elements s m = record { elements = m; size = m.length }

  unfoldable pub set_delete : EmberSet V → V → EmberSet V × Bool
  set_delete s x =
      if not (hash_map_has_key s.elements x)
      then (s, false)
      else (let entry = find_entry s.elements.entries s.elements.capacity x in
          if occupied_at s.elements.entries entry
          then (with_elements s (vacate s.elements entry), true)
          else (s, false))

  unfoldable pub set_clear : EmberSet V → EmberSet V
  set_clear s = record { elements = clear_entries s.elements; size = 0 }

  -- the loop of `set_is_subset` over the entries
  unfoldable pub all_in : EmberSet V → List (Entry V) → Bool
  all_in superset [] = true
  all_in superset (e ∷ es) =
      if e.is_occupied && not (set_has superset e.key) then false else all_in superset es

  unfoldable pub set_is_subset : EmberSet V → EmberSet V → Bool
  set_is_subset subset superset =
      if ltb superset.size subset.size then false else all_in superset subset.elements.entries

  module _ (malloc : ℕ → Bool) where
    unfoldable pub allocate_set : Option (EmberSet V)
    allocate_set =
        if malloc object_size
        then (elim (allocate_hash_map {V = V} malloc 8) [
          | none ↦ none
          | some m ↦ some (record { elements = m; size = 0 })
        ])
        else none

    unfoldable pub set_add : EmberSet V → V → EmberSet V × Bool
    set_add s x =
        if hash_map_has_key s.elements x
        then (s, true)
        else (with_elements s (hash_map_set malloc s.elements x x), true)

    -- the loops of `set_union`, `set_intersection` and `set_difference`: add the occupied entries'
    -- keys that pass a test
    unfoldable pub add_where : (V → Bool) → List (Entry V) → EmberSet V → EmberSet V
    add_where keep [] s = s
    add_where keep (e ∷ es) s =
        add_where keep es (if e.is_occupied && keep e.key then (set_add s e.key).0 else s)

    unfoldable pub set_union : EmberSet V → EmberSet V → Option (EmberSet V)
    set_union a b = elim allocate_set [
      | none ↦ none
      | some s ↦
          some
            (add_where (λ x. true) b.elements.entries (add_where (λ x. true) a.elements.entries s))
    ]

    unfoldable pub set_intersection : EmberSet V → EmberSet V → Option (EmberSet V)
    set_intersection a b = elim allocate_set [
      | none ↦ none
      | some s ↦ some (add_where (set_has b) a.elements.entries s)
    ]

    unfoldable pub set_difference : EmberSet V → EmberSet V → Option (EmberSet V)
    set_difference a b = elim allocate_set [
      | none ↦ none
      | some s ↦ some (add_where (λ x. not (set_has b x)) a.elements.entries s)
    ]
