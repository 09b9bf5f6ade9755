-- ===== src/Arrays/Growth.antt =====
-- A sequence of pushes onto an array.
use ember_core.Arrays.{EmberArray, array_grows, array_push, next_capacity, value_size}
use ember_core.Common.{
  ℕ, ◌+◌, ◌*◌, ◌/◌, ◌≤◌, ◌<◌, ◌≡◌, sym, ap, ◌∙◌, inl, inr, Bool, true, false, not, ◌&&◌, List, [],
  ◌∷◌, ◌++◌, leb, length, length-append, append-nil, append_assoc, arith, Bool-cases,
}
use ember_core.HashMap.{int_max}

module _ {ℓ} {V : Type ℓ} where
  abbrev pub push_all : (ℕ → Bool) → EmberArray V → List V → EmberArray V
  push_all realloc a [] = a
  push_all realloc a (v ∷ vs) = push_all realloc (array_push realloc a v) vs

  -- The values fit into the allocated memory.
  unfoldable pub IsArray : EmberArray V → Type 0
  IsArray a = (length a.elements ≤ a.capacity) × (a.capacity ≤ int_max)

  array_push-IsArray :
      (realloc : ℕ → Bool) (a : EmberArray V) (v : V) → IsArray a → IsArray (array_push realloc a v)
  unfolding IsArray array_push array_grows
  array_push-IsArray realloc a v (le, fits) =
      let more = length-append a.elements (v ∷ []) in
      elim (Bool-cases (leb a.capacity (length a.elements))) [
        | inr room ↦ rw room (ground (arith, more), fits)
        | inl full ↦
            elim (Bool-cases (
              not (leb (int_max / 2) a.capacity)
              && realloc (value_size * next_capacity a.capacity))) [
                | inl grows ↦ rw (full, grows) (ground (arith, more), ground arith)
                | inr stuck ↦ rw (full, stuck) (le, fits)
              ]
      ]

  -- Below half of INT_MAX elements, with realloc granted, a push appends.
  array_push-append :
      (realloc : ℕ → Bool) (always : (n : ℕ) → realloc n ≡ true) (a : EmberArray V) (v : V)
      → IsArray a
      → length a.elements < int_max / 2
      → (array_push realloc a v).elements ≡ a.elements ++ (v ∷ [])
  unfolding IsArray array_push array_grows
  array_push-append realloc always a v (le, fits) few =
      elim (Bool-cases (leb a.capacity (length a.elements))) [
        | inr room ↦ rw room
        | inl full ↦
            let low : leb (int_max / 2) a.capacity ≡ false = ground arith in
            rw (full, low, always (value_size * next_capacity a.capacity))
      ]

  -- Where realloc never fails, any sequence of `array_push` onto an array whose values fit its
  -- capacity appends all values in order, up to half of INT_MAX values, and leaves the values
  -- within the capacity and the capacity within INT_MAX.
  pub push_all-append :
      (realloc : ℕ → Bool) (always : (n : ℕ) → realloc n ≡ true) (vs : List V) (a : EmberArray V)
      → IsArray a
      → length a.elements + length vs ≤ int_max / 2
      → IsArray (push_all realloc a vs) × ((push_all realloc a vs).elements ≡ a.elements ++ vs)
  push_all-append realloc always [] a valid few = (valid, sym (append-nil a.elements))
  push_all-append realloc always (v ∷ vs) a valid few =
      let e = array_push-append realloc always a v valid (omega (arith, few)) in
      let n : length (array_push realloc a v).elements ≡ length a.elements + 1 =
        ap length e ∙ length-append a.elements (v ∷ []) in
      let (valid', rest) =
        push_all-append realloc always vs (array_push realloc a v)
          (array_push-IsArray realloc a v valid) (omega (arith, few, n)) in
      (valid', rest ∙ ap (λ x. x ++ vs) e ∙ append_assoc a.elements (v ∷ []) vs)

  -- `array_push` onto a full array that may not grow leaves the array as it was.
  pub array_push-refused :
      (realloc : ℕ → Bool) (a : EmberArray V) (v : V)
      → a.capacity ≤ length a.elements
      → array_grows realloc a ≡ false
      → array_push realloc a v ≡ a
  unfolding array_push
  array_push-refused realloc a v full stuck =
      let e : leb a.capacity (length a.elements) ≡ true = ground arith in rw (e, stuck)
