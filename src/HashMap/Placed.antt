-- ===== src/HashMap/Placed.antt =====
-- The invariant of `ember_hash_map`, and what a lookup means under it.
use native.Mathlib.Decide.{dec_lt}
use ember_core.Common.{
  ℕ, suc, ◌+◌, ◌-◌, ◌*◌, ◌%◌, ◌≤◌, ◌<◌, ◌≡◌, sym, ◌∙◌, ◌⊎◌, inl, inr, true, false, Option, none,
  some, List, [], ◌∷◌, arith, if◌then◌else◌, Bool-cases, Option-cases, length, is_some,
}
use ember_core.HashMap.Keys.{Key, IsLawful, equal_congr_right}
use ember_core.HashMap.Probe.{find_from-stops, find_from_congr, find_from-eq-none, find_from-lt}
use ember_core.HashMap.{int_max, Entry, HashMap, entry_at, stops, find_entry, occupied_at, value_at}

module _ {ℓ} {V : Type ℓ} where
  abbrev pub count_occupied : List (Entry V) → ℕ
  count_occupied [] = 0
  count_occupied (e ∷ es) = (if e.is_occupied then 1 else 0) + count_occupied es

module _ {ℓ} {V : Type ℓ} ⦃key : Key V⦄ where
  -- the abstract map: what a table holds under a key
  unfoldable pub lookup_in : List (Entry V) → ℕ → V → Option V
  lookup_in es cap k =
      let entry = find_entry es cap k in
      if occupied_at es entry then some (value_at es entry) else none

  abbrev pub lookup : HashMap V → V → Option V
  lookup m = lookup_in m.entries m.capacity

  -- The probe of each stored key ends at its own entry.
  pub record IsPlaced (IsKey : V → Type 0) (es : List (Entry V)) (cap : ℕ) : Type ℓ where
    pub keys : (i : ℕ) → (entry_at es i).is_occupied ≡ true → IsKey (entry_at es i).key
    pub reached :
        (i : ℕ)
        → (entry_at es i).is_occupied ≡ true
        → find_entry es cap (entry_at es i).key ≡ some i

  pub record IsTable (IsKey : V → Type 0) (m : HashMap V) : Type ℓ where
    pub sized : length m.entries ≡ m.capacity
    pub roomy : 0 < m.capacity
    pub fits : m.capacity ≤ int_max
    pub counted : count_occupied m.entries ≡ m.length
    pub loaded : 4 * m.length ≤ 3 * m.capacity
    pub placed : IsPlaced IsKey m.entries m.capacity

  vacancy :
      (es : List (Entry V))
      → count_occupied es < length es
      → (i : ℕ) × (i < length es) × ((entry_at es i).is_occupied ≡ false)
  vacancy [] h = absurd (omega arith)
  vacancy (e ∷ es) h = elim (Bool-cases e.is_occupied) [
    | inr free ↦ (0, omega arith, free)
    | inl full ↦ let (i, lt, free) = vacancy es (ground arith) in (suc i, omega arith, free)
  ]

  -- In a table with as many entries as its capacity and fewer of them occupied, the probe of every
  -- key ends at an entry below the capacity, never at NULL.
  pub find_entry-total :
      (es : List (Entry V)) (cap : ℕ) (k : V)
      → length es ≡ cap
      → count_occupied es < cap
      → (j : ℕ) × (find_entry es cap k ≡ some j) × (j < cap)
  unfolding find_entry
  find_entry-total es cap k len few = elim (Option-cases (find_entry es cap k)) [
    | inr (j, e) ↦ (j, e, find_from-lt es cap k cap (key.hash k % cap) (omega arith) e)
    | inl e ↦
        let (x, lt, free) = vacancy es (omega arith) in
        let s = key.hash k % cap in
        let inside : s < cap = omega arith in
        let never : (d : ℕ) → d < cap → (s + d ≡ x) ⊎ (s + d ≡ x + cap) → ⊥ =
          λ d hd at. cc (find_from-eq-none es cap k cap s d x inside hd (omega arith) at e, free) in
        elim (dec_lt x s) [
          | yes p ↦ absurd (never (x + cap - s) (omega arith) (inr (omega arith)))
          | no p ↦ absurd (never (x - s) (omega arith) (inl (omega arith)))
        ]
  ]

  module _ {IsKey : V → Type 0} (laws : IsLawful key IsKey) {es : List (Entry V)} {cap : ℕ}
      (placed : IsPlaced IsKey es cap) where
    -- Equal keys have one probe.
    pub find_entry_congr :
        (a b : V)
        → IsKey a
        → IsKey b
        → key.equal a b ≡ true
        → find_entry es cap a ≡ find_entry es cap b
    unfolding find_entry
    find_entry_congr a b ha hb e =
        rw (laws.hash-equal a b ha hb e) (find_from_congr es cap a b same cap (key.hash b % cap))
      where
        same : (i : ℕ) → stops (entry_at es i) a ≡ stops (entry_at es i) b
        same i = elim (Bool-cases (entry_at es i).is_occupied) [
          | inr free ↦ rw (free)
          | inl full ↦ rw (equal_congr_right laws _ a b (placed.keys i full) ha hb e)
        ]

    -- An occupied entry whose key is equal to `k` is the one that the probe of `k` ends at.
    pub find_entry-eq :
        (k : V) (i : ℕ)
        → IsKey k
        → (entry_at es i).is_occupied ≡ true
        → key.equal (entry_at es i).key k ≡ true
        → find_entry es cap k ≡ some i
    find_entry-eq k i hk full e =
        sym (find_entry_congr _ k (placed.keys i full) hk e) ∙ placed.reached i full

    pub lookup_in-eq :
        (k : V) (i : ℕ)
        → IsKey k
        → (entry_at es i).is_occupied ≡ true
        → key.equal (entry_at es i).key k ≡ true
        → lookup_in es cap k ≡ some (entry_at es i).value
    unfolding lookup_in occupied_at
    lookup_in-eq k i hk full e = rw (find_entry-eq k i hk full e, occupied_at, full)

  pub find_entry-stops :
      (es : List (Entry V)) (cap : ℕ) (k : V) {j : ℕ}
      → find_entry es cap k ≡ some j
      → stops (entry_at es j) k ≡ true
  unfolding find_entry
  find_entry-stops es cap k e = find_from-stops es cap k _ _ e

  -- A lookup finds nothing, or the value of an entry whose key is equal.
  pub lookup_in-cases :
      (es : List (Entry V)) (cap : ℕ) (k : V)
      → (lookup_in es cap k ≡ none)
        ⊎ ((i : ℕ) × ((entry_at es i).is_occupied ≡ true)
            × (key.equal (entry_at es i).key k ≡ true)
            × (lookup_in es cap k ≡ some (entry_at es i).value))
  unfolding lookup_in occupied_at
  lookup_in-cases es cap k = elim (Option-cases (find_entry es cap k)) [
    | inl e ↦ inl (rw (e, occupied_at))
    | inr (i, e) ↦ elim (Bool-cases (entry_at es i).is_occupied) [
      | inr free ↦ inl (rw (e, occupied_at, free))
      | inl full ↦
          inr (i, full, rw full at (find_entry-stops es cap k e), rw (e, occupied_at, full))
    ]
  ]

  pub is_some-lookup_in :
      (es : List (Entry V)) (cap : ℕ) (k : V) {j : ℕ}
      → find_entry es cap k ≡ some j
      → is_some (lookup_in es cap k) ≡ (entry_at es j).is_occupied
  unfolding lookup_in occupied_at
  is_some-lookup_in es cap k {j} e = elim (Bool-cases (entry_at es j).is_occupied) [
    | inl full ↦ rw (e, occupied_at, full)
    | inr free ↦ rw (e, occupied_at, free)
  ]
