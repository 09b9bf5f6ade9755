-- ===== src/HashMap/Insert.antt =====
-- `hash_map_set` of src/runtime/value/value.c without its resize, on the invariant and the abstract
-- map.
use native.Mathlib.Decide.{ℕ_discrete}
use ember_core.Common.{
  ℕ, zero, suc, ◌+◌, ◌<◌, ◌≡◌, ◌≢◌, refl, sym, ◌∙◌, inl, inr, true, false, some, List, [], ◌∷◌,
  arith, if◌then◌else◌, Bool-cases, length, set, get_or-set_self, get_or-set_ne, length-set,
  is_some, ◌≤◌, ◌*◌,
}
use ember_core.HashMap.Keys.{Key, IsLawful, equal_congr_left}
use ember_core.HashMap.Placed.{
  find_entry-total, IsTable, lookup, IsPlaced, count_occupied, find_entry-stops, lookup_in,
  lookup_in-eq, lookup_in-cases, is_some-lookup_in,
}
use ember_core.HashMap.Probe.{find_from-set_ne, find_from-set_self}
use ember_core.HashMap.{Entry, HashMap, vacant, entry_at, stops, find_entry, write, put, overloaded}

module _ {ℓ} {V : Type ℓ} ⦃key : Key V⦄ where
  abbrev pub stored : V → V → Entry V
  stored k v = record { key = k; value = v; is_occupied = true }

  pub count_occupied-set :
      (es : List (Entry V)) (j : ℕ) (k v : V)
      → j < length es
      → count_occupied (set es j (stored k v))
        ≡ (if (entry_at es j).is_occupied then count_occupied es else count_occupied es + 1)
  count_occupied-set [] j k v h = elim h [ ]
  count_occupied-set (e ∷ es) zero k v h = ground arith
  count_occupied-set (e ∷ es) (suc j) k v h =
      ground (arith, count_occupied-set es j k v (omega arith))

  module _ {IsKey : V → Type 0} (laws : IsLawful key IsKey) {es : List (Entry V)} {cap : ℕ}
      (placed : IsPlaced IsKey es cap) (k v : V) (hk : IsKey k) {j : ℕ} (lt : j < length es)
      (found : find_entry es cap k ≡ some j) where
    at_same : entry_at (set es j (stored k v)) j ≡ stored k v
    at_same = get_or-set_self es j (stored k v) vacant lt

    at_other : (i : ℕ) → j ≢ i → entry_at (set es j (stored k v)) i ≡ entry_at es i
    at_other i ne = get_or-set_ne es j i (stored k v) vacant ne

    -- The entry found is unoccupied or holds a key equal to `k`.
    held : (entry_at es j).is_occupied ≡ true → key.equal (entry_at es j).key k ≡ true
    held full = rw full at (find_entry-stops es cap k found)

    find_entry-set_self : find_entry (set es j (stored k v)) cap k ≡ some j
    unfolding find_entry
    find_entry-set_self =
        find_from-set_self es cap k (stored k v) cap _ lt (laws.equal_refl k hk) found

    find_entry-set_ne :
        (i : ℕ)
        → j ≢ i
        → (entry_at es i).is_occupied ≡ true
        → find_entry (set es j (stored k v)) cap (entry_at es i).key ≡ some i
    unfolding find_entry
    find_entry-set_ne i ne full =
        find_from-set_ne es cap _ (stored k v) cap _ lt keep ne (placed.reached i full)
      where
        keep :
            key.equal k (entry_at es i).key ≡ true
            → stops (entry_at es j) (entry_at es i).key ≡ true
        keep e = elim (Bool-cases (entry_at es j).is_occupied) [
          | inr free ↦ rw free
          | inl there ↦
              rw
                (
                  there,
                  equal_congr_left laws _ _ k (placed.keys i full) (placed.keys j there) hk
                      (held there),
                )
                e
        ]

    pub set-IsPlaced : IsPlaced IsKey (set es j (stored k v)) cap
    set-IsPlaced = record {
      keys = λ i full. elim (ℕ_discrete j i) [
        | yes same ↦ rw (← same, at_same) hk
        | no other ↦ rw (at_other i other) (placed.keys i (rw (at_other i other) at full))
      ];
      reached = λ i full. elim (ℕ_discrete j i) [
        | yes same ↦ rw (← same, at_same) find_entry-set_self
        | no other ↦
            rw (at_other i other) (find_entry-set_ne i other (rw (at_other i other) at full))
      ];
    }

    -- The write is seen under the keys that are equal to `k`, and under no others.
    pub lookup_in-set :
        (q : V)
        → IsKey q
        → lookup_in (set es j (stored k v)) cap q
          ≡ (if key.equal k q then some v else lookup_in es cap q)
    lookup_in-set q hq = elim (Bool-cases (key.equal k q)) [
      | inl same ↦
          rw same
            (lookup_in-eq laws set-IsPlaced q j hq (rw at_same) (rw at_same same) ∙ rw at_same)
      | inr apart ↦ rw apart (elim (lookup_in-cases (set es j (stored k v)) cap q) [
        | inr (i, full, e, l) ↦ elim (ℕ_discrete j i) [
          | yes at ↦ cc (rw (← at, at_same) at e, apart)
          | no other ↦
              l
              ∙ rw (at_other i other) (
                  sym (
                    lookup_in-eq laws placed q i hq (rw (at_other i other) at full)
                      (rw (at_other i other) at e)))
        ]
        | inl gone ↦ elim (lookup_in-cases es cap q) [
          | inl never ↦ gone ∙ sym never
          | inr (i, full, e, l) ↦ elim (ℕ_discrete j i) [
            | yes at ↦
                let full' : (entry_at es j).is_occupied ≡ true = rw (← at) at full in
                let e' : key.equal (entry_at es j).key q ≡ true = rw (← at) at e in
                cc (
                  e',
                  apart,
                  equal_congr_left laws q (entry_at es j).key k hq (placed.keys j full') hk
                      (held full'),
                )
            | no other ↦ cc (
              gone,
              lookup_in-eq laws set-IsPlaced q i hq (rw (at_other i other) full)
                  (rw (at_other i other) e),
            )
          ]
        ]
      ])
    ]

  -- What a write of `v` under `k` makes of a table.
  pub record Wrote (IsKey : V → Type 0) (m : HashMap V) (k v : V) (m' : HashMap V) : Type ℓ where
    pub table : IsTable IsKey m'
    pub reads : (q : V) → IsKey q → lookup m' q ≡ (if key.equal k q then some v else lookup m q)
    pub grew : m'.length ≡ (if is_some (lookup m k) then m.length else m.length + 1)

  module _ {IsKey : V → Type 0} (laws : IsLawful key IsKey) (m : HashMap V)
      (table : IsTable IsKey m) where
    write-Wrote :
        (k v : V) {j : ℕ}
        → IsKey k
        → 4 * (m.length + 1) ≤ 3 * m.capacity
        → find_entry m.entries m.capacity k ≡ some j
        → j < length m.entries
        → Wrote IsKey m k v (write m k v (some j))
    unfolding write
    write-Wrote k v {j} hk free found lt = record {
      table = record {
        sized = length-set m.entries j _ ∙ table.sized;
        roomy = table.roomy;
        fits = table.fits;
        counted = count_occupied-set m.entries j k v lt ∙ rw (table.counted);
        loaded = ground arith;
        placed = set-IsPlaced laws table.placed k v hk lt found;
      };
      reads = λ q hq. lookup_in-set laws table.placed k v hk lt found q hq;
      grew = rw (is_some-lookup_in m.entries m.capacity k found);
    }

    -- Without the resize: a table with room for one more entry.
    pub put-Wrote :
        (k v : V)
        → IsKey k
        → overloaded m ≡ false
        → Wrote IsKey m k v (put m k v) × ((put m k v).capacity ≡ m.capacity)
    unfolding put
    put-Wrote k v hk room =
        let free : 4 * (m.length + 1) ≤ 3 * m.capacity = ground arith in
        let (j, found, lt) = find_entry-total m.entries m.capacity k table.sized (omega arith) in
        rw found (write-Wrote k v hk free found (omega arith), unfold write in refl)
