-- ===== src/HashMap/Remove.antt =====
-- `set_delete`, `map_delete`, `set_clear` and `map_clear` of src/runtime/value/value.c, on the table:
-- an entry is cleared with no mark left behind.
use native.Mathlib.Decide.{ℕ_discrete}
use ember_core.Common.{
  some_inj, ℕ, zero, suc, ◌+◌, ◌%◌, ◌<◌, ◌≡◌, ◌≢◌, sym, ap, ◌∙◌, inl, inr, true, false, none, some,
  List, [], ◌∷◌, arith, if◌then◌else◌, Bool-cases, Option-cases, length, set, get_or-set_self,
  get_or-set_ne, length-set,
}
use ember_core.HashMap.Keys.{Key, IsLawful, equal_congr_left}
use ember_core.HashMap.Placed.{
  IsTable, IsPlaced, count_occupied, find_entry-stops, find_entry_congr, lookup, lookup_in,
  lookup_in-eq, lookup_in-cases,
}
use ember_core.HashMap.{
  Entry, HashMap, vacant, entry_at, stops, find_from, find_entry, occupied_at, vacate,
  hash_map_has_key,
}

module _ {ℓ} {V : Type ℓ} ⦃key : Key V⦄ where
  module _ (es : List (Entry V)) (size : ℕ) {j : ℕ} (lt : j < length es) where
    -- A probe that ended at an entry still ends there once the entry is cleared.
    find_from-vacant_self :
        (q : V) (n i : ℕ)
        → find_from es size q n i ≡ some j
        → find_from (set es j vacant) size q n i ≡ some j
    unfolding find_from
    find_from-vacant_self q zero i h = cc
    find_from-vacant_self q (suc n) i h = elim (ℕ_discrete j i) [
      | yes at ↦ rw (← at) (
          let e : entry_at (set es j vacant) j ≡ vacant = get_or-set_self es j vacant vacant lt in
          rw e)
      | no other ↦
          rw (get_or-set_ne es j i vacant vacant other)
            (elim (Bool-cases (stops (entry_at es i) q)) [
              | inl here ↦ absurd (other (sym (some_inj (rw here at h))))
              | inr on ↦ rw on (find_from-vacant_self q n ((i + 1) % size) (rw on at h))
            ])
    ]

    -- A probe that ends at an occupied entry does not pass `j`, if the place after `j` is vacant.
    find_from-vacant_ne :
        (q : V) (n i : ℕ) {t : ℕ}
        → (entry_at es ((j + 1) % size)).is_occupied ≡ false
        → (entry_at es t).is_occupied ≡ true
        → j ≢ t
        → find_from es size q n i ≡ some t
        → find_from (set es j vacant) size q n i ≡ some t
    unfolding find_from
    find_from-vacant_ne q zero i gap full ne h = cc
    find_from-vacant_ne q (suc n) i {t} gap full ne h = elim (ℕ_discrete j i) [
      | yes at ↦ elim (Bool-cases (stops (entry_at es i) q)) [
        | inl here ↦ absurd (ne (at ∙ some_inj (rw here at h)))
        | inr on ↦ absurd (past n (rw (← at) gap) (rw on at h))
      ]
      | no other ↦
          rw (get_or-set_ne es j i vacant vacant other)
            (elim (Bool-cases (stops (entry_at es i) q)) [
              | inl here ↦ rw here (rw here at h)
              | inr on ↦ rw on (find_from-vacant_ne q n ((i + 1) % size) gap full ne (rw on at h))
            ])
    ]
      where
        past :
            (n : ℕ)
            → (entry_at es ((i + 1) % size)).is_occupied ≡ false
            → find_from es size q n ((i + 1) % size) ≡ some t
            → ⊥
        past zero free e = cc
        past (suc n) free e =
            let at : (i + 1) % size ≡ t = some_inj (rw free at e) in
            cc (free, full, ap (λ x. (entry_at es x).is_occupied) at)

  pub count_occupied-set-vacant :
      (es : List (Entry V)) (j : ℕ)
      → (entry_at es j).is_occupied ≡ true
      → count_occupied (set es j vacant) + 1 ≡ count_occupied es
  count_occupied-set-vacant [] j full = cc
  count_occupied-set-vacant (e ∷ es) zero full = ground arith
  count_occupied-set-vacant (e ∷ es) (suc j) full =
      ground (arith, count_occupied-set-vacant es j full)

  occupied-lt : (es : List (Entry V)) (j : ℕ) → (entry_at es j).is_occupied ≡ true → j < length es
  occupied-lt [] j full = cc
  occupied-lt (e ∷ es) zero full = omega arith
  occupied-lt (e ∷ es) (suc j) full = omega (arith, occupied-lt es j full)

  -- The entry of a key that is present is occupied, and inside the array.
  pub has_key-found :
      (m : HashMap V) (k : V) {j : ℕ}
      → hash_map_has_key m k ≡ true
      → find_entry m.entries m.capacity k ≡ some j
      → ((entry_at m.entries j).is_occupied ≡ true) × (j < length m.entries)
  unfolding hash_map_has_key occupied_at
  has_key-found m k {j} h e =
      let full : (entry_at m.entries j).is_occupied ≡ true = rw (e, occupied_at) at h in
      (full, occupied-lt m.entries j full)

  pub has_key-entry :
      (m : HashMap V) (k : V)
      → hash_map_has_key m k ≡ true
      → (j : ℕ) × (find_entry m.entries m.capacity k ≡ some j)
  unfolding hash_map_has_key occupied_at
  has_key-entry m k h = elim (Option-cases (find_entry m.entries m.capacity k)) [
    | inl e ↦ cc (rw (e, occupied_at) at h)
    | inr found ↦ found
  ]

  lookup_in-free :
      (es : List (Entry V)) (size : ℕ) (q : V) {j : ℕ}
      → find_entry es size q ≡ some j
      → (entry_at es j).is_occupied ≡ false
      → lookup_in es size q ≡ none
  unfolding lookup_in occupied_at
  lookup_in-free es size q e free = rw (e, occupied_at, free)

  module _ (m : HashMap V) {j : ℕ} (lt : j < length m.entries)
      (full : (entry_at m.entries j).is_occupied ≡ true) where
    emptied : entry_at (set m.entries j vacant) j ≡ vacant
    emptied = get_or-set_self m.entries j vacant vacant lt

    lookup_in-set-vacant :
        (k : V)
        → find_entry m.entries m.capacity k ≡ some j
        → lookup_in (set m.entries j vacant) m.capacity k ≡ none
    lookup_in-set-vacant k found =
        let still : find_entry (set m.entries j vacant) m.capacity k ≡ some j =
          unfold find_entry in find_from-vacant_self m.entries m.capacity lt k m.capacity _ found in
        lookup_in-free (set m.entries j vacant) m.capacity k still (rw emptied)

    -- What was removed is no longer found.
    pub lookup-vacate_self :
        (k : V) → find_entry m.entries m.capacity k ≡ some j → lookup (vacate m (some j)) k ≡ none
    unfolding vacate
    lookup-vacate_self k found = rw full (lookup_in-set-vacant k found)

    -- A key whose home is the cleared entry is not found either, wherever it stands.
    pub lookup-vacate_home :
        (q : V) → 0 < m.capacity → key.hash q % m.capacity ≡ j → lookup (vacate m (some j)) q ≡ none
    unfolding vacate
    lookup-vacate_home q pos home =
        rw full (lookup_in-free (set m.entries j vacant) m.capacity q start (rw emptied))
      where
        first : (n : ℕ) → 0 < n → find_from (set m.entries j vacant) m.capacity q n j ≡ some j
        first zero h = absurd (omega arith)
        first (suc n) h = unfold find_from in rw emptied

        start : find_entry (set m.entries j vacant) m.capacity q ≡ some j
        start = unfold find_entry in rw home (first m.capacity pos)

  -- What the removal of `k` makes of a table, where it is sound.
  pub record Removed (IsKey : V → Type 0) (m : HashMap V) (k : V) (m' : HashMap V) : Type ℓ where
    pub table : IsTable IsKey m'
    pub reads : (q : V) → IsKey q → lookup m' q ≡ (if key.equal k q then none else lookup m q)
    pub shrank : m'.length + 1 ≡ m.length

  module _ {IsKey : V → Type 0} (laws : IsLawful key IsKey) (m : HashMap V)
      (table : IsTable IsKey m) (k : V) (hk : IsKey k) {j : ℕ}
      (found : find_entry m.entries m.capacity k ≡ some j) (lt : j < length m.entries)
      (full : (entry_at m.entries j).is_occupied ≡ true)
      (gap : (entry_at m.entries ((j + 1) % m.capacity)).is_occupied ≡ false) where
    held : key.equal (entry_at m.entries j).key k ≡ true
    held = rw full at (find_entry-stops m.entries m.capacity k found)

    others : (i : ℕ) → j ≢ i → entry_at (set m.entries j vacant) i ≡ entry_at m.entries i
    others i ne = get_or-set_ne m.entries j i vacant vacant ne

    not_cleared : (i : ℕ) → (entry_at (set m.entries j vacant) i).is_occupied ≡ true → j ≢ i
    not_cleared i there at =
        cc (there, ap (λ x. entry_at (set m.entries j vacant) x) at, emptied m lt full)

    vacate-IsPlaced : IsPlaced IsKey (set m.entries j vacant) m.capacity
    vacate-IsPlaced = record {
      keys = λ i there.
          let ne = not_cleared i there in
          rw (others i ne) (table.placed.keys i (rw (others i ne) at there));
      reached = λ i there.
          let ne = not_cleared i there in
          let there' = rw (others i ne) at there in
          rw (others i ne) (
            unfold find_entry in
            find_from-vacant_ne m.entries m.capacity lt _ m.capacity _ gap there' ne
              (table.placed.reached i there'));
    }

    keeps :
        (q : V)
        → IsKey q
        → key.equal k q ≡ false
        → lookup_in (set m.entries j vacant) m.capacity q ≡ lookup m q
    keeps q hq apart = elim (lookup_in-cases (set m.entries j vacant) m.capacity q) [
      | inr (i, there, e, l) ↦
          let ne = not_cleared i there in
          l
          ∙ rw (others i ne) (
              sym (
                lookup_in-eq laws table.placed q i hq (rw (others i ne) at there)
                  (rw (others i ne) at e)))
      | inl gone ↦ elim (lookup_in-cases m.entries m.capacity q) [
        | inl never ↦ gone ∙ sym never
        | inr (i, there, e, l) ↦ elim (ℕ_discrete j i) [
          | yes at ↦ cc (
            apart,
            equal_congr_left laws q (entry_at m.entries j).key k hq (table.placed.keys j full) hk
                held,
          )
          | no ne ↦ cc (
            gone,
            lookup_in-eq laws vacate-IsPlaced q i hq (rw (others i ne) there) (rw (others i ne) e),
          )
        ]
      ]
    ]

    -- Where the place after the entry is vacant, the removal takes out this key and no other.
    pub vacate-Removed : Removed IsKey m k (vacate m (some j))
    unfolding vacate
    vacate-Removed = rw full (record {
      table = record {
        sized = length-set m.entries j vacant ∙ table.sized;
        roomy = table.roomy;
        fits = table.fits;
        counted = omega (arith, count_occupied-set-vacant m.entries j full, table.counted);
        loaded = omega (arith, table.loaded);
        placed = vacate-IsPlaced;
      };
      reads = λ q hq. elim (Bool-cases (key.equal k q)) [
        | inl same ↦ rw same (
            lookup_in-set-vacant m lt full q
              (sym (find_entry_congr laws table.placed k q hk hq same) ∙ found))
        | inr apart ↦ rw apart (keeps q hq apart)
      ];
      shrank = omega (arith, count_occupied-set-vacant m.entries j full, table.counted);
    })
