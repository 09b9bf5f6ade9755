-- ===== src/Sets/Elements.antt =====
-- `set_add`, `set_has`, `set_delete` and `set_clear` against the abstract set of the keys present.
use ember_core.Common.{
  ℕ, ◌+◌, ◌-◌, ◌%◌, ◌≡◌, refl, sym, ap, ◌∙◌, inl, inr, Bool, true, false, not, ◌&&◌, ◌||◌, some,
  List, [], ◌∷◌, map, arith, if◌then◌else◌, Bool-cases, length, replicate, is_some,
}
use ember_core.HashMap.Grow.{hash_map_set-Wrote, hash_map_set-refused}
use ember_core.HashMap.Keys.{Key, IsLawful}
use ember_core.HashMap.Placed.{IsTable, lookup, lookup_in, find_entry_congr}
use ember_core.HashMap.Remove.{
  lookup-vacate_self, lookup-vacate_home, count_occupied-set-vacant, has_key-entry, has_key-found,
  vacate-Removed,
}
use ember_core.HashMap.Rehash.{fresh-IsTable, lookup-fresh}
use ember_core.HashMap.{
  Entry, vacant, fresh, HashMap, entry_at, find_entry, occupied_at, hash_map_has_key, overloaded,
  can_grow, vacate, clear_entries,
}
use ember_core.Sets.{EmberSet, set_has, set_add, set_delete, with_elements, set_clear}

module _ {ℓ} {V : Type ℓ} ⦃key : Key V⦄ where
  pub record IsEmberSet (IsKey : V → Type 0) (s : EmberSet V) : Type ℓ where
    pub table : IsTable IsKey s.elements
    pub counted : s.size ≡ s.elements.length

  pub has_key-lookup : (m : HashMap V) (k : V) → hash_map_has_key m k ≡ is_some (lookup m k)
  unfolding hash_map_has_key lookup_in
  has_key-lookup m k = ground arith

  -- A lookup depends on the key up to `equal`.
  pub lookup_congr :
      {IsKey : V → Type 0} (laws : IsLawful key IsKey) (m : HashMap V) (a b : V)
      → IsTable IsKey m
      → IsKey a
      → IsKey b
      → key.equal a b ≡ true
      → lookup m a ≡ lookup m b
  unfolding lookup_in
  lookup_congr laws m a b table ha hb e = rw (find_entry_congr laws table.placed a b ha hb e)

  -- What the addition of `x` makes of a set.
  pub record Added (IsKey : V → Type 0) (s : EmberSet V) (x : V) (s' : EmberSet V) : Type ℓ where
    pub valid : IsEmberSet IsKey s'
    pub has : (q : V) → IsKey q → set_has s' q ≡ (key.equal x q || set_has s q)
    pub size : s'.size ≡ (if set_has s x then s.size else s.size + 1)

  module _ {IsKey : V → Type 0} (laws : IsLawful key IsKey) (s : EmberSet V)
      (valid : IsEmberSet IsKey s) (x : V) (hx : IsKey x) where
    stays :
        (q : V)
        → IsKey q
        → hash_map_has_key s.elements x ≡ true
        → hash_map_has_key s.elements q ≡ (key.equal x q || hash_map_has_key s.elements q)
    stays q hq old = elim (Bool-cases (key.equal x q)) [
      | inr apart ↦ rw apart
      | inl same ↦ rw same (
          has_key-lookup s.elements q
          ∙ ap is_some (sym (lookup_congr laws s.elements x q valid.table hx hq same))
          ∙ sym (has_key-lookup s.elements x)
          ∙ old)
    ]

    -- On a valid set whose table has room or may grow, `set_add` answers true and yields a valid
    -- set that has the element and all the old ones and no other, with one more element just when
    -- the element was absent.
    pub set_add-Added :
        (malloc : ℕ → Bool)
        → (overloaded s.elements ≡ true → can_grow malloc s.elements.capacity ≡ true)
        → Added IsKey s x (set_add malloc s x).0 × ((set_add malloc s x).1 ≡ true)
    unfolding set_add set_has
    set_add-Added malloc grows = elim (Bool-cases (hash_map_has_key s.elements x)) [
      | inl old ↦
          rw old (record { valid = valid; has = λ q hq. stays q hq old; size = rw old }, refl)
      | inr new ↦
          let w = hash_map_set-Wrote laws malloc s.elements valid.table x x hx grows in
          rw new (
            record {
              valid = record { table = w.table; counted = refl };
              has = λ q hq.
                  has_key-lookup _ q
                  ∙ ap is_some (w.reads q hq)
                  ∙ ground (arith, has_key-lookup s.elements q);
              size = w.grew ∙ rw (← has_key-lookup s.elements x, new, ← valid.counted);
            },
            refl,
          )
    ]

    -- On a valid set whose table is due to grow and may not, `set_add` leaves the set as it was and
    -- answers true all the same.
    pub set_add-refused :
        (malloc : ℕ → Bool)
        → overloaded s.elements ≡ true
        → can_grow malloc s.elements.capacity ≡ false
        → ((set_add malloc s x).0 ≡ s) × ((set_add malloc s x).1 ≡ true)
    unfolding set_add
    set_add-refused malloc full stuck = elim (Bool-cases (hash_map_has_key s.elements x)) [
      | inl old ↦ rw old (refl, refl)
      | inr new ↦
          let same = hash_map_set-refused laws malloc s.elements valid.table x x full stuck in
          rw (new, same) (λ i. record { elements = s.elements; size = sym valid.counted i }, refl)
    ]

    set_delete-absent : hash_map_has_key s.elements x ≡ false → set_delete s x ≡ (s, false)
    unfolding set_delete
    set_delete-absent absent = rw absent

    -- `set_delete` of an element clears the entry that its probe ends at.
    set_delete-vacate :
        {j : ℕ}
        → find_entry s.elements.entries s.elements.capacity x ≡ some j
        → (entry_at s.elements.entries j).is_occupied ≡ true
        → set_delete s x ≡ (with_elements s (vacate s.elements (some j)), true)
    unfolding set_delete hash_map_has_key occupied_at
    set_delete-vacate found full = rw (found, occupied_at, full)

    length-vacate :
        (j : ℕ)
        → (entry_at s.elements.entries j).is_occupied ≡ true
        → (vacate s.elements (some j)).length + 1 ≡ s.size
    unfolding vacate
    length-vacate j full =
        rw full
          (omega (arith, count_occupied-set-vacant s.elements.entries j full, valid.table.counted))

    -- On a valid set `set_delete` answers whether the element was there, leaves a set that does not
    -- have it, and counts one less just when it was there.
    pub set_delete_self :
        ((set_delete s x).1 ≡ set_has s x)
        × (set_has (set_delete s x).0 x ≡ false)
        × ((set_delete s x).0.size ≡ (if set_has s x then s.size - 1 else s.size))
    unfolding set_has
    set_delete_self = elim (Bool-cases (hash_map_has_key s.elements x)) [
      | inr absent ↦ rw (absent, set_delete-absent absent) (refl, absent, refl)
      | inl present ↦
          let (j, found) = has_key-entry s.elements x present in
          let (full, lt) = has_key-found s.elements x present found in
          rw (present, set_delete-vacate found full)
            (
              refl,
              has_key-lookup _ x ∙ ap is_some (lookup-vacate_self s.elements lt full x found),
              omega (arith, length-vacate j full),
            )
    ]

    -- On a valid set that has an element, where the place after its entry is vacant, `set_delete`
    -- yields a valid set that has all other elements and no equal one.
    pub set_delete_sound :
        (j : ℕ)
        → set_has s x ≡ true
        → find_entry s.elements.entries s.elements.capacity x ≡ some j
        → (entry_at s.elements.entries ((j + 1) % s.elements.capacity)).is_occupied ≡ false
        → IsEmberSet IsKey (set_delete s x).0
          × ((q : V)
              → IsKey q
              → set_has (set_delete s x).0 q ≡ (not (key.equal x q) && set_has s q))
    unfolding set_has
    set_delete_sound j present found gap =
        let (full, lt) = has_key-found s.elements x present found in
        let r = vacate-Removed laws s.elements valid.table x hx found lt full gap in
        rw (set_delete-vacate found full) (
          record { table = r.table; counted = refl },
          λ q hq.
              has_key-lookup _ q
              ∙ ap is_some (r.reads q hq)
              ∙ ground (arith, has_key-lookup s.elements q),
        )

    -- On a valid set, where the home slot of a second, different element of the set is the entry of
    -- the first, `set_delete` of the first leaves a set that has the second no more.
    pub set_delete_loses :
        (j : ℕ) (q : V)
        → set_has s x ≡ true
        → find_entry s.elements.entries s.elements.capacity x ≡ some j
        → key.hash q % s.elements.capacity ≡ j
        → set_has s q ≡ true
        → key.equal x q ≡ false
        → set_has (set_delete s x).0 q ≡ false
    unfolding set_has
    set_delete_loses j q present found home there apart =
        let (full, lt) = has_key-found s.elements x present found in
        rw (set_delete-vacate found full) (
          has_key-lookup _ q
          ∙ ap is_some (lookup-vacate_home s.elements lt full q valid.table.roomy home))

  map-vacant :
      (es : List (Entry V))
      → map (λ e. vacant {V = V} ⦃key = key⦄) es ≡ replicate (length es) vacant
  map-vacant [] = refl
  map-vacant (e ∷ es) = ap (λ xs. vacant ∷ xs) (map-vacant es)

  -- Clearing leaves the empty table of the same capacity.
  pub clear_entries-fresh :
      (m : HashMap V) → length m.entries ≡ m.capacity → clear_entries m ≡ fresh m.capacity
  unfolding clear_entries fresh
  clear_entries-fresh m sized = rw (map-vacant m.entries, sized)

  -- `set_clear` of a valid set is a valid set of size 0 and the same capacity that has no element.
  pub set_clear-empty :
      {IsKey : V → Type 0} (s : EmberSet V)
      → IsEmberSet IsKey s
      → IsEmberSet IsKey (set_clear s)
        × ((set_clear s).size ≡ 0)
        × ((set_clear s).elements.capacity ≡ s.elements.capacity)
        × ((q : V) → set_has (set_clear s) q ≡ false)
  unfolding set_clear set_has
  set_clear-empty {IsKey} s valid = rw (clear_entries-fresh s.elements valid.table.sized) (
    record {
      table = fresh-IsTable IsKey s.elements.capacity valid.table.roomy valid.table.fits;
      counted = unfold fresh in refl;
    },
    refl,
    unfold fresh in refl,
    λ q. has_key-lookup _ q ∙ ap is_some (lookup-fresh s.elements.capacity q),
  )
