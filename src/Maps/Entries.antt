-- ===== src/Maps/Entries.antt =====
-- `map_set`, `map_get`, `map_has`, `map_delete` and `map_clear` against the abstract map.
use ember_core.Common.{
  ℕ, ◌+◌, ◌-◌, ◌%◌, ◌≡◌, refl, ap, ◌∙◌, inl, inr, Bool, true, false, ◌||◌, Option, none, some,
  arith, if◌then◌else◌, Bool-cases, is_some,
}
use ember_core.HashMap.Grow.{hash_map_set-Wrote}
use ember_core.HashMap.Keys.{Key, IsLawful}
use ember_core.HashMap.Placed.{IsTable, lookup, lookup_in}
use ember_core.HashMap.Rehash.{fresh-IsTable, lookup-fresh}
use ember_core.HashMap.Remove.{
  lookup-vacate_self, lookup-vacate_home, vacate-Removed, count_occupied-set-vacant, has_key-entry,
  has_key-found,
}
use ember_core.HashMap.{
  HashMap, entry_at, find_entry, occupied_at, hash_map_get, hash_map_has_key, hash_map_set,
  overloaded, can_grow, vacate, fresh,
}
use ember_core.Maps.{EmberMap, map_get, map_has, map_set, map_delete, map_clear}
use ember_core.Sets.Elements.{has_key-lookup, clear_entries-fresh}

module _ {ℓ} {V : Type ℓ} ⦃key : Key V⦄ where
  pub record IsEmberMap (IsKey : V → Type 0) (m : EmberMap V) : Type ℓ where
    pub table : IsTable IsKey m.entries
    pub counted : m.size ≡ m.entries.length

  or_nil : Option V → V
  or_nil none = key.nil
  or_nil (some v) = v

  get-lookup : (m : HashMap V) (k : V) → hash_map_get m k ≡ or_nil (lookup m k)
  unfolding hash_map_get lookup_in or_nil
  get-lookup m k = ground arith

  -- What `map_set` of `v` under `k` makes of a map.
  pub record Assigned (IsKey : V → Type 0) (m : EmberMap V) (k v : V) (m' : EmberMap V)
      : Type ℓ where
    pub valid : IsEmberMap IsKey m'
    pub get : (q : V) → IsKey q → map_get m' q ≡ (if key.equal k q then v else map_get m q)
    pub has : (q : V) → IsKey q → map_has m' q ≡ (key.equal k q || map_has m q)
    pub size : m'.size ≡ (if map_has m k then m.size else m.size + 1)

  module _ {IsKey : V → Type 0} (laws : IsLawful key IsKey) (m : EmberMap V)
      (valid : IsEmberMap IsKey m) (k : V) (hk : IsKey k) where
    -- On a valid map whose table has room or may grow, `map_set` yields a valid map that reads the
    -- value under every equal key and as before under every other key, and whose size is one more
    -- just when the key was absent.
    pub map_set-Assigned :
        (malloc : ℕ → Bool) (v : V)
        → (overloaded m.entries ≡ true → can_grow malloc m.entries.capacity ≡ true)
        → Assigned IsKey m k v (map_set malloc m k v).0
    unfolding map_set map_get map_has
    map_set-Assigned malloc v grows =
        let w = hash_map_set-Wrote laws malloc m.entries valid.table k v hk grows in
        let grew : (hash_map_set malloc m.entries k v).length
            ≡ (if hash_map_has_key m.entries k then m.size else m.size + 1) =
          w.grew ∙ rw (← has_key-lookup m.entries k, ← valid.counted) in
        record {
          valid = record { table = w.table; counted = ground (arith, grew) };
          get = λ q hq.
              get-lookup _ q
              ∙ ap or_nil (w.reads q hq)
              ∙ unfold or_nil in ground (arith, get-lookup m.entries q);
          has = λ q hq.
              has_key-lookup _ q
              ∙ ap is_some (w.reads q hq)
              ∙ ground (arith, has_key-lookup m.entries q);
          size = ground (arith, grew);
        }

    map_delete-absent : hash_map_has_key m.entries k ≡ false → map_delete m k ≡ (m, false)
    unfolding map_delete
    map_delete-absent absent = rw absent

    map_delete-vacate :
        {j : ℕ}
        → find_entry m.entries.entries m.entries.capacity k ≡ some j
        → (entry_at m.entries.entries j).is_occupied ≡ true
        → map_delete m k ≡ (
            let table = vacate m.entries (some j) in
            (record { entries = table; size = table.length }, true))
    unfolding map_delete hash_map_has_key occupied_at
    map_delete-vacate found full = rw (found, occupied_at, full)

    length-vacate :
        (j : ℕ)
        → (entry_at m.entries.entries j).is_occupied ≡ true
        → (vacate m.entries (some j)).length + 1 ≡ m.size
    unfolding vacate
    length-vacate j full =
        rw full
          (omega (arith, count_occupied-set-vacant m.entries.entries j full, valid.table.counted))

    -- On a valid map `map_delete` answers whether the key was there, leaves a map that has it not
    -- and reads nil under it, and counts one less just when it was there.
    pub map_delete_self :
        ((map_delete m k).1 ≡ map_has m k)
        × (map_has (map_delete m k).0 k ≡ false)
        × (map_get (map_delete m k).0 k ≡ key.nil)
        × ((map_delete m k).0.size ≡ (if map_has m k then m.size - 1 else m.size))
    unfolding map_has map_get
    map_delete_self = elim (Bool-cases (hash_map_has_key m.entries k)) [
      | inr absent ↦
          rw (absent, map_delete-absent absent)
            (
              refl,
              absent,
              get-lookup m.entries k ∙ unfold or_nil in ground (arith, has_key-lookup m.entries k),
              refl,
            )
      | inl present ↦
          let (j, found) = has_key-entry m.entries k present in
          let (full, lt) = has_key-found m.entries k present found in
          let gone = lookup-vacate_self m.entries lt full k found in
          rw (present, map_delete-vacate found full)
            (
              refl,
              has_key-lookup _ k ∙ ap is_some gone,
              get-lookup _ k ∙ ap or_nil gone ∙ unfold or_nil in refl,
              omega (arith, length-vacate j full),
            )
    ]

    -- On a valid map that has a key, where the place after its entry is vacant, `map_delete` yields
    -- a valid map that reads nil under every equal key and as before under every other.
    pub map_delete_sound :
        (j : ℕ)
        → map_has m k ≡ true
        → find_entry m.entries.entries m.entries.capacity k ≡ some j
        → (entry_at m.entries.entries ((j + 1) % m.entries.capacity)).is_occupied ≡ false
        → IsEmberMap IsKey (map_delete m k).0
          × ((q : V)
              → IsKey q
              → map_get (map_delete m k).0 q ≡ (if key.equal k q then key.nil else map_get m q))
    unfolding map_has map_get
    map_delete_sound j present found gap =
        let (full, lt) = has_key-found m.entries k present found in
        let r = vacate-Removed laws m.entries valid.table k hk found lt full gap in
        rw (map_delete-vacate found full) (
          record { table = r.table; counted = refl },
          λ q hq.
              get-lookup _ q
              ∙ ap or_nil (r.reads q hq)
              ∙ unfold or_nil in ground (arith, get-lookup m.entries q),
        )

    -- On a valid map, where the home slot of a second, different key of the map is the entry of the
    -- first, `map_delete` of the first leaves a map that has the second no more.
    pub map_delete_loses :
        (j : ℕ) (q : V)
        → map_has m k ≡ true
        → find_entry m.entries.entries m.entries.capacity k ≡ some j
        → key.hash q % m.entries.capacity ≡ j
        → map_has m q ≡ true
        → key.equal k q ≡ false
        → map_has (map_delete m k).0 q ≡ false
    unfolding map_has
    map_delete_loses j q present found home there apart =
        let (full, lt) = has_key-found m.entries k present found in
        rw (map_delete-vacate found full) (
          has_key-lookup _ q
          ∙ ap is_some (lookup-vacate_home m.entries lt full q valid.table.roomy home))

  -- `map_clear` of a valid map is a valid map of size 0 and the same capacity that has no key and
  -- reads nil under every key.
  pub map_clear-empty :
      {IsKey : V → Type 0} (m : EmberMap V)
      → IsEmberMap IsKey m
      → IsEmberMap IsKey (map_clear m)
        × ((map_clear m).size ≡ 0)
        × ((map_clear m).entries.capacity ≡ m.entries.capacity)
        × ((q : V) → (map_has (map_clear m) q ≡ false) × (map_get (map_clear m) q ≡ key.nil))
  unfolding map_clear map_has map_get
  map_clear-empty {IsKey} m valid =
      let c = m.entries.capacity in
      rw (clear_entries-fresh m.entries valid.table.sized) (
        record {
          table = fresh-IsTable IsKey c valid.table.roomy valid.table.fits;
          counted = unfold fresh in refl;
        },
        refl,
        unfold fresh in refl,
        λ q. (
          has_key-lookup _ q ∙ ap is_some (lookup-fresh c q),
          get-lookup _ q ∙ ap or_nil (lookup-fresh c q) ∙ unfold or_nil in refl,
        ),
      )
