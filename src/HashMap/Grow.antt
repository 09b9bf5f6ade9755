-- ===== src/HashMap/Grow.antt =====
-- `hash_map_set` of src/runtime/value/value.c with its resize.
use ember_core.Common.{
  some_inj, ℕ, suc, ◌+◌, ◌*◌, ◌≡◌, refl, sym, ap, ◌∙◌, inl, inr, Bool, true, false, arith,
  Bool-cases,
}
use ember_core.HashMap.Insert.{Wrote, put-Wrote}
use ember_core.HashMap.Keys.{Key, IsLawful}
use ember_core.HashMap.Placed.{IsTable, find_entry-eq, lookup}
use ember_core.HashMap.Rehash.{
  lookup_in-last_in, Awaits, rehash-Rehashed, rehash_congr, last_in, fresh-IsTable, lookup-fresh,
}
use ember_core.HashMap.{
  HashMap, entry_at, put, overloaded, rehash, fresh, can_grow, set_within, hash_map_set,
}

module _ {ℓ} {V : Type ℓ} ⦃key : Key V⦄ where
  module _ {IsKey : V → Type 0} (laws : IsLawful key IsKey) where
    module _ (malloc : ℕ → Bool) (m : HashMap V) (table : IsTable IsKey m) where
      apart :
          (i j : ℕ)
          → (entry_at m.entries i).is_occupied ≡ true
          → (entry_at m.entries j).is_occupied ≡ true
          → key.equal (entry_at m.entries i).key (entry_at m.entries j).key ≡ true
          → i ≡ j
      apart i j hi hj same = some_inj (
          sym (find_entry-eq laws table.placed _ i (table.placed.keys j hj) hi same)
          ∙ table.placed.reached j hj)

      -- The doubled array is ready for all old entries.
      fresh-Awaits :
          can_grow malloc m.capacity ≡ true → Awaits laws (fresh (m.capacity * 2)) m.entries
      fresh-Awaits grows = record {
        table =
            fresh-IsTable IsKey (m.capacity * 2) (omega (arith, table.roomy))
              (unfold can_grow in ground arith);
        room = unfold fresh in omega (arith, table.counted, table.loaded);
        keys = table.placed.keys;
        absent = λ i full. lookup-fresh (m.capacity * 2) _;
        apart = apart;
      }

      rehash-lookup :
          can_grow malloc m.capacity ≡ true
          → let r = rehash put m.entries (fresh (m.capacity * 2)) in
            IsTable IsKey r
            × (r.capacity ≡ m.capacity * 2)
            × (r.length ≡ m.length)
            × ((q : V) → IsKey q → lookup r q ≡ lookup m q)
      rehash-lookup grows =
          let r = rehash-Rehashed laws m.entries _ (fresh-Awaits grows) in
          (
            r.table,
            r.capacity ∙ unfold fresh in refl,
            r.size ∙ unfold fresh in omega (arith, table.counted),
            λ q hq.
                r.reads q hq
                ∙ ap (last_in m.entries q) (lookup-fresh (m.capacity * 2) q)
                ∙ lookup_in-last_in laws m.entries m.capacity q table.placed hq,
          )

      doubled_room :
          (r : HashMap V) → r.capacity ≡ m.capacity * 2 → r.length ≡ m.length → overloaded r ≡ false
      doubled_room r c l = ground (arith, table.loaded, table.roomy)

      module _ (k v : V) where
        set_within-put :
            (depth : ℕ) → overloaded m ≡ false → set_within malloc (suc depth) m k v ≡ put m k v
        unfolding set_within
        set_within-put depth room = rw (room, set_within)

        set_within-grown :
            (depth : ℕ)
            → overloaded m ≡ true
            → can_grow malloc m.capacity ≡ true
            → set_within malloc (suc (suc depth)) m k v
              ≡ put (rehash put m.entries (fresh (m.capacity * 2))) k v
        unfolding set_within
        set_within-grown depth full grows =
            rw (full, grows, set_within)
              (ap (λ r. put r k v)
                (rehash_congr laws (set_within malloc (suc depth))
                  (λ m' k' v' room. rw (room, set_within)) m.entries _ (fresh-Awaits grows)))

        set_within-refused :
            (depth : ℕ)
            → overloaded m ≡ true
            → can_grow malloc m.capacity ≡ false
            → set_within malloc (suc depth) m k v ≡ m
        unfolding set_within
        set_within-refused depth full stuck = rw (full, stuck, set_within)

        -- On a valid table of lawful keys the calls that `hash_map_set` makes of itself while it
        -- rehashes never grow the table again: any bound of two or more on their depth gives the
        -- table that the bound of two gives.
        pub set_within_enough :
            (depth : ℕ) → set_within malloc (2 + depth) m k v ≡ hash_map_set malloc m k v
        set_within_enough depth =
            let e : 2 + depth ≡ suc (suc depth) = omega arith in
            rw e (elim (Bool-cases (overloaded m)) [
              | inr room ↦
                  set_within-put _ room ∙ sym (unfold hash_map_set in set_within-put 1 room)
              | inl full ↦ elim (Bool-cases (can_grow malloc m.capacity)) [
                | inl grows ↦
                    set_within-grown depth full grows
                    ∙ sym (unfold hash_map_set in set_within-grown 0 full grows)
                | inr stuck ↦
                    set_within-refused (suc depth) full stuck
                    ∙ sym (unfold hash_map_set in set_within-refused 1 full stuck)
              ]
            ])

        -- On a valid table, for a key of a lawful interface, where the table has room or may grow,
        -- `hash_map_set` yields a valid table that reads the new value under every equal key and
        -- the old one under every other key, with one more entry just when the key was absent.
        pub hash_map_set-Wrote :
            IsKey k
            → (overloaded m ≡ true → can_grow malloc m.capacity ≡ true)
            → Wrote IsKey m k v (hash_map_set malloc m k v)
        unfolding hash_map_set
        hash_map_set-Wrote hk grows = elim (Bool-cases (overloaded m)) [
          | inr room ↦ rw (set_within-put 1 room) (put-Wrote laws m table k v hk room).0
          | inl full ↦
              let (t, c, l, reads) = rehash-lookup (grows full) in
              let room = doubled_room (rehash put m.entries (fresh (m.capacity * 2))) c l in
              let w = (put-Wrote laws _ t k v hk room).0 in
              rw (set_within-grown 0 full (grows full)) (record {
                table = w.table;
                reads = λ q hq. w.reads q hq ∙ rw (reads q hq);
                grew = w.grew ∙ rw (reads k hk, l);
              })
        ]

        -- On a valid table that is due to grow and may not, `hash_map_set` leaves the table as it
        -- was.
        pub hash_map_set-refused :
            overloaded m ≡ true → can_grow malloc m.capacity ≡ false → hash_map_set malloc m k v ≡ m
        unfolding hash_map_set
        hash_map_set-refused = set_within-refused 1
