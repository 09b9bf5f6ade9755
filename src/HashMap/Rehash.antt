-- ===== src/HashMap/Rehash.antt =====
-- The rehash loop of `hash_map_set` of src/runtime/value/value.c, and the empty arrays that it fills.
use mathlib.Core.Bool.{false≢true}
use ember_core.Common.{
  ℕ, zero, suc, ◌+◌, ◌*◌, ◌≤◌, ◌<◌, ◌≡◌, refl, sym, ap, ◌∙◌, inl, inr, true, false, Option, none,
  some, List, [], ◌∷◌, ◌&&◌, arith, if◌then◌else◌, Bool-cases, get_or, replicate, length-replicate,
  get_or-replicate,
}
use ember_core.HashMap.Insert.{Wrote, put-Wrote}
use ember_core.HashMap.Keys.{Key, IsLawful}
use ember_core.HashMap.Placed.{
  IsTable, IsPlaced, count_occupied, find_entry-eq, lookup, lookup_in, lookup_in-eq,
  lookup_in-cases,
}
use ember_core.Common.{some_inj}
use ember_core.HashMap.{Entry, HashMap, vacant, entry_at, put, overloaded, rehash, fresh, int_max}

module _ {ℓ} {V : Type ℓ} (e : Entry V) (free : e.is_occupied ≡ false) where
  vacant_throughout : (n i : ℕ) → (get_or (replicate n e) i e).is_occupied ≡ false
  vacant_throughout n i = ap (λ (x : Entry V). x.is_occupied) (get_or-replicate n i e) ∙ free

  none_occupied : (n : ℕ) → count_occupied (replicate n e) ≡ 0
  none_occupied zero = refl
  none_occupied (suc n) = ground (arith, none_occupied n)

module _ {ℓ} {V : Type ℓ} ⦃key : Key V⦄ where
  -- the value of the last entry whose key is equal, or a given one
  abbrev pub last_in : List (Entry V) → V → Option V → Option V
  last_in [] q d = d
  last_in (e ∷ es) q d =
      last_in es q (if e.is_occupied && key.equal e.key q then some e.value else d)

  last_in-absent :
      (es : List (Entry V)) (q : V) (d : Option V)
      → ((i : ℕ) → (entry_at es i).is_occupied ≡ true → key.equal (entry_at es i).key q ≡ false)
      → last_in es q d ≡ d
  last_in-absent [] q d h = refl
  last_in-absent (e ∷ es) q d h = ground (arith, h 0, last_in-absent es q d (λ i. h (suc i)))

  last_in_unique :
      (es : List (Entry V)) (q : V) (d : Option V) (i : ℕ)
      → (entry_at es i).is_occupied ≡ true
      → key.equal (entry_at es i).key q ≡ true
      → ((j : ℕ)
          → (entry_at es j).is_occupied ≡ true
          → key.equal (entry_at es j).key q ≡ true
          → j ≡ i)
      → last_in es q d ≡ some (entry_at es i).value
  last_in_unique [] q d i full e only = cc
  last_in_unique (x ∷ es) q d zero full e only =
      rw (full, e)
        (last_in-absent es q (some x.value) λ j there.
          elim (Bool-cases (key.equal (entry_at es j).key q)) [
            | inr no_match ↦ no_match
            | inl same ↦ absurd (let z = only (suc j) there same in omega arith)
          ])
  last_in_unique (x ∷ es) q d (suc i) full e only =
      last_in_unique es q _ i full e
        (λ j there same. let z = only (suc j) there same in omega arith)

  pub fresh-IsTable : (IsKey : V → Type 0) (n : ℕ) → 0 < n → n ≤ int_max → IsTable IsKey (fresh n)
  unfolding fresh
  fresh-IsTable IsKey n pos small = record {
    sized = length-replicate n _;
    roomy = pos;
    fits = small;
    counted = none_occupied vacant refl n;
    loaded = omega arith;
    placed = record {
      keys = λ i full. absurd (false≢true (sym (vacant_throughout vacant refl n i) ∙ full));
      reached = λ i full. absurd (false≢true (sym (vacant_throughout vacant refl n i) ∙ full));
    };
  }

  pub lookup-fresh : (n : ℕ) (q : V) → lookup (fresh n) q ≡ none
  unfolding fresh
  lookup-fresh n q = elim (lookup_in-cases (replicate n vacant) n q) [
    | inl e ↦ e
    | inr (i, full, _, _) ↦ absurd (false≢true (sym (vacant_throughout vacant refl n i) ∙ full))
  ]

  module _ {IsKey : V → Type 0} (laws : IsLawful key IsKey) where
    -- Under the invariant, a lookup is a search through all entries.
    pub lookup_in-last_in :
        (es : List (Entry V)) (cap : ℕ) (q : V)
        → IsPlaced IsKey es cap
        → IsKey q
        → last_in es q none ≡ lookup_in es cap q
    lookup_in-last_in es cap q placed hq = elim (lookup_in-cases es cap q) [
      | inl gone ↦
          last_in-absent es q none (λ i full. elim (Bool-cases (key.equal (entry_at es i).key q)) [
            | inr no_match ↦ no_match
            | inl same ↦ cc (gone, lookup_in-eq laws placed q i hq full same)
          ])
          ∙ sym gone
      | inr (i, full, same, l) ↦
          last_in_unique es q none i full same (λ j there e. some_inj (
            sym (find_entry-eq laws placed q j hq there e)
            ∙ find_entry-eq laws placed q i hq full same))
          ∙ sym l
    ]

    pub record Rehashed (es : List (Entry V)) (m r : HashMap V) : Type ℓ where
      pub table : IsTable IsKey r
      pub capacity : r.capacity ≡ m.capacity
      pub size : r.length ≡ m.length + count_occupied es
      pub reads : (q : V) → IsKey q → lookup r q ≡ last_in es q (lookup m q)

    -- what the entries to come ask of a table: room, and that it has none of their keys yet
    pub record Awaits (m : HashMap V) (es : List (Entry V)) : Type ℓ where
      pub table : IsTable IsKey m
      pub room : 4 * (m.length + count_occupied es) ≤ 3 * m.capacity
      pub keys : (i : ℕ) → (entry_at es i).is_occupied ≡ true → IsKey (entry_at es i).key
      pub absent :
          (i : ℕ) → (entry_at es i).is_occupied ≡ true → lookup m (entry_at es i).key ≡ none
      pub apart :
          (i j : ℕ)
          → (entry_at es i).is_occupied ≡ true
          → (entry_at es j).is_occupied ≡ true
          → key.equal (entry_at es i).key (entry_at es j).key ≡ true
          → i ≡ j

    Awaits-skip :
        {m : HashMap V} (e : Entry V) {es : List (Entry V)}
        → e.is_occupied ≡ false
        → Awaits m (e ∷ es)
        → Awaits m es
    Awaits-skip e free a = record {
      table = a.table;
      room = ground (arith, a.room);
      keys = λ i. a.keys (suc i);
      absent = λ i. a.absent (suc i);
      apart = λ i j hi hj s. let z = a.apart (suc i) (suc j) hi hj s in omega arith;
    }

    Awaits-next :
        {m : HashMap V} (e : Entry V) {es : List (Entry V)}
        → e.is_occupied ≡ true
        → Awaits m (e ∷ es)
        → (Wrote IsKey m e.key e.value (put m e.key e.value))
          × ((put m e.key e.value).capacity ≡ m.capacity)
          × ((put m e.key e.value).length ≡ m.length + 1)
          × Awaits (put m e.key e.value) es
    Awaits-next {m} e {es} full a =
        let room : 4 * (m.length + 1 + count_occupied es) ≤ 3 * m.capacity =
          ground (arith, a.room) in
        let (w, same) = put-Wrote laws m a.table e.key e.value (a.keys 0 full) (ground arith) in
        let grew : (put m e.key e.value).length ≡ m.length + 1 = w.grew ∙ rw (a.absent 0 full) in
        (
          w,
          same,
          grew,
          record {
            table = w.table;
            room = rw (same, grew) room;
            keys = λ i. a.keys (suc i);
            absent = λ i there.
                w.reads _ (a.keys (suc i) there)
                ∙ elim (Bool-cases (key.equal e.key (entry_at es i).key)) [
                  | inr no_match ↦ rw no_match (a.absent (suc i) there)
                  | inl same ↦ absurd (let z = a.apart 0 (suc i) full there same in omega arith)
                ];
            apart = λ i j hi hj s. let z = a.apart (suc i) (suc j) hi hj s in omega arith;
          },
        )

    pub rehash-Rehashed :
        (es : List (Entry V)) (m : HashMap V) → Awaits m es → Rehashed es m (rehash put es m)
    unfolding rehash
    rehash-Rehashed [] m a = record {
      table = a.table;
      capacity = refl;
      size = omega arith;
      reads = λ q hq. refl;
    }
    rehash-Rehashed (e ∷ es) m a = elim (Bool-cases e.is_occupied) [
      | inr free ↦
          let r = rehash-Rehashed es m (Awaits-skip e free a) in
          rw free (record {
            table = r.table;
            capacity = r.capacity;
            size = r.size ∙ omega arith;
            reads = r.reads;
          })
      | inl full ↦
          let (w, same, grew, next) = Awaits-next e full a in
          let r = rehash-Rehashed es (put m e.key e.value) next in
          rw full (record {
            table = r.table;
            capacity = r.capacity ∙ same;
            size = r.size ∙ rw grew (omega arith);
            reads = λ q hq. r.reads q hq ∙ rw (w.reads q hq);
          })
    ]

    -- Which `hash_map_set` the loop calls does not matter, if that one puts where there is room.
    pub rehash_congr :
        (insert : HashMap V → V → V → HashMap V)
        → ((m : HashMap V) (k v : V) → overloaded m ≡ false → insert m k v ≡ put m k v)
        → (es : List (Entry V)) (m : HashMap V) → Awaits m es
        → rehash insert es m ≡ rehash put es m
    unfolding rehash
    rehash_congr insert same [] m a = refl
    rehash_congr insert same (e ∷ es) m a = elim (Bool-cases e.is_occupied) [
      | inr free ↦ rw free (rehash_congr insert same es m (Awaits-skip e free a))
      | inl full ↦
          rw (full, same m e.key e.value (ground (arith, a.room)))
            (rehash_congr insert same es (put m e.key e.value) (Awaits-next e full a).3)
    ]
