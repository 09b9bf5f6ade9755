-- ===== src/Sets/Algebra.antt =====
-- `set_union`, `set_intersection`, `set_difference` and `set_is_subset` of src/runtime/value/value.c.
use ember_core.Common.{
  ℕ, suc, ◌+◌, ◌*◌, ◌^◌, ◌≤◌, ◌<◌, ◌≡◌, ◌↔◌, refl, sym, ap, ◌∙◌, inl, inr, Bool, true, false, not,
  ◌&&◌, ◌||◌, Option, none, some, List, [], ◌∷◌, arith, Bool-cases, is_some,
}
use ember_core.HashMap.Keys.{Key, IsLawful}
use ember_core.HashMap.Placed.{count_occupied}
use ember_core.HashMap.Rehash.{last_in, lookup_in-last_in, fresh-IsTable, lookup-fresh}
use ember_core.HashMap.{
  object_size, entry_size, Entry, HashMap, entry_at, overloaded, can_grow, fresh, allocate_hash_map,
}
use ember_core.Sets.Elements.{IsEmberSet, set_add-Added, has_key-lookup, lookup_congr}
use ember_core.Sets.{
  EmberSet, set_has, set_add, add_where, all_in, allocate_set, set_union, set_intersection,
  set_difference, set_is_subset,
}

-- Below this many elements a table may always double.
abbrev pub max_elements : ℕ
max_elements = 2 ^ 29

module _ {ℓ} {V : Type ℓ} ⦃key : Key V⦄ where
  -- some occupied entry passes the test and has a key equal to `q`
  abbrev any_in : (V → Bool) → List (Entry V) → V → Bool
  any_in keep [] q = false
  any_in keep (e ∷ es) q = (e.is_occupied && keep e.key && key.equal e.key q) || any_in keep es q

  can_grow_below :
      (malloc : ℕ → Bool) (m : HashMap V)
      → ((n : ℕ) → malloc n ≡ true)
      → m.length < max_elements
      → overloaded m ≡ true
      → can_grow malloc m.capacity ≡ true
  unfolding can_grow
  can_grow_below malloc m always few full = rw always (ground arith)

  any_in-last_in :
      (es : List (Entry V)) (q : V) (d : Option V)
      → is_some (last_in es q d) ≡ (any_in (λ x. true) es q || is_some d)
  any_in-last_in [] q d = refl
  any_in-last_in (e ∷ es) q d = any_in-last_in es q _ ∙ ground arith

  module _ {IsKey : V → Type 0} (laws : IsLawful key IsKey) where
    -- Under the invariant, a set has the elements that its entries hold.
    any_in-has :
        (s : EmberSet V) (q : V)
        → IsEmberSet IsKey s
        → IsKey q
        → any_in (λ x. true) s.elements.entries q ≡ set_has s q
    unfolding set_has
    any_in-has s q valid hq =
        ground arith
        ∙ sym (any_in-last_in s.elements.entries q none)
        ∙ ap is_some
            (lookup_in-last_in laws s.elements.entries s.elements.capacity q valid.table.placed hq)
        ∙ sym (has_key-lookup s.elements q)

    any_in-where :
        (keep : V → Bool) (es : List (Entry V)) (q : V)
        → ((k : V) → IsKey k → key.equal k q ≡ true → keep k ≡ keep q)
        → ((i : ℕ) → (entry_at es i).is_occupied ≡ true → IsKey (entry_at es i).key)
        → any_in keep es q ≡ (keep q && any_in (λ x. true) es q)
    any_in-where keep [] q same keys = ground arith
    any_in-where keep (e ∷ es) q same keys =
        ground (arith, keys 0, same e.key, any_in-where keep es q same (λ i. keys (suc i)))

    has_congr :
        (b : EmberSet V)
        → IsEmberSet IsKey b
        → (k q : V) → IsKey k
        → IsKey q
        → key.equal k q ≡ true
        → set_has b k ≡ set_has b q
    unfolding set_has
    has_congr b vb k q hk hq e =
        has_key-lookup b.elements k
        ∙ ap is_some (lookup_congr laws b.elements k q vb.table hk hq e)
        ∙ sym (has_key-lookup b.elements q)

    record Collected (keep : V → Bool) (es : List (Entry V)) (s r : EmberSet V) : Type ℓ where
      valid : IsEmberSet IsKey r
      size : r.size ≤ s.size + count_occupied es
      has : (q : V) → IsKey q → set_has r q ≡ (set_has s q || any_in keep es q)

    module _ (malloc : ℕ → Bool) (always : (n : ℕ) → malloc n ≡ true) where
      add_where-Collected :
          (keep : V → Bool) (es : List (Entry V)) (s : EmberSet V)
          → IsEmberSet IsKey s
          → s.size + count_occupied es ≤ max_elements
          → ((i : ℕ) → (entry_at es i).is_occupied ≡ true → IsKey (entry_at es i).key)
          → Collected keep es s (add_where malloc keep es s)
      unfolding add_where
      add_where-Collected keep [] s valid few keys = record {
        valid = valid;
        size = omega arith;
        has = λ q hq. ground arith;
      }
      add_where-Collected keep (e ∷ es) s valid few keys =
          elim (Bool-cases (e.is_occupied && keep e.key)) [
            | inr skip ↦
                let r = add_where-Collected keep es s valid (ground arith) (λ i. keys (suc i)) in
                rw skip (record {
                  valid = r.valid;
                  size = ground (arith, r.size);
                  has = λ q hq. r.has q hq ∙ ground arith;
                })
            | inl take ↦
                let full : e.is_occupied ≡ true = ground arith in
                let grows = can_grow_below malloc s.elements always (ground arith) in
                let a = (set_add-Added laws s valid e.key (keys 0 full) malloc grows).0 in
                let r =
                  add_where-Collected keep es (set_add malloc s e.key).0 a.valid
                    (ground (arith, a.size)) (λ i. keys (suc i)) in
                rw take (record {
                  valid = r.valid;
                  size = ground (arith, r.size, a.size);
                  has = λ q hq.
                      r.has q hq ∙ ap (λ b. b || any_in keep es q) (a.has q hq) ∙ ground arith;
                })
          ]

      allocate_set-empty :
          (s : EmberSet V) × (allocate_set malloc ≡ some s)
          × IsEmberSet IsKey s
          × (s.size ≡ 0)
          × ((q : V) → set_has s q ≡ false)
      unfolding allocate_set allocate_hash_map set_has
      allocate_set-empty = (
        record { elements = fresh 8; size = 0 },
        rw (always object_size, always (entry_size * 8)) refl,
        record {
          table = fresh-IsTable IsKey 8 (omega arith) (omega arith);
          counted = unfold fresh in refl;
        },
        refl,
        λ q. has_key-lookup _ q ∙ ap is_some (lookup-fresh 8 q),
      )

      -- The entries of a set that pass a test which respects `equal`, in a new set.
      record Filtered (keep : V → Bool) (a : EmberSet V) : Type ℓ where
        base : EmberSet V
        made : allocate_set malloc ≡ some base
        valid : IsEmberSet IsKey (add_where malloc keep a.elements.entries base)
        size : (add_where malloc keep a.elements.entries base).size ≤ a.size
        has :
            (q : V)
            → IsKey q
            → set_has (add_where malloc keep a.elements.entries base) q ≡ (keep q && set_has a q)

      filtered :
          (keep : V → Bool) (a : EmberSet V)
          → ((k q : V) → IsKey k → IsKey q → key.equal k q ≡ true → keep k ≡ keep q)
          → IsEmberSet IsKey a
          → a.size ≤ max_elements
          → Filtered keep a
      filtered keep a same va few =
          let (s, made, vs, zero_size, none_in) = allocate_set-empty in
          let c =
            add_where-Collected keep a.elements.entries s vs
              (omega (arith, va.table.counted, va.counted)) va.table.placed.keys in
          record {
            base = s;
            made = made;
            valid = c.valid;
            size = omega (arith, c.size, va.table.counted, va.counted);
            has = λ q hq.
                c.has q hq
                ∙ rw (
                  none_in q,
                  any_in-where keep a.elements.entries q (λ k hk. same k q hk hq)
                      va.table.placed.keys,
                  any_in-has a q va hq,
                );
          }

      module _ (a b : EmberSet V) (va : IsEmberSet IsKey a) (vb : IsEmberSet IsKey b) where
        -- Where malloc never fails and the sizes of two valid sets add up to at most 2^29,
        -- `set_union` yields a valid set, which has a key just when one of the two sets has it.
        pub set_union-has :
            a.size + b.size ≤ max_elements
            → (r : EmberSet V) × (set_union malloc a b ≡ some r)
              × IsEmberSet IsKey r
              × ((q : V) → IsKey q → set_has r q ≡ (set_has a q || set_has b q))
        unfolding set_union
        set_union-has few =
            let f = filtered (λ x. true) a (λ k q hk hq e. refl) va (omega arith) in
            let d =
              add_where-Collected (λ x. true) b.elements.entries _ f.valid
                (omega (arith, f.size, vb.table.counted, vb.counted)) vb.table.placed.keys in
            (
              _,
              rw (f.made, set_union) refl,
              d.valid,
              λ q hq. d.has q hq ∙ rw (f.has q hq, any_in-has b q vb hq),
            )

        -- Where malloc never fails and the first of two valid sets has at most 2^29 elements,
        -- `set_intersection` yields a valid set, which has a key just when both sets have it.
        pub set_intersection-has :
            a.size ≤ max_elements
            → (r : EmberSet V) × (set_intersection malloc a b ≡ some r)
              × IsEmberSet IsKey r
              × ((q : V) → IsKey q → set_has r q ≡ (set_has b q && set_has a q))
        unfolding set_intersection
        set_intersection-has few =
            let f = filtered (set_has b) a (has_congr b vb) va few in
            (_, rw (f.made, set_intersection) refl, f.valid, f.has)

        -- Where malloc never fails and the first of two valid sets has at most 2^29 elements,
        -- `set_difference` yields a valid set, which has a key just when the first set has it and
        -- the second has not.
        pub set_difference-has :
            a.size ≤ max_elements
            → (r : EmberSet V) × (set_difference malloc a b ≡ some r)
              × IsEmberSet IsKey r
              × ((q : V) → IsKey q → set_has r q ≡ (not (set_has b q) && set_has a q))
        unfolding set_difference
        set_difference-has few =
            let f =
              filtered (λ x. not (set_has b x)) a
                (λ k q hk hq e. ap not (has_congr b vb k q hk hq e)) va few in
            (_, rw (f.made, set_difference) refl, f.valid, f.has)

    has_all :
        (b : EmberSet V) (es : List (Entry V))
        → IsEmberSet IsKey b
        → ((i : ℕ) → (entry_at es i).is_occupied ≡ true → IsKey (entry_at es i).key)
        → all_in b es ≡ true
        → (q : V) → IsKey q
        → any_in (λ x. true) es q ≡ true
        → set_has b q ≡ true
    unfolding all_in
    has_all b [] vb keys h q hq m = cc
    has_all b (e ∷ es) vb keys h q hq m =
        elim (Bool-cases (e.is_occupied && not (set_has b e.key))) [
          | inl out ↦ cc (rw out at h)
          | inr kept ↦
              let later = rw kept at h in
              elim (Bool-cases (any_in (λ x. true) es q)) [
                | inl m' ↦ has_all b es vb (λ i. keys (suc i)) later q hq m'
                | inr none_later ↦
                    let full : e.is_occupied ≡ true = ground arith in
                    let same : key.equal e.key q ≡ true = ground arith in
                    sym (has_congr b vb e.key q (keys 0 full) hq same) ∙ ground arith
              ]
        ]

    all_in-has :
        (b : EmberSet V) (es : List (Entry V))
        → ((i : ℕ) → (entry_at es i).is_occupied ≡ true → IsKey (entry_at es i).key)
        → ((q : V) → IsKey q → any_in (λ x. true) es q ≡ true → set_has b q ≡ true)
        → all_in b es ≡ true
    unfolding all_in
    all_in-has b [] keys h = refl
    all_in-has b (e ∷ es) keys h =
        let rest = all_in-has b es (λ i. keys (suc i)) (λ q hq m. h q hq (ground arith)) in
        ground (arith, keys 0, laws.equal_refl e.key, h e.key)

    -- On two valid sets of lawful keys `set_is_subset` answers true just when the first set is no
    -- larger than the second and each of its elements is in the second.
    pub set_is_subset_lem :
        (a b : EmberSet V)
        → IsEmberSet IsKey a
        → IsEmberSet IsKey b
        → (set_is_subset a b ≡ true)
          ↔ ((a.size ≤ b.size) × ((q : V) → IsKey q → set_has a q ≡ true → set_has b q ≡ true))
    unfolding set_is_subset
    set_is_subset_lem a b va vb = (
      λ h. (
        ground arith,
        λ q hq m.
            has_all b a.elements.entries vb va.table.placed.keys (ground arith) q hq
              (any_in-has a q va hq ∙ m),
      ),
      λ (le, h).
          let all =
            all_in-has b a.elements.entries va.table.placed.keys
              (λ q hq m. h q hq (sym (any_in-has a q va hq) ∙ m)) in
          ground arith,
    )
