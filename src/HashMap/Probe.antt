-- ===== src/HashMap/Probe.antt =====
-- src/runtime/value/value.c, `find_entry`: where the probe loop stops, and how a write to one entry
-- moves it.
use native.Mathlib.Decide.{ℕ_discrete, dec_lt}
use native.Mathlib.Nat.{mod-eq_of_lt, mod_self}
use ember_core.Common.{
  some_inj, ℕ, zero, suc, ◌+◌, ◌%◌, ◌<◌, ◌≡◌, ◌≢◌, refl, ap, ◌∙◌, ◌⊎◌, inl, inr, true, false, none,
  some, List, arith, Bool-cases, length, set, get_or-set_self, get_or-set_ne,
}
use ember_core.HashMap.Keys.{Key}
use ember_core.HashMap.{Entry, entry_at, stops, find_from, vacant}

module _ {ℓ} {V : Type ℓ} ⦃key : Key V⦄ (es : List (Entry V)) (cap : ℕ) where
  -- The loop ends at an entry where its test holds.
  pub find_from-stops :
      (k : V) (n i : ℕ) {j : ℕ} → find_from es cap k n i ≡ some j → stops (entry_at es j) k ≡ true
  unfolding find_from
  find_from-stops k zero i e = cc
  find_from-stops k (suc n) i {j} e = elim (Bool-cases (stops (entry_at es i) k)) [
    | inl here ↦ let at : i ≡ j = some_inj (rw here at e) in rw (← at) here
    | inr on ↦ find_from-stops k n ((i + 1) % cap) (rw on at e)
  ]

  -- A write at an entry where the loop does not end leaves its end in place, if the loop does not
  -- end at the new contents sooner.
  pub find_from-set_ne :
      (k : V) (e : Entry V) (n i : ℕ) {j t : ℕ}
      → j < length es
      → (stops e k ≡ true → stops (entry_at es j) k ≡ true)
      → j ≢ t
      → find_from es cap k n i ≡ some t
      → find_from (set es j e) cap k n i ≡ some t
  unfolding find_from
  find_from-set_ne k e zero i lt keep ne h = cc
  find_from-set_ne k e (suc n) i {j} {t} lt keep ne h = elim (ℕ_discrete j i) [
    | yes same ↦ elim (Bool-cases (stops (entry_at es i) k)) [
      | inl here ↦ absurd (ne (same ∙ some_inj (rw here at h)))
      | inr on ↦
          let new : entry_at (set es j e) i ≡ e = rw (← same) (get_or-set_self es j e vacant lt) in
          let off : stops e k ≡ false = elim (Bool-cases (stops e k)) [
            | inl s ↦ cc (keep s, ap (λ x. stops (entry_at es x) k) same)
            | inr s ↦ s
          ] in
          rw (new, off) (find_from-set_ne k e n ((i + 1) % cap) lt keep ne (rw on at h))
    ]
    | no other ↦
        rw (get_or-set_ne es j i e vacant other) (elim (Bool-cases (stops (entry_at es i) k)) [
          | inl here ↦ rw here (rw here at h)
          | inr on ↦ rw on (find_from-set_ne k e n ((i + 1) % cap) lt keep ne (rw on at h))
        ])
  ]

  pub find_from-set_self :
      (k : V) (e : Entry V) (n i : ℕ) {j : ℕ}
      → j < length es
      → stops e k ≡ true
      → find_from es cap k n i ≡ some j
      → find_from (set es j e) cap k n i ≡ some j
  unfolding find_from
  find_from-set_self k e zero i lt s h = cc
  find_from-set_self k e (suc n) i {j} lt s h = elim (Bool-cases (stops (entry_at es i) k)) [
    | inl here ↦
        let at : i ≡ j = some_inj (rw here at h) in rw (at, get_or-set_self es j e vacant lt, s)
    | inr on ↦
        let more : find_from es cap k n ((i + 1) % cap) ≡ some j = rw on at h in
        let other : j ≢ i =
          λ x. cc (find_from-stops k n _ more, ap (λ y. stops (entry_at es y) k) x) in
        rw (get_or-set_ne es j i e vacant other, on)
          (find_from-set_self k e n ((i + 1) % cap) lt s more)
  ]

  -- The loop depends on the key through its test alone.
  pub find_from_congr :
      (a b : V)
      → ((i : ℕ) → stops (entry_at es i) a ≡ stops (entry_at es i) b)
      → (n i : ℕ) → find_from es cap a n i ≡ find_from es cap b n i
  unfolding find_from
  find_from_congr a b same zero i = refl
  find_from_congr a b same (suc n) i = rw (same i, find_from_congr a b same n ((i + 1) % cap))

mod-suc :
    (i cap : ℕ)
    → i < cap
    → (suc i < cap × ((i + 1) % cap ≡ suc i)) ⊎ ((suc i ≡ cap) × ((i + 1) % cap ≡ 0))
mod-suc i cap h = elim (dec_lt (suc i) cap) [
  | yes p ↦
      let q : i + 1 < cap = omega arith in
      let e : (i + 1) % cap ≡ suc i = mod-eq_of_lt q ∙ omega arith in inl (p, e)
  | no p ↦ let e : i + 1 ≡ cap = omega arith in inr (omega arith, rw e (mod_self cap))
]

module _ {ℓ} {V : Type ℓ} ⦃key : Key V⦄ (es : List (Entry V)) (cap : ℕ) where
  -- A loop that ends nowhere has passed the entry `d` places on, for every `d` below its rounds.
  pub find_from-eq-none :
      (k : V) (n i d x : ℕ)
      → i < cap
      → d < n
      → x < cap
      → (i + d ≡ x) ⊎ (i + d ≡ x + cap)
      → find_from es cap k n i ≡ none
      → stops (entry_at es x) k ≡ false
  unfolding find_from
  find_from-eq-none k zero i d x hi hd hx at h = absurd (omega arith)
  find_from-eq-none k (suc n) i zero x hi hd hx at h = elim (Bool-cases (stops (entry_at es i) k)) [
    | inl here ↦ cc (rw here at h)
    | inr on ↦ let e : i ≡ x = omega arith in rw (← e) on
  ]
  find_from-eq-none k (suc n) i (suc d) x hi hd hx at h =
      elim (Bool-cases (stops (entry_at es i) k)) [
        | inl here ↦ cc (rw here at h)
        | inr on ↦
            let more : find_from es cap k n ((i + 1) % cap) ≡ none = rw on at h in
            elim (mod-suc i cap hi) [
              | inl (lt, e) ↦
                  find_from-eq-none k n ((i + 1) % cap) d x (omega arith) (omega arith) hx
                    (ground arith) more
              | inr (end, e) ↦
                  find_from-eq-none k n ((i + 1) % cap) d x (omega arith) (omega arith) hx
                    (ground arith) more
            ]
      ]

  -- The loop stays inside the array.
  pub find_from-lt : (k : V) (n i : ℕ) {j : ℕ} → i < cap → find_from es cap k n i ≡ some j → j < cap
  unfolding find_from
  find_from-lt k zero i h e = cc
  find_from-lt k (suc n) i {j} h e = elim (Bool-cases (stops (entry_at es i) k)) [
    | inl here ↦ let at : i ≡ j = some_inj (rw here at e) in omega arith
    | inr on ↦ find_from-lt k n ((i + 1) % cap) (omega arith) (rw on at e)
  ]
