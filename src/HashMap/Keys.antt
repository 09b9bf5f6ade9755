-- ===== src/HashMap/Keys.antt =====
-- What the table asks of `ember_value` as a key: `hash_value`, `values_equal` and `ember_make_nil`.
-- The laws hold of some values only (a NaN is not equal to itself), so they are stated for a
-- predicate `IsKey`.
use ember_core.Common.{ℕ, Bool, true, ◌≡◌, arith}

pub record Key {ℓ} (V : Type ℓ) : Type ℓ where
  pub hash : V → ℕ
  pub equal : V → V → Bool
  pub nil : V

pub record IsLawful {ℓ} {V : Type ℓ} (key : Key V) (IsKey : V → Type 0) : Type ℓ where
  pub equal_refl : (a : V) → IsKey a → key.equal a a ≡ true
  pub equal_symm : (a b : V) → IsKey a → IsKey b → key.equal a b ≡ key.equal b a
  pub equal_trans :
      (a b c : V)
      → IsKey a
      → IsKey b
      → IsKey c
      → key.equal a b ≡ true
      → key.equal b c ≡ true
      → key.equal a c ≡ true
  pub hash-equal : (a b : V) → IsKey a → IsKey b → key.equal a b ≡ true → key.hash a ≡ key.hash b

module _ {ℓ} {V : Type ℓ} {key : Key V} {IsKey : V → Type 0} (laws : IsLawful key IsKey) where
  -- Equal keys are told apart from no third key.
  pub equal_congr_right :
      (x a b : V)
      → IsKey x
      → IsKey a
      → IsKey b
      → key.equal a b ≡ true
      → key.equal x a ≡ key.equal x b
  equal_congr_right x a b hx ha hb e = ground (
    arith,
    laws.equal_symm a b ha hb,
    laws.equal_trans x a b hx ha hb,
    laws.equal_trans x b a hx hb ha,
  )

  pub equal_congr_left :
      (x a b : V)
      → IsKey x
      → IsKey a
      → IsKey b
      → key.equal a b ≡ true
      → key.equal a x ≡ key.equal b x
  equal_congr_left x a b hx ha hb e = ground (
    arith,
    laws.equal_symm a x ha hx,
    laws.equal_symm b x hb hx,
    equal_congr_right x a b hx ha hb e,
  )
