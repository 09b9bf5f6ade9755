-- ===== src/Values/Keys.antt =====
-- The values that serve as keys: nil, Booleans, numbers that are not NaN, and strings.
use ember_core.Common.{same_text_iff, ℕ, zero, suc, true, false, ◌≡◌, refl, arith}
use ember_core.HashMap.Keys.{IsLawful}
use ember_core.Values.{
  Double, string, Value, nil, bool, number, object, Heap, hash_value, hash_number, values_equal,
  value_key,
}

-- What the code relies on of IEEE 754: `==` is symmetric and transitive, and numbers that are equal
-- and not zero have one bit pattern.
pub record IsIeee {D : Type 0} (fp : Double D) : Type 0 where
  pub symm : (a b : D) → fp.equal a b ≡ fp.equal b a
  pub trans : (a b c : D) → fp.equal a b ≡ true → fp.equal b c ≡ true → fp.equal a c ≡ true
  pub bits_equal :
      (a b : D) → fp.equal a b ≡ true → fp.equal a fp.zero_value ≡ false → fp.bits a ≡ fp.bits b

module _ {D : Type 0} ⦃fp : Double D⦄ where
  pub data IsScalar : Value D → Type 0 where
    is_nil : IsScalar nil
    is_bool : {b : ℕ} → IsScalar (bool b)
    is_number : {d : D} → fp.equal d d ≡ true → IsScalar (number d)
    is_string : {ptr : ℕ} → IsScalar (object string ptr)

  module _ (ieee : IsIeee fp) (h : Heap D) (fuel : ℕ) where
    scalar_refl : (a : Value D) → IsScalar a → values_equal h (suc fuel) a a ≡ true
    unfolding values_equal
    scalar_refl _ is_nil = refl
    scalar_refl _ is_bool = ground arith
    scalar_refl _ (is_number e) = e
    scalar_refl _ (is_string {ptr}) = ground (arith, same_text_iff (h.chars ptr) (h.chars ptr))

    strings_symm :
        (a b : ℕ)
        → values_equal h (suc fuel) (object string a) (object string b)
          ≡ values_equal h (suc fuel) (object string b) (object string a)
    unfolding values_equal
    strings_symm a b =
        ground (arith, same_text_iff (h.chars a) (h.chars b), same_text_iff (h.chars b) (h.chars a))

    scalar_symm :
        (a b : Value D)
        → IsScalar a
        → IsScalar b
        → values_equal h (suc fuel) a b ≡ values_equal h (suc fuel) b a
    scalar_symm _ _ (is_number {d = a} e) (is_number {d = b} f) =
        unfold values_equal in ieee.symm a b
    scalar_symm _ _ (is_string {ptr = a}) (is_string {ptr = b}) = strings_symm a b
    scalar_symm _ _ is_bool is_bool = unfold values_equal in ground arith
    scalar_symm _ _ is_nil is_nil = refl
    scalar_symm _ _ _ _ = unfold values_equal in refl

    strings_trans :
        (a b c : ℕ)
        → values_equal h (suc fuel) (object string a) (object string b) ≡ true
        → values_equal h (suc fuel) (object string b) (object string c) ≡ true
        → values_equal h (suc fuel) (object string a) (object string c) ≡ true
    unfolding values_equal
    strings_trans a b c p q = ground (
      arith,
      same_text_iff (h.chars a) (h.chars b),
      same_text_iff (h.chars b) (h.chars c),
      same_text_iff (h.chars a) (h.chars c),
    )

    scalar_trans :
        (a b c : Value D)
        → IsScalar a
        → IsScalar b
        → IsScalar c
        → values_equal h (suc fuel) a b ≡ true
        → values_equal h (suc fuel) b c ≡ true
        → values_equal h (suc fuel) a c ≡ true
    scalar_trans _ _ _ (is_number {d = a} _) (is_number {d = b} _) (is_number {d = c} _) p q =
        unfold values_equal in ieee.trans a b c p q
    scalar_trans _ _ _ (is_string {ptr = a}) (is_string {ptr = b}) (is_string {ptr = c}) p q =
        strings_trans a b c p q
    scalar_trans _ _ _ is_bool is_bool is_bool p q = unfold values_equal in ground arith
    scalar_trans _ _ _ is_nil is_nil is_nil p q = unfold values_equal in refl
    scalar_trans _ _ _ _ _ _ p q = unfold values_equal in cc

    strings_hash :
        (a b : ℕ)
        → values_equal h (suc fuel) (object string a) (object string b) ≡ true
        → hash_value h (suc fuel) (object string a) ≡ hash_value h (suc fuel) (object string b)
    unfolding values_equal hash_value
    strings_hash a b e = ground (arith, same_text_iff (h.chars a) (h.chars b))

    numbers_hash :
        (a b : D)
        → fp.equal a a ≡ true
        → fp.equal b b ≡ true
        → fp.equal a b ≡ true
        → hash_number a ≡ hash_number b
    unfolding hash_number
    numbers_hash a b ea eb e = ground (
      arith,
      ieee.bits_equal a b e,
      ieee.symm a b,
      ieee.trans a b fp.zero_value,
      ieee.trans b a fp.zero_value,
    )

    scalar_hash :
        (a b : Value D)
        → IsScalar a
        → IsScalar b
        → values_equal h (suc fuel) a b ≡ true
        → hash_value h (suc fuel) a ≡ hash_value h (suc fuel) b
    scalar_hash _ _ (is_number {d = a} ea) (is_number {d = b} eb) e =
        unfold values_equal hash_value in numbers_hash a b ea eb e
    scalar_hash _ _ (is_string {ptr = a}) (is_string {ptr = b}) e = strings_hash a b e
    scalar_hash _ _ is_bool is_bool e = unfold values_equal hash_value in ground arith
    scalar_hash _ _ is_nil is_nil e = refl
    scalar_hash _ _ _ _ e = unfold values_equal in cc

    -- Where `==` of doubles is symmetric and transitive and equal doubles other than zero have one
    -- bit pattern, `values_equal` is an equivalence on nil, Booleans, numbers that are not NaN and
    -- strings, and values equal under it have one `hash_value`, with at least one level of fuel.
    pub IsScalar-IsLawful : IsLawful (value_key h (suc fuel)) IsScalar
    IsScalar-IsLawful = record {
      equal_refl = scalar_refl;
      equal_symm = scalar_symm;
      equal_trans = scalar_trans;
      hash-equal = scalar_hash;
    }

  -- A number that is not equal to itself as a double is not equal to itself as a key.
  pub nan_not_equal :
      (h : Heap D) (fuel : ℕ) (d : D)
      → fp.equal d d ≡ false
      → values_equal h fuel (number d) (number d) ≡ false
  unfolding values_equal
  nan_not_equal h zero d e = refl
  nan_not_equal h (suc fuel) d e = e
