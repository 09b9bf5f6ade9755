-- ===== src/Packages/Order.antt =====
-- The order of versions of src/runtime/package/package.c.
use Prim.Native.Nat.{Ordering}
use ember_core.Common.{
  ℕ, ◌≡◌, refl, sym, ap, ◌∙◌, inl, inr, ◌⊎◌, Bool, some, List, [], ◌∷◌, arith, Bool-cases, some_inj,
  same_text, same_text_iff,
}
use ember_core.Packages.Versions.{
  Semver, order_of, first_of, strcmp, compare_pre_release, compare_semver, compare_parsed,
  parse_semver, ember_package_version_compare,
}

abbrev pub flip : Ordering → Ordering
flip Ordering.lt = Ordering.gt
flip Ordering.eq = Ordering.eq
flip Ordering.gt = Ordering.lt

-- A comparison is a total preorder: what it calls equal compares alike, and less is transitive.
pub record IsOrder {A : Type 0} (cmp : A → A → Ordering) : Type 0 where
  pub self : (a : A) → cmp a a ≡ Ordering.eq
  pub swapped : (a b : A) → cmp b a ≡ flip (cmp a b)
  pub alike : (a b c : A) → cmp a b ≡ Ordering.eq → cmp a c ≡ cmp b c
  pub trans : (a b c : A) → cmp a b ≡ Ordering.lt → cmp b c ≡ Ordering.lt → cmp a c ≡ Ordering.lt

order_of-IsOrder : IsOrder order_of
order_of-IsOrder = record {
  self = λ a. ground arith;
  swapped = λ a b. ground arith;
  alike = λ a b c h. ground arith;
  trans = λ a b c g h. ground arith;
}

flip-first_of : (o p : Ordering) → flip (first_of o p) ≡ first_of (flip o) (flip p)
flip-first_of Ordering.lt p = refl
flip-first_of Ordering.eq p = refl
flip-first_of Ordering.gt p = refl

first_of_eq : (o p : Ordering) → first_of o p ≡ Ordering.eq → (o ≡ Ordering.eq) × (p ≡ Ordering.eq)
first_of_eq Ordering.lt p h = cc
first_of_eq Ordering.eq p h = (refl, h)
first_of_eq Ordering.gt p h = cc

first_of_lt :
    (o p : Ordering)
    → first_of o p ≡ Ordering.lt
    → (o ≡ Ordering.lt) ⊎ ((o ≡ Ordering.eq) × (p ≡ Ordering.lt))
first_of_lt Ordering.lt p h = inl refl
first_of_lt Ordering.eq p h = inr (refl, h)
first_of_lt Ordering.gt p h = cc

-- Read through a function, and one comparison before another.
IsOrder-on :
    {A B : Type 0} (f : A → B) {cmp : B → B → Ordering}
    → IsOrder cmp
    → IsOrder (λ a b. cmp (f a) (f b))
IsOrder-on f o = record {
  self = λ a. o.self (f a);
  swapped = λ a b. o.swapped (f a) (f b);
  alike = λ a b c. o.alike (f a) (f b) (f c);
  trans = λ a b c. o.trans (f a) (f b) (f c);
}

module _ {A : Type 0} {p q : A → A → Ordering} (o : IsOrder p) (r : IsOrder q) where
  alike_right : (a b c : A) → p b c ≡ Ordering.eq → p a b ≡ p a c
  alike_right a b c e = o.swapped b a ∙ ap flip (o.alike b c a e) ∙ sym (o.swapped c a)

  first_of_trans :
      (a b c : A)
      → first_of (p a b) (q a b) ≡ Ordering.lt
      → first_of (p b c) (q b c) ≡ Ordering.lt
      → first_of (p a c) (q a c) ≡ Ordering.lt
  first_of_trans a b c g h = elim (first_of_lt (p a b) (q a b) g) [
    | inl g ↦ elim (first_of_lt (p b c) (q b c) h) [
      | inl h ↦ rw (o.trans a b c g h)
      | inr (h, _) ↦ rw (sym (alike_right a b c h) ∙ g)
    ]
    | inr (g, g') ↦ elim (first_of_lt (p b c) (q b c) h) [
      | inl h ↦ rw (o.alike a b c g ∙ h)
      | inr (h, h') ↦ rw (o.alike a b c g ∙ h, r.trans a b c g' h')
    ]
  ]

  IsOrder-first_of : IsOrder (λ a b. first_of (p a b) (q a b))
  IsOrder-first_of = record {
    self = λ a. rw (o.self a, r.self a);
    swapped = λ a b. rw (o.swapped a b, r.swapped a b) (sym (flip-first_of (p a b) (q a b)));
    alike = λ a b c h.
        let (e, f) = first_of_eq (p a b) (q a b) h in rw (o.alike a b c e, r.alike a b c f);
    trans = first_of_trans;
  }

strcmp_self : (a : List ℕ) → strcmp a a ≡ Ordering.eq
unfolding strcmp
strcmp_self [] = refl
strcmp_self (x ∷ a) = rw (order_of-IsOrder.self x) (strcmp_self a)

strcmp_swapped : (a b : List ℕ) → strcmp b a ≡ flip (strcmp a b)
unfolding strcmp
strcmp_swapped [] [] = refl
strcmp_swapped [] (y ∷ b) = refl
strcmp_swapped (x ∷ a) [] = refl
strcmp_swapped (x ∷ a) (y ∷ b) =
    rw (order_of-IsOrder.swapped x y, strcmp_swapped a b)
      (sym (flip-first_of (order_of x y) (strcmp a b)))

strcmp_same : (a b : List ℕ) → strcmp a b ≡ Ordering.eq → a ≡ b
unfolding strcmp
strcmp_same [] [] h = refl
strcmp_same [] (y ∷ b) h = cc
strcmp_same (x ∷ a) [] h = cc
strcmp_same (x ∷ a) (y ∷ b) h =
    let (e, f) = first_of_eq (order_of x y) (strcmp a b) h in
    let same : x ≡ y = ground arith in cc (same, strcmp_same a b f)

strcmp_trans :
    (a b c : List ℕ)
    → strcmp a b ≡ Ordering.lt
    → strcmp b c ≡ Ordering.lt
    → strcmp a c ≡ Ordering.lt
unfolding strcmp
strcmp_trans [] (y ∷ b) (z ∷ c) g h = refl
strcmp_trans (x ∷ a) (y ∷ b) (z ∷ c) g h = elim (first_of_lt (order_of x y) (strcmp a b) g) [
  | inl g ↦ elim (first_of_lt (order_of y z) (strcmp b c) h) [
    | inl h ↦ rw (order_of-IsOrder.trans x y z g h)
    | inr (h, _) ↦ rw (sym (alike_right order_of-IsOrder order_of-IsOrder x y z h) ∙ g)
  ]
  | inr (g, g') ↦ elim (first_of_lt (order_of y z) (strcmp b c) h) [
    | inl h ↦ rw (order_of-IsOrder.alike x y z g ∙ h)
    | inr (h, h') ↦ rw (order_of-IsOrder.alike x y z g ∙ h) (strcmp_trans a b c g' h')
  ]
]
strcmp_trans _ [] [] g h = cc
strcmp_trans [] [] _ g h = cc
strcmp_trans (x ∷ a) [] _ g h = cc
strcmp_trans _ (y ∷ b) [] g h = cc

compare_pre-IsOrder : IsOrder compare_pre_release
unfolding compare_pre_release
compare_pre-IsOrder = record { self = own; swapped = turned; alike = same; trans = chain }
  where
    own : (a : List ℕ) → compare_pre_release a a ≡ Ordering.eq
    own [] = refl
    own (x ∷ a) = strcmp_self (x ∷ a)

    turned : (a b : List ℕ) → compare_pre_release b a ≡ flip (compare_pre_release a b)
    turned [] [] = refl
    turned [] (y ∷ b) = refl
    turned (x ∷ a) [] = refl
    turned (x ∷ a) (y ∷ b) = strcmp_swapped (x ∷ a) (y ∷ b)

    same :
        (a b c : List ℕ)
        → compare_pre_release a b ≡ Ordering.eq
        → compare_pre_release a c ≡ compare_pre_release b c
    same [] [] c h = refl
    same [] (y ∷ b) c h = cc
    same (x ∷ a) [] c h = cc
    same (x ∷ a) (y ∷ b) c h = ap (λ z. compare_pre_release z c) (strcmp_same (x ∷ a) (y ∷ b) h)

    chain :
        (a b c : List ℕ)
        → compare_pre_release a b ≡ Ordering.lt
        → compare_pre_release b c ≡ Ordering.lt
        → compare_pre_release a c ≡ Ordering.lt
    chain [] [] c g h = cc
    chain [] (y ∷ b) c g h = cc
    chain (x ∷ a) [] [] g h = cc
    chain (x ∷ a) [] (z ∷ c) g h = cc
    chain (x ∷ a) (y ∷ b) [] g h = refl
    chain (x ∷ a) (y ∷ b) (z ∷ c) g h = strcmp_trans (x ∷ a) (y ∷ b) (z ∷ c) g h

-- The comparison of two versions that are read is a total preorder: reversed arguments reverse it,
-- versions that compare equal compare alike with every third one, and less is transitive.
pub compare_semver-IsOrder : IsOrder compare_semver
unfolding compare_semver
compare_semver-IsOrder = IsOrder-first_of (IsOrder-on (λ (v : Semver). v.major) order_of-IsOrder) (
    IsOrder-first_of (IsOrder-on (λ (v : Semver). v.minor) order_of-IsOrder) (
      IsOrder-first_of (IsOrder-on (λ (v : Semver). v.patch) order_of-IsOrder)
        (IsOrder-on (λ (v : Semver). v.pre_release) compare_pre-IsOrder)))

pub version_compare_lem :
    (malloc : ℕ → Bool) (v w : List ℕ) (a b : Semver)
    → parse_semver malloc v ≡ some a
    → parse_semver malloc w ≡ some b
    → ember_package_version_compare malloc v w ≡ compare_semver a b
unfolding ember_package_version_compare compare_parsed
version_compare_lem malloc v w a b ha hb = elim (Bool-cases (same_text v w)) [
  | inr e ↦ rw (e, ha, hb)
  | inl e ↦
      let texts : v ≡ w = (same_text_iff v w).0 e in
      let same : a ≡ b = some_inj (sym ha ∙ ap (parse_semver malloc) texts ∙ hb) in
      rw e (sym (compare_semver-IsOrder.self b) ∙ ap (λ x. compare_semver x b) (sym same))
]
