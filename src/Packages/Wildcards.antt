-- ===== src/Packages/Wildcards.antt =====
-- The constraints with an x of `ember_package_version_satisfies` of src/runtime/package/package.c.
use ember_core.Common.{
  ℕ, zero, suc, ◌+◌, ◌/◌, ◌%◌, ◌≡◌, refl, sym, ap, ◌∙◌, inl, inr, Bool, true, false, ◌&&◌, ◌||◌,
  none, some, List, [], ◌∷◌, arith, ltb, ◌==◌, Bool-cases, codes, length, if◌then◌else◌, contains,
  same_text, same_text_iff, some_inj,
}
use ember_core.Packages.Reading.{
  digits, print_int, parse_parts, digits-head, read_int-print_int, cut_at-print_int,
}
use ember_core.Packages.Satisfies.{
  ember_package_version_satisfies, constraint_holds, wildcard_satisfies, without_dot,
}
use ember_core.Packages.Versions.{
  Semver, cut_at, is_digit, latest, read_int, read_dot_int, scan_version, parse_semver,
}

contains-digits :
    (c fuel n : ℕ) (text : List ℕ) → contains c text ≡ true → contains c (digits fuel n text) ≡ true
unfolding digits
contains-digits c zero n text h = h
contains-digits c (suc fuel) n text h = elim (Bool-cases (ltb n 10)) [
  | inl e ↦ rw e (ground (arith, h))
  | inr e ↦ rw e (contains-digits c fuel (n / 10) ((48 + n % 10) ∷ text) (ground (arith, h)))
]

without_dot-digits :
    (fuel n : ℕ) (c : ℕ) (text : List ℕ)
    → without_dot (digits fuel n (c ∷ text)) ≡ digits fuel n (without_dot (c ∷ text))
unfolding digits
without_dot-digits zero n c text = refl
without_dot-digits (suc fuel) n c text = elim (Bool-cases (ltb n 10)) [
  | inl e ↦ rw e
  | inr e ↦ rw (e, without_dot-digits fuel (n / 10) (48 + n % 10) (c ∷ text))
]

-- A text that starts with a digit is not one that starts with another character.
digit_start :
    (c w : ℕ) (cs ws : List ℕ)
    → is_digit c ≡ true
    → is_digit w ≡ false
    → same_text (c ∷ cs) (w ∷ ws) ≡ false
unfolding same_text
digit_start c w cs ws h g = let other : c == w ≡ false = ground arith in rw other

pub print_int-other :
    (n w : ℕ) (rest ws : List ℕ)
    → is_digit w ≡ false
    → same_text (print_int n rest) (w ∷ ws) ≡ false
unfolding print_int
print_int-other n w rest ws g =
    let (c, cs, d, e) = digits-head (suc n) n rest (omega arith) in
    ap (λ t. same_text t (w ∷ ws)) e ∙ digit_start c w cs ws d g

abbrev pub major_only : ℕ → Semver
major_only n = record { major = n; minor = 0; patch = 0; pre_release = []; build_metadata = [] }

-- A version of one number, with what follows it.
parse_major :
    (malloc : ℕ → Bool) (n : ℕ) (rest : List ℕ)
    → ((k : ℕ) → malloc k ≡ true)
    → cut_at 43 rest ≡ (rest, [])
    → cut_at 45 rest ≡ (rest, [])
    → read_int (print_int n rest) ≡ some (n, rest)
    → read_dot_int rest ≡ none
    → parse_semver malloc (print_int n rest) ≡ some (major_only n)
unfolding scan_version
parse_major malloc n rest granted plus dash first second =
    parse_parts malloc (print_int n rest) (print_int n rest) (print_int n rest) [] [] n 0 0
      (print_int-other n 108 rest (codes "atest") refl) (granted (length (print_int n rest) + 1))
      (cut_at-print_int 43 n rest refl ∙ rw plus) (cut_at-print_int 45 n rest refl ∙ rw dash)
      scanned
  where
    scanned : scan_version (print_int n rest) ≡ some (n, 0, 0)
    scanned = rw (scan_version, first, second)

wildcard_read :
    (malloc : ℕ → Bool) (text : List ℕ) (a b : Semver)
    → ((k : ℕ) → malloc k ≡ true)
    → contains 120 text ≡ true
    → parse_semver malloc (without_dot (cut_at 120 text).0) ≡ some b
    → wildcard_satisfies malloc a text ≡ (a.major == b.major && a.minor == b.minor)
unfolding wildcard_satisfies
wildcard_read malloc text a b granted marked read = rw (marked, granted (length text + 1), read)

wildcard_route :
    (malloc : ℕ → Bool) (v : List ℕ) (c : ℕ) (cs : List ℕ) (a : Semver)
    → is_digit c ≡ true
    → contains 120 (c ∷ cs) ≡ true
    → same_text v (c ∷ cs) ≡ false
    → parse_semver malloc v ≡ some a
    → ember_package_version_satisfies malloc v (c ∷ cs) ≡ wildcard_satisfies malloc a (c ∷ cs)
unfolding ember_package_version_satisfies constraint_holds
wildcard_route malloc v c cs a digit marked other read_v =
    let star = digit_start c 42 cs [] digit refl in
    let newest = digit_start c 108 cs (codes "atest") digit refl in
    let caret : c == 94 ≡ false = ground arith in
    let tilde : c == 126 ≡ false = ground arith in
    let more : c == 62 ≡ false = ground arith in
    let less : c == 60 ≡ false = ground arith in
    let mark : c == 120 ≡ false = ground arith in
    let later : contains 120 cs ≡ true = ground arith in
    rw (star, newest, other, read_v, caret, tilde, more, less, mark, later)

-- The constraint n.x.
abbrev pub any_of : ℕ → List ℕ
any_of n = print_int n (46 ∷ 120 ∷ [])

parse_any :
    (malloc : ℕ → Bool) (n : ℕ)
    → ((k : ℕ) → malloc k ≡ true)
    → (parse_semver malloc (any_of n) ≡ some (major_only n))
      × (parse_semver malloc (without_dot (cut_at 120 (any_of n)).0) ≡ some (major_only n))
unfolding cut_at read_dot_int read_int print_int
parse_any malloc n granted = (
  parse_major malloc n (46 ∷ 120 ∷ []) granted refl refl (read_int-print_int n (46 ∷ 120 ∷ []) refl)
      refl,
  ap (λ r. parse_semver malloc (without_dot r.0)) (cut_at-print_int 120 n (46 ∷ 120 ∷ []) refl)
      ∙ ap (λ t. parse_semver malloc t) (without_dot-digits (suc n) n 46 [])
      ∙ parse_major malloc n [] granted refl refl (read_int-print_int n [] tt) refl,
)

if_same : (b : Bool) → (if b then true else true) ≡ true
if_same true = refl
if_same false = refl

-- The same text satisfies it.
same_version :
    (malloc : ℕ → Bool) (n : ℕ) (v : List ℕ) (a : Semver)
    → a ≡ major_only n
    → same_text v (any_of n) ≡ true
    → ember_package_version_satisfies malloc v (any_of n) ≡ (a.major == n && a.minor == 0)
unfolding ember_package_version_satisfies
same_version malloc n v a e f =
    let own : n == n ≡ true = ground arith in
    rw (e, f, own) (if_same (same_text (any_of n) (codes "*") || same_text (any_of n) latest))

any_of-digit : (n : ℕ) → (c : ℕ) × (cs : List ℕ) × (is_digit c ≡ true) × (any_of n ≡ c ∷ cs)
unfolding print_int
any_of-digit n = digits-head (suc n) n (46 ∷ 120 ∷ []) (omega arith)

any_of-contains : (n : ℕ) → contains 120 (any_of n) ≡ true
unfolding print_int
any_of-contains n = contains-digits 120 (suc n) n (46 ∷ 120 ∷ []) refl

-- With memory granted, a version that is read satisfies the constraint n.x exactly where its major
-- number is n and its minor number is 0.
pub wildcard_lem :
    (malloc : ℕ → Bool) (n : ℕ) (v : List ℕ) (a : Semver)
    → ((k : ℕ) → malloc k ≡ true)
    → parse_semver malloc v ≡ some a
    → ember_package_version_satisfies malloc v (any_of n) ≡ (a.major == n && a.minor == 0)
wildcard_lem malloc n v a granted read_v =
    let (own, prefix) = parse_any malloc n granted in
    let (c, cs, digit, e) = any_of-digit n in
    elim (Bool-cases (same_text v (any_of n))) [
      | inl f ↦
          let texts : v ≡ any_of n = (same_text_iff v (any_of n)).0 f in
          let same : a ≡ major_only n =
            some_inj (sym read_v ∙ ap (parse_semver malloc) texts ∙ own) in
          same_version malloc n v a same f
      | inr f ↦
          ap (ember_package_version_satisfies malloc v) e
          ∙ wildcard_route malloc v c cs a digit (ap (contains 120) (sym e) ∙ any_of-contains n)
              (ap (same_text v) (sym e) ∙ f) read_v
          ∙ ap (wildcard_satisfies malloc a) (sym e)
          ∙ wildcard_read malloc (any_of n) a (major_only n) granted (any_of-contains n) prefix
    ]
