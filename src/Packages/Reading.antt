-- ===== src/Packages/Reading.antt =====
-- `parse_semver` of src/runtime/package/package.c on a version that is written out.
use ember_core.Common.{
  ℕ, zero, suc, ◌+◌, ◌-◌, ◌*◌, ◌/◌, ◌%◌, ◌≤◌, ◌<◌, ◌≡◌, ◌≢◌, refl, sym, ap, ◌∙◌, inl, inr, Bool,
  true, false, some, List, [], ◌∷◌, ◌++◌, append-nil, arith, ltb, ◌==◌, Bool-cases, length, take,
  if◌then◌else◌, contains, same_text,
}
use ember_core.HashMap.{int_max}
use ember_core.Packages.Versions.{
  Semver, cut_at, is_digit, is_space, read_digits, read_int, read_dot_int, scan_version,
  make_semver, parse_semver, latest, field,
}

-- the digits of a number before a text; as many digits as the number is enough
unfoldable pub digits : ℕ → ℕ → List ℕ → List ℕ
digits zero n text = text
digits (suc fuel) n text =
    let more = digits fuel (n / 10) ((48 + n % 10) ∷ text) in
    if ltb n 10 then (48 + n) ∷ text else more

unfoldable pub print_int : ℕ → List ℕ → List ℕ
print_int n text = digits (suc n) n text

-- a part that is left out where it is empty
abbrev pub part : ℕ → List ℕ → List ℕ
part mark [] = []
part mark (c ∷ cs) = mark ∷ c ∷ cs

unfoldable pub print_semver : Semver → List ℕ
print_semver v = print_int v.major (
    46
    ∷ print_int v.minor
        (46 ∷ print_int v.patch (part 45 v.pre_release ++ part 43 v.build_metadata)))

-- A text that goes on with no digit.
abbrev pub NoDigit : List ℕ → Type 0
NoDigit [] = Unit
NoDigit (c ∷ cs) = is_digit c ≡ false

read_digits-stop : (n : ℕ) (text : List ℕ) → NoDigit text → read_digits n text ≡ (n, text)
unfolding read_digits
read_digits-stop n [] h = refl
read_digits-stop n (c ∷ cs) h = rw h

pub digits-head :
    (fuel n : ℕ) (text : List ℕ)
    → n < fuel
    → (c : ℕ) × (cs : List ℕ) × (is_digit c ≡ true) × (digits fuel n text ≡ c ∷ cs)
unfolding digits
digits-head zero n text h = ground arith
digits-head (suc fuel) n text h = elim (Bool-cases (ltb n 10)) [
  | inl e ↦ (48 + n, text, ground arith, rw e)
  | inr e ↦
      let (c, cs, d, f) = digits-head fuel (n / 10) ((48 + n % 10) ∷ text) (ground arith) in
      (c, cs, d, rw e f)
]

read_digits-digits :
    (fuel n : ℕ) (text : List ℕ)
    → n < fuel
    → read_digits 0 (digits fuel n text) ≡ read_digits n text
unfolding digits read_digits
read_digits-digits zero n text h = ground arith
read_digits-digits (suc fuel) n text h = elim (Bool-cases (ltb n 10)) [
  | inl e ↦
      let d : is_digit (48 + n) ≡ true = ground arith in
      let value : 0 * 10 + (48 + n - 48) ≡ n = omega arith in rw (e, d, value)
  | inr e ↦
      let d : is_digit (48 + n % 10) ≡ true = ground arith in
      let value : n / 10 * 10 + (48 + n % 10 - 48) ≡ n = omega arith in
      rw (e, read_digits-digits fuel (n / 10) ((48 + n % 10) ∷ text) (ground arith), d, value)
]

cut_at-digits :
    (c fuel n : ℕ) (text : List ℕ)
    → is_digit c ≡ false
    → cut_at c (digits fuel n text) ≡ (digits fuel n (cut_at c text).0, (cut_at c text).1)
unfolding digits cut_at
cut_at-digits c zero n text h = refl
cut_at-digits c (suc fuel) n text h = elim (Bool-cases (ltb n 10)) [
  | inl e ↦ let other : 48 + n == c ≡ false = ground arith in rw (e, other)
  | inr e ↦
      let other : 48 + n % 10 == c ≡ false = ground arith in
      rw (e, cut_at-digits c fuel (n / 10) ((48 + n % 10) ∷ text) h, other)
]

read_int_digit :
    (c : ℕ) (cs : List ℕ) → is_digit c ≡ true → read_int (c ∷ cs) ≡ some (read_digits 0 (c ∷ cs))
unfolding read_int
read_int_digit c cs d = let space : is_space c ≡ false = ground arith in rw (space, d)

pub read_int-print_int :
    (n : ℕ) (text : List ℕ) → NoDigit text → read_int (print_int n text) ≡ some (n, text)
unfolding print_int
read_int-print_int n text stop =
    let (c, cs, d, e) = digits-head (suc n) n text (omega arith) in
    ap read_int e
    ∙ read_int_digit c cs d
    ∙ ap (λ t. some (read_digits 0 t)) (sym e)
    ∙ ap (λ r. some r)
        (read_digits-digits (suc n) n text (omega arith) ∙ read_digits-stop n text stop)

read_dot_int-print_int :
    (n : ℕ) (text : List ℕ) → NoDigit text → read_dot_int (46 ∷ print_int n text) ≡ some (n, text)
unfolding read_dot_int
read_dot_int-print_int n text stop = read_int-print_int n text stop

-- The three numbers, and a text after them.
abbrev pub numbers : Semver → List ℕ → List ℕ
numbers v text = print_int v.major (46 ∷ print_int v.minor (46 ∷ print_int v.patch text))

pub scan_version-numbers :
    (v : Semver) → scan_version (numbers v []) ≡ some (v.major, v.minor, v.patch)
unfolding scan_version
scan_version-numbers v = rw (
  scan_version,
  read_int-print_int v.major (46 ∷ print_int v.minor (46 ∷ print_int v.patch [])) refl,
  read_dot_int-print_int v.minor (46 ∷ print_int v.patch []) refl,
  read_dot_int-print_int v.patch [] tt,
)

pub cut_at-print_int :
    (c n : ℕ) (text : List ℕ)
    → is_digit c ≡ false
    → cut_at c (print_int n text) ≡ (print_int n (cut_at c text).0, (cut_at c text).1)
unfolding print_int
cut_at-print_int c n text h = cut_at-digits c (suc n) n text h

cut_at_dot :
    (c : ℕ) (text : List ℕ)
    → c ≢ 46
    → cut_at c (46 ∷ text) ≡ (46 ∷ (cut_at c text).0, (cut_at c text).1)
unfolding cut_at
cut_at_dot c text g = let other : 46 == c ≡ false = ground arith in rw other

cut_at-numbers :
    (c : ℕ) (v : Semver) (text : List ℕ)
    → is_digit c ≡ false
    → c ≢ 46
    → cut_at c (numbers v text) ≡ (numbers v (cut_at c text).0, (cut_at c text).1)
cut_at-numbers c v text h g = rw (
  cut_at-print_int c v.major (46 ∷ print_int v.minor (46 ∷ print_int v.patch text)) h,
  cut_at_dot c (print_int v.minor (46 ∷ print_int v.patch text)) g,
  cut_at-print_int c v.minor (46 ∷ print_int v.patch text) h,
  cut_at_dot c (print_int v.patch text) g,
  cut_at-print_int c v.patch text h,
)

pub cut_at-append :
    (c : ℕ) (xs ys : List ℕ)
    → contains c xs ≡ false
    → cut_at c (xs ++ ys) ≡ (xs ++ (cut_at c ys).0, (cut_at c ys).1)
unfolding cut_at
cut_at-append c [] ys h = refl
cut_at-append c (x ∷ xs) ys h =
    let other : x == c ≡ false = ground arith in
    let later : contains c xs ≡ false = ground arith in rw (cut_at-append c xs ys later, other)

cut_at-part : (c : ℕ) (text : List ℕ) → cut_at c (part c text) ≡ ([], text)
unfolding cut_at
cut_at-part c [] = refl
cut_at-part c (x ∷ xs) = let same : c == c ≡ true = ground arith in rw same

contains-part :
    (c mark : ℕ) (text : List ℕ)
    → mark == c ≡ false
    → contains c text ≡ false
    → contains c (part mark text) ≡ false
contains-part c mark [] other h = refl
contains-part c mark (x ∷ xs) other h = rw (other, h)

take-whole : (n : ℕ) (xs : List ℕ) → length xs ≤ n → take n xs ≡ xs
take-whole zero [] h = refl
take-whole (suc n) [] h = refl
take-whole zero (x ∷ xs) h = ground arith
take-whole (suc n) (x ∷ xs) h = ap (λ ys. x ∷ ys) (take-whole n xs (omega arith))

numbers-latest : (v : Semver) (text : List ℕ) → same_text (numbers v text) latest ≡ false
unfolding print_int same_text
numbers-latest v text =
    let (c, cs, d, e) =
      digits-head (suc v.major) v.major (46 ∷ print_int v.minor (46 ∷ print_int v.patch text))
        (omega arith) in
    let other : c == 108 ≡ false = ground arith in rw (e, other)

-- What is read from the parts of a text.
pub parse_parts :
    (malloc : ℕ → Bool) (text front core pre build : List ℕ) (major minor patch : ℕ)
    → same_text text latest ≡ false
    → malloc (length text + 1) ≡ true
    → cut_at 43 text ≡ (front, build)
    → cut_at 45 front ≡ (core, pre)
    → scan_version core ≡ some (major, minor, patch)
    → parse_semver malloc text
      ≡ some (record {
        major = major;
        minor = minor;
        patch = patch;
        pre_release = field pre;
        build_metadata = field build;
      })
unfolding parse_semver make_semver
parse_parts malloc text front core pre build major minor patch other granted plus dash scanned =
    rw (other, granted, plus, dash, scanned)

-- What a `semver_t` can hold: numbers up to INT_MAX, and 31 characters before the NUL of each field.
pub record IsSemver (v : Semver) : Type 0 where
  pub major_fits : v.major ≤ int_max
  pub minor_fits : v.minor ≤ int_max
  pub patch_fits : v.patch ≤ int_max
  pub pre_fits : length v.pre_release ≤ 31
  pub build_fits : length v.build_metadata ≤ 31

-- With memory granted, `parse_semver` reads back a version that is written out, where its numbers
-- are at most INT_MAX, its pre-release and its build metadata have at most 31 characters, and the
-- pre-release has no plus.
pub parse_semver-print_semver :
    (malloc : ℕ → Bool) (v : Semver)
    → IsSemver v
    → malloc (length (print_semver v) + 1) ≡ true
    → contains 43 v.pre_release ≡ false
    → parse_semver malloc (print_semver v) ≡ some v
unfolding print_semver
parse_semver-print_semver malloc v valid granted plain =
    parse_parts malloc (numbers v (pre ++ part 43 v.build_metadata)) (numbers v (pre ++ []))
      (numbers v []) v.pre_release v.build_metadata v.major v.minor v.patch
      (numbers-latest v (pre ++ part 43 v.build_metadata)) granted plus dash
      (scan_version-numbers v)
    ∙ rw (
      take-whole 31 v.pre_release valid.pre_fits,
      take-whole 31 v.build_metadata valid.build_fits,
    )
  where
    pre : List ℕ
    pre = part 45 v.pre_release

    plus :
        cut_at 43 (numbers v (pre ++ part 43 v.build_metadata))
        ≡ (numbers v (pre ++ []), v.build_metadata)
    plus = rw (
      cut_at-numbers 43 v (pre ++ part 43 v.build_metadata) refl (omega arith),
      cut_at-append 43 pre (part 43 v.build_metadata)
          (contains-part 43 45 v.pre_release refl plain),
      cut_at-part 43 v.build_metadata,
    )

    dash : cut_at 45 (numbers v (pre ++ [])) ≡ (numbers v [], v.pre_release)
    dash = rw (
      cut_at-numbers 45 v (pre ++ []) refl (omega arith),
      append-nil pre,
      cut_at-part 45 v.pre_release,
    )
