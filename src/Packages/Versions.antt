-- ===== src/Packages/Versions.antt =====
-- `semver_t`, `parse_semver`, `ember_package_version_compare` and `ember_package_version_satisfies` of
-- src/runtime/package/package.c. `malloc` is a parameter. An `int` result is its sign. `%d` of `sscanf`
-- reads a number of any size: one above INT_MAX is undefined in C.
use Prim.Native.Nat.{Ordering}
use ember_core.Common.{
  ℕ, ◌+◌, ◌-◌, ◌*◌, Bool, not, ◌&&◌, ◌||◌, Option, none, some, List, [], ◌∷◌, ltb, leb, ◌==◌,
  length, take, codes, if◌then◌else◌, same_text,
}

pub record Semver : Type 0 where
  pub major : ℕ
  pub minor : ℕ
  pub patch : ℕ
  pub pre_release : List ℕ
  pub build_metadata : List ℕ

-- `strchr` with a NUL written over the character: what is before it, and what is after it or nothing
unfoldable pub cut_at : ℕ → List ℕ → List ℕ × List ℕ
cut_at c [] = ([], [])
cut_at c (d ∷ cs) =
    let (before, after) = cut_at c cs in if d == c then ([], cs) else (d ∷ before, after)

abbrev pub is_digit : ℕ → Bool
is_digit c = leb 48 c && leb c 57

-- `isspace` of the C locale
abbrev pub is_space : ℕ → Bool
is_space c = c == 32 || (leb 9 c && leb c 13)

-- the digits of `%d`, with the value of those read
unfoldable pub read_digits : ℕ → List ℕ → ℕ × List ℕ
read_digits n [] = (n, [])
read_digits n (c ∷ cs) =
    let rest = read_digits (n * 10 + (c - 48)) cs in if is_digit c then rest else (n, c ∷ cs)

-- `%d`: the number and what follows it, or no match. The text has no sign: it is cut at + and -.
unfoldable pub read_int : List ℕ → Option (ℕ × List ℕ)
unfolding read_digits
read_int [] = none
read_int (c ∷ cs) =
    let rest = read_int cs in
    if is_space c then rest else if is_digit c then some (read_digits 0 (c ∷ cs)) else none

-- a literal '.' and `%d`
unfoldable pub read_dot_int : List ℕ → Option (ℕ × List ℕ)
unfolding read_int
read_dot_int [] = none
read_dot_int (c ∷ cs) = if c == 46 then read_int cs else none

-- sscanf(text, "%d.%d.%d", ...) on fields that are 0; `none` where it assigns nothing
unfoldable pub scan_version : List ℕ → Option (ℕ × ℕ × ℕ)
unfolding read_int read_dot_int
scan_version text = elim (read_int text) [
  | none ↦ none
  | some (major, rest) ↦ elim (read_dot_int rest) [
    | none ↦ some (major, 0, 0)
    | some (minor, rest') ↦ elim (read_dot_int rest') [
      | none ↦ some (major, minor, 0)
      | some (patch, _) ↦ some (major, minor, patch)
    ]
  ]
]

abbrev pub latest : List ℕ
latest = codes "latest"

-- the fields of 32 bytes keep 31 characters
abbrev pub field : List ℕ → List ℕ
field text = take 31 text

-- from the numbers read
unfoldable pub make_semver : List ℕ → List ℕ → Option (ℕ × ℕ × ℕ) → Option Semver
make_semver pre build none = none
make_semver pre build (some (major, minor, patch)) = some (record {
  major = major;
  minor = minor;
  patch = patch;
  pre_release = field pre;
  build_metadata = field build;
})

-- `a > b ? 1 : -1` where the numbers differ
abbrev pub order_of : ℕ → ℕ → Ordering
order_of a b = if a == b then Ordering.eq else if ltb b a then Ordering.gt else Ordering.lt

-- the first answer that is not 0
abbrev pub first_of : Ordering → Ordering → Ordering
first_of Ordering.eq o = o
first_of Ordering.lt o = Ordering.lt
first_of Ordering.gt o = Ordering.gt

-- the sign of `strcmp`
unfoldable pub strcmp : List ℕ → List ℕ → Ordering
strcmp [] [] = Ordering.eq
strcmp [] (y ∷ ys) = Ordering.lt
strcmp (x ∷ xs) [] = Ordering.gt
strcmp (x ∷ xs) (y ∷ ys) = first_of (order_of x y) (strcmp xs ys)

-- a version without a pre-release is the greater one
unfoldable pub compare_pre_release : List ℕ → List ℕ → Ordering
unfolding strcmp
compare_pre_release [] [] = Ordering.eq
compare_pre_release [] (y ∷ ys) = Ordering.gt
compare_pre_release (x ∷ xs) [] = Ordering.lt
compare_pre_release (x ∷ xs) (y ∷ ys) = strcmp (x ∷ xs) (y ∷ ys)

unfoldable pub compare_semver : Semver → Semver → Ordering
unfolding compare_pre_release
compare_semver a b = first_of (order_of a.major b.major) (
    first_of (order_of a.minor b.minor)
      (first_of (order_of a.patch b.patch) (compare_pre_release a.pre_release b.pre_release)))

-- where both versions are read, or by `strcmp`
unfoldable pub compare_parsed : List ℕ → List ℕ → Option Semver → Option Semver → Ordering
unfolding compare_semver strcmp
compare_parsed v w (some a) (some b) = compare_semver a b
compare_parsed v w _ _ = strcmp v w

module _ (malloc : ℕ → Bool) where
  unfoldable pub parse_semver : List ℕ → Option Semver
  unfolding cut_at scan_version make_semver
  parse_semver text =
      if same_text text latest
      then some
          (record { major = 999; minor = 999; patch = 999; pre_release = []; build_metadata = [] })
      else if not (malloc (length text + 1))
      then none
      else (let (front, build) = cut_at 43 text in
          let (core, pre) = cut_at 45 front in make_semver pre build (scan_version core))

  unfoldable pub ember_package_version_compare : List ℕ → List ℕ → Ordering
  unfolding parse_semver compare_parsed
  ember_package_version_compare v w =
      if same_text v w then Ordering.eq else compare_parsed v w (parse_semver v) (parse_semver w)
