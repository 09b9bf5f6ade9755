-- ===== src/Packages/Constraints.antt =====
-- What the constraints of `ember_package_version_satisfies` of src/runtime/package/package.c mean.
use Prim.Native.Nat.{Ordering}
use ember_core.Common.{
  ℕ, ◌+◌, ◌≡◌, ◌≢◌, ◌↔◌, inl, inr, Bool, true, none, some, List, [], ◌∷◌, arith, Bool-cases, length,
  same_text, same_text_iff,
}
use ember_core.Packages.Satisfies.{ember_package_version_satisfies, constraint_holds, caret_holds}
use ember_core.Packages.Versions.{
  Semver, cut_at, read_int, scan_version, make_semver, parse_semver, compare_pre_release,
  compare_semver,
}

-- No version starts with a caret.
caret_unread : (malloc : ℕ → Bool) (c : List ℕ) → parse_semver malloc (94 ∷ c) ≡ none
unfolding parse_semver cut_at scan_version read_int make_semver same_text
caret_unread malloc c = elim (Bool-cases (malloc (length (94 ∷ c) + 1))) [
  | inl e ↦ rw e
  | inr e ↦ rw e
]

-- the first version of the next major number
abbrev pub next_major : Semver → Semver
next_major v = record {
  major = v.major + 1;
  minor = 0;
  patch = 0;
  pre_release = [];
  build_metadata = [];
}

caret_range :
    (a b : Semver)
    → a.pre_release ≡ []
    → b.pre_release ≡ []
    → (caret_holds a b ≡ true)
      ↔ ((compare_semver b a ≢ Ordering.gt) × (compare_semver a (next_major b) ≡ Ordering.lt))
unfolding compare_semver compare_pre_release
caret_range a b pa pb = rw (pa, pb) (ground arith)

-- For a version and a constraint that are read and have no pre-release, the version satisfies the
-- constraint after a caret exactly where it is not below it and is below the first version of the
-- next major number, in the order of `compare_semver`.
pub caret_lem :
    (malloc : ℕ → Bool) (v c : List ℕ) (a b : Semver)
    → parse_semver malloc v ≡ some a
    → parse_semver malloc c ≡ some b
    → a.pre_release ≡ []
    → b.pre_release ≡ []
    → (ember_package_version_satisfies malloc v (94 ∷ c) ≡ true)
      ↔ ((compare_semver b a ≢ Ordering.gt) × (compare_semver a (next_major b) ≡ Ordering.lt))
unfolding ember_package_version_satisfies constraint_holds same_text
caret_lem malloc v c a b ha hb pa pb = elim (Bool-cases (same_text v (94 ∷ c))) [
  | inl e ↦ cc (caret_unread malloc c, ha, (same_text_iff v (94 ∷ c)).0 e)
  | inr e ↦ rw (e, ha, hb) (caret_range a b pa pb)
]
