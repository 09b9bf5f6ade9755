-- ===== src/Tests/Releases.antt =====
-- Versions and constraints of packages.
use Prim.Native.Nat.{Ordering}
use ember_core.Common.{ℕ, ◌≡◌, ◌≢◌, ◌↔◌, refl, Bool, true, some, [], ◌∷◌, codes, same_text, arith}
use ember_core.Packages.Constraints.{next_major, caret_lem}
use ember_core.Packages.Reading.{print_semver, parse_semver-print_semver}
use ember_core.Packages.Satisfies.{ember_package_version_satisfies}
use ember_core.Packages.Versions.{Semver, parse_semver, compare_semver}

abbrev granted : ℕ → Bool
granted n = true

abbrev release : ℕ → ℕ → ℕ → Semver
release major minor patch = record {
  major = major;
  minor = minor;
  patch = patch;
  pre_release = [];
  build_metadata = [];
}

parsed : parse_semver granted (codes "1.10.2") ≡ some (release 1 10 2)
unfolding parse_semver same_text
parsed = refl

parsed_minor : parse_semver granted (codes "1.9") ≡ some (release 1 9 0)
unfolding parse_semver same_text
parsed_minor = refl

caret_lem_example :
    (ember_package_version_satisfies granted (codes "1.10.2") (94 ∷ codes "1.9") ≡ true) ↔ (
      (compare_semver (release 1 9 0) (release 1 10 2) ≢ Ordering.gt)
      × (compare_semver (release 1 10 2) (next_major (release 1 9 0)) ≡ Ordering.lt))
caret_lem_example =
    caret_lem granted (codes "1.10.2") (codes "1.9") (release 1 10 2) (release 1 9 0) parsed
      parsed_minor refl refl

abbrev candidate : Semver
candidate = record (release 1 10 2) { pre_release = codes "rc-1"; build_metadata = codes "5+a" }

parse_semver-print_semver_example : parse_semver granted (print_semver candidate) ≡ some candidate
parse_semver-print_semver_example =
    parse_semver-print_semver granted candidate
      (record {
        major_fits = omega arith;
        minor_fits = omega arith;
        patch_fits = omega arith;
        pre_fits = omega arith;
        build_fits = omega arith;
      })
      refl refl
