-- ===== src/Packages/Satisfies.antt =====
-- `ember_package_version_satisfies` of src/runtime/package/package.c: the kinds of constraint.
use Prim.Native.Nat.{Ordering}
use ember_core.Common.{
  ℕ, zero, suc, ◌+◌, Bool, true, false, ◌&&◌, ◌||◌, Option, none, some, List, [], ◌∷◌, ltb, leb,
  ◌==◌, length, contains, codes, if◌then◌else◌, same_text,
}
use ember_core.Packages.Versions.{
  Semver, cut_at, latest, parse_semver, ember_package_version_compare,
}

-- a character of the first places of a text, 0 at its end
abbrev pub char_at : ℕ → List ℕ → ℕ
char_at i [] = 0
char_at zero (c ∷ cs) = c
char_at (suc i) (c ∷ cs) = char_at i cs

-- a pointer moved on inside a text
abbrev pub from : ℕ → List ℕ → List ℕ
from zero cs = cs
from (suc i) [] = []
from (suc i) (c ∷ cs) = from i cs

-- a trailing '.' is removed
abbrev pub without_dot : List ℕ → List ℕ
without_dot [] = []
without_dot (c ∷ []) = if c == 46 then [] else c ∷ []
without_dot (c ∷ d ∷ cs) = c ∷ without_dot (d ∷ cs)

abbrev pub caret_holds : Semver → Semver → Bool
caret_holds ver cons =
    ver.major == cons.major
    && (ltb cons.minor ver.minor || (ver.minor == cons.minor && leb cons.patch ver.patch))

abbrev pub tilde_holds : Semver → Semver → Bool
tilde_holds ver cons =
    ver.major == cons.major && ver.minor == cons.minor && leb cons.patch ver.patch

-- the numbers of a semver_t are never negative, so the tests `cons.major >= 0` hold
abbrev pub wildcard_holds : Semver → Semver → Bool
wildcard_holds ver cons = ver.major == cons.major && ver.minor == cons.minor

abbrev pub exactly : Semver → Semver → Bool
exactly ver cons = ver.major == cons.major && ver.minor == cons.minor && ver.patch == cons.patch

abbrev pub at_least : Ordering → Bool
at_least Ordering.lt = false
at_least _ = true

abbrev pub at_most : Ordering → Bool
at_most Ordering.gt = false
at_most _ = true

abbrev pub above : Ordering → Bool
above Ordering.gt = true
above _ = false

abbrev pub below : Ordering → Bool
below Ordering.lt = true
below _ = false

-- a test on a constraint that has to be read
abbrev pub when_read : Option Semver → (Semver → Bool) → Bool
when_read none test = false
when_read (some cons) test = test cons

module _ (malloc : ℕ → Bool) where
  -- the constraint with an x or X in it
  unfoldable pub wildcard_satisfies : Semver → List ℕ → Bool
  unfolding cut_at parse_semver
  wildcard_satisfies ver constraint =
      let mark = if contains 120 constraint then 120 else 88 in
      malloc (length constraint + 1)
      && when_read (parse_semver malloc (without_dot (cut_at mark constraint).0))
          (wildcard_holds ver)

  -- a version that is read, on the kinds of constraint in turn
  unfoldable pub constraint_holds : List ℕ → List ℕ → Semver → Bool
  unfolding parse_semver ember_package_version_compare wildcard_satisfies
  constraint_holds version constraint ver =
      let first = char_at 0 constraint in
      let second = char_at 1 constraint in
      let after1 = from 1 constraint in
      let after2 = from 2 constraint in
      if first == 94
      then when_read (parse_semver malloc after1) (caret_holds ver)
      else if first == 126
      then when_read (parse_semver malloc after1) (tilde_holds ver)
      else if first == 62 && second == 61
      then when_read (parse_semver malloc after2)
          (λ c. at_least (ember_package_version_compare malloc version after2))
      else if first == 60 && second == 61
      then when_read (parse_semver malloc after2)
          (λ c. at_most (ember_package_version_compare malloc version after2))
      else if first == 62
      then when_read (parse_semver malloc after1)
          (λ c. above (ember_package_version_compare malloc version after1))
      else if first == 60
      then when_read (parse_semver malloc after1)
          (λ c. below (ember_package_version_compare malloc version after1))
      else if contains 120 constraint || contains 88 constraint
      then wildcard_satisfies ver constraint
      else when_read (parse_semver malloc constraint) (exactly ver)

  unfoldable pub ember_package_version_satisfies : List ℕ → List ℕ → Bool
  unfolding parse_semver constraint_holds
  ember_package_version_satisfies version constraint =
      if same_text constraint (codes "*") || same_text constraint latest
      then true
      else if same_text version constraint
      then true
      else when_read (parse_semver malloc version) (constraint_holds version constraint)
