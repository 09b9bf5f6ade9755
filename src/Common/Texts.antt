-- ===== src/Common/Texts.antt =====
-- Texts of a C program: lists of character codes up to the NUL.
use Prim.Native.Nat.{ℕ}
use ember_core.Common.Tests.{◌==◌, if◌then◌else◌}
use mathlib.Core.Bool.{Bool, true, false, ◌&&◌, ◌||◌}
use mathlib.Core.List.{List, [], ◌∷◌, ◌++◌}
use mathlib.Core.Logic.{◌↔◌}
use mathlib.Core.Option.{Option, none, some}
use mathlib.Core.Path.{◌≡◌, refl}
use native.Mathlib.Omega.{arith}

-- `strcmp` answers 0
unfoldable pub same_text : List ℕ → List ℕ → Bool
same_text [] [] = true
same_text (x ∷ xs) (y ∷ ys) = x == y && same_text xs ys
same_text _ _ = false

pub same_text_iff : (a b : List ℕ) → (same_text a b ≡ true) ↔ (a ≡ b)
unfolding same_text
same_text_iff [] [] = ground arith
same_text_iff [] (y ∷ ys) = ground arith
same_text_iff (x ∷ xs) [] = ground arith
same_text_iff (x ∷ xs) (y ∷ ys) = ground (arith, same_text_iff xs ys)

pub same_text_refl : (a : List ℕ) → same_text a a ≡ true
same_text_refl a = (same_text_iff a a).1 refl

-- `strchr` finds the character
abbrev pub contains : ℕ → List ℕ → Bool
contains c [] = false
contains c (d ∷ cs) = d == c || contains c cs

-- What follows a prefix, by `strncmp` with its length.
unfoldable pub after_prefix : List ℕ → List ℕ → Option (List ℕ)
after_prefix [] cs = some cs
after_prefix (p ∷ ps) [] = none
after_prefix (p ∷ ps) (c ∷ cs) = let rest = after_prefix ps cs in if p == c then rest else none

pub after_prefix-append : (p cs rest : List ℕ) → after_prefix p cs ≡ some rest → cs ≡ p ++ rest
unfolding after_prefix
after_prefix-append [] cs rest h = cc
after_prefix-append (p ∷ ps) [] rest h = cc
after_prefix-append (p ∷ ps) (c ∷ cs) rest h = ground (arith, after_prefix-append ps cs rest)

pub after_prefix_self : (p rest : List ℕ) → after_prefix p (p ++ rest) ≡ some rest
unfolding after_prefix
after_prefix_self [] rest = refl
after_prefix_self (p ∷ ps) rest = ground (arith, after_prefix_self ps rest)
