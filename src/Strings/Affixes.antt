-- ===== src/Strings/Affixes.antt =====
-- `ember_native_starts_with` and `ember_native_ends_with` beside concatenation.
use ember_core.Common.{
  ℕ, zero, suc, ◌-◌, ◌≡◌, ◌↔◌, refl, sym, ap, ◌∙◌, Bool, true, false, some, List, [], ◌∷◌, ◌++◌,
  ltb, length, length-append, take, same_text, same_text_iff, same_text_refl, if◌then◌else◌, arith,
}
use ember_core.Strings.{
  Argument, Answer, a_string, truth, drop, ember_native_starts_with, ember_native_ends_with,
}

take-drop : (n : ℕ) (cs : List ℕ) → take n cs ++ drop n cs ≡ cs
take-drop zero cs = refl
take-drop (suc n) [] = refl
take-drop (suc n) (c ∷ cs) = ap (λ x. c ∷ x) (take-drop n cs)

take-append : (p rest : List ℕ) → take (length p) (p ++ rest) ≡ p
take-append [] rest = refl
take-append (c ∷ cs) rest = ap (λ x. c ∷ x) (take-append cs rest)

drop-append : (p rest : List ℕ) → drop (length p) (p ++ rest) ≡ rest
drop-append [] rest = refl
drop-append (c ∷ cs) rest = drop-append cs rest

abbrev says : Answer → Bool
says (truth b) = b
says _ = false

abbrev pub both : List ℕ → List ℕ → List Argument
both s t = a_string (some s) ∷ a_string (some t) ∷ []

tested :
    (long : Bool) (t p : List ℕ)
    → (if long then truth false else truth (same_text t p)) ≡ truth true
    → t ≡ p
tested true t p e = let no : false ≡ true = ap says e in absurd (ground arith)
tested false t p e = (same_text_iff t p).0 (ap says e)

prefix_of :
    (s prefix : List ℕ)
    → ember_native_starts_with (both s prefix) ≡ truth true
    → (rest : List ℕ) × (s ≡ prefix ++ rest)
prefix_of s prefix e =
    let n = length prefix in
    let same = tested (ltb (length s) n) (take n s) prefix e in
    (drop n s, sym (take-drop n s) ∙ ap (λ x. x ++ drop n s) same)

suffix_of :
    (s suffix : List ℕ)
    → ember_native_ends_with (both s suffix) ≡ truth true
    → (front : List ℕ) × (s ≡ front ++ suffix)
suffix_of s suffix e =
    let n = length s - length suffix in
    let same = tested (ltb (length s) (length suffix)) (drop n s) suffix e in
    (take n s, sym (take-drop n s) ∙ ap (λ x. take n s ++ x) same)

has_prefix :
    (prefix rest : List ℕ) → ember_native_starts_with (both (prefix ++ rest) prefix) ≡ truth true
has_prefix prefix rest =
    let fits : ltb (length (prefix ++ rest)) (length prefix) ≡ false =
      ground (arith, length-append prefix rest) in
    rw (fits, take-append prefix rest, same_text_refl prefix) refl

has_suffix :
    (front suffix : List ℕ) → ember_native_ends_with (both (front ++ suffix) suffix) ≡ truth true
has_suffix front suffix =
    let long : length (front ++ suffix) - length suffix ≡ length front =
      omega (arith, length-append front suffix) in
    let fits : ltb (length (front ++ suffix)) (length suffix) ≡ false =
      ground (arith, length-append front suffix) in
    rw (fits, long, drop-append front suffix, same_text_refl suffix) refl

-- On two strings, `ember_native_starts_with` answers true exactly where the first is the second
-- with something after it, and `ember_native_ends_with` exactly where the first is the second with
-- something before it.
pub affixes_lem :
    (s t : List ℕ)
    → ((ember_native_starts_with (both s t) ≡ truth true) ↔ ((rest : List ℕ) × (s ≡ t ++ rest)))
      × ((ember_native_ends_with (both s t) ≡ truth true) ↔ ((front : List ℕ) × (s ≡ front ++ t)))
affixes_lem s t = (
  (prefix_of s t, λ (rest, e). ap (λ x. ember_native_starts_with (both x t)) e ∙ has_prefix t rest),
  (suffix_of s t, λ (front, e). ap (λ x. ember_native_ends_with (both x t)) e ∙ has_suffix front t),
)
