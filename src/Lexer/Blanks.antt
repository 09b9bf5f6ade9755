-- ===== src/Lexer/Blanks.antt =====
-- `skip_whitespace` of src/frontend/lexer/lexer.c.
use ember_core.Common.{
  ℕ, zero, suc, ◌+◌, ◌≤◌, ◌<◌, ◌⊎◌, length-append, Bool, false, ◌&&◌, ◌||◌, some, List, [], ◌∷◌,
  ◌++◌, length, ◌==◌, ◌≡◌, refl, ap, sym, ◌∙◌, inl, inr, arith, Bool-cases, append_assoc,
}
use ember_core.Lexer.Scan.{skip_line, skip_within, skip_whitespace}
use ember_core.Lexer.{peek_char, peek_next_char}

-- The text is what was passed, followed by the rest.
abbrev pub Passed : List ℕ → List ℕ → Type 0
Passed cs rest = (w : List ℕ) × (cs ≡ w ++ rest)

pub Passed-transb : {a b c : List ℕ} → Passed a b → Passed b c → Passed a c
Passed-transb {c} (v, e) (w, f) = (v ++ w, e ∙ ap (λ x. v ++ x) f ∙ sym (append_assoc v w c))

skip_line-Passed : (cs : List ℕ) → Passed cs (skip_line cs)
unfolding skip_line
skip_line-Passed [] = ([], refl)
skip_line-Passed (c ∷ cs) = elim (Bool-cases (c == 10)) [
  | inl e ↦ rw (e, skip_line) ([], refl)
  | inr e ↦ let (w, f) = skip_line-Passed cs in rw (e, skip_line) (c ∷ w, ap (λ x. c ∷ x) f)
]

-- what starts a blank or a comment
abbrev pub starts_blank : List ℕ → Bool
starts_blank cs =
    (peek_char cs == 32 || peek_char cs == 13 || peek_char cs == 9)
    || peek_char cs == 35
    || (peek_char cs == 47 && peek_next_char cs == 47)

Passed-length : {cs rest : List ℕ} → Passed cs rest → length rest ≤ length cs
Passed-length {rest} (w, e) = omega (arith, ap length e, length-append w rest)

-- One round: either no blank starts here, or the loop goes on from a later place.
skip_step :
    (cs : List ℕ)
    → ((starts_blank cs ≡ false) × ((fuel : ℕ) → skip_within (suc fuel) cs ≡ some cs))
      ⊎ ((d : List ℕ) × ((fuel : ℕ) → skip_within (suc fuel) cs ≡ skip_within fuel d)
          × Passed cs d
          × (length d < length cs))
unfolding skip_within
skip_step [] = inl (refl, λ fuel. refl)
skip_step (c ∷ cs) = elim (Bool-cases (c == 32 || c == 13 || c == 9)) [
  | inl e ↦ inr (cs, λ fuel. rw e, (c ∷ [], refl), omega arith)
  | inr e ↦ elim (Bool-cases (c == 35)) [
    | inl f ↦
        let hash : (c == 10) ≡ false = ground arith in
        let d = skip_line-Passed cs in
        inr (
          skip_line cs,
          λ fuel. rw (e, f) (ap (skip_within fuel) (unfold skip_line in rw hash)),
          Passed-transb (c ∷ [], refl) d,
          omega (arith, Passed-length d),
        )
    | inr f ↦ after_slash c cs e f
  ]
]
  where
    after_slash :
        (c : ℕ) (cs : List ℕ)
        → (c == 32 || c == 13 || c == 9) ≡ false
        → (c == 35) ≡ false
        → ((starts_blank (c ∷ cs) ≡ false)
            × ((fuel : ℕ) → skip_within (suc fuel) (c ∷ cs) ≡ some (c ∷ cs)))
          ⊎ ((d : List ℕ) × ((fuel : ℕ) → skip_within (suc fuel) (c ∷ cs) ≡ skip_within fuel d)
              × Passed (c ∷ cs) d
              × (length d < length (c ∷ cs)))
    after_slash c [] e f =
        let off : (c == 47 && false) ≡ false = ground arith in
        inl (rw (e, f, off) refl, λ fuel. rw (e, f, off) refl)
    after_slash c (s ∷ cs) e f = elim (Bool-cases (c == 47 && s == 47)) [
      | inl g ↦
          let d = skip_line-Passed cs in
          inr (
            skip_line cs,
            λ fuel. rw (e, f, g) refl,
            Passed-transb (c ∷ s ∷ [], refl) d,
            omega (arith, Passed-length d),
          )
      | inr g ↦ inl (rw (e, f, g), λ fuel. rw (e, f, g))
    ]

-- With as much fuel as characters, the loop ends after blanks alone, and no blank is left.
skip_within-found :
    (fuel : ℕ) (cs : List ℕ)
    → length cs ≤ fuel
    → (rest : List ℕ) × (skip_within fuel cs ≡ some rest)
      × Passed cs rest
      × (starts_blank rest ≡ false)
skip_within-found zero [] h = ([], unfold skip_within in refl, ([], refl), refl)
skip_within-found zero (c ∷ cs) h = absurd (omega arith)
skip_within-found (suc fuel) cs h = elim (skip_step cs) [
  | inl (e, f) ↦ (cs, f fuel, ([], refl), e)
  | inr (d, e, p, lt) ↦
      let (rest, found, passed, clear) = skip_within-found fuel d (omega arith) in
      (rest, e fuel ∙ found, Passed-transb p passed, clear)
]

skip_within_nil : (fuel : ℕ) → skip_within fuel [] ≡ some []
unfolding skip_within
skip_within_nil zero = refl
skip_within_nil (suc fuel) = refl

skip_within_agree :
    (a b : ℕ) (cs : List ℕ) → length cs ≤ a → length cs ≤ b → skip_within a cs ≡ skip_within b cs
skip_within_agree a b [] ha hb = skip_within_nil a ∙ sym (skip_within_nil b)
skip_within_agree zero b (c ∷ cs) ha hb = absurd (omega arith)
skip_within_agree a zero (c ∷ cs) ha hb = absurd (omega arith)
skip_within_agree (suc a) (suc b) (c ∷ cs) ha hb = elim (skip_step (c ∷ cs)) [
  | inl (e, f) ↦ f a ∙ sym (f b)
  | inr (d, e, p, lt) ↦ e a ∙ skip_within_agree a b d (omega arith) (omega arith) ∙ sym (e b)
]

-- `skip_whitespace` passes the NUL nowhere and leaves an end of the source that starts with no
-- blank, tab, carriage return, `#` or `//`, and the length of the source is fuel enough: any more
-- gives the same.
pub skip_whitespace_lem :
    (cs : List ℕ)
    → (rest : List ℕ) × (skip_whitespace cs ≡ some rest)
      × Passed cs rest
      × (starts_blank rest ≡ false)
      × ((more : ℕ) → skip_within (length cs + more) cs ≡ some rest)
unfolding skip_whitespace
skip_whitespace_lem cs =
    let (rest, found, passed, clear) = skip_within-found (length cs) cs (omega arith) in
    (
      rest,
      found,
      passed,
      clear,
      λ more.
          skip_within_agree (length cs + more) (length cs) cs (omega arith) (omega arith) ∙ found,
    )
