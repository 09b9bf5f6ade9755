-- ===== src/Lexer/Total.antt =====
-- The reads of `scan_token` at the end of the source.
use ember_core.Common.{
  Option, none, some, ◌&&◌, ◌||◌, ap, ◌∙◌, contains, ℕ, zero, suc, Bool, true, false, List, [], ◌∷◌,
  ◌++◌, ◌==◌, ◌≡◌, refl, inl, inr, arith, Bool-cases, Option-cases, is_some,
}
use ember_core.Lexer.Blanks.{skip_whitespace_lem}
use ember_core.Lexer.Consumed.{All, all_nil, all_cons, switch-All}
use ember_core.Lexer.Scan.{
  Outcome, lexed, failed, newline, past_end, either, finish, operator_cases, unexpected, drop_while,
  then_at, fraction_end, number_end, number_to, number_token, identifier_to, identifier_token,
  string_token, scan_from, scan_at, scan_token,
}
use ember_core.Lexer.Text.{
  Mode, text, opening, braces, quoted, escaped, next_mode, count_line, closes, string_end,
}
use ember_core.Lexer.{TokenType, Lexer, Reader, peek_char, isdigit, isalpha, is_word}

contains_append : (c : ℕ) (w cs : List ℕ) → contains c (w ++ cs) ≡ false → contains c cs ≡ false
contains_append c [] cs h = h
contains_append c (d ∷ w) cs h = contains_append c w cs (ground arith)

is_escaped : Mode → Bool
is_escaped (escaped n) = true
is_escaped _ = false

next_mode_plain :
    (mode : Mode) (c next : ℕ) → (c == 92) ≡ false → is_escaped (next_mode mode c next) ≡ false
unfolding next_mode is_escaped
next_mode_plain text c next h = ground arith
next_mode_plain opening c next h = refl
next_mode_plain (braces zero) c next h = ground arith
next_mode_plain (braces (suc n)) c next h = ground arith
next_mode_plain (quoted n) c next h = ground arith
next_mode_plain (escaped n) c next h = refl

string_end-total :
    (mode : Mode) (line : ℕ) (cs : List ℕ)
    → is_escaped mode ≡ false
    → contains 92 cs ≡ false
    → is_some (string_end mode line cs) ≡ true
unfolding string_end is_escaped
string_end-total text line [] m h = refl
string_end-total opening line [] m h = refl
string_end-total (braces n) line [] m h = refl
string_end-total (quoted n) line [] m h = refl
string_end-total (escaped n) line [] m h = cc
string_end-total mode line (c ∷ cs) m h = elim (Bool-cases (closes mode c)) [
  | inl e ↦ rw (e, string_end)
  | inr e ↦
      let plain : (c == 92) ≡ false = ground arith in
      rw (e, string_end)
        (string_end-total (next_mode mode c (peek_char cs)) (count_line mode c line) cs
          (next_mode_plain mode c (peek_char cs) plain) (ground arith))
]

-- A loop whose test fails on the NUL ends there at the latest.
drop_while-total :
    (test : ℕ → Bool) (cs : List ℕ) → test 0 ≡ false → is_some (drop_while test cs) ≡ true
unfolding drop_while
drop_while-total test [] stops = rw stops refl
drop_while-total test (c ∷ cs) stops = elim (Bool-cases (test c)) [
  | inl e ↦ rw e (drop_while-total test cs stops)
  | inr e ↦ rw e refl
]

fraction_end-total : (whole : List ℕ) → is_some (fraction_end whole) ≡ true
unfolding fraction_end
fraction_end-total [] = refl
fraction_end-total (c ∷ cs) = elim (Bool-cases (c == 46 && isdigit (peek_char cs))) [
  | inl e ↦ rw e (drop_while-total isdigit cs refl)
  | inr e ↦ rw e refl
]

then_at-total :
    (o : Option (List ℕ)) (next : List ℕ → Option (List ℕ))
    → is_some o ≡ true
    → ((cs : List ℕ) → is_some (next cs) ≡ true)
    → is_some (then_at o next) ≡ true
then_at-total none next h k = cc h
then_at-total (some cs) next h k = k cs

number_end-total : (cs : List ℕ) → is_some (number_end cs) ≡ true
unfolding number_end
number_end-total cs =
    then_at-total (drop_while isdigit cs) fraction_end (drop_while-total isdigit cs refl)
      fraction_end-total

-- the pointer is in the source
abbrev InSource : Outcome → Type 0
InSource past_end = ⊥
InSource _ = Unit

-- A character that is not the NUL is looked for, so the pointer is before the NUL where it is passed.
either-InSource :
    (c : ℕ) (t : TokenType) (o : Outcome) (cs : List ℕ)
    → (0 == c) ≡ false
    → InSource o
    → InSource (either c t o cs)
either-InSource c t o [] seen h = rw seen h
either-InSource c t o (d ∷ cs) seen h = elim (Bool-cases (d == c)) [
  | inl e ↦ rw e tt
  | inr e ↦ rw e h
]

operators-InSource : (cs : List ℕ) → All InSource (operator_cases cs)
operators-InSource cs = all_cons tt (
    all_cons tt (
      all_cons tt (
        all_cons tt (
          all_cons tt (
            all_cons tt (
              all_cons tt (
                all_cons (either-InSource _ _ _ cs refl (either-InSource _ _ _ cs refl tt)) (
                  all_cons (either-InSource _ _ _ cs refl (either-InSource _ _ _ cs refl tt)) (
                    all_cons (either-InSource _ _ _ cs refl tt) (
                      all_cons (either-InSource _ _ _ cs refl tt) (
                        all_cons tt (
                          all_cons (either-InSource _ _ _ cs refl tt) (
                            all_cons (either-InSource _ _ _ cs refl tt) (
                              all_cons (either-InSource _ _ _ cs refl tt) (
                                all_cons (either-InSource _ _ _ cs refl tt) (
                                  all_cons tt (
                                    all_cons tt (
                                      all_cons tt (
                                        all_cons tt (
                                          all_cons (either-InSource _ _ _ cs refl tt) (
                                            all_cons (either-InSource _ _ _ cs refl tt)
                                              (all_cons tt (all_nil)))))))))))))))))))))))

module _ (D : Type 0) ⦃reader : Reader D⦄ where
  string_token-total :
      (start : List ℕ) (line : ℕ) (cs : List ℕ)
      → contains 92 cs ≡ false
      → is_some (string_token {D = D} start line cs) ≡ true
  unfolding string_token
  string_token-total start line cs h = elim (Option-cases (string_end text line cs)) [
    | inl e ↦ cc (rw e at (string_end-total text line cs (unfold is_escaped in refl) h))
    | inr ((l, []), e) ↦ rw (e, string_token)
    | inr ((l, quote ∷ rest), e) ↦ rw (e, string_token)
  ]

  number_to-total :
      (start : List ℕ) (line : ℕ) (o : Option (List ℕ))
      → is_some o ≡ true
      → is_some (number_to {D = D} start line o) ≡ true
  number_to-total start line none h = cc h
  number_to-total start line (some rest) h = refl

  identifier_to-total :
      (start : List ℕ) (line : ℕ) (o : Option (List ℕ))
      → is_some o ≡ true
      → is_some (identifier_to {D = D} start line o) ≡ true
  identifier_to-total start line none h = cc h
  identifier_to-total start line (some rest) h = refl

  finish-total :
      (start : List ℕ) (line : ℕ) (o : Outcome)
      → InSource o
      → is_some (finish {D = D} start line o) ≡ true
  finish-total start line (lexed type cs) h = refl
  finish-total start line (failed message cs) h = refl
  finish-total start line (newline cs) h = refl
  finish-total start line past_end h = absurd h

  scan_at-total :
      (line : ℕ) (start : List ℕ)
      → contains 92 start ≡ false
      → is_some (scan_at {D = D} line (some start)) ≡ true
  unfolding scan_from number_token identifier_token
  scan_at-total line [] h = refl
  scan_at-total line (c ∷ cs) h = elim (Bool-cases (isdigit c)) [
    | inl e ↦
        rw (e, scan_from, number_token)
          (number_to-total (c ∷ cs) line (number_end cs) (number_end-total cs))
    | inr e ↦ elim (Bool-cases (isalpha c || c == 95)) [
      | inl f ↦
          rw (e, f, scan_from, identifier_token)
            (identifier_to-total (c ∷ cs) line (drop_while is_word cs)
              (drop_while-total is_word cs refl))
      | inr f ↦ elim (Bool-cases (c == 34)) [
        | inl g ↦ rw (e, f, g, scan_from) (string_token-total (c ∷ cs) line cs (ground (arith, h)))
        | inr g ↦
            rw (e, f, g, scan_from)
              (finish-total (c ∷ cs) line _ (
                switch-All InSource c (operator_cases cs) (failed unexpected cs)
                  (operators-InSource cs) tt))
      ]
    ]
  ]

  -- On a source without a backslash `scan_token` returns a token, and no call of `advance` in it,
  -- neither in the blanks and comments nor in a number, a word, an operator or a string, passes the
  -- NUL.
  pub scan_token-total :
      (sc : Lexer) → contains 92 sc.current ≡ false → is_some (scan_token {D = D} sc) ≡ true
  unfolding scan_token
  scan_token-total sc h =
      let (rest, found, (w, e), _, _) = skip_whitespace_lem sc.current in
      ap (λ o. is_some (scan_at {D = D} sc.line o)) found
      ∙ scan_at-total sc.line rest (contains_append 92 w rest (rw (← e) h))
