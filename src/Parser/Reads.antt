-- ===== src/Parser/Reads.antt =====
-- `parse_precedence` of src/frontend/parser/expressions.c on the tokens of an expression.
use ember_core.Common.{
  ℕ, zero, suc, ◌+◌, ◌≤◌, ◌<◌, ◌≡◌, refl, ap, ◌∙◌, Bool, true, false, Option, none, some, List, ◌∷◌,
  arith, leb,
}
use ember_core.Lexer.{Token, TokenType}
use ember_core.Parser.{Front, Result, done, ◌>>=◌, Constant}
use ember_core.Parser.Expressions.{
  run_prefix, run_infix, infix_step, goes_on, infix_loop, prefix_step, parse_precedence,
}
use ember_core.Parser.Laws.{IsFront, Shows}
use ember_core.Parser.Rules.{Prefix, Infix, ParseRule, rule, get_rule}

-- The level of a token, where the table has one.
abbrev pub prec_of : Option ParseRule → Option ℕ
prec_of none = none
prec_of (some r) = some r.prec

-- The token does not go on with a name before it.
unfoldable pub ends_name : TokenType → Bool
ends_name TokenType.token_equal = false
ends_name TokenType.token_plus_equal = false
ends_name TokenType.token_minus_equal = false
ends_name TokenType.token_multiply_equal = false
ends_name TokenType.token_divide_equal = false
ends_name TokenType.token_plus_plus = false
ends_name TokenType.token_minus_minus = false
ends_name TokenType.token_lparen = false
ends_name _ = true

-- What stands after an expression written at a level: a token that binds no more than the level.
pub record Follows {D : Type 0} (q : ℕ) (rest : List (Token D)) : Type 0 where
  pub token : Token D
  pub others : List (Token D)
  pub is_next : rest ≡ token ∷ others
  pub prec : ℕ
  pub has_prec : prec_of (get_rule token.type) ≡ some prec
  pub within : prec ≤ q
  pub infix_at_most : prec ≤ 7
  pub no_name : ends_name token.type ≡ true

module _ {S D : Type 0} {f : Front S D} (laws : IsFront f) where
  -- with enough fuel
  abbrev pub Parses : ℕ → S → S → Type 0
  Parses prec s s' = (n : ℕ) × ((m : ℕ) → n ≤ m → parse_precedence f m prec s ≡ done s')

  abbrev pub Loops : ℕ → S → S → Type 0
  Loops prec s s' =
      (n : ℕ) × ((a b : ℕ) → n ≤ a → n ≤ b → infix_loop f (parse_precedence f a) b prec s ≡ done s')

  -- The loop stops at a token that binds less.
  pub Loops-stop :
      (prec q : ℕ) (rest : List (Token D)) (s : S) (c : List ℕ) (k : List (Constant D))
      → Shows laws s rest c k
      → (h : Follows q rest) → h.prec < prec
      → Loops prec s s
  unfolding infix_loop
  Loops-stop prec q rest s c k shows h less = (1, stops)
    where
      head : f.current s ≡ h.token
      head = laws.current_head s h.token h.others (shows.tokens ∙ h.is_next)

      found : (o : Option ParseRule) → prec_of o ≡ some h.prec → goes_on prec o ≡ some false
      found none e = cc
      found (some r) e =
          let same : r.prec ≡ h.prec = cc in
          let below : leb prec r.prec ≡ false = ground arith in ap (λ b. some b) below

      stops : (a b : ℕ) → 1 ≤ a → 1 ≤ b → infix_loop f (parse_precedence f a) b prec s ≡ done s
      stops a zero x y = ground arith
      stops a (suc b) x y =
          let e =
            found (get_rule (f.current s).type)
              (ap (λ t. prec_of (get_rule t.type)) head ∙ h.has_prec) in
          rw (e, infix_loop) refl

  -- A function of the table, with enough fuel.
  abbrev pub Runs : ((ℕ → S → Result S) → ℕ → Result S) → S → Type 0
  Runs step s' = (n : ℕ) × ((a b : ℕ) → n ≤ a → n ≤ b → step (parse_precedence f a) b ≡ done s')

  -- After the function of the first token, the loop goes on.
  pub Parses_prefix :
      (prec : ℕ) (s s1 s' : S) (p : Prefix) (i : Option Infix) (n : ℕ)
      → get_rule (f.previous (f.advance_parser s)).type ≡ rule (some p) i n
      → Runs (λ parse b. run_prefix f parse b p (f.advance_parser s)) s1
      → Loops prec s1 s'
      → Parses prec s s'
  unfolding parse_precedence prefix_step
  Parses_prefix prec s s1 s' p i n e (x, runs) (y, loops) = (suc (x + y), enough)
    where
      enough : (m : ℕ) → suc (x + y) ≤ m → parse_precedence f m prec s ≡ done s'
      enough zero h = ground arith
      enough (suc m) h =
          ap (λ r. prefix_step f (parse_precedence f m) m prec r (f.advance_parser s)) e
          ∙ ap (λ r. r >>= infix_loop f (parse_precedence f m) m prec)
              (runs m m (omega arith) (omega arith))
          ∙ loops m m (omega arith) (omega arith)

  -- One round of the loop.
  pub Loops-infix :
      (prec : ℕ) (s s1 s' : S) (i : Infix) (p : Option Prefix) (n : ℕ)
      → get_rule (f.current s).type ≡ rule p (some i) n
      → prec ≤ n
      → get_rule (f.previous (f.advance_parser s)).type ≡ rule p (some i) n
      → Runs (λ parse b. run_infix f parse b i (f.advance_parser s)) s1
      → Loops prec s1 s'
      → Loops prec s s'
  unfolding infix_loop infix_step
  Loops-infix prec s s1 s' i p n at_head above e (x, runs) (y, loops) = (suc (x + y), enough)
    where
      enough :
          (a b : ℕ)
          → suc (x + y) ≤ a
          → suc (x + y) ≤ b
          → infix_loop f (parse_precedence f a) b prec s ≡ done s'
      enough a zero g h = ground arith
      enough a (suc b) g h =
          let more : leb prec n ≡ true = ground arith in
          let goes : goes_on prec (get_rule (f.current s).type) ≡ some true =
            ap (goes_on prec) at_head ∙ ap (λ b. some b) more in
          rw (goes, infix_loop)
            (ap
                (λ r.
                  infix_step f (parse_precedence f a) b r (f.advance_parser s)
                  >>= infix_loop f (parse_precedence f a) b prec)
                e
              ∙ ap (λ r. r >>= infix_loop f (parse_precedence f a) b prec)
                  (runs a b (omega arith) (omega arith))
              ∙ loops a b (omega arith) (omega arith))
