-- ===== src/Parser/Postfix.antt =====
-- A rule of src/frontend/parser/expressions.c without an infix function: `infix_rule->infix` is NULL.
use ember_core.Common.{
  ℕ, suc, ◌≤◌, ◌<◌, ◌≡◌, ap, ◌∙◌, true, Option, none, some, List, ◌∷◌, arith, leb, length,
}
use ember_core.Lexer.{Token, TokenType}
use ember_core.Parser.{Front, Result, crashed, ◌>>=◌, Constant, push_constant}
use ember_core.Parser.Expressions.{
  run_prefix, infix_step, goes_on, infix_loop, prefix_step, parse_precedence,
}
use ember_core.Parser.Laws.{IsFront, Shows, advance-Shows, push-Shows}
use ember_core.Parser.Rules.{Prefix, rule, get_rule}

module _ {S D : Type 0} {f : Front S D} (laws : IsFront f) where
  loop_crashes :
      (parse : ℕ → S → Result S) (fuel prec n : ℕ) (p : Option Prefix) (s : S) (t : Token D)
      (rest : List (Token D)) (c : List ℕ) (k : List (Constant D))
      → get_rule t.type ≡ rule p none n
      → prec ≤ n
      → Shows laws s (t ∷ rest) c k
      → infix_loop f parse (suc fuel) prec s ≡ crashed
  unfolding infix_loop infix_step
  loop_crashes parse fuel prec n p s t rest c k e above shows =
      let head = laws.current_head s t rest shows.tokens in
      let (at_t, _) = advance-Shows laws t rest shows in
      let more : leb prec n ≡ true = ground arith in
      let goes : goes_on prec (get_rule (f.current s).type) ≡ some true =
        ap (λ u. goes_on prec (get_rule u.type)) head
        ∙ ap (goes_on prec) e
        ∙ ap (λ b. some b) more in
      rw (goes, infix_loop)
        (ap (λ r. infix_step f parse fuel r (f.advance_parser s) >>= infix_loop f parse fuel prec)
          (ap (λ u. get_rule u.type) at_t ∙ e))

  -- Over a front that keeps the laws of IsFront, with fewer than 256 constants: where a number is
  -- followed by a token whose rule has no infix function and a level that is not below the one
  -- asked for, `parse_precedence` calls a null pointer.
  pub number_postfix :
      (m prec n : ℕ) (p : Option Prefix) (s : S) (d t : Token D) (rest : List (Token D))
      (c : List ℕ) (k : List (Constant D))
      → d.type ≡ TokenType.token_number
      → get_rule t.type ≡ rule p none n
      → prec ≤ n
      → Shows laws s (d ∷ t ∷ rest) c k
      → length k < 256
      → parse_precedence f (suc (suc m)) prec s ≡ crashed
  unfolding parse_precedence prefix_step run_prefix get_rule
  number_postfix m prec n p s d t rest c k is_number e above shows room =
      let (at_d, shown) = advance-Shows laws d (t ∷ rest) shows in
      let s0 = f.advance_parser s in
      let x = Constant.number (f.previous s0).number in
      let rules = ap (λ u. get_rule u.type) at_d ∙ ap get_rule is_number in
      ap (λ r. prefix_step f (parse_precedence f (suc m)) (suc m) prec r s0) rules
      ∙ loop_crashes (parse_precedence f (suc m)) m prec n p (push_constant f x s0) t rest _ _ e
          above (push-Shows laws x shown room)
