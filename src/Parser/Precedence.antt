-- ===== src/Parser/Precedence.antt =====
-- `parse_precedence` of src/frontend/parser/expressions.c against the grammar of its levels.
use ember_core.Common.{
  ℕ, suc, ◌≤◌, ◌<◌, ◌≡◌, refl, ap, ◌∙◌, none, some, List, [], ◌∷◌, ◌++◌, append_assoc, arith,
  length,
}
use ember_core.Lexer.{Token, TokenType}
use ember_core.Parser.{Front, done, ◌>>=◌, Constant, push_constant, op_mul, op_not}
use ember_core.Parser.Expressions.{run_prefix, parse_precedence}
use ember_core.Parser.Grammar.{Operator, sign, level, opcode}
use ember_core.Parser.Handlers.{unary_of}
use ember_core.Parser.Laws.{IsFront, Shows, advance-Shows, write-Shows, push-Shows, Shows-cast}
use ember_core.Parser.Leaves.{After}
use ember_core.Parser.Operators.{
  op_prefix, op_infix, get_rule-sign, ends_name-sign, level_bound, run_infix-sign,
}
use ember_core.Parser.Reads.{
  prec_of, ends_name, Follows, Parses, Loops, Loops-stop, Parses_prefix, Loops-infix,
}
use ember_core.Parser.Rules.{Prefix, Infix, get_rule}

-- At a higher level the same may follow.
pub Follows_up :
    {D : Type 0} (q r : ℕ) {rest : List (Token D)} → Follows q rest → q ≤ r → Follows r rest
Follows_up q r h less = record {
  token = h.token;
  others = h.others;
  is_next = h.is_next;
  prec = h.prec;
  has_prec = h.has_prec;
  within = omega (arith, h.within);
  infix_at_most = h.infix_at_most;
  no_name = h.no_name;
}

-- Any token that follows may follow an operand of a unary operator.
pub Follows_unary : {D : Type 0} (q : ℕ) {rest : List (Token D)} → Follows q rest → Follows 8 rest
Follows_unary q h = record {
  token = h.token;
  others = h.others;
  is_next = h.is_next;
  prec = h.prec;
  has_prec = h.has_prec;
  within = omega (arith, h.infix_at_most);
  infix_at_most = h.infix_at_most;
  no_name = h.no_name;
}

pub Follows_operator :
    {D : Type 0} (op : Operator) (t : Token D) (rest : List (Token D))
    → t.type ≡ sign op
    → Follows (level op) (t ∷ rest)
Follows_operator op t rest e = record {
  token = t;
  others = rest;
  is_next = refl;
  prec = level op;
  has_prec = ap (λ ty. prec_of (get_rule ty)) e ∙ ap prec_of (get_rule-sign op);
  within = omega arith;
  infix_at_most = level_bound op;
  no_name = ap ends_name e ∙ ends_name-sign op;
}

pub Follows_paren :
    {D : Type 0} (r : Token D) (rest : List (Token D))
    → r.type ≡ TokenType.token_rparen
    → Follows 1 (r ∷ rest)
unfolding get_rule ends_name
Follows_paren r rest e = record {
  token = r;
  others = rest;
  is_next = refl;
  prec = 0;
  has_prec = ap (λ ty. prec_of (get_rule ty)) e;
  within = omega arith;
  infix_at_most = omega arith;
  no_name = ap ends_name e;
}

pub Follows_paren_prec :
    {D : Type 0} (r : Token D) (rest : List (Token D)) (e : r.type ≡ TokenType.token_rparen)
    → (Follows_paren r rest e).prec ≡ 0
unfolding Follows_paren
Follows_paren_prec r rest e = refl

module _ {S D : Type 0} {f : Front S D} (laws : IsFront f) where
  -- An expression on its own, where the loop stops behind it.
  pub whole :
      (prec q : ℕ) (s : S) (rest : List (Token D)) (c : List ℕ) (k : List (Constant D))
      → After laws prec s rest c k
      → (h : Follows q rest) → h.prec < prec
      → (s1 : S) × Shows laws s1 rest c k × Parses laws prec s s1
  whole prec q s rest c k (s1, shows, onward) h less =
      (s1, shows, onward s1 (Loops-stop laws prec q rest s1 c k shows h less))

  pub negated_After :
      (prec : ℕ) (t : Token D) (s s1 : S) (rest : List (Token D)) (c : List ℕ)
      (k : List (Constant D))
      → t.type ≡ TokenType.token_minus
      → f.previous (f.advance_parser s) ≡ t
      → Shows laws s1 rest c k
      → length k < 256
      → Parses laws 8 (f.advance_parser s) s1
      → After laws prec s rest
          (c ++ (0 ∷ length k ∷ op_mul ∷ []))
          (k ++ (Constant.number f.minus_one ∷ []))
  unfolding run_prefix get_rule
  negated_After prec t s s1 rest c k e at_t shows room (n, parses) =
      let s2 = f.write_chunk op_mul (push_constant f (Constant.number f.minus_one) s1) in
      (
        s2,
        Shows-cast laws (append_assoc c (0 ∷ length k ∷ []) (op_mul ∷ [])) refl
            (write-Shows laws op_mul (push-Shows laws (Constant.number f.minus_one) shows room)),
        λ s' loops.
            Parses_prefix laws prec s s2 s' Prefix.unary (some Infix.binary) 6
              (ap (λ u. get_rule u.type) at_t ∙ ap get_rule e)
              (
                n,
                λ a b x y.
                    ap (λ u. unary_of f (parse_precedence f a) u.type (f.advance_parser s)) at_t
                    ∙ ap (λ ty. unary_of f (parse_precedence f a) ty (f.advance_parser s)) e
                    ∙ ap
                        (λ r. r >>= λ z.
                          done (
                            f.write_chunk op_mul (push_constant f (Constant.number f.minus_one) z)))
                        (parses a x),
              )
              loops,
      )

  pub inverted_After :
      (prec : ℕ) (t : Token D) (s s1 : S) (rest : List (Token D)) (c : List ℕ)
      (k : List (Constant D))
      → t.type ≡ TokenType.token_not
      → f.previous (f.advance_parser s) ≡ t
      → Shows laws s1 rest c k
      → Parses laws 8 (f.advance_parser s) s1
      → After laws prec s rest (c ++ (op_not ∷ [])) k
  unfolding run_prefix get_rule
  inverted_After prec t s s1 rest c k e at_t shows (n, parses) =
      let s2 = f.write_chunk op_not s1 in
      (
        s2,
        write-Shows laws op_not shows,
        λ s' loops.
            Parses_prefix laws prec s s2 s' Prefix.logical_not_unary none 0
              (ap (λ u. get_rule u.type) at_t ∙ ap get_rule e)
              (n, λ a b x y. ap (λ r. r >>= λ z. done (f.write_chunk op_not z)) (parses a x)) loops,
      )

  pub grouped_After :
      (prec : ℕ) (l r : Token D) (s s1 : S) (rest : List (Token D)) (c : List ℕ)
      (k : List (Constant D))
      → l.type ≡ TokenType.token_lparen
      → r.type ≡ TokenType.token_rparen
      → f.previous (f.advance_parser s) ≡ l
      → Shows laws s1 (r ∷ rest) c k
      → Parses laws 1 (f.advance_parser s) s1
      → After laws prec s rest c k
  unfolding run_prefix get_rule
  grouped_After prec l r s s1 rest c k el er at_l shows (n, parses) =
      let head = laws.current_head s1 r rest shows.tokens in
      let closes = laws.consumes TokenType.token_rparen s1 (ap (λ u. u.type) head ∙ er) in
      (
        f.advance_parser s1,
        (advance-Shows laws r rest shows).1,
        λ s' loops.
            Parses_prefix laws prec s (f.advance_parser s1) s' Prefix.grouping (some Infix.call) 9
              (ap (λ u. get_rule u.type) at_l ∙ ap get_rule el)
              (
                n,
                λ a b x y.
                    ap (λ r. r >>= λ z. done (f.consume TokenType.token_rparen z)) (parses a x)
                    ∙ ap (λ z. done z) closes,
              )
              loops,
      )

  -- After the left operand: one round of the loop.
  pub applied_Loops :
      (prec : ℕ) (op : Operator) (t : Token D) (s1 s3 s' : S)
      → t.type ≡ sign op
      → prec ≤ level op
      → f.current s1 ≡ t
      → f.previous (f.advance_parser s1) ≡ t
      → Parses laws (suc (level op)) (f.advance_parser s1) s3
      → Loops laws prec (f.write_chunk (opcode op) s3) s'
      → Loops laws prec s1 s'
  applied_Loops prec op t s1 s3 s' e above head at_t (n, parses) loops =
      let found = ap get_rule e ∙ get_rule-sign op in
      Loops-infix laws prec s1 (f.write_chunk (opcode op) s3) s' (op_infix op) (op_prefix op)
        (level op) (ap (λ u. get_rule u.type) head ∙ found) above
        (ap (λ u. get_rule u.type) at_t ∙ found)
        (
          n,
          λ a b x y.
              run_infix-sign f (parse_precedence f a) b (f.advance_parser s1) op
                (ap (λ u. u.type) at_t ∙ e)
              ∙ ap (λ r. r >>= λ z. done (f.write_chunk (opcode op) z)) (parses a x),
        )
        loops
