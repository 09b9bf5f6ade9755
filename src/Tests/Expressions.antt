-- ===== src/Tests/Expressions.antt =====
-- Expressions over a front end that keeps its tokens, its code and its constants in lists.
use ember_core.Common.{
  ℕ, ◌≤◌, ◌≡◌, refl, sym, ap, ◌∙◌, Bool, true, false, none, some, inl, inr, List, [], ◌∷◌, ◌++◌,
  arith, length, Bool-cases, ==_refl, ◌==◌, codes, if◌then◌else◌,
}
use ember_core.Lexer.{Token, TokenType}
use ember_core.Parser.Compiled.{expression_compiled}
use ember_core.Parser.Expressions.{
  run_prefix, run_infix, infix_step, infix_loop, prefix_step, parse_precedence, expression,
}
use ember_core.Parser.Grammar.{
  Operator, Expr, Written, a_number, a_variable, grouped, applied, code_of, pool,
}
use ember_core.Parser.Laws.{IsFront, Shows}
use ember_core.Parser.Postfix.{number_postfix}
use ember_core.Parser.Reads.{Follows, ends_name}
use ember_core.Parser.Rules.{
  Prefix, rule, get_rule, binary_prec, binary_op, prec_assignment, prec_none,
}
use ember_core.Parser.{Front, done, crashed, Constant}
use ember_core.Tests.Types.{index, index_inj}

abbrev made : TokenType → ℕ → Token ℕ
made type number = record { type = type; start = codes "x"; length = 1; line = 1; number = number }

record Recorder : Type 0 where
  tokens : List (Token ℕ)
  previous : Token ℕ
  code : List ℕ
  constants : List (Constant ℕ)

abbrev first_of : List (Token ℕ) → Token ℕ
first_of [] = made TokenType.token_eof 0
first_of (t ∷ ts) = t

abbrev rest_of : List (Token ℕ) → List (Token ℕ)
rest_of [] = []
rest_of (t ∷ ts) = ts

abbrev next : Recorder → Recorder
next s = record s { tokens = rest_of s.tokens; previous = first_of s.tokens }

abbrev is_next : TokenType → Recorder → Bool
is_next k s = index (first_of s.tokens).type == index k

-- Numbers stand for the doubles; 255 is -1.
abbrev front : Front Recorder ℕ
front = record {
  current = λ s. first_of s.tokens;
  previous = λ s. s.previous;
  advance_parser = next;
  check = is_next;
  match = λ k s. if is_next k s then (true, next s) else (false, s);
  consume = λ k s. if is_next k s then next s else s;
  error = λ s. s;
  error_at = λ t s. s;
  write_chunk = λ b s. record s { code = s.code ++ (b ∷ []) };
  emit_byte = λ b s. record s { code = s.code ++ (b ∷ []) };
  emit_bytes = λ b c s. record s { code = s.code ++ (b ∷ c ∷ []) };
  add_constant = λ c s. (length s.constants, record s { constants = s.constants ++ (c ∷ []) });
  malloc = λ n. true;
  in_async_function = λ s. false;
  in_generator_function = λ s. false;
  one = 1;
  minus_one = 255;
}

front-IsFront : IsFront front
front-IsFront = record {
  tokens = λ s. s.tokens;
  code = λ s. s.code;
  constants = λ s. s.constants;
  current_head = λ s t ts e. ap first_of e;
  advances = λ s t ts e. (ap first_of e, ap rest_of e, refl, refl);
  memory = λ n. refl;
  matches = λ k s e. let same = is_there k s e in rw same;
  matches_not = λ k s e. elim (Bool-cases (is_next k s)) [
    | inl h ↦ absurd (e (index_inj _ _ h))
    | inr h ↦ rw h
  ];
  consumes = λ k s e. let same = is_there k s e in rw same;
  writes = λ b s. (refl, refl, refl);
  adds = λ c s room. (refl, refl, refl, refl);
}
  where
    is_there : (k : TokenType) (s : Recorder) → (first_of s.tokens).type ≡ k → is_next k s ≡ true
    is_there k s e =
        ap (λ t. index (first_of s.tokens).type == index t) (sym e)
        ∙ ==_refl (index (first_of s.tokens).type)

-- 7 - x - 2 * (3 + 4), which groups to the left and by level
abbrev tokens : List (Token ℕ)
tokens =
    made TokenType.token_number 7
    ∷ made TokenType.token_minus 0
    ∷ made TokenType.token_identifier 0
    ∷ made TokenType.token_minus 0
    ∷ made TokenType.token_number 2
    ∷ made TokenType.token_multiply 0
    ∷ made TokenType.token_lparen 0
    ∷ made TokenType.token_number 3
    ∷ made TokenType.token_plus 0
    ∷ made TokenType.token_number 4
    ∷ made TokenType.token_rparen 0
    ∷ []

abbrev tree : Expr ℕ
tree =
    Expr.apply Operator.sub (Expr.apply Operator.sub (Expr.number 7) (Expr.variable (codes "x"))) (
      Expr.apply Operator.mul (Expr.number 2)
        (Expr.apply Operator.add (Expr.number 3) (Expr.number 4)))

abbrev end : List (Token ℕ)
end = made TokenType.token_newline 0 ∷ []

tree-Written : Written prec_assignment tree tokens
tree-Written =
    applied Operator.sub (made TokenType.token_minus 0) refl (omega arith)
      (applied Operator.sub (made TokenType.token_minus 0) refl (omega arith)
        (a_number (made TokenType.token_number 7) refl)
        (a_variable (made TokenType.token_identifier 0) refl))
      (applied Operator.mul (made TokenType.token_multiply 0) refl (omega arith)
        (a_number (made TokenType.token_number 2) refl)
        (grouped (made TokenType.token_lparen 0) (made TokenType.token_rparen 0) refl refl (
          applied Operator.add (made TokenType.token_plus 0) refl (omega arith)
            (a_number (made TokenType.token_number 3) refl)
            (a_number (made TokenType.token_number 4) refl))))

abbrev start : List (Token ℕ) → Recorder
start ts = record { tokens = ts; previous = made TokenType.token_eof 0; code = []; constants = [] }

end-Follows : Follows prec_none end
unfolding get_rule ends_name
end-Follows = record {
  token = made TokenType.token_newline 0;
  others = [];
  is_next = refl;
  prec = 0;
  has_prec = refl;
  within = omega arith;
  infix_at_most = omega arith;
  no_name = refl;
}

itself : (s : Recorder) → Shows front-IsFront s s.tokens s.code s.constants
unfolding front-IsFront
itself s = record { tokens = refl; code = refl; constants = refl }

expression_compiled_example :
    (s1 : Recorder) × Shows front-IsFront s1 end (code_of 255 0 tree) (pool 255 tree)
    × ((n : ℕ) × ((m : ℕ) → n ≤ m → expression front m (start (tokens ++ end)) ≡ done s1))
expression_compiled_example =
    expression_compiled front-IsFront tree-Written end (start (tokens ++ end)) [] [] end-Follows
      (itself (start (tokens ++ end))) (omega arith)

step_rule : get_rule TokenType.token_plus_plus ≡ rule (some Prefix.prefix_increment) none 8
unfolding get_rule
step_rule = refl

number_postfix_example :
    parse_precedence front 9 prec_assignment
      (start (made TokenType.token_number 7 ∷ made TokenType.token_plus_plus 0 ∷ end))
    ≡ crashed
number_postfix_example =
    number_postfix front-IsFront 7 prec_assignment 8 (some Prefix.prefix_increment)
      (start (made TokenType.token_number 7 ∷ made TokenType.token_plus_plus 0 ∷ end))
      (made TokenType.token_number 7) (made TokenType.token_plus_plus 0) end [] [] refl step_rule
      (omega arith)
      (itself (start (made TokenType.token_number 7 ∷ made TokenType.token_plus_plus 0 ∷ end)))
      (omega arith)

compiled_code :
    expression front 12 (start (tokens ++ end))
    ≡ done (record {
      tokens = end;
      previous = made TokenType.token_rparen 0;
      code = code_of 255 0 tree;
      constants = pool 255 tree;
    })
unfolding parse_precedence prefix_step run_prefix infix_loop infix_step run_infix get_rule
    binary_prec binary_op
compiled_code = refl
