-- ===== src/Parser/Grammar.antt =====
-- The grammar that the levels of precedence of src/frontend/parser/parser.h stand for, and the code of an
-- expression of it.
use ember_core.Common.{ℕ, suc, ◌+◌, ◌≤◌, ◌≡◌, Bool, List, [], ◌∷◌, ◌++◌, length, take}
use ember_core.Lexer.{Token, TokenType}
use ember_core.Parser.{
  Constant, op_push_const, op_add, op_sub, op_mul, op_div, op_mod, op_equal, op_not_equal, op_less,
  op_less_equal, op_greater, op_greater_equal, op_get_global, op_and, op_or, op_not,
}
use ember_core.Parser.Handlers.{is_true}
use ember_core.Parser.Rules.{
  prec_assignment, prec_or, prec_and, prec_equality, prec_comparison, prec_term, prec_factor,
  prec_unary,
}

-- the operators between two operands, with both spellings of two of them
pub data Operator : Type 0 where
  add sub mul div modulo equal not_equal greater greater_equal less less_equal : Operator
  and_word and_sign or_word or_sign : Operator

abbrev pub sign : Operator → TokenType
sign Operator.add = TokenType.token_plus
sign Operator.sub = TokenType.token_minus
sign Operator.mul = TokenType.token_multiply
sign Operator.div = TokenType.token_divide
sign Operator.modulo = TokenType.token_modulo
sign Operator.equal = TokenType.token_equal_equal
sign Operator.not_equal = TokenType.token_not_equal
sign Operator.greater = TokenType.token_greater
sign Operator.greater_equal = TokenType.token_greater_equal
sign Operator.less = TokenType.token_less
sign Operator.less_equal = TokenType.token_less_equal
sign Operator.and_word = TokenType.token_and
sign Operator.and_sign = TokenType.token_and_and
sign Operator.or_word = TokenType.token_or
sign Operator.or_sign = TokenType.token_or_or

abbrev pub level : Operator → ℕ
level Operator.add = prec_term
level Operator.sub = prec_term
level Operator.mul = prec_factor
level Operator.div = prec_factor
level Operator.modulo = prec_factor
level Operator.equal = prec_equality
level Operator.not_equal = prec_equality
level Operator.and_word = prec_and
level Operator.and_sign = prec_and
level Operator.or_word = prec_or
level Operator.or_sign = prec_or
level _ = prec_comparison

abbrev pub opcode : Operator → ℕ
opcode Operator.add = op_add
opcode Operator.sub = op_sub
opcode Operator.mul = op_mul
opcode Operator.div = op_div
opcode Operator.modulo = op_mod
opcode Operator.equal = op_equal
opcode Operator.not_equal = op_not_equal
opcode Operator.greater = op_greater
opcode Operator.greater_equal = op_greater_equal
opcode Operator.less = op_less
opcode Operator.less_equal = op_less_equal
opcode Operator.and_word = op_and
opcode Operator.and_sign = op_and
opcode Operator.or_word = op_or
opcode Operator.or_sign = op_or

pub data Expr (D : Type 0) : Type 0 where
  number : D → Expr D
  boolean : Bool → Expr D
  variable : List ℕ → Expr D
  negate : Expr D → Expr D
  invert : Expr D → Expr D
  apply : Operator → Expr D → Expr D → Expr D

module _ {D : Type 0} where
  -- The tokens are the expression, written at a level: its outer operator, if it is not in
  -- parentheses, has at least this level, and operators of a level group to the left.
  pub data Written : ℕ → Expr D → List (Token D) → Type 0 where
    a_number :
        {q : ℕ} (t : Token D)
        → t.type ≡ TokenType.token_number
        → Written q (Expr.number t.number) (t ∷ [])
    a_true :
        {q : ℕ} (t : Token D)
        → t.type ≡ TokenType.token_true
        → Written q (Expr.boolean (is_true t.type)) (t ∷ [])
    a_false :
        {q : ℕ} (t : Token D)
        → t.type ≡ TokenType.token_false
        → Written q (Expr.boolean (is_true t.type)) (t ∷ [])
    a_variable :
        {q : ℕ} (t : Token D)
        → t.type ≡ TokenType.token_identifier
        → Written q (Expr.variable (take t.length t.start)) (t ∷ [])
    negated :
        {q : ℕ} {e : Expr D} {ts : List (Token D)} (t : Token D)
        → t.type ≡ TokenType.token_minus
        → Written prec_unary e ts
        → Written q (Expr.negate e) (t ∷ ts)
    inverted :
        {q : ℕ} {e : Expr D} {ts : List (Token D)} (t : Token D)
        → t.type ≡ TokenType.token_not
        → Written prec_unary e ts
        → Written q (Expr.invert e) (t ∷ ts)
    grouped :
        {q : ℕ} {e : Expr D} {ts : List (Token D)} (l r : Token D)
        → l.type ≡ TokenType.token_lparen
        → r.type ≡ TokenType.token_rparen
        → Written prec_assignment e ts
        → Written q e (l ∷ ts ++ (r ∷ []))
    applied :
        {q : ℕ} {a b : Expr D} {ts us : List (Token D)} (op : Operator) (t : Token D)
        → t.type ≡ sign op
        → q ≤ level op
        → Written (level op) a ts
        → Written (suc (level op)) b us
        → Written q (Expr.apply op a b) (ts ++ (t ∷ us))

  module _ (minus_one : D) where
    -- the constants of an expression, in the order of its text
    abbrev pub pool : Expr D → List (Constant D)
    pool (Expr.number d) = Constant.number d ∷ []
    pool (Expr.boolean b) = Constant.boolean b ∷ []
    pool (Expr.variable name) = Constant.text name ∷ []
    pool (Expr.negate e) = pool e ++ (Constant.number minus_one ∷ [])
    pool (Expr.invert e) = pool e
    pool (Expr.apply op a b) = pool a ++ pool b

    -- the code, after a number of constants
    abbrev pub code_of : ℕ → Expr D → List ℕ
    code_of k (Expr.number d) = op_push_const ∷ k ∷ []
    code_of k (Expr.boolean b) = op_push_const ∷ k ∷ []
    code_of k (Expr.variable name) = op_get_global ∷ k ∷ []
    code_of k (Expr.negate e) = code_of k e ++ (op_push_const ∷ (k + length (pool e)) ∷ op_mul ∷ [])
    code_of k (Expr.invert e) = code_of k e ++ (op_not ∷ [])
    code_of k (Expr.apply op a b) =
        code_of k a ++ (code_of (k + length (pool a)) b ++ (opcode op ∷ []))
