-- ===== src/Parser/Rules.antt =====
-- The levels of precedence of src/frontend/parser/parser.h and the table `rules` of expressions.c. The
-- table ends at TOKEN_EOF, so that TOKEN_ERROR, which comes after it, has no rule; an entry that the table
-- does not set is NULL, NULL and PREC_NONE.
use ember_core.Common.{ℕ, Option, none, some}
use ember_core.Lexer.{TokenType}
use ember_core.Parser.{
  op_add, op_sub, op_mul, op_div, op_mod, op_equal, op_not_equal, op_less, op_less_equal,
  op_greater, op_greater_equal,
}

abbrev pub prec_none : ℕ
prec_none = 0

abbrev pub prec_assignment : ℕ
prec_assignment = 1

abbrev pub prec_or : ℕ
prec_or = 2

abbrev pub prec_and : ℕ
prec_and = 3

abbrev pub prec_equality : ℕ
prec_equality = 4

abbrev pub prec_comparison : ℕ
prec_comparison = 5

abbrev pub prec_term : ℕ
prec_term = 6

abbrev pub prec_factor : ℕ
prec_factor = 7

abbrev pub prec_unary : ℕ
prec_unary = 8

abbrev pub prec_call : ℕ
prec_call = 9

pub data Prefix : Type 0 where
  grouping unary prefix_increment prefix_decrement number_literal string_literal : Prefix
  interpolated_string_literal variable logical_not_unary boolean_literal array_literal : Prefix
  hash_map_literal new_expression this_expression super_expression await_expression : Prefix
  yield_expression : Prefix

pub data Infix : Type 0 where
  call binary logical_and_binary logical_or_binary array_index dot_expression : Infix

pub record ParseRule : Type 0 where
  pub prefix_rule : Option Prefix
  pub infix_rule : Option Infix
  pub prec : ℕ

abbrev pub rule : Option Prefix → Option Infix → ℕ → Option ParseRule
rule p i n = some (record { prefix_rule = p; infix_rule = i; prec = n })

unfoldable pub get_rule : TokenType → Option ParseRule
get_rule TokenType.token_lparen = rule (some grouping) (some call) prec_call
get_rule TokenType.token_minus = rule (some unary) (some binary) prec_term
get_rule TokenType.token_plus = rule none (some binary) prec_term
get_rule TokenType.token_multiply = rule none (some binary) prec_factor
get_rule TokenType.token_divide = rule none (some binary) prec_factor
get_rule TokenType.token_modulo = rule none (some binary) prec_factor
get_rule TokenType.token_plus_plus = rule (some prefix_increment) none prec_unary
get_rule TokenType.token_minus_minus = rule (some prefix_decrement) none prec_unary
get_rule TokenType.token_number = rule (some number_literal) none prec_none
get_rule TokenType.token_string = rule (some string_literal) none prec_none
get_rule TokenType.token_interpolated_string =
    rule (some interpolated_string_literal) none prec_none
get_rule TokenType.token_identifier = rule (some variable) none prec_none
get_rule TokenType.token_equal_equal = rule none (some binary) prec_equality
get_rule TokenType.token_not_equal = rule none (some binary) prec_equality
get_rule TokenType.token_greater = rule none (some binary) prec_comparison
get_rule TokenType.token_greater_equal = rule none (some binary) prec_comparison
get_rule TokenType.token_less = rule none (some binary) prec_comparison
get_rule TokenType.token_less_equal = rule none (some binary) prec_comparison
get_rule TokenType.token_and = rule none (some logical_and_binary) prec_and
get_rule TokenType.token_or = rule none (some logical_or_binary) prec_or
get_rule TokenType.token_not = rule (some logical_not_unary) none prec_none
get_rule TokenType.token_and_and = rule none (some logical_and_binary) prec_and
get_rule TokenType.token_or_or = rule none (some logical_or_binary) prec_or
get_rule TokenType.token_true = rule (some boolean_literal) none prec_none
get_rule TokenType.token_false = rule (some boolean_literal) none prec_none
get_rule TokenType.token_lbracket = rule (some array_literal) (some array_index) prec_call
get_rule TokenType.token_lbrace = rule (some hash_map_literal) none prec_none
get_rule TokenType.token_new = rule (some new_expression) none prec_none
get_rule TokenType.token_this = rule (some this_expression) none prec_none
get_rule TokenType.token_super = rule (some super_expression) none prec_none
get_rule TokenType.token_dot = rule none (some dot_expression) prec_call
get_rule TokenType.token_await = rule (some await_expression) none prec_unary
get_rule TokenType.token_yield = rule (some yield_expression) none prec_unary
get_rule TokenType.token_error = none
get_rule _ = rule none none prec_none

-- the switches of `binary`
unfoldable pub binary_prec : TokenType → ℕ
binary_prec TokenType.token_multiply = prec_factor
binary_prec TokenType.token_divide = prec_factor
binary_prec TokenType.token_modulo = prec_factor
binary_prec TokenType.token_equal_equal = prec_equality
binary_prec TokenType.token_not_equal = prec_equality
binary_prec TokenType.token_greater = prec_comparison
binary_prec TokenType.token_greater_equal = prec_comparison
binary_prec TokenType.token_less = prec_comparison
binary_prec TokenType.token_less_equal = prec_comparison
binary_prec _ = prec_term

unfoldable pub binary_op : TokenType → Option ℕ
binary_op TokenType.token_plus = some op_add
binary_op TokenType.token_minus = some op_sub
binary_op TokenType.token_multiply = some op_mul
binary_op TokenType.token_divide = some op_div
binary_op TokenType.token_modulo = some op_mod
binary_op TokenType.token_equal_equal = some op_equal
binary_op TokenType.token_not_equal = some op_not_equal
binary_op TokenType.token_greater = some op_greater
binary_op TokenType.token_greater_equal = some op_greater_equal
binary_op TokenType.token_less = some op_less
binary_op TokenType.token_less_equal = some op_less_equal
binary_op _ = none
