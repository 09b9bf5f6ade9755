-- ===== src/Parser/Operators.antt =====
-- The operators of src/frontend/parser/expressions.c in the table of rules.
use ember_core.Common.{ℕ, suc, ◌+◌, ◌≤◌, ◌≡◌, refl, ap, true, Option, none, some, arith}
use ember_core.Parser.{Front, Result, done, ◌>>=◌}
use ember_core.Parser.Expressions.{run_infix}
use ember_core.Parser.Grammar.{Operator, sign, level, opcode}
use ember_core.Parser.Handlers.{write_binary}
use ember_core.Parser.Reads.{ends_name}
use ember_core.Parser.Rules.{Prefix, Infix, rule, get_rule, binary_prec, binary_op}

abbrev pub op_prefix : Operator → Option Prefix
op_prefix Operator.sub = some Prefix.unary
op_prefix _ = none

abbrev pub op_infix : Operator → Infix
op_infix Operator.and_word = Infix.logical_and_binary
op_infix Operator.and_sign = Infix.logical_and_binary
op_infix Operator.or_word = Infix.logical_or_binary
op_infix Operator.or_sign = Infix.logical_or_binary
op_infix _ = Infix.binary

pub get_rule-sign :
    (op : Operator) → get_rule (sign op) ≡ rule (op_prefix op) (some (op_infix op)) (level op)
unfolding get_rule
get_rule-sign Operator.add = refl
get_rule-sign _ = refl

pub ends_name-sign : (op : Operator) → ends_name (sign op) ≡ true
unfolding ends_name
ends_name-sign Operator.add = refl
ends_name-sign _ = refl

pub level_bound : (op : Operator) → level op ≤ 7
level_bound Operator.add = omega arith
level_bound _ = omega arith

pub run_infix-sign :
    {S D : Type 0} (f : Front S D) (parse : ℕ → S → Result S) (b : ℕ) (s : S) (op : Operator)
    → (f.previous s).type ≡ sign op
    → run_infix f parse b (op_infix op) s
      ≡ (parse (suc (level op)) s >>= λ s1. done (f.write_chunk (opcode op) s1))
unfolding run_infix binary_prec binary_op
run_infix-sign f parse b s Operator.and_word e = refl
run_infix-sign f parse b s Operator.and_sign e = refl
run_infix-sign f parse b s Operator.or_word e = refl
run_infix-sign f parse b s Operator.or_sign e = refl
run_infix-sign f parse b s _ e =
    ap (λ ty. parse (binary_prec ty + 1) s >>= λ s1. done (write_binary f (binary_op ty) s1)) e
