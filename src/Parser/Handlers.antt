-- ===== src/Parser/Handlers.antt =====
-- The functions of src/frontend/parser/expressions.c that the table of rules names. `parse` is the call
-- of `parse_precedence`; a loop runs on fuel.
use ember_core.Common.{
  ℕ, zero, suc, ◌+◌, ◌-◌, Bool, true, false, not, ◌||◌, Option, none, some, List, [], ◌∷◌, ltb,
  take, if◌then◌else◌,
}
use ember_core.Lexer.{Token, TokenType}
use ember_core.Parser.{
  Front, Result, done, crashed, out_of_fuel, ◌>>=◌, Constant, write_two, push_constant, op_mul,
  op_call, op_and, op_or, op_not, op_string_interpolate,
}
use ember_core.Parser.Rules.{prec_assignment, prec_or, prec_and, prec_unary, binary_prec, binary_op}

-- a pointer moved on inside a text
abbrev pub moved : ℕ → List ℕ → List ℕ
moved zero cs = cs
moved (suc i) [] = []
moved (suc i) (c ∷ cs) = moved i cs

-- `previous.type == TOKEN_TRUE`
abbrev pub is_true : TokenType → Bool
is_true TokenType.token_true = true
is_true _ = false

module _ {S D : Type 0} (f : Front S D) where
  abbrev pub number_literal : S → S
  number_literal s = push_constant f (Constant.number (f.previous s).number) s

  -- the characters between the quotes
  abbrev pub string_content : Token D → List ℕ
  string_content t = take (t.length - 2) (moved 1 t.start)

  abbrev pub string_literal : S → S
  string_literal s =
      let t = f.previous s in
      if ltb t.length 2 || not (f.malloc (t.length - 2 + 1))
      then s
      else push_constant f (Constant.text (string_content t)) s

  abbrev pub interpolated_string_literal : S → S
  interpolated_string_literal s =
      let t = f.previous s in
      if ltb t.length 2 || not (f.malloc (t.length - 2 + 1))
      then s
      else f.write_chunk op_string_interpolate
          (push_constant f (Constant.text (string_content t)) s)

  abbrev pub boolean_literal : S → S
  boolean_literal s = push_constant f (Constant.boolean (is_true (f.previous s).type)) s

  -- The name of the token before, as a constant. The result of `malloc` is not looked at.
  abbrev pub add_name : S → Result (ℕ × S)
  add_name s =
      let t = f.previous s in
      if f.malloc (t.length + 1)
      then done (f.add_constant (Constant.text (take t.length t.start)) s)
      else crashed

  abbrev pub write_binary : Option ℕ → S → S
  write_binary none s = s
  write_binary (some op) s = f.write_chunk op s

  module _ (parse : ℕ → S → Result S) where
    abbrev pub expression : S → Result S
    expression s = parse prec_assignment s

    -- the loop over the arguments, with their number so far
    unfoldable pub arguments : ℕ → ℕ → S → Result (ℕ × S)
    arguments zero count s = out_of_fuel
    arguments (suc fuel) count s = expression s >>= λ s1.
        let (more, s2) = f.match TokenType.token_comma s1 in
        let rest = arguments fuel (count + 1) s2 in if more then rest else done (count + 1, s2)

    abbrev pub argument_list : ℕ → S → Result (ℕ × S)
    argument_list fuel s =
        (if f.check TokenType.token_rparen s then done (0, s) else arguments fuel 0 s)
        >>= λ (count, s1). done (count, f.consume TokenType.token_rparen s1)

    abbrev pub call : ℕ → S → Result S
    call fuel s = argument_list fuel s >>= λ (count, s1). done (write_two f op_call count s1)

    abbrev pub unary_of : TokenType → S → Result S
    unary_of TokenType.token_minus s = parse prec_unary s >>= λ s1.
        done (f.write_chunk op_mul (push_constant f (Constant.number f.minus_one) s1))
    unary_of _ s = parse prec_unary s

    abbrev pub unary : S → Result S
    unary s = unary_of (f.previous s).type s

    abbrev pub binary : S → Result S
    binary s =
        let operator_type = (f.previous s).type in
        parse (binary_prec operator_type + 1) s >>= λ s1.
        done (write_binary (binary_op operator_type) s1)

    abbrev pub logical_and_binary : S → Result S
    logical_and_binary s = parse (prec_and + 1) s >>= λ s1. done (f.write_chunk op_and s1)

    abbrev pub logical_or_binary : S → Result S
    logical_or_binary s = parse (prec_or + 1) s >>= λ s1. done (f.write_chunk op_or s1)

    abbrev pub logical_not_unary : S → Result S
    logical_not_unary s = parse prec_unary s >>= λ s1. done (f.write_chunk op_not s1)

    abbrev pub grouping : S → Result S
    grouping s = expression s >>= λ s1. done (f.consume TokenType.token_rparen s1)
