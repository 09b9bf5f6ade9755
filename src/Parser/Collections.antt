-- ===== src/Parser/Collections.antt =====
-- The literals and the index of arrays, the literals of hash maps, and `await` and `yield`, of
-- src/frontend/parser/expressions.c.
use ember_core.Common.{ℕ, zero, suc, ◌+◌, Bool, not, ◌||◌, if◌then◌else◌}
use ember_core.Lexer.{TokenType}
use ember_core.Parser.{
  Front, Result, done, out_of_fuel, ◌>>=◌, Constant, write_two, push_constant, op_array_new,
  op_array_get, op_array_set, op_hash_map_new, op_await, op_yield,
}
use ember_core.Parser.Handlers.{expression}
use ember_core.Parser.Rules.{prec_assignment, prec_unary}

module _ {S D : Type 0} (f : Front S D) where
  -- `while (match(TOKEN_NEWLINE))`
  unfoldable pub skip_newlines : ℕ → S → Result S
  skip_newlines zero s = out_of_fuel
  skip_newlines (suc fuel) s =
      let (there, s1) = f.match TokenType.token_newline s in
      let rest = skip_newlines fuel s1 in if there then rest else done s1

  module _ (parse : ℕ → S → Result S) where
    unfoldable pub elements : ℕ → ℕ → S → Result (ℕ × S)
    unfolding skip_newlines
    elements zero count s = out_of_fuel
    elements (suc fuel) count s = skip_newlines fuel s >>= λ s1. expression f parse s1 >>= λ s2.
        skip_newlines fuel s2 >>= λ s3.
        let (more, s4) = f.match TokenType.token_comma s3 in
        let rest = elements fuel (count + 1) s4 in if more then rest else done (count + 1, s4)

    unfoldable pub array_literal : ℕ → S → Result S
    unfolding skip_newlines elements
    array_literal fuel s = skip_newlines fuel s >>= λ s1.
        (if f.check TokenType.token_rbracket s1 then done (0, s1) else elements fuel 0 s1)
        >>= λ (count, s2). skip_newlines fuel s2 >>= λ s3.
            done (write_two f op_array_new count (f.consume TokenType.token_rbracket s3))

    abbrev pub array_index : S → Result S
    array_index s = expression f parse s >>= λ s1.
        let (there, s2) = f.match TokenType.token_equal (f.consume TokenType.token_rbracket s1) in
        if there
        then (expression f parse s2 >>= λ s3. done (f.write_chunk op_array_set s3))
        else done (f.write_chunk op_array_get s2)

    -- a key, a colon and a value
    abbrev pub pair : ℕ → S → Result S
    pair fuel s = skip_newlines fuel s >>= λ s1. expression f parse s1 >>= λ s2.
        skip_newlines fuel s2 >>= λ s3.
        skip_newlines fuel (f.consume TokenType.token_colon s3) >>= λ s4.
        expression f parse s4 >>= λ s5. skip_newlines fuel s5

    -- after a comma one newline is skipped, and the loop goes on in any case
    unfoldable pub pairs : ℕ → ℕ → S → Result (ℕ × S)
    unfolding skip_newlines
    pairs zero count s = out_of_fuel
    pairs (suc fuel) count s = pair fuel s >>= λ s1.
        let (more, s2) = f.match TokenType.token_comma s1 in
        let rest = pairs fuel (count + 1) (f.match TokenType.token_newline s2).1 in
        if more then rest else done (count + 1, s2)

    unfoldable pub hash_map_literal : ℕ → S → Result S
    unfolding skip_newlines pairs
    hash_map_literal fuel s = skip_newlines fuel s >>= λ s1.
        (if f.check TokenType.token_rbrace s1 then done (0, s1) else pairs fuel 0 s1)
        >>= λ (count, s2). skip_newlines fuel s2 >>= λ s3.
            done (write_two f op_hash_map_new count (f.consume TokenType.token_rbrace s3))

    abbrev pub await_expression : S → Result S
    await_expression s =
        if not (f.in_async_function s)
        then done (f.error s)
        else (parse prec_unary s >>= λ s1. done (f.write_chunk op_await s1))

    -- the end of a statement, where there is no value
    abbrev pub ends_statement : S → Bool
    ends_statement s =
        f.check TokenType.token_semicolon s
        || f.check TokenType.token_newline s
        || f.check TokenType.token_rbrace s

    abbrev pub yield_expression : S → Result S
    yield_expression s =
        if not (f.in_generator_function s)
        then done (f.error s)
        else if ends_statement s
        then done (f.write_chunk op_yield (push_constant f Constant.nil s))
        else (parse prec_assignment s >>= λ s1. done (f.write_chunk op_yield s1))
