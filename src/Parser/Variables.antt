-- ===== src/Parser/Variables.antt =====
-- `variable`, `prefix_increment` and `prefix_decrement` of src/frontend/parser/expressions.c.
use ember_core.Common.{ℕ, if◌then◌else◌}
use ember_core.Lexer.{TokenType}
use ember_core.Parser.{
  Front, Result, done, ◌>>=◌, Constant, write_two, push_constant, op_pop, op_add, op_sub, op_mul,
  op_div, op_call, op_set_global, op_get_global,
}
use ember_core.Parser.Handlers.{add_name, expression, argument_list}

module _ {S D : Type 0} (f : Front S D) where
  module _ (parse : ℕ → S → Result S) where
    -- x = value
    abbrev pub assignment : ℕ → S → Result S
    assignment index s = expression f parse s >>= λ s1. done (write_two f op_set_global index s1)

    -- x += value, and so on
    abbrev pub compound : ℕ → ℕ → S → Result S
    compound op index s = expression f parse (write_two f op_get_global index s) >>= λ s1.
        done (write_two f op_set_global index (f.write_chunk op s1))

    -- func(args)
    abbrev pub named_call : ℕ → ℕ → S → Result S
    named_call fuel index s = argument_list f parse fuel s >>= λ (count, s1).
        done (write_two f op_call count (write_two f op_get_global index s1))

  -- x++ and x--
  abbrev pub postfix_step : ℕ → ℕ → S → S
  postfix_step op index s =
      let s1 = write_two f op_get_global index (write_two f op_get_global index s) in
      let s2 = f.write_chunk op (push_constant f (Constant.number f.one) s1) in
      f.write_chunk op_pop (write_two f op_set_global index s2)

  -- a `match`, with what follows where the token is there and where it is not
  abbrev pub on_match : TokenType → S → (S → Result S) → (S → Result S) → Result S
  on_match type s found missing =
      let (there, s1) = f.match type s in if there then found s1 else missing s1

  module _ (parse : ℕ → S → Result S) where
    -- the tests after the name, in turn
    abbrev pub after_name : ℕ → ℕ → S → Result S
    after_name fuel index s = on_match TokenType.token_equal s (assignment parse index) λ s.
        on_match TokenType.token_plus_equal s (compound parse op_add index) λ s.
          on_match TokenType.token_minus_equal s (compound parse op_sub index) λ s.
            on_match TokenType.token_multiply_equal s (compound parse op_mul index) λ s.
              on_match TokenType.token_divide_equal s (compound parse op_div index) λ s.
                on_match TokenType.token_plus_plus s (λ s. done (postfix_step op_add index s))
                  λ s.
                    on_match TokenType.token_minus_minus s (λ s. done (postfix_step op_sub index s))
                      λ s.
                        on_match TokenType.token_lparen s (named_call parse fuel index)
                          λ s. done (write_two f op_get_global index s)

    abbrev pub variable : ℕ → S → Result S
    variable fuel s = add_name f s >>= λ (index, s1). after_name fuel index s1

  -- ++x and --x
  abbrev pub prefix_step : ℕ → S → Result S
  prefix_step op s = add_name f (f.consume TokenType.token_identifier s) >>= λ (index, s1).
      let s2 = push_constant f (Constant.number f.one) (write_two f op_get_global index s1) in
      done (write_two f op_set_global index (f.write_chunk op s2))

  abbrev pub prefix_increment : S → Result S
  prefix_increment s = prefix_step op_add s

  abbrev pub prefix_decrement : S → Result S
  prefix_decrement s = prefix_step op_sub s
