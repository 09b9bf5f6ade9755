-- ===== src/Parser/Expressions.antt =====
-- `parse_precedence` and `expression` of src/frontend/parser/expressions.c, with the table of rules.
use ember_core.Common.{ℕ, zero, suc, Bool, true, false, Option, none, some, leb}
use ember_core.Parser.{Front, Result, done, crashed, out_of_fuel, ◌>>=◌}
use ember_core.Parser.Handlers
use ember_core.Parser.Variables
use ember_core.Parser.Collections
use ember_core.Parser.Objects
use ember_core.Parser.Rules.{Prefix, Infix, ParseRule, get_rule, prec_assignment}

-- `prec <= get_rule(current.type)->prec`, or a read past the table
abbrev pub goes_on : ℕ → Option ParseRule → Option Bool
goes_on prec none = none
goes_on prec (some r) = some (leb prec r.prec)

module _ {S D : Type 0} (f : Front S D) where
  -- the call of a function of the table, with `parse` for `parse_precedence`
  unfoldable pub run_prefix : (ℕ → S → Result S) → ℕ → Prefix → S → Result S
  run_prefix parse fuel Prefix.grouping s = Handlers.grouping f parse s
  run_prefix parse fuel Prefix.unary s = Handlers.unary f parse s
  run_prefix parse fuel Prefix.prefix_increment s = Variables.prefix_increment f s
  run_prefix parse fuel Prefix.prefix_decrement s = Variables.prefix_decrement f s
  run_prefix parse fuel Prefix.number_literal s = done (Handlers.number_literal f s)
  run_prefix parse fuel Prefix.string_literal s = done (Handlers.string_literal f s)
  run_prefix parse fuel Prefix.interpolated_string_literal s =
      done (Handlers.interpolated_string_literal f s)
  run_prefix parse fuel Prefix.variable s = Variables.variable f parse fuel s
  run_prefix parse fuel Prefix.logical_not_unary s = Handlers.logical_not_unary f parse s
  run_prefix parse fuel Prefix.boolean_literal s = done (Handlers.boolean_literal f s)
  run_prefix parse fuel Prefix.array_literal s = Collections.array_literal f parse fuel s
  run_prefix parse fuel Prefix.hash_map_literal s = Collections.hash_map_literal f parse fuel s
  run_prefix parse fuel Prefix.new_expression s = Objects.new_expression f parse fuel s
  run_prefix parse fuel Prefix.this_expression s = done (Objects.this_expression f s)
  run_prefix parse fuel Prefix.super_expression s = Objects.super_expression f s
  run_prefix parse fuel Prefix.await_expression s = Collections.await_expression f parse s
  run_prefix parse fuel Prefix.yield_expression s = Collections.yield_expression f parse s

  unfoldable pub run_infix : (ℕ → S → Result S) → ℕ → Infix → S → Result S
  run_infix parse fuel Infix.call s = Handlers.call f parse fuel s
  run_infix parse fuel Infix.binary s = Handlers.binary f parse s
  run_infix parse fuel Infix.logical_and_binary s = Handlers.logical_and_binary f parse s
  run_infix parse fuel Infix.logical_or_binary s = Handlers.logical_or_binary f parse s
  run_infix parse fuel Infix.array_index s = Collections.array_index f parse s
  run_infix parse fuel Infix.dot_expression s = Objects.dot_expression f parse fuel s

  -- the function of the token before; the call of NULL is a crash
  unfoldable pub infix_step : (ℕ → S → Result S) → ℕ → Option ParseRule → S → Result S
  infix_step parse fuel none s = crashed
  infix_step parse fuel (some r) s = elim r.infix_rule [
    | none ↦ crashed
    | some i ↦ run_infix parse fuel i s
  ]

  -- the loop of `parse_precedence`
  unfoldable pub infix_loop : (ℕ → S → Result S) → ℕ → ℕ → S → Result S
  infix_loop parse zero prec s = out_of_fuel
  infix_loop parse (suc fuel) prec s = elim (goes_on prec (get_rule (f.current s).type)) [
    | none ↦ crashed
    | some false ↦ done s
    | some true ↦
        let s1 = f.advance_parser s in
        infix_step parse fuel (get_rule (f.previous s1).type) s1 >>= infix_loop parse fuel prec
  ]

  -- the function of the token before, or the error that there is none
  unfoldable pub prefix_step : (ℕ → S → Result S) → ℕ → ℕ → Option ParseRule → S → Result S
  prefix_step parse fuel prec none s = crashed
  prefix_step parse fuel prec (some r) s = elim r.prefix_rule [
    | none ↦ done (f.error s)
    | some p ↦ run_prefix parse fuel p s >>= infix_loop parse fuel prec
  ]

  unfoldable pub parse_precedence : ℕ → ℕ → S → Result S
  parse_precedence zero prec s = out_of_fuel
  parse_precedence (suc fuel) prec s =
      let s1 = f.advance_parser s in
      prefix_step (parse_precedence fuel) fuel prec (get_rule (f.previous s1).type) s1

  abbrev pub expression : ℕ → S → Result S
  expression fuel s = parse_precedence fuel prec_assignment s
