-- ===== src/Parser/Leaves.antt =====
-- The operands that are one token, for `parse_precedence` of src/frontend/parser/expressions.c.
use mathlib.Core.Path.{subst}
use ember_core.Common.{
  ℕ, ◌+◌, ◌<◌, ◌≡◌, sym, ap, ◌∙◌, true, Option, none, some, List, [], ◌∷◌, ◌++◌, length, take,
}
use ember_core.Lexer.{Token, TokenType}
use ember_core.Parser.{
  Front, Result, done, Constant, write_two, push_constant, op_push_const, op_get_global,
}
use ember_core.Parser.Expressions.{run_prefix, parse_precedence}
use ember_core.Parser.Laws.{IsFront, Shows, advance-Shows, add-Shows, push-Shows, write_two-Shows}
use ember_core.Parser.Reads.{ends_name, Follows, Parses, Loops, Parses_prefix}
use ember_core.Parser.Rules.{Prefix, Infix, rule, get_rule}
use ember_core.Parser.Variables.{after_name, variable}

module _ {S D : Type 0} {f : Front S D} (laws : IsFront f) where
  -- The expression is read, and the loop goes on behind it.
  abbrev pub After : ℕ → S → List (Token D) → List ℕ → List (Constant D) → Type 0
  After prec s rest c k =
      (s1 : S) × Shows laws s1 rest c k × ((s' : S) → Loops laws prec s1 s' → Parses laws prec s s')

  pub constant_After :
      (prec : ℕ) (t : Token D) (rest : List (Token D)) (s : S) (c : List ℕ) (k : List (Constant D))
      (p : Prefix) (i : Option Infix) (n : ℕ) (make : Token D → Constant D)
      → get_rule t.type ≡ rule (some p) i n
      → ((parse : ℕ → S → Result S) (b : ℕ) (s : S)
          → run_prefix f parse b p s ≡ done (push_constant f (make (f.previous s)) s))
      → Shows laws s (t ∷ rest) c k
      → length k < 256
      → After prec s rest (c ++ (op_push_const ∷ length k ∷ [])) (k ++ (make t ∷ []))
  constant_After prec t rest s c k p i n make e run shows room =
      let (at_t, shown) = advance-Shows laws t rest shows in
      let s0 = f.advance_parser s in
      let s1 = push_constant f (make (f.previous s0)) s0 in
      (
        s1,
        subst (λ u. Shows laws s1 rest (c ++ (op_push_const ∷ length k ∷ [])) (k ++ (make u ∷ [])))
            at_t (push-Shows laws (make (f.previous s0)) shown room),
        λ s' loops.
            Parses_prefix laws prec s s1 s' p i n (ap (λ u. get_rule u.type) at_t ∙ e)
              (0, λ a b x y. run _ b s0) loops,
      )

  -- The tests after a name find none of their tokens.
  after_name_plain :
      (parse : ℕ → S → Result S) (b index : ℕ) (s : S)
      → ends_name (f.current s).type ≡ true
      → after_name f parse b index s ≡ done (write_two f op_get_global index s)
  unfolding ends_name
  after_name_plain parse b index s h = rw (
    laws.matches_not TokenType.token_equal s (λ e. cc (ap ends_name e, h)),
    laws.matches_not TokenType.token_plus_equal s (λ e. cc (ap ends_name e, h)),
    laws.matches_not TokenType.token_minus_equal s (λ e. cc (ap ends_name e, h)),
    laws.matches_not TokenType.token_multiply_equal s (λ e. cc (ap ends_name e, h)),
    laws.matches_not TokenType.token_divide_equal s (λ e. cc (ap ends_name e, h)),
    laws.matches_not TokenType.token_plus_plus s (λ e. cc (ap ends_name e, h)),
    laws.matches_not TokenType.token_minus_minus s (λ e. cc (ap ends_name e, h)),
    laws.matches_not TokenType.token_lparen s (λ e. cc (ap ends_name e, h)),
  )

  -- The name is made a constant, and its value is loaded.
  variable_plain :
      (parse : ℕ → S → Result S) (b : ℕ) (s : S) (name : Constant D)
      → Constant.text (take (f.previous s).length (f.previous s).start) ≡ name
      → ends_name (f.current (f.add_constant name s).1).type ≡ true
      → variable f parse b s
        ≡ done (write_two f op_get_global (f.add_constant name s).0 (f.add_constant name s).1)
  variable_plain parse b s name e h =
      rw (laws.memory ((f.previous s).length + 1), e)
        (after_name_plain parse b (f.add_constant name s).0 (f.add_constant name s).1 h)

  pub variable_After :
      (prec q : ℕ) (t : Token D) (rest : List (Token D)) (s : S) (c : List ℕ)
      (k : List (Constant D))
      → t.type ≡ TokenType.token_identifier
      → Follows q rest
      → Shows laws s (t ∷ rest) c k
      → length k < 256
      → After prec s rest
          (c ++ (op_get_global ∷ length k ∷ []))
          (k ++ (Constant.text (take t.length t.start) ∷ []))
  unfolding run_prefix get_rule
  variable_After prec q t rest s c k e h shows room =
      let (at_t, shown) = advance-Shows laws t rest shows in
      let s0 = f.advance_parser s in
      let name : Constant D = Constant.text (take t.length t.start) in
      let (i, added) = add-Shows laws name shown room in
      let s2 = (f.add_constant name s0).1 in
      let head : f.current s2 ≡ h.token =
        laws.current_head s2 h.token h.others (added.tokens ∙ h.is_next) in
      let s1 = write_two f op_get_global (f.add_constant name s0).0 s2 in
      (
        s1,
        subst
            (λ o.
              Shows laws (write_two f op_get_global o s2) rest
                (c ++ (op_get_global ∷ length k ∷ [])) (k ++ (name ∷ [])))
            (sym i) (write_two-Shows laws op_get_global (length k) room added),
        λ s' loops.
            Parses_prefix laws prec s s1 s' Prefix.variable none 0
              (ap (λ u. get_rule u.type) at_t ∙ ap get_rule e)
              (
                0,
                λ a b x y.
                    variable_plain (parse_precedence f a) b s0 name
                      (ap (λ u. Constant.text (take u.length u.start)) at_t)
                      (ap (λ u. ends_name u.type) head ∙ h.no_name),
              )
              loops,
      )
