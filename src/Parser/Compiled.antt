-- ===== src/Parser/Compiled.antt =====
-- What `parse_precedence` of src/frontend/parser/expressions.c makes of an expression.
use ember_core.Common.{
  ℕ, suc, ◌+◌, ◌≤◌, ◌≡◌, refl, ap, none, List, [], ◌∷◌, ◌++◌, append_assoc, length-append, arith,
  length,
}
use ember_core.Lexer.{Token}
use ember_core.Parser.{Front, done, Constant}
use ember_core.Parser.Expressions.{run_prefix, expression}
use ember_core.Parser.Grammar.{
  level, opcode, Expr, Written, a_number, a_true, a_false, a_variable, negated, inverted, grouped,
  applied, pool, code_of,
}
use ember_core.Parser.Handlers.{is_true}
use ember_core.Parser.Laws.{IsFront, Shows, advance-Shows, write-Shows, Shows-cast, Shows-tokens}
use ember_core.Parser.Leaves.{After, constant_After, variable_After}
use ember_core.Parser.Precedence.{
  Follows_up, Follows_unary, Follows_operator, Follows_paren, Follows_paren_prec, whole,
  negated_After, inverted_After, grouped_After, applied_Loops,
}
use ember_core.Parser.Reads.{Follows}
use ember_core.Parser.Rules.{Prefix, get_rule, prec_none, prec_assignment}

-- An expression has constants after an operand of it.
pool_room :
    {A : Type 0} (k xs ys : List A) (n : ℕ)
    → length k + length (xs ++ ys) ≤ n
    → (length k + length xs ≤ n) × (length (k ++ xs) + length ys ≤ n)
pool_room k xs ys n h =
    (omega (arith, length-append xs ys), omega (arith, length-append xs ys, length-append k xs))

module _ {S D : Type 0} {f : Front S D} (laws : IsFront f) where
  After-cast :
      (prec : ℕ) (s : S) (rest : List (Token D)) {c c' : List ℕ} {k k' : List (Constant D)}
      → c ≡ c'
      → k ≡ k'
      → After laws prec s rest c k
      → After laws prec s rest c' k'
  After-cast prec s rest d e (s1, shows, onward) = (s1, Shows-cast laws d e shows, onward)

  pub Written-After :
      {q : ℕ} {e : Expr D} {ts : List (Token D)} (w : Written q e ts) (prec : ℕ)
      (rest : List (Token D)) (s : S) (c : List ℕ) (k : List (Constant D))
      → prec ≤ q
      → Follows q rest
      → Shows laws s (ts ++ rest) c k
      → length k + length (pool f.minus_one e) ≤ 256
      → After laws prec s rest (c ++ code_of f.minus_one (length k) e) (k ++ pool f.minus_one e)
  unfolding run_prefix get_rule
  Written-After (a_number t e) prec rest s c k below h shows room =
      constant_After laws prec t rest s c k Prefix.number_literal none 0
        (λ u. Constant.number u.number) (ap get_rule e) (λ parse b s. refl) shows (omega arith)
  Written-After (a_true t e) prec rest s c k below h shows room =
      constant_After laws prec t rest s c k Prefix.boolean_literal none 0
        (λ u. Constant.boolean (is_true u.type)) (ap get_rule e) (λ parse b s. refl) shows
        (omega arith)
  Written-After (a_false t e) prec rest s c k below h shows room =
      constant_After laws prec t rest s c k Prefix.boolean_literal none 0
        (λ u. Constant.boolean (is_true u.type)) (ap get_rule e) (λ parse b s. refl) shows
        (omega arith)
  Written-After {q} (a_variable t e) prec rest s c k below h shows room =
      variable_After laws prec q t rest s c k e h shows (omega arith)
  Written-After {q} (negated {e = e} {ts = ts} t et w) prec rest s c k below h shows room =
      let (fits, more) =
        pool_room k (pool f.minus_one e) (Constant.number f.minus_one ∷ []) 256 room in
      let (at_t, shown) = advance-Shows laws t (ts ++ rest) shows in
      let up = Follows_unary q h in
      let (s1, shows1, parses) =
        whole laws 8 q (f.advance_parser s) rest _ _
          (Written-After w 8 rest (f.advance_parser s) c k (omega arith) up shown fits) h
          (omega (arith, h.infix_at_most)) in
      After-cast prec s rest (simp (append_assoc, length-append)) (append_assoc k _ _)
        (negated_After laws prec t s s1 rest _ _ et at_t shows1 (omega arith) parses)
  Written-After {q} (inverted {e = e} {ts = ts} t et w) prec rest s c k below h shows room =
      let (at_t, shown) = advance-Shows laws t (ts ++ rest) shows in
      let up = Follows_unary q h in
      let (s1, shows1, parses) =
        whole laws 8 q (f.advance_parser s) rest _ _
          (Written-After w 8 rest (f.advance_parser s) c k (omega arith) up shown room) h
          (omega (arith, h.infix_at_most)) in
      After-cast prec s rest (append_assoc c _ _) refl
        (inverted_After laws prec t s s1 rest _ _ et at_t shows1 parses)
  Written-After {q} (grouped {e = e} {ts = ts} l r el er w) prec rest s c k below h shows room =
      let (at_l, shown) = advance-Shows laws l ((ts ++ (r ∷ [])) ++ rest) shows in
      let closing = Follows_paren r rest er in
      let (s1, shows1, parses) =
        whole laws 1 1 (f.advance_parser s) (r ∷ rest) _ _
          (Written-After w 1 (r ∷ rest) (f.advance_parser s) c k (omega arith) closing
            (Shows-tokens laws (append_assoc ts (r ∷ []) rest) shown) room)
          closing (omega (arith, Follows_paren_prec r rest er)) in
      grouped_After laws prec l r s s1 rest _ _ el er at_l shows1 parses
  Written-After {q} (applied {a = a} {b = b} {ts = ts} {us = us} op t et above w v) prec rest s c k
        below h shows room =
      let (fits, more) = pool_room k (pool f.minus_one a) (pool f.minus_one b) 256 room in
      let (s1, shows1, onward) =
        Written-After w prec (t ∷ us ++ rest) s c k (omega arith)
          (Follows_operator op t (us ++ rest) et)
          (Shows-tokens laws (append_assoc ts (t ∷ us) rest) shows) fits in
      let (at_t, shown) = advance-Shows laws t (us ++ rest) shows1 in
      let up = Follows_up q (suc (level op)) h (omega arith) in
      let (s3, shows3, parses) =
        whole laws (suc (level op)) q (f.advance_parser s1) rest _ _
          (Written-After v (suc (level op)) rest (f.advance_parser s1) _ _ (omega arith) up shown
            more)
          h (omega (arith, h.within)) in
      (
        f.write_chunk (opcode op) s3,
        Shows-cast laws (simp (append_assoc, length-append)) (append_assoc k _ _)
            (write-Shows laws (opcode op) shows3),
        λ s' loops. onward s' (
            applied_Loops laws prec op t s1 s3 s' et (omega arith)
              (laws.current_head s1 t (us ++ rest) shows1.tokens) at_t parses loops),
      )

  -- Over a front that keeps the laws of IsFront, where the tokens ahead are an expression written
  -- at PREC_ASSIGNMENT and then tokens that cannot go on with it, and the constants with those of
  -- the expression are 256 at most: with enough fuel `expression` succeeds, leaves the tokens after
  -- the expression, and appends to the chunk the code of the expression in postfix order and to the
  -- constants those of the expression, in order.
  pub expression_compiled :
      {e : Expr D} {ts : List (Token D)} (w : Written prec_assignment e ts) (rest : List (Token D))
      (s : S) (c : List ℕ) (k : List (Constant D))
      → Follows prec_none rest
      → Shows laws s (ts ++ rest) c k
      → length k + length (pool f.minus_one e) ≤ 256
      → (s1 : S) × Shows laws s1 rest
          (c ++ code_of f.minus_one (length k) e)
          (k ++ pool f.minus_one e)
        × ((n : ℕ) × ((m : ℕ) → n ≤ m → expression f m s ≡ done s1))
  expression_compiled w rest s c k h shows room =
      let (s1, shown, parses) =
        whole laws prec_assignment prec_none s rest _ _
          (Written-After w prec_assignment rest s c k (omega arith)
            (Follows_up prec_none prec_assignment h (omega arith)) shows room)
          h (omega (arith, h.within)) in
      (s1, shown, parses)
