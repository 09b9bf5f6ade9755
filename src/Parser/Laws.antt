-- ===== src/Parser/Laws.antt =====
-- What the expressions of src/frontend/parser ask of the code that is not among the sources.
use mathlib.Core.Path.{subst}
use ember_core.Common.{
  ℕ, ◌%◌, ◌<◌, ◌≡◌, ◌≢◌, sym, ap, ◌∙◌, true, false, List, [], ◌∷◌, ◌++◌, append_assoc, arith,
  length,
}
use ember_core.Lexer.{Token, TokenType}
use ember_core.Parser.{Front, Constant, write_two, push_constant, op_push_const}

-- A state is read as the tokens from `current` on, the code of the chunk and its constants.
pub record IsFront {S D : Type 0} (f : Front S D) : Type 0 where
  pub tokens : S → List (Token D)
  pub code : S → List ℕ
  pub constants : S → List (Constant D)
  pub current_head :
      (s : S) (t : Token D) (ts : List (Token D)) → tokens s ≡ t ∷ ts → f.current s ≡ t
  pub advances :
      (s : S) (t : Token D) (ts : List (Token D))
      → tokens s ≡ t ∷ ts
      → (f.previous (f.advance_parser s) ≡ t)
        × (tokens (f.advance_parser s) ≡ ts)
        × (code (f.advance_parser s) ≡ code s)
        × (constants (f.advance_parser s) ≡ constants s)
  pub memory : (n : ℕ) → f.malloc n ≡ true
  pub matches :
      (k : TokenType) (s : S) → (f.current s).type ≡ k → f.match k s ≡ (true, f.advance_parser s)
  pub matches_not : (k : TokenType) (s : S) → (f.current s).type ≢ k → f.match k s ≡ (false, s)
  pub consumes :
      (k : TokenType) (s : S) → (f.current s).type ≡ k → f.consume k s ≡ f.advance_parser s
  pub writes :
      (b : ℕ) (s : S)
      → (tokens (f.write_chunk b s) ≡ tokens s)
        × (code (f.write_chunk b s) ≡ code s ++ (b ∷ []))
        × (constants (f.write_chunk b s) ≡ constants s)
  pub adds :
      (c : Constant D) (s : S)
      → length (constants s) < 256
      → ((f.add_constant c s).0 ≡ length (constants s))
        × (tokens (f.add_constant c s).1 ≡ tokens s)
        × (code (f.add_constant c s).1 ≡ code s)
        × (constants (f.add_constant c s).1 ≡ constants s ++ (c ∷ []))

module _ {S D : Type 0} {f : Front S D} (laws : IsFront f) where
  pub record Shows (s : S) (ts : List (Token D)) (c : List ℕ) (k : List (Constant D)) : Type 0 where
    pub tokens : laws.tokens s ≡ ts
    pub code : laws.code s ≡ c
    pub constants : laws.constants s ≡ k

module _ {S D : Type 0} {f : Front S D} (laws : IsFront f) {s : S} {c : List ℕ}
    {k : List (Constant D)} where
  pub advance-Shows :
      (t : Token D) (ts : List (Token D))
      → Shows laws s (t ∷ ts) c k
      → (f.previous (f.advance_parser s) ≡ t) × Shows laws (f.advance_parser s) ts c k
  advance-Shows t ts h =
      let (p, a, b, d) = laws.advances s t ts h.tokens in
      (p, record { tokens = a; code = b ∙ h.code; constants = d ∙ h.constants })

  pub write-Shows :
      (b : ℕ) {ts : List (Token D)}
      → Shows laws s ts c k
      → Shows laws (f.write_chunk b s) ts (c ++ (b ∷ [])) k
  write-Shows b h =
      let (t, d, e) = laws.writes b s in
      record {
        tokens = t ∙ h.tokens;
        code = d ∙ ap (λ x. x ++ (b ∷ [])) h.code;
        constants = e ∙ h.constants;
      }

  pub add-Shows :
      (x : Constant D) {ts : List (Token D)}
      → Shows laws s ts c k
      → length k < 256
      → ((f.add_constant x s).0 ≡ length k) × Shows laws (f.add_constant x s).1 ts c (k ++ (x ∷ []))
  add-Shows x h room =
      let size : length (laws.constants s) ≡ length k = ap length h.constants in
      let (i, t, d, e) = laws.adds x s (omega (arith, size)) in
      (
        i ∙ size,
        record {
          tokens = t ∙ h.tokens;
          code = d ∙ h.code;
          constants = e ∙ ap (λ y. y ++ (x ∷ [])) h.constants;
        },
      )

module _ {S D : Type 0} {f : Front S D} (laws : IsFront f) {s : S} {c : List ℕ}
    {k : List (Constant D)} where
  pub write_two-Shows :
      (op operand : ℕ) {ts : List (Token D)}
      → operand < 256
      → Shows laws s ts c k
      → Shows laws (write_two f op operand s) ts (c ++ (op ∷ operand ∷ [])) k
  write_two-Shows op operand {ts} small h =
      let same : operand % 256 ≡ operand = omega arith in
      subst (λ o. Shows laws (f.write_chunk o (f.write_chunk op s)) ts (c ++ (op ∷ operand ∷ [])) k)
        (sym same) (rw append_assoc at (write-Shows laws operand (write-Shows laws op h)))

module _ {S D : Type 0} {f : Front S D} (laws : IsFront f) {s : S} {c : List ℕ}
    {k : List (Constant D)} where
  pub push-Shows :
      (x : Constant D) {ts : List (Token D)}
      → Shows laws s ts c k
      → length k < 256
      → Shows laws (push_constant f x s) ts (c ++ (op_push_const ∷ length k ∷ [])) (k ++ (x ∷ []))
  push-Shows x {ts} h room =
      let (i, added) = add-Shows laws x h room in
      subst
        (λ o.
          Shows laws (write_two f op_push_const o (f.add_constant x s).1) ts
            (c ++ (op_push_const ∷ length k ∷ [])) (k ++ (x ∷ [])))
        (sym i) (write_two-Shows laws op_push_const (length k) room added)

module _ {S D : Type 0} {f : Front S D} (laws : IsFront f) {s : S} {ts : List (Token D)} where
  pub Shows-cast :
      {c c' : List ℕ} {k k' : List (Constant D)}
      → c ≡ c'
      → k ≡ k'
      → Shows laws s ts c k
      → Shows laws s ts c' k'
  Shows-cast d e h = record { tokens = h.tokens; code = h.code ∙ d; constants = h.constants ∙ e }

  pub Shows-tokens :
      {us : List (Token D)} {c : List ℕ} {k : List (Constant D)}
      → ts ≡ us
      → Shows laws s ts c k
      → Shows laws s us c k
  Shows-tokens d h = record { tokens = h.tokens ∙ d; code = h.code; constants = h.constants }
