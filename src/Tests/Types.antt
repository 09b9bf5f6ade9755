-- ===== src/Tests/Types.antt =====
-- Token types as numbers, for the runs on concrete inputs.
use ember_core.Common.{ℕ, ◌≡◌, refl, sym, ap, ◌∙◌, [], ◌∷◌, get_or, ◌==◌, ==_iff, true}
use ember_core.Lexer.{TokenType}

abbrev pub index : TokenType → ℕ
index TokenType.token_number = 0
index TokenType.token_string = 1
index TokenType.token_interpolated_string = 2
index TokenType.token_plus = 3
index TokenType.token_minus = 4
index TokenType.token_multiply = 5
index TokenType.token_divide = 6
index TokenType.token_modulo = 7
index TokenType.token_plus_plus = 8
index TokenType.token_minus_minus = 9
index TokenType.token_plus_equal = 10
index TokenType.token_minus_equal = 11
index TokenType.token_multiply_equal = 12
index TokenType.token_divide_equal = 13
index TokenType.token_lparen = 14
index TokenType.token_rparen = 15
index TokenType.token_equal = 16
index TokenType.token_equal_equal = 17
index TokenType.token_not_equal = 18
index TokenType.token_less = 19
index TokenType.token_less_equal = 20
index TokenType.token_greater = 21
index TokenType.token_greater_equal = 22
index TokenType.token_if = 23
index TokenType.token_else = 24
index TokenType.token_while = 25
index TokenType.token_do = 26
index TokenType.token_for = 27
index TokenType.token_fn = 28
index TokenType.token_function = 29
index TokenType.token_return = 30
index TokenType.token_import = 31
index TokenType.token_break = 32
index TokenType.token_continue = 33
index TokenType.token_lbrace = 34
index TokenType.token_rbrace = 35
index TokenType.token_comma = 36
index TokenType.token_colon = 37
index TokenType.token_at = 38
index TokenType.token_and = 39
index TokenType.token_or = 40
index TokenType.token_not = 41
index TokenType.token_and_and = 42
index TokenType.token_or_or = 43
index TokenType.token_true = 44
index TokenType.token_false = 45
index TokenType.token_identifier = 46
index TokenType.token_semicolon = 47
index TokenType.token_newline = 48
index TokenType.token_lbracket = 49
index TokenType.token_rbracket = 50
index TokenType.token_try = 51
index TokenType.token_catch = 52
index TokenType.token_finally = 53
index TokenType.token_throw = 54
index TokenType.token_class = 55
index TokenType.token_extends = 56
index TokenType.token_new = 57
index TokenType.token_this = 58
index TokenType.token_super = 59
index TokenType.token_dot = 60
index TokenType.token_async = 61
index TokenType.token_await = 62
index TokenType.token_yield = 63
index TokenType.token_switch = 64
index TokenType.token_case = 65
index TokenType.token_default = 66
index TokenType.token_export = 67
index TokenType.token_from = 68
index TokenType.token_as = 69
index TokenType.token_require = 70
index TokenType.token_eof = 71
index TokenType.token_error = 72

abbrev pub token_at : ℕ → TokenType
token_at i =
    get_or
      (TokenType.token_number ∷ TokenType.token_string ∷ TokenType.token_interpolated_string
        ∷ TokenType.token_plus ∷ TokenType.token_minus ∷ TokenType.token_multiply
        ∷ TokenType.token_divide ∷ TokenType.token_modulo ∷ TokenType.token_plus_plus
        ∷ TokenType.token_minus_minus ∷ TokenType.token_plus_equal ∷ TokenType.token_minus_equal
        ∷ TokenType.token_multiply_equal ∷ TokenType.token_divide_equal ∷ TokenType.token_lparen
        ∷ TokenType.token_rparen ∷ TokenType.token_equal ∷ TokenType.token_equal_equal
        ∷ TokenType.token_not_equal ∷ TokenType.token_less ∷ TokenType.token_less_equal
        ∷ TokenType.token_greater ∷ TokenType.token_greater_equal ∷ TokenType.token_if
        ∷ TokenType.token_else ∷ TokenType.token_while ∷ TokenType.token_do ∷ TokenType.token_for
        ∷ TokenType.token_fn ∷ TokenType.token_function ∷ TokenType.token_return
        ∷ TokenType.token_import ∷ TokenType.token_break ∷ TokenType.token_continue
        ∷ TokenType.token_lbrace ∷ TokenType.token_rbrace ∷ TokenType.token_comma
        ∷ TokenType.token_colon ∷ TokenType.token_at ∷ TokenType.token_and ∷ TokenType.token_or
        ∷ TokenType.token_not ∷ TokenType.token_and_and ∷ TokenType.token_or_or
        ∷ TokenType.token_true ∷ TokenType.token_false ∷ TokenType.token_identifier
        ∷ TokenType.token_semicolon ∷ TokenType.token_newline ∷ TokenType.token_lbracket
        ∷ TokenType.token_rbracket ∷ TokenType.token_try ∷ TokenType.token_catch
        ∷ TokenType.token_finally ∷ TokenType.token_throw ∷ TokenType.token_class
        ∷ TokenType.token_extends ∷ TokenType.token_new ∷ TokenType.token_this
        ∷ TokenType.token_super ∷ TokenType.token_dot ∷ TokenType.token_async
        ∷ TokenType.token_await ∷ TokenType.token_yield ∷ TokenType.token_switch
        ∷ TokenType.token_case ∷ TokenType.token_default ∷ TokenType.token_export
        ∷ TokenType.token_from ∷ TokenType.token_as ∷ TokenType.token_require ∷ TokenType.token_eof
        ∷ TokenType.token_error ∷ [])
      i TokenType.token_error

token_at-index : (t : TokenType) → token_at (index t) ≡ t
token_at-index TokenType.token_number = refl
token_at-index _ = refl

pub index_inj : (t u : TokenType) → (index t == index u) ≡ true → t ≡ u
index_inj t u e =
    sym (token_at-index t) ∙ ap token_at ((==_iff (index t) (index u)).0 e) ∙ token_at-index u
