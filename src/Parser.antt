-- ===== src/Parser.antt =====
-- The compiler of expressions, src/frontend/parser: expressions.c and the expressions of oop.c. The
-- token stream, the errors, the chunk and the memory are those of code that is not among the sources:
-- `advance_parser`, `check`, `match`, `consume`, `error`, `error_at`, `write_chunk`, `emit_byte`,
-- `emit_bytes`, `add_constant` and `malloc` are the record Front, over a type of states. Messages are
-- left out.
pub mod Rules
pub mod Handlers
pub mod Variables
pub mod Collections
pub mod Objects
pub mod Expressions
pub mod Grammar
pub mod Laws
pub mod Reads
pub mod Leaves
pub mod Operators
pub mod Precedence
pub mod Compiled
pub mod Postfix
use ember_core.Common.{ℕ, ◌%◌, ◌+◌, Bool, true, false, List}
use ember_core.Lexer.{Token, TokenType}

-- the values that the parser makes
pub data Constant (D : Type 0) : Type 0 where
  number : D → Constant D
  text : List ℕ → Constant D
  boolean : Bool → Constant D
  nil : Constant D

-- a state, a call through a null pointer or a read past an array, or the recursion cut off
pub data Result (A : Type 0) : Type 0 where
  done : A → Result A
  crashed : Result A
  out_of_fuel : Result A

infixl 1 ◌>>=◌
abbrev pub ◌>>=◌ : {A B : Type 0} → Result A → (A → Result B) → Result B
done a >>= f = f a
crashed >>= f = crashed
out_of_fuel >>= f = out_of_fuel

pub record Front (S D : Type 0) : Type 0 where
  pub current : S → Token D
  pub previous : S → Token D
  pub advance_parser : S → S
  pub check : TokenType → S → Bool
  pub match : TokenType → S → Bool × S
  pub consume : TokenType → S → S
  pub error : S → S
  pub error_at : Token D → S → S
  pub write_chunk : ℕ → S → S
  pub emit_byte : ℕ → S → S
  pub emit_bytes : ℕ → ℕ → S → S
  pub add_constant : Constant D → S → ℕ × S
  pub malloc : ℕ → Bool
  pub in_async_function : S → Bool
  pub in_generator_function : S → Bool
  pub one : D
  pub minus_one : D

abbrev pub op_push_const : ℕ
op_push_const = 0

abbrev pub op_pop : ℕ
op_pop = 1

abbrev pub op_add : ℕ
op_add = 2

abbrev pub op_sub : ℕ
op_sub = 3

abbrev pub op_mul : ℕ
op_mul = 4

abbrev pub op_div : ℕ
op_div = 5

abbrev pub op_mod : ℕ
op_mod = 6

abbrev pub op_equal : ℕ
op_equal = 7

abbrev pub op_not_equal : ℕ
op_not_equal = 8

abbrev pub op_less : ℕ
op_less = 9

abbrev pub op_less_equal : ℕ
op_less_equal = 10

abbrev pub op_greater : ℕ
op_greater = 11

abbrev pub op_greater_equal : ℕ
op_greater_equal = 12

abbrev pub op_call : ℕ
op_call = 16

abbrev pub op_get_local : ℕ
op_get_local = 19

abbrev pub op_set_global : ℕ
op_set_global = 20

abbrev pub op_get_global : ℕ
op_get_global = 21

abbrev pub op_and : ℕ
op_and = 22

abbrev pub op_or : ℕ
op_or = 23

abbrev pub op_not : ℕ
op_not = 24

abbrev pub op_array_new : ℕ
op_array_new = 25

abbrev pub op_array_get : ℕ
op_array_get = 26

abbrev pub op_array_set : ℕ
op_array_set = 27

abbrev pub op_hash_map_new : ℕ
op_hash_map_new = 29

abbrev pub op_string_interpolate : ℕ
op_string_interpolate = 33

abbrev pub op_instance_new : ℕ
op_instance_new = 49

abbrev pub op_get_property : ℕ
op_get_property = 50

abbrev pub op_invoke : ℕ
op_invoke = 52

abbrev pub op_get_super : ℕ
op_get_super = 54

abbrev pub op_await : ℕ
op_await = 58

abbrev pub op_yield : ℕ
op_yield = 59

-- two bytes, the second an `int` cut to a byte
abbrev pub write_two : {S D : Type 0} → Front S D → ℕ → ℕ → S → S
write_two f op operand s = f.write_chunk (operand % 256) (f.write_chunk op s)

-- a constant added, and its index pushed
abbrev pub push_constant : {S D : Type 0} → Front S D → Constant D → S → S
push_constant f c s = let (index, s') = f.add_constant c s in write_two f op_push_const index s'
