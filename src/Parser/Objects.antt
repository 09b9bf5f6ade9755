-- ===== src/Parser/Objects.antt =====
-- The expressions of src/frontend/parser/oop.c: this, super, new and the dot.
use ember_core.Common.{ℕ, zero, suc, ◌+◌, ◌%◌, codes, ltb, if◌then◌else◌, take}
use ember_core.Lexer.{Token, TokenType}
use ember_core.Parser.{
  Front, Result, done, crashed, out_of_fuel, ◌>>=◌, Constant, op_push_const, op_get_local,
  op_get_global, op_get_super, op_instance_new, op_invoke, op_get_property,
}
use ember_core.Parser.Handlers.{add_name, expression}

abbrev pub max_args : ℕ
max_args = 64

module _ {S D : Type 0} (f : Front S D) where
  abbrev pub emit_constant : Constant D → S → S
  emit_constant c s =
      let (constant, s1) = f.add_constant c s in f.emit_bytes op_push_const (constant % 256) s1

  abbrev pub this_expression : S → S
  this_expression s = f.emit_byte 0 (f.emit_byte op_get_local s)

  abbrev pub super_expression : S → Result S
  super_expression s =
      add_name f (f.consume TokenType.token_identifier (f.consume TokenType.token_dot s))
      >>= λ (index, s1). done (f.emit_bytes op_get_super (index % 256) s1)

  module _ (parse : ℕ → S → Result S) where
    -- the loop over the arguments, which stops with an error above EMBER_MAX_ARGS
    unfoldable pub limited_arguments : ℕ → ℕ → S → Result (ℕ × S)
    limited_arguments zero count s = out_of_fuel
    limited_arguments (suc fuel) count s = expression f parse s >>= λ s1.
        let (more, s2) = f.match TokenType.token_comma s1 in
        let rest = limited_arguments fuel (count + 1) s2 in
        if ltb max_args (count + 1)
        then done (count + 1, f.error_at (f.current s1) s1)
        else if more
        then rest
        else done (count + 1, s2)

    abbrev pub limited_list : ℕ → S → Result (ℕ × S)
    limited_list fuel s =
        (if f.check TokenType.token_rparen s then done (0, s) else limited_arguments fuel 0 s)
        >>= λ (count, s1). done (count, f.consume TokenType.token_rparen s1)

    -- after the class is on the stack
    abbrev pub constructor_call : ℕ → S → Result S
    constructor_call fuel s =
        let (there, s1) = f.match TokenType.token_lparen s in
        if there
        then (limited_list fuel s1 >>= λ (count, s2). done (
            f.emit_bytes op_invoke (count % 256) (emit_constant (Constant.text (codes "init")) s2)))
        else done s1

    abbrev pub new_expression : ℕ → S → Result S
    new_expression fuel s = add_name f (f.consume TokenType.token_identifier s) >>= λ (index, s1).
        constructor_call fuel
          (f.emit_byte op_instance_new (f.emit_bytes op_get_global (index % 256) s1))

    -- with the name of the property
    abbrev pub property : ℕ → Token D → S → Result S
    property fuel name s =
        let (there, s1) = f.match TokenType.token_lparen s in
        let constant = Constant.text (take name.length name.start) in
        if there
        then (limited_list fuel s1 >>= λ (count, s2).
            done (f.emit_bytes op_invoke (count % 256) (emit_constant constant s2)))
        else (let (index, s2) = f.add_constant constant s1 in
            done (f.emit_bytes op_get_property (index % 256) s2))

    abbrev pub dot_expression : ℕ → S → Result S
    dot_expression fuel s =
        let s1 = f.consume TokenType.token_identifier s in
        let name = f.previous s1 in
        if f.malloc (name.length + 1) then property fuel name s1 else crashed
