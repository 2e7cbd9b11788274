-- ===== src/Parser/Tests.antt =====
-- Runs of the lexer and the parser, after tests/parser_test.cxx.
use b2_lang.Prelude.{
  ℕ, ℤ, pos, ◌+◌, ◌-◌, ◌*◌, ◌≡◌, refl, Bool, true, false, Option, none, some, List, [], ◌∷◌, Bytes,
  codes,
}
use b2_lang.Token.{TokenType, Token}
use b2_lang.Error.{Result, ok}
use b2_lang.Ast.{
  Node, Nodes, cons, program, function_declaration, block_statement, binary_expression,
  variable_declaration_statement, variable_expression, int_literal_expression,
}
use b2_lang.Lexer.{tokenise}
use b2_lang.Parser.Run
use b2_lang.Parser.Expr.{
  Numerals, float_read, parse_float_expression, int_read, parse_int_expression, close_paren,
  parse_paren_expression, identifier_read, parse_identifier_expression, primary,
  parse_primary_expression, parse_expression, type_read, parse_type_expression,
}
use b2_lang.Parser.Stmt.{
  parse, parse_break_statement, parse_cycle_statement, parse_show_statement, parse_return_statement,
  parse_variable_assignment, annotation, parse_variable_declaration, if_begin, if_rest,
  optional_end, if_body, parse_loop, parse_function_declaration, statement, parse_statement,
  parse_functions, parse_top_level,
}
use b2_lang.TypeCheck.Literal.{is_builtin_type}
use b2_lang.Parser
use b2_lang.Parser.{precedence}

-- Decimal digits.
read : ℕ → Bytes → ℕ
read n [] = n
read n (c ∷ cs) = read (10 * n + (c - b'0')) cs

abbrev decimal : Numerals ℤ
decimal = record { stod = λ text. none; read_int = λ text. some (pos (read 0 text)) }

data Shape : Type 0 where
  number : ℤ → Shape
  name : Bytes → Shape
  operation : TokenType → Shape → Shape → Shape
  other : Shape

abbrev shape : Node ℤ → Shape
shape (int_literal_expression _ v _) = number v
shape (variable_expression _ n _) = name n
shape (binary_expression _ op l r _ _) = operation op (shape l) (shape r)
shape _ = other

abbrev first_value : Nodes ℤ → Shape
first_value
      (cons
        (function_declaration _ _
          (block_statement _ (cons (variable_declaration_statement _ _ v _ _) _)))
        _) =
    shape v
first_value _ = other

abbrev value_of : Option (Result (List Token)) → Shape
value_of (some (ok ts)) = elim (parse decimal ts) [
  | some (ok (program _ fs, p)) ↦ first_value fs
  | _ ↦ other
]
value_of _ = other

product_first :
    value_of (tokenise [] (codes "func f() x = 1 - 2 * a - 3 end"))
    ≡ operation TokenType.minus
        (operation TokenType.minus
          (number (pos 1))
          (operation TokenType.asterisk (number (pos 2)) (name (codes "a"))))
        (number (pos 3))
unfolding tokenise parse read Parser.peek Parser.advance Parser.consume precedence
    Parser.is_terminator Run.peek Run.advance Run.consume float_read parse_float_expression int_read
    parse_int_expression close_paren parse_paren_expression identifier_read
    parse_identifier_expression primary parse_primary_expression parse_expression type_read
    parse_type_expression parse_break_statement parse_cycle_statement parse_show_statement
    parse_return_statement parse_variable_assignment annotation parse_variable_declaration if_begin
    if_rest optional_end if_body parse_loop parse_function_declaration statement parse_statement
    parse_functions parse_top_level is_builtin_type
product_first = refl

abbrev accepts : Option (Result (List Token)) → Bool
accepts (some (ok ts)) = elim (parse decimal ts) [ some (ok r) ↦ true | _ ↦ false ]
accepts _ = false

if_accepted : accepts (tokenise [] (codes "func f() if a show 1 else show 2 end end")) ≡ true
unfolding tokenise parse read Parser.peek Parser.advance Parser.consume precedence
    Parser.is_terminator Run.peek Run.advance Run.consume float_read parse_float_expression int_read
    parse_int_expression close_paren parse_paren_expression identifier_read
    parse_identifier_expression primary parse_primary_expression parse_expression type_read
    parse_type_expression parse_break_statement parse_cycle_statement parse_show_statement
    parse_return_statement parse_variable_assignment annotation parse_variable_declaration if_begin
    if_rest optional_end if_body parse_loop parse_function_declaration statement parse_statement
    parse_functions parse_top_level is_builtin_type
if_accepted = refl

-- Both the `elseif` and its `if` take an `end`, so that none is left for the function.
else_if_rejected :
    accepts (tokenise [] (codes "func f() if a show 1 elseif b show 2 end end")) ≡ false
unfolding tokenise parse read Parser.peek Parser.advance Parser.consume precedence
    Parser.is_terminator Run.peek Run.advance Run.consume float_read parse_float_expression int_read
    parse_int_expression close_paren parse_paren_expression identifier_read
    parse_identifier_expression primary parse_primary_expression parse_expression type_read
    parse_type_expression parse_break_statement parse_cycle_statement parse_show_statement
    parse_return_statement parse_variable_assignment annotation parse_variable_declaration if_begin
    if_rest optional_end if_body parse_loop parse_function_declaration statement parse_statement
    parse_functions parse_top_level is_builtin_type
else_if_rejected = refl
