-- ===== src/Examples/Compiling.antt =====
-- Runs of src/frontend.cxx on the text of small programs, and its theorems there. A `double` is
-- played by an integer, and no text is one.
use b2_lang.Prelude.{
  ℕ, ◌+◌, ◌-◌, ◌*◌, ◌<◌, ◌≡◌, ◌≢◌, refl, true, false, Option, none, some, List, [], ◌∷◌, ℤ, pos,
  negsuc, neg_of, leb_ℤ, Bytes, codes, arith,
}
use b2_lang.Token.{Token}
use b2_lang.Error.{Result, ok, undefined}
use b2_lang.Ast.{Node, nil, program, break_statement}
use b2_lang.Lexer.{tokenise}
use b2_lang.Lexer.Progress.{ends_once}
use b2_lang.Parser
use b2_lang.Parser.{Parser, precedence}
use b2_lang.Parser.Run
use b2_lang.Parser.Expr.{
  Numerals, float_read, parse_float_expression, int_read, parse_int_expression, close_paren,
  parse_paren_expression, identifier_read, parse_identifier_expression, primary,
  parse_primary_expression, parse_expression, type_read, parse_type_expression,
}
use b2_lang.Parser.Stmt.{
  parse, parse_break_statement, parse_cycle_statement, parse_show_statement, parse_return_statement,
  parse_variable_assignment, annotation, parse_variable_declaration, if_begin, if_rest,
  optional_end, if_body, parse_loop, parse_function_declaration, statement, parse_statement,
  parse_functions, parse_top_level,
}
use b2_lang.Parser.Shape.{is_program}
use b2_lang.Parser.Shape.Program.{parse-is_program}
use b2_lang.Parser.Total.{parse_total}
use b2_lang.TypeCheck.Literal.{Doubles, is_builtin_type}
use b2_lang.TypeCheck.Scope
use b2_lang.TypeCheck.Expr.{
  Checker, check_expr, infer_expr, infer_expr_top_level, check_expr_int_literal,
}
use b2_lang.TypeCheck.Literal.{
  int_is_in_range, is_literal, is_integer, get_literal_default, find_promotion,
}
use b2_lang.Token.{is_bool_operator}
use b2_lang.TypeCheck.Stmt.{
  visit_statement_node, visit_statement_var_decl, visit_statement_return, visit_statement_break,
  push_scope, pop_scope, enter_loop, leave_loop, add_function, initial_checker, depth_mod,
}
use b2_lang.TypeCheck.Stmt.Loops.{jumps_in_loops}
use b2_lang.Frontend.{compile}
use b2_lang.Frontend.Functions.{has_one_function}
use b2_lang.Frontend.Accepts.{compile_total, compile_sound, compile_defined}

abbrev pub negated : ℤ → ℤ
negated (pos n) = neg_of n
negated (negsuc n) = pos (n + 1)

abbrev pub whole : Doubles
whole = record { Double = ℤ; of_int = λ v. v; negate = negated; le = leb_ℤ }

-- Decimal digits.
abbrev pub read : ℕ → Bytes → ℕ
read n [] = n
read n (c ∷ cs) = read (10 * n + (c - b'0')) cs

abbrev pub decimal : Numerals ℤ
decimal = record { stod = λ text. none; read_int = λ text. some (pos (read 0 text)) }

abbrev loop_text : Bytes
loop_text = codes "func f() loop break end end"

-- What a compilation returns, or something else if it does not return.
abbrev pub returned : Option (Result (Checker × Node ℤ)) → Checker × Node ℤ
returned (some (ok s)) = s
returned _ = (initial_checker 0, break_statement (record { line = 0; column = 0; filename = [] }))

abbrev loop_checked : Checker × Node ℤ
loop_checked = returned (compile whole decimal 0 [] loop_text)

abbrev tokens_of : Option (Result (List Token)) → List Token
tokens_of (some (ok ts)) = ts
tokens_of _ = []

abbrev loop_tokens : List Token
loop_tokens = tokens_of (tokenise [] loop_text)

loop_compiled : compile whole decimal 0 [] loop_text ≡ some (ok (loop_checked.0, loop_checked.1))
unfolding compile tokenise parse Parser.peek Parser.advance Parser.consume precedence
    Parser.is_terminator Run.peek Run.advance Run.consume float_read parse_float_expression int_read
    parse_int_expression close_paren parse_paren_expression identifier_read
    parse_identifier_expression primary parse_primary_expression parse_expression type_read
    parse_type_expression parse_break_statement parse_cycle_statement parse_show_statement
    parse_return_statement parse_variable_assignment annotation parse_variable_declaration if_begin
    if_rest optional_end if_body parse_loop parse_function_declaration statement parse_statement
    parse_functions parse_top_level is_builtin_type visit_statement_node visit_statement_var_decl
    visit_statement_return visit_statement_break push_scope pop_scope enter_loop leave_loop
    add_function Scope.push Scope.pop
loop_compiled = refl

compile_sound_example :
    (ts : List Token) × (n : Node ℤ) × (p : Parser) × (tokenise [] loop_text ≡ some (ok ts))
    × (parse decimal ts ≡ some (ok (n, p)))
    × (is_program n ≡ true)
    × (has_one_function n ≡ true)
    × (jumps_in_loops false n ≡ true)
compile_sound_example =
    compile_sound whole decimal [] loop_text loop_checked.0 loop_checked.1 loop_compiled

compile_total_example :
    (r : Result (Checker × Node ℤ)) × (compile whole decimal 7 [] loop_text ≡ some r)
compile_total_example = compile_total whole decimal 7 [] loop_text

loop_ends : ends_once loop_tokens ≡ true
unfolding tokenise
loop_ends = refl

parse_total_example :
    (r : Result (Node ℤ × Parser)) × (parse decimal loop_tokens ≡ some r) × (r ≢ undefined)
parse_total_example = parse_total decimal loop_tokens loop_ends

abbrev parsed : Option (Result (Node ℤ × Parser)) → Node ℤ × Parser
parsed (some (ok s)) = s
parsed _ = (
  program (record { line = 0; column = 0; filename = [] }) nil,
  record { tokens = []; index = 0 },
)

abbrev loop_tree : Node ℤ × Parser
loop_tree = parsed (parse decimal loop_tokens)

loop_parsed : parse decimal loop_tokens ≡ some (ok (loop_tree.0, loop_tree.1))
unfolding tokenise parse Parser.peek Parser.advance Parser.consume precedence Parser.is_terminator
    Run.peek Run.advance Run.consume float_read parse_float_expression int_read parse_int_expression
    close_paren parse_paren_expression identifier_read parse_identifier_expression primary
    parse_primary_expression parse_expression type_read parse_type_expression parse_break_statement
    parse_cycle_statement parse_show_statement parse_return_statement parse_variable_assignment
    annotation parse_variable_declaration if_begin if_rest optional_end if_body parse_loop
    parse_function_declaration statement parse_statement parse_functions parse_top_level
    is_builtin_type
loop_parsed = refl

parse-is_program_example : is_program loop_tree.0 ≡ true
parse-is_program_example = parse-is_program decimal loop_tokens loop_tree.0 loop_tree.1 loop_parsed

-- Two functions, whose second pops an empty stack.
abbrev two_text : Bytes
two_text = codes "func f() end func g() end"

two_undefined : compile whole decimal 0 [] two_text ≡ some undefined
unfolding compile tokenise parse Parser.peek Parser.advance Parser.consume precedence
    Parser.is_terminator Run.peek Run.advance Run.consume float_read parse_float_expression int_read
    parse_int_expression close_paren parse_paren_expression identifier_read
    parse_identifier_expression primary parse_primary_expression parse_expression type_read
    parse_type_expression parse_break_statement parse_cycle_statement parse_show_statement
    parse_return_statement parse_variable_assignment annotation parse_variable_declaration if_begin
    if_rest optional_end if_body parse_loop parse_function_declaration statement parse_statement
    parse_functions parse_top_level is_builtin_type visit_statement_node visit_statement_var_decl
    visit_statement_return visit_statement_break push_scope pop_scope enter_loop leave_loop
    add_function Scope.push Scope.pop
two_undefined = refl

zero_small : 0 < depth_mod
zero_small = omega arith

compile_defined_example :
    (ts : List Token) × (n : Node ℤ) × (p : Parser) × (tokenise [] two_text ≡ some (ok ts))
    × (parse decimal ts ≡ some (ok (n, p)))
    × (is_program n ≡ true)
    × (has_one_function n ≡ false)
compile_defined_example = compile_defined whole decimal 0 [] two_text refl zero_small two_undefined

-- The type checker accepts `!=`.
abbrev pub unequal_text : Bytes
unequal_text = codes "func f() x = 1 != 2 end"

unfoldable pub unequal_checked : Checker × Node ℤ
unfolding compile tokenise parse Parser.peek Parser.advance Parser.consume precedence
    Parser.is_terminator Run.peek Run.advance Run.consume float_read parse_float_expression int_read
    parse_int_expression close_paren parse_paren_expression identifier_read
    parse_identifier_expression primary parse_primary_expression parse_expression type_read
    parse_type_expression parse_break_statement parse_cycle_statement parse_show_statement
    parse_return_statement parse_variable_assignment annotation parse_variable_declaration if_begin
    if_rest optional_end if_body parse_loop parse_function_declaration statement parse_statement
    parse_functions parse_top_level is_builtin_type visit_statement_node visit_statement_var_decl
    visit_statement_return visit_statement_break push_scope pop_scope enter_loop leave_loop
    add_function Scope.push Scope.pop check_expr infer_expr infer_expr_top_level is_bool_operator
    is_literal find_promotion check_expr_int_literal get_literal_default is_integer int_is_in_range
    Scope.find Scope.store
unequal_checked = returned (compile whole decimal 0 [] unequal_text)

pub unequal_compiled :
    compile whole decimal 0 [] unequal_text ≡ some (ok (unequal_checked.0, unequal_checked.1))
unfolding unequal_checked compile tokenise parse Parser.peek Parser.advance Parser.consume
    precedence Parser.is_terminator Run.peek Run.advance Run.consume float_read
    parse_float_expression int_read parse_int_expression close_paren parse_paren_expression
    identifier_read parse_identifier_expression primary parse_primary_expression parse_expression
    type_read parse_type_expression parse_break_statement parse_cycle_statement parse_show_statement
    parse_return_statement parse_variable_assignment annotation parse_variable_declaration if_begin
    if_rest optional_end if_body parse_loop parse_function_declaration statement parse_statement
    parse_functions parse_top_level is_builtin_type visit_statement_node visit_statement_var_decl
    visit_statement_return visit_statement_break push_scope pop_scope enter_loop leave_loop
    add_function Scope.push Scope.pop check_expr infer_expr infer_expr_top_level is_bool_operator
    is_literal find_promotion check_expr_int_literal get_literal_default is_integer int_is_in_range
    Scope.find Scope.store
unequal_compiled = refl
