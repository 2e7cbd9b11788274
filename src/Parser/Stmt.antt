-- ===== src/Parser/Stmt.antt =====
-- The statements and declarations of src/parser.cxx.
use b2_lang.Prelude.{
  ℕ, zero, suc, ◌+◌, ◌*◌, true, false, Option, none, List, [], ◌∷◌, length, if◌then◌else◌,
}
use b2_lang.Token.{Token, TokenType, SourceLocation, type_eq}
use b2_lang.Error.{Result, unexpected_statement}
use b2_lang.Ast.{
  Node, MaybeNode, Nodes, null, present, nil, cons, variable_assignment_statement,
  variable_declaration_statement, show_statement, function_declaration, program, return_statement,
  if_statement, block_statement, loop_statement, break_statement, cycle_statement,
}
use b2_lang.Parser.{Parser, is_terminator}
use b2_lang.Parser.Run.{Run, ◌>>=◌, ◌>>◌, pure, fail, out_of_fuel, peek, advance, consume}
use b2_lang.Parser.Expr.{Numerals, parse_expression, parse_type_expression}

-- `IF_TERMINATORS`.
abbrev pub if_terminators : List TokenType
if_terminators = TokenType.else_if_kw ∷ TokenType.else_kw ∷ TokenType.end_kw ∷ []

abbrev pub end_terminators : List TokenType
end_terminators = TokenType.end_kw ∷ []

-- `SourceLocation{}`.
abbrev pub no_location : SourceLocation
no_location = record { line = 1; column = 0; filename = [] }

-- `if (peek().type == type) ...`, else the other step.
abbrev pub when_next {ℓ} : {A : Type ℓ} → TokenType → Run A → Run A → Run A
when_next type this that = do token ← peek; if type_eq token.type type then this else that

-- `begin` of `parse_if_statement`.
unfoldable pub if_begin : Run SourceLocation
if_begin =
    when_next TokenType.if_kw (do token ← consume TokenType.if_kw; pure token.source_location)
      (when_next TokenType.else_if_kw
        (do token ← consume TokenType.else_if_kw; pure token.source_location) (pure no_location))

unfoldable pub optional_end : Run (Unit {0})
optional_end = when_next TokenType.end_kw (do consume TokenType.end_kw; pure tt) (pure tt)

module _ {D : Type 0} where
  unfoldable pub parse_break_statement : Run (Node D)
  parse_break_statement = do
    token ← consume TokenType.break_kw
    pure (break_statement token.source_location)

  unfoldable pub parse_cycle_statement : Run (Node D)
  parse_cycle_statement = do
    token ← consume TokenType.cycle_kw
    pure (cycle_statement token.source_location)

  -- In what follows `expression` is `parse_expression(0)`.
  unfoldable pub parse_show_statement : Run (Node D) → Run (Node D)
  parse_show_statement expression = do
    token ← consume TokenType.show_kw
    expr ← expression
    pure (show_statement token.source_location expr none)

  unfoldable pub parse_return_statement : Run (Node D) → Run (Node D)
  parse_return_statement expression = do
    token ← consume TokenType.return_kw
    expr ← expression
    pure (return_statement token.source_location expr none)

  unfoldable pub parse_variable_assignment : Run (Node D) → Run (Node D)
  parse_variable_assignment expression = do
    token ← consume TokenType.set_kw
    name ← consume TokenType.identifier
    consume TokenType.assignment
    value ← expression
    pure (variable_assignment_statement token.source_location name.value value none)

  module _ (N : Numerals D) where
    -- The type of a declaration, if it has one.
    unfoldable pub annotation : Run (MaybeNode D)
    annotation =
        when_next TokenType.colon (do advance; type ← parse_type_expression N; pure (present type))
          (pure null)

    unfoldable pub parse_variable_declaration : Run (Node D) → Run (Node D)
    parse_variable_declaration expression = do
      name ← peek
      advance
      type_identifier ← annotation
      consume TokenType.assignment
      value ← expression
      pure (
          variable_declaration_statement name.source_location name.value value type_identifier none)

  -- `if_else`: `again` is `parse_if_statement()` and `final` is `parse_block_statement({End})`.
  unfoldable pub if_rest : Run (Node D) → Run (Node D) → Run (MaybeNode D)
  if_rest again final =
      when_next TokenType.else_if_kw (do node ← again; pure (present node))
        (when_next TokenType.else_kw
          (do consume TokenType.else_kw; node ← final; pure (present node)) (pure null))

  -- The body of `parse_if_statement`; `block` is `parse_block_statement(IF_TERMINATORS)`.
  unfoldable pub if_body : Run (Node D) → Run (Node D) → Run (Node D) → Run (Node D) → Run (Node D)
  if_body expression block again final = do
    begin ← if_begin
    condition ← expression
    if_then ← block
    if_else ← if_rest again final
    optional_end
    pure (if_statement begin condition if_then if_else)

  -- `parse_loop`; `block` is `parse_block_statement({End})`.
  unfoldable pub parse_loop : Run (Node D) → Run (Node D)
  parse_loop block = do
    token ← consume TokenType.loop_kw
    body ← block
    consume TokenType.end_kw
    pure (loop_statement token.source_location body)

  unfoldable pub parse_function_declaration : Run (Node D) → Run (Node D)
  parse_function_declaration block = do
    consume TokenType.function_kw
    name ← consume TokenType.identifier
    consume TokenType.lparen
    consume TokenType.rparen
    statements ← block
    consume TokenType.end_kw
    pure (function_declaration name.source_location name.value statements)

  module _ (N : Numerals D) where
    -- The `switch` of `parse_statement`.
    unfoldable pub statement :
        Run (Node D) → Run (Node D) → Run (Node D) → SourceLocation → TokenType → Run (Node D)
    statement expression if_ block loc TokenType.identifier =
        parse_variable_declaration N expression
    statement expression if_ block loc TokenType.set_kw = parse_variable_assignment expression
    statement expression if_ block loc TokenType.show_kw = parse_show_statement expression
    statement expression if_ block loc TokenType.return_kw = parse_return_statement expression
    statement expression if_ block loc TokenType.if_kw = if_
    statement expression if_ block loc TokenType.loop_kw = parse_loop block
    statement expression if_ block loc TokenType.break_kw = parse_break_statement
    statement expression if_ block loc TokenType.cycle_kw = parse_cycle_statement
    statement expression if_ block loc other = fail loc (unexpected_statement other)

    unfoldable mutual
      pub parse_statement : ℕ → Run (Node D)
      parse_statement zero = out_of_fuel
      parse_statement (suc f) = do
        token ← peek
        statement (parse_expression N f 0) (parse_if_statement f)
            (parse_block_statement f end_terminators) token.source_location token.type

      pub parse_if_statement : ℕ → Run (Node D)
      parse_if_statement zero = out_of_fuel
      parse_if_statement (suc f) =
          if_body (parse_expression N f 0) (parse_block_statement f if_terminators)
            (parse_if_statement f) (parse_block_statement f end_terminators)

      pub parse_block_statement : ℕ → List TokenType → Run (Node D)
      parse_block_statement zero terminators = out_of_fuel
      parse_block_statement (suc f) terminators = do
        token ← peek
        statements ← parse_statements f terminators
        pure (block_statement token.source_location statements)

      -- The loop of `parse_block_statement`.
      pub parse_statements : ℕ → List TokenType → Run (Nodes D)
      parse_statements zero terminators = out_of_fuel
      parse_statements (suc f) terminators = do
        token ← peek
        elim (is_terminator terminators token.type) [
          | true ↦ pure nil
          | false ↦ do
            node ← parse_statement f
            nodes ← parse_statements f terminators
            pure (cons node nodes)
        ]

    -- The loop of `parse_top_level`.
    unfoldable pub parse_functions : ℕ → Run (Nodes D)
    parse_functions zero = out_of_fuel
    parse_functions (suc f) = do
      token ← peek
      elim (type_eq token.type TokenType.end_of_file) [
        | true ↦ pure nil
        | false ↦ do
          node ← parse_function_declaration (parse_block_statement f end_terminators)
          nodes ← parse_functions f
          pure (cons node nodes)
      ]

    unfoldable pub parse_top_level : ℕ → Run (Node D)
    parse_top_level f = do functions ← parse_functions f; pure (program no_location functions)

    -- A new parser and its `parse_top_level`, with fuel that is enough for the tokens.
    unfoldable pub parse : List Token → Option (Result (Node D × Parser))
    parse tokens = parse_top_level (4 * length tokens + 8) (record { tokens = tokens; index = 0 })
