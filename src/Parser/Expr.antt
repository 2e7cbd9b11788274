-- ===== src/Parser/Expr.antt =====
-- The expressions of src/parser.cxx. `std::stod` and the constructor of `int128_t` are parameters:
-- `none` is the exception that they throw.
use b2_lang.Prelude.{ℕ, zero, suc, ℤ, true, false, Option, none, some, ltb, if◌then◌else◌, Bytes}
use b2_lang.Token.{Token, TokenType, SourceLocation, type_eq}
use b2_lang.Error.{number_error, expected_rparen, unexpected_primary, unknown_type}
use b2_lang.Ast.{
  Node, float_literal_expression, int_literal_expression, binary_expression, variable_expression,
  function_call_expression, type_expression,
}
use b2_lang.TypeCheck.Literal.{is_builtin_type}
use b2_lang.Parser.{precedence}
use b2_lang.Parser.Run.{Run, ◌>>=◌, ◌>>◌, pure, throw, fail, out_of_fuel, peek, advance, consume}

-- What the libraries read of the text of a number.
pub record Numerals (D : Type 0) : Type 0 where
  pub stod : Bytes → Option D
  pub read_int : Bytes → Option ℤ

module _ {D : Type 0} (N : Numerals D) where
  unfoldable pub float_read : Token → Option D → Run (Node D)
  float_read token none = throw (number_error token.value)
  float_read token (some value) =
      advance >> pure (float_literal_expression token.source_location value none)

  unfoldable pub parse_float_expression : Run (Node D)
  parse_float_expression = do token ← peek; float_read token (N.stod token.value)

  unfoldable pub int_read : Token → Option ℤ → Run (Node D)
  int_read token none = throw (number_error token.value)
  int_read token (some value) =
      advance >> pure (int_literal_expression token.source_location value none)

  unfoldable pub parse_int_expression : Run (Node D)
  parse_int_expression = do token ← peek; int_read token (N.read_int token.value)

  -- From the test of `RParen` on.
  unfoldable pub close_paren : Node D → Token → Run (Node D)
  close_paren expr token =
      if type_eq token.type TokenType.rparen
      then advance >> pure expr
      else fail token.source_location expected_rparen

  -- `expression` is `parse_expression(0)`.
  unfoldable pub parse_paren_expression : Run (Node D) → Run (Node D)
  parse_paren_expression expression = do
    advance
    expr ← expression
    token ← peek
    close_paren expr token

  -- From the test of `LParen` on. The location is that of the token behind.
  unfoldable pub identifier_read : Bytes → Token → Run (Node D)
  identifier_read name token =
      if type_eq token.type TokenType.lparen
      then (do
        advance
        consume TokenType.rparen
        behind ← peek
        pure (function_call_expression behind.source_location name))
      else pure (variable_expression token.source_location name none)

  unfoldable pub parse_identifier_expression : Run (Node D)
  parse_identifier_expression = do
    name ← peek
    advance
    token ← peek
    identifier_read name.value token

  unfoldable pub primary : Run (Node D) → SourceLocation → TokenType → Run (Node D)
  primary expression loc TokenType.float_literal = parse_float_expression
  primary expression loc TokenType.int_literal = parse_int_expression
  primary expression loc TokenType.lparen = parse_paren_expression expression
  primary expression loc TokenType.identifier = parse_identifier_expression
  primary expression loc other = fail loc (unexpected_primary other)

  unfoldable pub parse_primary_expression : Run (Node D) → Run (Node D)
  parse_primary_expression expression = do
    token ← peek
    primary expression token.source_location token.type

  -- Each call, and each round of the loop, spends one unit of fuel.
  unfoldable mutual
    pub parse_expression : ℕ → ℕ → Run (Node D)
    parse_expression zero min_precedence = out_of_fuel
    parse_expression (suc f) min_precedence = do
      lhs ← parse_primary_expression (parse_expression f 0)
      parse_operators f min_precedence lhs

    -- The loop of `parse_expression`.
    pub parse_operators : ℕ → ℕ → Node D → Run (Node D)
    parse_operators zero min_precedence lhs = out_of_fuel
    parse_operators (suc f) min_precedence lhs = do
      op ← peek
      elim (ltb min_precedence (precedence op.type)) [
        | false ↦ pure lhs
        | true ↦ do
          advance
          rhs ← parse_expression f (precedence op.type)
          parse_operators f min_precedence
              (binary_expression op.source_location op.type lhs rhs none none)
      ]

  unfoldable pub type_read : Token → Run (Node D)
  type_read token =
      if is_builtin_type token.value
      then pure (type_expression token.source_location token.value)
      else fail token.source_location (unknown_type token.value)

  unfoldable pub parse_type_expression : Run (Node D)
  parse_type_expression = consume TokenType.identifier >>= type_read
