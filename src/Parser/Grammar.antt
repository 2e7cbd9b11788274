-- ===== src/Parser/Grammar.antt =====
-- Expressions as the precedences of src/parser.cxx read them, with the texts and the locations of
-- their tokens.
pub mod Leaf
pub mod Place
pub mod RoundTrip
pub mod Steps
use b2_lang.Prelude.{
  ℕ, ◌+◌, ◌-◌, ◌≡◌, ℤ, Bool, true, ◌&&◌, Option, none, some, List, [], ◌∷◌, ◌++◌, ltb, Bytes,
}
use b2_lang.Token.{Token, TokenType, SourceLocation}
use b2_lang.Ast.{
  Node, float_literal_expression, int_literal_expression, variable_expression, binary_expression,
  function_call_expression,
}
use b2_lang.Parser.{precedence}
use b2_lang.Parser.Expr.{Numerals}

-- The operators of two operands.
pub data Operator : Type 0 where
  equals not_equals greater less greater_equals less_equals plus minus times divide : Operator

unfoldable pub type_of : Operator → TokenType
type_of equals = TokenType.equals
type_of not_equals = TokenType.not_equals
type_of greater = TokenType.greater_than
type_of less = TokenType.less_than
type_of greater_equals = TokenType.greater_than_equals
type_of less_equals = TokenType.less_than_equals
type_of plus = TokenType.plus
type_of minus = TokenType.minus
type_of times = TokenType.asterisk
type_of divide = TokenType.forward_slash

-- The text and the location of a token.
abbrev pub Lexeme : Type 0
Lexeme = Bytes × SourceLocation

abbrev pub token : TokenType → Lexeme → Token
token type w = record { type = type; value = w.0; source_location = w.1 }

-- `D` is `double`.
pub data Expression (D : Type 0) : Type 0 where
  float : Lexeme → D → Expression D
  number : Lexeme → ℤ → Expression D
  variable : Lexeme → Expression D
  -- The name and the two parentheses behind it.
  call : Lexeme → Lexeme → Lexeme → Expression D
  operation : Operator → Lexeme → Expression D → Expression D → Expression D
  -- Between the two parentheses.
  parentheses : Lexeme → Expression D → Lexeme → Expression D

-- Fuel that is enough for an expression.
unfoldable pub size : {D : Type 0} → Expression D → ℕ
size (float w d) = 1
size (number w v) = 1
size (variable w) = 1
size (call w open_paren close) = 1
size (operation op w l r) = size l + size r + 2
size (parentheses open_paren e close) = size e + 2

abbrev pub binds : Operator → ℕ
binds op = precedence (type_of op)

unfoldable pub emit : {D : Type 0} → Expression D → List Token
emit (float w d) = token TokenType.float_literal w ∷ []
emit (number w v) = token TokenType.int_literal w ∷ []
emit (variable w) = token TokenType.identifier w ∷ []
emit (call w open_paren close) =
    token TokenType.identifier w
    ∷ token TokenType.lparen open_paren
    ∷ token TokenType.rparen close
    ∷ []
emit (operation op w l r) = emit l ++ (token (type_of op) w ∷ emit r)
emit (parentheses open_paren e close) =
    token TokenType.lparen open_paren ∷ (emit e ++ (token TokenType.rparen close ∷ []))

-- Whether each operator outside parentheses binds more tightly than the level, the left operand of
-- an operator at least as tightly as the operator, and the right operand more tightly.
unfoldable pub fits : {D : Type 0} → ℕ → Expression D → Bool
fits level (float w d) = true
fits level (number w v) = true
fits level (variable w) = true
fits level (call w open_paren close) = true
fits level (operation op w l r) =
    ltb level (binds op) && (fits (binds op - 1) l && fits (binds op) r)
fits level (parentheses open_paren e close) = fits 0 e

-- The tree of an expression before a token at the location `behind`, which is the location of a
-- variable or a call that ends the expression.
unfoldable pub node_of : {D : Type 0} → Expression D → SourceLocation → Node D
node_of (float w d) behind = float_literal_expression w.1 d none
node_of (number w v) behind = int_literal_expression w.1 v none
node_of (variable w) behind = variable_expression behind w.0 none
node_of (call w open_paren close) behind = function_call_expression behind w.0
node_of (operation op w l r) behind =
    binary_expression w.1 (type_of op) (node_of l w.1) (node_of r behind) none none
node_of (parentheses open_paren e close) behind = node_of e close.1

-- The texts of the numbers in the expression are read as the numbers.
unfoldable pub HasNumbersRead : {D : Type 0} → Numerals D → Expression D → Type 0
HasNumbersRead N (float w d) = N.stod w.0 ≡ some d
HasNumbersRead N (number w v) = N.read_int w.0 ≡ some v
HasNumbersRead N (variable w) = Unit {0}
HasNumbersRead N (call w open_paren close) = Unit {0}
HasNumbersRead N (operation op w l r) = HasNumbersRead N l × HasNumbersRead N r
HasNumbersRead N (parentheses open_paren e close) = HasNumbersRead N e
