-- ===== src/Parser/Shape/Expr.antt =====
-- The expressions of src/parser.cxx: what they return is an expression.
use b2_lang.Prelude.{ℕ, zero, suc, ◌≡◌, refl, true, Option, none, some, ℤ, ltb, Bytes}
use b2_lang.Token.{Token, TokenType, SourceLocation, type_eq}
use b2_lang.Ast.{Node, present, binary_expression}
use b2_lang.TypeCheck.Literal.{is_builtin_type}
use b2_lang.Parser.{Parser, precedence}
use b2_lang.Parser.Run.{Run, peek, advance, consume}
use b2_lang.Parser.Expr.{
  Numerals, float_read, parse_float_expression, int_read, parse_int_expression, close_paren,
  parse_paren_expression, identifier_read, parse_identifier_expression, primary,
  parse_primary_expression, parse_expression, parse_operators, type_read, parse_type_expression,
}
use b2_lang.Parser.Shape.{
  is_expression, is_annotation, Makes, Makes-pure, Makes-throw, Makes-fuel, Makes-follow,
  Makes-then, Makes-if, Makes-elim,
}

module _ {D : Type 0} (N : Numerals D) where
  -- A step that returns an expression wherever it starts.
  abbrev pub Expressions : Run (Node D) → Type 0
  Expressions e = (p : Parser) → Makes is_expression (e p)

  float_read-Makes : (t : Token) (v : Option D) → Expressions (float_read N t v)
  unfolding float_read is_expression
  float_read-Makes t none p = Makes-throw (Node D) is_expression _ p
  float_read-Makes t (some v) p =
      Makes-then is_expression (advance p) _ λ u q. Makes-pure is_expression _ q refl

  int_read-Makes : (t : Token) (v : Option ℤ) → Expressions (int_read N t v)
  unfolding int_read is_expression
  int_read-Makes t none p = Makes-throw (Node D) is_expression _ p
  int_read-Makes t (some v) p =
      Makes-then is_expression (advance p) _ λ u q. Makes-pure is_expression _ q refl

  close_paren-Makes :
      (e : Node D) (t : Token) → is_expression e ≡ true → Expressions (close_paren N e t)
  unfolding close_paren
  close_paren-Makes e t h p =
      Makes-if is_expression (type_eq t.type TokenType.rparen) _ _ p
        (λ _. Makes-then is_expression (advance p) _ λ u q. Makes-pure is_expression e q h)
        (Makes-throw (Node D) is_expression _ p)

  identifier_read-Makes : (name : Bytes) (t : Token) → Expressions (identifier_read N name t)
  unfolding identifier_read is_expression
  identifier_read-Makes name t p =
      Makes-if is_expression (type_eq t.type TokenType.lparen) _ _ p
        (λ _. Makes-then is_expression (advance p) _ λ u q.
          Makes-then is_expression (consume TokenType.rparen q) _
            λ v r. Makes-then is_expression (peek r) _ λ w s. Makes-pure is_expression _ s refl)
        (Makes-pure is_expression _ p refl)

  primary-Makes :
      (e : Run (Node D)) (loc : SourceLocation) (type : TokenType)
      → Expressions e
      → Expressions (primary N e loc type)
  unfolding primary parse_float_expression parse_int_expression parse_paren_expression
      parse_identifier_expression
  primary-Makes e loc TokenType.float_literal h p =
      Makes-then is_expression (peek p) _ λ t q. float_read-Makes t (N.stod t.value) q
  primary-Makes e loc TokenType.int_literal h p =
      Makes-then is_expression (peek p) _ λ t q. int_read-Makes t (N.read_int t.value) q
  primary-Makes e loc TokenType.lparen h p = Makes-then is_expression (advance p) _ λ u q.
      Makes-follow is_expression is_expression (e q) _ (h q)
        λ n r hn. Makes-then is_expression (peek r) _ λ t s. close_paren-Makes n t hn s
  primary-Makes e loc TokenType.identifier h p = Makes-then is_expression (peek p) _ λ name q.
      Makes-then is_expression (advance q) _
        λ u r. Makes-then is_expression (peek r) _ λ t s. identifier_read-Makes name.value t s
  primary-Makes e loc _ h p = Makes-throw (Node D) is_expression _ p

  parse_primary-Makes :
      (e : Run (Node D)) → Expressions e → Expressions (parse_primary_expression N e)
  unfolding parse_primary_expression
  parse_primary-Makes e h p =
      Makes-then is_expression (peek p) _ λ t q. primary-Makes e t.source_location t.type h q

  mutual
    unfolding parse_expression is_expression

    pub expression-Makes : (f m : ℕ) → Expressions (parse_expression N f m)
    expression-Makes zero m p = Makes-fuel (Node D) is_expression p
    expression-Makes (suc f) m p =
        Makes-follow is_expression is_expression _ _
          (parse_primary-Makes (parse_expression N f 0) (λ q. expression-Makes f 0 q) p)
          λ lhs q h. operators-Makes f m lhs h q

    operators-Makes :
        (f m : ℕ) (lhs : Node D)
        → is_expression lhs ≡ true
        → Expressions (parse_operators N f m lhs)
    operators-Makes zero m lhs h p = Makes-fuel (Node D) is_expression p
    operators-Makes (suc f) m lhs h p = Makes-then is_expression (peek p) _ λ op q.
        Makes-elim is_expression (ltb m (precedence op.type)) _ _ q
          (Makes-then is_expression (advance q) _ λ u r.
            Makes-follow is_expression is_expression _ _ (expression-Makes f (precedence op.type) r)
              λ rhs s hr.
                operators-Makes f m (binary_expression op.source_location op.type lhs rhs none none)
                  (rw (h, hr) refl) s)
          (Makes-pure is_expression lhs q h)

  type_read-Makes :
      (t : Token) (p : Parser) → Makes (λ n. is_annotation (present n)) (type_read N t p)
  unfolding type_read is_annotation
  type_read-Makes t p =
      Makes-if (λ n. is_annotation (present n)) (is_builtin_type t.value) _ _ p
        (λ known. Makes-pure (λ n. is_annotation (present n)) _ p known)
        (Makes-throw (Node D) (λ n. is_annotation (present n)) _ p)

  pub type-Makes : (p : Parser) → Makes (λ n. is_annotation (present n)) (parse_type_expression N p)
  unfolding parse_type_expression
  type-Makes p =
      Makes-then (λ n. is_annotation (present n)) (consume TokenType.identifier p) _ type_read-Makes
