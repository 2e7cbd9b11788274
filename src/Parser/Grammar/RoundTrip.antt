-- ===== src/Parser/Grammar/RoundTrip.antt =====
-- The parser's expressions (src/parser.cxx) against the tokens of the grammar.
use b2_lang.Prelude.{
  ℕ, suc, ◌+◌, ◌-◌, ◌≤◌, ◌<◌, ◌≡◌, refl, true, and_first, and_second, subst, ◌∙◌, false, some, List,
  [], ◌∷◌, ◌++◌, append_assoc, ltb, arith,
}
use b2_lang.Token.{Token, TokenType, type_eq}
use b2_lang.Error.{ok}
use b2_lang.Parser
use b2_lang.Parser.{Parser, precedence}
use b2_lang.Parser.Run.{pure}
use b2_lang.Parser.Expr.{Numerals, parse_primary_expression, parse_expression, parse_operators}
use b2_lang.Parser.Grammar.{
  Operator, type_of, Lexeme, Expression, float, number, variable, call, operation, parentheses,
  binds, token, node_of, emit, size, fits, HasNumbersRead,
}
use b2_lang.Parser.Grammar.Place.{At, At-start, At-advance}
use b2_lang.Parser.Grammar.Leaf.{
  Follows, Parses, Reads, after_primary, number-Reads, float-Reads, variable-Reads, call-Reads,
}
use b2_lang.Parser.Grammar.Steps.{paren_primary, stop, go_on}

module _ {D : Type 0} (N : Numerals D) where
  binds_pos : (op : Operator) → 0 < binds op
  unfolding type_of precedence
  binds_pos Operator.equals = omega arith
  binds_pos Operator.not_equals = omega arith
  binds_pos Operator.greater = omega arith
  binds_pos Operator.less = omega arith
  binds_pos Operator.greater_equals = omega arith
  binds_pos Operator.less_equals = omega arith
  binds_pos Operator.plus = omega arith
  binds_pos Operator.minus = omega arith
  binds_pos Operator.times = omega arith
  binds_pos Operator.divide = omega arith

  operator-Follows : (op : Operator) (w : Lexeme) → Follows N (binds op - 1) (token (type_of op) w)
  unfolding type_of precedence
  operator-Follows op w = (omega (arith, binds_pos op), not_lparen op)
    where
      not_lparen : (op : Operator) → type_eq (type_of op) TokenType.lparen ≡ false
      not_lparen Operator.equals = refl
      not_lparen _ = refl

  operation-Reads :
      (op : Operator) (w : Lexeme) (l r : Expression D) (level : ℕ)
      → Reads N (binds op - 1) l
      → Reads N (binds op) r
      → level < binds op
      → Reads N level (operation op w l r)
  unfolding emit node_of size
  operation-Reads op w l r level left right tight m p t rest le fol here =
      (lhs.0 + 1, lhs.1 + rhs.0 + rhs.1 + 1, rhs.2, rhs.3, run, omega (arith, lhs.5, rhs.5))
    where
      sign : Token
      sign = token (type_of op) w

      behind : List Token
      behind = emit r ++ (t ∷ rest)

      lhs : Parses N (size l) m l p sign behind
      lhs =
          left m p sign behind (omega arith) (operator-Follows op w)
            (subst (At p) (append_assoc (emit l) (sign ∷ emit r) (t ∷ rest)) here)

      rhs : Parses N (size r) (binds op) r (Parser.advance lhs.2) t rest
      rhs =
          right (binds op) (Parser.advance lhs.2) t rest (omega arith) (omega (arith, fol.0), fol.1)
            (At-advance lhs.2 sign behind lhs.3)

      run :
          (f F : ℕ)
          → F ≡ lhs.0 + 1 + f
          → lhs.1 + rhs.0 + rhs.1 + 1 ≤ f
          → parse_expression N F m p
            ≡ parse_operators N f m (node_of (operation op w l r) t.source_location) rhs.2
      run f F eq enough =
          lhs.4 (suc f) F (omega arith) (omega arith)
          ∙ go_on N f m (node_of l w.1) (node_of r t.source_location) op w lhs.2 rhs.2 behind lhs.3
              (omega arith)
              (rhs.4 (f - rhs.0) f (omega arith) (omega arith)
                ∙ stop N (f - rhs.0) (binds op) (node_of r t.source_location) rhs.2 t rest rhs.3
                    (omega (arith, fol.0)) (omega arith))

  parentheses-Reads :
      (level : ℕ) (open_paren : Lexeme) (e : Expression D) (close : Lexeme)
      → Reads N 0 e
      → Reads N level (parentheses open_paren e close)
  unfolding emit node_of size precedence
  parentheses-Reads level open_paren e close reads m p t rest le fol here =
      after_primary N (size e + 2) (parentheses open_paren e close) m (inner.0 + inner.1 + 1) p
        (Parser.advance inner.2) t rest (At-advance inner.2 closing (t ∷ rest) inner.3) read
        (omega (arith, inner.5))
    where
      closing : Token
      closing = token TokenType.rparen close

      inside : List Token
      inside = emit e ++ (closing ∷ t ∷ rest)

      starts : At p (token TokenType.lparen open_paren ∷ inside)
      starts =
          subst (λ ts. At p (token TokenType.lparen open_paren ∷ ts))
            (append_assoc (emit e) (closing ∷ []) (t ∷ rest)) here

      inner : Parses N (size e) 0 e (Parser.advance p) closing (t ∷ rest)
      inner =
          reads 0 (Parser.advance p) closing (t ∷ rest) (omega arith) (omega arith, refl)
            (At-advance p (token TokenType.lparen open_paren) inside starts)

      read :
          (f : ℕ)
          → inner.0 + inner.1 + 1 ≤ f
          → parse_primary_expression N (parse_expression N f 0) p
            ≡ pure (node_of e close.1) (Parser.advance inner.2)
      read f enough =
          paren_primary N (parse_expression N f 0) p inner.2 (node_of e close.1) open_paren close
            inside (t ∷ rest) starts
            (inner.4 (f - inner.0) f (omega arith) (omega arith)
              ∙ stop N (f - inner.0) 0 (node_of e close.1) inner.2 closing (t ∷ rest) inner.3
                  (omega arith) (omega arith))
            inner.3

  expression-Reads :
      (e : Expression D) (level : ℕ) → HasNumbersRead N e → fits level e ≡ true → Reads N level e
  unfolding fits HasNumbersRead
  expression-Reads (number w v) level h fit = number-Reads N level w v h
  expression-Reads (float w d) level h fit = float-Reads N level w d h
  expression-Reads (variable w) level h fit = variable-Reads N level w
  expression-Reads (call w open_paren close) level h fit = call-Reads N level w open_paren close
  expression-Reads (operation op w l r) level h fit =
      let tight = and_first (ltb level (binds op)) _ fit in
      let both = and_second (ltb level (binds op)) _ fit in
      operation-Reads op w l r level (expression-Reads l (binds op - 1) h.0 (and_first _ _ both))
        (expression-Reads r (binds op) h.1 (and_second (fits (binds op - 1) l) _ both))
        (ground (arith, tight))
  expression-Reads (parentheses open_paren e close) level h fit =
      parentheses-Reads level open_paren e close (expression-Reads e 0 h fit)

  -- For an expression of integers, floats, variables, calls, operators and parentheses, with any
  -- texts and locations of its tokens, in which, where no parentheses stand between them, an
  -- operator in the left operand of another binds at least as tightly as that and one in the right
  -- operand more tightly: if the text of each of its integers and floats is read as its value, and
  -- behind its tokens stands a token that is neither an operator nor a left parenthesis, then
  -- `parse_expression` with more fuel than the size of the expression returns the expression's
  -- tree, without the parentheses, each integer, float and operator with the location of its token
  -- and each variable and call with that of the token behind it, and leaves the parser at the token
  -- behind the expression.
  pub parse_expression-emit :
      (e : Expression D) (t : Token) (rest : List Token) (fuel : ℕ)
      → HasNumbersRead N e
      → fits 0 e ≡ true
      → precedence t.type ≡ 0
      → type_eq t.type TokenType.lparen ≡ false
      → size e < fuel
      → (q : Parser) × At q (t ∷ rest)
        × (parse_expression N fuel 0 (record { tokens = emit e ++ (t ∷ rest); index = 0 })
            ≡ some (ok (node_of e t.source_location, q)))
  parse_expression-emit e t rest fuel numbers fit loose free enough =
      let ts = emit e ++ (t ∷ rest) in
      let start : Parser = record { tokens = ts; index = 0 } in
      let read =
        expression-Reads e 0 numbers fit 0 start t rest (omega arith) (omega (arith, loose), free)
          (At-start ts) in
      (
        read.2,
        read.3,
        read.4 (fuel - read.0) fuel (omega (arith, read.5)) (omega (arith, read.5))
            ∙ stop N (fuel - read.0) 0 (node_of e t.source_location) read.2 t rest read.3
                (omega (arith, loose)) (omega (arith, read.5)),
      )
