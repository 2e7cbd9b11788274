-- ===== src/Parser/Grammar/Steps.antt =====
-- The steps of the parser's expressions (src/parser.cxx) before the tokens of the grammar.
use b2_lang.Prelude.{
  ℕ, zero, suc, ◌≤◌, ◌<◌, ◌≡◌, refl, ap, ◌∙◌, ℤ, true, false, none, some, List, ◌∷◌, ltb, arith,
}
use b2_lang.Token.{Token, TokenType, type_eq}
use b2_lang.Ast.{
  Node, float_literal_expression, int_literal_expression, variable_expression, binary_expression,
  function_call_expression,
}
use b2_lang.Parser
use b2_lang.Parser.{Parser, precedence}
use b2_lang.Parser.Run.{Run, follow, ◌>>=◌, pure, peek, advance}
use b2_lang.Parser.Expr.{
  Numerals, float_read, parse_float_expression, int_read, parse_int_expression, close_paren,
  parse_paren_expression, identifier_read, parse_identifier_expression, primary,
  parse_primary_expression, parse_expression, parse_operators,
}
use b2_lang.Parser.Grammar.{Operator, type_of, binds, Lexeme, token}
use b2_lang.Parser.Grammar.Place.{At, At-advance, peek-At, consume-At}

module _ {D : Type 0} (N : Numerals D) where
  module _ (e : Run (Node D)) (p : Parser) (rest : List Token) where
    pub number_primary :
        (w : Lexeme) (v : ℤ)
        → N.read_int w.0 ≡ some v
        → At p (token TokenType.int_literal w ∷ rest)
        → parse_primary_expression N e p
          ≡ pure (int_literal_expression w.1 v none) (Parser.advance p)
    unfolding parse_primary_expression primary parse_int_expression int_read advance
    number_primary w v reads here =
        let tok = token TokenType.int_literal w in
        peek-At p tok rest here _ ∙ peek-At p tok rest here _ ∙ rw reads refl

    pub float_primary :
        (w : Lexeme) (d : D)
        → N.stod w.0 ≡ some d
        → At p (token TokenType.float_literal w ∷ rest)
        → parse_primary_expression N e p
          ≡ pure (float_literal_expression w.1 d none) (Parser.advance p)
    unfolding parse_primary_expression primary parse_float_expression float_read advance
    float_primary w d reads here =
        let tok = token TokenType.float_literal w in
        peek-At p tok rest here _ ∙ peek-At p tok rest here _ ∙ rw reads refl

    pub variable_primary :
        (w : Lexeme) (t : Token)
        → At p (token TokenType.identifier w ∷ t ∷ rest)
        → type_eq t.type TokenType.lparen ≡ false
        → parse_primary_expression N e p
          ≡ pure (variable_expression t.source_location w.0 none) (Parser.advance p)
    unfolding parse_primary_expression primary parse_identifier_expression identifier_read advance
    variable_primary w t here free =
        let tok = token TokenType.identifier w in
        peek-At p tok (t ∷ rest) here _
        ∙ peek-At p tok (t ∷ rest) here _
        ∙ peek-At (Parser.advance p) t rest (At-advance p tok (t ∷ rest) here) _
        ∙ rw free refl

    pub call_primary :
        (w open_paren close : Lexeme) (t : Token)
        → At p (
            token TokenType.identifier w
            ∷ token TokenType.lparen open_paren
            ∷ token TokenType.rparen close
            ∷ t
            ∷ rest)
        → parse_primary_expression N e p
          ≡ pure
              (function_call_expression t.source_location w.0)
              (Parser.advance (Parser.advance (Parser.advance p)))
    unfolding parse_primary_expression primary parse_identifier_expression identifier_read advance
    call_primary w open_paren close t here =
        let name = token TokenType.identifier w in
        let opening = token TokenType.lparen open_paren in
        let closing = token TokenType.rparen close in
        let second = At-advance p name (opening ∷ closing ∷ t ∷ rest) here in
        let third = At-advance (Parser.advance p) opening (closing ∷ t ∷ rest) second in
        let last = Parser.advance (Parser.advance (Parser.advance p)) in
        let behind = At-advance (Parser.advance (Parser.advance p)) closing (t ∷ rest) third in
        peek-At p name (opening ∷ closing ∷ t ∷ rest) here _
        ∙ peek-At p name (opening ∷ closing ∷ t ∷ rest) here _
        ∙ peek-At (Parser.advance p) opening (closing ∷ t ∷ rest) second _
        ∙ consume-At (Parser.advance (Parser.advance p)) closing (t ∷ rest) third TokenType.rparen _
            refl
        ∙ peek-At last t rest behind _

  pub paren_primary :
      (e : Run (Node D)) (p q : Parser) (n : Node D) (open_paren close : Lexeme)
      (inside rest : List Token)
      → At p (token TokenType.lparen open_paren ∷ inside)
      → e (Parser.advance p) ≡ pure n q
      → At q (token TokenType.rparen close ∷ rest)
      → parse_primary_expression N e p ≡ pure n (Parser.advance q)
  unfolding parse_primary_expression primary parse_paren_expression close_paren advance
  paren_primary e p q n open_paren close inside rest here inner there =
      peek-At p (token TokenType.lparen open_paren) inside here _
      ∙ ap (λ r. follow r (λ x. peek >>= close_paren N x)) inner
      ∙ peek-At q (token TokenType.rparen close) rest there _

  -- The loop ends before an operator that does not bind.
  pub stop :
      (f m : ℕ) (n : Node D) (p : Parser) (t : Token) (rest : List Token)
      → At p (t ∷ rest)
      → precedence t.type ≤ m
      → 0 < f
      → parse_operators N f m n p ≡ pure n p
  unfolding parse_expression
  stop zero m n p t rest here le pos = absurd (omega (arith, pos))
  stop (suc f) m n p t rest here le pos =
      let loose : ltb m (precedence t.type) ≡ false = ground arith in
      peek-At p t rest here _ ∙ rw loose refl

  -- The loop goes on behind an operator that binds.
  pub go_on :
      (f m : ℕ) (n r : Node D) (op : Operator) (w : Lexeme) (p q : Parser) (rest : List Token)
      → At p (token (type_of op) w ∷ rest)
      → m < binds op
      → parse_expression N f (binds op) (Parser.advance p) ≡ pure r q
      → parse_operators N (suc f) m n p
        ≡ parse_operators N f m (binary_expression w.1 (type_of op) n r none none) q
  unfolding parse_expression advance
  go_on f m n r op w p q rest here lt inner =
      let tight : ltb m (precedence (type_of op)) ≡ true = ground arith in
      peek-At p (token (type_of op) w) rest here _
      ∙ rw tight (
          ap
            (λ o.
              follow o
                (λ x. parse_operators N f m (binary_expression w.1 (type_of op) n x none none)))
            inner)
