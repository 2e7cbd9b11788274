-- ===== src/Parser/Grammar/Leaf.antt =====
-- The primary expressions of src/parser.cxx that hold no other, and what it means to read one.
use b2_lang.Prelude.{
  ℕ, zero, suc, ◌+◌, ◌≤◌, ◌≡◌, sym, ap, subst, ℤ, false, some, List, ◌∷◌, ◌++◌, arith,
}
use b2_lang.Token.{Token, TokenType, type_eq}
use b2_lang.Parser
use b2_lang.Parser.{Parser, precedence}
use b2_lang.Parser.Run.{follow, pure}
use b2_lang.Parser.Expr.{Numerals, parse_primary_expression, parse_expression, parse_operators}
use b2_lang.Parser.Grammar.{
  Lexeme, Expression, float, number, variable, call, token, node_of, emit, size,
}
use b2_lang.Parser.Grammar.Place.{At, At-advance}
use b2_lang.Parser.Grammar.Steps.{float_primary, number_primary, variable_primary, call_primary}

module _ {D : Type 0} (N : Numerals D) where
  -- A token that may stand behind an expression of the level.
  abbrev pub Follows : ℕ → Token → Type 0
  Follows level t = (precedence t.type ≤ level + 1) × (type_eq t.type TokenType.lparen ≡ false)

  -- Enough fuel: `f` is what is left behind the expression.
  abbrev pub Parses : ℕ → ℕ → Expression D → Parser → Token → List Token → Type 0
  Parses limit m e p t rest =
      (n : ℕ) × (b : ℕ) × (q : Parser) × At q (t ∷ rest)
      × ((f F : ℕ)
          → F ≡ n + f
          → b ≤ f
          → parse_expression N F m p ≡ parse_operators N f m (node_of e t.source_location) q)
      × (n + b ≤ limit)

  abbrev pub Reads : ℕ → Expression D → Type 0
  Reads level e =
      (m : ℕ) (p : Parser) (t : Token) (rest : List Token)
      → m ≤ level
      → Follows level t
      → At p (emit e ++ (t ∷ rest))
      → Parses (size e) m e p t rest

  -- A primary expression that is read, with fuel for those inside it.
  pub after_primary :
      (limit : ℕ) (e : Expression D) (m b : ℕ) (p q : Parser) (t : Token) (rest : List Token)
      → At q (t ∷ rest)
      → ((f : ℕ)
          → b ≤ f
          → parse_primary_expression N (parse_expression N f 0) p
            ≡ pure (node_of e t.source_location) q)
      → 1 + b ≤ limit
      → Parses limit m e p t rest
  unfolding parse_expression
  after_primary limit e m b p q t rest there h small = (1, b, q, there, step, small)
    where
      step :
          (f F : ℕ)
          → F ≡ 1 + f
          → b ≤ f
          → parse_expression N F m p ≡ parse_operators N f m (node_of e t.source_location) q
      step f zero eq le = absurd (omega (arith, eq))
      step f (suc g) eq le =
          let same : g ≡ f = omega (arith, eq) in
          subst
            (λ k.
              parse_expression N (suc k) m p
              ≡ parse_operators N f m (node_of e t.source_location) q)
            (sym same) (ap (λ r. follow r (parse_operators N f m)) (h f le))

  pub number-Reads :
      (level : ℕ) (w : Lexeme) (v : ℤ) → N.read_int w.0 ≡ some v → Reads level (number w v)
  unfolding emit node_of size
  number-Reads level w v reads m p t rest le fol here =
      after_primary 1 (number w v) m 0 p (Parser.advance p) t rest
        (At-advance p (token TokenType.int_literal w) (t ∷ rest) here)
        (λ f _. number_primary N (parse_expression N f 0) p (t ∷ rest) w v reads here) (omega arith)

  pub float-Reads : (level : ℕ) (w : Lexeme) (d : D) → N.stod w.0 ≡ some d → Reads level (float w d)
  unfolding emit node_of size
  float-Reads level w d reads m p t rest le fol here =
      after_primary 1 (float w d) m 0 p (Parser.advance p) t rest
        (At-advance p (token TokenType.float_literal w) (t ∷ rest) here)
        (λ f _. float_primary N (parse_expression N f 0) p (t ∷ rest) w d reads here) (omega arith)

  pub variable-Reads : (level : ℕ) (w : Lexeme) → Reads level (variable w)
  unfolding emit node_of size
  variable-Reads level w m p t rest le fol here =
      after_primary 1 (variable w) m 0 p (Parser.advance p) t rest
        (At-advance p (token TokenType.identifier w) (t ∷ rest) here)
        (λ f _. variable_primary N (parse_expression N f 0) p rest w t here fol.1) (omega arith)

  pub call-Reads : (level : ℕ) (w open_paren close : Lexeme) → Reads level (call w open_paren close)
  unfolding emit node_of size
  call-Reads level w open_paren close m p t rest le fol here =
      let name = token TokenType.identifier w in
      let opening = token TokenType.lparen open_paren in
      let closing = token TokenType.rparen close in
      let second = At-advance p name (opening ∷ closing ∷ t ∷ rest) here in
      let third = At-advance (Parser.advance p) opening (closing ∷ t ∷ rest) second in
      after_primary 1 (call w open_paren close) m 0 p
        (Parser.advance (Parser.advance (Parser.advance p))) t rest
        (At-advance (Parser.advance (Parser.advance p)) closing (t ∷ rest) third)
        (λ f _. call_primary N (parse_expression N f 0) p rest w open_paren close t here)
        (omega arith)
