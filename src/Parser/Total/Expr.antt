-- ===== src/Parser/Total/Expr.antt =====
-- The expressions.
use b2_lang.Prelude.{
  ℕ, zero, suc, ◌<◌, ◌≡◌, refl, ◌⊎◌, inl, inr, true, false, Option, none, some, List, ℤ, arith, ltb,
  Bytes,
}
use b2_lang.Token.{Token, TokenType, SourceLocation, type_eq}
use b2_lang.Lexer.Progress.{ends_once}
use b2_lang.Ast.{Node, binary_expression}
use b2_lang.TypeCheck.Literal.{is_builtin_type}
use b2_lang.Parser.{Parser, precedence}
use b2_lang.Parser.Run.{Run}
use b2_lang.Parser.Expr.{
  Numerals, float_read, parse_float_expression, int_read, parse_int_expression, close_paren,
  parse_paren_expression, identifier_read, parse_identifier_expression, primary,
  parse_primary_expression, parse_expression, parse_operators, type_read, parse_type_expression,
}
use b2_lang.Parser.Safe.{
  left, Safe, Safe-pure, Safe-throw, Here, Safe-follow, Safe-weaken, Safe-if, Safe-elim, Safe-peek,
  Safe-advance, Safe-consume,
}

module _ {D : Type 0} (N : Numerals D) (ts : List Token) (ends : ends_once ts ≡ true) where
  float_read-Safe :
      (t : Token) (v : Option D) (p : Parser)
      → p.tokens ≡ ts
      → 1 < left p
      → Safe ts (left p) (float_read N t v p)
  unfolding float_read
  float_read-Safe t none p h l = Safe-throw ts (Node D) (left p) _ p
  float_read-Safe t (some v) p h l =
      Safe-advance ts ends (left p) p _ h
        λ q hq le lt. Safe-pure ts (left p) _ q hq (lt (omega arith))

  float-Safe :
      (p : Parser) → p.tokens ≡ ts → 1 < left p → Safe ts (left p) (parse_float_expression N p)
  unfolding parse_float_expression
  float-Safe p h l =
      Safe-peek ts ends (left p) p _ h λ t here. float_read-Safe t (N.stod t.value) p h l

  int_read-Safe :
      (t : Token) (v : Option ℤ) (p : Parser)
      → p.tokens ≡ ts
      → 1 < left p
      → Safe ts (left p) (int_read N t v p)
  unfolding int_read
  int_read-Safe t none p h l = Safe-throw ts (Node D) (left p) _ p
  int_read-Safe t (some v) p h l =
      Safe-advance ts ends (left p) p _ h
        λ q hq le lt. Safe-pure ts (left p) _ q hq (lt (omega arith))

  int-Safe : (p : Parser) → p.tokens ≡ ts → 1 < left p → Safe ts (left p) (parse_int_expression N p)
  unfolding parse_int_expression
  int-Safe p h l =
      Safe-peek ts ends (left p) p _ h λ t here. int_read-Safe t (N.read_int t.value) p h l

  close_paren-Safe :
      (e : Node D) (t : Token) (p : Parser)
      → p.tokens ≡ ts
      → Safe ts (suc (left p)) (close_paren N e t p)
  unfolding close_paren
  close_paren-Safe e t p h =
      Safe-if ts (suc (left p)) (type_eq t.type TokenType.rparen) _ _ p
        (λ _.
          Safe-advance ts ends (suc (left p)) p _ h
            λ q hq le lt. Safe-pure ts (suc (left p)) e q hq (omega (arith, le)))
        (λ _. Safe-throw ts (Node D) (suc (left p)) _ p)

  -- What the recursive call of an expression does on fewer tokens.
  abbrev Below : Parser → Run (Node D) → Type 0
  Below p e = (q : Parser) → q.tokens ≡ ts → left q < left p → Safe ts (left q) (e q)

  paren-Safe :
      (e : Run (Node D)) (p : Parser)
      → p.tokens ≡ ts
      → 1 < left p
      → Below p e
      → Safe ts (left p) (parse_paren_expression N e p)
  unfolding parse_paren_expression
  paren-Safe e p h l below = Safe-advance ts ends (left p) p _ h λ q hq le lt.
      Safe-follow ts (left q) (left p) (e q) _ (below q hq (lt (omega arith))) λ n r hr lr.
        Safe-peek ts ends (left p) r _ hr λ t here.
          Safe-weaken ts (suc (left r)) (left p) _ (close_paren-Safe n t r hr)
            (omega (arith, lt (omega arith)))

  identifier_read-Safe :
      (name : Bytes) (t : Token) (p : Parser)
      → p.tokens ≡ ts
      → Safe ts (suc (left p)) (identifier_read N name t p)
  unfolding identifier_read
  identifier_read-Safe name t p h =
      Safe-if ts (suc (left p)) (type_eq t.type TokenType.lparen) _ _ p
        (λ _. Safe-advance ts ends (suc (left p)) p _ h λ q hq le lt.
          Safe-consume ts ends (suc (left p)) TokenType.rparen q _ hq refl λ u r hr lr.
            Safe-peek ts ends (suc (left p)) r _ hr
              λ v here. Safe-pure ts (suc (left p)) _ r hr (omega arith))
        (λ _. Safe-pure ts (suc (left p)) _ p h (omega arith))

  identifier-Safe :
      (p : Parser) → p.tokens ≡ ts → 1 < left p → Safe ts (left p) (parse_identifier_expression N p)
  unfolding parse_identifier_expression
  identifier-Safe p h l = Safe-peek ts ends (left p) p _ h λ name here.
      Safe-advance ts ends (left p) p _ h λ q hq le lt. Safe-peek ts ends (left p) q _ hq λ t there.
        Safe-weaken ts (suc (left q)) (left p) _ (identifier_read-Safe name.value t q hq)
          (omega (arith, lt (omega arith)))

  primary-Safe :
      (e : Run (Node D)) (loc : SourceLocation) (type : TokenType) (p : Parser)
      → p.tokens ≡ ts
      → (type_eq type TokenType.end_of_file ≡ true) ⊎ (1 < left p)
      → Below p e
      → Safe ts (left p) (primary N e loc type p)
  unfolding primary
  primary-Safe e loc TokenType.float_literal p h (inr l) below = float-Safe p h l
  primary-Safe e loc TokenType.int_literal p h (inr l) below = int-Safe p h l
  primary-Safe e loc TokenType.lparen p h (inr l) below = paren-Safe e p h l below
  primary-Safe e loc TokenType.identifier p h (inr l) below = identifier-Safe p h l
  primary-Safe e loc TokenType.float_literal p h (inl x) below = cc
  primary-Safe e loc TokenType.int_literal p h (inl x) below = cc
  primary-Safe e loc TokenType.lparen p h (inl x) below = cc
  primary-Safe e loc TokenType.identifier p h (inl x) below = cc
  primary-Safe e loc _ p h l below = Safe-throw ts (Node D) (left p) _ p

  parse_primary-Safe :
      (e : Run (Node D)) (p : Parser)
      → p.tokens ≡ ts
      → Below p e
      → Safe ts (left p) (parse_primary_expression N e p)
  unfolding parse_primary_expression
  parse_primary-Safe e p h below =
      Safe-peek ts ends (left p) p _ h
        λ t here. primary-Safe e t.source_location t.type p h here below

  precedence-end :
      (t : TokenType) (m : ℕ)
      → ltb m (precedence t) ≡ true
      → type_eq t TokenType.end_of_file ≡ false
  unfolding precedence
  precedence-end TokenType.end_of_file m h = ground arith
  precedence-end _ m h = refl

  at_operator :
      (op : Token) (m : ℕ) (p : Parser)
      → ltb m (precedence op.type) ≡ true
      → Here ts p op
      → 0 < left p
  at_operator op m p binds (inl last) = cc (precedence-end op.type m binds, last)
  at_operator op m p binds (inr l) = omega arith

  mutual
    unfolding parse_expression

    pub expression-Safe :
        (f m : ℕ) (p : Parser)
        → p.tokens ≡ ts
        → left p < f
        → Safe ts (left p) (parse_expression N f m p)
    expression-Safe zero m p h l = absurd (omega (arith, l))
    expression-Safe (suc f) m p h l =
        Safe-follow ts (left p) (left p) _ _
          (parse_primary-Safe (parse_expression N f 0) p h
            λ q hq lq. expression-Safe f 0 q hq (omega arith))
          λ lhs q hq lq.
            Safe-weaken ts (suc (left q)) (left p) _ (operators-Safe f m lhs q hq (omega arith))
              (omega arith)

    operators-Safe :
        (f m : ℕ) (lhs : Node D) (p : Parser)
        → p.tokens ≡ ts
        → left p < f
        → Safe ts (suc (left p)) (parse_operators N f m lhs p)
    operators-Safe zero m lhs p h l = absurd (omega (arith, l))
    operators-Safe (suc f) m lhs p h l = Safe-peek ts ends (suc (left p)) p _ h λ op here.
        Safe-elim ts (suc (left p)) (ltb m (precedence op.type)) _ _ p
          (λ binds. Safe-advance ts ends (suc (left p)) p _ h λ q hq le lt.
            let shorter = lt (at_operator op m p binds here) in
            Safe-follow ts (left q) (suc (left p)) _ _
              (expression-Safe f (precedence op.type) q hq (omega (arith, shorter)))
              λ rhs r hr lr.
                Safe-weaken ts (suc (left r)) (suc (left p)) _
                  (operators-Safe f m
                    (binary_expression op.source_location op.type lhs rhs none none) r hr
                    (omega (arith, shorter)))
                  (omega (arith, shorter)))
          (λ _. Safe-pure ts (suc (left p)) _ p h (omega arith))

  type_read-Safe :
      (t : Token) (p : Parser) → p.tokens ≡ ts → Safe ts (suc (left p)) (type_read N t p)
  unfolding type_read
  type_read-Safe t p h =
      Safe-if ts (suc (left p)) (is_builtin_type t.value) _ _ p
        (λ _. Safe-pure ts (suc (left p)) _ p h (omega arith))
        (λ _. Safe-throw ts (Node D) (suc (left p)) _ p)

  pub type-Safe : (p : Parser) → p.tokens ≡ ts → Safe ts (left p) (parse_type_expression N p)
  unfolding parse_type_expression
  type-Safe p h =
      Safe-consume ts ends (left p) TokenType.identifier p _ h refl
        λ t q hq lq. Safe-weaken ts (suc (left q)) (left p) _ (type_read-Safe t q hq) (omega arith)
