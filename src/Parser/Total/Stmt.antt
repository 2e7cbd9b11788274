-- ===== src/Parser/Total/Stmt.antt =====
-- The statements without their recursive calls.
use b2_lang.Prelude.{ℕ, suc, ◌<◌, ◌≡◌, refl, true, List, arith}
use b2_lang.Token.{Token, TokenType, SourceLocation, type_eq}
use b2_lang.Lexer.Progress.{ends_once}
use b2_lang.Ast.{Node}
use b2_lang.Parser.{Parser}
use b2_lang.Parser.Run.{Run}
use b2_lang.Parser.Expr.{Numerals}
use b2_lang.Parser.Stmt.{
  parse_break_statement, parse_cycle_statement, parse_show_statement, parse_return_statement,
  parse_variable_assignment, annotation, parse_variable_declaration, if_begin, if_rest,
  optional_end, if_body, parse_loop, parse_function_declaration, statement,
}
use b2_lang.Parser.Safe.{
  left, Safe, Safe-pure, Safe-throw, Safe-follow, Safe-if, Safe-peek, Safe-advance, Safe-consume,
}
use b2_lang.Parser.Total.Expr.{type-Safe}

module _ (ts : List Token) where
  -- From fewer than `b` tokens, the step leaves fewer tokens; or at least not more.
  abbrev pub Strict {ℓ} : {A : Type ℓ} → ℕ → Run A → Type 0
  Strict b m = (q : Parser) → q.tokens ≡ ts → left q < b → Safe ts (left q) (m q)

  abbrev pub Weak {ℓ} : {A : Type ℓ} → ℕ → Run A → Type 0
  Weak b m = (q : Parser) → q.tokens ≡ ts → left q < b → Safe ts (suc (left q)) (m q)

module _ (ts : List Token) (ends : ends_once ts ≡ true) where
  if_begin-Safe : (p : Parser) → p.tokens ≡ ts → Safe ts (suc (left p)) (if_begin p)
  unfolding if_begin
  if_begin-Safe p h = Safe-peek ts ends (suc (left p)) p _ h λ t here.
      Safe-if ts (suc (left p)) (type_eq t.type TokenType.if_kw) _ _ p
        (λ _.
          Safe-consume ts ends (suc (left p)) TokenType.if_kw p _ h refl
            λ u q hq lq. Safe-pure ts (suc (left p)) _ q hq (omega arith))
        (λ _. Safe-peek ts ends (suc (left p)) p _ h λ u here.
          Safe-if ts (suc (left p)) (type_eq u.type TokenType.else_if_kw) _ _ p
            (λ _.
              Safe-consume ts ends (suc (left p)) TokenType.else_if_kw p _ h refl
                λ v q hq lq. Safe-pure ts (suc (left p)) _ q hq (omega arith))
            (λ _. Safe-pure ts (suc (left p)) _ p h (omega arith)))

  optional_end-Safe : (p : Parser) → p.tokens ≡ ts → Safe ts (suc (left p)) (optional_end p)
  unfolding optional_end
  optional_end-Safe p h = Safe-peek ts ends (suc (left p)) p _ h λ t here.
      Safe-if ts (suc (left p)) (type_eq t.type TokenType.end_kw) _ _ p
        (λ _.
          Safe-consume ts ends (suc (left p)) TokenType.end_kw p _ h refl
            λ u q hq lq. Safe-pure ts (suc (left p)) _ q hq (omega arith))
        (λ _. Safe-pure ts (suc (left p)) _ p h (omega arith))

module _ (D : Type 0) (ts : List Token) (ends : ends_once ts ≡ true) where
  break-Safe : (p : Parser) → p.tokens ≡ ts → Safe ts (left p) (parse_break_statement {D = D} p)
  unfolding parse_break_statement
  break-Safe p h =
      Safe-consume ts ends (left p) TokenType.break_kw p _ h refl
        λ t q hq lq. Safe-pure ts (left p) _ q hq lq

  cycle-Safe : (p : Parser) → p.tokens ≡ ts → Safe ts (left p) (parse_cycle_statement {D = D} p)
  unfolding parse_cycle_statement
  cycle-Safe p h =
      Safe-consume ts ends (left p) TokenType.cycle_kw p _ h refl
        λ t q hq lq. Safe-pure ts (left p) _ q hq lq

module _ {D : Type 0} (ts : List Token) (ends : ends_once ts ≡ true) where
  show-Safe :
      (e : Run (Node D)) (p : Parser)
      → p.tokens ≡ ts
      → Strict ts (left p) e
      → Safe ts (left p) (parse_show_statement e p)
  unfolding parse_show_statement
  show-Safe e p h below = Safe-consume ts ends (left p) TokenType.show_kw p _ h refl λ t q hq lq.
      Safe-follow ts (left q) (left p) (e q) _ (below q hq lq)
        λ n r hr lr. Safe-pure ts (left p) _ r hr (omega arith)

  return-Safe :
      (e : Run (Node D)) (p : Parser)
      → p.tokens ≡ ts
      → Strict ts (left p) e
      → Safe ts (left p) (parse_return_statement e p)
  unfolding parse_return_statement
  return-Safe e p h below =
      Safe-consume ts ends (left p) TokenType.return_kw p _ h refl λ t q hq lq.
        Safe-follow ts (left q) (left p) (e q) _ (below q hq lq)
          λ n r hr lr. Safe-pure ts (left p) _ r hr (omega arith)

  assignment-Safe :
      (e : Run (Node D)) (p : Parser)
      → p.tokens ≡ ts
      → Strict ts (left p) e
      → Safe ts (left p) (parse_variable_assignment e p)
  unfolding parse_variable_assignment
  assignment-Safe e p h below =
      Safe-consume ts ends (left p) TokenType.set_kw p _ h refl λ t q hq lq.
        Safe-consume ts ends (left p) TokenType.identifier q _ hq refl λ u r hr lr.
          Safe-consume ts ends (left p) TokenType.assignment r _ hr refl λ v s hs ls.
            Safe-follow ts (left s) (left p) (e s) _ (below s hs (omega arith))
              λ n w hw lw. Safe-pure ts (left p) _ w hw (omega arith)

  module _ (N : Numerals D) where
    annotation-Safe : (p : Parser) → p.tokens ≡ ts → Safe ts (suc (left p)) (annotation N p)
    unfolding annotation
    annotation-Safe p h = Safe-peek ts ends (suc (left p)) p _ h λ t here.
        Safe-if ts (suc (left p)) (type_eq t.type TokenType.colon) _ _ p
          (λ _. Safe-advance ts ends (suc (left p)) p _ h λ q hq le lt.
            Safe-follow ts (left q) (suc (left p)) _ _ (type-Safe N ts ends q hq)
              λ n r hr lr. Safe-pure ts (suc (left p)) _ r hr (omega arith))
          (λ _. Safe-pure ts (suc (left p)) _ p h (omega arith))

    declaration-Safe :
        (e : Run (Node D)) (p : Parser)
        → p.tokens ≡ ts
        → Strict ts (left p) e
        → Safe ts (left p) (parse_variable_declaration N e p)
    unfolding parse_variable_declaration
    declaration-Safe e p h below = Safe-peek ts ends (left p) p _ h λ name here.
        Safe-advance ts ends (left p) p _ h λ q hq le lt.
          Safe-follow ts (suc (left q)) (left p) _ _ (annotation-Safe q hq) λ a r hr lr.
            Safe-consume ts ends (left p) TokenType.assignment r _ hr refl λ v s hs ls.
              Safe-follow ts (left s) (left p) (e s) _ (below s hs (omega arith))
                λ n w hw lw. Safe-pure ts (left p) _ w hw (omega arith)

  if_rest-Safe :
      (again final : Run (Node D)) (p : Parser)
      → p.tokens ≡ ts
      → Strict ts (suc (left p)) again
      → Weak ts (left p) final
      → Safe ts (suc (left p)) (if_rest again final p)
  unfolding if_rest
  if_rest-Safe again final p h rec fin = Safe-peek ts ends (suc (left p)) p _ h λ t here.
      Safe-if ts (suc (left p)) (type_eq t.type TokenType.else_if_kw) _ _ p
        (λ _.
          Safe-follow ts (left p) (suc (left p)) (again p) _ (rec p h (omega arith))
            λ n q hq lq. Safe-pure ts (suc (left p)) _ q hq (omega arith))
        (λ _. Safe-peek ts ends (suc (left p)) p _ h λ u here.
          Safe-if ts (suc (left p)) (type_eq u.type TokenType.else_kw) _ _ p
            (λ _. Safe-consume ts ends (suc (left p)) TokenType.else_kw p _ h refl λ v q hq lq.
              Safe-follow ts (suc (left q)) (suc (left p)) (final q) _ (fin q hq lq)
                λ n r hr lr. Safe-pure ts (suc (left p)) _ r hr (omega arith))
            (λ _. Safe-pure ts (suc (left p)) _ p h (omega arith)))

  pub if_body-Safe :
      (e block again final : Run (Node D)) (p : Parser)
      → p.tokens ≡ ts
      → Strict ts (suc (left p)) e
      → Weak ts (left p) block
      → Strict ts (left p) again
      → Weak ts (left p) final
      → Safe ts (left p) (if_body e block again final p)
  unfolding if_body
  if_body-Safe e block again final p h below inner rec fin =
      Safe-follow ts (suc (left p)) (left p) _ _ (if_begin-Safe ts ends p h) λ begin q hq lq.
        Safe-follow ts (left q) (left p) (e q) _ (below q hq lq) λ c r hr lr.
          Safe-follow ts (suc (left r)) (left p) (block r) _ (inner r hr (omega arith)) λ n s hs ls.
            Safe-follow ts (suc (left s)) (left p) _ _
              (if_rest-Safe again final s hs (λ w hw lw. rec w hw (omega arith))
                (λ w hw lw. fin w hw (omega arith)))
              λ m u hu lu.
                Safe-follow ts (suc (left u)) (left p) _ _ (optional_end-Safe ts ends u hu)
                  λ _ v hv lv. Safe-pure ts (left p) _ v hv (omega arith)

  loop-Safe :
      (block : Run (Node D)) (p : Parser)
      → p.tokens ≡ ts
      → Weak ts (left p) block
      → Safe ts (left p) (parse_loop block p)
  unfolding parse_loop
  loop-Safe block p h inner =
      Safe-consume ts ends (left p) TokenType.loop_kw p _ h refl λ t q hq lq.
        Safe-follow ts (suc (left q)) (left p) (block q) _ (inner q hq lq) λ n r hr lr.
          Safe-consume ts ends (left p) TokenType.end_kw r _ hr refl
            λ u s hs ls. Safe-pure ts (left p) _ s hs (omega arith)

  pub function-Safe :
      (block : Run (Node D)) (p : Parser)
      → p.tokens ≡ ts
      → Weak ts (left p) block
      → Safe ts (left p) (parse_function_declaration block p)
  unfolding parse_function_declaration
  function-Safe block p h inner =
      Safe-consume ts ends (left p) TokenType.function_kw p _ h refl λ t q hq lq.
        Safe-consume ts ends (left p) TokenType.identifier q _ hq refl λ name r hr lr.
          Safe-consume ts ends (left p) TokenType.lparen r _ hr refl λ u s hs ls.
            Safe-consume ts ends (left p) TokenType.rparen s _ hs refl λ v w hw lw.
              Safe-follow ts (suc (left w)) (left p) (block w) _ (inner w hw (omega arith))
                λ n x hx lx.
                  Safe-consume ts ends (left p) TokenType.end_kw x _ hx refl
                    λ y z hz lz. Safe-pure ts (left p) _ z hz (omega arith)

  pub statement-Safe :
      (N : Numerals D) (e if_ block : Run (Node D)) (loc : SourceLocation) (type : TokenType)
      (p : Parser)
      → p.tokens ≡ ts
      → Strict ts (left p) e
      → Safe ts (left p) (if_ p)
      → Weak ts (left p) block
      → Safe ts (left p) (statement N e if_ block loc type p)
  unfolding statement
  statement-Safe N e if_ block loc TokenType.identifier p h below i b =
      declaration-Safe N e p h below
  statement-Safe N e if_ block loc TokenType.set_kw p h below i b = assignment-Safe e p h below
  statement-Safe N e if_ block loc TokenType.show_kw p h below i b = show-Safe e p h below
  statement-Safe N e if_ block loc TokenType.return_kw p h below i b = return-Safe e p h below
  statement-Safe N e if_ block loc TokenType.if_kw p h below i b = i
  statement-Safe N e if_ block loc TokenType.loop_kw p h below i b = loop-Safe block p h b
  statement-Safe N e if_ block loc TokenType.break_kw p h below i b = break-Safe D ts ends p h
  statement-Safe N e if_ block loc TokenType.cycle_kw p h below i b = cycle-Safe D ts ends p h
  statement-Safe N e if_ block loc _ p h below i b = Safe-throw ts (Node D) (left p) _ p
