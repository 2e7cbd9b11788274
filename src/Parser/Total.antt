-- ===== src/Parser/Total.antt =====
-- Where the parser (src/parser.cxx) ends on the tokens of the lexer, and what it reads.
pub mod Expr
pub mod Stmt
use b2_lang.Prelude.{
  ℕ, zero, suc, ◌+◌, ◌*◌, ◌≤◌, ◌<◌, ◌≡◌, ◌≢◌, refl, Bool, true, false, Option, none, some, List,
  arith, length,
}
use b2_lang.Token.{Token, TokenType, type_eq}
use b2_lang.Error.{Result, ok, err, undefined}
use b2_lang.Lexer.Progress.{ends_once}
use b2_lang.Ast.{Node}
use b2_lang.Parser.{Parser, is_terminator}
use b2_lang.Parser.Run.{Outcome}
use b2_lang.Parser.Expr.{Numerals, parse_expression}
use b2_lang.Parser.Stmt.{
  end_terminators, if_terminators, parse_statement, parse_if_statement, parse_block_statement,
  parse_statements, parse_functions, parse_top_level, parse,
}
use b2_lang.Parser.Safe.{left, Safe, Safe-pure, Safe-follow, Safe-elim, Safe-peek}
use b2_lang.Parser.Total.Expr.{expression-Safe}
use b2_lang.Parser.Total.Stmt.{if_body-Safe, function-Safe, statement-Safe}

module _ {D : Type 0} (N : Numerals D) (ts : List Token) (ends : ends_once ts ≡ true) where
  mutual
    unfolding parse_statement

    parse_statement-Safe :
        (f : ℕ) (p : Parser)
        → p.tokens ≡ ts
        → 4 * left p + 3 < f
        → Safe ts (left p) (parse_statement N f p)
    parse_statement-Safe zero p h l = absurd (omega (arith, l))
    parse_statement-Safe (suc f) p h l = Safe-peek ts ends (left p) p _ h λ t here.
        statement-Safe ts ends N (parse_expression N f 0) (parse_if_statement N f)
          (parse_block_statement N f end_terminators) t.source_location t.type p h
          (λ q hq lq. expression-Safe N ts ends f 0 q hq (omega arith))
          (parse_if-Safe f p h (omega arith))
          (λ q hq lq. parse_block-Safe f end_terminators q hq (omega arith))

    parse_if-Safe :
        (f : ℕ) (p : Parser)
        → p.tokens ≡ ts
        → 4 * left p + 2 < f
        → Safe ts (left p) (parse_if_statement N f p)
    parse_if-Safe zero p h l = absurd (omega (arith, l))
    parse_if-Safe (suc f) p h l =
        if_body-Safe ts ends (parse_expression N f 0) (parse_block_statement N f if_terminators)
          (parse_if_statement N f) (parse_block_statement N f end_terminators) p h
          (λ q hq lq. expression-Safe N ts ends f 0 q hq (omega arith))
          (λ q hq lq. parse_block-Safe f if_terminators q hq (omega arith))
          (λ q hq lq. parse_if-Safe f q hq (omega arith))
          (λ q hq lq. parse_block-Safe f end_terminators q hq (omega arith))

    parse_block-Safe :
        (f : ℕ) (terms : List TokenType) (p : Parser)
        → p.tokens ≡ ts
        → 4 * left p + 5 < f
        → Safe ts (suc (left p)) (parse_block_statement N f terms p)
    parse_block-Safe zero terms p h l = absurd (omega (arith, l))
    parse_block-Safe (suc f) terms p h l = Safe-peek ts ends (suc (left p)) p _ h λ t here.
        Safe-follow ts (suc (left p)) (suc (left p)) _ _
          (parse_statements-Safe f terms p h (omega arith))
          λ ns q hq lq. Safe-pure ts (suc (left p)) _ q hq lq

    parse_statements-Safe :
        (f : ℕ) (terms : List TokenType) (p : Parser)
        → p.tokens ≡ ts
        → 4 * left p + 4 < f
        → Safe ts (suc (left p)) (parse_statements N f terms p)
    parse_statements-Safe zero terms p h l = absurd (omega (arith, l))
    parse_statements-Safe (suc f) terms p h l = Safe-peek ts ends (suc (left p)) p _ h λ t here.
        Safe-elim ts (suc (left p)) (is_terminator terms t.type) _ _ p
          (λ _. Safe-pure ts (suc (left p)) _ p h (omega arith))
          (λ _.
            Safe-follow ts (left p) (suc (left p)) _ _ (parse_statement-Safe f p h (omega arith))
              λ n q hq lq.
                Safe-follow ts (suc (left q)) (suc (left p)) _ _
                  (parse_statements-Safe f terms q hq (omega arith))
                  λ ns r hr lr. Safe-pure ts (suc (left p)) _ r hr (omega arith))

  parse_functions-Safe :
      (f : ℕ) (p : Parser)
      → p.tokens ≡ ts
      → 4 * left p + 5 < f
      → Safe ts (suc (left p)) (parse_functions N f p)
  unfolding parse_functions
  parse_functions-Safe zero p h l = absurd (omega (arith, l))
  parse_functions-Safe (suc f) p h l = Safe-peek ts ends (suc (left p)) p _ h λ t here.
      Safe-elim ts (suc (left p)) (type_eq t.type TokenType.end_of_file) _ _ p
        (λ _. Safe-pure ts (suc (left p)) _ p h (omega arith))
        (λ _.
          Safe-follow ts (left p) (suc (left p)) _ _
            (function-Safe ts ends (parse_block_statement N f end_terminators) p h
              λ q hq lq. parse_block-Safe f end_terminators q hq (omega arith))
            λ n q hq lq.
              Safe-follow ts (suc (left q)) (suc (left p)) _ _
                (parse_functions-Safe f q hq (omega arith))
                λ ns r hr lr. Safe-pure ts (suc (left p)) _ r hr (omega arith))

  abbrev start : Parser
  start = record { tokens = ts; index = 0 }

  parse-Safe : Safe ts (suc (left start)) (parse N ts)
  unfolding parse parse_top_level
  parse-Safe =
      Safe-follow ts (suc (left start)) (suc (left start)) _ _
        (parse_functions-Safe (4 * length ts + 8) start refl (omega arith))
        λ ns q hq lq. Safe-pure ts (suc (left start)) _ q hq lq

  answers :
      (n : ℕ) (o : Outcome (Node D))
      → Safe ts n o
      → (r : Result (Node D × Parser)) × (o ≡ some r) × (r ≢ undefined)
  unfolding Safe
  answers n none h = absurd h
  answers n (some (ok a)) h = (ok a, refl, λ e. cc)
  answers n (some (err e)) h = (err e, refl, λ e. cc)
  answers n (some undefined) h = absurd h

  -- On tokens of which exactly one is `EndOfFile`, the last, the fuel of `parse` is enough: the
  -- parser returns a tree or throws an error, and reads no token where none is.
  pub parse_total : (r : Result (Node D × Parser)) × (parse N ts ≡ some r) × (r ≢ undefined)
  parse_total = answers (suc (left start)) (parse N ts) parse-Safe
