-- ===== src/Frontend.antt =====
-- `compile` of src/frontend.cxx, from the text of the file up to and including the type checker.
pub mod Accepts
pub mod Functions
pub mod Generates
use b2_lang.Prelude.{ℕ, Option, none, some, Bytes}
use b2_lang.Error.{Result, ok, err, undefined}
use b2_lang.Ast.{Node}
use b2_lang.Lexer.{tokenise}
use b2_lang.Parser.Expr.{Numerals}
use b2_lang.Parser.Stmt.{parse}
use b2_lang.TypeCheck.Literal.{Doubles}
use b2_lang.TypeCheck.Expr.{Checker}
use b2_lang.TypeCheck.Stmt.{visit_statement_node, initial_checker}

-- The next stage, on what a stage returns; its exception, or the end of its fuel, is the end.
abbrev pub stage {ℓ κ} :
    {A : Type ℓ} {B : Type κ} → Option (Result A) → (A → Option (Result B)) → Option (Result B)
stage none next = none
stage (some (ok a)) next = next a
stage (some (err e)) next = some (err e)
stage (some undefined) next = some undefined

module _ (F : Doubles) (N : Numerals F.Double) where
  -- `depth` is what the type checker's `loop_depth` holds before its first write.
  unfoldable pub compile : ℕ → Bytes → Bytes → Option (Result (Checker × Node F.Double))
  compile depth filename data_ = stage (tokenise filename data_) λ tokens.
      stage (parse N tokens) λ top. some (visit_statement_node F (initial_checker depth) top.0)
