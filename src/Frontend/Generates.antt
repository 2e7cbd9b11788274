-- ===== src/Frontend/Generates.antt =====
-- What the type checker accepts, and what the code generator makes of it (src/frontend.cxx).
use b2_lang.Prelude.{◌≡◌, refl, ◌∙◌, false, some, [], Bytes}
use b2_lang.Error.{Error, ok, err}
use b2_lang.Ast.{Node}
use b2_lang.Lexer.{tokenise}
use b2_lang.Parser.Expr.{Numerals}
use b2_lang.Parser.Stmt.{parse}
use b2_lang.Parser.Shape.Program.{parse-is_program}
use b2_lang.TypeCheck.Literal.{Doubles}
use b2_lang.TypeCheck.Expr.{Checker}
use b2_lang.TypeCheck.Stmt.{visit_statement_node, initial_checker}
use b2_lang.TypeCheck.Stmt.Loops.{visit_statement_node-jumps_in_loops}
use b2_lang.TypeCheck.Stmt.Shaped.{visit_statement_node-is_program}
use b2_lang.Codegen.Llvm.{Llvm}
use b2_lang.Codegen.Visit
use b2_lang.Codegen.Visit.{Codegen}
use b2_lang.Codegen.Visit.Quiet.{is_jump_error}
use b2_lang.Codegen.Visit.Jumps.{visit-is_jump_error}
use b2_lang.Frontend.{compile}
use b2_lang.Frontend.Accepts.{stage-some, some-ok}

module _ (F : Doubles) (N : Numerals F.Double) (L : Llvm F.Double) where
  -- If the type checker accepts a text, with a loop depth that starts at 0, and the stack of loops
  -- of the code generator is empty, then an exception of the code generator on the checked tree is
  -- never that of a `break` or a `cycle` without a loop.
  pub compile-is_jump_error :
      (filename text : Bytes) (c : Checker) (n' : Node F.Double) (g : Codegen L) (error : Error)
      → compile F N 0 filename text ≡ some (ok (c, n'))
      → g.loop_block_stack ≡ []
      → Visit.visit L n' g ≡ err error
      → is_jump_error error ≡ false
  unfolding compile
  compile-is_jump_error filename text c n' g error h empty thrown =
      let lexed = stage-some F N (tokenise filename text) _ (c, n') h in
      let parsed = stage-some F N (parse N lexed.0) _ (c, n') lexed.2 in
      let n = parsed.0.0 in
      let checked = some-ok F N (visit_statement_node F (initial_checker 0) n) (c, n') parsed.2 in
      let shaped = parse-is_program N lexed.0 n parsed.0.1 parsed.1 in
      let kept = visit_statement_node-is_program F (initial_checker 0) c n n' shaped checked in
      visit-is_jump_error L n' g error kept.0
        (kept.1 ∙ visit_statement_node-jumps_in_loops F (initial_checker 0) c n n' refl checked)
        empty thrown
