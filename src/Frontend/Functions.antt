-- ===== src/Frontend/Functions.antt =====
-- The functions of a parsed program, and what the type checker makes of their number.
use b2_lang.Prelude.{and_first, and_second, ℕ, ◌<◌, ◌≡◌, refl, subst, Bool, true, false, ◌&&◌}
use b2_lang.Error.{ok, undefined, Defined}
use b2_lang.Ast.{
  Node, MaybeNode, Nodes, program, function_declaration, block_statement, if_statement,
  loop_statement, null, present, nil, cons,
}
use b2_lang.Parser.Shape.{
  is_expression, is_statement, is_block, is_else, are_statements, is_function, are_functions,
  is_program,
}
use b2_lang.TypeCheck.Literal.{Doubles}
use b2_lang.TypeCheck.Expr.{Checker}
use b2_lang.TypeCheck.Stmt.{visit_statement_node, initial_checker, depth_mod}
use b2_lang.TypeCheck.Stmt.Frame.{has_program, maybe_has_program, any_has_program}
use b2_lang.TypeCheck.Stmt.Balance.{visit_program_two_functions}
use b2_lang.TypeCheck.Stmt.Defined.{visit-one_function-Defined}

module _ {D : Type 0} where
  mutual
    unfolding is_statement has_program

    -- No program stands inside a statement.
    statement-plain : (n : Node D) → is_statement n ≡ true → has_program n ≡ false
    statement-plain (if_statement l c t e) h =
        rw
          (
            block-plain t (
                and_second (is_expression c) (is_block t)
                  (and_first (is_expression c && is_block t) (is_else e) h)),
            else-plain e (and_second (is_expression c && is_block t) (is_else e) h),
          )
          refl
    statement-plain (loop_statement l body) h = block-plain body h
    statement-plain (program l fs) h = cc
    statement-plain (function_declaration l name body) h = cc
    statement-plain (block_statement l ns) h = cc
    statement-plain _ h = refl

    block-plain : (n : Node D) → is_block n ≡ true → has_program n ≡ false
    block-plain (block_statement l ns) h = statements-plain ns h
    block-plain _ h = cc

    else-plain : (n : MaybeNode D) → is_else n ≡ true → maybe_has_program n ≡ false
    else-plain null h = refl
    else-plain (present (if_statement l c t e)) h = statement-plain (if_statement l c t e) h
    else-plain (present (block_statement l ns)) h = statements-plain ns h
    else-plain (present _) h = cc

    statements-plain : (ns : Nodes D) → are_statements ns ≡ true → any_has_program ns ≡ false
    statements-plain nil h = refl
    statements-plain (cons n ns) h =
        rw
          (
            statement-plain n (and_first (is_statement n) (are_statements ns) h),
            statements-plain ns (and_second (is_statement n) (are_statements ns) h),
          )
          refl

  function-plain : (n : Node D) → is_function n ≡ true → has_program n ≡ false
  unfolding is_function has_program
  function-plain (function_declaration l name body) h = block-plain body h
  function-plain _ h = cc

  -- A program of at most one function.
  pub has_one_function : Node D → Bool
  has_one_function (program _ nil) = true
  has_one_function (program _ (cons f nil)) = true
  has_one_function _ = false

module _ (F : Doubles) where
  pub one_function :
      (depth : ℕ) (n : Node F.Double) (c : Checker) (n' : Node F.Double)
      → depth < depth_mod
      → is_program n ≡ true
      → visit_statement_node F (initial_checker depth) n ≡ ok (c, n')
      → has_one_function n ≡ true
  unfolding is_program are_functions has_one_function
  one_function depth (program l nil) c n' small p h = refl
  one_function depth (program l (cons f nil)) c n' small p h = refl
  one_function depth (program l (cons f (cons g rest))) c n' small p h =
      let tail = and_second (is_function f) _ p in
      absurd (
        visit_program_two_functions F depth l f g rest small
          (function-plain f (and_first (is_function f) _ p))
          (function-plain g (and_first (is_function g) _ tail)) c n' h)
  one_function depth _ c n' small p h = cc

  pub two_functions :
      (depth : ℕ) (n : Node F.Double)
      → depth < depth_mod
      → is_program n ≡ true
      → visit_statement_node F (initial_checker depth) n ≡ undefined
      → has_one_function n ≡ false
  unfolding is_program are_functions has_one_function visit_statement_node
  two_functions depth (program l nil) small p h = cc
  two_functions depth (program l (cons f nil)) small p h = absurd (
      subst Defined h (
        visit-one_function-Defined F depth l f small
          (function-plain f (and_first (is_function f) true p))))
  two_functions depth (program l (cons f (cons g rest))) small p h = refl
  two_functions depth _ small p h = cc
