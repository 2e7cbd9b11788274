-- ===== src/TypeCheck/Stmt/Shaped.antt =====
-- The tree that `visit_statement_node` returns has the shape of the tree it takes, and its jumps.
use b2_lang.Prelude.{◌≡◌, refl, subst, Bool, true, false, ◌&&◌, Option, none, some, Bytes, ◌==◌}
use b2_lang.Token.{SourceLocation}
use b2_lang.Error.{Result, ok, err, undefined, Post, Post-bind, Post-any, Post-if}
use b2_lang.Ast.{
  Ty, bool_type, Node, MaybeNode, Nodes, variable_assignment_statement,
  variable_declaration_statement, show_statement, function_declaration, program, return_statement,
  if_statement, block_statement, loop_statement, break_statement, cycle_statement, null, present,
  nil, cons,
}
use b2_lang.Parser.Shape.{
  is_expression, is_annotation, is_statement, is_block, is_else, are_statements, is_function,
  are_functions, is_program,
}
use b2_lang.TypeCheck.Literal.{Doubles}
use b2_lang.TypeCheck.Scope
use b2_lang.TypeCheck.Scope.{store}
use b2_lang.TypeCheck.Expr.{Checker, check_expr, infer_expr, infer_expr_top_level}
use b2_lang.TypeCheck.Expr.Shaped.{check_expr-Shaped, infer_top_level-Typed, annotation-Shaped}
use b2_lang.TypeCheck.Stmt.{
  declared, declare_new, visit_statement_var_decl, assign_known, visit_statement_var_assign,
  visit_statement_show, visit_statement_return, visit_statement_break, visit_statement_cycle,
  push_scope, pop_scope, enter_loop, visit_statement_node, visit_maybe, visit_statements,
  visit_functions,
}
use b2_lang.TypeCheck.Stmt.Loops.{jumps_in_loops, maybe_jumps_in_loops, all_jumps_in_loops}

and_keeps :
    (a b c d : Bool)
    → (a ≡ true → c ≡ true)
    → (b ≡ true → d ≡ true)
    → (a && b) ≡ true
    → (c && d) ≡ true
and_keeps true true c d h k e = rw (h refl, k refl) refl
and_keeps true false c d h k e = cc
and_keeps false b c d h k e = cc

and_same : (a b c d : Bool) → c ≡ a → d ≡ b → (c && d) ≡ (a && b)
and_same a b c d h k = rw (h, k) refl

-- A premise of what a step returns.
Post-given {ℓ κ} :
    {A : Type ℓ} (Q : Type 0) (P : A → Type κ) (r : Result A)
    → (Q → Post P r)
    → Post (λ a. Q → P a) r
Post-given Q P (ok a) h = h
Post-given Q P (err e) h = tt
Post-given Q P undefined h = tt

module _ (F : Doubles) where
  abbrev Ast : Type 0
  Ast = Node F.Double

  -- The node that a visit returns, against the node that it takes.
  record Alike (n m : Ast) : Type 0 where
    statement : is_statement n ≡ true → is_statement m ≡ true
    block : is_block n ≡ true → is_block m ≡ true
    alternative : is_else (present n) ≡ true → is_else (present m) ≡ true
    function : is_function n ≡ true → is_function m ≡ true
    jumps : (i : Bool) → jumps_in_loops i m ≡ jumps_in_loops i n

  abbrev Visited : Ast → Result (Checker × Ast) → Type 0
  Visited n r = Post (λ s. Alike n s.1) r

  checked :
      (c : Checker) (n : Ast) (t : Ty)
      → Post (λ m. is_expression n ≡ true → is_expression m ≡ true) (check_expr F c n t)
  checked c n t = Post-given _ _ (check_expr F c n t) (check_expr-Shaped F c n t)

  inferred :
      (c : Checker) (n : Ast)
      → Post (λ s. is_expression n ≡ true → is_expression s.1 ≡ true) (infer_expr_top_level F c n)
  inferred c n = Post-given _ _ (infer_expr_top_level F c n) (infer_top_level-Typed F c n)

  abbrev Declares : Ast → MaybeNode F.Double → Ty × Ast × MaybeNode F.Double → Type 0
  Declares v a s =
      (is_expression v ≡ true → is_expression s.1 ≡ true)
      × (is_annotation a ≡ true → is_annotation s.2 ≡ true)

  declared-Declares :
      (c : Checker) (a : MaybeNode F.Double) (v : Ast) → Post (Declares v a) (declared F c a v)
  unfolding declared
  declared-Declares c null v =
      Post-bind (λ s. is_expression v ≡ true → is_expression s.1 ≡ true) (Declares v null) _ _
        (inferred c v) λ s h. (h, λ e. e)
  declared-Declares c (present a) v =
      Post-bind (λ s. is_annotation (present a) ≡ true → is_annotation (present s.1) ≡ true)
        (Declares v (present a)) (infer_expr F c a) _
        (Post-given _ _ (infer_expr F c a) (annotation-Shaped F c a))
        λ s h.
          Post-bind (λ m. is_expression v ≡ true → is_expression m ≡ true) (Declares v (present a))
            _ _ (checked c v s.0) λ m k. (k, h)

  module _ (c : Checker) (loc : SourceLocation) (name : Bytes) (v : Ast) where
    declaration-Visited :
        (a : MaybeNode F.Double) (o found : Option Ty)
        → Visited
            (variable_declaration_statement loc name v a o)
            (declare_new F c loc name v a found)
    unfolding declare_new is_statement is_function jumps_in_loops
    declaration-Visited a o (some t) = tt
    declaration-Visited a o none =
        Post-bind (Declares v a) (λ s. Alike (variable_declaration_statement loc name v a o) s.1)
          (declared F c a v) _ (declared-Declares c a v)
          λ s h.
            let made : Alike (variable_declaration_statement loc name v a o)
                (variable_declaration_statement loc name s.1 s.2 (some s.0)) =
              record {
                statement =
                    and_keeps (is_expression v) (is_annotation a) (is_expression s.1)
                      (is_annotation s.2) h.0 h.1;
                block = λ e. cc;
                alternative = λ e. cc;
                function = λ e. cc;
                jumps = λ i. refl;
              } in
            Post-bind {B = Checker × Ast} (λ _. Unit {0})
              (λ s. Alike (variable_declaration_statement loc name v a o) s.1)
              (store name s.0 c.variable_scope_stack) _ (Post-any _) λ scopes _. made

    assignment-Visited :
        (o found : Option Ty)
        → Visited (variable_assignment_statement loc name v o) (assign_known F c loc name v o found)
    unfolding assign_known is_statement is_function jumps_in_loops
    assignment-Visited o none = tt
    assignment-Visited o (some t) =
        Post-bind (λ m. is_expression v ≡ true → is_expression m ≡ true)
          (λ s. Alike (variable_assignment_statement loc name v o) s.1) _ _ (checked c v t)
          λ m h. record {
            statement = h;
            block = λ e. cc;
            alternative = λ e. cc;
            function = λ e. cc;
            jumps = λ i. refl;
          }

  Alike-refl : (n : Ast) → Alike n n
  Alike-refl n = record {
    statement = λ e. e;
    block = λ e. e;
    alternative = λ e. e;
    function = λ e. e;
    jumps = λ i. refl;
  }

  abbrev AlikeMaybe : MaybeNode F.Double → MaybeNode F.Double → Type 0
  AlikeMaybe n m =
      (is_else n ≡ true → is_else m ≡ true)
      × ((i : Bool) → maybe_jumps_in_loops i m ≡ maybe_jumps_in_loops i n)

  abbrev AlikeAll : Nodes F.Double → Nodes F.Double → Type 0
  AlikeAll ns ms =
      (are_statements ns ≡ true → are_statements ms ≡ true)
      × (are_functions ns ≡ true → are_functions ms ≡ true)
      × ((i : Bool) → all_jumps_in_loops i ms ≡ all_jumps_in_loops i ns)

  both :
      (n m : Ast) (ns ms : Nodes F.Double)
      → Alike n m
      → AlikeAll ns ms
      → AlikeAll (cons n ns) (cons m ms)
  unfolding is_statement are_functions jumps_in_loops
  both n m ns ms h k = (
    and_keeps (is_statement n) (are_statements ns) (is_statement m) (are_statements ms) h.statement
        k.0,
    and_keeps (is_function n) (are_functions ns) (is_function m) (are_functions ms) h.function k.1,
    λ i. and_same _ _ _ _ (h.jumps i) (k.2 i),
  )

  mutual
    unfolding visit_statement_node is_statement is_function are_functions jumps_in_loops
        visit_statement_var_decl visit_statement_var_assign visit_statement_show
        visit_statement_return visit_statement_break visit_statement_cycle

    node-Visited : (c : Checker) (n : Ast) → Visited n (visit_statement_node F c n)
    node-Visited c (function_declaration loc name body) =
        Post-bind (λ s. Alike body s.1) (λ s. Alike (function_declaration loc name body) s.1) _ _
          (node-Visited c body)
          λ s h. record {
            statement = λ e. cc;
            block = λ e. cc;
            alternative = λ e. cc;
            function = h.block;
            jumps = h.jumps;
          }
    node-Visited c (program loc functions) =
        Post-bind (λ s. AlikeAll functions s.1) (λ s. Alike (program loc functions) s.1) _ _
          (functions-Visited c functions)
          λ s h. record {
            statement = λ e. cc;
            block = λ e. cc;
            alternative = λ e. cc;
            function = λ e. cc;
            jumps = h.2;
          }
    node-Visited c (variable_assignment_statement loc name v o) =
        assignment-Visited c loc name v o (Scope.find name c.variable_scope_stack)
    node-Visited c (variable_declaration_statement loc name v a o) =
        declaration-Visited c loc name v a o (Scope.find name c.variable_scope_stack)
    node-Visited c (show_statement loc v o) =
        Post-bind (λ s. is_expression v ≡ true → is_expression s.1 ≡ true)
          (λ s. Alike (show_statement loc v o) s.1) _ _ (inferred c v)
          λ s h. record {
            statement = h;
            block = λ e. cc;
            alternative = λ e. cc;
            function = λ e. cc;
            jumps = λ i. refl;
          }
    node-Visited c (return_statement loc v o) =
        Post-bind (λ s. is_expression v ≡ true → is_expression s.1 ≡ true)
          (λ s. Alike (return_statement loc v o) s.1) _ _ (inferred c v)
          λ s h. record {
            statement = h;
            block = λ e. cc;
            alternative = λ e. cc;
            function = λ e. cc;
            jumps = λ i. refl;
          }
    node-Visited c (if_statement loc k t e) =
        Post-bind (λ m. is_expression k ≡ true → is_expression m ≡ true)
          (λ s. Alike (if_statement loc k t e) s.1) (check_expr F c k bool_type) _
          (checked c k bool_type)
          λ k' hk.
            Post-bind (λ s. Alike t s.1) (λ s. Alike (if_statement loc k t e) s.1)
              (visit_statement_node F c t) _ (node-Visited c t)
              λ t' ht.
                Post-bind (λ s. AlikeMaybe e s.1) (λ s. Alike (if_statement loc k t e) s.1)
                  (visit_maybe F t'.0 e) _ (maybe-Visited t'.0 e)
                  λ e' he.
                    let shape =
                      and_keeps (is_expression k && is_block t) (is_else e)
                        (is_expression k' && is_block t'.1) (is_else e'.1)
                        (and_keeps (is_expression k) (is_block t) (is_expression k') (is_block t'.1)
                          hk ht.block)
                        he.0 in
                    record {
                      statement = shape;
                      block = λ e. cc;
                      alternative = shape;
                      function = λ e. cc;
                      jumps = λ i. and_same _ _ _ _ (ht.jumps i) (he.1 i);
                    }
    node-Visited c (block_statement loc ns) =
        Post-bind (λ s. AlikeAll ns s.1) (λ s. Alike (block_statement loc ns) s.1)
          (visit_statements F (push_scope c) ns) _ (statements-Visited (push_scope c) ns)
          λ s h.
            Post-bind (λ _. Unit {0}) (λ s. Alike (block_statement loc ns) s.1) (pop_scope s.0) _
              (Post-any _)
              λ d _. record {
                statement = λ e. cc;
                block = h.0;
                alternative = h.0;
                function = λ e. cc;
                jumps = h.2;
              }
    node-Visited c (loop_statement loc body) =
        Post-bind (λ s. Alike body s.1) (λ s. Alike (loop_statement loc body) s.1)
          (visit_statement_node F (enter_loop c) body) _ (node-Visited (enter_loop c) body)
          λ s h. record {
            statement = h.block;
            block = λ e. cc;
            alternative = λ e. cc;
            function = λ e. cc;
            jumps = λ i. h.jumps true;
          }
    node-Visited c (break_statement loc) =
        Post-if (λ s. Alike (break_statement loc) s.1) (c.loop_depth == 0) _ _ tt
          (Alike-refl (break_statement loc))
    node-Visited c (cycle_statement loc) =
        Post-if (λ s. Alike (cycle_statement loc) s.1) (c.loop_depth == 0) _ _ tt
          (Alike-refl (cycle_statement loc))
    node-Visited c _ = tt

    maybe-Visited :
        (c : Checker) (n : MaybeNode F.Double) → Post (λ s. AlikeMaybe n s.1) (visit_maybe F c n)
    maybe-Visited c null = (λ e. e, λ i. refl)
    maybe-Visited c (present n) =
        Post-bind (λ s. Alike n s.1) (λ s. AlikeMaybe (present n) s.1) _ _ (node-Visited c n)
          λ s h. (h.alternative, h.jumps)

    statements-Visited :
        (c : Checker) (ns : Nodes F.Double) → Post (λ s. AlikeAll ns s.1) (visit_statements F c ns)
    statements-Visited c nil = (λ e. e, λ e. e, λ i. refl)
    statements-Visited c (cons n ns) =
        Post-bind (λ s. Alike n s.1) (λ s. AlikeAll (cons n ns) s.1) (visit_statement_node F c n) _
          (node-Visited c n)
          λ s h.
            Post-bind (λ s. AlikeAll ns s.1) (λ s. AlikeAll (cons n ns) s.1)
              (visit_statements F s.0 ns) _ (statements-Visited s.0 ns) λ t k. both n s.1 ns t.1 h k

    functions-Visited :
        (c : Checker) (ns : Nodes F.Double) → Post (λ s. AlikeAll ns s.1) (visit_functions F c ns)
    functions-Visited c nil = (λ e. e, λ e. e, λ i. refl)
    functions-Visited c (cons n ns) =
        Post-bind (λ s. Alike n s.1) (λ s. AlikeAll (cons n ns) s.1) (visit_statement_node F c n) _
          (node-Visited c n)
          λ s h.
            Post-bind (λ _. Unit {0}) (λ s. AlikeAll (cons n ns) s.1) (pop_scope s.0) _ (Post-any _)
              λ d _.
                Post-bind (λ s. AlikeAll ns s.1) (λ s. AlikeAll (cons n ns) s.1)
                  (visit_functions F d ns) _ (functions-Visited d ns) λ t k. both n s.1 ns t.1 h k

  program-Visited :
      (c : Checker) (n : Ast)
      → is_program n ≡ true
      → Post
          (λ s. (is_program s.1 ≡ true) × (jumps_in_loops false s.1 ≡ jumps_in_loops false n))
          (visit_statement_node F c n)
  unfolding visit_statement_node is_program jumps_in_loops
  program-Visited c (program loc fs) e =
      Post-bind (λ s. AlikeAll fs s.1)
        (λ s.
          (is_program s.1 ≡ true)
          × (jumps_in_loops false s.1 ≡ jumps_in_loops false (program loc fs)))
        (visit_functions F c fs) _ (functions-Visited c fs) λ s h. (h.1 e, h.2 false)
  program-Visited c _ e = cc

  -- The checked tree of a program is a program whose jumps stand in loops exactly where they did.
  pub visit_statement_node-is_program :
      (c c' : Checker) (n n' : Ast)
      → is_program n ≡ true
      → visit_statement_node F c n ≡ ok (c', n')
      → (is_program n' ≡ true) × (jumps_in_loops false n' ≡ jumps_in_loops false n)
  visit_statement_node-is_program c c' n n' e h =
      subst
        (Post (λ s. (is_program s.1 ≡ true) × (jumps_in_loops false s.1 ≡ jumps_in_loops false n)))
        h (program-Visited c n e)
