-- ===== src/TypeCheck/Stmt/Names.antt =====
-- The names that a visit of a statement (src/type_check_visitor.cxx) declares.
use b2_lang.Prelude.{◌≡◌, refl, subst, inl, inr, Option, some, [], ◌∷◌, ◌==◌, Bytes, Option-cases}
use b2_lang.Token.{SourceLocation}
use b2_lang.Error.{Result, ok, ◌>>=◌, Post, Post-bind, Post-any, Post-if}
use b2_lang.Ast.{
  Ty, bool_type, Node, MaybeNode, Nodes, variable_assignment_statement,
  variable_declaration_statement, show_statement, function_declaration, program, return_statement,
  if_statement, block_statement, loop_statement, break_statement, cycle_statement, null, present,
  nil, cons,
}
use b2_lang.TypeCheck.Literal.{Doubles}
use b2_lang.TypeCheck.Scope.{ScopeStack, store, pop, find}
use b2_lang.TypeCheck.Scope.Shadow.{
  IsUnshadowed, store-IsUnshadowed, push-IsUnshadowed, find_innermost, find-find_innermost,
}
use b2_lang.TypeCheck.Expr.{Checker, check_expr, infer_expr_top_level}
use b2_lang.TypeCheck.Stmt.{
  declared, visit_statement_var_decl, visit_statement_var_assign, visit_statement_show,
  visit_statement_return, visit_statement_break, visit_statement_cycle, push_scope, pop_scope,
  enter_loop, leave_loop, add_function, visit_statement_node, visit_maybe, visit_statements,
  visit_functions,
}

-- No name is declared in two scopes of the state.
abbrev pub HasUniqueNames : Checker → Type 0
HasUniqueNames c = IsUnshadowed c.variable_scope_stack

module _ (F : Doubles) where
  abbrev Ast : Type 0
  Ast = Node F.Double

  abbrev StateUnique : {A : Type 0} → Checker × A → Type 0
  StateUnique s = HasUniqueNames s.0

  store-Unique :
      (c : Checker) (name : Bytes) (t : Ty) (n : Ast)
      → HasUniqueNames c
      → find name c.variable_scope_stack ≡ Option.none
      → Post StateUnique (do
        scopes ← store name t c.variable_scope_stack
        ok (record c { variable_scope_stack = scopes }, n))
  store-Unique c name t n u new = stored (store name t c.variable_scope_stack) refl
    where
      stored :
          (r : Result ScopeStack)
          → store name t c.variable_scope_stack ≡ r
          → Post StateUnique (r >>= λ scopes. ok (record c { variable_scope_stack = scopes }, n))
      stored (ok scopes) e = store-IsUnshadowed name t c.variable_scope_stack u new e
      stored (Result.err x) e = tt
      stored Result.undefined e = tt

  var_decl-Unique :
      (c : Checker) (loc : SourceLocation) (name : Bytes) (value : Ast)
      (annotation : MaybeNode F.Double)
      → HasUniqueNames c
      → Post StateUnique (visit_statement_var_decl F c loc name value annotation)
  unfolding visit_statement_var_decl
  var_decl-Unique c loc name value annotation u =
      elim (Option-cases (find name c.variable_scope_stack)) [
        | inr (t, h) ↦ rw h tt
        | inl h ↦ rw h (
            Post-bind (λ _. Unit {0}) StateUnique (declared F c annotation value) _ (Post-any _)
              λ (t, v, a) _. store-Unique c name t _ u h)
      ]

  var_assign-Unique :
      (c : Checker) (loc : SourceLocation) (name : Bytes) (value : Ast) (o : Option Ty)
      → HasUniqueNames c
      → Post StateUnique (visit_statement_var_assign F c loc name value o)
  unfolding visit_statement_var_assign
  var_assign-Unique c loc name value o u = elim (Option-cases (find name c.variable_scope_stack)) [
    | inl h ↦ rw h tt
    | inr (t, h) ↦
        rw h
          (Post-bind (λ _. Unit {0}) StateUnique (check_expr F c value t) _ (Post-any _) λ v _. u)
  ]

  top_level-Unique :
      (c : Checker) (expr : Ast) (build : Ty → Ast → Ast)
      → HasUniqueNames c
      → Post StateUnique (infer_expr_top_level F c expr >>= λ (t, expr'). ok (c, build t expr'))
  top_level-Unique c expr build u =
      Post-bind (λ _. Unit {0}) StateUnique (infer_expr_top_level F c expr) _ (Post-any _) λ _ _. u

  pop_at-Unique :
      (c : Checker) (scopes : ScopeStack)
      → c.variable_scope_stack ≡ scopes
      → HasUniqueNames c
      → Post HasUniqueNames (pop_scope c)
  unfolding pop_scope pop
  pop_at-Unique c [] e u = rw e tt
  pop_at-Unique c (s ∷ scopes) e u = rw e ((subst IsUnshadowed e u).1)

  pop-Unique : (c : Checker) → HasUniqueNames c → Post HasUniqueNames (pop_scope c)
  pop-Unique c = pop_at-Unique c c.variable_scope_stack refl

  Unique-map :
      {A B : Type 0} (r : Result (Checker × A)) (build : A → B)
      → Post StateUnique r
      → Post StateUnique (r >>= λ (d, a). ok (d, build a))
  Unique-map r build p = Post-bind StateUnique StateUnique r _ p λ s u. u

  mutual
    unfolding visit_statement_node visit_statement_show visit_statement_return visit_statement_break
        visit_statement_cycle push_scope add_function enter_loop leave_loop

    node-Unique :
        (c : Checker) (n : Ast) → HasUniqueNames c → Post StateUnique (visit_statement_node F c n)
    node-Unique c (function_declaration loc name body) u =
        Post-bind StateUnique StateUnique _ _ (node-Unique c body u) λ s v. v
    node-Unique c (program loc functions) u =
        Unique-map (visit_functions F c functions) (program loc) (functions-Unique c functions u)
    node-Unique c (variable_assignment_statement loc name value o) u =
        var_assign-Unique c loc name value o u
    node-Unique c (variable_declaration_statement loc name value annotation _) u =
        var_decl-Unique c loc name value annotation u
    node-Unique c (show_statement loc expr _) u =
        top_level-Unique c expr (λ t e. show_statement loc e (some t)) u
    node-Unique c (return_statement loc expr _) u =
        top_level-Unique c expr (λ t e. return_statement loc e (some t)) u
    node-Unique c (if_statement loc condition t e) u =
        Post-bind (λ _. Unit {0}) StateUnique (check_expr F c condition bool_type) _ (Post-any _)
          λ condition' _.
            Post-bind StateUnique StateUnique (visit_statement_node F c t) _ (node-Unique c t u)
              λ s v.
                Unique-map (visit_maybe F s.0 e) (if_statement loc condition' s.1)
                  (maybe-Unique s.0 e v)
    node-Unique c (block_statement loc ns) u =
        Post-bind StateUnique StateUnique _ _
          (statements-Unique (push_scope c) ns (push-IsUnshadowed c.variable_scope_stack u))
          λ s v. Post-bind HasUniqueNames StateUnique (pop_scope s.0) _ (pop-Unique s.0 v) λ d w. w
    node-Unique c (loop_statement loc body) u =
        Post-bind StateUnique StateUnique _ _ (node-Unique (enter_loop c) body u) λ s v. v
    node-Unique c (break_statement loc) u = Post-if StateUnique (c.loop_depth == 0) _ _ tt u
    node-Unique c (cycle_statement loc) u = Post-if StateUnique (c.loop_depth == 0) _ _ tt u
    node-Unique c _ u = tt

    maybe-Unique :
        (c : Checker) (n : MaybeNode F.Double)
        → HasUniqueNames c
        → Post StateUnique (visit_maybe F c n)
    maybe-Unique c null u = u
    maybe-Unique c (present n) u =
        Unique-map (visit_statement_node F c n) present (node-Unique c n u)

    statements-Unique :
        (c : Checker) (ns : Nodes F.Double)
        → HasUniqueNames c
        → Post StateUnique (visit_statements F c ns)
    statements-Unique c nil u = u
    statements-Unique c (cons n ns) u =
        Post-bind StateUnique StateUnique (visit_statement_node F c n) _ (node-Unique c n u)
          λ s v. Unique-map (visit_statements F s.0 ns) (cons s.1) (statements-Unique s.0 ns v)

    functions-Unique :
        (c : Checker) (ns : Nodes F.Double)
        → HasUniqueNames c
        → Post StateUnique (visit_functions F c ns)
    functions-Unique c nil u = u
    functions-Unique c (cons n ns) u =
        Post-bind StateUnique StateUnique (visit_statement_node F c n) _ (node-Unique c n u) λ s v.
          Post-bind HasUniqueNames StateUnique (pop_scope s.0) _ (pop-Unique s.0 v)
            λ d w. Unique-map (visit_functions F d ns) (cons s.1) (functions-Unique d ns w)

  -- If no name is declared in two scopes, then after any visit of a statement that returns no name
  -- is declared in two scopes, and for every name the search from the outermost scope finds what a
  -- search from the innermost scope finds.
  pub visit_statement_node-HasUniqueNames :
      (c c' : Checker) (n n' : Ast)
      → HasUniqueNames c
      → visit_statement_node F c n ≡ ok (c', n')
      → HasUniqueNames c'
        × ((name : Bytes)
            → find name c'.variable_scope_stack ≡ find_innermost name c'.variable_scope_stack)
  visit_statement_node-HasUniqueNames c c' n n' u h =
      let v : HasUniqueNames c' = subst (Post StateUnique) h (node-Unique c n u) in
      (v, λ name. find-find_innermost name c'.variable_scope_stack v)
