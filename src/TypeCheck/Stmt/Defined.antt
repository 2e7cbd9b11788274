-- ===== src/TypeCheck/Stmt/Defined.antt =====
-- `visit_statement_node` and undefined behaviour: the reads of the innermost scope.
use b2_lang.Prelude.{
  ℕ, ◌<◌, ◌≡◌, refl, Bool, false, ◌||◌, Option, none, some, [], ◌∷◌, arith, length, Bytes, ◌==◌,
}
use b2_lang.Token.{SourceLocation}
use b2_lang.Error.{Result, Post, Defined, Defined-bind, Defined-then, Defined-if}
use b2_lang.Ast.{
  Ty, bool_type, Node, MaybeNode, Nodes, variable_assignment_statement,
  variable_declaration_statement, show_statement, function_declaration, program, return_statement,
  if_statement, block_statement, loop_statement, break_statement, cycle_statement, null, present,
  nil, cons,
}
use b2_lang.TypeCheck.Literal.{Doubles}
use b2_lang.TypeCheck.Scope
use b2_lang.TypeCheck.Scope.{ScopeStack, push, pop, store}
use b2_lang.TypeCheck.Expr.{Checker}
use b2_lang.TypeCheck.Expr.Defined.{check_expr-Defined, infer_expr-Defined, infer_top_level-Defined}
use b2_lang.TypeCheck.Stmt.{
  depth_mod, declared, declare_new, visit_statement_var_decl, assign_known,
  visit_statement_var_assign, visit_statement_show, visit_statement_return, visit_statement_break,
  visit_statement_cycle, push_scope, pop_scope, enter_loop, visit_statement_node, visit_maybe,
  visit_statements, visit_functions, initial_checker,
}
use b2_lang.TypeCheck.Stmt.Frame.{
  has_program, maybe_has_program, any_has_program, Frame, enter-lt, depth_small,
}
use b2_lang.TypeCheck.Stmt.Balance.{node-Framed, statements-Framed}

module _ (F : Doubles) where
  abbrev Ast : Type 0
  Ast = Node F.Double

  -- Some scope is open, and the loop depth is a `uint32_t`.
  abbrev Open : Checker → Type 0
  Open c = (0 < length c.variable_scope_stack) × (c.loop_depth < depth_mod)

  store-Defined : (name : Bytes) (t : Ty) (s : ScopeStack) → 0 < length s → Defined (store name t s)
  unfolding store
  store-Defined name t [] h = absurd (omega (arith, h))
  store-Defined name t (scope ∷ s) h = tt

  pop-Defined : (s : ScopeStack) → 0 < length s → Defined (pop s)
  unfolding pop
  pop-Defined [] h = absurd (omega (arith, h))
  pop-Defined (scope ∷ s) h = tt

  pop_scope-Defined : (c : Checker) → 0 < length c.variable_scope_stack → Defined (pop_scope c)
  unfolding pop_scope
  pop_scope-Defined c h =
      Defined-then (pop c.variable_scope_stack) _ (pop-Defined c.variable_scope_stack h) λ _. tt

  declared-Defined :
      (c : Checker) (a : MaybeNode F.Double) (value : Ast) → Defined (declared F c a value)
  unfolding declared
  declared-Defined c null value = Defined-then _ _ (infer_top_level-Defined F c value) λ _. tt
  declared-Defined c (present a) value =
      Defined-then _ _ (infer_expr-Defined F c a)
        λ s. Defined-then _ _ (check_expr-Defined F c value s.0) λ _. tt

  declare_new-Defined :
      (c : Checker) (loc : SourceLocation) (name : Bytes) (value : Ast) (a : MaybeNode F.Double)
      (found : Option Ty)
      → Open c
      → Defined (declare_new F c loc name value a found)
  unfolding declare_new
  declare_new-Defined c loc name value a (some t) h = tt
  declare_new-Defined c loc name value a none h =
      Defined-then (declared F c a value) _ (declared-Defined c a value) λ s.
        Defined-then (store name s.0 c.variable_scope_stack) _
          (store-Defined name s.0 c.variable_scope_stack h.0) λ _. tt

  assign_known-Defined :
      (c : Checker) (loc : SourceLocation) (name : Bytes) (value : Ast) (o found : Option Ty)
      → Defined (assign_known F c loc name value o found)
  unfolding assign_known
  assign_known-Defined c loc name value o none = tt
  assign_known-Defined c loc name value o (some t) =
      Defined-then _ _ (check_expr-Defined F c value t) λ _. tt

  -- What a visit of no whole program leaves open.
  Frame-Open : (c d : Checker) → Open c → Frame false c d → Open d
  Frame-Open c d h f = (omega (arith, h.0, (f.1 refl).0), depth_small F c d h.1 f.0)

  or_first : (a b : Bool) → (a || b) ≡ false → a ≡ false
  or_first a b h = grind arith

  or_second : (a b : Bool) → (a || b) ≡ false → b ≡ false
  or_second a b h = grind arith

  framed :
      {A : Type 0} (b : Bool) (c : Checker) (r : Result (Checker × A))
      → b ≡ false
      → Post (λ s. Frame b c s.0) r
      → Post (λ s. Frame false c s.0) r
  framed b c r e h = rw e at h

  push-Open : (c : Checker) → Open c → Open (push_scope c)
  unfolding push_scope push
  push-Open c h = (omega arith, h.1)

  enter-Open : (c : Checker) → Open c → Open (enter_loop c)
  unfolding enter_loop
  enter-Open c h = (h.0, enter-lt F c)

  mutual
    unfolding visit_statement_node has_program visit_statement_var_decl visit_statement_var_assign
        visit_statement_show visit_statement_return visit_statement_break visit_statement_cycle

    pub node-Defined :
        (c : Checker) (n : Ast)
        → has_program n ≡ false
        → Open c
        → Defined (visit_statement_node F c n)
    node-Defined c (function_declaration loc name body) p h =
        Defined-then _ _ (node-Defined c body p h) λ _. tt
    node-Defined c (program loc functions) p h = cc
    node-Defined c (variable_assignment_statement loc name value o) p h =
        assign_known-Defined c loc name value o (Scope.find name c.variable_scope_stack)
    node-Defined c (variable_declaration_statement loc name value a _) p h =
        declare_new-Defined c loc name value a (Scope.find name c.variable_scope_stack) h
    node-Defined c (show_statement loc e _) p h =
        Defined-then _ _ (infer_top_level-Defined F c e) λ _. tt
    node-Defined c (return_statement loc e _) p h =
        Defined-then _ _ (infer_top_level-Defined F c e) λ _. tt
    node-Defined c (if_statement loc condition t e) p h =
        Defined-then _ _ (check_expr-Defined F c condition bool_type) λ condition'.
          let pt = or_first (has_program t) (maybe_has_program e) p in
          Defined-bind (λ s. Frame false c s.0) (visit_statement_node F c t) _
            (node-Defined c t pt h) (framed (has_program t) c _ pt (node-Framed F c t h.1))
            λ s f.
              Defined-then _ _
                (maybe-Defined s.0 e (or_second (has_program t) (maybe_has_program e) p)
                  (Frame-Open c s.0 h f))
                λ _. tt
    node-Defined c (block_statement loc ns) p h =
        let h' = push-Open c h in
        Defined-bind (λ s. Frame false (push_scope c) s.0) (visit_statements F (push_scope c) ns) _
          (statements-Defined (push_scope c) ns p h')
          (framed (any_has_program ns) (push_scope c) _ p
            (statements-Framed F (push_scope c) ns h'.1))
          λ s f.
            Defined-then (pop_scope s.0) _
              (pop_scope-Defined s.0 (Frame-Open (push_scope c) s.0 h' f).0) λ _. tt
    node-Defined c (loop_statement loc body) p h =
        Defined-then _ _ (node-Defined (enter_loop c) body p (enter-Open c h)) λ _. tt
    node-Defined c (break_statement loc) p h = Defined-if (c.loop_depth == 0) _ _ tt tt
    node-Defined c (cycle_statement loc) p h = Defined-if (c.loop_depth == 0) _ _ tt tt
    node-Defined c _ p h = tt

    maybe-Defined :
        (c : Checker) (n : MaybeNode F.Double)
        → maybe_has_program n ≡ false
        → Open c
        → Defined (visit_maybe F c n)
    maybe-Defined c null p h = tt
    maybe-Defined c (present n) p h = Defined-then _ _ (node-Defined c n p h) λ _. tt

    statements-Defined :
        (c : Checker) (ns : Nodes F.Double)
        → any_has_program ns ≡ false
        → Open c
        → Defined (visit_statements F c ns)
    statements-Defined c nil p h = tt
    statements-Defined c (cons n ns) p h =
        let pn = or_first (has_program n) (any_has_program ns) p in
        Defined-bind (λ s. Frame false c s.0) (visit_statement_node F c n) _ (node-Defined c n pn h)
          (framed (has_program n) c _ pn (node-Framed F c n h.1))
          λ s f.
            Defined-then _ _
              (statements-Defined s.0 ns (or_second (has_program n) (any_has_program ns) p)
                (Frame-Open c s.0 h f))
              λ _. tt

  -- A new type checker's visit of a program of one function, which contains no whole program, has
  -- defined behaviour.
  pub visit-one_function-Defined :
      (depth : ℕ) (loc : SourceLocation) (f : Ast)
      → depth < depth_mod
      → has_program f ≡ false
      → Defined (visit_statement_node F (initial_checker depth) (program loc (cons f nil)))
  unfolding visit_statement_node
  visit-one_function-Defined depth loc f small p =
      let c = initial_checker depth in
      let h : Open c = (omega arith, small) in
      Defined-then (visit_functions F c (cons f nil)) _
        (Defined-bind (λ s. Frame false c s.0) (visit_statement_node F c f) _ (node-Defined c f p h)
          (framed (has_program f) c _ p (node-Framed F c f small))
          λ s fr.
            Defined-then (pop_scope s.0) _ (pop_scope-Defined s.0 (Frame-Open c s.0 h fr).0)
              λ _. tt)
        λ _. tt
