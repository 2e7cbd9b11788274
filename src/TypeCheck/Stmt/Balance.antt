-- ===== src/TypeCheck/Stmt/Balance.antt =====
-- What a visit of a statement leaves of the type checker's state: the loop depth, and all scopes but
-- the innermost.
use b2_lang.Prelude.{
  ℕ, suc, ◌<◌, ◌≡◌, ◌≢◌, refl, subst, ◌∙◌, Bool, true, false, ◌||◌, some, [], ◌∷◌, arith, length,
}
use b2_lang.Token.{SourceLocation}
use b2_lang.Error.{ok, ◌>>=◌, Post, Post-bind, Post-any, Post-weaken}
use b2_lang.Ast.{
  bool_type, Node, MaybeNode, Nodes, variable_assignment_statement, variable_declaration_statement,
  show_statement, function_declaration, program, return_statement, if_statement, block_statement,
  loop_statement, break_statement, cycle_statement, null, present, nil, cons,
}
use b2_lang.TypeCheck.Literal.{Doubles}
use b2_lang.TypeCheck.Scope.{ScopeStack, push, pop}
use b2_lang.TypeCheck.Expr.{Checker, check_expr}
use b2_lang.TypeCheck.Stmt.{
  depth_mod, visit_statement_show, visit_statement_return, push_scope, pop_scope, enter_loop,
  visit_statement_node, visit_maybe, visit_statements, visit_functions, initial_checker,
}
use b2_lang.TypeCheck.Stmt.Frame.{
  has_program, maybe_has_program, any_has_program, Frame, Frame-refl, Framed, var_decl-Framed,
  var_assign-Framed, top_level-Framed, break-Framed, cycle-Framed, depth_small, pop-Framed,
  function-Frame, loop-Frame, enter-lt, push-lt, or_true, pop-depth, Framed-bind, Framed-map,
}

module _ (F : Doubles) where
  abbrev Ast : Type 0
  Ast = Node F.Double

  mutual
    unfolding visit_statement_node has_program visit_statement_show visit_statement_return

    pub node-Framed :
        (c : Checker) (n : Ast)
        → c.loop_depth < depth_mod
        → Framed F (has_program n) c (visit_statement_node F c n)
    node-Framed c (function_declaration loc name body) h =
        Post-bind (λ s. Frame (has_program body) c s.0) (λ s. Frame (has_program body) c s.0) _ _
          (node-Framed c body h) λ s f. function-Frame F (has_program body) c s.0 name f
    node-Framed c (program loc functions) h =
        Framed-map F true c (visit_functions F c functions) (program loc)
          (functions-Framed c functions h)
    node-Framed c (variable_assignment_statement loc name value o) h =
        var_assign-Framed F c loc name value o
    node-Framed c (variable_declaration_statement loc name value annotation _) h =
        var_decl-Framed F c loc name value annotation
    node-Framed c (show_statement loc expr _) h =
        top_level-Framed F c expr (λ t e. show_statement loc e (some t))
    node-Framed c (return_statement loc expr _) h =
        top_level-Framed F c expr (λ t e. return_statement loc e (some t))
    node-Framed c (if_statement loc condition t e) h =
        Post-bind (λ _. Unit {0}) (λ s. Frame (has_program t || maybe_has_program e) c s.0)
          (check_expr F c condition bool_type) _ (Post-any _)
          λ condition' _.
            Framed-bind F (has_program t) (maybe_has_program e) c (visit_statement_node F c t) _ h
              (node-Framed c t h)
              λ s small.
                Framed-map F (maybe_has_program e) s.0 (visit_maybe F s.0 e)
                  (if_statement loc condition' s.1) (maybe-Framed s.0 e small)
    node-Framed c (block_statement loc ns) h =
        Post-bind (λ s. Frame (any_has_program ns) (push_scope c) s.0)
          (λ s. Frame (any_has_program ns) c s.0) _ _
          (statements-Framed (push_scope c) ns (push-lt F c h))
          λ s f.
            pop-Framed F (any_has_program ns) c s.0 (block_statement loc s.1)
              s.0.variable_scope_stack refl f
    node-Framed c (loop_statement loc body) h =
        Post-bind (λ s. Frame (has_program body) (enter_loop c) s.0)
          (λ s. Frame (has_program body) c s.0) _ _ (node-Framed (enter_loop c) body (enter-lt F c))
          λ s f. loop-Frame F (has_program body) c s.0 h f
    node-Framed c (break_statement loc) h = break-Framed F c loc
    node-Framed c (cycle_statement loc) h = cycle-Framed F c loc
    node-Framed c _ h = tt

    maybe-Framed :
        (c : Checker) (n : MaybeNode F.Double)
        → c.loop_depth < depth_mod
        → Framed F (maybe_has_program n) c (visit_maybe F c n)
    maybe-Framed c null h = Frame-refl c
    maybe-Framed c (present n) h =
        Framed-map F (has_program n) c (visit_statement_node F c n) present (node-Framed c n h)

    pub statements-Framed :
        (c : Checker) (ns : Nodes F.Double)
        → c.loop_depth < depth_mod
        → Framed F (any_has_program ns) c (visit_statements F c ns)
    statements-Framed c nil h = Frame-refl c
    statements-Framed c (cons n ns) h =
        Framed-bind F (has_program n) (any_has_program ns) c (visit_statement_node F c n) _ h
          (node-Framed c n h)
          λ s small.
            Framed-map F (any_has_program ns) s.0 (visit_statements F s.0 ns) (cons s.1)
              (statements-Framed s.0 ns small)

    functions-Framed :
        (c : Checker) (ns : Nodes F.Double)
        → c.loop_depth < depth_mod
        → Framed F true c (visit_functions F c ns)
    functions-Framed c nil h = (refl, λ e. cc)
    functions-Framed c (cons n ns) h =
        subst (λ b. Framed F b c (visit_functions F c (cons n ns))) (or_true F (has_program n))
          (Framed-bind F (has_program n) true c (visit_statement_node F c n) _ h (node-Framed c n h)
            λ s small.
              Post-bind (λ d. d.loop_depth ≡ s.0.loop_depth) (λ t. Frame true s.0 t.0)
                (pop_scope s.0) _ (pop-depth F s.0)
                λ d e.
                  Post-weaken (λ t. Frame true d t.0) (λ t. Frame true s.0 t.0) _
                    (λ t f. (f.0 ∙ e, λ b. cc))
                    (Framed-map F true d (visit_functions F d ns) (cons s.1)
                      (functions-Framed d ns (depth_small F s.0 d small e))))

  -- After any visit of a statement that returns, from a loop depth below 2^32, the loop depth is
  -- what it was before, and unless the statement contains a whole program the scope stack has as
  -- many scopes as before and all but the innermost are unchanged.
  pub visit_statement_node-Frame :
      (c c' : Checker) (n n' : Ast)
      → c.loop_depth < depth_mod
      → visit_statement_node F c n ≡ ok (c', n')
      → Frame (has_program n) c c'
  visit_statement_node-Frame c c' n n' small h =
      subst (λ r. Framed F (has_program n) c r) h (node-Framed c n small)

  abbrev Restores : {A : Type 0} → Checker → Checker × A → Type 0
  Restores c s = s.0.variable_scope_stack ≡ c.variable_scope_stack

  pop-Restores :
      {A : Type 0} (b : Bool) (c d : Checker) (a : A) (scopes : ScopeStack)
      → d.variable_scope_stack ≡ scopes
      → b ≡ false
      → Frame b (push_scope c) d
      → Post (Restores c) (pop_scope d >>= λ e. ok (e, a))
  unfolding pop_scope push_scope push pop
  pop-Restores b c d a [] p n h = rw p tt
  pop-Restores b c d a (s ∷ scopes) p n h = rw p (rw p at (h.1 n).1)

  block-Restores :
      (c : Checker) (loc : SourceLocation) (ns : Nodes F.Double)
      → any_has_program ns ≡ false
      → c.loop_depth < depth_mod
      → Post (Restores c) (visit_statement_node F c (block_statement loc ns))
  unfolding visit_statement_node
  block-Restores c loc ns n h =
      Post-bind (λ s. Frame (any_has_program ns) (push_scope c) s.0) (Restores c) _ _
        (statements-Framed (push_scope c) ns (push-lt F c h))
        λ s f.
          pop-Restores (any_has_program ns) c s.0 (block_statement loc s.1) s.0.variable_scope_stack
            refl n f

  -- A block that contains no whole program and whose visit returns, from a loop depth below 2^32,
  -- leaves the scope stack exactly as it was: what it declares is not visible behind it.
  pub visit-block_statement :
      (c c' : Checker) (loc : SourceLocation) (ns : Nodes F.Double) (n' : Ast)
      → any_has_program ns ≡ false
      → c.loop_depth < depth_mod
      → visit_statement_node F c (block_statement loc ns) ≡ ok (c', n')
      → c'.variable_scope_stack ≡ c.variable_scope_stack
  visit-block_statement c c' loc ns n' n small h =
      subst (Post (Restores c)) h (block-Restores c loc ns n small)

  -- The number of scopes after a function and the `pop` behind it.
  pop-height :
      (c d : Checker) (scopes : ScopeStack) (k : ℕ)
      → d.variable_scope_stack ≡ scopes
      → length d.variable_scope_stack ≡ suc k
      → Post
          (λ e. (e.loop_depth ≡ d.loop_depth) × (length e.variable_scope_stack ≡ k))
          (pop_scope d)
  unfolding pop_scope pop
  pop-height c d [] k p h = rw p tt
  pop-height c d (s ∷ scopes) k p h = rw p (refl, omega (arith, rw p at h))

  pop-empty :
      (d : Checker) (scopes : ScopeStack)
      → d.variable_scope_stack ≡ scopes
      → length d.variable_scope_stack ≡ 0
      → Post (λ _. ⊥) (pop_scope d)
  unfolding pop_scope pop
  pop-empty d [] p h = rw p tt
  pop-empty d (s ∷ scopes) p h = absurd (omega (arith, rw p at h))

  second_function :
      (c : Checker) (g : Ast) (rest : Nodes F.Double)
      → has_program g ≡ false
      → c.loop_depth < depth_mod
      → length c.variable_scope_stack ≡ 0
      → Post (λ _. ⊥) (visit_functions F c (cons g rest))
  unfolding visit_functions
  second_function c g rest n h e =
      Post-bind (λ s. Frame (has_program g) c s.0) (λ _. ⊥) _ _ (node-Framed c g h)
        λ s f.
          Post-bind (λ _. ⊥) (λ _. ⊥) (pop_scope s.0) _
            (pop-empty s.0 s.0.variable_scope_stack refl ((f.1 n).0 ∙ e)) λ _ x. absurd x

  -- From a new type checker with any loop depth below 2^32, the visit of a program of two or more
  -- functions, the first two of which contain no whole program, never returns normally.
  pub visit_program_two_functions :
      (depth : ℕ) (loc : SourceLocation) (f g : Ast) (rest : Nodes F.Double)
      → depth < depth_mod
      → has_program f ≡ false
      → has_program g ≡ false
      → (c' : Checker) (n' : Ast)
      → visit_statement_node F (initial_checker depth) (program loc (cons f (cons g rest)))
        ≢ ok (c', n')
  unfolding visit_statement_node
  visit_program_two_functions depth loc f g rest small nf ng c' n' h = subst (Post (λ _. ⊥)) h (
      Post-bind (λ _. ⊥) (λ _. ⊥) (visit_functions F c (cons f (cons g rest))) _
        (Post-bind (λ s. Frame (has_program f) c s.0) (λ _. ⊥) _ _ (node-Framed c f small)
          λ s fr.
            Post-bind (λ e. (e.loop_depth ≡ s.0.loop_depth) × (length e.variable_scope_stack ≡ 0))
              (λ _. ⊥) (pop_scope s.0) _
              (pop-height c s.0 s.0.variable_scope_stack 0 refl (fr.1 nf).0)
              λ e k.
                Post-bind (λ _. ⊥) (λ _. ⊥) (visit_functions F e (cons g rest)) _
                  (second_function e g rest ng (omega arith) k.1) λ _ x. absurd x)
        λ _ x. absurd x)
    where
      c : Checker
      c = initial_checker depth
