-- ===== src/TypeCheck/Stmt/Frame.antt =====
-- What the statements without substatements leave of the type checker's state, and the loop depth.
use b2_lang.Prelude.{
  ℕ, ◌+◌, ◌-◌, ◌%◌, ◌<◌, ◌≡◌, refl, ◌∙◌, inl, inr, Bool, true, false, ◌||◌, Option, [], ◌∷◌, arith,
  ◌==◌, Bytes, length, Option-cases,
}
use b2_lang.Token.{SourceLocation}
use b2_lang.Error.{Result, ok, ◌>>=◌, Post, Post-bind, Post-any, Post-if, Post-weaken}
use b2_lang.Ast.{
  Ty, Node, MaybeNode, Nodes, function_declaration, program, if_statement, block_statement,
  loop_statement, null, present, nil, cons,
}
use b2_lang.TypeCheck.Literal.{Doubles}
use b2_lang.TypeCheck.Scope
use b2_lang.TypeCheck.Scope.{ScopeStack, store, push, pop}
use b2_lang.TypeCheck.Expr.{Checker, check_expr, infer_expr_top_level}
use b2_lang.TypeCheck.Stmt.{
  declared, depth_mod, visit_statement_var_decl, visit_statement_var_assign, visit_statement_break,
  visit_statement_cycle, push_scope, pop_scope, enter_loop, leave_loop, add_function,
}

-- Is there a whole program inside the statement? The parser never puts one there.
unfoldable mutual
  pub has_program : {D : Type 0} → Node D → Bool
  has_program (program loc functions) = true
  has_program (function_declaration loc name body) = has_program body
  has_program (if_statement loc c t e) = has_program t || maybe_has_program e
  has_program (block_statement loc ns) = any_has_program ns
  has_program (loop_statement loc body) = has_program body
  has_program _ = false

  pub maybe_has_program : {D : Type 0} → MaybeNode D → Bool
  maybe_has_program null = false
  maybe_has_program (present n) = has_program n

  pub any_has_program : {D : Type 0} → Nodes D → Bool
  any_has_program nil = false
  any_has_program (cons n ns) = has_program n || any_has_program ns

-- All scopes but the innermost.
abbrev pub outer : ScopeStack → ScopeStack
outer [] = []
outer (scope ∷ scopes) = scopes

-- The state after a visit: the loop depth is as before, and unless a whole program was visited so
-- are the number of scopes and all but the innermost.
abbrev pub Frame : Bool → Checker → Checker → Type 0
Frame b c d =
    (d.loop_depth ≡ c.loop_depth)
    × (b ≡ false
        → (length d.variable_scope_stack ≡ length c.variable_scope_stack)
          × (outer d.variable_scope_stack ≡ outer c.variable_scope_stack))

pub Frame-refl : (c : Checker) → Frame false c c
Frame-refl c = (refl, λ _. (refl, refl))

Frame-trans : (a b : Bool) (c d e : Checker) → Frame a c d → Frame b d e → Frame (a || b) c e
Frame-trans a b c d e h k = (
  k.0 ∙ h.0,
  λ n.
      (let p : a ≡ false = ground arith in
        let q : b ≡ false = ground arith in ((k.1 q).0 ∙ (h.1 p).0, (k.1 q).1 ∙ (h.1 p).1)),
)

module _ (F : Doubles) where
  abbrev Ast : Type 0
  Ast = Node F.Double

  abbrev pub Framed {ℓ} : {A : Type ℓ} → Bool → Checker → Result (Checker × A) → Type 0
  Framed b c r = Post (λ s. Frame b c s.0) r

  store_at-Framed :
      (c : Checker) (name : Bytes) (t : Ty) (n : Ast) (scopes : ScopeStack)
      → c.variable_scope_stack ≡ scopes
      → Framed false c
          (do scopes' ← store name t scopes; ok (record c { variable_scope_stack = scopes' }, n))
  unfolding store
  store_at-Framed c name t n [] h = tt
  store_at-Framed c name t n (scope ∷ scopes) h = (refl, λ _. (rw h, rw h))

  store-Framed :
      (c : Checker) (name : Bytes) (t : Ty) (n : Ast)
      → Framed false c (do
        scopes ← store name t c.variable_scope_stack
        ok (record c { variable_scope_stack = scopes }, n))
  store-Framed c name t n = store_at-Framed c name t n c.variable_scope_stack refl

  pub var_decl-Framed :
      (c : Checker) (loc : SourceLocation) (name : Bytes) (value : Ast)
      (annotation : MaybeNode F.Double)
      → Framed false c (visit_statement_var_decl F c loc name value annotation)
  unfolding visit_statement_var_decl
  var_decl-Framed c loc name value annotation =
      elim (Option-cases (Scope.find name c.variable_scope_stack)) [
        | inr (t, h) ↦ rw h tt
        | inl h ↦ rw h (
            Post-bind (λ _. Unit {0}) (λ s. Frame false c s.0) (declared F c annotation value) _
              (Post-any _) λ (t, v, a) _. store-Framed c name t _)
      ]

  pub var_assign-Framed :
      (c : Checker) (loc : SourceLocation) (name : Bytes) (value : Ast) (o : Option Ty)
      → Framed false c (visit_statement_var_assign F c loc name value o)
  unfolding visit_statement_var_assign
  var_assign-Framed c loc name value o =
      elim (Option-cases (Scope.find name c.variable_scope_stack)) [
        | inl h ↦ rw h tt
        | inr (t, h) ↦ rw h (
            Post-bind (λ _. Unit {0}) (λ s. Frame false c s.0) (check_expr F c value t) _
              (Post-any _) λ v _. Frame-refl c)
      ]

  pub top_level-Framed :
      (c : Checker) (expr : Ast) (build : Ty → Ast → Ast)
      → Framed false c (infer_expr_top_level F c expr >>= λ (t, expr'). ok (c, build t expr'))
  top_level-Framed c expr build =
      Post-bind (λ _. Unit {0}) (λ s. Frame false c s.0) (infer_expr_top_level F c expr) _
        (Post-any _) λ _ _. Frame-refl c

  pub break-Framed :
      (c : Checker) (loc : SourceLocation) → Framed false c (visit_statement_break F c loc)
  unfolding visit_statement_break
  break-Framed c loc = Post-if (λ s. Frame false c s.0) (c.loop_depth == 0) _ _ tt (Frame-refl c)

  pub cycle-Framed :
      (c : Checker) (loc : SourceLocation) → Framed false c (visit_statement_cycle F c loc)
  unfolding visit_statement_cycle
  cycle-Framed c loc = Post-if (λ s. Frame false c s.0) (c.loop_depth == 0) _ _ tt (Frame-refl c)

  depth-loop :
      (d e : ℕ) → d < depth_mod → e ≡ (d + 1) % depth_mod → (e + depth_mod - 1) % depth_mod ≡ d
  depth-loop d e h k = omega arith

  pub depth_small :
      (c d : Checker)
      → c.loop_depth < depth_mod
      → d.loop_depth ≡ c.loop_depth
      → d.loop_depth < depth_mod
  depth_small c d h e = omega arith

  -- Out of a scope that was entered: the stack is as it was.
  pub pop-Framed :
      {A : Type 0} (b : Bool) (c d : Checker) (a : A) (scopes : ScopeStack)
      → d.variable_scope_stack ≡ scopes
      → Frame b (push_scope c) d
      → Framed b c (pop_scope d >>= λ e. ok (e, a))
  unfolding pop_scope push_scope push pop
  pop-Framed b c d a [] p h = rw p tt
  pop-Framed b c d a (s ∷ scopes) p h = rw p (
    h.0,
    λ n.
        let same = (h.1 n).1 in
        let e : scopes ≡ c.variable_scope_stack = rw p at same in (rw e, rw e),
  )

  pub function-Frame :
      (b : Bool) (c d : Checker) (name : Bytes) → Frame b c d → Frame b c (add_function name d)
  unfolding add_function
  function-Frame b c d name h = h

  pub loop-Frame :
      (b : Bool) (c d : Checker)
      → c.loop_depth < depth_mod
      → Frame b (enter_loop c) d
      → Frame b c (leave_loop d)
  unfolding enter_loop leave_loop
  loop-Frame b c d h f = (depth-loop c.loop_depth d.loop_depth h f.0, f.1)

  pub enter-lt : (c : Checker) → (enter_loop c).loop_depth < depth_mod
  unfolding enter_loop
  enter-lt c = omega arith

  pub push-lt : (c : Checker) → c.loop_depth < depth_mod → (push_scope c).loop_depth < depth_mod
  unfolding push_scope
  push-lt c h = h

  pub or_true : (b : Bool) → (b || true) ≡ true
  or_true true = refl
  or_true false = refl

  pop_at-depth :
      (c : Checker) (scopes : ScopeStack)
      → c.variable_scope_stack ≡ scopes
      → Post (λ d. d.loop_depth ≡ c.loop_depth) (pop_scope c)
  unfolding pop_scope pop
  pop_at-depth c [] h = rw h tt
  pop_at-depth c (s ∷ scopes) h = rw h refl

  pub pop-depth : (c : Checker) → Post (λ d. d.loop_depth ≡ c.loop_depth) (pop_scope c)
  pop-depth c = pop_at-depth c c.variable_scope_stack refl

  -- One visit after another.
  pub Framed-bind :
      {A B : Type 0} (a b : Bool) (c : Checker) (r : Result (Checker × A))
      (f : Checker × A → Result (Checker × B))
      → c.loop_depth < depth_mod
      → Framed a c r
      → ((s : Checker × A) → s.0.loop_depth < depth_mod → Framed b s.0 (f s))
      → Framed (a || b) c (r >>= f)
  Framed-bind a b c r f h p k =
      Post-bind (λ s. Frame a c s.0) (λ s. Frame (a || b) c s.0) r f p
        λ s fr.
          Post-weaken (λ t. Frame b s.0 t.0) (λ t. Frame (a || b) c t.0) (f s)
            (λ t. Frame-trans a b c s.0 t.0 fr) (k s (depth_small c s.0 h fr.0))

  -- The end of a visit: the new node is built.
  pub Framed-map :
      {A B : Type 0} (b : Bool) (c : Checker) (r : Result (Checker × A)) (build : A → B)
      → Framed b c r
      → Framed b c (r >>= λ (d, a). ok (d, build a))
  Framed-map b c r build p = Post-bind (λ s. Frame b c s.0) (λ s. Frame b c s.0) r _ p λ s fr. fr
