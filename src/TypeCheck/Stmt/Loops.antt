-- ===== src/TypeCheck/Stmt/Loops.antt =====
-- Where `break` and `cycle` stand in a tree that src/type_check_visitor.cxx accepts.
use b2_lang.Prelude.{
  ◌<◌, ◌≡◌, refl, subst, ◌∙◌, inl, inr, Bool, true, false, ◌&&◌, ◌==◌, arith, Bool-cases,
}
use b2_lang.Token.{SourceLocation}
use b2_lang.Error.{Result, ok, ◌>>=◌, Post, Post-bind, Post-any, Post-weaken, Post-and}
use b2_lang.Ast.{
  bool_type, Node, MaybeNode, Nodes, function_declaration, program, if_statement, block_statement,
  loop_statement, break_statement, cycle_statement, null, present, nil, cons,
}
use b2_lang.TypeCheck.Literal.{Doubles}
use b2_lang.TypeCheck.Expr.{Checker, check_expr}
use b2_lang.TypeCheck.Stmt.{
  depth_mod, visit_statement_break, visit_statement_cycle, push_scope, pop_scope, enter_loop,
  visit_statement_node, visit_maybe, visit_statements, visit_functions,
}
use b2_lang.TypeCheck.Stmt.Frame.{Frame, has_program, Framed, pop-depth, enter-lt}
use b2_lang.TypeCheck.Stmt.Balance.{node-Framed}

-- Every `break` and `cycle` of the tree stands in a loop of the tree, or the tree itself does.
unfoldable mutual
  pub jumps_in_loops : {D : Type 0} → Bool → Node D → Bool
  jumps_in_loops inside (break_statement loc) = inside
  jumps_in_loops inside (cycle_statement loc) = inside
  jumps_in_loops inside (loop_statement loc body) = jumps_in_loops true body
  jumps_in_loops inside (block_statement loc ns) = all_jumps_in_loops inside ns
  jumps_in_loops inside (if_statement loc c t e) =
      jumps_in_loops inside t && maybe_jumps_in_loops inside e
  jumps_in_loops inside (function_declaration loc name body) = jumps_in_loops inside body
  jumps_in_loops inside (program loc functions) = all_jumps_in_loops inside functions
  jumps_in_loops inside _ = true

  pub maybe_jumps_in_loops : {D : Type 0} → Bool → MaybeNode D → Bool
  maybe_jumps_in_loops inside null = true
  maybe_jumps_in_loops inside (present n) = jumps_in_loops inside n

  pub all_jumps_in_loops : {D : Type 0} → Bool → Nodes D → Bool
  all_jumps_in_loops inside nil = true
  all_jumps_in_loops inside (cons n ns) = jumps_in_loops inside n && all_jumps_in_loops inside ns

module _ (F : Doubles) where
  abbrev Ast : Type 0
  Ast = Node F.Double

  -- Outside a loop the depth is 0.
  abbrev Tracks : Bool → Checker → Type 0
  Tracks inside c = (inside ≡ false → c.loop_depth ≡ 0) × (c.loop_depth < depth_mod)

  abbrev Implies {ℓ} : {A : Type ℓ} → Bool → Result A → Type 0
  Implies b r = Post (λ _. b ≡ true) r

  jump-Implies :
      (inside : Bool) (c : Checker) → Tracks inside c → (c.loop_depth == 0) ≡ false → inside ≡ true
  jump-Implies true c t h = refl
  jump-Implies false c t h = ground arith

  break-Implies :
      (inside : Bool) (c : Checker) (loc : SourceLocation)
      → Tracks inside c
      → Implies inside (visit_statement_break F c loc)
  unfolding visit_statement_break
  break-Implies inside c loc t = elim (Bool-cases (c.loop_depth == 0)) [
    | inl e ↦ rw e tt
    | inr e ↦ rw e (jump-Implies inside c t e)
  ]

  cycle-Implies :
      (inside : Bool) (c : Checker) (loc : SourceLocation)
      → Tracks inside c
      → Implies inside (visit_statement_cycle F c loc)
  unfolding visit_statement_cycle
  cycle-Implies inside c loc t = elim (Bool-cases (c.loop_depth == 0)) [
    | inl e ↦ rw e tt
    | inr e ↦ rw e (jump-Implies inside c t e)
  ]

  Post-always :
      {A B : Type 0} (P : B → Type 0) (r : Result A) (f : A → Result B)
      → ((a : A) → Post P (f a))
      → Post P (r >>= f)
  Post-always P r f h = Post-bind (λ _. Unit {0}) P r f (Post-any r) λ a _. h a

  and_true : (a b : Bool) → a ≡ true → b ≡ true → (a && b) ≡ true
  and_true a b h k = rw (h, k)

  module _ (inside : Bool) where
    Tracks-Frame : (b : Bool) (c d : Checker) → Tracks inside c → Frame b c d → Tracks inside d
    Tracks-Frame b c d t f = (λ e. f.0 ∙ t.0 e, omega (arith, t.1, f.0))

    -- One visit after another: both jump in loops.
    Implies-bind :
        {A B : Type 0} (a b p : Bool) (c : Checker) (r : Result (Checker × A))
        (f : Checker × A → Result B)
        → Tracks inside c
        → Implies a r
        → Framed F p c r
        → ((s : Checker × A) → Tracks inside s.0 → Implies b (f s))
        → Implies (a && b) (r >>= f)
    Implies-bind a b p c r f t h fr k =
        Post-bind (λ s. (a ≡ true) × Frame p c s.0) (λ _. (a && b) ≡ true) r f
          (Post-and (λ _. a ≡ true) (λ s. Frame p c s.0) r h fr)
          λ s q.
            Post-weaken (λ _. b ≡ true) (λ _. (a && b) ≡ true) (f s) (λ _ e. and_true a b q.0 e)
              (k s (Tracks-Frame p c s.0 t q.1))

    Implies-map :
        {A B : Type 0} (b : Bool) (r : Result A) (f : A → B)
        → Implies b r
        → Implies b (r >>= λ a. ok (f a))
    Implies-map b r f h = Post-bind (λ _. b ≡ true) (λ _. b ≡ true) r _ h λ _ e. e

  push-Tracks : (inside : Bool) (c : Checker) → Tracks inside c → Tracks inside (push_scope c)
  unfolding push_scope
  push-Tracks inside c t = t

  Implies-end :
      {A B : Type 0} (b : Bool) (r : Result A) (f : A → Result B)
      → Implies b r
      → Implies b (r >>= f)
  Implies-end b (ok a) f h =
      Post-weaken (λ _. Unit {0}) (λ _. b ≡ true) (f a) (λ _ _. h) (Post-any (f a))
  Implies-end b (Result.err e) f h = tt
  Implies-end b Result.undefined f h = tt

  always : {A : Type 0} (r : Result A) → Implies true r
  always (ok a) = refl
  always (Result.err e) = tt
  always Result.undefined = tt

  mutual
    unfolding visit_statement_node jumps_in_loops

    node-Implies :
        (inside : Bool) (c : Checker) (n : Ast)
        → Tracks inside c
        → Implies (jumps_in_loops inside n) (visit_statement_node F c n)
    node-Implies inside c (function_declaration loc name body) t =
        Implies-end (jumps_in_loops inside body) (visit_statement_node F c body) _
          (node-Implies inside c body t)
    node-Implies inside c (program loc functions) t =
        Implies-end (all_jumps_in_loops inside functions) (visit_functions F c functions) _
          (functions-Implies inside c functions t)
    node-Implies inside c (if_statement loc condition th e) t =
        Post-always (λ _. (jumps_in_loops inside th && maybe_jumps_in_loops inside e) ≡ true)
          (check_expr F c condition bool_type) _
          λ condition'.
            Implies-bind inside (jumps_in_loops inside th) (maybe_jumps_in_loops inside e)
              (has_program th) c (visit_statement_node F c th) _ t (node-Implies inside c th t)
              (node-Framed F c th t.1)
              λ s u.
                Implies-end (maybe_jumps_in_loops inside e) (visit_maybe F s.0 e) _
                  (maybe-Implies inside s.0 e u)
    node-Implies inside c (block_statement loc ns) t =
        Implies-end (all_jumps_in_loops inside ns) (visit_statements F (push_scope c) ns) _
          (statements-Implies inside (push_scope c) ns (push-Tracks inside c t))
    node-Implies inside c (loop_statement loc body) t =
        Implies-end (jumps_in_loops true body) (visit_statement_node F (enter_loop c) body) _
          (node-Implies true (enter_loop c) body (λ e. cc, enter-lt F c))
    node-Implies inside c (break_statement loc) t = break-Implies inside c loc t
    node-Implies inside c (cycle_statement loc) t = cycle-Implies inside c loc t
    node-Implies inside c n t = always (visit_statement_node F c n)

    maybe-Implies :
        (inside : Bool) (c : Checker) (n : MaybeNode F.Double)
        → Tracks inside c
        → Implies (maybe_jumps_in_loops inside n) (visit_maybe F c n)
    maybe-Implies inside c null t = refl
    maybe-Implies inside c (present n) t =
        Implies-end (jumps_in_loops inside n) (visit_statement_node F c n) _
          (node-Implies inside c n t)

    statements-Implies :
        (inside : Bool) (c : Checker) (ns : Nodes F.Double)
        → Tracks inside c
        → Implies (all_jumps_in_loops inside ns) (visit_statements F c ns)
    statements-Implies inside c nil t = refl
    statements-Implies inside c (cons n ns) t =
        Implies-bind inside (jumps_in_loops inside n) (all_jumps_in_loops inside ns) (has_program n)
          c (visit_statement_node F c n) _ t (node-Implies inside c n t) (node-Framed F c n t.1)
          λ s u.
            Implies-end (all_jumps_in_loops inside ns) (visit_statements F s.0 ns) _
              (statements-Implies inside s.0 ns u)

    functions-Implies :
        (inside : Bool) (c : Checker) (ns : Nodes F.Double)
        → Tracks inside c
        → Implies (all_jumps_in_loops inside ns) (visit_functions F c ns)
    functions-Implies inside c nil t = refl
    functions-Implies inside c (cons n ns) t =
        Implies-bind inside (jumps_in_loops inside n) (all_jumps_in_loops inside ns) (has_program n)
          c (visit_statement_node F c n) _ t (node-Implies inside c n t) (node-Framed F c n t.1)
          λ s u.
            Post-bind (λ d. d.loop_depth ≡ s.0.loop_depth)
              (λ _. all_jumps_in_loops inside ns ≡ true) (pop_scope s.0) _ (pop-depth F s.0)
              λ d e.
                Implies-end (all_jumps_in_loops inside ns) (visit_functions F d ns) _
                  (functions-Implies inside d ns (Tracks-Frame inside true s.0 d u (e, λ x. cc)))

  -- A tree that the type checker accepts from loop depth 0 has every `break` and every `cycle`
  -- inside a loop of that tree.
  pub visit_statement_node-jumps_in_loops :
      (c c' : Checker) (n n' : Ast)
      → c.loop_depth ≡ 0
      → visit_statement_node F c n ≡ ok (c', n')
      → jumps_in_loops false n ≡ true
  visit_statement_node-jumps_in_loops c c' n n' z h =
      subst (Implies (jumps_in_loops false n)) h (node-Implies false c n (λ _. z, omega arith))
