-- ===== src/Codegen/Visit/Jumps.antt =====
-- The stack of loops of src/codegen/code_generation_visitor.cxx: what a visit leaves of it, and when
-- `break` and `cycle` find a loop on it.
use b2_lang.Prelude.{
  and_first, and_second, true, false, ◌&&◌, ◌≡◌, ◌⊎◌, inl, inr, refl, ap, subst, some, [], ◌∷◌,
}
use b2_lang.Error.{Error, ok, err, assigned_unknown}
use b2_lang.Ast.{
  Node, Nodes, float_literal_expression, binary_expression, variable_expression,
  variable_assignment_statement, variable_declaration_statement, show_statement,
  function_declaration, function_call_expression, program, return_statement, int_literal_expression,
  if_statement, block_statement, loop_statement, break_statement, cycle_statement, null, present,
  nil, cons,
}
use b2_lang.Codegen.Llvm.{Llvm}
use b2_lang.Codegen.Loops.{LoopBlocks, push_loop}
use b2_lang.Codegen.Pointers.{deref, required, named}
use b2_lang.Codegen.Visit.{
  Codegen, found, visit_float_literal, declare_new, show_format, begin_function, new_block,
  start_block, branch, jump, begin_loop, begin_if, begin_if_else, end_side, visit, visit_nodes,
}
use b2_lang.Codegen.Visit.Quiet.{is_jump_error, has_loop, deref-Quiet, required-Quiet}
use b2_lang.Codegen.Visit.Leaves.{
  Stack, Leaves, Leaves-then, Leaves-bind, Leaves-weaken, int_literal-Leaves, variable-Leaves,
  call-Leaves, operation-Leaves, declare-Leaves, declaration-Leaves, assignment-Leaves, show-Leaves,
  return-Leaves, end_loop-Leaves, break-Leaves, cycle-Leaves, join-stack,
}
use b2_lang.Parser.Shape.{
  is_expression, is_statement, is_block, is_else, are_statements, is_function, are_functions,
  is_program,
}
use b2_lang.TypeCheck.Stmt.Loops.{jumps_in_loops, all_jumps_in_loops}

module _ {D : Type 0} (L : Llvm D) where
  expression-Leaves :
      (n : Node D) (S : Stack L) (B : Type 0) (g : Codegen L)
      → is_expression n ≡ true
      → g.loop_block_stack ≡ S
      → Leaves L S B (visit L n g)
  unfolding visit is_expression visit_float_literal
  expression-Leaves (float_literal_expression _ v _) S B g e h = h
  expression-Leaves (int_literal_expression _ v t) S B g e h = int_literal-Leaves L S B g h v t
  expression-Leaves (variable_expression _ name t) S B g e h = variable-Leaves L S B g h name t
  expression-Leaves (function_call_expression _ name) S B g e h = call-Leaves L S B g h name
  expression-Leaves (binary_expression _ op l r o t) S B g e h =
      Leaves-bind L S S B B (visit L l g) _ (λ b. b)
        (expression-Leaves l S B g (and_first (is_expression l) (is_expression r) e) h)
        λ g₁ h₁.
          Leaves-bind L S S B B (visit L r g₁) _ (λ b. b)
            (expression-Leaves r S B g₁ (and_second (is_expression l) (is_expression r) e) h₁)
            λ g₂ h₂. operation-Leaves L S B g₂ h₂ op o t g₁.result g₂.result
  expression-Leaves _ S B g e h = cc

  -- The jumps of the tree stand in loops, or a loop is on the stack.
  abbrev Jumps : Stack L → Node D → Type 0
  Jumps S n = jumps_in_loops (has_loop S) n ≡ true

  else_shape :
      (n : Node D) → is_else (present n) ≡ true → (is_statement n ≡ true) ⊎ (is_block n ≡ true)
  unfolding is_statement
  else_shape (if_statement l c t f) e = inl e
  else_shape (block_statement l ns) e = inr e
  else_shape _ e = cc

  mutual
    unfolding visit is_statement jumps_in_loops show_format begin_if begin_if_else end_side
        new_block start_block branch begin_loop jump push_loop

    statement-Leaves :
        (n : Node D) (S : Stack L) (g : Codegen L)
        → is_statement n ≡ true
        → g.loop_block_stack ≡ S
        → Leaves L S (Jumps S n) (visit L n g)
    statement-Leaves (variable_declaration_statement loc name value a t) S g e h =
        let B = Jumps S (variable_declaration_statement loc name value a t) in
        Leaves-bind L S S B B (declare_new L g name) _ (λ b. b) (declare-Leaves L S B g h name)
          λ g₁ h₁.
            Leaves-bind L S S B B (visit L value g₁) _ (λ b. b)
              (expression-Leaves value S B g₁ (and_first (is_expression value) _ e) h₁)
              λ g₂ h₂. declaration-Leaves L S B g₂ h₂ name t
    statement-Leaves (variable_assignment_statement loc name value o) S g e h =
        let B = Jumps S (variable_assignment_statement loc name value o) in
        Leaves-then L S B (required (assigned_unknown name) (named name g.named_values)) _
          (required-Quiet B (assigned_unknown name) (named name g.named_values) refl)
          λ variable.
            Leaves-bind L S S B B (visit L value (found L g name)) _ (λ b. b)
              (expression-Leaves value S B (found L g name) e h)
              λ g₁ h₁. assignment-Leaves L S B g₁ h₁ variable
    statement-Leaves (show_statement loc expr o) S g e h =
        let B = Jumps S (show_statement loc expr o) in
        Leaves-bind L S S B B (visit L expr (show_format L g).1) _ (λ b. b)
          (expression-Leaves expr S B (show_format L g).1 e h) λ g₁ h₁. show-Leaves L S B g₁ h₁ _ _
    statement-Leaves (return_statement loc expr o) S g e h =
        let B = Jumps S (return_statement loc expr o) in
        Leaves-bind L S S B B (visit L expr g) _ (λ b. b) (expression-Leaves expr S B g e h)
          λ g₁ h₁. return-Leaves L S B g₁ h₁
    statement-Leaves (if_statement l c t null) S g e h =
        let B = Jumps S (if_statement l c t null) in
        let ct = and_first (is_expression c && is_block t) true e in
        Leaves-bind L S S B B (visit L c g) _ (λ b. b)
          (expression-Leaves c S B g (and_first (is_expression c) (is_block t) ct) h)
          λ g₁ h₁. Leaves-then L S B (deref g₁.result) _ (deref-Quiet B g₁.result) λ cond.
            Leaves-bind L S S (Jumps S t) B (visit L t (begin_if L cond g₁).1) _
              (λ b. and_first (jumps_in_loops (has_loop S) t) true b)
              (block-Leaves t S _ (and_second (is_expression c) (is_block t) ct) h₁)
              λ g₂ h₂. join-stack L S B g₂ h₂ _
    statement-Leaves (if_statement l c t (present f)) S g e h =
        let B = Jumps S (if_statement l c t (present f)) in
        let ct = and_first (is_expression c && is_block t) (is_else (present f)) e in
        Leaves-bind L S S B B (visit L c g) _ (λ b. b)
          (expression-Leaves c S B g (and_first (is_expression c) (is_block t) ct) h)
          λ g₁ h₁. Leaves-then L S B (deref g₁.result) _ (deref-Quiet B g₁.result) λ cond.
            Leaves-bind L S S (Jumps S t) B (visit L t (begin_if_else L cond g₁).1) _
              (λ b. and_first (jumps_in_loops (has_loop S) t) (jumps_in_loops (has_loop S) f) b)
              (block-Leaves t S _ (and_second (is_expression c) (is_block t) ct) h₁)
              λ g₂ h₂.
                Leaves-bind L S S (Jumps S f) B (visit L f _) _
                  (λ b.
                    and_second (jumps_in_loops (has_loop S) t) (jumps_in_loops (has_loop S) f) b)
                  (let next = join-stack L S B g₂ h₂ _ in
                    elim (else_shape f
                      (and_second (is_expression c && is_block t) (is_else (present f)) e)) [
                        | inl shape ↦ statement-Leaves f S _ shape next
                        | inr shape ↦ block-Leaves f S _ shape next
                      ])
                  λ g₃ h₃. join-stack L S B g₃ h₃ _
    statement-Leaves (loop_statement l body) S g e h =
        let B = Jumps S (loop_statement l body) in
        let blocks : LoopBlocks L.Block = record {
          body = some (begin_loop L g).0.0;
          end = some (begin_loop L g).0.1;
        } in
        let inner = (begin_loop L g).1.loop_block_stack in
        Leaves-bind L inner S (Jumps inner body) B (visit L body (begin_loop L g).1) _ (λ b. b)
          (block-Leaves body inner _ e refl)
          λ g₁ h₁. end_loop-Leaves L inner B g₁ h₁ _ _ blocks S (ap (λ T. blocks ∷ T) h)
    statement-Leaves (break_statement l) S g e h = break-Leaves L S _ g h λ b. b
    statement-Leaves (cycle_statement l) S g e h = cycle-Leaves L S _ g h λ b. b
    statement-Leaves _ S g e h = cc

    block-Leaves :
        (n : Node D) (S : Stack L) (g : Codegen L)
        → is_block n ≡ true
        → g.loop_block_stack ≡ S
        → Leaves L S (Jumps S n) (visit L n g)
    block-Leaves (block_statement l ns) S g e h = statements-Leaves ns S g e h
    block-Leaves _ S g e h = cc

    statements-Leaves :
        (ns : Nodes D) (S : Stack L) (g : Codegen L)
        → are_statements ns ≡ true
        → g.loop_block_stack ≡ S
        → Leaves L S (all_jumps_in_loops (has_loop S) ns ≡ true) (visit_nodes L ns g)
    statements-Leaves nil S g e h = h
    statements-Leaves (cons n ns) S g e h =
        let B = all_jumps_in_loops (has_loop S) (cons n ns) ≡ true in
        Leaves-bind L S S (Jumps S n) B (visit L n g) _
          (λ b. and_first (jumps_in_loops (has_loop S) n) (all_jumps_in_loops (has_loop S) ns) b)
          (statement-Leaves n S g (and_first (is_statement n) (are_statements ns) e) h)
          λ g₁ h₁.
            Leaves-weaken L S (all_jumps_in_loops (has_loop S) ns ≡ true) B (visit_nodes L ns g₁)
              (λ b.
                and_second (jumps_in_loops (has_loop S) n) (all_jumps_in_loops (has_loop S) ns) b)
              (statements-Leaves ns S g₁ (and_second (is_statement n) (are_statements ns) e) h₁)

  functions-Leaves :
      (ns : Nodes D) (S : Stack L) (g : Codegen L)
      → are_functions ns ≡ true
      → g.loop_block_stack ≡ S
      → Leaves L S (all_jumps_in_loops (has_loop S) ns ≡ true) (visit_nodes L ns g)
  unfolding visit are_functions is_function jumps_in_loops begin_function
  functions-Leaves nil S g e h = h
  functions-Leaves (cons (function_declaration l name body) ns) S g e h =
      let B = all_jumps_in_loops (has_loop S) (cons (function_declaration l name body) ns) ≡ true in
      Leaves-bind L S S (Jumps S body) B (visit L body (begin_function L g name)) _
        (λ b. and_first (jumps_in_loops (has_loop S) body) (all_jumps_in_loops (has_loop S) ns) b)
        (block-Leaves body S _ (and_first (is_block body) (are_functions ns) e) h)
        λ g₁ h₁.
          Leaves-weaken L S (all_jumps_in_loops (has_loop S) ns ≡ true) B (visit_nodes L ns g₁)
            (λ b.
              and_second (jumps_in_loops (has_loop S) body) (all_jumps_in_loops (has_loop S) ns) b)
            (functions-Leaves ns S g₁ (and_second (is_block body) (are_functions ns) e) h₁)
  functions-Leaves (cons _ ns) S g e h = cc

  program-Leaves :
      (n : Node D) (g : Codegen L)
      → is_program n ≡ true
      → Leaves L g.loop_block_stack (Jumps g.loop_block_stack n) (visit L n g)
  unfolding visit is_program jumps_in_loops
  program-Leaves (program l fs) g e = functions-Leaves fs g.loop_block_stack g e refl
  program-Leaves _ g e = cc

  -- A visit of the code generator to a program that returns leaves the stack of loops as it was.
  pub visit-loop_block_stack :
      (n : Node D) (g g' : Codegen L)
      → is_program n ≡ true
      → visit L n g ≡ ok g'
      → g'.loop_block_stack ≡ g.loop_block_stack
  visit-loop_block_stack n g g' e h =
      subst (Leaves L g.loop_block_stack (Jumps g.loop_block_stack n)) h (program-Leaves n g e)

  -- If every `break` and every `cycle` of a program stands inside a loop, and the stack of loops is
  -- empty, then an exception of the code generator's visit is never that of a `break` or a `cycle`
  -- without a loop.
  pub visit-is_jump_error :
      (n : Node D) (g : Codegen L) (error : Error)
      → is_program n ≡ true
      → jumps_in_loops false n ≡ true
      → g.loop_block_stack ≡ []
      → visit L n g ≡ err error
      → is_jump_error error ≡ false
  visit-is_jump_error n g error e jumps s h =
      subst (Leaves L g.loop_block_stack (Jumps g.loop_block_stack n)) h (program-Leaves n g e)
        (rw s jumps)
