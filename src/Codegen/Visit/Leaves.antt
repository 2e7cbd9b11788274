-- ===== src/Codegen/Visit/Leaves.antt =====
-- The stack of loops of src/codegen/code_generation_visitor.cxx: what the steps of a visit leave
-- of it.
use b2_lang.Prelude.{ℤ, Bool, true, false, ◌≡◌, refl, ◌∙◌, Option, List, ◌∷◌, if◌then◌else◌, Bytes}
use b2_lang.Token.{TokenType}
use b2_lang.Error.{
  Result, ok, err, undefined, ◌>>=◌, break_without_loop, cycle_without_loop, no_declaration_type,
  unknown_variable, unknown_function, binary_failed, no_variable_type, not_an_integer,
}
use b2_lang.Ast.{Ty}
use b2_lang.Codegen.Llvm.{Llvm}
use b2_lang.Codegen.Literal.{num_bits, is_signed}
use b2_lang.Codegen.Loops.{LoopBlocks, pop_loop, back_loop}
use b2_lang.Codegen.Operations.{TypeOperations, apply}
use b2_lang.Codegen.Pointers.{deref, llvm_type_of, get_llvm_type, required, named, operations}
use b2_lang.Codegen.Visit.{
  Codegen, is_null, visit_int_literal, visit_variable, visit_call, visit_operation, declare_new,
  visit_declaration, visit_assignment, visit_show, visit_return, join_block, jump, end_loop,
  visit_break, visit_cycle,
}
use b2_lang.Codegen.Visit.Quiet.{
  is_jump_error, Quiet, has_loop, required-Quiet, deref-Quiet, llvm_type-Quiet, operations-Quiet,
  open-Quiet,
}

module _ {D : Type 0} (L : Llvm D) where
  abbrev pub Stack : Type 0
  Stack = List (LoopBlocks L.Block)

  -- What a visit of a tree that jumps as `B` says leaves: the stack, or an error that is none of a
  -- jump.
  abbrev pub Leaves : Stack → Type 0 → Result (Codegen L) → Type 0
  Leaves S B (ok g) = g.loop_block_stack ≡ S
  Leaves S B (err e) = B → is_jump_error e ≡ false
  Leaves S B undefined = Unit

  pub Leaves-then {ℓ} :
      {A : Type ℓ} (S : Stack) (B : Type 0) (r : Result A) (f : A → Result (Codegen L))
      → Quiet B r
      → ((a : A) → Leaves S B (f a))
      → Leaves S B (r >>= f)
  Leaves-then S B (ok a) f h k = k a
  Leaves-then S B (err e) f h k = h
  Leaves-then S B undefined f h k = tt

  pub Leaves-bind :
      (S T : Stack) (B C : Type 0) (r : Result (Codegen L)) (f : Codegen L → Result (Codegen L))
      → (C → B)
      → Leaves S B r
      → ((g : Codegen L) → g.loop_block_stack ≡ S → Leaves T C (f g))
      → Leaves T C (r >>= f)
  Leaves-bind S T B C (ok g) f i h k = k g h
  Leaves-bind S T B C (err e) f i h k = λ c. h (i c)
  Leaves-bind S T B C undefined f i h k = tt

  pub Leaves-weaken :
      (S : Stack) (B C : Type 0) (r : Result (Codegen L)) → (C → B) → Leaves S B r → Leaves S C r
  Leaves-weaken S B C (ok g) i h = h
  Leaves-weaken S B C (err e) i h = λ c. h (i c)
  Leaves-weaken S B C undefined i h = tt

  Leaves-if :
      (S : Stack) (B : Type 0) (b : Bool) (x y : Result (Codegen L))
      → Leaves S B x
      → Leaves S B y
      → Leaves S B (if b then x else y)
  Leaves-if S B true x y h k = h
  Leaves-if S B false x y h k = k

  module _ (S : Stack) (B : Type 0) (g : Codegen L) (h : g.loop_block_stack ≡ S) where
    pub int_literal-Leaves : (v : ℤ) (t : Option Ty) → Leaves S B (visit_int_literal L g v t)
    unfolding visit_int_literal
    int_literal-Leaves v t = Leaves-then S B (deref t) _ (deref-Quiet B t) λ t'.
        Leaves-then S B (required not_an_integer (num_bits t'.type_id)) _
          (required-Quiet B not_an_integer (num_bits t'.type_id) refl)
          λ bits.
            Leaves-then S B (required not_an_integer (is_signed t'.type_id)) _
              (required-Quiet B not_an_integer (is_signed t'.type_id) refl) λ signed. h

    pub variable-Leaves : (name : Bytes) (t : Option Ty) → Leaves S B (visit_variable L g name t)
    unfolding visit_variable get_llvm_type
    variable-Leaves name t =
        Leaves-then S B (required (unknown_variable name) (named name g.named_values)) _
          (required-Quiet B (unknown_variable name) (named name g.named_values) refl)
          λ alloca.
            Leaves-then S B (required no_variable_type t) _
              (required-Quiet B no_variable_type t refl)
              λ t'.
                Leaves-then S B (llvm_type_of t'.type_id t'.identifier) _
                  (llvm_type-Quiet B t'.type_id t'.identifier) λ _. h

    pub call-Leaves : (name : Bytes) → Leaves S B (visit_call L g name)
    unfolding visit_call
    call-Leaves name =
        Leaves-then S B (required (unknown_function name) (L.get_function name g.context)) _
          (required-Quiet B (unknown_function name) (L.get_function name g.context) refl) λ _. h

    apply-Quiet :
        (b : TypeOperations) (op : TokenType) (lhs rhs : L.Value)
        → Quiet B (apply L b op lhs rhs g.context)
    unfolding apply
    apply-Quiet b TokenType.plus lhs rhs = tt
    apply-Quiet b TokenType.minus lhs rhs = tt
    apply-Quiet b TokenType.asterisk lhs rhs = tt
    apply-Quiet b TokenType.forward_slash lhs rhs = tt
    apply-Quiet b TokenType.greater_than lhs rhs = tt
    apply-Quiet b TokenType.less_than lhs rhs = tt
    apply-Quiet b TokenType.greater_than_equals lhs rhs = tt
    apply-Quiet b TokenType.less_than_equals lhs rhs = tt
    apply-Quiet b TokenType.equals lhs rhs = tt
    apply-Quiet b _ lhs rhs = λ _. refl

    pub operation-Leaves :
        (op : TokenType) (o t : Option Ty) (l r : Option L.Value)
        → Leaves S B (visit_operation L g op o t l r)
    unfolding visit_operation
    operation-Leaves op o t l r =
        Leaves-then S B (required binary_failed l) _ (required-Quiet B binary_failed l refl) λ lhs.
          Leaves-then S B (required binary_failed r) _ (required-Quiet B binary_failed r refl)
            λ rhs. Leaves-then S B (operations o t) _ (operations-Quiet B o t) λ b.
              Leaves-then S B (apply L b op lhs rhs g.context) _ (apply-Quiet b op lhs rhs) λ _. h

    pub declare-Leaves : (name : Bytes) → Leaves S B (declare_new L g name)
    unfolding declare_new
    declare-Leaves name = Leaves-if S B (is_null L (named name g.named_values)) _ _ h (λ _. refl)

    pub declaration-Leaves :
        (name : Bytes) (t : Option Ty) → Leaves S B (visit_declaration L g name t)
    unfolding visit_declaration get_llvm_type
    declaration-Leaves name t =
        Leaves-then S B (required no_declaration_type t) _
          (required-Quiet B no_declaration_type t refl)
          λ t'.
            Leaves-then S B (llvm_type_of t'.type_id t'.identifier) _
              (llvm_type-Quiet B t'.type_id t'.identifier)
              λ _. Leaves-then S B (deref g.result) _ (deref-Quiet B g.result) λ _. h

    pub assignment-Leaves : (variable : L.Value) → Leaves S B (visit_assignment L g variable)
    unfolding visit_assignment
    assignment-Leaves variable = Leaves-then S B (deref g.result) _ (deref-Quiet B g.result) λ _. h

    pub show-Leaves : (fmt : L.Value) (fn : Option L.Function) → Leaves S B (visit_show L g fmt fn)
    unfolding visit_show
    show-Leaves fmt fn =
        Leaves-then S B (deref fn) _ (deref-Quiet B fn)
          λ _. Leaves-then S B (deref g.result) _ (deref-Quiet B g.result) λ _. h

    pub return-Leaves : Leaves S B (visit_return L g)
    unfolding visit_return
    return-Leaves = Leaves-then S B (deref g.result) _ (deref-Quiet B g.result) λ _. h

    pub end_loop-Leaves :
        (body end : L.Block) (blocks : LoopBlocks L.Block) (T : Stack)
        → S ≡ blocks ∷ T
        → Leaves T B (end_loop L body end g)
    unfolding end_loop pop_loop
    end_loop-Leaves body end blocks T e = rw (h ∙ e) refl

    -- A jump under the condition that a loop is open.
    module _ (inside : B → has_loop S ≡ true) where
      pub break-Leaves : Leaves S B (visit_break L g)
      unfolding visit_break jump
      break-Leaves =
          Leaves-then S B (required break_without_loop (back_loop g.loop_block_stack)) _
            (open-Quiet B break_without_loop g.loop_block_stack (rw h inside))
            λ blocks. Leaves-then S B (deref blocks.end) _ (deref-Quiet B blocks.end) λ _. h

      pub cycle-Leaves : Leaves S B (visit_cycle L g)
      unfolding visit_cycle jump
      cycle-Leaves =
          Leaves-then S B (required cycle_without_loop (back_loop g.loop_block_stack)) _
            (open-Quiet B cycle_without_loop g.loop_block_stack (rw h inside))
            λ blocks. Leaves-then S B (deref blocks.body) _ (deref-Quiet B blocks.body) λ _. h

    pub join-stack : (end : L.Block) → (join_block L end g).loop_block_stack ≡ S
    unfolding join_block
    join-stack end = joined (L.has_terminator g.context)
      where
        joined :
            (b : Bool)
            → (if b then g else record g { context = L.create_br end g.context }).loop_block_stack
              ≡ S
        joined true = h
        joined false = h
