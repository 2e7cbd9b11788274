-- ===== src/Codegen/Visit/Quiet.antt =====
-- The exceptions of src/codegen/code_generation_visitor.cxx: which steps throw that no loop is open.
use b2_lang.Prelude.{
  Bool, true, false, ◌≡◌, refl, Option, none, some, List, [], ◌∷◌, if◌then◌else◌, Bytes,
}
use b2_lang.Error.{
  Error, Result, ok, err, undefined, ◌>>=◌, codegen_error, CodegenProblem, break_without_loop,
  cycle_without_loop, no_binary_type, no_operand_type,
}
use b2_lang.Ast.{TypeId, id_eq, Ty}
use b2_lang.Codegen.Loops.{LoopBlocks, back_loop}
use b2_lang.Codegen.Operations.{build_type_operations, operations_of}
use b2_lang.Codegen.Pointers.{deref, llvm_type_of, required, operations}

-- The errors of a `break` or a `cycle` without a loop.
abbrev pub is_jump_error : Error → Bool
is_jump_error (codegen_error break_without_loop) = true
is_jump_error (codegen_error cycle_without_loop) = true
is_jump_error _ = false

-- Under the condition, the error is none of those.
abbrev pub Quiet {ℓ} : {A : Type ℓ} → Type 0 → Result A → Type 0
Quiet B (ok a) = Unit
Quiet B (err e) = B → is_jump_error e ≡ false
Quiet B undefined = Unit

abbrev pub has_loop : {Block : Type 0} → List (LoopBlocks Block) → Bool
has_loop [] = false
has_loop (blocks ∷ stack) = true

module _ (B : Type 0) where
  pub required-Quiet {ℓ} :
      {A : Type ℓ} (problem : CodegenProblem) (o : Option A)
      → is_jump_error (codegen_error problem) ≡ false
      → Quiet B (required problem o)
  unfolding required
  required-Quiet problem none h = λ _. h
  required-Quiet problem (some a) h = tt

  pub deref-Quiet {ℓ} : {A : Type ℓ} (o : Option A) → Quiet B (deref o)
  unfolding deref
  deref-Quiet none = tt
  deref-Quiet (some a) = tt

  pub llvm_type-Quiet : (t : TypeId) (name : Bytes) → Quiet B (llvm_type_of t name)
  unfolding llvm_type_of
  llvm_type-Quiet TypeId.string name = λ _. refl
  llvm_type-Quiet TypeId.user_defined name = λ _. refl
  llvm_type-Quiet TypeId.sentinel name = λ _. refl
  llvm_type-Quiet TypeId.int_literal name = λ _. refl
  llvm_type-Quiet TypeId.float_literal name = λ _. refl
  llvm_type-Quiet _ name = tt

  operations_of-Quiet : (t : TypeId) (name : Bytes) → Quiet B (operations_of t name)
  unfolding operations_of
  operations_of-Quiet TypeId.string name = λ _. refl
  operations_of-Quiet TypeId.user_defined name = λ _. refl
  operations_of-Quiet TypeId.sentinel name = λ _. refl
  operations_of-Quiet TypeId.int_literal name = λ _. refl
  operations_of-Quiet TypeId.float_literal name = λ _. refl
  operations_of-Quiet TypeId.bool name = λ _. refl
  operations_of-Quiet _ name = tt

  Quiet-then {ℓ κ} :
      {A : Type ℓ} {C : Type κ} (r : Result A) (f : A → Result C)
      → Quiet B r
      → ((a : A) → Quiet B (f a))
      → Quiet B (r >>= f)
  Quiet-then (ok a) f h k = k a
  Quiet-then (err e) f h k = h
  Quiet-then undefined f h k = tt

  Quiet-if {ℓ} :
      {A : Type ℓ} (b : Bool) (x y : Result A)
      → Quiet B x
      → Quiet B y
      → Quiet B (if b then x else y)
  Quiet-if true x y h k = h
  Quiet-if false x y h k = k

  pub open-Quiet :
      {Block : Type 0} (problem : CodegenProblem) (S : List (LoopBlocks Block))
      → (B → has_loop S ≡ true)
      → Quiet B (required problem (back_loop S))
  unfolding required back_loop
  open-Quiet problem [] h = λ b. cc (h b)
  open-Quiet problem (blocks ∷ S) h = tt

  pub operations-Quiet : (o t : Option Ty) → Quiet B (operations o t)
  unfolding operations build_type_operations
  operations-Quiet o t =
      Quiet-then (required no_binary_type t) _ (required-Quiet no_binary_type t refl) λ t'.
        Quiet-if (id_eq t'.type_id TypeId.bool) _ _
          (Quiet-then (required no_operand_type o) _ (required-Quiet no_operand_type o refl)
            λ o'. operations_of-Quiet o'.type_id o'.identifier)
          (operations_of-Quiet t'.type_id t'.identifier)
