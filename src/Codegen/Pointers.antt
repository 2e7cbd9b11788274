-- ===== src/Codegen/Pointers.antt =====
-- Pointers, optionals and maps as src/codegen/code_generation_visitor.cxx reads them, and
-- `get_llvm_type`. A null pointer is `none`.
use b2_lang.Prelude.{Option, none, some, List, [], ◌∷◌, if◌then◌else◌, Bytes, bytes_eq, get_or}
use b2_lang.Error.{
  Result, ok, err, undefined, ◌>>=◌, codegen_error, CodegenProblem, literal_type, sentinel_type,
  no_llvm_type, no_binary_type, no_operand_type,
}
use b2_lang.Ast.{TypeId, id_eq, Ty, find_name}
use b2_lang.Codegen.Llvm.{LlvmType}
use b2_lang.Codegen.Operations.{TypeOperations, build_type_operations}

abbrev pub raise {ℓ} : {A : Type ℓ} → CodegenProblem → Result A
raise problem = err (codegen_error problem)

-- A pointer that is followed.
unfoldable pub deref {ℓ} : {A : Type ℓ} → Option A → Result A
deref none = undefined
deref (some a) = ok a

unfoldable pub llvm_type_of : TypeId → Bytes → Result LlvmType
llvm_type_of TypeId.bool name = ok LlvmType.int1
llvm_type_of TypeId.int8 name = ok LlvmType.int8
llvm_type_of TypeId.int16 name = ok LlvmType.int16
llvm_type_of TypeId.int32 name = ok LlvmType.int32
llvm_type_of TypeId.int64 name = ok LlvmType.int64
llvm_type_of TypeId.uint8 name = ok LlvmType.int8
llvm_type_of TypeId.uint16 name = ok LlvmType.int16
llvm_type_of TypeId.uint32 name = ok LlvmType.int32
llvm_type_of TypeId.uint64 name = ok LlvmType.int64
llvm_type_of TypeId.float32 name = ok LlvmType.float
llvm_type_of TypeId.float64 name = ok LlvmType.double
llvm_type_of TypeId.string name = raise (no_llvm_type name)
llvm_type_of TypeId.user_defined name = raise (no_llvm_type name)
llvm_type_of TypeId.sentinel name = raise sentinel_type
llvm_type_of TypeId.int_literal name = raise literal_type
llvm_type_of TypeId.float_literal name = raise literal_type

unfoldable pub get_llvm_type : Ty → Result LlvmType
unfolding llvm_type_of
get_llvm_type t = llvm_type_of t.type_id t.identifier

-- An optional that the code tests before it reads it.
unfoldable pub required {ℓ} : {A : Type ℓ} → CodegenProblem → Option A → Result A
required problem none = raise problem
required problem (some a) = ok a

-- The type whose operations an operator has.
unfoldable pub operations : Option Ty → Option Ty → Result TypeOperations
operations operand_type resolved_type = do
  t ← required no_binary_type resolved_type
  if id_eq t.type_id TypeId.bool
      then (do o ← required no_operand_type operand_type; build_type_operations o)
      else build_type_operations t

module _ {V : Type 0} where
  -- `named_values[name] = value`.
  unfoldable pub assign : Bytes → Option V → List (Bytes × Option V) → List (Bytes × Option V)
  assign name value [] = (name, value) ∷ []
  assign name value ((k, v) ∷ m) =
      if bytes_eq k name then (k, value) ∷ m else (k, v) ∷ assign name value m

  -- What `named_values[name]` reads, and the map behind it: a missing name is added, as null.
  unfoldable pub named : Bytes → List (Bytes × Option V) → Option V
  named name m = get_or (find_name name m) none

  unfoldable pub touch : Bytes → List (Bytes × Option V) → List (Bytes × Option V)
  touch name m = elim (find_name name m) [ none ↦ (name, none) ∷ m | some v ↦ m ]
