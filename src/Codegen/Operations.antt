-- ===== src/Codegen/Operations.antt =====
-- src/codegen/operation_map.cxx: the call of the builder for an operator on operands of a type.
pub mod Compare
use b2_lang.Prelude.{Bool, true, false, if◌then◌else◌, Bytes, codes}
use b2_lang.Token.{TokenType}
use b2_lang.Error.{
  Result, ok, err, codegen_error, literal_type, sentinel_type, no_operations, unsupported_operation,
}
use b2_lang.Ast.{TypeId, Ty}
use b2_lang.Codegen.Llvm.{Llvm, Create}

-- The subclass of `TypeOperations` and its `is_signed`; the builder is in the context.
pub data TypeOperations : Type 0 where
  int_operations : Bool → TypeOperations
  float_operations : TypeOperations

unfoldable pub operations_of : TypeId → Bytes → Result TypeOperations
operations_of TypeId.int8 name = ok (int_operations true)
operations_of TypeId.int16 name = ok (int_operations true)
operations_of TypeId.int32 name = ok (int_operations true)
operations_of TypeId.int64 name = ok (int_operations true)
operations_of TypeId.uint8 name = ok (int_operations false)
operations_of TypeId.uint16 name = ok (int_operations false)
operations_of TypeId.uint32 name = ok (int_operations false)
operations_of TypeId.uint64 name = ok (int_operations false)
operations_of TypeId.float32 name = ok float_operations
operations_of TypeId.float64 name = ok float_operations
operations_of TypeId.int_literal name = err (codegen_error literal_type)
operations_of TypeId.float_literal name = err (codegen_error literal_type)
operations_of TypeId.sentinel name = err (codegen_error sentinel_type)
operations_of TypeId.bool name = err (codegen_error (no_operations name))
operations_of TypeId.string name = err (codegen_error (no_operations name))
operations_of TypeId.user_defined name = err (codegen_error (no_operations name))

unfoldable pub build_type_operations : Ty → Result TypeOperations
unfolding operations_of
build_type_operations t = operations_of t.type_id t.identifier

module _ {D : Type 0} (L : Llvm D) where
  -- A call of the builder on the two operands.
  abbrev pub Call : Type 0
  Call = L.Value → L.Value → L.Context → L.Value × L.Context

  unfoldable pub int_add : Bool → Call
  int_add is_signed lhs rhs = L.create Create.add lhs rhs (codes "addtmp")

  unfoldable pub float_add : Call
  float_add lhs rhs = L.create Create.fadd lhs rhs (codes "faddtmp")

  unfoldable pub add : TypeOperations → Call
  unfolding int_add float_add
  add (int_operations is_signed) = int_add is_signed
  add float_operations = float_add

  unfoldable pub int_subtract : Bool → Call
  int_subtract is_signed lhs rhs = L.create Create.sub lhs rhs (codes "subtmp")

  unfoldable pub float_subtract : Call
  float_subtract lhs rhs = L.create Create.fsub lhs rhs (codes "fsubtmp")

  unfoldable pub subtract : TypeOperations → Call
  unfolding int_subtract float_subtract
  subtract (int_operations is_signed) = int_subtract is_signed
  subtract float_operations = float_subtract

  unfoldable pub int_multiply : Bool → Call
  int_multiply is_signed lhs rhs = L.create Create.mul lhs rhs (codes "multmp")

  unfoldable pub float_multiply : Call
  float_multiply lhs rhs = L.create Create.fmul lhs rhs (codes "fmultmp")

  unfoldable pub multiply : TypeOperations → Call
  unfolding int_multiply float_multiply
  multiply (int_operations is_signed) = int_multiply is_signed
  multiply float_operations = float_multiply

  unfoldable pub int_divide : Bool → Call
  int_divide is_signed lhs rhs =
      if is_signed
      then L.create Create.sdiv lhs rhs (codes "divtmp")
      else L.create Create.udiv lhs rhs (codes "divtmp")

  unfoldable pub float_divide : Call
  float_divide lhs rhs = L.create Create.fdiv lhs rhs (codes "fdivtmp")

  unfoldable pub divide : TypeOperations → Call
  unfolding int_divide float_divide
  divide (int_operations is_signed) = int_divide is_signed
  divide float_operations = float_divide

  unfoldable pub int_gt : Bool → Call
  int_gt is_signed lhs rhs =
      if is_signed
      then L.create Create.icmp_sgt lhs rhs (codes "gttmp")
      else L.create Create.icmp_ugt lhs rhs (codes "gttmp")

  unfoldable pub float_gt : Call
  float_gt lhs rhs = L.create Create.fcmp_ogt lhs rhs (codes "fgttmp")

  unfoldable pub gt : TypeOperations → Call
  unfolding int_gt float_gt
  gt (int_operations is_signed) = int_gt is_signed
  gt float_operations = float_gt

  unfoldable pub int_lt : Bool → Call
  int_lt is_signed lhs rhs =
      if is_signed
      then L.create Create.icmp_slt lhs rhs (codes "lttmp")
      else L.create Create.icmp_ult lhs rhs (codes "lttmp")

  unfoldable pub float_lt : Call
  float_lt lhs rhs = L.create Create.fcmp_olt lhs rhs (codes "flttmp")

  unfoldable pub lt : TypeOperations → Call
  unfolding int_lt float_lt
  lt (int_operations is_signed) = int_lt is_signed
  lt float_operations = float_lt

  unfoldable pub int_gte : Bool → Call
  int_gte is_signed lhs rhs =
      if is_signed
      then L.create Create.icmp_sge lhs rhs (codes "gtetmp")
      else L.create Create.icmp_uge lhs rhs (codes "gtetmp")

  unfoldable pub float_gte : Call
  float_gte lhs rhs = L.create Create.fcmp_oge lhs rhs (codes "fgetmp")

  unfoldable pub gte : TypeOperations → Call
  unfolding int_gte float_gte
  gte (int_operations is_signed) = int_gte is_signed
  gte float_operations = float_gte

  unfoldable pub int_lte : Bool → Call
  int_lte is_signed lhs rhs =
      if is_signed
      then L.create Create.icmp_sle lhs rhs (codes "gtetmp")
      else L.create Create.icmp_ule lhs rhs (codes "gtetmp")

  unfoldable pub float_lte : Call
  float_lte lhs rhs = L.create Create.fcmp_ole lhs rhs (codes "fletmp")

  unfoldable pub lte : TypeOperations → Call
  unfolding int_lte float_lte
  lte (int_operations is_signed) = int_lte is_signed
  lte float_operations = float_lte

  unfoldable pub int_eq : Bool → Call
  int_eq is_signed lhs rhs = L.create Create.icmp_eq lhs rhs (codes "eqtmp")

  unfoldable pub float_eq : Call
  float_eq lhs rhs = L.create Create.fcmp_oeq lhs rhs (codes "fletmp")

  unfoldable pub eq : TypeOperations → Call
  unfolding int_eq float_eq
  eq (int_operations is_signed) = int_eq is_signed
  eq float_operations = float_eq

  -- `TypeOperations::apply`.
  unfoldable pub apply :
      TypeOperations → TokenType → L.Value → L.Value → L.Context → Result (L.Value × L.Context)
  unfolding add subtract multiply divide gt lt gte lte eq
  apply o TokenType.plus lhs rhs s = ok (add o lhs rhs s)
  apply o TokenType.minus lhs rhs s = ok (subtract o lhs rhs s)
  apply o TokenType.asterisk lhs rhs s = ok (multiply o lhs rhs s)
  apply o TokenType.forward_slash lhs rhs s = ok (divide o lhs rhs s)
  apply o TokenType.greater_than lhs rhs s = ok (gt o lhs rhs s)
  apply o TokenType.less_than lhs rhs s = ok (lt o lhs rhs s)
  apply o TokenType.greater_than_equals lhs rhs s = ok (gte o lhs rhs s)
  apply o TokenType.less_than_equals lhs rhs s = ok (lte o lhs rhs s)
  apply o TokenType.equals lhs rhs s = ok (eq o lhs rhs s)
  apply o other lhs rhs s = err (codegen_error (unsupported_operation other))
