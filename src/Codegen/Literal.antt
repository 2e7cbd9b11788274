-- ===== src/Codegen/Literal.antt =====
-- `CodegenVisitor::visit(IntLiteralExpression&)`: the width and the sign of the `APInt`. A thrown
-- `runtime_error` is `none`.
use b2_lang.Prelude.{ℕ, Bool, true, false, Option, none, some}
use b2_lang.Ast.{TypeId}

unfoldable pub num_bits : TypeId → Option ℕ
num_bits TypeId.int8 = some 8
num_bits TypeId.uint8 = some 8
num_bits TypeId.int16 = some 16
num_bits TypeId.uint16 = some 16
num_bits TypeId.int32 = some 32
num_bits TypeId.uint32 = some 32
num_bits TypeId.int64 = some 64
num_bits TypeId.uint64 = some 64
num_bits _ = none

unfoldable pub is_signed : TypeId → Option Bool
is_signed TypeId.int8 = some true
is_signed TypeId.int16 = some true
is_signed TypeId.int32 = some true
is_signed TypeId.int64 = some true
is_signed TypeId.uint8 = some false
is_signed TypeId.uint16 = some false
is_signed TypeId.uint32 = some false
is_signed TypeId.uint64 = some false
is_signed _ = none
