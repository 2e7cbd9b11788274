-- ===== src/Codegen/Llvm.antt =====
-- What the code generator calls of LLVM, as parameters: the module and the builder are the state
-- `Context`, which each call returns anew. A pointer that a call returns is not null, but for
-- `getFunction`.
use b2_lang.Prelude.{ℕ, ℤ, Bool, Option, List, Bytes}

-- The methods of `IRBuilder` with two operands and a name.
pub data Create : Type 0 where
  add sub mul sdiv udiv : Create
  icmp_sgt icmp_ugt icmp_slt icmp_ult icmp_sge icmp_uge icmp_sle icmp_ule icmp_eq : Create
  fadd fsub fmul fdiv : Create
  fcmp_ogt fcmp_olt fcmp_oge fcmp_ole fcmp_oeq : Create

-- The types that `get_llvm_type` names.
pub data LlvmType : Type 0 where
  int1 int8 int16 int32 int64 float double : LlvmType

-- `D` is `double`.
pub record Llvm (D : Type 0) : Type 1 where
  pub Context : Type 0
  pub Value : Type 0
  pub Function : Type 0
  pub Block : Type 0
  -- `IRBuilder`.
  pub create : Create → Value → Value → Bytes → Context → Value × Context
  pub create_alloca : LlvmType → Bytes → Context → Value × Context
  pub create_store : Value → Value → Context → Context
  pub create_load : LlvmType → Value → Bytes → Context → Value × Context
  pub create_call : Function → List Value → Context → Value × Context
  pub create_ret : Value → Context → Value × Context
  pub create_br : Block → Context → Context
  pub create_cond_br : Value → Block → Block → Context → Context
  pub create_global_string_ptr : Bytes → Bytes → Context → Value × Context
  pub set_insert_point : Block → Context → Context
  -- `GetInsertBlock()->getTerminator()` is not null.
  pub has_terminator : Context → Bool
  -- `ConstantFP::get` of an `APFloat`, `ConstantInt::get` of an `APInt` of bits, value and sign.
  pub constant_fp : D → Value
  pub constant_int : ℕ → ℕ → Bool → Value
  -- `int128_t::convert_to<uint64_t>`.
  pub to_uint64 : ℤ → ℕ
  -- `Module::getFunction`, `Function::Create` of `int32_t()`, and `BasicBlock::Create`.
  pub get_function : Bytes → Context → Option Function
  pub create_function : Bytes → Context → Function × Context
  pub create_block : Bytes → Option Function → Context → Block × Context
