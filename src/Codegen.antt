-- ===== src/Codegen.antt =====
-- src/codegen: the operations of a type, and the code generator over the calls of LLVM.
pub mod Literal
pub mod Llvm
pub mod Loops
pub mod Operations
pub mod Pointers
pub mod Visit
