-- ===== src/TypeCheck.antt =====
-- src/type_check_visitor.cxx and include/type_check_visitor.h: the type checker.
pub mod Literal
pub mod Scope
pub mod Expr
pub mod Stmt
