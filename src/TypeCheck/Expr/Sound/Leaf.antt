-- ===== src/TypeCheck/Expr/Sound/Leaf.antt =====
-- The types that `check_expr` and `infer_expr` (src/type_check_visitor.cxx) leave in the leaves of an
-- expression.
use b2_lang.Prelude.{
  ℤ, ◌≡◌, refl, inl, inr, Option, none, some, arith, Bytes, Bool-cases, Option-cases,
}
use b2_lang.Token.{SourceLocation}
use b2_lang.Ast.{id_eq, id_eq→eq, Ty, find_name, Node}
use b2_lang.TypeCheck.Literal.{Doubles}
use b2_lang.TypeCheck.Scope
use b2_lang.TypeCheck.Expr.{
  call_returning, variable_of, Checker, check_expr_int_literal, check_expr_func_call,
  check_expr_var_expr, check_expr_float_literal, infer_expr_type_expr, infer_expr_func_call,
  infer_expr_var_expr,
}
use b2_lang.TypeCheck.Expr.Sound.Typed.{Checked, Inferred}

module _ (F : Doubles) (c : Checker) where
  abbrev Ast : Type 0
  Ast = Node F.Double

  pub check_int-Checked :
      (loc : SourceLocation) (v : ℤ) (t : Ty)
      → Checked F c t.type_id (check_expr_int_literal F c loc v t)
  unfolding check_expr_int_literal
  check_int-Checked loc v t = ground arith

  pub check_float-Checked :
      (loc : SourceLocation) (v : F.Double) (t : Ty)
      → Checked F c t.type_id (check_expr_float_literal F c loc v t)
  unfolding check_expr_float_literal
  check_float-Checked loc v t = ground arith

  call_returning-Checked :
      (loc : SourceLocation) (name : Bytes) (t : Ty) (found : Option Ty)
      → find_name name c.function_map ≡ found
      → Checked F c t.type_id (call_returning F c loc name t found)
  unfolding call_returning
  call_returning-Checked loc name t none h = tt
  call_returning-Checked loc name t (some s) h = elim (Bool-cases (id_eq s.type_id t.type_id)) [
    | inl e ↦ rw e ((s, h), inl (s, h, id_eq→eq s.type_id t.type_id e))
    | inr n ↦ rw n tt
  ]

  pub check_call-Checked :
      (loc : SourceLocation) (name : Bytes) (t : Ty)
      → Checked F c t.type_id (check_expr_func_call F c loc name t)
  unfolding check_expr_func_call
  check_call-Checked loc name t =
      call_returning-Checked loc name t (find_name name c.function_map) refl

  variable_of-Checked :
      (loc : SourceLocation) (name : Bytes) (t : Ty) (found : Option Ty)
      → Scope.find name c.variable_scope_stack ≡ found
      → Checked F c t.type_id (variable_of F c loc name t found)
  unfolding variable_of
  variable_of-Checked loc name t none h = tt
  variable_of-Checked loc name t (some s) h = elim (Bool-cases (id_eq s.type_id t.type_id)) [
    | inl e ↦ rw e ((s, h, id_eq→eq s.type_id t.type_id e), inl refl)
    | inr n ↦ rw n tt
  ]

  pub check_var-Checked :
      (loc : SourceLocation) (name : Bytes) (t : Ty)
      → Checked F c t.type_id (check_expr_var_expr F c loc name t)
  unfolding check_expr_var_expr
  check_var-Checked loc name t =
      variable_of-Checked loc name t (Scope.find name c.variable_scope_stack) refl

  pub infer_type-Inferred :
      (loc : SourceLocation) (name : Bytes) → Inferred F c (infer_expr_type_expr F c loc name)
  unfolding infer_expr_type_expr
  infer_type-Inferred loc name = ground arith

  pub infer_call-Inferred :
      (loc : SourceLocation) (name : Bytes) → Inferred F c (infer_expr_func_call F c loc name)
  unfolding infer_expr_func_call
  infer_call-Inferred loc name = elim (Option-cases (find_name name c.function_map)) [
    | inl h ↦ rw h tt
    | inr (t, h) ↦ rw h (λ _. ((t, h), (t, h, refl)))
  ]

  pub infer_var-Inferred :
      (loc : SourceLocation) (name : Bytes) → Inferred F c (infer_expr_var_expr F c loc name)
  unfolding infer_expr_var_expr
  infer_var-Inferred loc name = elim (Option-cases (Scope.find name c.variable_scope_stack)) [
    | inl h ↦ rw h tt
    | inr (t, h) ↦ rw h (λ _. ((t, h, refl), refl))
  ]
