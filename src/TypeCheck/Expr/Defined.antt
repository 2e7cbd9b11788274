-- ===== src/TypeCheck/Expr/Defined.antt =====
-- `check_expr` and `infer_expr` end in an exception or return: their behaviour is defined.
use b2_lang.Prelude.{ℤ, Bool, true, false, ◌&&◌, ◌||◌, Option, none, some, Bytes}
use b2_lang.Token.{TokenType, SourceLocation, is_bool_operator}
use b2_lang.Error.{Result, Defined, Defined-then, Defined-if}
use b2_lang.Ast.{
  TypeId, id_eq, Ty, find_name, Node, float_literal_expression, binary_expression,
  variable_expression, function_call_expression, type_expression, int_literal_expression, location,
}
use b2_lang.TypeCheck.Literal.{
  Doubles, is_literal, is_integer, int_is_in_range, is_float, float_is_in_range, default_of,
  get_literal_default, find_promotion, is_builtin_type,
}
use b2_lang.TypeCheck.Scope
use b2_lang.TypeCheck.Expr.{
  Checker, Operands, Checks, check_expr_int_literal, call_returning, check_expr_func_call,
  variable_of, check_expr_var_expr, check_expr_float_literal, infer_expr_type_expr, infer_call,
  infer_expr_func_call, infer_variable, infer_expr_var_expr, push_down, promoted,
  resolve_literal_pair, resolve_operands, resolve_operator, same_operands, infer_expr_bin_expr,
  check_expr, infer_expr, top_level, infer_expr_top_level,
}

Defined-elim {ℓ} :
    {A : Type ℓ} (b : Bool) (x y : Result A)
    → Defined x
    → Defined y
    → Defined (elim b [ true ↦ x | false ↦ y ])
Defined-elim true x y h k = h
Defined-elim false x y h k = k

default_of-Defined :
    (id : TypeId) (name : Bytes) (loc : SourceLocation) → Defined (default_of id name loc)
unfolding default_of
default_of-Defined TypeId.int_literal name loc = tt
default_of-Defined TypeId.float_literal name loc = tt
default_of-Defined _ name loc = tt

default-Defined : (t : Ty) (loc : SourceLocation) → Defined (get_literal_default t loc)
unfolding get_literal_default
default-Defined t loc = default_of-Defined t.type_id t.identifier loc

module _ (F : Doubles) (c : Checker) where
  abbrev Ast : Type 0
  Ast = Node F.Double

  int_literal-Defined :
      (loc : SourceLocation) (v : ℤ) (t : Ty) → Defined (check_expr_int_literal F c loc v t)
  unfolding check_expr_int_literal
  int_literal-Defined loc v t =
      Defined-if (is_integer t.type_id || is_float t.type_id) _ _
        (Defined-if (int_is_in_range v t.type_id) _ _ tt tt) tt

  float_literal-Defined :
      (loc : SourceLocation) (v : F.Double) (t : Ty)
      → Defined (check_expr_float_literal F c loc v t)
  unfolding check_expr_float_literal
  float_literal-Defined loc v t =
      Defined-if (is_float t.type_id) _ _ (Defined-if (float_is_in_range F v t.type_id) _ _ tt tt)
        tt

  call_returning-Defined :
      (loc : SourceLocation) (name : Bytes) (t : Ty) (o : Option Ty)
      → Defined (call_returning F c loc name t o)
  unfolding call_returning
  call_returning-Defined loc name t none = tt
  call_returning-Defined loc name t (some s) = Defined-if (id_eq s.type_id t.type_id) _ _ tt tt

  variable_of-Defined :
      (loc : SourceLocation) (name : Bytes) (t : Ty) (o : Option Ty)
      → Defined (variable_of F c loc name t o)
  unfolding variable_of
  variable_of-Defined loc name t none = tt
  variable_of-Defined loc name t (some s) = Defined-if (id_eq s.type_id t.type_id) _ _ tt tt

  infer_call-Defined :
      (loc : SourceLocation) (name : Bytes) (o : Option Ty) → Defined (infer_call F c loc name o)
  unfolding infer_call
  infer_call-Defined loc name none = tt
  infer_call-Defined loc name (some s) = tt

  infer_variable-Defined :
      (loc : SourceLocation) (name : Bytes) (o : Option Ty)
      → Defined (infer_variable F c loc name o)
  unfolding infer_variable
  infer_variable-Defined loc name none = tt
  infer_variable-Defined loc name (some s) = tt

  module _ (loc : SourceLocation) (op : TokenType) (l r : Checks F c)
      (dl : (t : Ty) → Defined (l t)) (dr : (t : Ty) → Defined (r t)) where
    promoted-Defined :
        (o : Operands F c) (found : Option Ty) → Defined (promoted F c loc op l r o found)
    unfolding promoted push_down
    promoted-Defined o none = tt
    promoted-Defined o (some t) = Defined-if (is_literal t.type_id) _ _ tt (
        Defined-if (is_literal o.left.type_id) _ _ (Defined-then (l t) _ (dl t) λ _. tt)
          (Defined-then (r t) _ (dr t) λ _. tt))

    resolve_operands-Defined : (o : Operands F c) → Defined (resolve_operands F c loc op l r o)
    unfolding resolve_operands resolve_literal_pair
    resolve_operands-Defined o =
        Defined-if (is_literal o.left.type_id || is_literal o.right.type_id) _ _
          (promoted-Defined o (find_promotion o.left o.right)) tt

    resolve_operator-Defined : (o : Operands F c) → Defined (resolve_operator F c loc op l r o)
    unfolding resolve_operator
    resolve_operator-Defined o =
        Defined-if (is_bool_operator op) _ _
          (Defined-if (is_literal o.left.type_id && is_literal o.right.type_id) _ _
            (Defined-then (get_literal_default o.left loc) _ (default-Defined o.left loc)
              λ t. Defined-then (l t) _ (dl t) λ _. Defined-then (r t) _ (dr t) λ _. tt)
            tt)
          tt

    bin_expr-Defined :
        (x y : Result (Ty × Ast))
        → Defined x
        → Defined y
        → Defined (infer_expr_bin_expr F c loc op l r x y)
    unfolding infer_expr_bin_expr same_operands
    bin_expr-Defined x y dx dy = Defined-then x _ dx λ s. Defined-then y _ dy λ t.
        Defined-then _ _ (resolve_operands-Defined _)
          λ o. Defined-if (id_eq o.left.type_id o.right.type_id) _ _ (resolve_operator-Defined o) tt

  mutual
    unfolding check_expr check_expr_func_call check_expr_var_expr infer_expr_func_call
        infer_expr_var_expr infer_expr_type_expr

    pub check_expr-Defined : (n : Ast) (t : Ty) → Defined (check_expr F c n t)
    check_expr-Defined (int_literal_expression loc v _) t = int_literal-Defined loc v t
    check_expr-Defined (function_call_expression loc name) t =
        call_returning-Defined loc name t (find_name name c.function_map)
    check_expr-Defined (variable_expression loc name _) t =
        variable_of-Defined loc name t (Scope.find name c.variable_scope_stack)
    check_expr-Defined (binary_expression loc op l r _ _) t =
        Defined-elim (is_bool_operator op) _ _
          (Defined-then _ _
            (bin_expr-Defined loc op (check_expr F c l) (check_expr F c r) (check_expr-Defined l)
              (check_expr-Defined r) (infer_expr F c l) (infer_expr F c r) (infer_expr-Defined l)
              (infer_expr-Defined r))
            λ _. tt)
          (Defined-then _ _ (check_expr-Defined l t)
            λ _. Defined-then _ _ (check_expr-Defined r t) λ _. tt)
    check_expr-Defined (float_literal_expression loc v _) t = float_literal-Defined loc v t
    check_expr-Defined _ t = tt

    pub infer_expr-Defined : (n : Ast) → Defined (infer_expr F c n)
    infer_expr-Defined (int_literal_expression loc v _) = tt
    infer_expr-Defined (type_expression loc name) = Defined-if (is_builtin_type name) _ _ tt tt
    infer_expr-Defined (function_call_expression loc name) =
        infer_call-Defined loc name (find_name name c.function_map)
    infer_expr-Defined (variable_expression loc name _) =
        infer_variable-Defined loc name (Scope.find name c.variable_scope_stack)
    infer_expr-Defined (binary_expression loc op l r _ _) =
        bin_expr-Defined loc op (check_expr F c l) (check_expr F c r) (check_expr-Defined l)
          (check_expr-Defined r) (infer_expr F c l) (infer_expr F c r) (infer_expr-Defined l)
          (infer_expr-Defined r)
    infer_expr-Defined _ = tt

  pub infer_top_level-Defined : (n : Ast) → Defined (infer_expr_top_level F c n)
  unfolding infer_expr_top_level top_level
  infer_top_level-Defined n = Defined-then (infer_expr F c n) _ (infer_expr-Defined n) λ s.
      Defined-if (is_literal s.0.type_id) _ _
        (Defined-then _ _ (default-Defined s.0 (location n))
          λ t. Defined-then (check_expr F c n t) _ (check_expr-Defined n t) λ _. tt)
        tt
