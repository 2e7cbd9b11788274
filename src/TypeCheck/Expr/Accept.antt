-- ===== src/TypeCheck/Expr/Accept.antt =====
-- Which expressions without comparisons `check_expr` (src/type_check_visitor.cxx) accepts.
use b2_lang.Prelude.{
  ℤ, ◌≡◌, refl, ap, ◌∙◌, Bool, true, false, ◌&&◌, ◌||◌, Option, none, some, arith, Bytes,
}
use b2_lang.Token.{SourceLocation, TokenType, is_bool_operator}
use b2_lang.Error.{Result, ok, err, undefined, ◌>>=◌}
use b2_lang.Ast.{
  TypeId, id_eq, Ty, find_name, Node, float_literal_expression, binary_expression,
  variable_expression, function_call_expression, int_literal_expression,
}
use b2_lang.TypeCheck.Literal.{Doubles, is_integer, int_is_in_range, is_float, float_is_in_range}
use b2_lang.TypeCheck.Scope
use b2_lang.TypeCheck.Expr.{
  Checker, check_expr_int_literal, check_expr_func_call, check_expr_var_expr, call_returning,
  variable_of, check_expr_float_literal, check_expr,
}

abbrev pub is_ok {ℓ} : {A : Type ℓ} → Result A → Bool
is_ok (ok a) = true
is_ok (err e) = false
is_ok undefined = false

-- Is there a comparison in the expression?
unfoldable pub has_comparison : {D : Type 0} → Node D → Bool
has_comparison (binary_expression loc op l r _ _) =
    is_bool_operator op || (has_comparison l || has_comparison r)
has_comparison _ = false

abbrev declares : Option Ty → TypeId → Bool
declares none id = false
declares (some t) id = id_eq t.type_id id

module _ (F : Doubles) (c : Checker) where
  abbrev Ast : Type 0
  Ast = Node F.Double

  -- Every leaf has the type: a literal is in its range, a variable or function is declared with it.
  unfoldable pub leaves_have : Ast → TypeId → Bool
  leaves_have (int_literal_expression loc v _) id =
      (is_integer id || is_float id) && int_is_in_range v id
  leaves_have (float_literal_expression loc v _) id = is_float id && float_is_in_range F v id
  leaves_have (variable_expression loc name _) id =
      declares (Scope.find name c.variable_scope_stack) id
  leaves_have (function_call_expression loc name) id = declares (find_name name c.function_map) id
  leaves_have (binary_expression loc op l r _ _) id = leaves_have l id && leaves_have r id
  leaves_have _ id = false

  int-accepted :
      (loc : SourceLocation) (v : ℤ) (t : Ty)
      → is_ok (check_expr_int_literal F c loc v t)
        ≡ ((is_integer t.type_id || is_float t.type_id) && int_is_in_range v t.type_id)
  unfolding check_expr_int_literal
  int-accepted loc v t = ground arith

  float-accepted :
      (loc : SourceLocation) (v : F.Double) (t : Ty)
      → is_ok (check_expr_float_literal F c loc v t)
        ≡ (is_float t.type_id && float_is_in_range F v t.type_id)
  unfolding check_expr_float_literal
  float-accepted loc v t = ground arith

  variable-accepted :
      (loc : SourceLocation) (name : Bytes) (t : Ty) (found : Option Ty)
      → is_ok (variable_of F c loc name t found) ≡ declares found t.type_id
  unfolding variable_of
  variable-accepted loc name t none = refl
  variable-accepted loc name t (some s) = ground arith

  call-accepted :
      (loc : SourceLocation) (name : Bytes) (t : Ty) (found : Option Ty)
      → is_ok (call_returning F c loc name t found) ≡ declares found t.type_id
  unfolding call_returning
  call-accepted loc name t none = refl
  call-accepted loc name t (some s) = ground arith

  second-accepted :
      (b : Bool) (x y : Result Ast) → b ≡ false → is_ok (elim b [ true ↦ x | false ↦ y ]) ≡ is_ok y
  second-accepted true x y h = cc
  second-accepted false x y h = refl

  both-accepted :
      (loc : SourceLocation) (op : TokenType) (t : Ty) (l r : Result Ast)
      → is_ok (l >>= λ lhs. r >>= λ rhs. ok (binary_expression loc op lhs rhs (some t) (some t)))
        ≡ (is_ok l && is_ok r)
  both-accepted loc op t (ok l) (ok r) = refl
  both-accepted loc op t (ok l) (err e) = refl
  both-accepted loc op t (ok l) undefined = refl
  both-accepted loc op t (err e) r = refl
  both-accepted loc op t undefined r = refl

  -- `check_expr` accepts an expression without comparisons against a type exactly when every leaf
  -- of the expression has the type: a literal is a number in the type's range, a variable or a
  -- called function is declared with the type.
  pub is_ok-check_expr :
      (n : Ast) (t : Ty)
      → has_comparison n ≡ false
      → is_ok (check_expr F c n t) ≡ leaves_have n t.type_id
  unfolding check_expr leaves_have has_comparison check_expr_var_expr check_expr_func_call
  is_ok-check_expr (int_literal_expression loc v _) t h = int-accepted loc v t
  is_ok-check_expr (float_literal_expression loc v _) t h = float-accepted loc v t
  is_ok-check_expr (variable_expression loc name _) t h =
      variable-accepted loc name t (Scope.find name c.variable_scope_stack)
  is_ok-check_expr (function_call_expression loc name) t h =
      call-accepted loc name t (find_name name c.function_map)
  is_ok-check_expr (binary_expression loc op l r _ _) t h =
      let arithmetic : is_bool_operator op ≡ false = ground arith in
      let left : has_comparison l ≡ false = ground arith in
      let right : has_comparison r ≡ false = ground arith in
      second-accepted (is_bool_operator op) _ _ arithmetic
      ∙ both-accepted loc op t (check_expr F c l t) (check_expr F c r t)
      ∙ ap (λ b. b && is_ok (check_expr F c r t)) (is_ok-check_expr l t left)
      ∙ ap (λ b. leaves_have l t.type_id && b) (is_ok-check_expr r t right)
  is_ok-check_expr _ t h = refl
