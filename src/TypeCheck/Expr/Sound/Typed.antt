-- ===== src/TypeCheck/Expr/Sound/Typed.antt =====
-- What it means that an expression that the type checker has annotated is typed.
use b2_lang.Prelude.{◌≡◌, ◌⊎◌, true, false, ◌||◌, some}
use b2_lang.Token.{TokenType, is_bool_operator}
use b2_lang.Error.{Result, ok, err, undefined}
use b2_lang.Ast.{
  TypeId, Ty, find_name, get_type_id, Node, float_literal_expression, binary_expression,
  variable_expression, function_call_expression, type_expression, int_literal_expression,
}
use b2_lang.TypeCheck.Literal.{
  Doubles, is_literal, is_integer, int_is_in_range, is_float, float_is_in_range, is_builtin_type,
}
use b2_lang.TypeCheck.Scope
use b2_lang.TypeCheck.Expr.{Checker, Checks}

module _ (F : Doubles) (c : Checker) where
  abbrev Ast : Type 0
  Ast = Node F.Double

  -- The type of a checked expression, as its fields and the declarations in scope give it.
  abbrev pub TypedAs : Ast → TypeId → Type 0
  TypedAs (float_literal_expression loc v (some t)) id = t.type_id ≡ id
  TypedAs (int_literal_expression loc v (some t)) id = t.type_id ≡ id
  TypedAs (binary_expression loc op l r o (some t)) id = t.type_id ≡ id
  TypedAs (variable_expression loc name (some t)) id = t.type_id ≡ id
  TypedAs (function_call_expression loc name) id =
      (t : Ty) × (find_name name c.function_map ≡ some t) × (t.type_id ≡ id)
  TypedAs (type_expression loc name) id = get_type_id name ≡ id
  TypedAs _ id = ⊥

  abbrev pub IsComparison : Ast → Type 0
  IsComparison (binary_expression loc op l r o t) = is_bool_operator op ≡ true
  IsComparison _ = ⊥

  -- The expression has the type, or is a comparison: of those the program does not ask it.
  abbrev pub Fits : Ast → TypeId → Type 0
  Fits n id = TypedAs n id ⊎ IsComparison n

  -- The types of a binary expression: a comparison is a Bool, any other has its operands' type.
  abbrev pub OperatorFits : TokenType → Ty → Ty → Type 0
  OperatorFits op o t =
      ((is_bool_operator op ≡ true) × (t.type_id ≡ TypeId.bool))
      ⊎ ((is_bool_operator op ≡ false) × (t.type_id ≡ o.type_id))

  -- Every literal has a number type that its value is in the range of, every variable the type that
  -- it is declared with, every operator operands of its operand type.
  abbrev pub IsTyped : Ast → Type 0
  IsTyped (float_literal_expression loc v (some t)) =
      (is_float t.type_id ≡ true) × (float_is_in_range F v t.type_id ≡ true)
  IsTyped (int_literal_expression loc v (some t)) =
      ((is_integer t.type_id || is_float t.type_id) ≡ true) × (int_is_in_range v t.type_id ≡ true)
  IsTyped (binary_expression loc op l r (some o) (some t)) =
      IsTyped l × IsTyped r × Fits l o.type_id × Fits r o.type_id × OperatorFits op o t
  IsTyped (variable_expression loc name (some t)) =
      (s : Ty) × (Scope.find name c.variable_scope_stack ≡ some s) × (s.type_id ≡ t.type_id)
  IsTyped (function_call_expression loc name) = (t : Ty) × (find_name name c.function_map ≡ some t)
  IsTyped (type_expression loc name) = is_builtin_type name ≡ true
  IsTyped _ = ⊥

  -- What holds of a successful `check_expr` and of a successful `infer_expr` that has not left the
  -- type of a literal open.
  abbrev pub Checked : TypeId → Result Ast → Type 0
  Checked id (ok n) = IsTyped n × Fits n id
  Checked id (err e) = Unit
  Checked id undefined = Unit

  abbrev pub Inferred : Result (Ty × Ast) → Type 0
  Inferred (ok (t, n)) = is_literal t.type_id ≡ false → IsTyped n × TypedAs n t.type_id
  Inferred (err e) = Unit
  Inferred undefined = Unit

  abbrev pub AllChecked : Checks F c → Type 0
  AllChecked k = (t : Ty) → Checked t.type_id (k t)
