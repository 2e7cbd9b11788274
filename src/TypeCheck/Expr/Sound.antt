-- ===== src/TypeCheck/Expr/Sound.antt =====
-- The types that `check_expr` and `infer_expr` (src/type_check_visitor.cxx) leave in the tree.
pub mod Typed
mod Leaf
mod Binary
use b2_lang.Prelude.{
  ℤ, ◌≡◌, refl, ◌⊎◌, inl, inr, Bool, true, false, ◌||◌, Option, none, some, arith, Bytes,
  Bool-cases, Option-cases, subst, sym, ◌∙◌,
}
use b2_lang.Token.{TokenType, SourceLocation, is_bool_operator}
use b2_lang.Error.{Result, ok, err, undefined, ◌>>=◌}
use b2_lang.Ast.{
  TypeId, id_eq, id_eq→eq, Ty, bool_type, no_type, find_name, get_type_id, Node,
  float_literal_expression, binary_expression, variable_expression, function_call_expression,
  type_expression, int_literal_expression, location,
}
use b2_lang.TypeCheck.Literal.{
  Doubles, is_literal, is_integer, int_is_in_range, is_float, float_is_in_range, is_builtin_type,
  find_promotion, get_literal_default,
}
use b2_lang.TypeCheck.Literal.Promotion.{find_promotion_lem}
use b2_lang.TypeCheck.Scope
use b2_lang.TypeCheck.Expr.{
  top_level, call_returning, variable_of, push_down, resolve_operator, same_operands, Checker,
  Operands, Checks, check_expr_int_literal, check_expr_func_call, check_expr_var_expr,
  check_expr_float_literal, infer_expr_type_expr, infer_expr_func_call, infer_expr_var_expr,
  resolve_literal_pair, infer_expr_bin_expr, check_expr, infer_expr, infer_expr_top_level,
}
use b2_lang.TypeCheck.Expr.Sound.Typed.{
  TypedAs, IsComparison, Fits, OperatorFits, IsTyped, Checked, Inferred, AllChecked,
}
use b2_lang.TypeCheck.Expr.Sound.Leaf.{
  check_int-Checked, check_float-Checked, check_call-Checked, check_var-Checked,
  infer_type-Inferred, infer_call-Inferred, infer_var-Inferred,
}
use b2_lang.TypeCheck.Expr.Sound.Binary.{BinInferred, infer_bin-BinInferred}

module _ (F : Doubles) (c : Checker) where
  abbrev Ast : Type 0
  Ast = Node F.Double

  bin-Checked :
      (op : TokenType) (id : TypeId) (loc : SourceLocation) (cl cr : Checks F c)
      (h : AllChecked F c cl) (k : AllChecked F c cr) (r : Result (Ty × Ast))
      → is_bool_operator op ≡ true
      → BinInferred F c loc op cl cr h k r
      → Checked F c id (r >>= λ (_, node). ok node)
  unfolding is_literal
  bin-Checked op id loc cl cr h k (ok (t, n)) e p = ((p.0 (rw (p.1 e).0)).0, inr (p.1 e).1)
  bin-Checked op id loc cl cr h k (err x) e p = tt
  bin-Checked op id loc cl cr h k undefined e p = tt

  bin-Inferred :
      (op : TokenType) (loc : SourceLocation) (cl cr : Checks F c) (h : AllChecked F c cl)
      (k : AllChecked F c cr) (r : Result (Ty × Ast))
      → BinInferred F c loc op cl cr h k r
      → Inferred F c r
  bin-Inferred op loc cl cr h k (ok (t, n)) p = p.0
  bin-Inferred op loc cl cr h k (err x) p = tt
  bin-Inferred op loc cl cr h k undefined p = tt

  arithmetic-Checked :
      (loc : SourceLocation) (op : TokenType) (t : Ty) (l r : Result Ast)
      → is_bool_operator op ≡ false
      → Checked F c t.type_id l
      → Checked F c t.type_id r
      → Checked F c t.type_id
          (l >>= λ lhs. r >>= λ rhs. ok (binary_expression loc op lhs rhs (some t) (some t)))
  arithmetic-Checked loc op t (ok m) (ok n) e h k = ((h.0, k.0, h.1, k.1, inr (e, refl)), inl refl)
  arithmetic-Checked loc op t (ok m) (err x) e h k = tt
  arithmetic-Checked loc op t (ok m) undefined e h k = tt
  arithmetic-Checked loc op t (err x) r e h k = tt
  arithmetic-Checked loc op t undefined r e h k = tt

  branch-Checked :
      (b : Bool) (id : TypeId) (x y : Result Ast)
      → (b ≡ true → Checked F c id x)
      → (b ≡ false → Checked F c id y)
      → Checked F c id (elim b [ true ↦ x | false ↦ y ])
  branch-Checked true id x y h k = h refl
  branch-Checked false id x y h k = k refl

  mutual
    unfolding check_expr is_literal

    check_expr-Checked : (n : Ast) (t : Ty) → Checked F c t.type_id (check_expr F c n t)
    check_expr-Checked (int_literal_expression loc v _) t = check_int-Checked F c loc v t
    check_expr-Checked (type_expression loc name) t = tt
    check_expr-Checked (function_call_expression loc name) t = check_call-Checked F c loc name t
    check_expr-Checked (variable_expression loc name _) t = check_var-Checked F c loc name t
    check_expr-Checked (binary_expression loc op l r _ _) t =
        branch-Checked (is_bool_operator op) t.type_id _ _
          (λ e.
            bin-Checked op t.type_id loc (check_expr F c l) (check_expr F c r)
              (check_expr-Checked l) (check_expr-Checked r) _ e
              (infer_bin-BinInferred F c loc op (check_expr F c l) (check_expr F c r)
                (check_expr-Checked l) (check_expr-Checked r) (infer_expr F c l) (infer_expr F c r)
                (infer_expr-Inferred l) (infer_expr-Inferred r)))
          (λ e.
            arithmetic-Checked loc op t (check_expr F c l t) (check_expr F c r t) e
              (check_expr-Checked l t) (check_expr-Checked r t))
    check_expr-Checked (float_literal_expression loc v _) t = check_float-Checked F c loc v t
    check_expr-Checked _ t = tt

    infer_expr-Inferred : (n : Ast) → Inferred F c (infer_expr F c n)
    infer_expr-Inferred (int_literal_expression loc v _) = λ e. cc
    infer_expr-Inferred (type_expression loc name) = infer_type-Inferred F c loc name
    infer_expr-Inferred (function_call_expression loc name) = infer_call-Inferred F c loc name
    infer_expr-Inferred (variable_expression loc name _) = infer_var-Inferred F c loc name
    infer_expr-Inferred (binary_expression loc op l r _ _) =
        bin-Inferred op loc (check_expr F c l) (check_expr F c r) (check_expr-Checked l)
          (check_expr-Checked r) _
          (infer_bin-BinInferred F c loc op (check_expr F c l) (check_expr F c r)
            (check_expr-Checked l) (check_expr-Checked r) (infer_expr F c l) (infer_expr F c r)
            (infer_expr-Inferred l) (infer_expr-Inferred r))
    infer_expr-Inferred (float_literal_expression loc v _) = λ e. cc
    infer_expr-Inferred _ = tt

  -- If `check_expr` accepts an expression against a type, the annotated expression is typed: each
  -- literal is annotated with a number type that its value is in the range of, each variable with
  -- the type id that it is declared with, each function call names a known function, each operator
  -- has operands that fit its operand type, an operator of `is_bool_operator` has Bool and every
  -- other, `!=` among them, its operand type; and the expression fits the expected type, which for
  -- an operator of `is_bool_operator` the program does not check.
  pub check_expr_sound :
      (n n' : Ast) (t : Ty) → check_expr F c n t ≡ ok n' → IsTyped F c n' × Fits F c n' t.type_id
  check_expr_sound n n' t h = subst (Checked F c t.type_id) h (check_expr-Checked n t)

  abbrev TopInferred : Result (Ty × Ast) → Type 0
  TopInferred (ok (t, n)) = (is_literal t.type_id ≡ false) × IsTyped F c n × Fits F c n t.type_id
  TopInferred (err e) = Unit
  TopInferred undefined = Unit

  default_is_literal :
      (t d : Ty) (loc : SourceLocation)
      → get_literal_default t loc ≡ ok d
      → is_literal d.type_id ≡ false
  unfolding get_literal_default is_literal
  default_is_literal t d loc h = ground arith

  defaulted-TopInferred :
      (n : Ast) (r : Result Ty)
      → ((d : Ty) → r ≡ ok d → is_literal d.type_id ≡ false)
      → TopInferred (do d ← r; node ← check_expr F c n d; ok (d, node))
  defaulted-TopInferred n (ok d) h = checked (check_expr F c n d) (check_expr-Checked n d)
    where
      checked :
          (r : Result Ast) → Checked F c d.type_id r → TopInferred (r >>= λ node. ok (d, node))
      checked (ok m) k = (h d refl, k.0, k.1)
      checked (err e) k = tt
      checked undefined k = tt
  defaulted-TopInferred n (err e) h = tt
  defaulted-TopInferred n undefined h = tt

  top_level-TopInferred :
      (n : Ast) (r : Result (Ty × Ast))
      → Inferred F c r
      → TopInferred (r >>= λ (t, inferred). top_level F c n t inferred)
  unfolding top_level
  top_level-TopInferred n (ok (t, m)) h = elim (Bool-cases (is_literal t.type_id)) [
    | inl e ↦ rw e (
        defaulted-TopInferred n (get_literal_default t (location n))
          λ d. default_is_literal t d (location n))
    | inr e ↦ rw e (e, (h e).0, inl (h e).1)
  ]
  top_level-TopInferred n (err e) h = tt
  top_level-TopInferred n undefined h = tt

  -- If `infer_expr_top_level` returns a type for an expression, that type is never a literal's, and
  -- the annotated expression is typed and fits the type (a comparison fits any).
  pub infer_expr_top_level_sound :
      (n n' : Ast) (t : Ty)
      → infer_expr_top_level F c n ≡ ok (t, n')
      → (is_literal t.type_id ≡ false) × IsTyped F c n' × Fits F c n' t.type_id
  unfolding infer_expr_top_level
  infer_expr_top_level_sound n n' t h =
      subst TopInferred h (top_level-TopInferred n (infer_expr F c n) (infer_expr-Inferred n))
