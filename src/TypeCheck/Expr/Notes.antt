-- ===== src/TypeCheck/Expr/Notes.antt =====
-- The optional fields of an expression and `check_expr` (src/type_check_visitor.cxx).
use b2_lang.Prelude.{◌≡◌, refl, sym, ap, Bool, true, false, ◌&&◌, some, arith, inl, inr, Bool-cases}
use mathlib.Core.Path.{fun_ext}
use b2_lang.Token.{TokenType, SourceLocation, is_bool_operator}
use b2_lang.Error.{Result, ok, err, undefined, ◌>>=◌}
use b2_lang.Ast.{
  id_eq, Ty, no_type, Node, float_literal_expression, binary_expression, variable_expression,
  int_literal_expression, type_expression, function_call_expression,
}
use b2_lang.TypeCheck.Literal.{Doubles, is_literal, get_literal_default}
use b2_lang.TypeCheck.Expr.{
  resolve_operands, resolve_operator, same_operands, Checker, Operands, Checks, infer_expr_bin_expr,
  check_expr, infer_expr, infer_expr_type_expr, infer_expr_func_call, infer_expr_var_expr,
}
use b2_lang.TypeCheck.Expr.Same.{erase, not_literal, Same, Same-refl, infer_bin-Same}

module _ (F : Doubles) (c : Checker) where
  abbrev Ast : Type 0
  Ast = Node F.Double

  abbrev node_of : Result (Ty × Ast) → Result Ast
  node_of r = r >>= λ (_, node). ok node

  -- A comparison's type is Bool.
  abbrev IsBool : Result (Ty × Ast) → Type 0
  IsBool (ok (t, n)) = is_literal t.type_id ≡ false
  IsBool (err e) = Unit
  IsBool undefined = Unit

  node_of-Same : (p q : Result (Ty × Ast)) → IsBool p → Same F c p q → node_of p ≡ node_of q
  node_of-Same (ok (s, m)) (ok (t, n)) b h = ap ok (h.1 b)
  node_of-Same (err e) (err f) b h = ap err h
  node_of-Same undefined undefined b h = refl
  node_of-Same _ _ b h = ground arith

  IsBool-bind :
      {A : Type 0} (r : Result A) (f : A → Result (Ty × Ast))
      → ((a : A) → IsBool (f a))
      → IsBool (r >>= f)
  IsBool-bind (ok a) f h = h a
  IsBool-bind (err e) f h = tt
  IsBool-bind undefined f h = tt

  module _ (loc : SourceLocation) (op : TokenType) (cl cr : Checks F c)
      (compares : is_bool_operator op ≡ true) where
    resolve_operator-IsBool : (o : Operands F c) → IsBool (resolve_operator F c loc op cl cr o)
    unfolding resolve_operator is_literal
    resolve_operator-IsBool o =
        rw compares (elim (Bool-cases (is_literal o.left.type_id && is_literal o.right.type_id)) [
          | inl e ↦ rw e (
              IsBool-bind (get_literal_default o.left loc) _
                λ t. IsBool-bind (cl t) _ λ l. IsBool-bind (cr t) _ λ r. refl)
          | inr e ↦ rw e refl
        ])

    same_operands-IsBool : (o : Operands F c) → IsBool (same_operands F c loc op cl cr o)
    unfolding same_operands
    same_operands-IsBool o = elim (Bool-cases (id_eq o.left.type_id o.right.type_id)) [
      | inl e ↦ rw e (resolve_operator-IsBool o)
      | inr e ↦ rw e tt
    ]

    bin-IsBool : (l r : Result (Ty × Ast)) → IsBool (infer_expr_bin_expr F c loc op cl cr l r)
    unfolding infer_expr_bin_expr
    bin-IsBool l r = IsBool-bind l _ λ (s, m). IsBool-bind r _ λ (t, n).
        IsBool-bind (resolve_operands F c loc op cl cr (start s t m n)) _ same_operands-IsBool
      where
        start : Ty → Ty → Ast → Ast → Operands F c
        start s t m n = record { left = s; right = t; operand_type = no_type; lhs = m; rhs = n }

  bin-Same :
      (loc : SourceLocation) (op : TokenType) (cl cr cl' cr' : Checks F c)
      (l r l' r' : Result (Ty × Ast))
      → cl ≡ cl'
      → cr ≡ cr'
      → Same F c l l'
      → Same F c r r'
      → Same F c
          (infer_expr_bin_expr F c loc op cl cr l r)
          (infer_expr_bin_expr F c loc op cl' cr' l' r')
  bin-Same loc op cl cr cl' cr' l r l' r' p q h k =
      rw (← p, ← q) (infer_bin-Same F c loc op cl cr l r l' r' h k)

  branch_same :
      (b : Bool) {x x' y y' : Result Ast}
      → (b ≡ true → x ≡ x')
      → y ≡ y'
      → ◌≡◌ {A = Result Ast} (elim b [ true ↦ x | false ↦ y ]) (elim b [ true ↦ x' | false ↦ y' ])
  branch_same true h k = h refl
  branch_same false h k = k

  arithmetic_same :
      (loc : SourceLocation) (op : TokenType) (t : Ty) (l r l' r' : Result Ast)
      → l ≡ l'
      → r ≡ r'
      → (l >>= λ lhs. r >>= λ rhs. ok (binary_expression loc op lhs rhs (some t) (some t)))
        ≡ (l' >>= λ lhs. r' >>= λ rhs. ok (binary_expression loc op lhs rhs (some t) (some t)))
  arithmetic_same loc op t l r l' r' p q = rw (p, q)

  mutual
    unfolding check_expr erase is_literal

    check_expr-erase : (n : Ast) (t : Ty) → check_expr F c n t ≡ check_expr F c (erase n) t
    check_expr-erase (binary_expression loc op l r _ _) t =
        branch_same (is_bool_operator op)
          (λ e.
            node_of-Same _ _
              (bin-IsBool loc op (check_expr F c l) (check_expr F c r) e (infer_expr F c l)
                (infer_expr F c r))
              (bin-Same loc op (check_expr F c l) (check_expr F c r) (check_expr F c (erase l))
                (check_expr F c (erase r)) (infer_expr F c l) (infer_expr F c r)
                (infer_expr F c (erase l)) (infer_expr F c (erase r)) (fun_ext (check_expr-erase l))
                (fun_ext (check_expr-erase r)) (infer_expr-erase l) (infer_expr-erase r)))
          (arithmetic_same loc op t (check_expr F c l t) (check_expr F c r t)
            (check_expr F c (erase l) t) (check_expr F c (erase r) t) (check_expr-erase l t)
            (check_expr-erase r t))
    check_expr-erase (float_literal_expression loc v _) t = refl
    check_expr-erase _ t = refl

    infer_expr-erase : (n : Ast) → Same F c (infer_expr F c n) (infer_expr F c (erase n))
    infer_expr-erase (binary_expression loc op l r _ _) =
        bin-Same loc op (check_expr F c l) (check_expr F c r) (check_expr F c (erase l))
          (check_expr F c (erase r)) (infer_expr F c l) (infer_expr F c r)
          (infer_expr F c (erase l)) (infer_expr F c (erase r)) (fun_ext (check_expr-erase l))
          (fun_ext (check_expr-erase r)) (infer_expr-erase l) (infer_expr-erase r)
    infer_expr-erase (float_literal_expression loc v _) = (refl, λ e. absurd (not_literal F c e))
    infer_expr-erase (type_expression loc name) = Same-refl F c (infer_expr_type_expr F c loc name)
    infer_expr-erase (function_call_expression loc name) =
        Same-refl F c (infer_expr_func_call F c loc name)
    infer_expr-erase (variable_expression loc name _) =
        Same-refl F c (infer_expr_var_expr F c loc name)
    infer_expr-erase (int_literal_expression loc v _) = (refl, λ _. refl)
    infer_expr-erase _ = refl

  -- `check_expr` gives the same result whatever an earlier visit has left in the optional fields of
  -- the expression.
  pub check_expr-erase_lem : (n : Ast) (t : Ty) → check_expr F c (erase n) t ≡ check_expr F c n t
  check_expr-erase_lem n t = sym (check_expr-erase n t)
