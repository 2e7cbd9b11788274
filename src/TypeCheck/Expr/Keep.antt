-- ===== src/TypeCheck/Expr/Keep.antt =====
-- What `check_expr` and `infer_expr` (src/type_check_visitor.cxx) leave unchanged of an expression.
use b2_lang.Prelude.{
  ℤ, ◌≡◌, refl, sym, ap, subst, ◌∙◌, inl, inr, Bool, true, false, ◌&&◌, ◌||◌, Option, arith, Bytes,
  Option-cases,
}
use b2_lang.Token.{TokenType, SourceLocation, is_bool_operator}
use b2_lang.Error.{Result, ok, Post, Post-bind, Post-any, Post-if, Post-weaken}
use b2_lang.Ast.{
  id_eq, Ty, no_type, Node, float_literal_expression, binary_expression, variable_expression,
  int_literal_expression, function_call_expression, type_expression,
}
use b2_lang.TypeCheck.Literal.{Doubles, is_literal, find_promotion, get_literal_default}
use b2_lang.TypeCheck.Expr.{
  resolve_operands, same_operands, push_down, Checker, Operands, Checks, check_expr_int_literal,
  check_expr_func_call, check_expr_var_expr, check_expr_float_literal, infer_expr_type_expr,
  infer_expr_func_call, infer_expr_var_expr, infer_expr_bin_expr, check_expr, infer_expr,
}
use b2_lang.TypeCheck.Expr.Same.{erase}
use b2_lang.TypeCheck.Expr.Notes.{check_expr-erase_lem}

module _ (F : Doubles) (c : Checker) where
  abbrev Ast : Type 0
  Ast = Node F.Double

  -- The node is `n` but for the fields.
  abbrev Keeps : Ast → Ast → Type 0
  Keeps n m = erase m ≡ erase n

  abbrev InferKeeps : Ast → Ty × Ast → Type 0
  InferKeeps n r = Keeps n r.1

  check_int-Keeps :
      (loc : SourceLocation) (v : ℤ) (t : Ty) (o : Option Ty)
      → Post (Keeps (int_literal_expression loc v o)) (check_expr_int_literal F c loc v t)
  unfolding check_expr_int_literal erase
  check_int-Keeps loc v t o = ground arith

  check_float-Keeps :
      (loc : SourceLocation) (v : F.Double) (t : Ty) (o : Option Ty)
      → Post (Keeps (float_literal_expression loc v o)) (check_expr_float_literal F c loc v t)
  unfolding check_expr_float_literal erase
  check_float-Keeps loc v t o = ground arith

  check_call-Keeps :
      (loc : SourceLocation) (name : Bytes) (t : Ty)
      → Post (Keeps (function_call_expression loc name)) (check_expr_func_call F c loc name t)
  unfolding check_expr_func_call erase
  check_call-Keeps loc name t = ground arith

  check_var-Keeps :
      (loc : SourceLocation) (name : Bytes) (t : Ty) (o : Option Ty)
      → Post (Keeps (variable_expression loc name o)) (check_expr_var_expr F c loc name t)
  unfolding check_expr_var_expr erase
  check_var-Keeps loc name t o = ground arith

  infer_type-Keeps :
      (loc : SourceLocation) (name : Bytes)
      → Post (InferKeeps (type_expression loc name)) (infer_expr_type_expr F c loc name)
  unfolding infer_expr_type_expr erase
  infer_type-Keeps loc name = ground arith

  infer_call-Keeps :
      (loc : SourceLocation) (name : Bytes)
      → Post (InferKeeps (function_call_expression loc name)) (infer_expr_func_call F c loc name)
  unfolding infer_expr_func_call erase
  infer_call-Keeps loc name = ground arith

  infer_var-Keeps :
      (loc : SourceLocation) (name : Bytes) (o : Option Ty)
      → Post (InferKeeps (variable_expression loc name o)) (infer_expr_var_expr F c loc name)
  unfolding infer_expr_var_expr erase
  infer_var-Keeps loc name o = ground arith

  bin-Keeps :
      (loc : SourceLocation) (op : TokenType) (l r l' r' : Ast) (o t o' t' : Option Ty)
      → Keeps l l'
      → Keeps r r'
      → Keeps (binary_expression loc op l r o t) (binary_expression loc op l' r' o' t')
  unfolding erase
  bin-Keeps loc op l r l' r' o t o' t' h k = rw (h, k)

  module _ (loc : SourceLocation) (op : TokenType) (cl cr : Checks F c) (l r : Ast)
      (hl : (t : Ty) → Post (Keeps l) (cl t)) (hr : (t : Ty) → Post (Keeps r) (cr t)) where
    abbrev OperandsKeep : Operands F c → Type 0
    OperandsKeep o = Keeps l o.lhs × Keeps r o.rhs

    push_down-Keeps :
        (o : Operands F c) (found : Ty)
        → OperandsKeep o
        → Post OperandsKeep (push_down F c o.left cl cr o found)
    unfolding push_down
    push_down-Keeps o found h = Post-if OperandsKeep (is_literal found.type_id) _ _ h (
        Post-if OperandsKeep (is_literal o.left.type_id) _ _
          (Post-bind (Keeps l) OperandsKeep (cl found) _ (hl found) λ m k. (k, h.1))
          (Post-bind (Keeps r) OperandsKeep (cr found) _ (hr found) λ m k. (h.0, k)))

    resolve_operands-Keeps :
        (o : Operands F c)
        → OperandsKeep o
        → Post OperandsKeep (resolve_operands F c loc op cl cr o)
    unfolding resolve_operands
    resolve_operands-Keeps o h =
        Post-if OperandsKeep (is_literal o.left.type_id || is_literal o.right.type_id) _ _
          (elim (Option-cases (find_promotion o.left o.right)) [
            | inl e ↦ rw e tt
            | inr (found, e) ↦ rw e (push_down-Keeps o found h)
          ])
          h

    abbrev ResultKeeps : Ty × Ast → Type 0
    ResultKeeps p = (o t : Option Ty) → Keeps (binary_expression loc op l r o t) p.1

    same_operands-Keeps :
        (o : Operands F c) → OperandsKeep o → Post ResultKeeps (same_operands F c loc op cl cr o)
    unfolding same_operands
    same_operands-Keeps o h =
        Post-if ResultKeeps (id_eq o.left.type_id o.right.type_id) _ _
          (Post-if ResultKeeps (is_bool_operator op) _ _
            (Post-if ResultKeeps (is_literal o.left.type_id && is_literal o.right.type_id) _ _
              (Post-bind (λ _. Unit {0}) ResultKeeps (get_literal_default o.left loc) _ (Post-any _)
                λ t _. Post-bind (Keeps l) ResultKeeps (cl t) _ (hl t) λ m k.
                  Post-bind (Keeps r) ResultKeeps (cr t) _ (hr t)
                    λ n k'. λ x y. bin-Keeps loc op l r m n x y _ _ k k')
              (λ x y. bin-Keeps loc op l r o.lhs o.rhs x y _ _ h.0 h.1))
            (λ x y. bin-Keeps loc op l r o.lhs o.rhs x y _ _ h.0 h.1))
          tt

    infer_bin-Keeps :
        (il ir : Result (Ty × Ast))
        → Post (InferKeeps l) il
        → Post (InferKeeps r) ir
        → Post ResultKeeps (infer_expr_bin_expr F c loc op cl cr il ir)
    unfolding infer_expr_bin_expr
    infer_bin-Keeps il ir h k = Post-bind (InferKeeps l) ResultKeeps il _ h λ (s, m) hm.
        Post-bind (InferKeeps r) ResultKeeps ir _ k λ (t, n) hn.
          Post-bind OperandsKeep ResultKeeps (resolve_operands F c loc op cl cr (start s t m n)) _
            (resolve_operands-Keeps (start s t m n) (hm, hn)) same_operands-Keeps
      where
        start : Ty → Ty → Ast → Ast → Operands F c
        start s t m n = record { left = s; right = t; operand_type = no_type; lhs = m; rhs = n }

  branch-Post :
      (P : Ast → Type 0) (b : Bool) (x y : Result Ast)
      → Post P x
      → Post P y
      → Post P (elim b [ true ↦ x | false ↦ y ])
  branch-Post P true x y h k = h
  branch-Post P false x y h k = k

  int-Keeps :
      (loc : SourceLocation) (v : ℤ) (o p : Option Ty)
      → Keeps (int_literal_expression loc v o) (int_literal_expression loc v p)
  unfolding erase
  int-Keeps loc v o p = refl

  mutual
    unfolding check_expr

    check_expr-Keeps : (n : Ast) (t : Ty) → Post (Keeps n) (check_expr F c n t)
    check_expr-Keeps (int_literal_expression loc v o) t = check_int-Keeps loc v t o
    check_expr-Keeps (float_literal_expression loc v o) t = check_float-Keeps loc v t o
    check_expr-Keeps (function_call_expression loc name) t = check_call-Keeps loc name t
    check_expr-Keeps (variable_expression loc name o) t = check_var-Keeps loc name t o
    check_expr-Keeps (binary_expression loc op l r o p) t =
        branch-Post (Keeps (binary_expression loc op l r o p)) (is_bool_operator op) _ _
          (Post-bind
            (ResultKeeps loc op (check_expr F c l) (check_expr F c r) l r (check_expr-Keeps l)
              (check_expr-Keeps r))
            (Keeps (binary_expression loc op l r o p)) _ _
            (infer_bin-Keeps loc op (check_expr F c l) (check_expr F c r) l r (check_expr-Keeps l)
              (check_expr-Keeps r) (infer_expr F c l) (infer_expr F c r) (infer_expr-Keeps l)
              (infer_expr-Keeps r))
            λ a h. h o p)
          (Post-bind (Keeps l) (Keeps (binary_expression loc op l r o p)) (check_expr F c l t) _
            (check_expr-Keeps l t)
            λ m k.
              Post-bind (Keeps r) (Keeps (binary_expression loc op l r o p)) (check_expr F c r t) _
                (check_expr-Keeps r t) λ n k'. bin-Keeps loc op l r m n o p _ _ k k')
    check_expr-Keeps _ t = tt

    infer_expr-Keeps : (n : Ast) → Post (InferKeeps n) (infer_expr F c n)
    infer_expr-Keeps (int_literal_expression loc v o) = int-Keeps loc v o _
    infer_expr-Keeps (float_literal_expression loc v o) = refl
    infer_expr-Keeps (type_expression loc name) = infer_type-Keeps loc name
    infer_expr-Keeps (function_call_expression loc name) = infer_call-Keeps loc name
    infer_expr-Keeps (variable_expression loc name o) = infer_var-Keeps loc name o
    infer_expr-Keeps (binary_expression loc op l r o p) =
        Post-weaken
          (ResultKeeps loc op (check_expr F c l) (check_expr F c r) l r (check_expr-Keeps l)
            (check_expr-Keeps r))
          (InferKeeps (binary_expression loc op l r o p)) _ (λ a h. h o p)
          (infer_bin-Keeps loc op (check_expr F c l) (check_expr F c r) l r (check_expr-Keeps l)
            (check_expr-Keeps r) (infer_expr F c l) (infer_expr F c r) (infer_expr-Keeps l)
            (infer_expr-Keeps r))
    infer_expr-Keeps _ = tt

  -- If `infer_expr` returns for an expression, then `check_expr` of the expression that it has
  -- annotated gives, against every type, the result that `check_expr` of the expression before it
  -- gives.
  pub check_expr-infer_expr :
      (n n' : Ast) (s t : Ty)
      → infer_expr F c n ≡ ok (s, n')
      → check_expr F c n' t ≡ check_expr F c n t
  check_expr-infer_expr n n' s t h =
      sym (check_expr-erase_lem F c n' t)
      ∙ ap (λ m. check_expr F c m t) (subst (Post (InferKeeps n)) h (infer_expr-Keeps n))
      ∙ check_expr-erase_lem F c n t
