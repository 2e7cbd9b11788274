-- ===== src/TypeCheck/Expr/Shaped.antt =====
-- The expressions that `check_expr` and `infer_expr` return have the shape of those they take.
use b2_lang.Prelude.{
  and_first, and_second, ℤ, ◌≡◌, refl, Bool, true, false, ◌&&◌, ◌||◌, Option, none, some, Bytes,
}
use b2_lang.Token.{TokenType, SourceLocation, is_bool_operator}
use b2_lang.Error.{Result, Post, Post-any, Post-bind, Post-if}
use b2_lang.Ast.{
  id_eq, Ty, find_name, Node, present, float_literal_expression, binary_expression,
  variable_expression, function_call_expression, type_expression, int_literal_expression, location,
}
use b2_lang.Parser.Shape.{is_expression, is_annotation}
use b2_lang.TypeCheck.Literal.{
  Doubles, is_literal, is_integer, int_is_in_range, is_float, float_is_in_range,
  get_literal_default, find_promotion, is_builtin_type,
}
use b2_lang.TypeCheck.Scope
use b2_lang.TypeCheck.Expr.{
  Checker, Operands, Checks, check_expr_int_literal, call_returning, check_expr_func_call,
  variable_of, check_expr_var_expr, check_expr_float_literal, infer_expr_type_expr, infer_call,
  infer_expr_func_call, infer_variable, infer_expr_var_expr, push_down, promoted,
  resolve_literal_pair, resolve_operands, resolve_operator, same_operands, infer_expr_bin_expr,
  check_expr, infer_expr, top_level, infer_expr_top_level,
}

module _ (F : Doubles) (c : Checker) where
  abbrev Ast : Type 0
  Ast = Node F.Double

  abbrev Is : Ast → Type 0
  Is n = is_expression n ≡ true

  -- What is returned is an expression.
  abbrev Shaped : Result Ast → Type 0
  Shaped r = Post Is r

  abbrev Typed : Result (Ty × Ast) → Type 0
  Typed r = Post (λ s. Is s.1) r

  int_literal-Shaped :
      (loc : SourceLocation) (v : ℤ) (t : Ty) → Shaped (check_expr_int_literal F c loc v t)
  unfolding check_expr_int_literal is_expression
  int_literal-Shaped loc v t =
      Post-if Is (is_integer t.type_id || is_float t.type_id) _ _
        (Post-if Is (int_is_in_range v t.type_id) _ _ refl tt) tt

  float_literal-Shaped :
      (loc : SourceLocation) (v : F.Double) (t : Ty) → Shaped (check_expr_float_literal F c loc v t)
  unfolding check_expr_float_literal is_expression
  float_literal-Shaped loc v t =
      Post-if Is (is_float t.type_id) _ _ (Post-if Is (float_is_in_range F v t.type_id) _ _ refl tt)
        tt

  call_returning-Shaped :
      (loc : SourceLocation) (name : Bytes) (t : Ty) (o : Option Ty)
      → Shaped (call_returning F c loc name t o)
  unfolding call_returning is_expression
  call_returning-Shaped loc name t none = tt
  call_returning-Shaped loc name t (some s) = Post-if Is (id_eq s.type_id t.type_id) _ _ refl tt

  variable_of-Shaped :
      (loc : SourceLocation) (name : Bytes) (t : Ty) (o : Option Ty)
      → Shaped (variable_of F c loc name t o)
  unfolding variable_of is_expression
  variable_of-Shaped loc name t none = tt
  variable_of-Shaped loc name t (some s) = Post-if Is (id_eq s.type_id t.type_id) _ _ refl tt

  infer_call-Typed :
      (loc : SourceLocation) (name : Bytes) (o : Option Ty) → Typed (infer_call F c loc name o)
  unfolding infer_call is_expression
  infer_call-Typed loc name none = tt
  infer_call-Typed loc name (some s) = refl

  infer_variable-Typed :
      (loc : SourceLocation) (name : Bytes) (o : Option Ty) → Typed (infer_variable F c loc name o)
  unfolding infer_variable is_expression
  infer_variable-Typed loc name none = tt
  infer_variable-Typed loc name (some s) = refl

  module _ (loc : SourceLocation) (op : TokenType) (l r : Checks F c) (sl : (t : Ty) → Shaped (l t))
      (sr : (t : Ty) → Shaped (r t)) where
    abbrev Both : Operands F c → Type 0
    Both o = Is o.lhs × Is o.rhs

    promoted-Both :
        (o : Operands F c) (found : Option Ty)
        → Both o
        → Post Both (promoted F c loc op l r o found)
    unfolding promoted push_down
    promoted-Both o none h = tt
    promoted-Both o (some t) h = Post-if Both (is_literal t.type_id) _ _ h (
        Post-if Both (is_literal o.left.type_id) _ _
          (Post-bind Is Both (l t) _ (sl t) λ n k. (k, h.1))
          (Post-bind Is Both (r t) _ (sr t) λ n k. (h.0, k)))

    resolve_operands-Both :
        (o : Operands F c) → Both o → Post Both (resolve_operands F c loc op l r o)
    unfolding resolve_operands resolve_literal_pair
    resolve_operands-Both o h =
        Post-if Both (is_literal o.left.type_id || is_literal o.right.type_id) _ _
          (promoted-Both o (find_promotion o.left o.right) h) h

    resolve_operator-Typed : (o : Operands F c) → Both o → Typed (resolve_operator F c loc op l r o)
    unfolding resolve_operator is_expression
    resolve_operator-Typed o h =
        Post-if (λ s. Is s.1) (is_bool_operator op) _ _
          (Post-if (λ s. Is s.1) (is_literal o.left.type_id && is_literal o.right.type_id) _ _
            (Post-bind (λ _. Unit {0}) (λ s. Is s.1) (get_literal_default o.left loc) _ (Post-any _)
              λ t _.
                Post-bind Is (λ s. Is s.1) (l t) _ (sl t)
                  λ m hm. Post-bind Is (λ s. Is s.1) (r t) _ (sr t) λ n hn. rw (hm, hn) refl)
            (rw (h.0, h.1) refl))
          (rw (h.0, h.1) refl)

    bin_expr-Typed :
        (x y : Result (Ty × Ast))
        → Typed x
        → Typed y
        → Typed (infer_expr_bin_expr F c loc op l r x y)
    unfolding infer_expr_bin_expr same_operands
    bin_expr-Typed x y hx hy =
        Post-bind (λ s. Is s.1) (λ s. Is s.1) x _ hx
          λ s hs.
            Post-bind (λ s. Is s.1) (λ s. Is s.1) y _ hy
              λ t ht.
                Post-bind Both (λ s. Is s.1) _ _ (resolve_operands-Both _ (hs, ht))
                  λ o ho.
                    Post-if (λ s. Is s.1) (id_eq o.left.type_id o.right.type_id) _ _
                      (resolve_operator-Typed o ho) tt

  chosen-Shaped :
      (b : Bool) (x y : Result Ast) → Shaped x → Shaped y → Shaped (elim b [ true ↦ x | false ↦ y ])
  chosen-Shaped true x y h k = h
  chosen-Shaped false x y h k = k

  mutual
    unfolding check_expr is_expression check_expr_func_call check_expr_var_expr infer_expr_func_call
        infer_expr_var_expr

    pub check_expr-Shaped : (n : Ast) (t : Ty) → Is n → Shaped (check_expr F c n t)
    check_expr-Shaped (int_literal_expression loc v _) t e = int_literal-Shaped loc v t
    check_expr-Shaped (function_call_expression loc name) t e =
        call_returning-Shaped loc name t (find_name name c.function_map)
    check_expr-Shaped (variable_expression loc name _) t e =
        variable_of-Shaped loc name t (Scope.find name c.variable_scope_stack)
    check_expr-Shaped (binary_expression loc op l r _ _) t e =
        let el = and_first (is_expression l) (is_expression r) e in
        let er = and_second (is_expression l) (is_expression r) e in
        chosen-Shaped (is_bool_operator op) _ _
          (Post-bind (λ s. Is s.1) Is _ _
            (bin_expr-Typed loc op (check_expr F c l) (check_expr F c r)
              (λ t. check_expr-Shaped l t el) (λ t. check_expr-Shaped r t er) (infer_expr F c l)
              (infer_expr F c r) (infer_expr-Typed l el) (infer_expr-Typed r er))
            λ s h. h)
          (Post-bind Is Is _ _ (check_expr-Shaped l t el)
            λ m hm. Post-bind Is Is _ _ (check_expr-Shaped r t er) λ n hn. rw (hm, hn) refl)
    check_expr-Shaped (float_literal_expression loc v _) t e = float_literal-Shaped loc v t
    check_expr-Shaped _ t e = cc

    pub infer_expr-Typed : (n : Ast) → Is n → Typed (infer_expr F c n)
    infer_expr-Typed (int_literal_expression loc v _) e = refl
    infer_expr-Typed (function_call_expression loc name) e =
        infer_call-Typed loc name (find_name name c.function_map)
    infer_expr-Typed (variable_expression loc name _) e =
        infer_variable-Typed loc name (Scope.find name c.variable_scope_stack)
    infer_expr-Typed (binary_expression loc op l r _ _) e =
        let el = and_first (is_expression l) (is_expression r) e in
        let er = and_second (is_expression l) (is_expression r) e in
        bin_expr-Typed loc op (check_expr F c l) (check_expr F c r) (λ t. check_expr-Shaped l t el)
          (λ t. check_expr-Shaped r t er) (infer_expr F c l) (infer_expr F c r)
          (infer_expr-Typed l el) (infer_expr-Typed r er)
    infer_expr-Typed (float_literal_expression loc v _) e = refl
    infer_expr-Typed _ e = cc

  pub infer_top_level-Typed : (n : Ast) → Is n → Typed (infer_expr_top_level F c n)
  unfolding infer_expr_top_level top_level
  infer_top_level-Typed n e =
      Post-bind (λ s. Is s.1) (λ s. Is s.1) (infer_expr F c n) _ (infer_expr-Typed n e)
        λ s h.
          Post-if (λ s. Is s.1) (is_literal s.0.type_id) _ _
            (Post-bind {B = Ty × Ast} (λ _. Unit {0}) (λ s. Is s.1)
              (get_literal_default s.0 (location n)) _ (Post-any _)
              λ t _.
                Post-bind {B = Ty × Ast} Is (λ s. Is s.1) (check_expr F c n t) _
                  (check_expr-Shaped n t e) λ m k. k)
            h

  pub annotation-Shaped :
      (a : Ast)
      → is_annotation (present a) ≡ true
      → Post (λ s. is_annotation (present s.1) ≡ true) (infer_expr F c a)
  unfolding infer_expr is_annotation infer_expr_type_expr
  annotation-Shaped (type_expression loc name) h =
      Post-if (λ s. is_annotation (present s.1) ≡ true) (is_builtin_type name) _ _ h tt
  annotation-Shaped _ h = cc
