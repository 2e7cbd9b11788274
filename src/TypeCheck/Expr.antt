-- ===== src/TypeCheck/Expr.antt =====
-- `check_expr` and `infer_expr` of `TypeCheckVisitor`, on the type checker's state and a node of the
-- tree. The source fills the node's optional fields in place; here the node is returned with the
-- fields filled. Neither function changes the state.
-- A second `check_expr` of an operand takes the operand as it was before it was inferred, where the
-- source takes the one node with the fields that inferring it has filled (see Expr/Keep).
pub mod Accept
pub mod Defined
pub mod Shaped
pub mod Notes
pub mod Same
pub mod Keep
pub mod Sound
use b2_lang.Prelude.{
  ℕ, ℤ, Bool, true, false, ◌&&◌, ◌||◌, Option, none, some, List, if◌then◌else◌, Bytes,
}
use b2_lang.Token.{TokenType, SourceLocation, is_bool_operator}
use b2_lang.Error.{
  Error, Result, ok, err, ◌>>=◌, type_error, TypeProblem, int_out_of_range, int_to_other,
  checked_type_expression, undefined_function, call_mismatch, undefined_variable, variable_mismatch,
  float_to_other, float_out_of_range, not_an_expression, invalid_type, incompatible_operands,
  different_operands,
}
use b2_lang.Ast.{
  TypeId, id_eq, Ty, no_type, bool_type, int_literal_type, float_literal_type, find_name,
  get_type_id, Node, float_literal_expression, binary_expression, variable_expression,
  function_call_expression, type_expression, int_literal_expression, location,
}
use b2_lang.TypeCheck.Literal.{
  Doubles, is_literal, is_integer, int_is_in_range, is_float, float_is_in_range,
  get_literal_default, find_promotion, is_builtin_type,
}
use b2_lang.TypeCheck.Scope
use b2_lang.TypeCheck.Scope.{ScopeStack}

-- The fields of `TypeCheckVisitor` that it uses.
pub record Checker : Type 0 where
  pub variable_scope_stack : ScopeStack
  pub function_map : List (Bytes × Ty)
  pub loop_depth : ℕ

abbrev pub raise {ℓ} : {A : Type ℓ} → SourceLocation → TypeProblem → Result A
raise loc p = err (type_error loc p)

module _ (F : Doubles) (c : Checker) where
  abbrev Ast : Type 0
  Ast = Node F.Double

  unfoldable pub check_expr_int_literal : SourceLocation → ℤ → Ty → Result Ast
  check_expr_int_literal loc value expected =
      if is_integer expected.type_id || is_float expected.type_id
      then (if int_is_in_range value expected.type_id
          then ok (int_literal_expression loc value (some expected))
          else raise loc (int_out_of_range value expected.identifier))
      else raise loc (int_to_other value expected.identifier)

  -- The body under the tests on `function_map.find`.
  call_returning : SourceLocation → Bytes → Ty → Option Ty → Result Ast
  call_returning loc name expected none = raise loc (undefined_function name)
  call_returning loc name expected (some t) =
      if id_eq t.type_id expected.type_id
      then ok (function_call_expression loc name)
      else raise loc (call_mismatch expected.identifier t.identifier name)

  unfoldable pub check_expr_func_call : SourceLocation → Bytes → Ty → Result Ast
  unfolding call_returning
  check_expr_func_call loc name expected =
      call_returning loc name expected (find_name name c.function_map)

  variable_of : SourceLocation → Bytes → Ty → Option Ty → Result Ast
  variable_of loc name expected none = raise loc (undefined_variable name)
  variable_of loc name expected (some t) =
      if id_eq t.type_id expected.type_id
      then ok (variable_expression loc name (some expected))
      else raise loc (variable_mismatch expected.identifier t.identifier name)

  unfoldable pub check_expr_var_expr : SourceLocation → Bytes → Ty → Result Ast
  unfolding variable_of
  check_expr_var_expr loc name expected =
      variable_of loc name expected (Scope.find name c.variable_scope_stack)

  unfoldable pub check_expr_float_literal : SourceLocation → F.Double → Ty → Result Ast
  check_expr_float_literal loc value expected =
      if is_float expected.type_id
      then (if float_is_in_range F value expected.type_id
          then ok (float_literal_expression loc value (some expected))
          else raise loc (float_out_of_range expected.identifier))
      else raise loc (float_to_other expected.identifier)

  unfoldable pub infer_expr_type_expr : SourceLocation → Bytes → Result (Ty × Ast)
  infer_expr_type_expr loc name =
      if is_builtin_type name
      then ok (record { type_id = get_type_id name; identifier = name }, type_expression loc name)
      else raise loc (invalid_type name)

  infer_call : SourceLocation → Bytes → Option Ty → Result (Ty × Ast)
  infer_call loc name none = raise loc (undefined_function name)
  infer_call loc name (some t) = ok (t, function_call_expression loc name)

  unfoldable pub infer_expr_func_call : SourceLocation → Bytes → Result (Ty × Ast)
  unfolding infer_call
  infer_expr_func_call loc name = infer_call loc name (find_name name c.function_map)

  infer_variable : SourceLocation → Bytes → Option Ty → Result (Ty × Ast)
  infer_variable loc name none = raise loc (undefined_variable name)
  infer_variable loc name (some t) = ok (t, variable_expression loc name (some t))

  unfoldable pub infer_expr_var_expr : SourceLocation → Bytes → Result (Ty × Ast)
  unfolding infer_variable
  infer_expr_var_expr loc name = infer_variable loc name (Scope.find name c.variable_scope_stack)

  -- The local variables of `infer_expr_bin_expr`, and the operands as they stand.
  pub record Operands : Type 0 where
    pub left : Ty
    pub right : Ty
    pub operand_type : Ty
    pub lhs : Ast
    pub rhs : Ast

  abbrev pub Checks : Type 0
  Checks = Ty → Result Ast

  push_down : Ty → Checks → Checks → Operands → Ty → Result Operands
  push_down left check_lhs check_rhs o found =
      if is_literal found.type_id
      then ok (record o { left = found; right = found; operand_type = found })
      else if is_literal left.type_id
      then (do
        lhs ← check_lhs found
        ok (record o { left = found; right = found; operand_type = found; lhs = lhs }))
      else (do
        rhs ← check_rhs found
        ok (record o { left = found; right = found; operand_type = found; rhs = rhs }))

  promoted : SourceLocation → TokenType → Checks → Checks → Operands → Option Ty → Result Operands
  promoted loc op check_lhs check_rhs o none =
      raise loc (incompatible_operands o.left.identifier o.right.identifier op)
  promoted loc op check_lhs check_rhs o (some found) = push_down o.left check_lhs check_rhs o found

  -- `resolve_literal_pair`; `check_lhs t` is `check_expr(bin->lhs.get(), t)`.
  unfoldable pub resolve_literal_pair :
      SourceLocation → TokenType → Checks → Checks → Operands → Result Operands
  unfolding push_down promoted
  resolve_literal_pair loc op check_lhs check_rhs o =
      promoted loc op check_lhs check_rhs o (find_promotion o.left o.right)

  -- The first `if` of `infer_expr_bin_expr`.
  resolve_operands : SourceLocation → TokenType → Checks → Checks → Operands → Result Operands
  unfolding resolve_literal_pair
  resolve_operands loc op check_lhs check_rhs o =
      if is_literal o.left.type_id || is_literal o.right.type_id
      then resolve_literal_pair loc op check_lhs check_rhs o
      else ok o

  -- From the test `is_bool_operator` on.
  resolve_operator : SourceLocation → TokenType → Checks → Checks → Operands → Result (Ty × Ast)
  resolve_operator loc op check_lhs check_rhs o =
      if is_bool_operator op
      then (if is_literal o.left.type_id && is_literal o.right.type_id
          then (do
            t ← get_literal_default o.left loc
            lhs ← check_lhs t
            rhs ← check_rhs t
            ok (bool_type, binary_expression loc op lhs rhs (some t) (some bool_type)))
          else ok (bool_type, binary_expression loc op o.lhs o.rhs (some o.left) (some bool_type)))
      else (let t =
            if id_eq o.operand_type.type_id TypeId.sentinel then o.left else o.operand_type in
          ok (t, binary_expression loc op o.lhs o.rhs (some t) (some t)))

  same_operands : SourceLocation → TokenType → Checks → Checks → Operands → Result (Ty × Ast)
  unfolding resolve_operator
  same_operands loc op check_lhs check_rhs o =
      if id_eq o.left.type_id o.right.type_id
      then resolve_operator loc op check_lhs check_rhs o
      else raise loc (different_operands o.left.identifier o.right.identifier op)

  -- `infer_expr_bin_expr`, on the results of `infer_expr` for the operands.
  unfoldable pub infer_expr_bin_expr :
      SourceLocation
      → TokenType
      → Checks
      → Checks
      → Result (Ty × Ast)
      → Result (Ty × Ast)
      → Result (Ty × Ast)
  unfolding resolve_operands same_operands
  infer_expr_bin_expr loc op check_lhs check_rhs infer_lhs infer_rhs = do
    (left, lhs) ← infer_lhs
    (right, rhs) ← infer_rhs
    let o : Operands = record {
      left = left;
      right = right;
      operand_type = no_type;
      lhs = lhs;
      rhs = rhs;
    }
    o' ← resolve_operands loc op check_lhs check_rhs o
    same_operands loc op check_lhs check_rhs o'

  unfoldable mutual
    unfolding infer_expr_bin_expr

    pub check_expr : Ast → Ty → Result Ast
    check_expr (int_literal_expression loc value _) expected =
        check_expr_int_literal loc value expected
    check_expr (type_expression loc name) expected =
        raise loc (checked_type_expression name expected.identifier)
    check_expr (function_call_expression loc name) expected = check_expr_func_call loc name expected
    check_expr (variable_expression loc name _) expected = check_expr_var_expr loc name expected
    check_expr (binary_expression loc op lhs rhs _ _) expected = elim (is_bool_operator op) [
      | true ↦
          infer_expr_bin_expr loc op (check_expr lhs) (check_expr rhs) (infer_expr lhs)
            (infer_expr rhs)
          >>= (λ (_, node). ok node)
      | false ↦ check_expr lhs expected >>= (λ lhs'.
          check_expr rhs expected
          >>= (λ rhs'. ok (binary_expression loc op lhs' rhs' (some expected) (some expected))))
    ]
    check_expr (float_literal_expression loc value _) expected =
        check_expr_float_literal loc value expected
    check_expr node expected = raise (location node) not_an_expression

    pub infer_expr : Ast → Result (Ty × Ast)
    infer_expr (int_literal_expression loc value _) =
        ok (int_literal_type, int_literal_expression loc value (some int_literal_type))
    infer_expr (type_expression loc name) = infer_expr_type_expr loc name
    infer_expr (function_call_expression loc name) = infer_expr_func_call loc name
    infer_expr (variable_expression loc name _) = infer_expr_var_expr loc name
    infer_expr (binary_expression loc op lhs rhs _ _) =
        infer_expr_bin_expr loc op (check_expr lhs) (check_expr rhs) (infer_expr lhs)
          (infer_expr rhs)
    infer_expr (float_literal_expression loc value note) =
        ok (float_literal_type, float_literal_expression loc value note)
    infer_expr node = raise (location node) not_an_expression

  -- From the test `is_literal` on.
  top_level : Ast → Ty → Ast → Result (Ty × Ast)
  top_level node t inferred =
      if is_literal t.type_id
      then (do d ← get_literal_default t (location node); node' ← check_expr node d; ok (d, node'))
      else ok (t, inferred)

  unfoldable pub infer_expr_top_level : Ast → Result (Ty × Ast)
  unfolding top_level
  infer_expr_top_level node = do (t, inferred) ← infer_expr node; top_level node t inferred
