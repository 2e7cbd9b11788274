-- ===== src/TypeCheck/Stmt.antt =====
-- `visit_statement_node` of `TypeCheckVisitor` and the functions that it calls. A thrown exception
-- ends the compilation, so an error carries no state.
pub mod Balance
pub mod Defined
pub mod Shaped
pub mod Frame
pub mod Loops
pub mod Names
use b2_lang.Prelude.{
  ℕ, ◌+◌, ◌-◌, ◌%◌, ◌^◌, Bool, true, false, Option, none, some, List, [], if◌then◌else◌, ◌==◌,
  Bytes,
}
use b2_lang.Token.{SourceLocation}
use b2_lang.Error.{
  Error, Result, ok, err, undefined, ◌>>=◌, redeclared, undefined_variable, not_a_statement,
  break_outside_loop, cycle_outside_loop,
}
use b2_lang.Ast.{
  Ty, bool_type, int32_type, Node, MaybeNode, Nodes, variable_assignment_statement,
  variable_declaration_statement, show_statement, function_declaration, program, return_statement,
  if_statement, block_statement, loop_statement, break_statement, cycle_statement, null, present,
  nil, cons, location,
}
use b2_lang.TypeCheck.Literal.{Doubles}
use b2_lang.TypeCheck.Scope
use b2_lang.TypeCheck.Expr.{Checker, raise, check_expr, infer_expr, infer_expr_top_level}

-- `loop_depth` is a `uint32_t`.
abbrev pub depth_mod : ℕ
depth_mod = 2 ^ 32

unfoldable pub push_scope : Checker → Checker
push_scope c = record c { variable_scope_stack = Scope.push c.variable_scope_stack }

unfoldable pub pop_scope : Checker → Result Checker
pop_scope c = do
  scopes ← Scope.pop c.variable_scope_stack
  ok (record c { variable_scope_stack = scopes })

-- `loop_depth += 1` and `loop_depth -= 1`.
unfoldable pub enter_loop : Checker → Checker
enter_loop c = record c { loop_depth = (c.loop_depth + 1) % depth_mod }

unfoldable pub leave_loop : Checker → Checker
leave_loop c = record c { loop_depth = (c.loop_depth + depth_mod - 1) % depth_mod }

-- `function_map[fn->name] = Int32`.
unfoldable pub add_function : Bytes → Checker → Checker
add_function name c = record c { function_map = Scope.assign name int32_type c.function_map }

module _ (F : Doubles) where
  abbrev Ast : Type 0
  Ast = Node F.Double

  -- The type of the declaration, the annotation and the value as they stand after the `if`.
  declared : Checker → MaybeNode F.Double → Ast → Result (Ty × Ast × MaybeNode F.Double)
  declared c null value = do (t, value') ← infer_expr_top_level F c value; ok (t, value', null)
  declared c (present annotation) value = do
    (t, annotation') ← infer_expr F c annotation
    value' ← check_expr F c value t
    ok (t, value', present annotation')

  declare_new :
      Checker
      → SourceLocation
      → Bytes
      → Ast
      → MaybeNode F.Double
      → Option Ty
      → Result (Checker × Ast)
  unfolding declared
  declare_new c loc name value annotation (some t) = raise loc (redeclared name)
  declare_new c loc name value annotation none = do
    (t, value', annotation') ← declared c annotation value
    scopes ← Scope.store name t c.variable_scope_stack
    ok (
      record c { variable_scope_stack = scopes },
      variable_declaration_statement loc name value' annotation' (some t),
    )

  unfoldable pub visit_statement_var_decl :
      Checker → SourceLocation → Bytes → Ast → MaybeNode F.Double → Result (Checker × Ast)
  unfolding declare_new
  visit_statement_var_decl c loc name value annotation =
      declare_new c loc name value annotation (Scope.find name c.variable_scope_stack)

  assign_known :
      Checker → SourceLocation → Bytes → Ast → Option Ty → Option Ty → Result (Checker × Ast)
  assign_known c loc name value assigned none = raise loc (undefined_variable name)
  assign_known c loc name value assigned (some t) = do
    value' ← check_expr F c value t
    ok (c, variable_assignment_statement loc name value' assigned)

  unfoldable pub visit_statement_var_assign :
      Checker → SourceLocation → Bytes → Ast → Option Ty → Result (Checker × Ast)
  unfolding assign_known
  visit_statement_var_assign c loc name value assigned =
      assign_known c loc name value assigned (Scope.find name c.variable_scope_stack)

  unfoldable pub visit_statement_show : Checker → SourceLocation → Ast → Result (Checker × Ast)
  visit_statement_show c loc expr = do
    (t, expr') ← infer_expr_top_level F c expr
    ok (c, show_statement loc expr' (some t))

  unfoldable pub visit_statement_return : Checker → SourceLocation → Ast → Result (Checker × Ast)
  visit_statement_return c loc expr = do
    (t, expr') ← infer_expr_top_level F c expr
    ok (c, return_statement loc expr' (some t))

  unfoldable pub visit_statement_break : Checker → SourceLocation → Result (Checker × Ast)
  visit_statement_break c loc =
      if c.loop_depth == 0 then raise loc break_outside_loop else ok (c, break_statement loc)

  unfoldable pub visit_statement_cycle : Checker → SourceLocation → Result (Checker × Ast)
  visit_statement_cycle c loc =
      if c.loop_depth == 0 then raise loc cycle_outside_loop else ok (c, cycle_statement loc)

  unfoldable mutual
    pub visit_statement_node : Checker → Ast → Result (Checker × Ast)
    visit_statement_node c (function_declaration loc name statements) = do
      (c', statements') ← visit_statement_node c statements
      ok (add_function name c', function_declaration loc name statements')
    visit_statement_node c (program loc functions) = do
      (c', functions') ← visit_functions c functions
      ok (c', program loc functions')
    visit_statement_node c (variable_assignment_statement loc name value note) =
        visit_statement_var_assign c loc name value note
    visit_statement_node c (variable_declaration_statement loc name value annotation _) =
        visit_statement_var_decl c loc name value annotation
    visit_statement_node c (show_statement loc expr _) = visit_statement_show c loc expr
    visit_statement_node c (return_statement loc expr _) = visit_statement_return c loc expr
    visit_statement_node c (if_statement loc condition if_then if_else) = do
      condition' ← check_expr F c condition bool_type
      (c₁, if_then') ← visit_statement_node c if_then
      (c₂, if_else') ← visit_maybe c₁ if_else
      ok (c₂, if_statement loc condition' if_then' if_else')
    visit_statement_node c (block_statement loc statements) = do
      (c₁, statements') ← visit_statements (push_scope c) statements
      c₂ ← pop_scope c₁
      ok (c₂, block_statement loc statements')
    visit_statement_node c (loop_statement loc body) = do
      (c', body') ← visit_statement_node (enter_loop c) body
      ok (leave_loop c', loop_statement loc body')
    visit_statement_node c (break_statement loc) = visit_statement_break c loc
    visit_statement_node c (cycle_statement loc) = visit_statement_cycle c loc
    visit_statement_node c node = raise (location node) not_a_statement

    -- `if (ifstmt->if_else)`.
    pub visit_maybe : Checker → MaybeNode F.Double → Result (Checker × MaybeNode F.Double)
    visit_maybe c null = ok (c, null)
    visit_maybe c (present node) = do
      (c', node') ← visit_statement_node c node
      ok (c', present node')

    -- The loop of `visit_statement_block_stmt`.
    pub visit_statements : Checker → Nodes F.Double → Result (Checker × Nodes F.Double)
    visit_statements c nil = ok (c, nil)
    visit_statements c (cons node nodes) = do
      (c₁, node') ← visit_statement_node c node
      (c₂, nodes') ← visit_statements c₁ nodes
      ok (c₂, cons node' nodes')

    -- The loop of `visit_statement_program`.
    pub visit_functions : Checker → Nodes F.Double → Result (Checker × Nodes F.Double)
    visit_functions c nil = ok (c, nil)
    visit_functions c (cons fn fns) = do
      (c₁, fn') ← visit_statement_node c fn
      c₂ ← pop_scope c₁
      (c₃, fns') ← visit_functions c₂ fns
      ok (c₃, cons fn' fns')

-- A new `TypeCheckVisitor`. Nothing initialises `loop_depth`, so it is an argument.
abbrev pub initial_checker : ℕ → Checker
initial_checker depth = record {
  variable_scope_stack = Scope.initial_stack;
  function_map = [];
  loop_depth = depth;
}
