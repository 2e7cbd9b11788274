-- ===== src/Examples/Checking.antt =====
-- Runs of the type checker (src/type_check_visitor.cxx), and its theorems at concrete inputs. A
-- `double` is played by an integer.
use b2_lang.Prelude.{
  ◌+◌, ◌<◌, ◌≡◌, ◌≢◌, refl, true, false, Option, none, some, [], ◌∷◌, arith, ℤ, pos, negsuc, neg_of,
  leb_ℤ, Bytes, codes,
}
use b2_lang.Container.Order.{bytes_order}
use b2_lang.Token.{TokenType, SourceLocation, is_bool_operator}
use b2_lang.Error.{ok, undefined}
use b2_lang.Ast.{
  TypeId, Ty, bool_type, int16_type, int32_type, int_literal_type, Node, Nodes, nil, cons, null,
  binary_expression, variable_expression, int_literal_expression, variable_declaration_statement,
  function_declaration, program, block_statement, loop_statement, break_statement, return_statement,
}
use b2_lang.TypeCheck.Literal.{
  Doubles, int_is_in_range, is_literal, is_integer, get_literal_default, find_promotion,
}
use b2_lang.TypeCheck.Scope
use b2_lang.TypeCheck.Scope.{ScopeStack}
use b2_lang.TypeCheck.Scope.Shadow.{find_innermost, find-find_innermost}
use b2_lang.TypeCheck.Expr.{
  Checker, check_expr, infer_expr, infer_expr_top_level, infer_expr_var_expr,
  check_expr_int_literal,
}
use b2_lang.TypeCheck.Expr.Same.{erase}
use b2_lang.TypeCheck.Expr.Notes.{check_expr-erase_lem}
use b2_lang.TypeCheck.Expr.Keep.{check_expr-infer_expr}
use b2_lang.TypeCheck.Expr.Sound.{check_expr_sound, infer_expr_top_level_sound}
use b2_lang.TypeCheck.Expr.Sound.Typed.{IsTyped, Fits}
use b2_lang.TypeCheck.Stmt.{
  visit_statement_node, visit_statement_var_decl, visit_statement_return, visit_statement_break,
  push_scope, pop_scope, enter_loop, leave_loop, add_function, initial_checker, depth_mod,
}
use b2_lang.TypeCheck.Stmt.Frame.{Frame, has_program}
use b2_lang.TypeCheck.Stmt.Balance.{
  visit_statement_node-Frame, visit-block_statement, visit_program_two_functions,
}
use b2_lang.TypeCheck.Stmt.Names.{HasUniqueNames, visit_statement_node-HasUniqueNames}
use b2_lang.TypeCheck.Stmt.Loops.{jumps_in_loops, visit_statement_node-jumps_in_loops}
use b2_lang.TypeCheck.Expr.Accept.{is_ok, has_comparison, leaves_have, is_ok-check_expr}

abbrev negated : ℤ → ℤ
negated (pos n) = neg_of n
negated (negsuc n) = pos (n + 1)

abbrev whole : Doubles
whole = record { Double = ℤ; of_int = λ v. v; negate = negated; le = leb_ℤ }

abbrev loc : SourceLocation
loc = record { line = 1; column = 1; filename = [] }

-- `x` is an Int16 and `y` an Int32.
abbrev scopes : ScopeStack
scopes = ((codes "y", int32_type) ∷ []) ∷ ((codes "x", int16_type) ∷ []) ∷ []

abbrev state : Checker
state = record { variable_scope_stack = scopes; function_map = []; loop_depth = 0 }

abbrev one : Option Ty → Node ℤ
one t = int_literal_expression loc (pos 1) t

abbrev x : Option Ty → Node ℤ
x t = variable_expression loc (codes "x") t

abbrev sum : Node ℤ → Node ℤ → Option Ty → Node ℤ
sum l r t = binary_expression loc TokenType.plus l r t t

abbrev less : Node ℤ → Node ℤ → Option Ty → Option Ty → Node ℤ
less l r o t = binary_expression loc TokenType.less_than l r o t

-- `x + 1 < 3`, as the parser makes it and as it is checked.
abbrev three : Option Ty → Node ℤ
three t = int_literal_expression loc (pos 3) t

abbrev comparison : Node ℤ
comparison = less (sum (x none) (one none) none) (three none) none none

abbrev checked_comparison : Node ℤ
checked_comparison =
    less (sum (x (some int16_type)) (one (some int16_type)) (some int16_type))
      (three (some int16_type)) (some int16_type) (some bool_type)

comparison_checked : check_expr whole state comparison bool_type ≡ ok checked_comparison
unfolding check_expr infer_expr infer_expr_top_level is_bool_operator infer_expr_var_expr Scope.find
    is_literal find_promotion check_expr_int_literal get_literal_default is_integer int_is_in_range
comparison_checked = refl

check_expr_sound_example :
    IsTyped whole state checked_comparison × Fits whole state checked_comparison TypeId.bool
check_expr_sound_example =
    check_expr_sound whole state comparison checked_comparison bool_type comparison_checked

check_expr-erase_lem_example :
    check_expr whole state (erase checked_comparison) bool_type
    ≡ check_expr whole state checked_comparison bool_type
check_expr-erase_lem_example = check_expr-erase_lem whole state checked_comparison bool_type

-- `1 + 1` alone is an Int32.
abbrev two : Option Ty → Node ℤ
two t = sum (one t) (one t) t

two_inferred : infer_expr_top_level whole state (two none) ≡ ok (int32_type, two (some int32_type))
unfolding check_expr infer_expr infer_expr_top_level is_bool_operator infer_expr_var_expr Scope.find
    is_literal find_promotion check_expr_int_literal get_literal_default is_integer int_is_in_range
two_inferred = refl

infer_expr_top_level_sound_example :
    (is_literal TypeId.int32 ≡ false)
    × IsTyped whole state (two (some int32_type))
    × Fits whole state (two (some int32_type)) TypeId.int32
infer_expr_top_level_sound_example =
    infer_expr_top_level_sound whole state (two none) (two (some int32_type)) int32_type
      two_inferred

two_literal : infer_expr whole state (two none) ≡ ok (int_literal_type, two (some int_literal_type))
unfolding check_expr infer_expr infer_expr_top_level is_bool_operator infer_expr_var_expr Scope.find
    is_literal find_promotion check_expr_int_literal get_literal_default is_integer int_is_in_range
two_literal = refl

check_expr-infer_expr_example :
    check_expr whole state (two (some int_literal_type)) int16_type
    ≡ check_expr whole state (two none) int16_type
check_expr-infer_expr_example =
    check_expr-infer_expr whole state (two none) (two (some int_literal_type)) int_literal_type
      int16_type two_literal

-- A loop over `z = 1` and `break`.
abbrev body : Option Ty → Nodes ℤ
body t =
    cons (variable_declaration_statement loc (codes "z") (one t) null t)
      (cons (break_statement loc) nil)

abbrev looping : Option Ty → Node ℤ
looping t = loop_statement loc (block_statement loc (body t))

looping_visited :
    visit_statement_node whole state (looping none) ≡ ok (state, looping (some int32_type))
unfolding visit_statement_node visit_statement_var_decl visit_statement_return visit_statement_break
    Scope.find push_scope Scope.push pop_scope Scope.pop Scope.store enter_loop leave_loop
    add_function infer_expr_top_level infer_expr is_literal get_literal_default
    check_expr_int_literal is_integer int_is_in_range
looping_visited = refl

small : 0 < depth_mod
small = omega arith

visit_statement_node-Frame_example : Frame false state state
unfolding has_program
visit_statement_node-Frame_example =
    visit_statement_node-Frame whole state state (looping none) (looping (some int32_type)) small
      looping_visited

visit_statement_node-jumps_in_loops_example : jumps_in_loops false (looping none) ≡ true
visit_statement_node-jumps_in_loops_example =
    visit_statement_node-jumps_in_loops whole state state (looping none) (looping (some int32_type))
      refl looping_visited

-- `z = 1` in a block.
abbrev declaring : Option Ty → Nodes ℤ
declaring t = cons (variable_declaration_statement loc (codes "z") (one t) null t) nil

block_visited :
    visit_statement_node whole state (block_statement loc (declaring none))
    ≡ ok (state, block_statement loc (declaring (some int32_type)))
unfolding visit_statement_node visit_statement_var_decl visit_statement_return visit_statement_break
    Scope.find push_scope Scope.push pop_scope Scope.pop Scope.store enter_loop leave_loop
    add_function infer_expr_top_level infer_expr is_literal get_literal_default
    check_expr_int_literal is_integer int_is_in_range
block_visited = refl

visit-block_statement_example : state.variable_scope_stack ≡ state.variable_scope_stack
unfolding has_program
visit-block_statement_example =
    visit-block_statement whole state state loc (declaring none)
      (block_statement loc (declaring (some int32_type))) refl small block_visited

-- A declaration in the innermost scope.
abbrev start : Checker
start = record state { variable_scope_stack = [] ∷ ((codes "x", int16_type) ∷ []) ∷ [] }

abbrev start_after : Checker
start_after = record state {
  variable_scope_stack = ((codes "z", int32_type) ∷ []) ∷ ((codes "x", int16_type) ∷ []) ∷ [];
}

declaration_visited :
    visit_statement_node whole start
      (variable_declaration_statement loc (codes "z") (one none) null none)
    ≡ ok (
      start_after,
      variable_declaration_statement loc (codes "z") (one (some int32_type)) null (some int32_type),
    )
unfolding visit_statement_node visit_statement_var_decl visit_statement_return visit_statement_break
    Scope.find push_scope Scope.push pop_scope Scope.pop Scope.store enter_loop leave_loop
    add_function infer_expr_top_level infer_expr is_literal get_literal_default
    check_expr_int_literal is_integer int_is_in_range
declaration_visited = refl

start-HasUniqueNames : HasUniqueNames start
unfolding Scope.find
start-HasUniqueNames = ((λ key t h. refl), ((λ key t h. cc), tt))

visit_statement_node-HasUniqueNames_example :
    HasUniqueNames start_after
    × ((name : Bytes)
        → Scope.find name start_after.variable_scope_stack
          ≡ find_innermost name start_after.variable_scope_stack)
visit_statement_node-HasUniqueNames_example =
    visit_statement_node-HasUniqueNames whole start start_after
      (variable_declaration_statement loc (codes "z") (one none) null none)
      (variable_declaration_statement loc (codes "z") (one (some int32_type)) null
        (some int32_type))
      start-HasUniqueNames declaration_visited

find-find_innermost_example :
    Scope.find (codes "x") start.variable_scope_stack
    ≡ find_innermost (codes "x") start.variable_scope_stack
find-find_innermost_example =
    find-find_innermost (codes "x") start.variable_scope_stack start-HasUniqueNames

-- `func f return 1 end` and `func g return 1 end`.
abbrev function : Bytes → Node ℤ
function name =
    function_declaration loc name
      (block_statement loc (cons (return_statement loc (one none) none) nil))

abbrev functions : Node ℤ
functions = program loc (cons (function (codes "f")) (cons (function (codes "g")) nil))

functions_undefined : visit_statement_node whole (initial_checker 0) functions ≡ undefined
unfolding visit_statement_node visit_statement_var_decl visit_statement_return visit_statement_break
    Scope.find push_scope Scope.push pop_scope Scope.pop Scope.store enter_loop leave_loop
    add_function infer_expr_top_level infer_expr is_literal get_literal_default
    check_expr_int_literal is_integer int_is_in_range
functions_undefined = refl

visit_program_two_functions_example :
    visit_statement_node whole (initial_checker 0) functions ≢ ok (initial_checker 0, functions)
unfolding has_program
visit_program_two_functions_example =
    visit_program_two_functions whole 0 loc (function (codes "f")) (function (codes "g")) nil small
      refl refl (initial_checker 0) functions

is_ok-check_expr_example :
    is_ok (check_expr whole state (two none) int16_type)
    ≡ leaves_have whole state (two none) TypeId.int16
unfolding has_comparison is_bool_operator
is_ok-check_expr_example = is_ok-check_expr whole state (two none) int16_type refl
