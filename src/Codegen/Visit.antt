-- ===== src/Codegen/Visit.antt =====
-- The visits of `CodegenVisitor` (src/codegen/code_generation_visitor.cxx), on its state. A null
-- pointer is `none`; where the code follows one, or hands one to LLVM, the behaviour is undefined.
pub mod Jumps
pub mod Leaves
pub mod Quiet
use b2_lang.Prelude.{
  ℕ, ℤ, Bool, true, false, Option, none, some, List, [], ◌∷◌, if◌then◌else◌, Bytes, codes, bytes_eq,
  get_or,
}
use b2_lang.Token.{TokenType}
use b2_lang.Error.{
  Result, ok, ◌>>=◌, declared_twice, no_declaration_type, assigned_unknown, unknown_variable,
  unknown_function, binary_failed, no_variable_type, not_an_integer, break_without_loop,
  cycle_without_loop,
}
use b2_lang.Ast.{
  Ty, Node, Nodes, float_literal_expression, binary_expression, variable_expression,
  variable_assignment_statement, variable_declaration_statement, show_statement,
  function_declaration, function_call_expression, program, return_statement, type_expression,
  int_literal_expression, if_statement, block_statement, loop_statement, break_statement,
  cycle_statement, null, present, nil, cons,
}
use b2_lang.Codegen.Llvm.{Llvm}
use b2_lang.Codegen.Literal.{num_bits, is_signed}
use b2_lang.Codegen.Loops.{LoopBlocks, push_loop, pop_loop, back_loop}
use b2_lang.Codegen.Operations.{apply}
use b2_lang.Codegen.Pointers.{
  raise, deref, get_llvm_type, required, operations, assign, named, touch,
}

module _ {D : Type 0} (L : Llvm D) where
  -- The fields of `CodegenVisitor`; the module and the builder are the context.
  pub record Codegen : Type 0 where
    pub context : L.Context
    pub named_values : List (Bytes × Option L.Value)
    pub current_function : Option L.Function
    pub loop_block_stack : List (LoopBlocks L.Block)
    pub result : Option L.Value

  -- A call whose value becomes `result`.
  abbrev pub returns : Codegen → L.Value × L.Context → Codegen
  returns g (v, s) = record g { context = s; result = some v }

  abbrev pub found : Codegen → Bytes → Codegen
  found g name = record g { named_values = touch name g.named_values }

  abbrev pub is_null : Option L.Value → Bool
  is_null none = true
  is_null (some v) = false

  unfoldable pub visit_float_literal : Codegen → D → Result Codegen
  visit_float_literal g value = ok (record g { result = some (L.constant_fp value) })

  unfoldable pub visit_int_literal : Codegen → ℤ → Option Ty → Result Codegen
  visit_int_literal g value resolved_type = do
    t ← deref resolved_type
    bits ← required not_an_integer (num_bits t.type_id)
    signed ← required not_an_integer (is_signed t.type_id)
    ok (record g { result = some (L.constant_int bits (L.to_uint64 value) signed) })

  unfoldable pub visit_variable : Codegen → Bytes → Option Ty → Result Codegen
  visit_variable g name resolved_type = do
    alloca ← required (unknown_variable name) (named name g.named_values)
    t ← required no_variable_type resolved_type
    type ← get_llvm_type t
    ok (returns (found g name) (L.create_load type alloca name g.context))

  unfoldable pub visit_call : Codegen → Bytes → Result Codegen
  visit_call g name = do
    fn ← required (unknown_function name) (L.get_function name g.context)
    ok (returns g (L.create_call fn [] g.context))

  -- `visit(BinaryExpression&)` from the test of `l` and `r` on.
  unfoldable pub visit_operation :
      Codegen → TokenType → Option Ty → Option Ty → Option L.Value → Option L.Value → Result Codegen
  visit_operation g op operand_type resolved_type l r = do
    lhs ← required binary_failed l
    rhs ← required binary_failed r
    builder ← operations operand_type resolved_type
    made ← apply L builder op lhs rhs g.context
    ok (returns g made)

  -- `visit(VariableDeclarationStatement&)` before and behind `emit`.
  unfoldable pub declare_new : Codegen → Bytes → Result Codegen
  declare_new g name =
      if is_null (named name g.named_values) then ok (found g name) else raise declared_twice

  unfoldable pub visit_declaration : Codegen → Bytes → Option Ty → Result Codegen
  visit_declaration g name declaration_type = do
    t ← required no_declaration_type declaration_type
    type ← get_llvm_type t
    r ← deref g.result
    let (alloca, s) = L.create_alloca type name g.context in
        ok (record g {
          context = L.create_store r alloca s;
          named_values = assign name (some alloca) g.named_values;
        })

  -- `visit(VariableAssignmentStatement&)` behind `emit`.
  unfoldable pub visit_assignment : Codegen → L.Value → Result Codegen
  visit_assignment g variable = do
    r ← deref g.result
    ok (record g { context = L.create_store r variable g.context })

  -- `visit(ShowStatement&)` before and behind `emit`.
  unfoldable pub show_format : Codegen → (L.Value × Option L.Function) × Codegen
  show_format g =
      let (fmt, s) = L.create_global_string_ptr (codes "%d\n") (codes "fmt") g.context in
      ((fmt, L.get_function (codes "printf") s), record g { context = s })

  unfoldable pub visit_show : Codegen → L.Value → Option L.Function → Result Codegen
  visit_show g fmt printf_fn = do
    fn ← deref printf_fn
    r ← deref g.result
    ok (returns g (L.create_call fn (fmt ∷ r ∷ []) g.context))

  unfoldable pub visit_return : Codegen → Result Codegen
  visit_return g = do value ← deref g.result; ok (returns g (L.create_ret value g.context))

  -- `visit(FunctionDeclaration&)` before `emit`.
  unfoldable pub begin_function : Codegen → Bytes → Codegen
  begin_function g name =
      let (func, s) = L.create_function name g.context in
      let (entry, s') = L.create_block (codes "entry") (some func) s in
      record g {
        context = L.set_insert_point entry s';
        named_values = [];
        current_function = some func;
      }

  -- `BasicBlock::Create` in the current function.
  unfoldable pub new_block : Bytes → Codegen → L.Block × Codegen
  new_block name g =
      let (b, s) = L.create_block name g.current_function g.context in (b, record g { context = s })

  unfoldable pub start_block : L.Block → Codegen → Codegen
  start_block b g = record g { context = L.set_insert_point b g.context }

  -- The branch to `if_end`, unless the block has its terminator.
  unfoldable pub join_block : L.Block → Codegen → Codegen
  join_block if_end g =
      if L.has_terminator g.context then g else record g { context = L.create_br if_end g.context }

  unfoldable pub branch : L.Value → L.Block → L.Block → Codegen → Codegen
  branch cond yes_block no_block g = record g {
    context = L.create_cond_br cond yes_block no_block g.context;
  }

  unfoldable pub jump : L.Block → Codegen → Codegen
  jump b g = record g { context = L.create_br b g.context }

  -- `visit(LoopStatement&)` before and behind the body.
  unfoldable pub begin_loop : Codegen → (L.Block × L.Block) × Codegen
  begin_loop g =
      let (body, g₁) = new_block (codes "loop.body") g in
      let (end, g₂) = new_block (codes "loop.end") g₁ in
      let blocks : LoopBlocks L.Block = record { body = some body; end = some end } in
      let g₃ = record g₂ { loop_block_stack = push_loop blocks g₂.loop_block_stack } in
      ((body, end), start_block body (jump body g₃))

  unfoldable pub end_loop : L.Block → L.Block → Codegen → Result Codegen
  end_loop body end g = do
    stack ← pop_loop g.loop_block_stack
    ok (record (start_block end (jump body g)) { loop_block_stack = stack })

  unfoldable pub visit_break : Codegen → Result Codegen
  visit_break g = do
    blocks ← required break_without_loop (back_loop g.loop_block_stack)
    end ← deref blocks.end
    ok (jump end g)

  unfoldable pub visit_cycle : Codegen → Result Codegen
  visit_cycle g = do
    blocks ← required cycle_without_loop (back_loop g.loop_block_stack)
    body ← deref blocks.body
    ok (jump body g)

  -- `visit(IfStatement&)` before `emit(*if_stmt.if_then)`, with an `else` and without.
  unfoldable pub begin_if_else : L.Value → Codegen → (L.Block × L.Block) × Codegen
  begin_if_else cond g =
      let (if_then, g₁) = new_block (codes "if.then") g in
      let (if_else, g₂) = new_block (codes "if.else") g₁ in
      let (if_end, g₃) = new_block (codes "if.end") g₂ in
      ((if_else, if_end), start_block if_then (branch cond if_then if_else g₃))

  unfoldable pub begin_if : L.Value → Codegen → L.Block × Codegen
  begin_if cond g =
      let (if_then, g₁) = new_block (codes "if.then") g in
      let (if_end, g₂) = new_block (codes "if.end") g₁ in
      (if_end, start_block if_then (branch cond if_then if_end g₂))

  -- From the end of a side to the next block.
  unfoldable pub end_side : L.Block → L.Block → Codegen → Codegen
  end_side if_end next g = start_block next (join_block if_end g)

  unfoldable mutual
    pub visit : Node D → Codegen → Result Codegen
    visit (float_literal_expression _ value _) g = visit_float_literal g value
    visit (int_literal_expression _ value resolved_type) g = visit_int_literal g value resolved_type
    visit (variable_expression _ name resolved_type) g = visit_variable g name resolved_type
    visit (function_call_expression _ name) g = visit_call g name
    visit (binary_expression _ op lhs rhs operand_type resolved_type) g = do
      g₁ ← visit lhs g
      g₂ ← visit rhs g₁
      visit_operation g₂ op operand_type resolved_type g₁.result g₂.result
    visit (type_expression _ _) g = ok g
    visit (variable_declaration_statement _ name value _ declaration_type) g = do
      g₁ ← declare_new g name
      g₂ ← visit value g₁
      visit_declaration g₂ name declaration_type
    visit (variable_assignment_statement _ name value _) g = do
      variable ← required (assigned_unknown name) (named name g.named_values)
      g₁ ← visit value (found g name)
      visit_assignment g₁ variable
    visit (show_statement _ expr _) g =
        let ((fmt, printf_fn), g₁) = show_format g in
        do g₂ ← visit expr g₁; visit_show g₂ fmt printf_fn
    visit (return_statement _ expr _) g = do g₁ ← visit expr g; visit_return g₁
    visit (function_declaration _ name statements) g = visit statements (begin_function g name)
    visit (program _ functions) g = visit_nodes functions g
    visit (block_statement _ statements) g = visit_nodes statements g
    visit (if_statement _ condition if_then null) g = do
      g₁ ← visit condition g
      cond ← deref g₁.result
      let (if_end, g₂) = begin_if cond g₁ in
          do g₃ ← visit if_then g₂; ok (end_side if_end if_end g₃)
    visit (if_statement _ condition if_then (present if_else)) g = do
      g₁ ← visit condition g
      cond ← deref g₁.result
      let ((else_block, if_end), g₂) = begin_if_else cond g₁ in
          do
            g₃ ← visit if_then g₂
            g₄ ← visit if_else (end_side if_end else_block g₃)
            ok (record (end_side if_end if_end g₄) { result = g₃.result })
    visit (loop_statement _ body) g =
        let ((loop_body, loop_end), g₁) = begin_loop g in
        do g₂ ← visit body g₁; end_loop loop_body loop_end g₂
    visit (break_statement _) g = visit_break g
    visit (cycle_statement _) g = visit_cycle g

    pub visit_nodes : Nodes D → Codegen → Result Codegen
    visit_nodes nil g = ok g
    visit_nodes (cons n ns) g = do g₁ ← visit n g; visit_nodes ns g₁
