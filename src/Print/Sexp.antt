-- ===== src/Print/Sexp.antt =====
-- S-expressions, their text at a depth, and those of the syntax tree: a reference for
-- include/print_visitor.h.
use b2_lang.Prelude.{
  ℕ, ◌+◌, ◌*◌, ◌%◌, Option, none, some, [], ◌∷◌, ◌++◌, if◌then◌else◌, ◌==◌, get_or, Bytes, codes,
}
use b2_lang.Token.{token_type_to_str}
use b2_lang.Ast.{
  Ty, Node, MaybeNode, Nodes, float_literal_expression, binary_expression, variable_expression,
  variable_assignment_statement, variable_declaration_statement, show_statement,
  function_declaration, function_call_expression, program, return_statement, type_expression,
  int_literal_expression, if_statement, block_statement, loop_statement, break_statement,
  cycle_statement, null, present, nil, cons,
}
use b2_lang.Print.{size_mod, spaces, Digits}

-- An s-expression: a value, or a name and what stands behind it.
mutual
  pub data Item : Type 0 where
    value quoted : Bytes → Item
    node : Bytes → Items → Item

  pub data Items : Type 0 where
    end : Items
    item : Item → Items → Items

unfoldable pub join : Items → Items → Items
join end js = js
join (item i is) js = item i (join is js)

-- The line that a node starts on, unless it is the outermost.
abbrev pub indent : ℕ → Bytes
indent depth = if depth == 0 then [] else b'\n' ∷ spaces (depth * 4 % size_mod)

unfoldable mutual
  pub render : ℕ → Item → Bytes
  render depth (value text) = b' ' ∷ text
  render depth (quoted text) = b' ' ∷ b'"' ∷ text ++ (b'"' ∷ [])
  render depth (node name items) =
      indent depth ++ (b'(' ∷ name) ++ render_all ((depth + 1) % size_mod) items ++ (b')' ∷ [])

  pub render_all : ℕ → Items → Bytes
  render_all depth end = []
  render_all depth (item i is) = render depth i ++ render_all depth is

-- The tree as an s-expression: a block is its statements.
abbrev pub one : Item → Items
one i = item i end

unfoldable pub typed : Bytes → Option Ty → Items
typed name none = end
typed name (some t) = one (node name (one (value t.identifier)))

module _ {D : Type 0} (S : Digits D) where
  unfoldable mutual
    unfolding typed

    pub items : Node D → Items
    items (float_literal_expression _ v t) = one (
        node (codes "FloatLiteral") (item (value (S.to_string v)) (typed (codes "ResolvedType") t)))
    items (int_literal_expression _ v t) = one (
        node (codes "IntLiteralExpression")
          (item (value (S.str v)) (typed (codes "ResolvedType") t)))
    items (binary_expression _ op l r o t) = one (
        node (codes "BinaryExpression") (
          item (value (get_or (token_type_to_str op) [])) (
            join (typed (codes "ResolvedType") t)
              (join (typed (codes "OperandType") o) (join (items l) (items r))))))
    items (variable_expression _ name t) =
        one
          (node (codes "VariableExpression") (item (quoted name) (typed (codes "ResolvedType") t)))
    items (variable_declaration_statement _ name v a t) = one (
        node (codes "VariableDeclarationStatement") (
          item (quoted name)
            (join (typed (codes "DeclarationType") t) (join (items v) (maybe_items a)))))
    items (variable_assignment_statement _ name v _) =
        one (node (codes "VarAssign") (item (quoted name) (items v)))
    items (show_statement _ e _) = one (node (codes "Show") (items e))
    items (function_declaration _ name body) =
        one (node (codes "FunctionDeclaration") (item (quoted name) (items body)))
    items (function_call_expression _ name) = one (node (codes "FunctionCall") (one (quoted name)))
    items (program _ fs) = one (node (codes "Program") (all_items fs))
    items (return_statement _ e _) = one (node (codes "ReturnStatement") (items e))
    items (type_expression _ name) = one (node (codes "TypeExpression") (one (value name)))
    items (if_statement _ c t e) = one (
        node (codes "IfStatement") (
          item (node (codes "Cond") (items c))
            (item (node (codes "IfThen") (items t)) (else_items e))))
    items (block_statement _ ns) = all_items ns
    items (loop_statement _ body) = one (node (codes "Loop") (items body))
    items (break_statement _) = one (node (codes "Break") end)
    items (cycle_statement _) = one (node (codes "Cycle") end)

    pub maybe_items : MaybeNode D → Items
    maybe_items null = end
    maybe_items (present n) = items n

    pub else_items : MaybeNode D → Items
    else_items null = end
    else_items (present n) = one (node (codes "IfElse") (items n))

    pub all_items : Nodes D → Items
    all_items nil = end
    all_items (cons n ns) = join (items n) (all_items ns)
