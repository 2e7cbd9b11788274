-- ===== src/Print.antt =====
-- include/print_visitor.h: `PrettyPrinter`, and the visits of `PrintVisitor`. A `Closer` closes its
-- node at the end of its scope. `std::to_string` of a double and `int128_t::str` are parameters.
pub mod Reference
pub mod Sexp
use b2_lang.Prelude.{
  ℕ, zero, suc, ◌+◌, ◌-◌, ◌*◌, ◌%◌, ◌^◌, ℤ, Bool, true, false, Option, none, some, List, [], ◌∷◌,
  ◌++◌, if◌then◌else◌, ◌==◌, get_or, Bytes, codes,
}
use b2_lang.Token.{token_type_to_str}
use b2_lang.Ast.{
  Ty, Node, MaybeNode, Nodes, float_literal_expression, binary_expression, variable_expression,
  variable_assignment_statement, variable_declaration_statement, show_statement,
  function_declaration, function_call_expression, program, return_statement, type_expression,
  int_literal_expression, if_statement, block_statement, loop_statement, break_statement,
  cycle_statement, null, present, nil, cons,
}

-- `depth` is a `uint64_t`.
pub record PrettyPrinter : Type 0 where
  pub depth : ℕ
  pub output : Bytes

abbrev pub size_mod : ℕ
size_mod = 2 ^ 64

-- `std::string(count, ' ')`.
unfoldable pub spaces : ℕ → Bytes
spaces zero = []
spaces (suc n) = b' ' ∷ spaces n

abbrev pub write : Bytes → PrettyPrinter → PrettyPrinter
write text p = record p { output = p.output ++ text }

unfoldable pub add_node : Bytes → PrettyPrinter → PrettyPrinter
unfolding spaces
add_node name p =
    let q = if p.depth == 0 then p else write (b'\n' ∷ spaces (p.depth * 4 % size_mod)) p in
    record (write (b'(' ∷ name) q) { depth = (p.depth + 1) % size_mod }

unfoldable pub add_value : Bytes → PrettyPrinter → PrettyPrinter
add_value value p = write (b' ' ∷ value) p

unfoldable pub add_string_value : Bytes → PrettyPrinter → PrettyPrinter
add_string_value value p = write (b' ' ∷ b'"' ∷ value ++ (b'"' ∷ [])) p

unfoldable pub close_node : PrettyPrinter → PrettyPrinter
close_node p = record p {
  depth = (p.depth + size_mod - 1) % size_mod;
  output = p.output ++ (b')' ∷ []);
}

unfoldable pub print_type : Option Ty → Bytes → PrettyPrinter → PrettyPrinter
print_type none name p = p
print_type (some t) name p = close_node (add_value t.identifier (add_node name p))

abbrev pub resolved_name : Bytes
resolved_name = codes "ResolvedType"

-- What the libraries write of a number.
pub record Digits (D : Type 0) : Type 0 where
  pub to_string : D → Bytes
  pub str : ℤ → Bytes

-- A kind of token that the table of names does not have prints as nothing here; the source reads
-- its name unchecked.
module _ {D : Type 0} (S : Digits D) where
  unfoldable mutual
    pub visit : Node D → PrettyPrinter → PrettyPrinter
    visit (float_literal_expression _ value resolved_type) p = close_node (
        print_type resolved_type resolved_name
          (add_value (S.to_string value) (add_node (codes "FloatLiteral") p)))
    visit (int_literal_expression _ value resolved_type) p = close_node (
        print_type resolved_type resolved_name
          (add_value (S.str value) (add_node (codes "IntLiteralExpression") p)))
    visit (binary_expression _ op lhs rhs operand_type resolved_type) p = close_node (
        visit rhs (
          visit lhs (
            print_type operand_type (codes "OperandType") (
              print_type resolved_type resolved_name (
                add_value (get_or (token_type_to_str op) [])
                  (add_node (codes "BinaryExpression") p))))))
    visit (variable_expression _ name resolved_type) p = close_node (
        print_type resolved_type resolved_name
          (add_string_value name (add_node (codes "VariableExpression") p)))
    visit (variable_declaration_statement _ name value type_identifier declaration_type) p =
        close_node (
          visit_maybe type_identifier (
            visit value (
              print_type declaration_type (codes "DeclarationType")
                (add_string_value name (add_node (codes "VariableDeclarationStatement") p)))))
    visit (variable_assignment_statement _ name value _) p =
        close_node (visit value (add_string_value name (add_node (codes "VarAssign") p)))
    visit (show_statement _ expr _) p = close_node (visit expr (add_node (codes "Show") p))
    visit (function_declaration _ name statements) p =
        close_node
          (visit statements (add_string_value name (add_node (codes "FunctionDeclaration") p)))
    visit (function_call_expression _ name) p =
        close_node (add_string_value name (add_node (codes "FunctionCall") p))
    visit (program _ functions) p =
        close_node (visit_nodes functions (add_node (codes "Program") p))
    visit (return_statement _ expr _) p =
        close_node (visit expr (add_node (codes "ReturnStatement") p))
    visit (type_expression _ name) p =
        close_node (add_value name (add_node (codes "TypeExpression") p))
    visit (if_statement _ condition if_then if_else) p = close_node (
        visit_else if_else (
          close_node (
            visit if_then (
              add_node (codes "IfThen") (
                close_node (
                  visit condition (add_node (codes "Cond") (add_node (codes "IfStatement") p))))))))
    visit (block_statement _ statements) p = visit_nodes statements p
    visit (loop_statement _ body) p = close_node (visit body (add_node (codes "Loop") p))
    visit (break_statement _) p = close_node (add_node (codes "Break") p)
    visit (cycle_statement _) p = close_node (add_node (codes "Cycle") p)

    -- `if (stmt.type_identifier)`.
    pub visit_maybe : MaybeNode D → PrettyPrinter → PrettyPrinter
    visit_maybe null p = p
    visit_maybe (present n) p = visit n p

    -- `if (ifstmt.if_else)`.
    pub visit_else : MaybeNode D → PrettyPrinter → PrettyPrinter
    visit_else null p = p
    visit_else (present n) p = close_node (visit n (add_node (codes "IfElse") p))

    pub visit_nodes : Nodes D → PrettyPrinter → PrettyPrinter
    visit_nodes nil p = p
    visit_nodes (cons n ns) p = visit_nodes ns (visit n p)
