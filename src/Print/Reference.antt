-- ===== src/Print/Reference.antt =====
-- The text of include/print_visitor.h against s-expressions with their depth.
use b2_lang.Prelude.{
  ℕ, ◌+◌, ◌-◌, ◌*◌, ◌%◌, ◌<◌, ◌≡◌, refl, sym, ap, ◌∙◌, Option, none, some, [], ◌∷◌, ◌++◌,
  append_assoc, append-nil, Bool-cases, inl, inr, ◌==◌, get_or, Bytes, codes, arith,
}
use b2_lang.Token.{token_type_to_str}
use b2_lang.Ast.{
  Ty, Node, MaybeNode, Nodes, float_literal_expression, binary_expression, variable_expression,
  variable_assignment_statement, variable_declaration_statement, show_statement,
  function_declaration, function_call_expression, program, return_statement, type_expression,
  int_literal_expression, if_statement, block_statement, loop_statement, break_statement,
  cycle_statement, null, present, nil, cons,
}
use b2_lang.Print.{
  PrettyPrinter, size_mod, spaces, add_node, add_value, add_string_value, close_node, print_type,
  resolved_name, Digits, visit, visit_maybe, visit_else, visit_nodes,
}
use b2_lang.Print.Sexp.{
  value, quoted, node, Items, end, item, join, indent, render, render_all, one, typed, items,
  maybe_items, else_items, all_items,
}

abbrev printer : ℕ → Bytes → PrettyPrinter
printer d text = record { depth = d; output = text }

-- The printer writes what the items render to at its depth, and keeps its depth.
Prints : (PrettyPrinter → PrettyPrinter) → Items → Type 0
Prints f is =
    (p : PrettyPrinter)
    → p.depth < size_mod
    → f p ≡ printer p.depth (p.output ++ render_all p.depth is)

render_all-join :
    (d : ℕ) (is js : Items) → render_all d (join is js) ≡ render_all d is ++ render_all d js
unfolding join render
render_all-join d end js = refl
render_all-join d (item i is) js =
    rw (render_all-join d is js)
      (sym (append_assoc (render d i) (render_all d is) (render_all d js)))

Prints-end : Prints (λ p. p) end
unfolding Prints render
Prints-end p h = rw (append-nil p.output) refl

Prints-join :
    (f g : PrettyPrinter → PrettyPrinter) (is js : Items)
    → Prints f is
    → Prints g js
    → Prints (λ p. g (f p)) (join is js)
unfolding Prints
Prints-join f g is js pf pg p h =
    ap g (pf p h)
    ∙ pg (printer p.depth (p.output ++ render_all p.depth is)) h
    ∙ ap (printer p.depth) (
        append_assoc p.output (render_all p.depth is) (render_all p.depth js)
        ∙ ap (λ text. p.output ++ text) (sym (render_all-join p.depth is js)))

Prints-value : (text : Bytes) → Prints (add_value text) (one (value text))
unfolding Prints render add_value
Prints-value text p h = rw (append-nil text) refl

Prints-quoted : (text : Bytes) → Prints (add_string_value text) (one (quoted text))
unfolding Prints render add_string_value
Prints-quoted text p h = rw (append-nil (text ++ (b'"' ∷ []))) refl

add_node-indent :
    (name : Bytes) (p : PrettyPrinter)
    → add_node name p
      ≡ printer ((p.depth + 1) % size_mod) (p.output ++ (indent p.depth ++ (b'(' ∷ name)))
unfolding add_node
add_node-indent name p = elim (Bool-cases (p.depth == 0)) [
  | inl e ↦ rw e refl
  | inr e ↦ rw e (
      ap (printer ((p.depth + 1) % size_mod))
        (append_assoc p.output (b'\n' ∷ spaces (p.depth * 4 % size_mod)) (b'(' ∷ name)))
]

close-depth : (d : ℕ) → d < size_mod → ((d + 1) % size_mod + size_mod - 1) % size_mod ≡ d
close-depth d h = omega arith

Prints-node :
    (name : Bytes) (body : PrettyPrinter → PrettyPrinter) (is : Items)
    → Prints body is
    → Prints (λ p. close_node (body (add_node name p))) (one (node name is))
unfolding Prints render close_node
Prints-node name body is h p l =
    ap (λ q. close_node (body q)) (add_node-indent name p)
    ∙ ap close_node (h (printer deeper (p.output ++ opening)) (omega arith))
    ∙ ap (λ d. printer d (p.output ++ opening ++ inside ++ (b')' ∷ []))) (close-depth p.depth l)
    ∙ ap (printer p.depth) (
        ap (λ text. text ++ (b')' ∷ [])) (append_assoc p.output opening inside)
        ∙ append_assoc p.output (opening ++ inside) (b')' ∷ [])
        ∙ ap (λ text. p.output ++ text) (sym (append-nil (opening ++ inside ++ (b')' ∷ [])))))
  where
    deeper : ℕ
    deeper = (p.depth + 1) % size_mod

    opening : Bytes
    opening = indent p.depth ++ (b'(' ∷ name)

    inside : Bytes
    inside = render_all deeper is

Prints-typed : (name : Bytes) (t : Option Ty) → Prints (print_type t name) (typed name t)
unfolding print_type typed
Prints-typed name none = Prints-end
Prints-typed name (some t) =
    Prints-node name (add_value t.identifier) (one (value t.identifier)) (Prints-value t.identifier)

abbrev operand_name : Bytes
operand_name = codes "OperandType"

abbrev declaration_name : Bytes
declaration_name = codes "DeclarationType"

-- A node around a body.
abbrev side : Bytes → (PrettyPrinter → PrettyPrinter) → PrettyPrinter → PrettyPrinter
side name body p = close_node (body (add_node name p))

-- A value first.
Prints-after :
    (text : Bytes) (f : PrettyPrinter → PrettyPrinter) (is : Items)
    → Prints f is
    → Prints (λ p. f (add_value text p)) (item (value text) is)
unfolding join
Prints-after text f is h =
    Prints-join (add_value text) f (one (value text)) is (Prints-value text) h

Prints-after_quoted :
    (text : Bytes) (f : PrettyPrinter → PrettyPrinter) (is : Items)
    → Prints f is
    → Prints (λ p. f (add_string_value text p)) (item (quoted text) is)
unfolding join
Prints-after_quoted text f is h =
    Prints-join (add_string_value text) f (one (quoted text)) is (Prints-quoted text) h

module _ {D : Type 0} (S : Digits D) where
  mutual
    unfolding visit items join

    visit-Prints : (n : Node D) → Prints (visit S n) (items S n)
    visit-Prints (float_literal_expression _ v t) =
        Prints-node _ _ _ (Prints-after _ _ _ (Prints-typed resolved_name t))
    visit-Prints (int_literal_expression _ v t) =
        Prints-node _ _ _ (Prints-after _ _ _ (Prints-typed resolved_name t))
    visit-Prints (binary_expression _ op l r o t) = Prints-node (codes "BinaryExpression") _ _ (
        Prints-after (get_or (token_type_to_str op) [])
          (λ p. visit S r (visit S l (print_type o operand_name (print_type t resolved_name p)))) _
          (Prints-join (print_type t resolved_name) _ (typed resolved_name t) _
            (Prints-typed resolved_name t)
            (Prints-join (print_type o operand_name) _ (typed operand_name o) _
              (Prints-typed operand_name o)
              (Prints-join (visit S l) (visit S r) (items S l) (items S r) (visit-Prints l)
                (visit-Prints r)))))
    visit-Prints (variable_expression _ name t) =
        Prints-node _ _ _ (Prints-after_quoted _ _ _ (Prints-typed resolved_name t))
    visit-Prints (variable_declaration_statement _ name v a t) =
        Prints-node (codes "VariableDeclarationStatement") _ _ (
          Prints-after_quoted name
            (λ p. visit_maybe S a (visit S v (print_type t declaration_name p))) _
            (Prints-join (print_type t declaration_name) _ (typed declaration_name t) _
              (Prints-typed declaration_name t)
              (Prints-join (visit S v) (visit_maybe S a) (items S v) (maybe_items S a)
                (visit-Prints v) (maybe-Prints a))))
    visit-Prints (variable_assignment_statement _ name v _) =
        Prints-node (codes "VarAssign") _ _
          (Prints-after_quoted name (visit S v) (items S v) (visit-Prints v))
    visit-Prints (show_statement _ e _) =
        Prints-node (codes "Show") (visit S e) (items S e) (visit-Prints e)
    visit-Prints (function_declaration _ name body) =
        Prints-node (codes "FunctionDeclaration") _ _
          (Prints-after_quoted name (visit S body) (items S body) (visit-Prints body))
    visit-Prints (function_call_expression _ name) =
        Prints-node (codes "FunctionCall") (add_string_value name) _ (Prints-quoted name)
    visit-Prints (program _ fs) =
        Prints-node (codes "Program") (visit_nodes S fs) (all_items S fs) (all-Prints fs)
    visit-Prints (return_statement _ e _) =
        Prints-node (codes "ReturnStatement") (visit S e) (items S e) (visit-Prints e)
    visit-Prints (type_expression _ name) =
        Prints-node (codes "TypeExpression") (add_value name) _ (Prints-value name)
    visit-Prints (if_statement _ c t e) = Prints-node (codes "IfStatement") _ _ (
        Prints-join (side (codes "Cond") (visit S c)) _ (one (node (codes "Cond") (items S c))) _
          (Prints-node (codes "Cond") (visit S c) (items S c) (visit-Prints c))
          (Prints-join (side (codes "IfThen") (visit S t)) (visit_else S e)
            (one (node (codes "IfThen") (items S t))) (else_items S e)
            (Prints-node (codes "IfThen") (visit S t) (items S t) (visit-Prints t))
            (else-Prints e)))
    visit-Prints (block_statement _ ns) = all-Prints ns
    visit-Prints (loop_statement _ body) =
        Prints-node (codes "Loop") (visit S body) (items S body) (visit-Prints body)
    visit-Prints (break_statement _) = Prints-node (codes "Break") (λ p. p) end Prints-end
    visit-Prints (cycle_statement _) = Prints-node (codes "Cycle") (λ p. p) end Prints-end

    maybe-Prints : (n : MaybeNode D) → Prints (visit_maybe S n) (maybe_items S n)
    maybe-Prints null = Prints-end
    maybe-Prints (present n) = visit-Prints n

    else-Prints : (n : MaybeNode D) → Prints (visit_else S n) (else_items S n)
    else-Prints null = Prints-end
    else-Prints (present n) = Prints-node (codes "IfElse") (visit S n) (items S n) (visit-Prints n)

    all-Prints : (ns : Nodes D) → Prints (visit_nodes S ns) (all_items S ns)
    all-Prints nil = Prints-end
    all-Prints (cons n ns) =
        Prints-join (visit S n) (visit_nodes S ns) (items S n) (all_items S ns) (visit-Prints n)
          (all-Prints ns)

  -- From any depth below 2^64 the print visitor appends to its output the text of the tree's
  -- s-expressions at that depth, and leaves the depth as it was.
  pub visit-render_all :
      (n : Node D) (depth : ℕ) (text : Bytes)
      → depth < size_mod
      → visit S n (record { depth = depth; output = text })
        ≡ record { depth = depth; output = text ++ render_all depth (items S n) }
  unfolding Prints
  visit-render_all n depth text h = visit-Prints n (printer depth text) h
