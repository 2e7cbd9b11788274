-- ===== src/Examples/Output.antt =====
-- The theorems on the print visitor (include/print_visitor.h) and the code generator
-- (src/codegen) at concrete trees. A value of LLVM is played by its width and the word that it
-- holds when the program runs.
use b2_lang.Prelude.{
  ℕ, ◌+◌, ◌%◌, ◌^◌, ◌<◌, ◌≡◌, refl, Bool, true, false, Option, none, some, [], ◌++◌, ℤ, pos, Bytes,
  codes, arith,
}
use b2_lang.Token.{TokenType, SourceLocation}
use b2_lang.Error.{Error, Result, ok, err, codegen_error, unsupported_operation, unknown_variable}
use b2_lang.Ast.{
  find_name, int8_type, Node, nil, cons, program, function_declaration, block_statement,
  loop_statement, break_statement, show_statement, variable_expression, int_literal_expression,
}
use b2_lang.Parser.Shape.{is_program}
use b2_lang.TypeCheck.Stmt.Loops.{jumps_in_loops}
use b2_lang.Print
use b2_lang.Print.{PrettyPrinter, Digits, size_mod}
use b2_lang.Print.Sexp.{render_all, items}
use b2_lang.Print.Reference.{visit-render_all}
use b2_lang.Codegen.Llvm.{Llvm}
use b2_lang.Codegen.Operations.{TypeOperations, build_type_operations, apply}
use b2_lang.Codegen.Operations.Compare.{
  icmp, bit, as_int, compare, MakesIcmp, apply-build_type_operations,
}
use b2_lang.Codegen.Literal.{num_bits, is_signed}
use b2_lang.Codegen.Pointers.{operations, required, deref, named}
use b2_lang.Codegen.Loops.{back_loop, push_loop, pop_loop}
use b2_lang.Codegen.Visit
use b2_lang.Codegen.Visit.{Codegen}
use b2_lang.Codegen.Visit.Quiet.{is_jump_error}
use b2_lang.Codegen.Visit.Jumps.{visit-loop_block_stack, visit-is_jump_error}
use b2_lang.Frontend.Generates.{compile-is_jump_error}
use b2_lang.Examples.Compiling.{whole, decimal, unequal_text, unequal_checked, unequal_compiled}

abbrev loc : SourceLocation
loc = record { line = 1; column = 1; filename = [] }

-- The word of a comparison, and 0 in place of another word.
abbrev word_of : ℕ → Option Bool → ℕ × ℕ
word_of w none = (w, 0)
word_of w (some r) = (1, bit r)

abbrev machine : Llvm ℤ
machine = record {
  Context = ℕ;
  Value = ℕ × ℕ;
  Function = Bytes;
  Block = ℕ;
  create = λ k a b name s. (word_of a.0 (icmp a.0 k a.1 b.1), s);
  create_alloca = λ t name s. ((0, s), s + 1);
  create_store = λ v p s. s;
  create_load = λ t p name s. ((8, 0), s);
  create_call = λ f vs s. ((32, 0), s);
  create_ret = λ v s. (v, s);
  create_br = λ b s. s;
  create_cond_br = λ v b c s. s;
  create_global_string_ptr = λ text name s. ((0, s), s + 1);
  set_insert_point = λ b s. s;
  has_terminator = λ s. false;
  constant_fp = λ d. (0, 0);
  constant_int = λ bits v signed. (bits, v % 2 ^ bits);
  to_uint64 = λ v. 0;
  get_function = λ name s. some name;
  create_function = λ name s. (name, s);
  create_block = λ name f s. (s, s + 1);
}

machine-MakesIcmp : MakesIcmp machine (λ v. v.0) (λ v. v.1)
machine-MakesIcmp k a b name s r wide same la lb h = rw h (refl, refl)

-- -1 < 1 on the words 255 and 1 of eight bits.
less_signed : compare TokenType.less_than (as_int true 8 255) (as_int true 8 1) ≡ some true
unfolding as_int
less_signed = refl

int8_bits : num_bits int8_type.type_id ≡ some 8
unfolding num_bits
int8_bits = refl

int8_signed : is_signed int8_type.type_id ≡ some true
unfolding is_signed
int8_signed = refl

apply-build_type_operations_example :
    (o : TypeOperations) × (m : (ℕ × ℕ) × ℕ) × (build_type_operations int8_type ≡ ok o)
    × (apply machine o TokenType.less_than (8, 255) (8, 1) 0 ≡ ok m)
    × (m.0.0 ≡ 1)
    × (m.0.1 ≡ 1)
apply-build_type_operations_example =
    apply-build_type_operations machine (λ v. v.0) (λ v. v.1) machine-MakesIcmp (8, 255) (8, 1) 0
      refl (omega arith) (omega arith) int8_type true TokenType.less_than true int8_bits int8_signed
      less_signed

-- `func f() ... end`.
abbrev function_of : Node ℤ → Node ℤ
function_of n =
    program loc (cons (function_declaration loc (codes "f") (block_statement loc (cons n nil))) nil)

abbrev new_generator : Codegen machine
new_generator = record {
  context = 0;
  named_values = [];
  current_function = none;
  loop_block_stack = [];
  result = none;
}

abbrev loop_tree : Node ℤ
loop_tree = function_of (loop_statement loc (block_statement loc (cons (break_statement loc) nil)))

abbrev generated : Result (Codegen machine) → Codegen machine
generated (ok g) = g
generated _ = new_generator

abbrev loop_generated : Codegen machine
loop_generated = generated (Visit.visit machine loop_tree new_generator)

loop_visited : Visit.visit machine loop_tree new_generator ≡ ok loop_generated
unfolding Visit.visit Visit.begin_function Visit.begin_loop Visit.new_block Visit.start_block
    Visit.jump Visit.visit_break Visit.end_loop required deref back_loop push_loop pop_loop
loop_visited = refl

loop_program : is_program loop_tree ≡ true
unfolding is_program
loop_program = refl

visit-loop_block_stack_example : loop_generated.loop_block_stack ≡ new_generator.loop_block_stack
visit-loop_block_stack_example =
    visit-loop_block_stack machine loop_tree new_generator loop_generated loop_program loop_visited

abbrev unknown_tree : Node ℤ
unknown_tree = function_of (show_statement loc (variable_expression loc (codes "x") none) none)

abbrev unknown_x : Error
unknown_x = codegen_error (unknown_variable (codes "x"))

unknown_visited : Visit.visit machine unknown_tree new_generator ≡ err unknown_x
unfolding Visit.visit Visit.begin_function Visit.show_format Visit.visit_variable required named
    find_name
unknown_visited = refl

unknown_program : is_program unknown_tree ≡ true
unfolding is_program
unknown_program = refl

unknown_jumps : jumps_in_loops false unknown_tree ≡ true
unfolding jumps_in_loops
unknown_jumps = refl

visit-is_jump_error_example : is_jump_error unknown_x ≡ false
visit-is_jump_error_example =
    visit-is_jump_error machine unknown_tree new_generator unknown_x unknown_program unknown_jumps
      refl unknown_visited

abbrev no_unequal : Error
no_unequal = codegen_error (unsupported_operation TokenType.not_equals)

unequal_thrown : Visit.visit machine unequal_checked.1 new_generator ≡ err no_unequal
unfolding Visit.visit Visit.begin_function unequal_checked Visit.declare_new named
    Visit.visit_int_literal deref required num_bits is_signed Visit.visit_operation operations
    build_type_operations apply
unequal_thrown = refl

compile-is_jump_error_example : is_jump_error no_unequal ≡ false
compile-is_jump_error_example =
    compile-is_jump_error whole decimal machine [] unequal_text unequal_checked.0 unequal_checked.1
      new_generator no_unequal unequal_compiled refl unequal_thrown

abbrev ones : Digits ℤ
ones = record { to_string = λ d. codes "1.000000"; str = λ v. codes "1" }

abbrev show_tree : Node ℤ
show_tree = show_statement loc (int_literal_expression loc (pos 1) (some int8_type)) none

show_printed : Print.visit ones show_tree (record { depth = 0; output = [] }) ≡ record {
  depth = 0;
  output = codes "(Show\n    (IntLiteralExpression 1\n        (ResolvedType Int8)))";
}
unfolding Print.visit Print.add_node Print.add_value Print.print_type Print.close_node
show_printed = refl

one_small : 1 < size_mod
one_small = omega arith

visit-render_all_example :
    Print.visit ones show_tree (record { depth = 1; output = codes "(Block" })
    ≡ record { depth = 1; output = codes "(Block" ++ render_all 1 (items ones show_tree) }
visit-render_all_example = visit-render_all ones show_tree 1 (codes "(Block") one_small
